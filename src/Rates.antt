-- ===== src/Rates.antt =====
-- backend/src/rates/rates.service.ts and convert-minor.ts.
pub mod Laws
use max_one.Prelude.{ℕ, String, ◌<>◌, none, some, if◌then◌else◌, str_eq}
use max_one.Prelude.Int.{ℤ, pos}
use max_one.Exec.{service_unavailable, pure, throw, ◌>>=◌}
use max_one.Schema.{Decimal}
use max_one.World.{Prisma, Host, Action, DecimalJs}
use max_one.Cache
use max_one.Cache.{Decision, keep}

-- The amount times the rate, rounded half to even to whole minor units.
unfoldable pub convert_minor : DecimalJs → ℤ → Decimal → ℤ
convert_minor js amount_minor rate =
    js.to_number (js.round_half_even (js.times (js.of_number amount_minor) rate))

-- `RATE_TTL`, in seconds
abbrev pub rate_ttl : ℕ
rate_ttl = 60

pub record Quote : Type 0 where
  pub from_currency : String
  pub to_currency : String
  pub amount : ℤ
  pub rate : String
  pub converted : ℤ

module _ {p : Prisma} (host : Host) where
  fetch_rate : String → String → Action p Decimal
  fetch_rate from to = elim (host.latest from to) [
    | none ↦ throw (service_unavailable "Exchange rate provider unavailable")
    | some none ↦ throw (service_unavailable ("No exchange rate for " <> from <> " -> " <> to))
    | some (some rate) ↦ pure rate
  ]

  unfoldable pub get_rate : String → String → Action p Decimal
  unfolding fetch_rate Cache.wrap
  get_rate from to = if str_eq from to then pure (host.decimal.of_number (pos 1)) else do
    text ←
        Cache.wrap host ("rates:" <> from <> ":" <> to) rate_ttl
          (do rate ← fetch_rate from to; pure (host.decimal.to_string rate)) (λ _. keep)
    pure (host.decimal.of_string text)

  unfoldable pub quote : String → String → ℤ → Action p Quote
  unfolding get_rate convert_minor
  quote from to amount = do
    rate ← get_rate from to
    pure (record {
      from_currency = from;
      to_currency = to;
      amount = amount;
      rate = host.decimal.to_string rate;
      converted = convert_minor host.decimal amount rate;
    })

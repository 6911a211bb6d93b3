-- ===== src/Views/Prices.antt =====
-- customer/lib/alerts/compute.ts and customer/lib/markets/live-prices.ts: what the pages derive from
-- the live prices. A price is counted as in Alerts.
use max_one.Prelude.{
  ℕ, ◌≡◌, refl, String, Bool, false, not, Option, none, some, List, [], ◌∷◌, map, str_eq,
  if◌then◌else◌, arith, inl, inr, Option-cases, option_map,
}
use max_one.Prelude.Int.{ℤ, ltb_ℤ}
use max_one.Schema.{PriceAlert, AlertDirection, above, below}
use max_one.World.{Prisma, IsPrisma, World, Host}
use max_one.Alerts.{Asset, Texts, price_of, fires, check}
use max_one.Alerts.Laws.{check_marks}

pub record PriceInfo : Type 0 where
  pub symbol : String
  pub price : ℤ
  pub image : Option String

-- `bySymbol.get(symbol)`, where the last of a symbol's prices counts
unfoldable pub find_price : String → List PriceInfo → Option PriceInfo
find_price symbol [] = none
find_price symbol (p ∷ prices) =
    let rest = find_price symbol prices in
    elim rest [ some found ↦ some found | none ↦ if str_eq p.symbol symbol then some p else none ]

pub record AlertRow : Type 0 where
  pub alert : PriceAlert
  pub current_price : Option ℤ
  pub triggered : Bool
  pub image : Option String

abbrev pub is_crossed : AlertDirection → ℤ → Option ℤ → Bool
is_crossed direction target none = false
is_crossed above target (some price) = not (ltb_ℤ price target)
is_crossed below target (some price) = not (ltb_ℤ target price)

-- `match?.image`
abbrev pub image_of : Option PriceInfo → Option String
image_of none = none
image_of (some p) = p.image

-- A row of `computeAlerts`
unfoldable pub compute_alert : List PriceInfo → PriceAlert → AlertRow
unfolding find_price
compute_alert prices a =
    let match = find_price a.symbol prices in
    let current = option_map (λ p. p.price) match in
    record {
      alert = a;
      current_price = current;
      triggered = is_crossed a.direction a.target_price current;
      image = image_of match;
    }

abbrev pub compute_alerts : List PriceAlert → List PriceInfo → List AlertRow
compute_alerts alerts prices = map (compute_alert prices) alerts

-- A coin of the catalogue, with the numbers that tick
pub record MarketAsset : Type 0 where
  pub id : String
  pub symbol : String
  pub name : String
  -- `type`
  pub kind : String
  pub price : ℤ
  pub change_24h : ℤ
  pub image : Option String

unfoldable pub find_live : String → List MarketAsset → Option MarketAsset
find_live symbol [] = none
find_live symbol (a ∷ assets) =
    let rest = find_live symbol assets in
    elim rest [ some found ↦ some found | none ↦ if str_eq a.symbol symbol then some a else none ]

abbrev pub overlay : MarketAsset → Option MarketAsset → MarketAsset
overlay a none = a
overlay a (some live) = record a { price = live.price; change_24h = live.change_24h }

-- `mergeLivePrices`
unfoldable pub merge_live_prices : List MarketAsset → List MarketAsset → List MarketAsset
unfolding find_live
merge_live_prices current incoming = map (λ a. overlay a (find_live a.symbol incoming)) current

-- The prices as the price tick hands them to the check.
abbrev pub assets_of : List PriceInfo → List Asset
assets_of [] = []
assets_of (p ∷ prices) = record { symbol = p.symbol; price = p.price } ∷ assets_of prices

price_of-find_price :
    (symbol : String) (prices : List PriceInfo)
    → price_of symbol (assets_of prices) ≡ option_map (λ p. p.price) (find_price symbol prices)
unfolding price_of find_price
price_of-find_price symbol [] = refl
price_of-find_price symbol (p ∷ prices) =
    let ih = price_of-find_price symbol prices in
    elim (Option-cases (find_price symbol prices)) [
      | inl gone ↦ ground (arith, ih, gone)
      | inr (found, at) ↦ ground (arith, ih, at)
    ]

compute_alert-fires :
    (prices : List PriceInfo) (a : PriceAlert)
    → (compute_alert prices a).triggered ≡ fires (assets_of prices) a
unfolding compute_alert fires
compute_alert-fires prices a =
    let e = price_of-find_price a.symbol prices in
    elim (Option-cases (find_price a.symbol prices)) [
      | inl gone ↦ ground (arith, e, gone)
      | inr (found, at) ↦ ground (arith, e, at)
    ]

-- Of an alert that still waits, the field triggered of its row at some prices tells whether the
-- check of the backend at the same prices marks it: if it is set, the check leaves the alert
-- triggered at the time of the check, else as it was.
pub compute_alert-check :
    {p : Prisma} (host : Host) (texts : Texts) (prices : List PriceInfo) (w : World p) (k : ℕ)
    (a : PriceAlert)
    → IsPrisma p
    → p.price_alert.find_unique k w.db.price_alerts ≡ some a
    → a.triggered_at ≡ none
    → p.price_alert.find_unique k (check host texts (assets_of prices) w).1.db.price_alerts
      ≡ some (
          if (compute_alert prices a).triggered
          then record a { triggered_at = some host.now }
          else a)
compute_alert-check host texts prices w k a lawful found waits =
    let marked = check_marks lawful (assets_of prices) w host texts k in
    let e = compute_alert-fires prices a in ground (arith, marked, found, waits, e)

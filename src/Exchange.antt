-- ===== src/Exchange.antt =====
-- customer/components/exchange/exchange-screen.tsx: between two of a person's own wallets, at a live
-- quote.
pub mod Apart
pub mod Laws
use max_one.Prelude.{
  ℕ, suc, ◌≡◌, String, Bool, true, false, not, ◌&&◌, ◌||◌, Option, none, some, List, [], ◌∷◌, ◌==◌,
  str_eq, if◌then◌else◌, option_map,
}
use max_one.Prelude.Int.{ℤ, pos, ltb_ℤ}
use max_one.Schema.{Json}
use max_one.Amounts.{sanitize_amount, parse_amount}
use max_one.Pay.{ApiResult, success, failed, key_or}

pub record WalletSummary : Type 0 where
  pub id : ℕ
  pub currency : String
  pub balance : ℤ

pub record QuoteKey : Type 0 where
  pub minor : ℕ
  pub from : String
  pub to : String

-- What `/rates/quote` answered, with the inputs that it answered
pub record QuoteResult : Type 0 where
  pub converted : ℤ
  pub rate : String
  pub key : QuoteKey

pub record Screen : Type 0 where
  -- `useIdempotencyKey`
  pub key : Option String
  pub from_id : ℕ
  pub to_id : ℕ
  pub amount : List ℕ
  pub result : Option QuoteResult
  pub failed_for : Option QuoteKey
  pub busy : Bool
  pub done : Bool
  -- how often the effect of the quote has run: a reply to an older run is cancelled
  pub effect : ℕ
  -- the inputs that each run has captured, newest first; a run that asks for no quote has none
  pub asked : List (ℕ × QuoteKey)

pub record Quote : Type 0 where
  pub converted : ℤ
  pub rate : String

pub record SubmitBody : Type 0 where
  pub from_wallet_id : ℕ
  pub to_wallet_id : ℕ
  pub amount : ℕ

pub data Side : Type 0 where
  from_side to_side : Side

-- What can happen; a reply comes with the run of the effect that it answers.
pub data Event : Type 0 where
  typed : List ℕ → Event
  swapped : Event
  picked : Side → ℕ → Event
  quoted : ℕ → ApiResult Quote → Event
  submitted : (fresh : String) → Event
  replied : ApiResult Json → Event

abbrev pub same_key : QuoteKey → QuoteKey → Bool
same_key a b = (a.minor == b.minor) && str_eq a.from b.from && str_eq a.to b.to

abbrev pub same_keys : Option QuoteKey → Option QuoteKey → Bool
same_keys none none = true
same_keys none (some b) = false
same_keys (some a) none = false
same_keys (some a) (some b) = same_key a b

abbrev pub find_wallet : ℕ → List WalletSummary → Option WalletSummary
find_wallet id [] = none
find_wallet id (w ∷ ws) = if w.id == id then some w else find_wallet id ws

abbrev pub key_between : Option ℕ → Option WalletSummary → Option WalletSummary → Option QuoteKey
key_between none from to = none
key_between (some minor) none to = none
key_between (some minor) (some from) none = none
key_between (some minor) (some from) (some to) =
    some (record { minor = minor; from = from.currency; to = to.currency })

abbrev pub answer : QuoteKey → ApiResult Quote → Screen → Screen
answer key (failed e) s = record s { failed_for = some key }
answer key (success q) s = record s {
  failed_for = none;
  result = some (record { converted = q.converted; rate = q.rate; key = key });
}

-- The inputs that a run of the effect has captured
unfoldable pub captured : ℕ → List (ℕ × QuoteKey) → Option QuoteKey
captured effect [] = none
captured effect ((n, key) ∷ asked) = if effect == n then some key else captured effect asked

abbrev capture : ℕ → Option QuoteKey → List (ℕ × QuoteKey) → List (ℕ × QuoteKey)
capture effect none asked = asked
capture effect (some key) asked = (effect, key) ∷ asked

abbrev answer_for : Option QuoteKey → ApiResult Quote → Screen → Screen
answer_for none r s = s
answer_for (some key) r s = answer key r s

-- The reply to a run of the effect, which is dropped once the effect has run again
unfoldable pub settle_quote : ℕ → ApiResult Quote → Screen → Screen
unfolding captured
settle_quote effect r s = if effect == s.effect then answer_for (captured effect s.asked) r s else s

-- `current`: whether the quote is for what is typed now
abbrev pub is_current : Option QuoteKey → Option QuoteResult → Bool
is_current none result = false
is_current (some key) none = false
is_current (some key) (some q) = same_key q.key key

-- `overBalance`, for an amount that is there
abbrev over_balance : ℕ → WalletSummary → Bool
over_balance minor from = ltb_ℤ from.balance (pos minor)

abbrev pub body_between : Screen → Option ℕ → Option WalletSummary → Option SubmitBody
body_between s none from = none
body_between s (some minor) none = none
body_between s (some minor) (some from) =
    if over_balance minor from
    then none
    else some (record { from_wallet_id = s.from_id; to_wallet_id = s.to_id; amount = minor })

abbrev begin_when : Option SubmitBody → String → Screen → Screen
begin_when none fresh s = s
begin_when (some body) fresh s = record s { key = some (key_or s.key fresh); busy = true }

unfoldable pub finish_submit : ApiResult Json → Screen → Screen
finish_submit (failed e) s = record s { busy = false }
finish_submit (success data_) s = record s { busy = false; key = none; done = true }

module _ (wallets : List WalletSummary) where
  -- `key`
  abbrev pub quote_key : Screen → Option QuoteKey
  quote_key s =
      key_between (parse_amount s.amount) (find_wallet s.from_id wallets)
        (find_wallet s.to_id wallets)

  -- The effect of the quote runs again when its inputs have changed.
  abbrev pub rerun : Screen → Screen → Screen
  rerun old s = if same_keys (quote_key old) (quote_key s) then s else record s {
    effect = suc old.effect;
    asked = capture (suc old.effect) (quote_key s) old.asked;
  }

  abbrev pub type_amount : List ℕ → Screen → Screen
  type_amount raw s = rerun s (record s { amount = sanitize_amount raw })

  abbrev pub swap : Screen → Screen
  swap s = rerun s (record s { from_id = s.to_id; to_id = s.from_id })

  unfoldable pub pick : Side → ℕ → Screen → Screen
  pick from_side id s =
      rerun s (record s { to_id = if id == s.to_id then s.from_id else s.to_id; from_id = id })
  pick to_side id s =
      rerun s (record s { from_id = if id == s.from_id then s.to_id else s.from_id; to_id = id })

  -- The request of `submit`, where `canSubmit`
  unfoldable pub submission : Screen → Option SubmitBody
  submission s =
      if is_current (quote_key s) s.result
      then body_between s (parse_amount s.amount) (find_wallet s.from_id wallets)
      else none

  unfoldable pub begin_submit : String → Screen → Screen
  unfolding submission
  begin_submit fresh s = begin_when (submission s) fresh s

  unfoldable pub step : Event → Screen → Screen
  unfolding pick settle_quote begin_submit finish_submit
  step (typed raw) s = type_amount raw s
  step swapped s = swap s
  step (picked side id) s = pick side id s
  step (quoted effect r) s = settle_quote effect r s
  step (submitted fresh) s = begin_submit fresh s
  step (replied r) s = finish_submit r s

  unfoldable pub run : List Event → Screen → Screen
  unfolding step
  run [] s = s
  run (e ∷ es) s = run es (step e s)

-- ===== src/Markets/Providers.antt =====
-- backend/src/markets/providers/: the replies of Kraken (crypto.provider.ts, kraken-shape.ts) and of
-- CoinLore (supply.provider.ts). What a `fetch` comes to is a parameter, and so is `Number`; the
-- warnings of the log are left out.
use max_one.Prelude.{
  ℕ, String, Bool, true, false, not, ◌&&◌, Option, none, some, List, [], ◌∷◌, ◌==◌, str_eq,
  if◌then◌else◌, or_default, option_map,
}
use max_one.Prelude.Int.{ℤ, pos, ltb_ℤ}
use max_one.Markets.{Coin, coins, Ticker, Candle}

-- A reply: `fetch` or the reading of its body throws, the status is no success, or there is a body,
-- with the errors that Kraken lists in it.
pub data KrakenReply (A : Type 0) : Type 0 where
  thrown : KrakenReply A
  refused : (status : ℕ) → KrakenReply A
  answered : (errors : List String) → (result : Option A) → KrakenReply A

-- `get`
abbrev pub get : {A : Type 0} → KrakenReply A → Option A
get thrown = none
get (refused status) = none
get (answered (e ∷ errors) result) = none
get (answered [] result) = result

-- An object with its keys in order, as texts of code points
abbrev pub Keyed : Type 0 → Type 0
Keyed A = List (List ℕ × A)

abbrev pub begins : List ℕ → List ℕ → Bool
begins [] s = true
begins (c ∷ t) [] = false
begins (c ∷ t) (d ∷ s) = (c == d) && begins t s

abbrev pub is_same : List ℕ → List ℕ → Bool
is_same [] [] = true
is_same [] (d ∷ s) = false
is_same (c ∷ t) [] = false
is_same (c ∷ t) (d ∷ s) = (c == d) && is_same t s

-- `s.includes(t)` and `s.endsWith(t)`
abbrev pub includes : List ℕ → List ℕ → Bool
includes t [] = begins t []
includes t (d ∷ s) = let rest = includes t s in if begins t (d ∷ s) then true else rest

abbrev pub ends_with : List ℕ → List ℕ → Bool
ends_with t [] = is_same t []
ends_with t (d ∷ s) = let rest = ends_with t s in if is_same t (d ∷ s) then true else rest

abbrev pub is_last : List ℕ → Bool
is_last key = is_same (b'l' ∷ b'a' ∷ b's' ∷ b't' ∷ []) key

-- The key that `pickResult` takes
abbrev pub is_key : Option (List ℕ) → List ℕ → Bool
is_key none key = not (is_last key)
is_key (some base) key =
    not (is_last key) && includes base key && ends_with (b'U' ∷ b'S' ∷ b'D' ∷ []) key

abbrev pub pick_result : {A : Type 0} → Keyed A → Option (List ℕ) → Option A
pick_result [] base = none
pick_result ((key, a) ∷ result) base =
    let rest = pick_result result base in if is_key base key then some a else rest

-- A row of the ticker; a field that is missing is none.
pub record KrakenTickerRow : Type 0 where
  pub c : Option (List String)
  pub h : Option (List String)
  pub l : Option (List String)

-- What the reading of a row comes to
pub data Read (A : Type 0) : Type 0 where
  throws skipped : Read A
  read : A → Read A

abbrev pub item : ℕ → List String → Option String
item i [] = none
item Prim.Native.Nat.zero (x ∷ xs) = some x
item (Prim.Native.Nat.suc i) (x ∷ xs) = item i xs

pub data CandleRow : Type 0 where
  malformed : CandleRow
  cells : List String → CandleRow

-- The rows of CoinLore
pub record CoinLoreRow : Type 0 where
  pub id : String
  pub csupply : Option String

abbrev pub quoted : Coin → Option ℤ → Option ℤ → Option ℤ → Read Ticker
quoted coin none high low = skipped
quoted coin (some price) high low =
    if ltb_ℤ (pos 0) price
    then read (record { symbol = coin.symbol; price = price; high_24h = high; low_24h = low })
    else skipped

abbrev pub put_ticker : Read Ticker → Option (List Ticker) → Option (List Ticker)
put_ticker throws rest = none
put_ticker skipped rest = rest
put_ticker (read t) rest = option_map (λ ts. t ∷ ts) rest

abbrev finite : Option ℤ → Option ℤ → Option ℤ → Option ℤ → Option ℤ → Option Candle
finite (some t) (some o) (some h) (some l) (some c) =
    some (record { t = t; o = o; h = h; l = l; c = c })
finite _ _ _ _ _ = none

abbrev pub put_candle : Option Candle → Option (List Candle) → Option (List Candle)
put_candle none rest = rest
put_candle (some k) rest = option_map (λ ks. k ∷ ks) rest

abbrev pub csupply_of : String → List CoinLoreRow → Option String
csupply_of id [] = none
csupply_of id (r ∷ rows) = if str_eq r.id id then r.csupply else csupply_of id rows

abbrev pub put_supply : String → Option ℤ → List (String × ℤ) → List (String × ℤ)
put_supply symbol none out = out
put_supply symbol (some supply) out = if ltb_ℤ (pos 0) supply then (symbol, supply) ∷ out else out

module _ (number : String → Option ℤ) where
  -- `Number`, where none is NaN or an infinity; `Number(undefined)` is NaN.
  abbrev pub number_of : Option String → Option ℤ
  number_of none = none
  number_of (some s) = number s

  abbrev pub read_cells :
      Coin → Option (List String) → Option (List String) → Option (List String) → Read Ticker
  read_cells coin (some c) (some h) (some l) =
      quoted coin (number_of (item 0 c)) (number_of (item 1 h)) (number_of (item 1 l))
  read_cells coin _ _ _ = throws

  abbrev pub read_ticker : Coin → KrakenTickerRow → Read Ticker
  read_ticker coin row = read_cells coin row.c row.h row.l

  abbrev pub read_found : Coin → Option KrakenTickerRow → Read Ticker
  read_found coin none = skipped
  read_found coin (some row) = read_ticker coin row

  -- The loop over the coins, where none is a throw
  unfoldable pub read_tickers : Keyed KrakenTickerRow → List Coin → Option (List Ticker)
  read_tickers result [] = some []
  read_tickers result (coin ∷ cs) =
      put_ticker (read_found coin (pick_result result (some coin.kraken_base)))
        (read_tickers result cs)

  abbrev pub tickers_of : Option (Keyed KrakenTickerRow) → List Ticker
  tickers_of none = []
  tickers_of (some result) = or_default (read_tickers result coins) []

  unfoldable pub fetch_tickers : KrakenReply (Keyed KrakenTickerRow) → List Ticker
  unfolding read_tickers
  fetch_tickers reply = tickers_of (get reply)

  abbrev pub read_candle : List String → Option Candle
  read_candle row =
      finite (number_of (item 0 row)) (number_of (item 1 row)) (number_of (item 2 row))
        (number_of (item 3 row)) (number_of (item 4 row))

  unfoldable pub read_candles : List CandleRow → Option (List Candle)
  read_candles [] = some []
  read_candles (malformed ∷ rows) = none
  read_candles (cells row ∷ rows) = put_candle (read_candle row) (read_candles rows)

  abbrev pub candles_of_rows : Option (List CandleRow) → List Candle
  candles_of_rows none = []
  candles_of_rows (some rows) = or_default (read_candles rows) []

  abbrev pub candles_of_result : Option (Keyed (List CandleRow)) → List Candle
  candles_of_result none = []
  candles_of_result (some result) = candles_of_rows (pick_result result none)

  unfoldable pub fetch_candles : KrakenReply (Keyed (List CandleRow)) → List Candle
  unfolding read_candles
  fetch_candles reply = candles_of_result (get reply)

  abbrev pub supplies : List CoinLoreRow → List Coin → List (String × ℤ)
  supplies rows [] = []
  supplies rows (coin ∷ cs) =
      put_supply coin.symbol (number_of (csupply_of coin.coinlore_id rows)) (supplies rows cs)

  -- `fetchSupply`, where none is a reply that is no success, or a throw
  abbrev pub fetch_supply : Option (List CoinLoreRow) → List (String × ℤ)
  fetch_supply none = []
  fetch_supply (some rows) = supplies rows coins

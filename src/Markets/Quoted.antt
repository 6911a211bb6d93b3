-- ===== src/Markets/Quoted.antt =====
-- backend/src/markets/providers/crypto.provider.ts: what the tickers of a reply of Kraken are.
use max_one.Prelude.{
  ◌≡◌, ◌⊎◌, inl, inr, String, Option, none, some, List, [], ◌∷◌, arith, or_default, Bool-cases,
}
use max_one.Prelude.Int.{ℤ, pos, ◌≤ℤ◌, ltb_ℤ}
use max_one.Markets.{Coin, coins, Ticker}
use max_one.Markets.Providers.{
  KrakenReply, KrakenTickerRow, Keyed, Read, throws, skipped, read, get, pick_result, number_of,
  item, quoted, read_cells, read_found, put_ticker, read_tickers, tickers_of, fetch_tickers,
}

-- Tickers of some of the coins, each at most once and in their order, at prices above 0
abbrev pub IsQuoted : List Ticker → List Coin → Type 0
IsQuoted [] cs = Unit
IsQuoted (t ∷ ts) [] = ⊥
IsQuoted (t ∷ ts) (coin ∷ cs) =
    ((t.symbol ≡ coin.symbol) × (pos 1 ≤ℤ t.price) × IsQuoted ts cs) ⊎ IsQuoted (t ∷ ts) cs

IsQuoted-later :
    (ts : List Ticker) (coin : Coin) (cs : List Coin) → IsQuoted ts cs → IsQuoted ts (coin ∷ cs)
IsQuoted-later [] coin cs h = h
IsQuoted-later (t ∷ ts) coin cs h = inr h

-- What the reading of the row of a coin may come to
abbrev IsOf : Coin → Read Ticker → Type 0
IsOf coin throws = Unit
IsOf coin skipped = Unit
IsOf coin (read t) = (t.symbol ≡ coin.symbol) × (pos 1 ≤ℤ t.price)

abbrev AreQuoted : Option (List Ticker) → List Coin → Type 0
AreQuoted none cs = Unit
AreQuoted (some ts) cs = IsQuoted ts cs

put_ticker-AreQuoted :
    (coin : Coin) (x : Read Ticker) (rest : Option (List Ticker)) (cs : List Coin)
    → IsOf coin x
    → AreQuoted rest cs
    → AreQuoted (put_ticker x rest) (coin ∷ cs)
put_ticker-AreQuoted coin throws rest cs of_coin h = tt
put_ticker-AreQuoted coin skipped none cs of_coin h = tt
put_ticker-AreQuoted coin skipped (some ts) cs of_coin h = IsQuoted-later ts coin cs h
put_ticker-AreQuoted coin (read t) none cs of_coin h = tt
put_ticker-AreQuoted coin (read t) (some ts) cs of_coin h = inl (of_coin.0, of_coin.1, h)

quoted-IsOf : (coin : Coin) (price high low : Option ℤ) → IsOf coin (quoted coin price high low)
quoted-IsOf coin none high low = tt
quoted-IsOf coin (some price) high low = elim (Bool-cases (ltb_ℤ (pos 0) price)) [
  | inl above ↦ ground arith
  | inr not_above ↦ ground arith
]

module _ (number : String → Option ℤ) where
  read_cells-IsOf :
      (coin : Coin) (c h l : Option (List String)) → IsOf coin (read_cells number coin c h l)
  read_cells-IsOf coin none h l = tt
  read_cells-IsOf coin (some c) none l = tt
  read_cells-IsOf coin (some c) (some h) none = tt
  read_cells-IsOf coin (some c) (some h) (some l) =
      quoted-IsOf coin (number_of number (item 0 c)) (number_of number (item 1 h))
        (number_of number (item 1 l))

  read_found-IsOf :
      (coin : Coin) (row : Option KrakenTickerRow) → IsOf coin (read_found number coin row)
  read_found-IsOf coin none = tt
  read_found-IsOf coin (some row) = read_cells-IsOf coin row.c row.h row.l

  read_tickers-AreQuoted :
      (result : Keyed KrakenTickerRow) (cs : List Coin)
      → AreQuoted (read_tickers number result cs) cs
  unfolding read_tickers
  read_tickers-AreQuoted result [] = tt
  read_tickers-AreQuoted result (coin ∷ cs) =
      put_ticker-AreQuoted coin
        (read_found number coin (pick_result result (some coin.kraken_base)))
        (read_tickers number result cs) cs
        (read_found-IsOf coin (pick_result result (some coin.kraken_base)))
        (read_tickers-AreQuoted result cs)

  or_none-IsQuoted :
      (ts : Option (List Ticker)) → AreQuoted ts coins → IsQuoted (or_default ts []) coins
  or_none-IsQuoted none h = tt
  or_none-IsQuoted (some ts) h = h

  tickers_of-IsQuoted :
      (result : Option (Keyed KrakenTickerRow)) → IsQuoted (tickers_of number result) coins
  tickers_of-IsQuoted none = tt
  tickers_of-IsQuoted (some result) =
      or_none-IsQuoted (read_tickers number result coins) (read_tickers-AreQuoted result coins)

  -- Whatever Kraken replies, the tickers are of some of the coins, in the order of the coins, each
  -- coin once at most, and each price is above 0.
  pub fetch_tickers-IsQuoted :
      (reply : KrakenReply (Keyed KrakenTickerRow)) → IsQuoted (fetch_tickers number reply) coins
  unfolding fetch_tickers
  fetch_tickers-IsQuoted reply = tickers_of-IsQuoted (get reply)

-- ===== src/Markets.antt =====
-- backend/src/markets/market-asset.ts and candle-math.ts: the coins, and what a number on the screen
-- means. A price is counted in units of 2 ^ -1074, as in Alerts.
pub mod Candles
pub mod Providers
pub mod Quoted
pub mod Service
pub mod Cached
pub mod Now
use max_one.Prelude.{
  ℕ, ◌-◌, ◌≡◌, String, Bool, true, false, Option, none, some, List, [], ◌∷◌, length, leb, ltb,
  str_eq, if◌then◌else◌,
}
use max_one.Prelude.Int.{ℤ, pos, negsuc, ltb_ℤ}

-- `kraken_base` is a text of code points.
pub record Coin : Type 0 where
  pub id : String
  pub symbol : String
  pub name : String
  pub kraken_pair : String
  pub kraken_base : List ℕ
  pub coinlore_id : String
  pub image : String

-- `COINS`
abbrev pub coins : List Coin
coins =
    record {
      id = "bitcoin";
      symbol = "BTC";
      name = "Bitcoin";
      kraken_pair = "XBTUSD";
      kraken_base = b'X' ∷ b'B' ∷ b'T' ∷ [];
      coinlore_id = "90";
      image = "https://assets.coingecko.com/coins/images/1/large/bitcoin.png";
    }
    ∷ record {
      id = "ethereum";
      symbol = "ETH";
      name = "Ethereum";
      kraken_pair = "ETHUSD";
      kraken_base = b'E' ∷ b'T' ∷ b'H' ∷ [];
      coinlore_id = "80";
      image = "https://assets.coingecko.com/coins/images/279/large/ethereum.png";
    }
    ∷ record {
      id = "solana";
      symbol = "SOL";
      name = "Solana";
      kraken_pair = "SOLUSD";
      kraken_base = b'S' ∷ b'O' ∷ b'L' ∷ [];
      coinlore_id = "48543";
      image = "https://assets.coingecko.com/coins/images/4128/large/solana.png";
    }
    ∷ record {
      id = "cardano";
      symbol = "ADA";
      name = "Cardano";
      kraken_pair = "ADAUSD";
      kraken_base = b'A' ∷ b'D' ∷ b'A' ∷ [];
      coinlore_id = "257";
      image = "https://assets.coingecko.com/coins/images/975/large/cardano.png";
    }
    ∷ record {
      id = "dogecoin";
      symbol = "DOGE";
      name = "Dogecoin";
      kraken_pair = "XDGUSD";
      kraken_base = b'X' ∷ b'D' ∷ b'G' ∷ [];
      coinlore_id = "2";
      image = "https://assets.coingecko.com/coins/images/5/large/dogecoin.png";
    }
    ∷ []

unfoldable pub find_coin : String → List Coin → Option Coin
find_coin id [] = none
find_coin id (c ∷ cs) = if str_eq c.id id then some c else find_coin id cs

unfoldable pub coin_by_id : String → Option Coin
unfolding find_coin
coin_by_id id = find_coin id coins

pub data Range : Type 0 where
  minute five_minutes quarter hour four_hours day : Range

abbrev pub range_text : Range → String
range_text minute = "1m"
range_text five_minutes = "5m"
range_text quarter = "15m"
range_text hour = "1h"
range_text four_hours = "4h"
range_text day = "1D"

pub record Ticker : Type 0 where
  pub symbol : String
  pub price : ℤ
  -- none is NaN
  pub high_24h : Option ℤ
  pub low_24h : Option ℤ

pub record Candle : Type 0 where
  pub t : ℤ
  pub o : ℤ
  pub h : ℤ
  pub l : ℤ
  pub c : ℤ

pub record MarketAsset : Type 0 where
  pub id : String
  pub symbol : String
  pub name : String
  -- `type`
  pub kind : String
  pub price : ℤ
  pub change_24h : ℤ
  pub image : String

pub record AssetDetail : Type 0 where
  pub asset : MarketAsset
  pub market_cap : ℤ
  pub high_24h : Option ℤ
  pub low_24h : Option ℤ

-- The arithmetic of doubles: `((now - then) / then) * 100`, and a product.
pub record Doubles : Type 0 where
  pub percent : (now then_ : ℤ) → ℤ
  pub times : ℤ → ℤ → ℤ

abbrev pub is_zero : ℤ → Bool
is_zero (pos Prim.Native.Nat.zero) = true
is_zero (pos (Prim.Native.Nat.suc n)) = false
is_zero (negsuc n) = false

abbrev pub max_ℤ : ℤ → ℤ → ℤ
max_ℤ a b = if ltb_ℤ a b then b else a

abbrev pub min_ℤ : ℤ → ℤ → ℤ
min_ℤ a b = if ltb_ℤ b a then b else a

-- `candles[i].c`
abbrev pub close_at : ℕ → List Candle → Option ℤ
close_at i [] = none
close_at Prim.Native.Nat.zero (k ∷ candles) = some k.c
close_at (Prim.Native.Nat.suc i) (k ∷ candles) = close_at i candles

abbrev pub change_between : Doubles → Option ℤ → Option ℤ → ℤ
change_between doubles none then_ = pos 0
change_between doubles (some now) none = pos 0
change_between doubles (some now) (some then_) =
    if is_zero then_ then pos 0 else doubles.percent now then_

-- `changeFromCandles`; a difference below 0 is 0 here as under `Math.max(0, ...)`.
unfoldable pub change_from_candles : Doubles → List Candle → ℕ → ℤ
change_from_candles doubles candles hours =
    if ltb (length candles) 2
    then pos 0
    else change_between doubles (close_at (length candles - 1) candles)
        (close_at (length candles - 1 - hours) candles)

abbrev pub restate : ℤ → Candle → Candle
restate live k = record k { c = live; h = max_ℤ k.h live; l = min_ℤ k.l live }

-- `[...candles.slice(0, -1), { ...open, ... }]`
unfoldable pub restate_last : ℤ → List Candle → List Candle
restate_last live [] = []
restate_last live (k ∷ []) = restate live k ∷ []
restate_last live (k ∷ j ∷ candles) = k ∷ restate_last live (j ∷ candles)

unfoldable pub restate_open_candle : List Candle → ℤ → List Candle
unfolding restate_last
restate_open_candle candles live = if is_zero live then candles else restate_last live candles

abbrev pub market_cap : Doubles → ℤ → Option ℤ → ℤ
market_cap doubles price none = pos 0
market_cap doubles price (some supply) =
    if is_zero supply then pos 0 else doubles.times price supply

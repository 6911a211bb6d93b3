-- ===== src/Markets/Service.antt =====
-- backend/src/markets/markets.service.ts: lists, details and charts over the cache. What a provider
-- answers at the time of a request is a parameter, and so is the JSON of what is cached.
use max_one.Prelude.{ℕ, String, ◌<>◌, Option, none, some, List, [], ◌∷◌, str_eq, if◌then◌else◌}
use max_one.Prelude.Int.{ℤ, pos}
use max_one.Exec.{pure, ◌>>=◌}
use max_one.World.{Prisma, Host, Action}
use max_one.Cache
use max_one.Cache.{Decision, skip, keep, keep_for}
use max_one.Markets.{
  Coin, coins, coin_by_id, Range, hour, range_text, Ticker, Candle, MarketAsset, AssetDetail,
  Doubles, change_from_candles, restate_open_candle, market_cap,
}

-- `JSON.stringify` and `JSON.parse` at a type
pub record Json (A : Type 0) : Type 0 where
  pub encode : A → String
  pub decode : String → A

-- The symbols with a known supply
abbrev pub Supply : Type 0
Supply = List (String × ℤ)

pub record Codecs : Type 0 where
  pub tickers : Json (List Ticker)
  pub candles : Json (List Candle)
  pub supply : Json Supply

pub record Providers : Type 0 where
  pub fetch_tickers : List Ticker
  pub fetch_candles : Coin → Range → List Candle
  pub fetch_supply : Supply

abbrev pub negative_ttl : ℕ
negative_ttl = 8

abbrev pub tickers_key : String
tickers_key = "markets:tickers"

abbrev pub candles_key : String → Range → String
candles_key id range = "markets:candles:" <> (id <> (":" <> range_text range))

-- `x.length > 0 || NEGATIVE_TTL`
abbrev pub unless_empty : {A : Type 0} → List A → Decision
unless_empty [] = keep_for negative_ttl
unless_empty (x ∷ xs) = keep

-- `Object.keys(s).length > 0`
abbrev pub if_any : {A : Type 0} → List A → Decision
if_any [] = skip
if_any (x ∷ xs) = keep

-- `tickers.find(...)`
abbrev pub find_ticker : String → List Ticker → Option Ticker
find_ticker symbol [] = none
find_ticker symbol (t ∷ ts) = if str_eq t.symbol symbol then some t else find_ticker symbol ts

-- `bySymbol.get`, where the last of a symbol counts
abbrev pub last_ticker : String → List Ticker → Option Ticker
last_ticker symbol [] = none
last_ticker symbol (t ∷ ts) =
    let rest = last_ticker symbol ts in
    elim rest [ some later ↦ some later | none ↦ if str_eq t.symbol symbol then some t else none ]

abbrev pub supply_of : String → Supply → Option ℤ
supply_of symbol [] = none
supply_of symbol ((s, n) ∷ supply) = if str_eq s symbol then some n else supply_of symbol supply

abbrev pub price_or_zero : Option Ticker → ℤ
price_or_zero none = pos 0
price_or_zero (some t) = t.price

module _ {p : Prisma} (host : Host) where
  -- `CacheService.wrap` at a type. What was fetched is returned as it is read back from the cache: JSON
  -- keeps finite numbers and texts.
  unfoldable pub wrap_as : {A : Type 0} → Json A → String → ℕ → A → (A → Decision) → Action p A
  unfolding Cache.wrap
  wrap_as json key ttl value cacheable = do
    text ← Cache.wrap host key ttl (pure (json.encode value)) (λ s. cacheable (json.decode s))
    pure (json.decode text)

  module _ (codecs : Codecs) (doubles : Doubles) (providers : Providers) where
    abbrev pub tickers : Action p (List Ticker)
    tickers = wrap_as codecs.tickers tickers_key 15 providers.fetch_tickers unless_empty

    abbrev pub supply : Action p Supply
    supply = wrap_as codecs.supply "markets:supply" 3600 providers.fetch_supply if_any

    abbrev pub candles_of : Coin → Range → Action p (List Candle)
    candles_of coin range =
        wrap_as codecs.candles (candles_key coin.id range) 60 (providers.fetch_candles coin range)
          unless_empty

    unfoldable pub candles : String → Range → Action p (List Candle)
    unfolding wrap_as
    candles id range = elim (coin_by_id id) [ none ↦ pure [] | some coin ↦ candles_of coin range ]

    unfoldable pub market_asset : Coin → Ticker → Action p MarketAsset
    unfolding candles
    market_asset coin ticker = do
      history ← candles coin.id hour
      pure (record {
        id = coin.id;
        symbol = coin.symbol;
        name = coin.name;
        kind = "crypto";
        price = ticker.price;
        change_24h = change_from_candles doubles (restate_open_candle history ticker.price) 24;
        image = coin.image;
      })

    -- The coins that have a ticker, one after the other
    unfoldable pub list_coins : List Ticker → List Coin → Action p (List MarketAsset)
    unfolding market_asset
    list_coins ts [] = pure []
    list_coins ts (coin ∷ rest) = elim (last_ticker coin.symbol ts) [
      | none ↦ list_coins ts rest
      | some ticker ↦ do
        asset ← market_asset coin ticker
        assets ← list_coins ts rest
        pure (asset ∷ assets)
    ]

    unfoldable pub list_assets : Action p (List MarketAsset)
    unfolding list_coins
    list_assets = do ts ← tickers; list_coins ts coins

    abbrev detail_of : Coin → Ticker → Action p (Option AssetDetail)
    detail_of coin ticker = do
      known ← supply
      asset ← market_asset coin ticker
      pure (
          some (record {
            asset = asset;
            market_cap = market_cap doubles ticker.price (supply_of coin.symbol known);
            high_24h = ticker.high_24h;
            low_24h = ticker.low_24h;
          }))

    abbrev pub detail_found : Coin → Option Ticker → Action p (Option AssetDetail)
    detail_found coin none = pure none
    detail_found coin (some ticker) = detail_of coin ticker

    unfoldable pub detail : String → Action p (Option AssetDetail)
    unfolding market_asset
    detail id = elim (coin_by_id id) [
      | none ↦ pure none
      | some coin ↦ do ts ← tickers; detail_found coin (find_ticker coin.symbol ts)
    ]

    unfoldable pub chart : String → Range → Action p (List Candle)
    unfolding candles
    chart id range = elim (coin_by_id id) [
      | none ↦ pure []
      | some coin ↦ do
        history ← candles id range
        ts ← tickers
        pure (restate_open_candle history (price_or_zero (find_ticker coin.symbol ts)))
    ]

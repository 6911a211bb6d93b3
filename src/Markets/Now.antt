-- ===== src/Markets/Now.antt =====
-- One source of "now" (backend/src/markets/markets.service.ts): the tickers in the cache.
use max_one.Prelude.{
  ℕ, ◌≡◌, ◌≢◌, refl, sym, ap, ◌∙◌, String, true, Option, none, some, List, [], ◌∷◌, ltb, arith, inl,
  inr, Option-cases,
}
use max_one.Prelude.Int.{ℤ, pos}
use max_one.Exec.{Result, ok, err}
use max_one.World.{Prisma, World, Host, CacheEntry}
use max_one.Cache.{live, ttl_of}
use max_one.Markets.{
  Coin, coin_by_id, Range, hour, Ticker, Candle, MarketAsset, AssetDetail, Doubles,
  change_from_candles, restate_open_candle, market_cap,
}
use max_one.Markets.Service.{
  Supply, supply_of, Codecs, Providers, tickers_key, candles_key, unless_empty, tickers, supply,
  candles, market_asset, find_ticker, detail, chart, price_or_zero, if_any,
}
use max_one.Markets.Candles.{IsLastClose, restate_open_candle_ends}
use max_one.Markets.Cached.{candles_key_apart, wrap_as-hit, wrap_as-elsewhere, wrap_as-cached}

unless_empty_kept : (ttl : ℕ) (ts : List Ticker) → (n : ℕ) × (ttl_of (unless_empty ts) ttl ≡ some n)
unless_empty_kept ttl [] = (_, refl)
unless_empty_kept ttl (t ∷ ts) = (_, refl)

-- The asset of a detail
abbrev pub asset_from : Doubles → Coin → Ticker → List Candle → MarketAsset
asset_from doubles coin ticker history = record {
  id = coin.id;
  symbol = coin.symbol;
  name = coin.name;
  kind = "crypto";
  price = ticker.price;
  change_24h = change_from_candles doubles (restate_open_candle history ticker.price) 24;
  image = coin.image;
}

module _ {p : Prisma} (host : Host) (codecs : Codecs) (doubles : Doubles)
    (providers : Providers) where
  candles_elsewhere :
      (up_ : host.redis_up ≡ true) (id : String) (range : Range) (w : World p)
      → (cs : List Candle) × (w' : World p) × (candles {p = p} host codecs doubles providers id
            range w
          ≡ (ok cs, w'))
        × (w'.cache tickers_key ≡ w.cache tickers_key)
  unfolding candles
  candles_elsewhere up_ id range w = elim (Option-cases (coin_by_id id)) [
    | inl unknown ↦ ([], w, rw (candles, unknown) refl, refl)
    | inr (coin, known) ↦
        let (cs, w', run, same) =
          wrap_as-elsewhere {p = p} host up_ codecs.candles (candles_key coin.id range) 60
            (providers.fetch_candles coin range) unless_empty w tickers_key
            (candles_key_apart coin.id range) in
        (cs, w', rw (candles, known) run, same)
  ]

  detail_lem :
      (id : String) (coin : Coin) (ts : List Ticker) (ticker : Ticker) (known : Supply)
      (history : List Candle) (w w2 w3 w4 : World p)
      → coin_by_id id ≡ some coin
      → tickers {p = p} host codecs doubles providers w ≡ (ok ts, w2)
      → find_ticker coin.symbol ts ≡ some ticker
      → supply {p = p} host codecs doubles providers w2 ≡ (ok known, w3)
      → candles {p = p} host codecs doubles providers coin.id hour w3 ≡ (ok history, w4)
      → detail {p = p} host codecs doubles providers id w ≡ (
        ok (
            some (record {
              asset = asset_from doubles coin ticker history;
              market_cap = market_cap doubles ticker.price (supply_of coin.symbol known);
              high_24h = ticker.high_24h;
              low_24h = ticker.low_24h;
            })),
        w4,
      )
  unfolding detail market_asset
  detail_lem id coin ts ticker known history w w2 w3 w4 a b c d e = ground (arith, a, b, c, d, e)

  chart_lem :
      (id : String) (range : Range) (coin : Coin) (ts : List Ticker) (history : List Candle)
      (w w2 w3 : World p)
      → coin_by_id id ≡ some coin
      → candles {p = p} host codecs doubles providers id range w ≡ (ok history, w2)
      → tickers {p = p} host codecs doubles providers w2 ≡ (ok ts, w3)
      → chart {p = p} host codecs doubles providers id range w
        ≡ (ok (restate_open_candle history (price_or_zero (find_ticker coin.symbol ts))), w3)
  unfolding chart
  chart_lem id range coin ts history w w2 w3 a b c = ground (arith, a, b, c)

abbrev shown_price : Result (Option AssetDetail) → ℤ
shown_price (ok none) = pos 0
shown_price (ok (some a)) = a.asset.price
shown_price (err e) = pos 0

-- What a detail rests on
record Shown {p : Prisma} (host : Host) (codecs : Codecs) (id : String) (w1 : World p)
    (a : AssetDetail) : Type 0 where
  coin : Coin
  known : coin_by_id id ≡ some coin
  ts : List Ticker
  ticker : Ticker
  held : CacheEntry
  found : find_ticker coin.symbol ts ≡ some ticker
  priced : a.asset.price ≡ ticker.price
  cached : w1.cache tickers_key ≡ some held
  decoded : codecs.tickers.decode held.value ≡ ts

module _ {p : Prisma} (host : Host) (codecs : Codecs) (doubles : Doubles) (providers : Providers)
    (up_ : host.redis_up ≡ true) where
  detail-none :
      (id : String) (w : World p)
      → coin_by_id id ≡ none
      → detail {p = p} host codecs doubles providers id w ≡ (ok none, w)
  unfolding detail
  detail-none id w unknown = ground (arith, unknown)

  detail-unlisted :
      (id : String) (coin : Coin) (ts : List Ticker) (w w2 : World p)
      → coin_by_id id ≡ some coin
      → tickers {p = p} host codecs doubles providers w ≡ (ok ts, w2)
      → find_ticker coin.symbol ts ≡ none
      → detail {p = p} host codecs doubles providers id w ≡ (ok none, w2)
  unfolding detail
  detail-unlisted id coin ts w w2 known run gone = ground (arith, known, run, gone)

  detail-Shown :
      (id : String) (w w1 : World p) (a : AssetDetail)
      → detail {p = p} host codecs doubles providers id w ≡ (ok (some a), w1)
      → Shown {p = p} host codecs id w1 a
  detail-Shown id w w1 a e = elim (Option-cases (coin_by_id id)) [
    | inl unknown ↦
        let f = sym (detail-none id w unknown) ∙ e in absurd (let g = ap (λ x. x.0) f in cc)
    | inr (coin, known) ↦
        let (ts, w2, held, run, cached, decoded) =
          wrap_as-cached {p = p} host up_ codecs.tickers tickers_key 15 providers.fetch_tickers
            unless_empty w (unless_empty_kept 15) in
        elim (Option-cases (find_ticker coin.symbol ts)) [
          | inl gone ↦
              let f = sym (detail-unlisted id coin ts w w2 known run gone) ∙ e in
              absurd (let g = ap (λ x. x.0) f in cc)
          | inr (ticker, found) ↦
              let (supplies, w3, run3, same3) =
                wrap_as-elsewhere {p = p} host up_ codecs.supply "markets:supply" 3600
                  providers.fetch_supply if_any w2 tickers_key refl in
              let (history, w4, run4, same4) =
                candles_elsewhere host codecs doubles providers up_ coin.id hour w3 in
              let f =
                sym (
                  detail_lem host codecs doubles providers id coin ts ticker supplies history w w2
                    w3 w4 known run found run3 run4)
                ∙ e in
              let world = ap (λ x. x.1) f in
              record {
                coin = coin;
                known = known;
                ts = ts;
                ticker = ticker;
                held = held;
                found = found;
                priced = sym (ap (λ x. shown_price x.0) f);
                cached = sym (ap (λ x. x.cache tickers_key) world) ∙ same4 ∙ same3 ∙ cached;
                decoded = decoded;
              }
        ]
  ]

-- After a detail was shown, and while the tickers that it left in the cache are alive, with Redis
-- up both times and a price that is not 0: whatever the providers answer then, the chart of the
-- asset, at every range, ends at the price of the detail.
pub chart_meets_detail :
    {p : Prisma} (codecs : Codecs) (doubles : Doubles) (host later : Host)
    (providers providers' : Providers)
    → host.redis_up ≡ true
    → later.redis_up ≡ true
    → (id : String) (range : Range) (w w1 : World p) (a : AssetDetail) (e : CacheEntry)
    → detail {p = p} host codecs doubles providers id w ≡ (ok (some a), w1)
    → w1.cache tickers_key ≡ some e
    → ltb later.now e.expires_at ≡ true
    → a.asset.price ≢ pos 0
    → (cs : List Candle) × (w' : World p) × (chart {p = p} later codecs doubles providers' id range
          w1
        ≡ (ok cs, w'))
      × IsLastClose a.asset.price cs
chart_meets_detail {p} codecs doubles host later providers providers' up_ up' id range w w1 a e
      shown at soon nonzero =
    let s = detail-Shown {p = p} host codecs doubles providers up_ id w w1 a shown in
    let (history, w2, run, same) =
      candles_elsewhere {p = p} later codecs doubles providers' up' id range w1 in
    let entry : some s.held ≡ some e = sym s.cached ∙ at in
    let held : s.held ≡ e = cc in
    let hit : live later.now (w2.cache tickers_key) ≡ some e.value =
      ap (live later.now) (same ∙ at) ∙ rw soon refl in
    let ts : tickers {p = p} later codecs doubles providers' w2 ≡ (ok s.ts, w2) =
      wrap_as-hit {p = p} later up' codecs.tickers tickers_key 15 providers'.fetch_tickers
        unless_empty w2 e.value hit
      ∙ ap (λ x. (ok x, w2)) (sym (ap (λ x. codecs.tickers.decode x.value) held) ∙ s.decoded) in
    let price : price_or_zero (find_ticker s.coin.symbol s.ts) ≡ a.asset.price =
      ap price_or_zero s.found ∙ sym s.priced in
    (
      restate_open_candle history (price_or_zero (find_ticker s.coin.symbol s.ts)),
      w2,
      chart_lem {p = p} later codecs doubles providers' id range s.coin s.ts history w1 w2 w2
          s.known run ts,
      rw price (restate_open_candle_ends a.asset.price history nonzero),
    )

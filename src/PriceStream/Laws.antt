-- ===== src/PriceStream/Laws.antt =====
-- Alerts fire while nobody is connected (backend/src/realtime/price-stream.service.ts).
use max_one.Prelude.{
  ℕ, ◌≡◌, refl, ap, ◌∙◌, String, true, ◌&&◌, List, [], ◌∷◌, ◌==◌, ==_iff, ltb, length, map,
  if◌then◌else◌, option_map, arith, inl, inr, Bool-cases, Option-cases, Has,
}
use max_one.Exec.{Result, ok, err, pure, ◌>>=◌}
use max_one.Schema.{PriceAlert}
use max_one.Prisma.{unordered}
use max_one.World.{Prisma, IsPrisma, World, Host, Action}
use max_one.Cache
use max_one.Cache.{Decision, live, ttl_of}
use max_one.Markets.{Coin, coins, Range, hour, coin_by_id, Ticker, MarketAsset, Doubles}
use max_one.Markets.Service.{
  Json, Codecs, Providers, wrap_as, candles, last_ticker, market_asset, list_coins, list_assets,
  tickers, tickers_key, candles_key, unless_empty,
}
use max_one.Alerts.{Asset, Texts, find_pending, check, fires, is_waiting, mark_triggered_at}
use max_one.Markets.Now.{asset_from}
use max_one.Alerts.Laws.{check_marks}
use max_one.PriceStream.{asset_of, tick, pending_count}

abbrev KeepsDb : {p : Prisma} {A : Type 0} → Action p A → Type 0
KeepsDb {p} m = (w : World p) → (m w).1.db ≡ w.db

empty-Has : (r : PriceAlert) (rows : List PriceAlert) → length rows ≡ 0 → Has r rows → ⊥
empty-Has r [] e h = h
empty-Has r (q ∷ rows) e h = ground (arith, e)

-- What a check of the prices makes of a row
abbrev pub checked : ℕ → List Asset → PriceAlert → PriceAlert
checked now assets r = if is_waiting r && fires assets r then mark_triggered_at now r else r

module _ {p : Prisma} (lawful : IsPrisma p) (now : ℕ) (assets : List Asset) (w : World p) where
  -- With no alert that waits, a check changes none.
  checked_idle :
      pending_count w ≡ 0
      → (k : ℕ)
      → p.price_alert.find_unique k w.db.price_alerts
        ≡ option_map (checked now assets) (p.price_alert.find_unique k w.db.price_alerts)
  checked_idle none_ k = elim (Option-cases (p.price_alert.find_unique k w.db.price_alerts)) [
    | inl missing ↦ rw missing refl
    | inr (r, found) ↦ elim (Bool-cases (is_waiting r)) [
      | inl waits ↦ absurd (
          empty-Has r (find_pending w) none_ (
            lawful.price_alert.find_many-Has is_waiting unordered w.db.price_alerts k r found
              waits))
      | inr settled ↦ ground (arith, found, settled)
    ]
  ]

module _ {p : Prisma} where
  then_from :
      {A B : Type 0} (r : Result A) (v w : World p) (f : A → Action p B)
      → v.db ≡ w.db
      → ((a : A) → KeepsDb {p = p} (f a))
      → (elim r as (λ _. Result B × World p) [ ok a ↦ f a v | err e ↦ (err e, v) ]).1.db ≡ w.db
  then_from (ok a) v w f h k = k a v ∙ h
  then_from (err e) v w f h k = h

  then-KeepsDb :
      {A B : Type 0} (m : Action p A) (f : A → Action p B)
      → KeepsDb {p = p} m
      → ((a : A) → KeepsDb {p = p} (f a))
      → KeepsDb {p = p} (m >>= f)
  then-KeepsDb m f h k w = then_from (m w).0 (m w).1 w f (h w) k

module _ {p : Prisma} (host : Host) where
  wrap_as-KeepsDb :
      {A : Type 0} (json : Json A) (key : String) (ttl : ℕ) (value : A) (cacheable : A → Decision)
      → KeepsDb {p = p} (wrap_as host json key ttl value cacheable)
  unfolding wrap_as Cache.get Cache.set
  wrap_as-KeepsDb json key ttl value cacheable w = elim (Bool-cases host.redis_up) [
    | inl up_ ↦ elim (Option-cases (live host.now (w.cache key))) [
      | inr (text, hit) ↦ ground (arith, up_, hit)
      | inl miss ↦ elim (Option-cases (ttl_of (cacheable (json.decode (json.encode value))) ttl)) [
        | inl skipped ↦ ground (arith, up_, miss, skipped)
        | inr (seconds, kept) ↦ ground (arith, up_, miss, kept)
      ]
    ]
    | inr down ↦ elim (Option-cases (ttl_of (cacheable (json.decode (json.encode value))) ttl)) [
      | inl skipped ↦ ground (arith, down, skipped)
      | inr (seconds, kept) ↦ ground (arith, down, kept)
    ]
  ]

  module _ (codecs : Codecs) (doubles : Doubles) (providers : Providers) where
    candles-KeepsDb :
        (id : String) (range : Range)
        → KeepsDb {p = p} (candles host codecs doubles providers id range)
    unfolding candles
    candles-KeepsDb id range w = elim (Option-cases (coin_by_id id)) [
      | inl unknown ↦ rw (candles, unknown) refl
      | inr (coin, known) ↦
          rw (candles, known)
            (wrap_as-KeepsDb codecs.candles (candles_key coin.id range) 60
              (providers.fetch_candles coin range) unless_empty w)
    ]

    market_asset-KeepsDb :
        (coin : Coin) (ticker : Ticker)
        → KeepsDb {p = p} (market_asset host codecs doubles providers coin ticker)
    unfolding market_asset
    market_asset-KeepsDb coin ticker =
        then-KeepsDb (candles host codecs doubles providers coin.id hour)
          (λ history. pure (asset_from doubles coin ticker history)) (candles-KeepsDb coin.id hour)
          (λ history w. refl)

    list_coins-KeepsDb :
        (ts : List Ticker) (cs : List Coin)
        → KeepsDb {p = p} (list_coins host codecs doubles providers ts cs)
    unfolding list_coins
    list_coins-KeepsDb ts [] w = refl
    list_coins-KeepsDb ts (coin ∷ cs) w = elim (Option-cases (last_ticker coin.symbol ts)) [
      | inl gone ↦ rw (list_coins, gone) (list_coins-KeepsDb ts cs w)
      | inr (ticker, here) ↦
          rw (list_coins, here)
            (then-KeepsDb (market_asset host codecs doubles providers coin ticker)
              (λ asset.
                list_coins host codecs doubles providers ts cs >>= λ assets. pure (asset ∷ assets))
              (market_asset-KeepsDb coin ticker)
              (λ asset.
                then-KeepsDb (list_coins host codecs doubles providers ts cs)
                  (λ assets. pure (asset ∷ assets)) (list_coins-KeepsDb ts cs) (λ assets v. refl))
              w)
    ]

    list_assets-KeepsDb : KeepsDb {p = p} (list_assets host codecs doubles providers)
    unfolding list_assets
    list_assets-KeepsDb =
        then-KeepsDb (tickers host codecs doubles providers)
          (λ ts. list_coins host codecs doubles providers ts coins)
          (wrap_as-KeepsDb codecs.tickers tickers_key 15 providers.fetch_tickers unless_empty)
          (λ ts. list_coins-KeepsDb ts coins)

    -- With the markets listed, a tick marks every alert that waits and whose price has been
    -- crossed, and changes no other row of the alerts, however many browsers are connected, none
    -- included.
    pub tick_marks :
        (texts : Texts) (connected : ℕ) (w : World p) (a : MarketAsset) (assets : List MarketAsset)
        → IsPrisma p
        → (list_assets host codecs doubles providers w).0 ≡ ok (a ∷ assets)
        → (k : ℕ)
        → p.price_alert.find_unique k
            (tick host codecs doubles providers texts connected w).1.db.price_alerts
          ≡ option_map
              (checked host.now (map asset_of (a ∷ assets)))
              (p.price_alert.find_unique k w.db.price_alerts)
    unfolding tick
    tick_marks texts connected w a assets lawful listed k =
        let w' = (list_assets host codecs doubles providers w).1 in
        let ran : list_assets host codecs doubles providers w ≡ (ok (a ∷ assets), w') =
          ap (λ r. (r, w')) listed in
        let same = list_assets-KeepsDb w in
        let idle = checked_idle {p = p} lawful host.now (map asset_of (a ∷ assets)) w in
        elim (Bool-cases (pending_count w == 0)) [
          | inl none_ ↦ elim (Bool-cases (ltb 0 connected)) [
            | inl watching ↦
                ground
                  (arith, none_, watching, ran, same, idle ((==_iff (pending_count w) 0).0 none_) k)
            | inr alone ↦
                ground (arith, none_, alone, idle ((==_iff (pending_count w) 0).0 none_) k)
          ]
          | inr some_ ↦
              let marks = check_marks lawful (map asset_of (a ∷ assets)) w' host texts k in
              let waits : ltb 0 (pending_count w) ≡ true = ground (arith, some_) in
              let there : (tick host codecs doubles providers texts connected w).1
                  ≡ (check host texts (map asset_of (a ∷ assets)) w').1 =
                ground (arith, some_, waits, ran) in
              ap (λ v. p.price_alert.find_unique k v.db.price_alerts) there
              ∙ marks
              ∙ ap
                  (λ db.
                    option_map (checked host.now (map asset_of (a ∷ assets)))
                      (p.price_alert.find_unique k db.price_alerts))
                  same
        ]

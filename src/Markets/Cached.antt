-- ===== src/Markets/Cached.antt =====
-- The cache under the markets (backend/src/markets/markets.service.ts).
use text.Mathlib.Text.{starts_with}
use text.Mathlib.TextPositions.{starts_with-append}
use max_one.Prelude.{
  ℕ, ◌+◌, ◌*◌, ◌≡◌, refl, sym, ap, ◌∙◌, String, ◌<>◌, true, false, Option, none, some, str_eq,
  eq_iff, ltb, arith, inl, inr, Bool-cases, Option-cases,
}
use max_one.Exec.{ok}
use max_one.World.{Prisma, World, Host, CacheEntry}
use max_one.Cache
use max_one.Cache.{Decision, skip, keep, keep_for, live, ttl_of, write}
use max_one.Markets.{Range, range_text}
use max_one.Markets.Service.{Json, tickers_key, candles_key, wrap_as}

pub live_some :
    (now : ℕ) (o : Option CacheEntry) (text : String)
    → live now o ≡ some text
    → (e : CacheEntry) × (o ≡ some e) × (e.value ≡ text)
live_some now none text h = absurd cc
live_some now (some e) text h = elim (Bool-cases (ltb now e.expires_at)) [
  | inl soon ↦ (e, refl, ground (arith, soon, h))
  | inr late ↦ absurd (ground (arith, late, h))
]

pub candles_key_apart :
    (id : String) (range : Range) → str_eq (candles_key id range) tickers_key ≡ false
candles_key_apart id range = elim (Bool-cases (str_eq (candles_key id range) tickers_key)) [
  | inr other ↦ other
  | inl same ↦
      let e = (eq_iff (candles_key id range) tickers_key).0 same in
      let begins = starts_with-append "markets:candles:" (id <> (":" <> range_text range)) in
      let not_ : starts_with tickers_key "markets:candles:" ≡ false = refl in
      let clash : true ≡ false = sym begins ∙ ap (λ s. starts_with s "markets:candles:") e ∙ not_ in
      absurd cc
]

module _ {p : Prisma} (host : Host) (up_ : host.redis_up ≡ true) where
  module _ {A : Type 0} (json : Json A) (key : String) (ttl : ℕ) (value : A)
      (cacheable : A → Decision) where
    pub wrap_as-hit :
        (w : World p) (text : String)
        → live host.now (w.cache key) ≡ some text
        → wrap_as {p = p} host json key ttl value cacheable w ≡ (ok (json.decode text), w)
    unfolding wrap_as Cache.get
    wrap_as-hit w text hit = ground (arith, up_, hit)

    -- A miss returns the value, and touches no other key.
    pub wrap_as-elsewhere :
        (w : World p) (other : String)
        → str_eq key other ≡ false
        → (a : A) × (w' : World p) × (wrap_as {p = p} host json key ttl value cacheable w
            ≡ (ok a, w'))
          × (w'.cache other ≡ w.cache other)
    unfolding wrap_as Cache.get Cache.set
    wrap_as-elsewhere w other apart = elim (Option-cases (live host.now (w.cache key))) [
      | inr (text, hit) ↦ (json.decode text, w, ground (arith, up_, hit), refl)
      | inl miss ↦ elim (Option-cases (ttl_of (cacheable (json.decode (json.encode value))) ttl)) [
        | inl skipped ↦
            (json.decode (json.encode value), w, ground (arith, up_, miss, skipped), refl)
        | inr (seconds, kept) ↦ (
          json.decode (json.encode value),
          record w {
            cache =
                write key
                  (some
                    (record { value = json.encode value; expires_at = host.now + 1000 * seconds }))
                  w.cache;
          },
          ground (arith, up_, miss, kept),
          rw apart refl,
        )
      ]
    ]

    -- What is always kept is in the cache afterwards.
    pub wrap_as-cached :
        (w : World p)
        → ((a : A) → (n : ℕ) × (ttl_of (cacheable a) ttl ≡ some n))
        → (a : A) × (w' : World p) × (e : CacheEntry) × (wrap_as {p = p} host json key ttl value
              cacheable w
            ≡ (ok a, w'))
          × (w'.cache key ≡ some e)
          × (json.decode e.value ≡ a)
    unfolding wrap_as Cache.get Cache.set
    wrap_as-cached w keeps = elim (Option-cases (live host.now (w.cache key))) [
      | inr (text, hit) ↦
          let (e, at, same) = live_some host.now (w.cache key) text hit in
          (json.decode text, w, e, ground (arith, up_, hit), at, ap json.decode same)
      | inl miss ↦
          let (seconds, kept) = keeps (json.decode (json.encode value)) in
          let e : CacheEntry = record {
            value = json.encode value;
            expires_at = host.now + 1000 * seconds;
          } in
          (
            json.decode (json.encode value),
            record w { cache = write key (some e) w.cache },
            e,
            ground (arith, up_, miss, kept),
            rw ((eq_iff key key).1 refl) refl,
            refl,
          )
    ]

-- ===== src/Cache.antt =====
-- backend/src/cache/cache.service.ts: cache-aside over Redis, where a Redis that is down is a miss.
-- Values are texts, as RatesService stores them; JSON encodes and decodes a text without loss.
use max_one.Prelude.{ℕ, ◌+◌, ◌*◌, String, Option, none, some, ltb, if◌then◌else◌, str_eq}
use max_one.Exec.{ok, pure, ◌>>=◌, ◌>>◌}
use max_one.World.{Prisma, Host, Action, CacheEntry}

-- What `cacheable` answers: false, true, or a number of seconds.
pub data Decision : Type 0 where
  skip keep : Decision
  keep_for : ℕ → Decision

-- `redis.get`, which drops an entry at its time.
abbrev pub live : ℕ → Option CacheEntry → Option String
live now none = none
live now (some e) = if ltb now e.expires_at then some e.value else none

abbrev pub write :
    String → Option CacheEntry → (String → Option CacheEntry) → String → Option CacheEntry
write key e cache other = if str_eq key other then e else cache other

abbrev pub ttl_of : Decision → ℕ → Option ℕ
ttl_of skip ttl = none
ttl_of keep ttl = some ttl
ttl_of (keep_for n) ttl = some n

module _ {p : Prisma} (host : Host) where
  unfoldable pub get : String → Action p (Option String)
  get key w = (ok (if host.redis_up then live host.now (w.cache key) else none), w)

  unfoldable pub set : String → String → ℕ → Action p (Unit {0})
  set key value ttl w = (
    ok tt,
    if host.redis_up
        then record w {
          cache =
              write key (some (record { value = value; expires_at = host.now + 1000 * ttl }))
                w.cache;
        }
        else w,
  )

  unfoldable pub del : String → Action p (Unit {0})
  del key w = (ok tt, if host.redis_up then record w { cache = write key none w.cache } else w)

  abbrev store : String → String → Option ℕ → Action p (Unit {0})
  store key value none = pure tt
  store key value (some ttl) = set key value ttl

  abbrev wrap_miss : String → ℕ → Action p String → (String → Decision) → Action p String
  wrap_miss key ttl fn cacheable = do
    value ← fn
    store key value (ttl_of (cacheable value) ttl)
    pure value

  unfoldable pub wrap : String → ℕ → Action p String → (String → Decision) → Action p String
  unfolding get set
  wrap key ttl fn cacheable = do
    hit ← get key
    elim hit [ some value ↦ pure value | none ↦ wrap_miss key ttl fn cacheable ]

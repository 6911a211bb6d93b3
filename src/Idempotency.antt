-- ===== src/Idempotency.antt =====
-- backend/src/idempotency/idempotency.service.ts and idempotency.interceptor.ts.
pub mod Keys
pub mod Settled
pub mod Laws
pub mod Fuel
use max_one.Prelude.{
  ℕ, zero, suc, ◌-◌, ◌*◌, String, ◌<>◌, Bool, true, false, not, ◌&&◌, Option, none, some, ◌==◌, ltb,
  if◌then◌else◌, str_eq, or_default,
}
use max_one.Exec.{ok, err, bad_request, conflict, failure, pure, throw, throw_if, ◌>>=◌, ◌>>◌}
use max_one.Schema.{Json, null, IdempotencyKey, IdempotencyStatus}
use max_one.World.{Prisma, World, Host, Action}

-- `TTL_MS`
abbrev pub ttl_ms : ℕ
ttl_ms = 24 * 60 * 60 * 1000

pub data Reservation : Type 0 where
  new : ℕ → Reservation
  replay : ℕ → Json → Reservation
  mismatch in_progress : Reservation

-- The row that claims a key.
abbrev pub key_row : ℕ → ℕ → String → String → ℕ → IdempotencyKey
key_row now user_id key fingerprint id = record {
  id = id;
  user_id = user_id;
  key = key;
  fingerprint = fingerprint;
  status = IdempotencyStatus.pending;
  status_code = none;
  response_body = none;
  created_at = now;
}

-- `where: { userId_key: { userId, key } }`
abbrev pub has_key : ℕ → String → IdempotencyKey → Bool
has_key user_id key r = (r.user_id == user_id) && str_eq r.key key

abbrev pub is_expired : ℕ → IdempotencyKey → Bool
is_expired now r = ltb r.created_at (now - ttl_ms)

-- What a key that is taken answers.
abbrev pub answer : String → IdempotencyKey → Reservation
answer fingerprint r = if not (str_eq r.fingerprint fingerprint) then mismatch else elim r.status [
  | IdempotencyStatus.pending ↦ in_progress
  | IdempotencyStatus.completed ↦
      replay (or_default r.status_code 200) (or_default r.response_body null)
]

-- `body === undefined ? Prisma.JsonNull : body`
abbrev pub stored : Option Json → Json
stored body = or_default body null

-- The `data` of `complete`.
abbrev pub mark_completed : ℕ → Option Json → IdempotencyKey → IdempotencyKey
mark_completed status_code body r = record r {
  status = IdempotencyStatus.completed;
  status_code = some status_code;
  response_body = some (stored body);
}

module _ {p : Prisma} (host : Host) where
  -- `create`, where none is the violation of the unique (userId, key)
  abbrev create_key : ℕ → String → String → Action p (Option ℕ)
  create_key user_id key fingerprint w =
      elim (p.idempotency_key.find_first (has_key user_id key) w.db.idempotency_keys) [
        | some _ ↦ (ok none, w)
        | none ↦
            let id = p.idempotency_key.fresh w.db.idempotency_keys in
            (
              ok (some id),
              record w {
                db = record w.db {
                  idempotency_keys =
                      p.idempotency_key.insert (key_row host.now user_id key fingerprint id)
                        w.db.idempotency_keys;
                };
              },
            )
      ]

  abbrev find_key : ℕ → String → Action p (Option IdempotencyKey)
  find_key user_id key w =
      (ok (p.idempotency_key.find_first (has_key user_id key) w.db.idempotency_keys), w)

  -- `release`, and `delete` by id
  abbrev pub release : ℕ → Action p (Unit {0})
  release id w = (
    ok tt,
    record w {
      db = record w.db {
        idempotency_keys = p.idempotency_key.delete_many (λ r. r.id == id) w.db.idempotency_keys;
      };
    },
  )

  -- `reserve`, which calls itself again after a row that has expired or vanished; `fuel` bounds the
  -- calls.
  unfoldable pub reserve_within : ℕ → ℕ → String → String → Action p Reservation
  reserve_within zero user_id key fingerprint = throw (failure "out of fuel")
  reserve_within (suc fuel) user_id key fingerprint =
      let again = reserve_within fuel user_id key fingerprint in
      create_key user_id key fingerprint >>= λ created. elim created [
        | some id ↦ pure (new id)
        | none ↦ find_key user_id key >>= λ existing. elim existing [
          | none ↦ again
          | some r ↦
              if is_expired host.now r then release r.id >> again else pure (answer fingerprint r)
        ]
      ]

  unfoldable pub reserve : ℕ → String → String → Action p Reservation
  unfolding reserve_within
  reserve user_id key fingerprint = reserve_within 2 user_id key fingerprint

  -- `complete`; an `update` of a row that is gone throws.
  abbrev pub complete : ℕ → ℕ → Option Json → Action p (Unit {0})
  complete id status_code body w = elim (p.idempotency_key.find_unique id w.db.idempotency_keys) [
    | none ↦ (err (failure "Record to update not found"), w)
    | some _ ↦ (
      ok tt,
      record w {
        db = record w.db {
          idempotency_keys =
              p.idempotency_key.update id (mark_completed status_code body) w.db.idempotency_keys;
        };
      },
    )
  ]

-- What the interceptor reads of the request. `body` is the text of its JSON.
pub record Req : Type 0 where
  pub user : Option ℕ
  pub key : Option String
  pub method : String
  pub url : String
  pub body : String

pub record Response : Type 0 where
  pub status_code : ℕ
  pub body : Option Json

-- The hash of method, path and body; `sha256` is node's.
abbrev pub fingerprint_of : (String → String) → Req → String
fingerprint_of sha256 req = sha256 (req.method <> " " <> req.url <> " " <> req.body)

-- `!key`
abbrev pub present : Option String → Option String
present none = none
present (some key) = if str_eq key "" then none else some key

module _ {p : Prisma} (host : Host) (sha256 : String → String) where
  -- The handler under a key that is claimed: its response is stored, and a throw of it, or of the
  -- storing, frees the key.
  abbrev pub run : ℕ → ℕ → Action p (Option Json) → Action p Response
  run id status_code handler w =
      let (r, w') = (do body ← handler; complete host id status_code body; pure body) w in
      elim r [
        | ok body ↦ (ok (record { status_code = status_code; body = body }), w')
        | err e ↦ (release host id >> throw e) w'
      ]

  abbrev pub follow : Reservation → ℕ → Action p (Option Json) → Action p Response
  follow (new id) status_code handler = run id status_code handler
  follow (replay code body) status_code handler =
      pure (record { status_code = code; body = some body })
  follow mismatch status_code handler =
      throw (conflict "Idempotency-Key was already used for a different request")
  follow in_progress status_code handler =
      throw (conflict "A request with this Idempotency-Key is still in progress")

  -- `intercept`; `status_code` is the one that the framework has set on the response.
  unfoldable pub intercept : Bool → Req → ℕ → Action p (Option Json) → Action p Response
  unfolding reserve
  intercept required req status_code handler = elim (present req.key) [
    | none ↦
        if required
        then throw (bad_request "Idempotency-Key header is required")
        else do body ← handler; pure (record { status_code = status_code; body = body })
    | some key ↦ elim req.user [
      | none ↦ throw (bad_request "Idempotency requires an authenticated user")
      | some user_id ↦
          reserve host user_id key (fingerprint_of sha256 req) >>= λ r. follow r status_code handler
    ]
  ]

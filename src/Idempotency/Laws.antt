-- ===== src/Idempotency/Laws.antt =====
-- What an Idempotency-Key promises to a client that retries.
use mathlib.Core.Path.{subst⁻¹}
use max_one.Prelude.{
  ℕ, ◌+◌, ◌≤◌, ◌≡◌, refl, sym, ap, ◌∙◌, String, Bool, Option, none, some, arith, inl, inr, eq_iff,
}
use max_one.Exec.{ok, err, Exception, Result-cases}
use max_one.Schema.{Json, IdempotencyKey, IdempotencyStatus}
use max_one.World.{Prisma, IsPrisma, World, Host, Action}
use max_one.Idempotency.{
  Req, Response, key_row, has_key, ttl_ms, answer, stored, mark_completed, reserve, run, intercept,
  present, fingerprint_of,
}
use max_one.Idempotency.Keys.{reserve_unused, reserve_held, claimed}
use max_one.Idempotency.Settled.{completed, run_ok, run_err, released}

module _ {p : Prisma} (host : Host) (sha256 : String → String) (required : Bool) (req : Req)
    (status_code : ℕ) (handler : Action p (Option Json)) (w : World p) {user_id : ℕ} {key : String}
    (lawful : IsPrisma p) (named : present req.key ≡ some key) (signed_in : req.user ≡ some user_id)
    (unused : p.idempotency_key.find_first (has_key user_id key) w.db.idempotency_keys ≡ none)
    (keeps : (v : World p) → (handler v).1.db.idempotency_keys ≡ v.db.idempotency_keys) where
  abbrev fp : String
  fp = fingerprint_of sha256 req

  intercept_claims :
      intercept host sha256 required req status_code handler w
      ≡ run host sha256
          (p.idempotency_key.fresh w.db.idempotency_keys)
          status_code
          handler
          (claimed host user_id key fp w)
  unfolding intercept
  intercept_claims = ground (arith, named, signed_in, reserve_unused host user_id key fp w unused)

  intercept_done :
      (host' : Host) (required' : Bool) (status_code' : ℕ) (handler' : Action p (Option Json))
      (u : World p) (body : Option Json) (row : IdempotencyKey)
      → row.fingerprint ≡ fp
      → row.status ≡ IdempotencyStatus.completed
      → row.status_code ≡ some status_code
      → row.response_body ≡ some (stored body)
      → reserve host' user_id key fp u ≡ (ok (answer fp row), u)
      → intercept host' sha256 required' req status_code' handler' u
        ≡ (ok (record { status_code = status_code; body = some (stored body) }), u)
  unfolding intercept
  intercept_done host' required' status_code' handler' u body row same status code stored_body got =
      ground (arith, named, signed_in, got, eq_iff fp fp)

  -- A request under a key that was unused went through, and its handler left the table of keys
  -- alone. Whoever sends the same request again within the day gets the same status and the stored
  -- body, the world stays as it is, and no handler runs.
  pub intercept_replays :
      (host' : Host) (required' : Bool) (status_code' : ℕ) (handler' : Action p (Option Json))
      {response : Response}
      → host'.now ≤ host.now + ttl_ms
      → (intercept host sha256 required req status_code handler w).0 ≡ ok response
      → let w' = (intercept host sha256 required req status_code handler w).1 in
        intercept host' sha256 required' req status_code' handler' w' ≡ (
          ok (record { status_code = response.status_code; body = some (stored response.body) }),
          w',
        )
  unfolding intercept
  intercept_replays host' required' status_code' handler' {response} soon done =
      let v = claimed host user_id key fp w in
      elim (Result-cases (handler v).0) [
        | inr (e, failed) ↦ absurd (
            ground (
              arith,
              ap (λ r. r.0)
                  (intercept_claims
                    ∙ run_err lawful host user_id key fp w unused handler keeps sha256 status_code
                        failed),
            ))
        | inl (body, ran) ↦
            let all =
              intercept_claims
              ∙ run_ok lawful host user_id key fp w unused handler keeps sha256 status_code ran in
            let held =
              completed lawful host user_id key fp w unused handler keeps status_code body in
            let same : response ≡ record { status_code = status_code; body = body } =
              ground (arith, sym (ap (λ r. r.0) all) ∙ done) in
            let row' =
              mark_completed status_code body
                (key_row host.now user_id key fp (p.idempotency_key.fresh w.db.idempotency_keys)) in
            let again =
              λ (u : World p)
                  (h : p.idempotency_key.find_first (has_key user_id key) u.db.idempotency_keys
                    ≡ some row').
                reserve_held host' user_id key fp u h (ground arith) in
            let replayed =
              λ (u : World p)
                  (h : p.idempotency_key.find_first (has_key user_id key) u.db.idempotency_keys
                    ≡ some row').
                intercept_done host' required' status_code' handler' u body row' refl refl refl refl
                  (again u h) in
            rw same (
              subst⁻¹
                (λ u.
                  intercept host' sha256 required' req status_code' handler' u
                  ≡ (ok (record { status_code = status_code; body = some (stored body) }), u))
                (ap (λ r. r.1) all) (replayed _ held))
      ]

  -- If the handler of a request under an unused key throws, having left the table of keys alone,
  -- the request throws the same, and afterwards the key is free.
  pub intercept_releases :
      {e : Exception}
      → (handler (claimed host user_id key fp w)).0 ≡ err e
      → ((intercept host sha256 required req status_code handler w).0 ≡ err e)
        × (p.idempotency_key.find_first
              (has_key user_id key)
              (intercept host sha256 required req status_code handler w).1.db.idempotency_keys
            ≡ none)
  intercept_releases failed =
      let all =
        intercept_claims
        ∙ run_err lawful host user_id key fp w unused handler keeps sha256 status_code failed in
      (
        ap (λ r. r.0) all,
        ap (λ r. p.idempotency_key.find_first (has_key user_id key) r.1.db.idempotency_keys) all
            ∙ released lawful host user_id key fp w unused handler keeps,
      )

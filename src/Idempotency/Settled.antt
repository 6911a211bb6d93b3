-- ===== src/Idempotency/Settled.antt =====
-- The table of idempotency keys after the handler of a claimed key has run.
use max_one.Prelude.{
  ℕ, ◌≡◌, sym, ap, ◌∙◌, String, false, Option, none, some, ◌==◌, arith, inl, inr, Option-cases,
  Bool-cases,
}
use max_one.Exec.{ok, err, Exception}
use max_one.Schema.{Json, IdempotencyKey}
use max_one.World.{Prisma, IsPrisma, World, Host, Action}
use max_one.Idempotency.{key_row, has_key, mark_completed, run}
use max_one.Idempotency.Keys.{find_key-insert, find_first-only, claimed, has_row, only_row}

module _ {p : Prisma} (lawful : IsPrisma p) (host : Host) (user_id : ℕ) (key fingerprint : String)
    (w : World p)
    (unused : p.idempotency_key.find_first (has_key user_id key) w.db.idempotency_keys ≡ none)
    (handler : Action p (Option Json))
    (keeps : (v : World p) → (handler v).1.db.idempotency_keys ≡ v.db.idempotency_keys) where
  abbrev id : ℕ
  id = p.idempotency_key.fresh w.db.idempotency_keys

  abbrev row : IdempotencyKey
  row = key_row host.now user_id key fingerprint id

  abbrev after : World p
  after = (handler (claimed host user_id key fingerprint w)).1

  find_after : p.idempotency_key.find_unique id after.db.idempotency_keys ≡ some row
  find_after = ground (
    arith,
    keeps (claimed host user_id key fingerprint w),
    find_key-insert lawful user_id key host.now fingerprint w.db.idempotency_keys unused id,
  )

  -- The stored response is what the key finds.
  pub completed :
      (status_code : ℕ) (body : Option Json)
      → p.idempotency_key.find_first
          (has_key user_id key)
          (p.idempotency_key.update id (mark_completed status_code body) after.db.idempotency_keys)
        ≡ some (mark_completed status_code body row)
  completed status_code body =
      let t = after.db.idempotency_keys in
      let f = mark_completed status_code body in
      let updated : (j : ℕ) → _ = λ j.
        lawful.idempotency_key.find_unique-update j id f t
          (λ r. lawful.key-idempotency_key (f r) ∙ sym (lawful.key-idempotency_key r)) in
      find_first-only lawful user_id key _ (f row)
        (has_row lawful host user_id key fingerprint w unused)
        (ground (arith, updated id, find_after))
        (λ j r found passes. elim (Bool-cases (id == j)) [
          | inl here ↦ ground arith
          | inr elsewhere ↦
              (only_row lawful host user_id key fingerprint w unused) j r
                (ground (arith, updated j, keeps (claimed host user_id key fingerprint w))) passes
        ])

  pub run_ok :
      (sha256 : String → String) (status_code : ℕ) {body : Option Json}
      → (handler (claimed host user_id key fingerprint w)).0 ≡ ok body
      → run host sha256 id status_code handler (claimed host user_id key fingerprint w) ≡ (
        ok (record { status_code = status_code; body = body }),
        record after {
          db = record after.db {
            idempotency_keys =
                p.idempotency_key.update id
                  (mark_completed status_code body)
                  after.db.idempotency_keys;
          };
        },
      )
  run_ok sha256 status_code done = ground (arith, find_after)

  pub run_err :
      (sha256 : String → String) (status_code : ℕ) {e : Exception}
      → (handler (claimed host user_id key fingerprint w)).0 ≡ err e
      → run host sha256 id status_code handler (claimed host user_id key fingerprint w) ≡ (
        err e,
        record after {
          db = record after.db {
            idempotency_keys =
                p.idempotency_key.delete_many (λ r. r.id == id) after.db.idempotency_keys;
          };
        },
      )
  run_err sha256 status_code failed = ground arith

  -- The key finds no row once its own is deleted.
  pub released :
      p.idempotency_key.find_first
        (has_key user_id key)
        (p.idempotency_key.delete_many (λ r. r.id == id) after.db.idempotency_keys)
      ≡ none
  released =
      let t' = p.idempotency_key.delete_many (λ r. r.id == id) after.db.idempotency_keys in
      elim (Option-cases (p.idempotency_key.find_first (has_key user_id key) t')) [
        | inl missing ↦ missing
        | inr (r, found) ↦
            let (passes, stands) =
              lawful.idempotency_key.find_first-some (has_key user_id key) t' r found in
            absurd
              (elim (Option-cases (
                p.idempotency_key.find_unique (p.idempotency_key.key r)
                  after.db.idempotency_keys)) [
                    | inl gone ↦ ground (
                      arith,
                      lawful.idempotency_key.find_unique-delete_many (p.idempotency_key.key r)
                          (λ q. q.id == id) after.db.idempotency_keys,
                    )
                    | inr (q, at) ↦
                        let kept =
                          lawful.idempotency_key.find_unique-delete_many (p.idempotency_key.key r)
                            (λ x. x.id == id) after.db.idempotency_keys in
                        let same : q ≡ r = ground (arith, kept) in
                        let other : (r.id == id) ≡ false = ground (arith, kept) in
                        ground (
                          arith,
                          other,
                          lawful.key-idempotency_key r,
                          (only_row lawful host user_id key fingerprint w unused)
                              (p.idempotency_key.key r) r
                              (ap (λ t. p.idempotency_key.find_unique (p.idempotency_key.key r) t)
                                  (sym (keeps (claimed host user_id key fingerprint w)))
                                ∙ at
                                ∙ ap some same)
                              passes,
                        )
                  ])
      ]

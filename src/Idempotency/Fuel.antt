-- ===== src/Idempotency/Fuel.antt =====
-- The two calls that `reserve` is given are enough.
use max_one.Prelude.{
  ℕ, ◌≡◌, ap, ◌∙◌, String, true, false, none, some, ◌==◌, arith, inl, inr, Option-cases, Bool-cases,
}
use max_one.Exec.{ok}
use max_one.Schema.{IdempotencyKey}
use max_one.World.{Prisma, IsPrisma, World, Host}
use max_one.Idempotency.{Reservation, has_key, is_expired, answer, reserve_within, reserve}

-- `@@unique([userId, key])`, for one user and one key.
abbrev pub IsUnique : {p : Prisma} → ℕ → String → World p → Type 0
IsUnique {p} user_id key w =
    (j k : ℕ) (r q : IdempotencyKey)
    → p.idempotency_key.find_unique j w.db.idempotency_keys ≡ some r
    → p.idempotency_key.find_unique k w.db.idempotency_keys ≡ some q
    → has_key user_id key r ≡ true
    → has_key user_id key q ≡ true
    → j ≡ k

module _ {p : Prisma} (lawful : IsPrisma p) (host : Host) (user_id : ℕ) (key fingerprint : String)
    (w : World p) (unique : IsUnique user_id key w) where
  -- Once the row that has the key is deleted, nothing has the key.
  find_first-release :
      (row : IdempotencyKey)
      → p.idempotency_key.find_first (has_key user_id key) w.db.idempotency_keys ≡ some row
      → p.idempotency_key.find_first
          (has_key user_id key)
          (p.idempotency_key.delete_many (λ r. r.id == row.id) w.db.idempotency_keys)
        ≡ none
  find_first-release row found =
      let t = w.db.idempotency_keys in
      let t' = p.idempotency_key.delete_many (λ r. r.id == row.id) t in
      let (passes, stands) =
        lawful.idempotency_key.find_first-some (has_key user_id key) t row found in
      elim (Option-cases (p.idempotency_key.find_first (has_key user_id key) t')) [
        | inl missing ↦ missing
        | inr (q, again) ↦
            let (passes', stands') =
              lawful.idempotency_key.find_first-some (has_key user_id key) t' q again in
            let k = p.idempotency_key.key q in
            let kept = lawful.idempotency_key.find_unique-delete_many k (λ r. r.id == row.id) t in
            absurd (elim (Option-cases (p.idempotency_key.find_unique k t)) [
              | inl gone ↦ ground (arith, kept)
              | inr (r, at) ↦
                  let same : r ≡ q = ground (arith, kept) in
                  let other : (q.id == row.id) ≡ false = ground (arith, kept) in
                  let one =
                    unique k (p.idempotency_key.key row) q row (at ∙ ap some same) stands passes'
                      passes in
                  ground (
                    arith,
                    other,
                    lawful.key-idempotency_key q,
                    lawful.key-idempotency_key row,
                    one,
                  )
            ])
      ]

  -- Where at most one row has the key of a user, a reservation comes back, whatever that row is:
  -- the calls that reserve is given are enough.
  pub reserve-ok : (r : Reservation) × ((reserve host user_id key fingerprint w).0 ≡ ok r)
  unfolding reserve reserve_within
  reserve-ok =
      elim (Option-cases
        (p.idempotency_key.find_first (has_key user_id key) w.db.idempotency_keys)) [
          | inl unused ↦
              (Reservation.new (p.idempotency_key.fresh w.db.idempotency_keys), ground arith)
          | inr (row, found) ↦ elim (Bool-cases (is_expired host.now row)) [
            | inr young ↦ (answer fingerprint row, ground arith)
            | inl old ↦ (
              Reservation.new (
                  p.idempotency_key.fresh
                    (p.idempotency_key.delete_many (λ r. r.id == row.id) w.db.idempotency_keys)),
              ground (arith, find_first-release row found),
            )
          ]
        ]

-- ===== src/Idempotency/Keys.antt =====
-- The table of idempotency keys: a key that is claimed or held.
use max_one.Prelude.{
  ℕ, ◌+◌, ◌≤◌, ◌≡◌, ◌∙◌, String, true, false, none, some, ◌==◌, if◌then◌else◌, str_eq, arith, inl,
  inr, Option-cases, eq_iff, ==_refl,
}
use max_one.Exec.{ok}
use max_one.Schema.{IdempotencyKey}
use max_one.World.{Prisma, IsPrisma, World, Host}
use max_one.Idempotency.{
  new, mismatch, in_progress, key_row, has_key, is_expired, ttl_ms, answer, reserve_within, reserve,
}

-- A row found by a test in a table where only one row can pass it.
module _ {p : Prisma} (lawful : IsPrisma p) (user_id : ℕ) (key : String) where
  -- The row that claims a key is the one that the key finds.
  pub find_key-insert :
      (now : ℕ) (fingerprint : String) (t : p.idempotency_key.Table)
      → p.idempotency_key.find_first (has_key user_id key) t ≡ none
      → let id = p.idempotency_key.fresh t in
        let row = key_row now user_id key fingerprint id in
        (j : ℕ)
        → p.idempotency_key.find_unique j (p.idempotency_key.insert row t)
          ≡ (if id == j then some row else p.idempotency_key.find_unique j t)
  find_key-insert now fingerprint t unused j =
      let row = key_row now user_id key fingerprint (p.idempotency_key.fresh t) in
      ground (
        arith,
        lawful.key-idempotency_key row,
        lawful.idempotency_key.find_unique-fresh t,
        lawful.idempotency_key.find_unique-insert j row t,
      )

  -- A table in which `row` stands at its id, and no other row has the key.
  pub find_first-only :
      (t : p.idempotency_key.Table) (row : IdempotencyKey)
      → has_key user_id key row ≡ true
      → p.idempotency_key.find_unique row.id t ≡ some row
      → ((j : ℕ) (r : IdempotencyKey)
          → p.idempotency_key.find_unique j t ≡ some r
          → has_key user_id key r ≡ true
          → j ≡ row.id)
      → p.idempotency_key.find_first (has_key user_id key) t ≡ some row
  find_first-only t row has at only =
      elim (Option-cases (p.idempotency_key.find_first (has_key user_id key) t)) [
        | inl missing ↦ absurd (
            ground (
              arith,
              lawful.idempotency_key.find_first-none (has_key user_id key) t row.id row missing at,
            ))
        | inr (r, found) ↦
            let (passes, stands) =
              lawful.idempotency_key.find_first-some (has_key user_id key) t r found in
            let same = only (p.idempotency_key.key r) r stands passes in
            cc (found, stands, same, at)
      ]

module _ {p : Prisma} (host : Host) (user_id : ℕ) (key fingerprint : String) where
  -- A key that nobody holds is claimed.
  abbrev pub claimed : World p → World p
  claimed w = record w {
    db = record w.db {
      idempotency_keys =
          p.idempotency_key.insert
            (key_row host.now user_id key fingerprint
              (p.idempotency_key.fresh w.db.idempotency_keys))
            w.db.idempotency_keys;
    };
  }

  pub reserve_unused :
      (w : World p)
      → p.idempotency_key.find_first (has_key user_id key) w.db.idempotency_keys ≡ none
      → reserve host user_id key fingerprint w
        ≡ (ok (new (p.idempotency_key.fresh w.db.idempotency_keys)), claimed w)
  unfolding reserve reserve_within
  reserve_unused w unused = ground arith

  -- A key that is held, and has not expired, answers from its row.
  pub reserve_held :
      (w : World p) {row : IdempotencyKey}
      → p.idempotency_key.find_first (has_key user_id key) w.db.idempotency_keys ≡ some row
      → is_expired host.now row ≡ false
      → reserve host user_id key fingerprint w ≡ (ok (answer fingerprint row), w)
  unfolding reserve reserve_within
  reserve_held w held young = ground arith

module _ {p : Prisma} (lawful : IsPrisma p) (host : Host) (user_id : ℕ) (key fingerprint : String)
    (w : World p)
    (unused : p.idempotency_key.find_first (has_key user_id key) w.db.idempotency_keys ≡ none) where
  abbrev pub id : ℕ
  id = p.idempotency_key.fresh w.db.idempotency_keys

  abbrev pub row : IdempotencyKey
  row = key_row host.now user_id key fingerprint id

  pub has_row : has_key user_id key row ≡ true
  has_row = ground (arith, ==_refl user_id, eq_iff key key)

  pub only_row :
      (j : ℕ) (r : IdempotencyKey)
      → p.idempotency_key.find_unique j (claimed host user_id key fingerprint w).db.idempotency_keys
        ≡ some r
      → has_key user_id key r ≡ true
      → j ≡ id
  only_row j r found passes = ground (
    arith,
    find_key-insert lawful user_id key host.now fingerprint w.db.idempotency_keys unused j,
    lawful.idempotency_key.find_first-none (has_key user_id key) w.db.idempotency_keys j r unused,
  )

  find_claimed :
      p.idempotency_key.find_first
        (has_key user_id key)
        (claimed host user_id key fingerprint w).db.idempotency_keys
      ≡ some row
  find_claimed =
      find_first-only lawful user_id key _ row has_row
        (ground (
          arith,
          find_key-insert lawful user_id key host.now fingerprint w.db.idempotency_keys unused id,
        ))
        only_row

  -- After a request claimed a key that was unused, a second request with it within a day is told
  -- that the first is in progress, or, if its fingerprint is another one, that they differ; it is
  -- never given the key, and nothing changes.
  pub reserve_excludes :
      (host' : Host) (fingerprint' : String)
      → host'.now ≤ host.now + ttl_ms
      → let w' = (reserve host user_id key fingerprint w).1 in
        reserve host' user_id key fingerprint' w'
        ≡ (ok (if str_eq fingerprint fingerprint' then in_progress else mismatch), w')
  reserve_excludes host' fingerprint' soon =
      rw (reserve_unused host user_id key fingerprint w unused) (
        reserve_held host' user_id key fingerprint' (claimed host user_id key fingerprint w)
          find_claimed (ground arith)
        ∙ ground arith)

-- ===== src/Tokens/Laws.antt =====
-- What the rotation of refresh tokens guarantees.
use max_one.Prelude.{
  ℕ, ◌+◌, ◌≤◌, ◌≡◌, ◌≢◌, sym, ap, ◌∙◌, ◌&&◌, none, some, ◌==◌, if◌then◌else◌, arith, inl, inr,
  Option-cases,
}
use max_one.Exec.{ok, err, unauthorized}
use max_one.Schema.{active, RefreshToken}
use max_one.World.{Prisma, IsPrisma, World, Host}
use max_one.Tokens.{
  Crypto, Held, token_row, is_unused, mark_used, reuse_grace_ms, issue_tokens, claim_and_issue,
  rotate_held,
}

module _ {p : Prisma} (lawful : IsPrisma p) (host : Host) (crypto : Crypto) (held : Held) where
  -- The row that `issue_tokens` adds.
  abbrev issued : ℕ → RefreshToken
  issued = token_row host crypto held.user.user.id held.token.family_id

  find_issued :
      (w : World p) (j : ℕ)
      → let n = p.refresh_token.fresh w.db.refresh_tokens in
        p.refresh_token.find_unique j
          (issue_tokens host crypto held.user held.token.family_id w).1.db.refresh_tokens
        ≡ (if n == j then some (issued n) else p.refresh_token.find_unique j w.db.refresh_tokens)
  unfolding issue_tokens
  find_issued w j =
      let row = issued (p.refresh_token.fresh w.db.refresh_tokens) in
      ground (
        arith,
        lawful.key-refresh_token row,
        lawful.refresh_token.find_unique-fresh w.db.refresh_tokens,
        lawful.refresh_token.find_unique-insert j row w.db.refresh_tokens,
      )

  -- A refresh token that was used longer ago than the grace window, of an active user, is refused,
  -- and no row of its family is left.
  pub replay_revokes :
      (w : World p) {used_at : ℕ}
      → held.user.user.status ≡ active
      → held.token.used_at ≡ some used_at
      → used_at + reuse_grace_ms ≤ host.now
      → let (r, w') = rotate_held host crypto held w in
        (r ≡ err (unauthorized "Refresh token reuse detected"))
        × ((k : ℕ) (t : RefreshToken)
            → p.refresh_token.find_unique k w'.db.refresh_tokens ≡ some t
            → t.family_id ≢ held.token.family_id)
  unfolding rotate_held
  replay_revokes w live used late = (
    ground arith,
    λ k t found same. ground (
      arith,
      lawful.refresh_token.find_unique-delete_many k (λ q. q.family_id == held.token.family_id)
          w.db.refresh_tokens,
    ),
  )

  -- What a rotation does to an unused token that still stands: it is marked used, one new row of the
  -- same family and user appears at an id that was free, and no other row changes.
  module _ (w : World p) (live : held.user.user.status ≡ active)
      (unused : held.token.used_at ≡ none) (fresh : host.now ≤ held.token.expires_at)
      (stands : p.refresh_token.find_unique held.token.id w.db.refresh_tokens
        ≡ some held.token) where
    abbrev claimed : p.refresh_token.Table
    claimed =
        p.refresh_token.update_many (λ t. (t.id == held.token.id) && is_unused t)
          (mark_used host.now) w.db.refresh_tokens

    abbrev new_id : ℕ
    new_id = p.refresh_token.fresh claimed

-- The loser of a race: the request read the token while it was unused, and claims it when it is used.
module _ {p : Prisma} (lawful : IsPrisma p) (host : Host) (crypto : Crypto) (held : Held)
    (w : World p) {now : RefreshToken} {used_at : ℕ} (live : held.user.user.status ≡ active)
    (unused : held.token.used_at ≡ none) (fresh : host.now ≤ held.token.expires_at)
    (stands : p.refresh_token.find_unique held.token.id w.db.refresh_tokens ≡ some now)
    (used : now.used_at ≡ some used_at) where
  abbrev unclaimed : p.refresh_token.Table
  unclaimed =
      p.refresh_token.update_many (λ t. (t.id == held.token.id) && is_unused t) (mark_used host.now)
        w.db.refresh_tokens

  find_unclaimed :
      (j : ℕ)
      → p.refresh_token.find_unique j unclaimed ≡ p.refresh_token.find_unique j w.db.refresh_tokens
  find_unclaimed j =
      let updated =
        lawful.refresh_token.find_unique-update_many j (λ t. (t.id == held.token.id) && is_unused t)
          (mark_used host.now) w.db.refresh_tokens
          (λ r.
            lawful.key-refresh_token (mark_used host.now r) ∙ sym (lawful.key-refresh_token r)) in
      elim (Option-cases (p.refresh_token.find_unique j w.db.refresh_tokens)) [
        | inl missing ↦ ground (arith, updated)
        | inr (r, found) ↦
            let at : r.id ≡ j =
              sym (lawful.key-refresh_token r)
              ∙ lawful.refresh_token.key-find_unique j w.db.refresh_tokens r found in
            ground (arith, updated, at, used)
      ]

  rotate_loses :
      rotate_held host crypto held w
      ≡ issue_tokens host crypto held.user held.token.family_id
          (record w { db = record w.db { refresh_tokens = unclaimed } })
  unfolding rotate_held claim_and_issue issue_tokens
  rotate_loses = ground (arith, live, unused, stands, used)

  -- A request that read an unused, unexpired token of an active user and finds it used when it
  -- claims it gets a pair of its own: one new row of the same family appears at an id that was
  -- free, and every row that stood is left.
  pub rotate_races :
      let (r, w') = rotate_held host crypto held w in
      (r
        ≡ ok (record {
          access_token =
              crypto.sign_access held.user.user.id held.user.user.email held.user.role.name;
          refresh_token = crypto.random_token;
        }))
      × (n : ℕ) × (p.refresh_token.find_unique n w.db.refresh_tokens ≡ none)
      × ((j : ℕ)
          → p.refresh_token.find_unique j w'.db.refresh_tokens ≡ (
              if n == j
              then some (token_row host crypto held.user.user.id held.token.family_id n)
              else p.refresh_token.find_unique j w.db.refresh_tokens))
  unfolding issue_tokens
  rotate_races = (
    ap (λ r. r.0) rotate_loses,
    p.refresh_token.fresh unclaimed,
    sym (find_unclaimed (p.refresh_token.fresh unclaimed))
        ∙ lawful.refresh_token.find_unique-fresh unclaimed,
    λ j.
        ap (λ r. p.refresh_token.find_unique j r.1.db.refresh_tokens) rotate_loses
        ∙ ground (
          arith,
          find_unclaimed j,
          find_issued lawful host crypto held
              (record w { db = record w.db { refresh_tokens = unclaimed } }) j,
        ),
  )

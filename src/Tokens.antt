-- ===== src/Tokens.antt =====
-- backend/src/auth/tokens.service.ts: refresh tokens, their rotation and their families.
pub mod Laws
pub mod Permission
pub mod Purpose
use max_one.Prelude.{
  ℕ, zero, suc, ◌+◌, ◌-◌, ◌*◌, String, Bool, true, false, not, ◌&&◌, Option, none, some, ◌==◌, ltb,
  if◌then◌else◌, str_eq,
}
use max_one.Exec.{ok, unauthorized, forbidden, pure, throw, throw_if, or_throw, ◌>>=◌, ◌>>◌}
use max_one.Schema.{User, UserStatus, active, RefreshToken}
use max_one.World.{Prisma, World, Host, Action, in_transaction}
use max_one.Users.{UserWithRole, status_eq, find_by_id_with_permissions, delete_refresh_tokens}

-- What the service takes from node's crypto and from the JWT library.
pub record Crypto : Type 0 where
  pub sha256 : String → String
  -- `randomBytes(48).toString('hex')`
  pub random_token : String
  -- `signAsync({ sub, email, role })`
  pub sign_access : ℕ → String → String → String

-- `REFRESH_TTL_DAYS`
abbrev pub refresh_ttl_days : ℕ
refresh_ttl_days = 7

-- `REUSE_GRACE_MS`
abbrev pub reuse_grace_ms : ℕ
reuse_grace_ms = 30000

pub record Pair : Type 0 where
  pub access_token : String
  pub refresh_token : String

abbrev pub token_row : Host → Crypto → ℕ → ℕ → ℕ → RefreshToken
token_row host crypto user_id family_id id = record {
  id = id;
  token_hash = crypto.sha256 crypto.random_token;
  family_id = family_id;
  used_at = none;
  user_id = user_id;
  expires_at = host.now + refresh_ttl_days * 24 * 60 * 60 * 1000;
}

-- The row that `rotate` reads: `include: { user: { include: { role: true } } }`
pub record Held : Type 0 where
  pub token : RefreshToken
  pub user : UserWithRole

abbrev pub is_unused : RefreshToken → Bool
is_unused t = elim t.used_at [ none ↦ true | some _ ↦ false ]

-- `data: { usedAt: new Date() }`
abbrev pub mark_used : ℕ → RefreshToken → RefreshToken
mark_used now t = record t { used_at = some now }

module _ {p : Prisma} (host : Host) (crypto : Crypto) where
  unfoldable pub issue_tokens : UserWithRole → ℕ → Action p Pair
  issue_tokens user family_id w =
      let row =
        token_row host crypto user.user.id family_id (p.refresh_token.fresh w.db.refresh_tokens) in
      (
        ok (record {
          access_token = crypto.sign_access user.user.id user.user.email user.role.name;
          refresh_token = crypto.random_token;
        }),
        record w {
          db = record w.db { refresh_tokens = p.refresh_token.insert row w.db.refresh_tokens };
        },
      )

  abbrev join_user : Option RefreshToken → Action p (Option Held)
  join_user none = pure none
  join_user (some token) = do
    user ← find_by_id_with_permissions token.user_id
    pure (elim user [ none ↦ none | some u ↦ some (record { token = token; user = u }) ])

  -- `findUnique({ where: { tokenHash } })` with the user and the role
  abbrev pub find_held : String → Action p (Option Held)
  find_held raw w =
      join_user
        (p.refresh_token.find_first (λ t. str_eq t.token_hash (crypto.sha256 raw))
          w.db.refresh_tokens)
        w

  -- `updateMany({ where: { id, usedAt: null } })`, and whether it claimed the row
  abbrev claim : ℕ → Action p Bool
  claim id w = (
    ok (elim (p.refresh_token.find_unique id w.db.refresh_tokens) [
      | none ↦ false
      | some t ↦ is_unused t
    ]),
    record w {
      db = record w.db {
        refresh_tokens =
            p.refresh_token.update_many (λ t. (t.id == id) && is_unused t) (mark_used host.now)
              w.db.refresh_tokens;
      };
    },
  )

  -- the body of `rotate`'s `$transaction`; none is the loser of a race
  unfoldable pub claim_and_issue : Held → Action p (Option Pair)
  unfolding issue_tokens
  claim_and_issue held = do
    claimed ← claim held.token.id
    if claimed
        then (do pair ← issue_tokens held.user held.token.family_id; pure (some pair))
        else pure none

  -- `rotate` after its read, in the state that it finds then
  unfoldable pub rotate_held : Held → Action p Pair
  unfolding issue_tokens claim_and_issue
  rotate_held held =
      if not (status_eq held.user.user.status active)
      then throw (forbidden "This account has been suspended. Please contact support.")
      else elim held.token.used_at [
        | some used_at ↦
            if ltb (host.now - used_at) reuse_grace_ms
            then issue_tokens held.user held.token.family_id
            else delete_refresh_tokens (λ t. t.family_id == held.token.family_id)
              >> throw (unauthorized "Refresh token reuse detected")
        | none ↦
            if ltb held.token.expires_at host.now
            then delete_refresh_tokens (λ t. t.id == held.token.id)
              >> throw (unauthorized "Refresh token expired")
            else in_transaction (claim_and_issue held) >>= λ issued. elim issued [
              | none ↦ issue_tokens held.user held.token.family_id
              | some pair ↦ pure pair
            ]
      ]

  unfoldable pub rotate : String → Action p Pair
  unfolding rotate_held
  rotate raw = do
    found ← find_held raw
    held ← or_throw (unauthorized "Invalid refresh token") found
    rotate_held held

  unfoldable pub revoke : String → Action p (Unit {0})
  revoke raw = delete_refresh_tokens (λ t. str_eq t.token_hash (crypto.sha256 raw))

-- ===== src/Tests/Sessions.antt =====
-- Refresh tokens and staff actions on the world of the tests.
use max_one.Prelude.{refl, ◌≡◌, ◌≢◌, String, none, some, [], ◌∷◌, arith, ℕ}
use max_one.Exec.{err, unauthorized}
use max_one.Schema.{RefreshToken}
use max_one.World.{World}
use max_one.Tokens.{
  Crypto, Held, Pair, mark_used, rotate_held, rotate, issue_tokens, claim_and_issue,
}
use max_one.Tokens.Laws.{replay_revokes}
use max_one.Tokens.Permission.{Permitted, rotate-Permitted}
use max_one.Tests.{prisma, prisma-IsPrisma, host, customer_role, user_row, world}

abbrev pub crypto : Crypto
crypto = record { sha256 = λ s. s; random_token = "new"; sign_access = λ id email role. "jwt" }

abbrev unused_token : RefreshToken
unused_token = record {
  id = 0;
  token_hash = "old";
  family_id = 3;
  used_at = none;
  user_id = 0;
  expires_at = 9000;
}

abbrev used_token : RefreshToken
used_token = mark_used 1 unused_token

abbrev held_as : RefreshToken → Held
held_as token = record {
  token = token;
  user = record { user = user_row 0 "alice" 0; role = customer_role };
}

abbrev holding : RefreshToken → World prisma
holding token = record world { db = record world.db { refresh_tokens = some token ∷ [] } }

abbrev finance : String
finance = "finance"

abbrev pair : Pair
pair = record { access_token = "jwt"; refresh_token = "new" }

replay_revokes_example :
    let (r, w') =
      rotate_held {p = prisma}
        (record host { now = 60000 })
        crypto
        (held_as used_token)
        (holding used_token) in
    (r ≡ err (unauthorized "Refresh token reuse detected"))
    × ((k : ℕ) (t : RefreshToken)
        → prisma.refresh_token.find_unique k w'.db.refresh_tokens ≡ some t
        → t.family_id ≢ 3)
replay_revokes_example =
    replay_revokes prisma-IsPrisma (record host { now = 60000 }) crypto (held_as used_token)
      (holding used_token) refl refl (omega arith)

rotate-Permitted_example : Permitted host crypto "old" (holding unused_token)
unfolding rotate rotate_held claim_and_issue issue_tokens
rotate-Permitted_example = rotate-Permitted host crypto "old" (holding unused_token) refl

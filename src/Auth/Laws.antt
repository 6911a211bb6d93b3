-- ===== src/Auth/Laws.antt =====
-- What lets a caller in, and what does not.
use max_one.Prelude.{
  ℕ, ◌+◌, ◌<◌, ◌≡◌, ◌⊎◌, String, Bool, true, false, Option, none, some, List, [], ◌∷◌, any, str_eq,
  arith, inl, inr, Option-cases, Bool-cases, eq_iff, All, Has,
}
use max_one.Exec.{ok, Result-cases}
use max_one.Schema.{active}
use max_one.World.{Prisma, World}
use max_one.Users.{UserWithRole, with_role, find_by_id}
use max_one.Tokens.Purpose.{
  Jwt, IsJwt, purpose_claims, issue_purpose, issue_2fa_challenge, verify_step_up_grant,
}
use max_one.Auth.Guards.{Identity, holds_all, validate, authenticate, can_activate, step_up}
use max_one.Auth.Login.{Services, Outcome, requires_2fa, login}

any-Has :
    (code : String) (held : List String) → any (λ h. str_eq h code) held ≡ true → Has code held
unfolding any
any-Has code [] h = absurd (ground arith)
any-Has code (x ∷ held) h = elim (Bool-cases (str_eq x code)) [
  | inl here ↦ inl ((eq_iff x code).0 here)
  | inr other ↦ inr (any-Has code held (ground arith))
]

holds_all-Has :
    (required held : List String)
    → holds_all required held ≡ true
    → All (λ code. Has code held) required
unfolding holds_all
holds_all-Has [] held h = tt
holds_all-Has (code ∷ required) held h =
    (any-Has code held (ground arith), holds_all-Has required held (ground arith))

-- The permissions guard lets a caller through to a route that asks for permissions only if the
-- caller is known, has a row with a role, is active in the database, and the role holds every code
-- that the route asks for.
pub can_activate_held :
    {p : Prisma} (code : String) (required : List String) (identity : Option Identity) (w : World p)
    {b : Bool}
    → (can_activate (code ∷ required) identity w).0 ≡ ok b
    → (i : Identity) × (u : UserWithRole) × (identity ≡ some i)
      × (with_role w (p.user.find_unique i.id w.db.users) ≡ some u)
      × (u.user.status ≡ active)
      × All (λ c. Has c u.role.permissions) (code ∷ required)
unfolding can_activate
can_activate_held {p} code required identity w h = elim (Option-cases identity) [
  | inl nobody ↦ absurd (ground arith)
  | inr (i, known) ↦ elim (Option-cases (with_role w (p.user.find_unique i.id w.db.users))) [
    | inl gone ↦ absurd (ground (arith, known, gone))
    | inr (u, found) ↦ elim (Bool-cases (holds_all (code ∷ required) u.role.permissions)) [
      | inl all ↦ (
        i,
        u,
        known,
        found,
        ground (arith, known, found),
        holds_all-Has (code ∷ required) u.role.permissions all,
      )
      | inr short ↦ absurd (ground (arith, known, found, short))
    ]
  ]
]

-- The step-up guard lets a known user through only without a second factor, or with a token in the
-- header that verifies as a step-up grant for this user.
pub step_up_bound :
    {p : Prisma} (jwt : Jwt) (now : ℕ) (user : Identity) (header : Option jwt.Token) (w : World p)
    {b : Bool}
    → (step_up jwt now (some user) header w).0 ≡ ok b
    → (user.totp_enabled ≡ false)
      ⊎ ((token : jwt.Token) × (header ≡ some token)
          × (verify_step_up_grant jwt now token ≡ ok (some user.id)))
unfolding step_up
step_up_bound jwt now user header w h = elim (Bool-cases user.totp_enabled) [
  | inr off ↦ inl off
  | inl on ↦ elim (Option-cases header) [
    | inl missing ↦ absurd (ground (arith, on, missing))
    | inr (token, given) ↦ elim (Result-cases (verify_step_up_grant jwt now token)) [
      | inr (e, failed) ↦ absurd (ground (arith, on, given, failed))
      | inl (sub, verified) ↦ elim (Option-cases sub) [
        | inl nobody ↦ absurd (ground (arith, on, given, verified, nobody))
        | inr (id, named) ↦ inr (token, given, ground (arith, on, given, verified, named))
      ]
    ]
  ]
]

-- A purpose token of a user who is there with a role and active, the challenge of a login whose
-- second factor is still open among them, passes as a bearer token until it expires.
pub purpose_authenticates :
    {p : Prisma} (jwt : Jwt) (issued_at now user_id lifetime : ℕ) (purpose : String) (w : World p)
    {u : UserWithRole}
    → IsJwt jwt
    → with_role w (p.user.find_unique user_id w.db.users) ≡ some u
    → u.user.status ≡ active
    → now < issued_at + lifetime
    → authenticate jwt now (issue_purpose jwt issued_at user_id purpose lifetime) w ≡ (
      ok (record { id = user_id; email = none; role = none; totp_enabled = u.user.totp_enabled }),
      w,
    )
unfolding authenticate validate find_by_id
purpose_authenticates jwt issued_at now user_id lifetime purpose w lawful found live soon = ground (
  arith,
  found,
  live,
  lawful.verify-sign now (issued_at + lifetime) (purpose_claims user_id purpose),
)

-- A login that is answered is of a user who is there with a role and active, with the password of
-- the row. Tokens are given only without a second factor; with one the answer is a challenge, and
-- nothing is written.
pub login_checked :
    {p : Prisma} (s : Services) (email password : String) (w : World p)
    {outcome : Outcome s.jwt.Token}
    → (login s email password w).0 ≡ ok outcome
    → (u : UserWithRole) × (with_role w (p.user.find_first (λ r. str_eq r.email email) w.db.users)
        ≡ some u)
      × (s.bcrypt_compare password u.user.password_hash ≡ true)
      × (u.user.status ≡ active)
      × ((u.user.totp_enabled ≡ false)
          ⊎ ((outcome ≡ requires_2fa (issue_2fa_challenge s.jwt s.host.now u.user.id))
              × ((login s email password w).1 ≡ w)))
unfolding login
login_checked {p} s email password w h =
    elim (Option-cases (with_role w (p.user.find_first (λ r. str_eq r.email email) w.db.users))) [
      | inl nobody ↦ absurd (ground (arith, nobody))
      | inr (u, found) ↦ elim (Bool-cases (s.bcrypt_compare password u.user.password_hash)) [
        | inr wrong ↦ absurd (ground (arith, found, wrong))
        | inl right ↦ (
          u,
          found,
          right,
          ground (arith, found, right),
          elim (Bool-cases u.user.totp_enabled) [
            | inr off ↦ inl off
            | inl on ↦ inr (ground (arith, found, right, on), ground (arith, found, right, on))
          ],
        )
      ]
    ]

-- ===== src/Auth/Guards.antt =====
-- backend/src/auth/jwt.strategy.ts, permissions.guard.ts and step-up.guard.ts. passport-jwt checks the
-- signature and the expiry of the bearer token before `validate`.
use max_one.Prelude.{
  ℕ, String, Bool, true, false, not, Option, none, some, List, [], ◌∷◌, any, ◌==◌, if◌then◌else◌,
  str_eq, ◌&&◌,
}
use max_one.Exec.{ok, err, unauthorized, forbidden, pure, throw, throw_if, or_throw, ◌>>=◌, ◌>>◌}
use max_one.Schema.{active}
use max_one.World.{Prisma, Action}
use max_one.Users.{SafeUser, status_eq, find_by_id, find_by_id_with_permissions}
use max_one.Tokens.Purpose.{Claims, Jwt, verify_step_up_grant}

-- `request.user`; a claim that the token does not set is undefined.
pub record Identity : Type 0 where
  pub id : ℕ
  pub email : Option String
  pub role : Option String
  pub totp_enabled : Bool

-- `every((code) => held.has(code))`
unfoldable pub holds_all : List String → List String → Bool
unfolding any
holds_all [] held = true
holds_all (code ∷ required) held =
    let rest = holds_all required held in any (λ h. str_eq h code) held && rest

module _ {p : Prisma} where
  -- `findById` in a `try`, whose failure is a 401
  abbrev find_or_unauthorized : ℕ → Action p SafeUser
  find_or_unauthorized id w = elim (find_by_id id w).0 [
    | ok user ↦ (ok user, (find_by_id id w).1)
    | err _ ↦ (err (unauthorized "Unauthorized"), (find_by_id id w).1)
  ]

  -- `JwtStrategy.validate`
  unfoldable pub validate : Claims → Action p Identity
  unfolding find_by_id
  validate claims = elim claims.sub [
    | none ↦ throw (unauthorized "Unauthorized")
    | some id ↦ do
      user ← find_or_unauthorized id
      throw_if (not (status_eq user.status active)) (unauthorized "Unauthorized")
      pure (record {
        id = id;
        email = claims.email;
        role = claims.role;
        totp_enabled = user.totp_enabled;
      })
  ]

  -- `JwtAuthGuard`
  unfoldable pub authenticate : (jwt : Jwt) → ℕ → jwt.Token → Action p Identity
  unfolding validate
  authenticate jwt now token = elim (jwt.verify now token) [
    | none ↦ throw (unauthorized "Unauthorized")
    | some claims ↦ validate claims
  ]

  -- `PermissionsGuard.canActivate` for a route that asks for some permissions
  abbrev check_permissions : List String → ℕ → Action p Bool
  check_permissions required id = do
    found ← find_by_id_with_permissions id
    user ← or_throw (forbidden "Access denied") found
    throw_if (not (status_eq user.user.status active)) (forbidden "Account suspended")
    throw_if (not (holds_all required user.role.permissions)) (forbidden "Access denied")
    pure true

  unfoldable pub can_activate : List String → Option Identity → Action p Bool
  unfolding holds_all
  can_activate [] identity = pure true
  can_activate (code ∷ required) identity = elim identity [
    | none ↦ throw (forbidden "Access denied")
    | some i ↦ check_permissions (code ∷ required) i.id
  ]

-- `sub !== user.id`
abbrev pub is_of : ℕ → Option ℕ → Bool
is_of id none = false
is_of id (some sub) = sub == id

-- `StepUpGuard.canActivate`; the header is none if it is missing or empty
unfoldable pub step_up :
    {p : Prisma} (jwt : Jwt) → ℕ → Option Identity → Option jwt.Token → Action p Bool
step_up jwt now identity header = elim identity [
  | none ↦ throw (forbidden "Forbidden")
  | some user ↦ if not user.totp_enabled then pure true else elim header [
    | none ↦ throw (forbidden "STEP_UP_REQUIRED")
    | some token ↦ elim (verify_step_up_grant jwt now token) [
      | err _ ↦ throw (forbidden "STEP_UP_REQUIRED")
      | ok sub ↦ if is_of user.id sub then pure true else throw (forbidden "STEP_UP_REQUIRED")
    ]
  ]
]

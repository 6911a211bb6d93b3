-- ===== src/Users.antt =====
-- backend/src/users/users.service.ts, roles.service.ts and to-safe-user.ts, over the tables `User`,
-- `Role` and `RefreshToken`. A user's role is a foreign key, so a join without a role finds nothing.
pub mod Administration
pub mod Laws
use max_one.Prelude.{ℕ, String, Bool, true, false, Option, none, some, ◌==◌, str_eq}
use max_one.Exec.{ok, not_found, pure, or_throw, ◌>>=◌}
use max_one.Schema.{User, UserStatus, active, suspended, Role, RefreshToken}
use max_one.World.{Prisma, World, Action}

-- `AuthUser` of auth/jwt.strategy.ts
pub record AuthUser : Type 0 where
  pub id : ℕ
  pub email : String
  pub role : String
  pub totp_enabled : Bool

-- `include: { role: ... }`
pub record UserWithRole : Type 0 where
  pub user : User
  pub role : Role

-- A row as it leaves the API: no password hash, no TOTP secret, no recovery hashes.
pub record SafeUser : Type 0 where
  pub id : ℕ
  pub email : String
  pub handle : Option String
  pub first_name : String
  pub last_name : String
  pub status : UserStatus
  pub totp_enabled : Bool
  pub role_id : ℕ
  pub role_name : String

abbrev pub to_safe_user : UserWithRole → SafeUser
to_safe_user u = record {
  id = u.user.id;
  email = u.user.email;
  handle = u.user.handle;
  first_name = u.user.first_name;
  last_name = u.user.last_name;
  status = u.user.status;
  totp_enabled = u.user.totp_enabled;
  role_id = u.role.id;
  role_name = u.role.name;
}

abbrev pub status_eq : UserStatus → UserStatus → Bool
status_eq active active = true
status_eq suspended suspended = true
status_eq _ _ = false

abbrev pub status_text : UserStatus → String
status_text active = "active"
status_text suspended = "suspended"

abbrev pub optional_text_is : String → Option String → Bool
optional_text_is s none = false
optional_text_is s (some t) = str_eq t s

abbrev pub set_status : UserStatus → User → User
set_status status u = record u { status = status }

abbrev pub set_role : ℕ → User → User
set_role role_id u = record u { role_id = role_id }

module _ {p : Prisma} where
  abbrev pub with_role : World p → Option User → Option UserWithRole
  with_role w none = none
  with_role w (some u) = elim (p.role.find_unique u.role_id w.db.roles) [
    | none ↦ none
    | some r ↦ some (record { user = u; role = r })
  ]

  -- `findByIdWithPermissions` and `findByIdRaw`: the raw row and its role
  abbrev pub find_by_id_with_permissions : ℕ → Action p (Option UserWithRole)
  find_by_id_with_permissions id w = (ok (with_role w (p.user.find_unique id w.db.users)), w)

  abbrev pub find_by_handle : String → Action p (Option User)
  find_by_handle handle w =
      (ok (p.user.find_first (λ u. optional_text_is handle u.handle) w.db.users), w)

  abbrev pub find_by_email : String → Action p (Option User)
  find_by_email email w = (ok (p.user.find_first (λ u. str_eq u.email email) w.db.users), w)

  -- `findById`
  unfoldable pub find_by_id : ℕ → Action p SafeUser
  find_by_id id = do
    user ← find_by_id_with_permissions id
    found ← or_throw (not_found "User not found") user
    pure (to_safe_user found)

  abbrev pub find_role_by_name : String → Action p (Option Role)
  find_role_by_name name w = (ok (p.role.find_first (λ r. str_eq r.name name) w.db.roles), w)

  abbrev pub update_user : ℕ → (User → User) → Action p (Unit {0})
  update_user id f w =
      (ok tt, record w { db = record w.db { users = p.user.update id f w.db.users } })

  abbrev pub delete_refresh_tokens : (RefreshToken → Bool) → Action p (Unit {0})
  delete_refresh_tokens test w = (
    ok tt,
    record w {
      db = record w.db { refresh_tokens = p.refresh_token.delete_many test w.db.refresh_tokens };
    },
  )

  -- `if (status === 'suspended') await tx.refreshToken.deleteMany({ where: { userId: id } })`
  abbrev pub end_sessions : UserStatus → ℕ → Action p (Unit {0})
  end_sessions active id = pure tt
  end_sessions suspended id = delete_refresh_tokens (λ t. t.user_id == id)

-- ===== src/Users/Administration.antt =====
-- `updateStatus` and `updateRole` of backend/src/users/users.service.ts.
use max_one.Prelude.{ℕ, String, ◌<>◌, not, ◌&&◌, [], ◌∷◌, ◌==◌, str_eq}
use max_one.Exec.{forbidden, not_found, failure, pure, throw_if, or_throw, ◌>>=◌, ◌>>◌}
use max_one.Schema
use max_one.Schema.{User, UserStatus, Role, Json, text}
use max_one.World.{Prisma, Host, Action, in_transaction}
use max_one.Audit.{AuditEntry, log}
use max_one.Users.{
  AuthUser, SafeUser, UserWithRole, to_safe_user, status_text, set_status, set_role,
  find_by_id_with_permissions, find_by_id, find_role_by_name, update_user, end_sessions,
}

abbrev pub status_entry : AuthUser → ℕ → UserStatus → UserStatus → AuditEntry
status_entry actor id before status = record {
  actor_user_id = actor.id;
  action = Schema.user_status_change;
  entity_type = Schema.AuditEntityType.user;
  entity_id = id;
  old_value = ("status", text (status_text before)) ∷ [];
  new_value = ("status", text (status_text status)) ∷ [];
}

abbrev pub role_entry : AuthUser → ℕ → String → String → AuditEntry
role_entry actor id before role = record {
  actor_user_id = actor.id;
  action = Schema.user_role_change;
  entity_type = Schema.AuditEntityType.user;
  entity_id = id;
  old_value = ("role", text before) ∷ [];
  new_value = ("role", text role) ∷ [];
}

module _ {p : Prisma} where
  -- `tx.user.update` with `include: { role }`: the row as it is afterwards.
  abbrev pub change_user : ℕ → (User → User) → Action p UserWithRole
  change_user id f = do
    update_user id f
    user ← find_by_id_with_permissions id
    or_throw (failure "Record to update not found") user

module _ {p : Prisma} (host : Host) where
  -- the body of `updateStatus`'s `$transaction`
  unfoldable pub change_status : ℕ → UserStatus → AuthUser → SafeUser → Action p SafeUser
  change_status id status actor before = do
    user ← change_user id (set_status status)
    end_sessions status id
    log host (status_entry actor id before.status status)
    pure (to_safe_user user)

  unfoldable pub update_status : ℕ → UserStatus → AuthUser → Action p SafeUser
  unfolding change_status find_by_id
  update_status id status actor = do
    throw_if (id == actor.id) (forbidden "You cannot change your own status")
    before ← find_by_id id
    in_transaction (change_status id status actor before)

  -- the body of `updateRole`'s `$transaction`
  unfoldable pub change_role : ℕ → Role → AuthUser → SafeUser → Action p SafeUser
  change_role id role actor before = do
    user ← change_user id (set_role role.id)
    log host (role_entry actor id before.role_name role.name)
    pure (to_safe_user user)

  unfoldable pub update_role : ℕ → String → AuthUser → Action p SafeUser
  unfolding change_role find_by_id
  update_role id role_name actor = do
    throw_if (id == actor.id) (forbidden "You cannot change your own role")
    throw_if (str_eq role_name "super_admin" && not (str_eq actor.role "super_admin"))
        (forbidden "Only a super_admin may assign the super_admin role")
    found ← find_role_by_name role_name
    role ← or_throw (not_found ("Unknown role: " <> role_name)) found
    before ← find_by_id id
    in_transaction (change_role id role actor before)

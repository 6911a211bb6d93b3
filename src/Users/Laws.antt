-- ===== src/Users/Laws.antt =====
-- What a change of a user's status or role guarantees.
use max_one.Prelude.{
  ℕ, ◌≡◌, ◌≢◌, ◌⊎◌, sym, ◌∙◌, String, some, ◌==◌, if◌then◌else◌, option_map, str_eq, arith, inl,
  inr, Option-cases, Bool-cases, eq_iff,
}
use max_one.Exec.{ok}
use max_one.Schema.{suspended, RefreshToken, Role}
use max_one.World.{Prisma, IsPrisma, World, Host}
use max_one.Users.{AuthUser, SafeUser, set_status, set_role, find_by_id}
use max_one.Users.Administration.{update_status, change_status, update_role, change_role}

module _ {p : Prisma} (lawful : IsPrisma p) (host : Host) (id : ℕ) (actor : AuthUser)
    (w : World p) where
  -- Once a user has been suspended, which is never by the user itself, no refresh token of that
  -- user is left, and the row of that user alone has the new status.
  pub update_status-suspends :
      {user : SafeUser}
      → (update_status host id suspended actor w).0 ≡ ok user
      → let w' = (update_status host id suspended actor w).1 in
        (id ≢ actor.id)
        × ((k : ℕ) (r : RefreshToken)
            → p.refresh_token.find_unique k w'.db.refresh_tokens ≡ some r
            → r.user_id ≢ id)
        × ((j : ℕ)
            → p.user.find_unique j w'.db.users ≡ (
                if id == j
                then option_map (set_status suspended) (p.user.find_unique j w.db.users)
                else p.user.find_unique j w.db.users))
  unfolding update_status change_status find_by_id
  update_status-suspends h = (
    ground arith,
    λ k r found same. ground (
      arith,
      lawful.refresh_token.find_unique-delete_many k (λ t. t.user_id == id) w.db.refresh_tokens,
    ),
    λ j. ground (
      arith,
      lawful.user.find_unique-update j id (set_status suspended) w.db.users
          (λ r. lawful.key-user (set_status suspended r) ∙ sym (lawful.key-user r)),
    ),
  )

  -- A role that has been assigned was not assigned by the user to itself, and super_admin only by
  -- a super_admin; the row of that user alone gets the id of a role of that name.
  pub update_role_permitted :
      (role_name : String) {user : SafeUser}
      → (update_role host id role_name actor w).0 ≡ ok user
      → (id ≢ actor.id)
        × ((role_name ≢ "super_admin") ⊎ (actor.role ≡ "super_admin"))
        × (role : Role) × (p.role.find_first (λ r. str_eq r.name role_name) w.db.roles ≡ some role)
        × ((j : ℕ)
            → p.user.find_unique j (update_role host id role_name actor w).1.db.users ≡ (
                if id == j
                then option_map (set_role role.id) (p.user.find_unique j w.db.users)
                else p.user.find_unique j w.db.users))
  unfolding update_role change_role find_by_id
  update_role_permitted role_name h =
      elim (Option-cases (p.role.find_first (λ r. str_eq r.name role_name) w.db.roles)) [
        | inl missing ↦ absurd (ground arith)
        | inr (role, found) ↦ (
          ground arith,
          elim (Bool-cases (str_eq role_name "super_admin")) [
            | inl top ↦ elim (Bool-cases (str_eq actor.role "super_admin")) [
              | inl crowned ↦ inr ((eq_iff actor.role "super_admin").0 crowned)
              | inr other ↦ absurd (ground arith)
            ]
            | inr lower ↦ inl (λ e. ground (arith, (eq_iff role_name "super_admin").1 e))
          ],
          role,
          found,
          λ j. ground (
            arith,
            lawful.user.find_unique-update j id (set_role role.id) w.db.users
                (λ r. lawful.key-user (set_role role.id r) ∙ sym (lawful.key-user r)),
          ),
        )
      ]

-- ===== src/TwoFactor/Laws.antt =====
-- What the second factor guarantees.
use max_one.Prelude.{
  ℕ, ◌≡◌, refl, sym, ◌∙◌, String, true, false, some, List, [], ◌∷◌, any, keep, arith, inl, inr,
  Option-cases,
}
use max_one.Exec.{ok}
use max_one.Schema.{User}
use max_one.World.{Prisma, IsPrisma, World}
use max_one.TwoFactor.{
  Otp, is_live, has_hash, without, set_hashes, consume_recovery_hash, prove_factor, prove_enabled,
  verify_for_login,
}

has_hash-without :
    (hash : String) (hashes : List String) → has_hash hash (without hash hashes) ≡ false
unfolding has_hash any keep
has_hash-without hash [] = refl
has_hash-without hash (h ∷ hashes) = ground (arith, has_hash-without hash hashes)

module _ {p : Prisma} (lawful : IsPrisma p) (otp : Otp) (id : ℕ) (code : String) (w : World p) where
  -- If a code that is no live TOTP code of the user passes the login check, the same code does not
  -- pass it again.
  pub verify_for_login_once :
      {user : User}
      → p.user.find_unique id w.db.users ≡ some user
      → is_live otp (otp.normalize code) user.totp_secret ≡ false
      → (verify_for_login otp id code w).0 ≡ ok true
      → (verify_for_login otp id code (verify_for_login otp id code w).1).0 ≡ ok false
  unfolding verify_for_login prove_enabled prove_factor consume_recovery_hash
  verify_for_login_once {user} found dead passed =
      let hash = otp.sha256 (otp.normalize code) in
      let left = without hash user.totp_recovery_hashes in
      let at : user.id ≡ id =
        sym (lawful.key-user user) ∙ lawful.user.key-find_unique id w.db.users user found in
      let updated =
        lawful.user.find_unique-update id user.id (set_hashes left) w.db.users
          (λ r. lawful.key-user (set_hashes left r) ∙ sym (lawful.key-user r)) in
      elim (Option-cases (p.role.find_unique user.role_id w.db.roles)) [
        | inl missing ↦ absurd (ground arith)
        | inr (role, known) ↦
            ground (arith, updated, at, has_hash-without hash user.totp_recovery_hashes)
      ]

-- Of two requests that both read the row of a user while it holds the hash of a recovery code,
-- which is no live TOTP code, both pass.
pub prove_factor_races :
    {p : Prisma} (otp : Otp) (user : User) (code : String) (w : World p)
    → is_live otp (otp.normalize code) user.totp_secret ≡ false
    → has_hash (otp.sha256 (otp.normalize code)) user.totp_recovery_hashes ≡ true
    → let (first, w') = prove_factor otp user code w in
      (first ≡ ok true) × ((prove_factor otp user code w').0 ≡ ok true)
unfolding prove_factor consume_recovery_hash
prove_factor_races otp user code w dead held = (ground arith, ground arith)

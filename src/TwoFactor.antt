-- ===== src/TwoFactor.antt =====
-- backend/src/auth/two-factor.service.ts and the TOTP columns of backend/src/users/users.service.ts.
-- otplib's check and secrets, the hash, and the random codes are parameters; the QR code is left out.
pub mod Laws
use max_one.Prelude.{
  ℕ, String, Bool, true, false, not, ◌||◌, Option, none, some, List, [], ◌∷◌, map, any, keep,
  if◌then◌else◌, str_eq,
}
use max_one.Exec.{ok, conflict, unauthorized, pure, throw, throw_if, ◌>>=◌, ◌>>◌}
use max_one.Schema.{User}
use max_one.World.{Prisma, World, Action}
use max_one.Users.{UserWithRole, find_by_id_with_permissions, update_user}

pub record Otp : Type 0 where
  -- trimmed, in lower case, without spaces
  pub normalize : String → String
  -- `authenticator.check(code, secret)`
  pub check : String → String → Bool
  pub secret : String
  pub sha256 : String → String
  -- the eight codes that `randomBytes` gives
  pub recovery_codes : List String

abbrev pub set_totp_pending : String → User → User
set_totp_pending secret u = record u {
  totp_secret = some secret;
  totp_enabled = false;
  totp_recovery_hashes = [];
}

abbrev pub enable_totp : List String → User → User
enable_totp hashes u = record u { totp_enabled = true; totp_recovery_hashes = hashes }

abbrev pub disable_totp : User → User
disable_totp u = record u { totp_secret = none; totp_enabled = false; totp_recovery_hashes = [] }

-- `filter((h) => h !== hash)`
abbrev pub without : String → List String → List String
without hash hashes = keep (λ h. not (str_eq h hash)) hashes

abbrev pub set_hashes : List String → User → User
set_hashes hashes u = record u { totp_recovery_hashes = hashes }

abbrev pub is_enabled : Option UserWithRole → Bool
is_enabled none = false
is_enabled (some u) = u.user.totp_enabled

-- `totpSecret && authenticator.check(code, totpSecret)`; an empty secret is falsy
abbrev pub is_live : Otp → String → Option String → Bool
is_live otp code none = false
is_live otp code (some secret) = if str_eq secret "" then false else otp.check code secret

unfoldable pub has_hash : String → List String → Bool
unfolding any
has_hash hash hashes = any (λ h. str_eq h hash) hashes

module _ {p : Prisma} (otp : Otp) where
  -- `consumeRecoveryHash`: reads the row again, and writes what is left of its hashes
  unfoldable pub consume_recovery_hash : ℕ → String → Action p (Unit {0})
  consume_recovery_hash id hash w =
      update_user id
        (set_hashes (elim (p.user.find_unique id w.db.users) [
          | none ↦ []
          | some u ↦ without hash u.totp_recovery_hashes
        ]))
        w

  unfoldable pub setup : ℕ → Action p String
  setup id = do
    existing ← find_by_id_with_permissions id
    throw_if (is_enabled existing) (conflict "2FA is already enabled — turn it off first")
    update_user id (set_totp_pending otp.secret)
    pure otp.secret

  unfoldable pub verify_and_enable : ℕ → String → Action p (List String)
  verify_and_enable id code = do
    user ← find_by_id_with_permissions id
    throw_if
        (not (elim user [
          | none ↦ false
          | some u ↦ is_live otp (otp.normalize code) u.user.totp_secret
        ]))
        (unauthorized "Invalid code")
    update_user id (enable_totp (map otp.sha256 otp.recovery_codes))
    pure otp.recovery_codes

  -- `proveFactor`, of a row that has been read before
  unfoldable pub prove_factor : User → String → Action p Bool
  unfolding has_hash consume_recovery_hash
  prove_factor user code =
      let c = otp.normalize code in
      if is_live otp c user.totp_secret
      then pure true
      else if has_hash (otp.sha256 c) user.totp_recovery_hashes
      then consume_recovery_hash user.id (otp.sha256 c) >> pure true
      else pure false

  -- the condition of `disable` and `verifyForLogin`
  unfoldable pub prove_enabled : Option UserWithRole → String → Action p Bool
  unfolding prove_factor
  prove_enabled none code = pure false
  prove_enabled (some u) code = if u.user.totp_enabled then prove_factor u.user code else pure false

  unfoldable pub disable : ℕ → String → Action p (Unit {0})
  unfolding prove_enabled
  disable id code = do
    user ← find_by_id_with_permissions id
    proved ← prove_enabled user code
    throw_if (not proved) (unauthorized "Invalid code")
    update_user id disable_totp

  unfoldable pub status : ℕ → Action p Bool
  status id = do user ← find_by_id_with_permissions id; pure (is_enabled user)

  unfoldable pub verify_for_login : ℕ → String → Action p Bool
  unfolding prove_enabled
  verify_for_login id code = do user ← find_by_id_with_permissions id; prove_enabled user code

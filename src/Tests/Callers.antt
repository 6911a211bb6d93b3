-- ===== src/Tests/Callers.antt =====
-- Tokens of a purpose, second factors, guards and logins on the world of the tests.
use max_one.Prelude.{
  refl, ◌≡◌, ◌⊎◌, ℕ, true, false, none, some, [], ◌∷◌, ltb, if◌then◌else◌, str_eq, All, Has,
}
use max_one.Exec.{ok}
use max_one.Schema.{User, active}
use max_one.World.{World}
use max_one.Users.{UserWithRole, with_role}
use max_one.Tokens.Purpose.{
  Claims, Jwt, IsJwt, issue_purpose, issue_2fa_challenge, verify_purpose,
  verify_purpose-issue_purpose, invalid,
}
use max_one.TwoFactor.{
  Otp, has_hash, verify_for_login, prove_enabled, prove_factor, consume_recovery_hash,
}
use max_one.TwoFactor.Laws.{verify_for_login_once}
use max_one.Auth.Guards.{Identity, can_activate, holds_all}
use max_one.Auth.Login.{Services, requires_2fa, login}
use max_one.Auth.Laws.{can_activate_held, login_checked}
use max_one.Tests.{prisma, prisma-IsPrisma, host, user_row, world}
use max_one.Tests.Sessions.{crypto}

-- A token is its claims and its end.
abbrev pub paper : Jwt
paper = record {
  Token = Claims × ℕ;
  sign = λ claims expires_at. (claims, expires_at);
  verify = λ now token. if ltb now token.1 then some token.0 else none;
}

paper-IsJwt : IsJwt paper
paper-IsJwt = record { verify-sign = λ now expires_at claims. refl }

verify_purpose-issue_purpose_example :
    verify_purpose paper 2000 (issue_purpose paper 1000 7 "2fa" 300000) "step-up" ≡ (
      if ltb 2000 301000
      then (if str_eq "2fa" "step-up" then ok (some 7) else invalid "step-up")
      else invalid "step-up")
verify_purpose-issue_purpose_example =
    verify_purpose-issue_purpose paper 1000 2000 7 300000 "2fa" "step-up" paper-IsJwt

abbrev otp : Otp
otp = record {
  normalize = λ s. s;
  check = λ code secret. false;
  secret = "secret";
  sha256 = λ s. s;
  recovery_codes = [];
}

-- Alice with a second factor and two recovery codes.
abbrev guarded : User
guarded = record (user_row 0 "alice" 0) {
  totp_secret = some "secret";
  totp_enabled = true;
  totp_recovery_hashes = "one" ∷ "two" ∷ [];
}

abbrev guarded_world : World prisma
guarded_world = record world {
  db = record world.db { users = some guarded ∷ none ∷ some (user_row 2 "carol" 1) ∷ [] };
}

verify_for_login_once_example :
    (verify_for_login otp 0 "one" (verify_for_login otp 0 "one" guarded_world).1).0 ≡ ok false
unfolding verify_for_login prove_enabled prove_factor has_hash consume_recovery_hash
verify_for_login_once_example =
    verify_for_login_once prisma-IsPrisma otp 0 "one" guarded_world refl refl refl

abbrev identity_of : ℕ → Identity
identity_of id = record { id = id; email = none; role = none; totp_enabled = true }

can_activate_held_example :
    (i : Identity) × (u : UserWithRole) × (some (identity_of 2) ≡ some i)
    × (with_role world (prisma.user.find_unique i.id world.db.users) ≡ some u)
    × (u.user.status ≡ active)
    × All (λ c. Has c u.role.permissions) ("deposit.approve" ∷ [])
unfolding can_activate holds_all
can_activate_held_example = can_activate_held "deposit.approve" [] (some (identity_of 2)) world refl

abbrev services : Services
services = record {
  host = host;
  crypto = crypto;
  jwt = paper;
  otp = otp;
  family_uuid = 4;
  bcrypt_hash = λ s. s;
  bcrypt_compare = λ password hash. true;
  dummy_hash = "dummy";
  to_lower_case = λ s. s;
}

login_checked_example :
    (u : UserWithRole) × (with_role guarded_world
        (prisma.user.find_first (λ r. str_eq r.email "alice") guarded_world.db.users)
      ≡ some u)
    × (true ≡ true)
    × (u.user.status ≡ active)
    × ((u.user.totp_enabled ≡ false)
        ⊎ ((requires_2fa (issue_2fa_challenge paper 5000 0)
              ≡ requires_2fa (issue_2fa_challenge paper 5000 u.user.id))
            × ((login services "alice" "pw" guarded_world).1 ≡ guarded_world)))
unfolding login
login_checked_example = login_checked services "alice" "pw" guarded_world refl

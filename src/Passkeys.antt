-- ===== src/Passkeys.antt =====
-- backend/src/auth/passkeys.service.ts, and the WebAuthn challenge of backend/src/auth/tokens.service.ts.
-- The JWT library, @simplewebauthn/server and the delegate of the table are parameters.
pub mod Service
pub mod Laws
pub mod Replay
use max_one.Prelude.{
  ℕ, ◌+◌, ◌<◌, ◌≡◌, String, Bool, true, false, not, ◌&&◌, ◌||◌, Option, none, some, List, [], map,
  ltb, ◌==◌, str_eq, if◌then◌else◌,
}
use max_one.Exec.{
  Exec, Result, ok, err, Exception, unauthorized, not_found, conflict, failure, pure, throw,
  or_throw, throw_if, ◌>>=◌, ◌>>◌,
}
use max_one.Prisma.{Delegate, OrderBy, unordered, asc}
use max_one.Tokens.Purpose.{Claims, Jwt, text_is}

-- The row of backend/prisma/schema.prisma; `credential_id` is unique.
pub record Passkey : Type 0 where
  pub id : ℕ
  pub user_id : ℕ
  pub credential_id : String
  pub public_key : String
  pub counter : ℕ
  pub transports : List String
  pub device_type : String
  pub backed_up : Bool
  pub label : Option String
  pub created_at : ℕ
  pub last_used_at : Option ℕ

-- What a ceremony must state: the challenge, the origin and the relying party.
pub record Expected : Type 0 where
  pub challenge : String
  pub origin : String
  pub rp_id : String

pub record Credential : Type 0 where
  pub id : String
  pub public_key : String
  pub counter : ℕ
  pub transports : List String

-- What the library makes of a response: it throws, denies it, or verifies it.
pub data Verification (A : Type 0) : Type 0 where
  thrown : String → Verification A
  denied : Verification A
  verified : A → Verification A

-- `registrationInfo`
pub record Registration : Type 0 where
  pub credential : Credential
  pub device_type : String
  pub backed_up : Bool

pub record WebAuthn : Type 1 where
  pub RegistrationResponse : Type 0
  pub AuthenticationResponse : Type 0
  -- `response.id`
  pub credential_id : AuthenticationResponse → String
  pub verify_registration_response : Expected → RegistrationResponse → Verification Registration
  -- with the counter that the response states
  pub verify_authentication_response :
      Expected → Credential → AuthenticationResponse → Verification ℕ

-- What is relied on: the counter of a response is part of it, and one that does not exceed the stored
-- one is refused, unless both are zero.
pub record IsWebAuthn (library : WebAuthn) : Type 0 where
  pub verify-counter :
      (e : Expected) (c : Credential) (r : library.AuthenticationResponse) (n k : ℕ)
      → library.verify_authentication_response e c r ≡ verified n
      → (ltb c.counter n || (n == 0 && c.counter == 0) ≡ true)
        × ((ltb k n || (n == 0 && k == 0) ≡ true)
            → library.verify_authentication_response e (record c { counter = k }) r ≡ verified n)
        × ((ltb k n || (n == 0 && k == 0) ≡ false)
            → (message : String) × (library.verify_authentication_response e
                  (record c { counter = k })
                  r
                ≡ thrown message))

pub record Config : Type 0 where
  pub rp_id : String
  pub origin : String

abbrev pub challenge_claims : String → Option ℕ → Claims
challenge_claims challenge user_id = record {
  sub = user_id;
  email = none;
  role = none;
  purpose = some "webauthn";
  challenge = some challenge;
}

abbrev pub bad_challenge : Exception
bad_challenge = unauthorized "Invalid or expired WebAuthn challenge"

module _ (jwt : Jwt) (now : ℕ) where
  abbrev pub issue_webauthn_challenge : String → Option ℕ → jwt.Token
  issue_webauthn_challenge challenge user_id =
      jwt.sign (challenge_claims challenge user_id) (now + 300000)

  -- `!p.challenge`
  abbrev pub read_claims : Claims → Result (String × Option ℕ)
  read_claims p = elim p.challenge [
    | none ↦ err bad_challenge
    | some challenge ↦
        if not (text_is "webauthn" p.purpose) || str_eq challenge ""
        then err bad_challenge
        else ok (challenge, p.sub)
  ]

  unfoldable pub verify_webauthn_challenge : jwt.Token → Result (String × Option ℕ)
  verify_webauthn_challenge token = elim (jwt.verify now token) [
    | none ↦ err bad_challenge
    | some p ↦ read_claims p
  ]

abbrev pub has_credential : String → Passkey → Bool
has_credential credential_id r = str_eq r.credential_id credential_id

-- What the library returned; its throw is not caught.
abbrev pub settle : {A : Type 0} → String → Verification A → Result A
settle message (thrown e) = err (failure e)
settle message denied = err (unauthorized message)
settle message (verified a) = ok a

abbrev pub expected : Config → String → Expected
expected config challenge = record {
  challenge = challenge;
  origin = config.origin;
  rp_id = config.rp_id;
}

abbrev pub new_passkey : ℕ → ℕ → Registration → Option String → ℕ → Passkey
new_passkey now user_id info label id = record {
  id = id;
  user_id = user_id;
  credential_id = info.credential.id;
  public_key = info.credential.public_key;
  counter = info.credential.counter;
  transports = info.credential.transports;
  device_type = info.device_type;
  backed_up = info.backed_up;
  label = label;
  created_at = now;
  last_used_at = none;
}

abbrev pub is_other : ℕ → Option ℕ → Bool
is_other user_id none = true
is_other user_id (some bound) = not (bound == user_id)

abbrev pub is_foreign : Option ℕ → ℕ → Bool
is_foreign none user_id = false
is_foreign (some expect) user_id = not (user_id == expect)

abbrev pub credential_of : Passkey → Credential
credential_of r = record {
  id = r.credential_id;
  public_key = r.public_key;
  counter = r.counter;
  transports = r.transports;
}

abbrev pub mark_used : ℕ → ℕ → Passkey → Passkey
mark_used now counter r = record r { counter = counter; last_used_at = some now }

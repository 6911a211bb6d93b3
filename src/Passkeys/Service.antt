-- ===== src/Passkeys/Service.antt =====
-- The methods of backend/src/auth/passkeys.service.ts.
use max_one.Prelude.{ℕ, String, ◌&&◌, Option, none, some, List, map, ◌==◌, if◌then◌else◌}
use max_one.Exec.{
  Exec, Result, ok, err, unauthorized, not_found, conflict, pure, or_throw, throw_if, ◌>>=◌, ◌>>◌,
}
use max_one.Prisma.{Delegate, unordered, asc}
use max_one.Tokens.Purpose.{Jwt}
use max_one.Passkeys.{
  Passkey, WebAuthn, Config, issue_webauthn_challenge, verify_webauthn_challenge, has_credential,
  settle, expected, new_passkey, is_other, is_foreign, credential_of, mark_used,
}

module _ (d : Delegate Passkey) (jwt : Jwt) (library : WebAuthn) (config : Config) (now : ℕ) where
  abbrev lift : {A : Type 0} → Result A → Exec d.Table A
  lift r t = (r, t)

  -- `registrationOptions`: the credentials to exclude, the challenge and its token
  abbrev pub registration_options :
      ℕ → String → d.Table → List (String × List String) × String × jwt.Token
  registration_options user_id challenge t = (
    map (λ r. (r.credential_id, r.transports))
        (d.find_many (λ r. r.user_id == user_id) unordered t),
    challenge,
    issue_webauthn_challenge jwt now challenge (some user_id),
  )

  -- `create`, which Postgres refuses where the credential is there
  abbrev create : (ℕ → Passkey) → Exec d.Table Passkey
  create make t =
      let row = make (d.fresh t) in
      elim (d.find_first (has_credential row.credential_id) t) [
        | some _ ↦ (err (conflict "Already exists"), t)
        | none ↦ (ok row, d.insert row t)
      ]

  unfoldable pub verify_registration :
      ℕ → library.RegistrationResponse → jwt.Token → Option String → Exec d.Table Passkey
  unfolding verify_webauthn_challenge
  verify_registration user_id response token label = do
    c ← lift (verify_webauthn_challenge jwt now token)
    throw_if (is_other user_id c.1) (unauthorized "Challenge does not belong to this user")
    info ← lift (
        settle "Passkey registration failed"
          (library.verify_registration_response (expected config c.0) response))
    create (new_passkey now user_id info label)

  abbrev pub authentication_options : String → String × jwt.Token
  authentication_options challenge = (challenge, issue_webauthn_challenge jwt now challenge none)

  abbrev update_passkey : Passkey → (Passkey → Passkey) → Exec d.Table (Unit {0})
  update_passkey r f t = (ok tt, d.update (d.key r) f t)

  abbrev find_credential : String → Exec d.Table (Option Passkey)
  find_credential id t = (ok (d.find_first (has_credential id) t), t)

  -- `verifyAuthentication`: the owner; `expect` binds a step-up to the caller.
  unfoldable pub verify_authentication :
      library.AuthenticationResponse → jwt.Token → Option ℕ → Exec d.Table ℕ
  unfolding verify_webauthn_challenge
  verify_authentication response token expect = do
    c ← lift (verify_webauthn_challenge jwt now token)
    found ← find_credential (library.credential_id response)
    passkey ← or_throw (unauthorized "Unknown passkey") found
    throw_if (is_foreign expect passkey.user_id) (unauthorized "Passkey belongs to another user")
    counter ← lift (
        settle "Passkey verification failed" (
          library.verify_authentication_response (expected config c.0) (credential_of passkey)
            response))
    update_passkey passkey (mark_used now counter)
    pure passkey.user_id

  abbrev pub list_passkeys : ℕ → d.Table → List Passkey
  list_passkeys user_id t = d.find_many (λ r. r.user_id == user_id) (asc (λ r. r.created_at)) t

  -- `deleteMany`, which counts the rows
  unfoldable pub remove : ℕ → ℕ → Exec d.Table (Unit {0})
  remove user_id id t = elim (d.find_unique id t) [
    | none ↦ (err (not_found "Passkey not found"), t)
    | some r ↦
        if r.user_id == user_id
        then (ok tt, d.delete_many (λ q. q.id == id && q.user_id == user_id) t)
        else (err (not_found "Passkey not found"), t)
  ]

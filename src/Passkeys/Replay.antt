-- ===== src/Passkeys/Replay.antt =====
-- A response that is sent again, with its challenge (backend/src/auth/passkeys.service.ts): the
-- challenge is in a signed token and is not consumed, so the counter alone tells.
use max_one.Prelude.{ℕ, ◌≤◌, ◌≡◌, ap, ◌∙◌, String, false, Option, some, arith}
use max_one.Exec.{ok, err, failure}
use max_one.Prisma.{Delegate, IsLawful}
use max_one.Tokens.Purpose.{Jwt}
use max_one.Passkeys.{
  Passkey, WebAuthn, IsWebAuthn, Config, verify_webauthn_challenge, has_credential, expected,
  is_foreign, credential_of, mark_used,
}
use max_one.Passkeys.Service.{verify_authentication}
use max_one.Passkeys.Laws.{
  IsUnique, verify_authentication-Accepted, accepts, throws, find_first-mark_used,
}

module _ (d : Delegate Passkey) (jwt : Jwt) (library : WebAuthn) (config : Config)
    (lawful : IsLawful d) (key-id : (r : Passkey) → d.key r ≡ r.id)
    (checked : IsWebAuthn library) where
  -- A response that signed a user in, sent again while its challenge token is valid, with
  -- credential ids unique: it is refused, and nothing changes, if the authenticator counts, and
  -- signs the user in again if its counter stays 0.
  pub verify_authentication_replayed :
      (now later : ℕ) (response : library.AuthenticationResponse) (token : jwt.Token)
      (expect : Option ℕ) (t t' : d.Table) (user : ℕ)
      → IsUnique d t
      → verify_authentication d jwt library config now response token expect t ≡ (ok user, t')
      → verify_webauthn_challenge jwt later token ≡ verify_webauthn_challenge jwt now token
      → let again = verify_authentication d jwt library config later response token expect t' in
        (q : Passkey) × (d.find_first (has_credential (library.credential_id response)) t' ≡ some q)
        × (q.counter ≡ 0 → again.0 ≡ ok user)
        × (1 ≤ q.counter → (m : String) × (again ≡ (err (failure m), t')))
  verify_authentication_replayed now later response token expect t t' user unique e same =
      let a =
        verify_authentication-Accepted d jwt library config now response token expect t t' user e in
      let r = a.passkey in
      let n = a.counter in
      let c : String × Option ℕ = (a.challenge, a.bound) in
      let q = mark_used now n r in
      let good = same ∙ a.is_challenge in
      let found : d.find_first (has_credential (library.credential_id response)) t' ≡ some q =
        ap (λ x. d.find_first (has_credential (library.credential_id response)) x) a.is_marked
        ∙ find_first-mark_used d jwt library config lawful key-id now n
            (library.credential_id response) t r unique a.is_found in
      let mine : is_foreign expect q.user_id ≡ false =
        ap (is_foreign expect) a.is_owner ∙ a.is_bound in
      let law =
        checked.verify-counter (expected config a.challenge) (credential_of r) response n n
          a.is_verified in
      (
        q,
        found,
        (λ zero_.
            let hit = law.1 (ground (arith, zero_)) in
            ap (λ x. x.0)
              (accepts d jwt library config later response token expect t' q c n good found mine
                hit)
            ∙ ap ok a.is_owner),
        (λ positive.
            let (m, hit) = law.2 (ground (arith, positive)) in
            (
              m,
              throws d jwt library config later response token expect t' q c m good found mine hit,
            )),
      )

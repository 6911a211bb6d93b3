-- ===== src/Tests/Ceremonies.antt =====
-- A passkey whose authenticator does not count, as most that are synchronised do not.
use max_one.Prelude.{
  ℕ, zero, suc, ◌≤◌, ◌≡◌, refl, sym, String, Bool, true, false, ◌&&◌, ◌||◌, Option, none, some,
  List, [], ◌∷◌, ltb, ◌==◌, str_eq,
}
use max_one.Exec.{ok, err, failure}
use max_one.Prisma.{Delegate}
use max_one.Prisma.Memory.{memory, memory-IsLawful}
use max_one.Passkeys.{
  Passkey, Expected, Credential, Verification, thrown, denied, verified, WebAuthn, IsWebAuthn,
  Config, challenge_claims, verify_webauthn_challenge, has_credential, mark_used,
}
use max_one.Passkeys.Service.{verify_authentication}
use max_one.Passkeys.Laws.{IsUnique, Accepted, verify_authentication-Accepted}
use max_one.Passkeys.Replay.{verify_authentication_replayed}
use max_one.Tests.Callers.{paper}

-- What an authenticator states: its credential, the challenge, and its counter.
record Assertion : Type 0 where
  id : String
  challenge : String
  counter : ℕ

abbrev judge : Bool → Bool → ℕ → Verification ℕ
judge true true n = verified n
judge true false n = thrown "Response counter value was lower than expected"
judge false fresh n = thrown "Unexpected challenge"

abbrev is_fresh : ℕ → ℕ → Bool
is_fresh stored n = ltb stored n || (n == 0 && stored == 0)

abbrev library : WebAuthn
library = record {
  RegistrationResponse = Unit;
  AuthenticationResponse = Assertion;
  credential_id = λ r. r.id;
  verify_registration_response = λ e r. denied;
  verify_authentication_response =
      λ e c r. judge (str_eq r.challenge e.challenge) (is_fresh c.counter r.counter) r.counter;
}

judge_fresh : (b s : Bool) (m n : ℕ) → judge b s m ≡ verified n → (b ≡ true) × (s ≡ true) × (m ≡ n)
judge_fresh true true m n e = (refl, refl, cc)
judge_fresh true false m n e = absurd cc
judge_fresh false s m n e = absurd cc

library-IsWebAuthn : IsWebAuthn library
library-IsWebAuthn = record { verify-counter = counts }
  where
    counts :
        (e : Expected) (c : Credential) (r : Assertion) (n k : ℕ)
        → library.verify_authentication_response e c r ≡ verified n
        → (is_fresh c.counter n ≡ true)
          × ((is_fresh k n ≡ true)
              → library.verify_authentication_response e (record c { counter = k }) r ≡ verified n)
          × ((is_fresh k n ≡ false)
              → (message : String) × (library.verify_authentication_response e
                    (record c { counter = k })
                    r
                  ≡ thrown message))
    counts e c r n k h =
        let (same, fresh, counter) =
          judge_fresh (str_eq r.challenge e.challenge) (is_fresh c.counter r.counter) r.counter n
            h in
        (
          rw (sym counter) fresh,
          (λ f. rw (same, counter, f) refl),
          (λ f. ("Response counter value was lower than expected", rw (same, counter, f) refl)),
        )

abbrev config : Config
config = record { rp_id = "localhost"; origin = "http://localhost" }

abbrev passkeys : Delegate Passkey
passkeys = memory (λ r. r.id)

abbrev passkey : Passkey
passkey = record {
  id = 0;
  user_id = 7;
  credential_id = "cred";
  public_key = "key";
  counter = 0;
  transports = [];
  device_type = "multiDevice";
  backed_up = true;
  label = none;
  created_at = 0;
  last_used_at = none;
}

abbrev held : List (Option Passkey)
held = some passkey ∷ []

abbrev response : Assertion
response = record { id = "cred"; challenge = "c1"; counter = 0 }

abbrev token : paper.Token
token = paper.sign (challenge_claims "c1" none) 301000

abbrev held_after : List (Option Passkey)
held_after = some (mark_used 1000 0 passkey) ∷ []

signed_in :
    verify_authentication passkeys paper library config 1000 response token none held
    ≡ (ok 7, held_after)
unfolding verify_authentication
signed_in = refl

verify_authentication-Accepted_example :
    Accepted passkeys paper library config 1000 response token none held 7 held_after
verify_authentication-Accepted_example =
    verify_authentication-Accepted passkeys paper library config 1000 response token none held
      held_after 7 signed_in

held-IsUnique : IsUnique passkeys held
held-IsUnique zero zero r q at_j at_k same = refl
held-IsUnique zero (suc k) r q at_j at_k same = cc
held-IsUnique (suc j) k r q at_j at_k same = cc

verify_authentication_replayed_example :
    let again =
      verify_authentication passkeys paper library config 2000 response token none held_after in
    (q : Passkey) × (passkeys.find_first (has_credential "cred") held_after ≡ some q)
    × (q.counter ≡ 0 → again.0 ≡ ok 7)
    × (1 ≤ q.counter → (m : String) × (again ≡ (err (failure m), held_after)))
unfolding verify_webauthn_challenge
verify_authentication_replayed_example =
    verify_authentication_replayed passkeys paper library config (memory-IsLawful (λ r. r.id))
      (λ r. refl) library-IsWebAuthn 1000 2000 response token none held held_after 7 held-IsUnique
      signed_in refl

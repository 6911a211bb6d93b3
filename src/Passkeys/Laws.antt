-- ===== src/Passkeys/Laws.antt =====
-- Who signs in with a passkey (backend/src/auth/passkeys.service.ts, verifyAuthentication).
use max_one.Prelude.{
  ℕ, ◌≡◌, ◌⊎◌, refl, sym, ap, ◌∙◌, String, Bool, true, false, Option, some, ◌==◌, ==_iff, ==_refl,
  eq_iff, arith, inl, inr, Bool-cases, Option-cases,
}
use max_one.Exec.{ok, err, Result-cases, failure}
use max_one.Prisma.{Delegate, IsLawful}
use max_one.Tokens.Purpose.{Jwt}
use max_one.Passkeys.{
  Passkey, Verification, thrown, denied, verified, WebAuthn, Config, verify_webauthn_challenge,
  has_credential, expected, is_foreign, credential_of, mark_used,
}
use max_one.Passkeys.Service.{verify_authentication}

abbrev pub IsUnique : (d : Delegate Passkey) → d.Table → Type 0
IsUnique d t =
    (j k : ℕ) (r q : Passkey)
    → d.find_unique j t ≡ some r
    → d.find_unique k t ≡ some q
    → r.credential_id ≡ q.credential_id
    → j ≡ k

Verification-cases :
    {A : Type 0} (v : Verification A)
    → ((a : A) × (v ≡ verified a)) ⊎ ((m : String) × (v ≡ thrown m)) ⊎ (v ≡ denied)
Verification-cases (verified a) = inl (a, refl)
Verification-cases (thrown m) = inr (inl (m, refl))
Verification-cases denied = inr (inr refl)

true-ne : {b : Bool} → b ≡ false → b ≡ true → ⊥
true-ne f t = cc

module _ (d : Delegate Passkey) (jwt : Jwt) (library : WebAuthn) (config : Config) where
  -- What a response was accepted on: the challenge, the passkey, and the counter stated.
  pub record Accepted (now : ℕ) (response : library.AuthenticationResponse) (token : jwt.Token)
      (expect : Option ℕ) (t : d.Table) (user : ℕ) (t' : d.Table) : Type 0 where
    pub challenge : String
    pub bound : Option ℕ
    pub passkey : Passkey
    pub counter : ℕ
    pub is_challenge : verify_webauthn_challenge jwt now token ≡ ok (challenge, bound)
    pub is_found : d.find_first (has_credential (library.credential_id response)) t ≡ some passkey
    pub is_owner : passkey.user_id ≡ user
    pub is_bound : is_foreign expect user ≡ false
    pub is_verified :
        library.verify_authentication_response
          (expected config challenge)
          (credential_of passkey)
          response
        ≡ verified counter
    pub is_marked : t' ≡ d.update (d.key passkey) (mark_used now counter) t

  pub accepts :
      (now : ℕ) (response : library.AuthenticationResponse) (token : jwt.Token) (expect : Option ℕ)
      (t : d.Table) (r : Passkey) (c : String × Option ℕ) (n : ℕ)
      → verify_webauthn_challenge jwt now token ≡ ok c
      → d.find_first (has_credential (library.credential_id response)) t ≡ some r
      → is_foreign expect r.user_id ≡ false
      → library.verify_authentication_response (expected config c.0) (credential_of r) response
        ≡ verified n
      → verify_authentication d jwt library config now response token expect t
        ≡ (ok r.user_id, d.update (d.key r) (mark_used now n) t)
  unfolding verify_authentication
  accepts now response token expect t r c n good at mine seen = rw (good, at, mine, seen) refl

  -- Where a passkey signs a user in, the token of the challenge was valid, the credential of the
  -- response is that user's passkey, and the caller's where the ceremony is bound, the library
  -- verified the response against that challenge and that key, and the row alone changed: its
  -- counter is the one of the response.
  pub verify_authentication-Accepted :
      (now : ℕ) (response : library.AuthenticationResponse) (token : jwt.Token) (expect : Option ℕ)
      (t t' : d.Table) (user : ℕ)
      → verify_authentication d jwt library config now response token expect t ≡ (ok user, t')
      → Accepted now response token expect t user t'
  unfolding verify_authentication
  verify_authentication-Accepted now response token expect t t' user e =
      elim (Result-cases (verify_webauthn_challenge jwt now token)) [
        | inr (x, bad) ↦ absurd (ground (arith, bad, e))
        | inl (c, good) ↦
            elim (Option-cases (d.find_first (has_credential (library.credential_id response)) t)) [
              | inl gone ↦ absurd (ground (arith, good, gone, e))
              | inr (r, at) ↦ elim (Bool-cases (is_foreign expect r.user_id)) [
                | inl foreign ↦ absurd (ground (arith, good, at, foreign, e))
                | inr mine ↦
                    elim (Verification-cases (
                      library.verify_authentication_response (expected config c.0) (credential_of r)
                        response)) [
                          | inr (inl (m, no_)) ↦ absurd (ground (arith, good, at, mine, no_, e))
                          | inr (inr no_) ↦ absurd (ground (arith, good, at, mine, no_, e))
                          | inl (n, seen) ↦
                              let f =
                                sym (accepts now response token expect t r c n good at mine seen)
                                ∙ e in
                              let owner : ok r.user_id ≡ ok user = ap (λ x. x.0) f in
                              record {
                                challenge = c.0;
                                bound = c.1;
                                passkey = r;
                                counter = n;
                                is_challenge = good;
                                is_found = at;
                                is_owner = cc;
                                is_bound =
                                    let own : r.user_id ≡ user = cc in
                                    sym (ap (is_foreign expect) own) ∙ mine;
                                is_verified = seen;
                                is_marked = sym (ap (λ x. x.1) f);
                              }
                        ]
              ]
            ]
      ]

  pub throws :
      (now : ℕ) (response : library.AuthenticationResponse) (token : jwt.Token) (expect : Option ℕ)
      (t : d.Table) (r : Passkey) (c : String × Option ℕ) (m : String)
      → verify_webauthn_challenge jwt now token ≡ ok c
      → d.find_first (has_credential (library.credential_id response)) t ≡ some r
      → is_foreign expect r.user_id ≡ false
      → library.verify_authentication_response (expected config c.0) (credential_of r) response
        ≡ thrown m
      → verify_authentication d jwt library config now response token expect t
        ≡ (err (failure m), t)
  unfolding verify_authentication
  throws now response token expect t r c m good at mine seen = rw (good, at, mine, seen) refl

  module _ (lawful : IsLawful d) (key-id : (r : Passkey) → d.key r ≡ r.id) where
    -- The passkey is found as it was marked.
    pub find_first-mark_used :
        (now n : ℕ) (id : String) (t : d.Table) (r : Passkey)
        → IsUnique d t
        → d.find_first (has_credential id) t ≡ some r
        → d.find_first (has_credential id) (d.update (d.key r) (mark_used now n) t)
          ≡ some (mark_used now n r)
    find_first-mark_used now n id t r unique at =
        let t' = d.update (d.key r) (mark_used now n) t in
        let (passes, there) = lawful.find_first-some (has_credential id) t r at in
        let law = λ (k : ℕ).
          lawful.find_unique-update k (d.key r) (mark_used now n) t
            (λ q. key-id _ ∙ sym (key-id q)) in
        let marked : d.find_unique (d.key r) t' ≡ some (mark_used now n r) =
          law (d.key r) ∙ rw (==_refl (d.key r), there) refl in
        elim (Option-cases (d.find_first (has_credential id) t')) [
          | inl gone ↦ absurd (
              true-ne
                (lawful.find_first-none (has_credential id) t' (d.key r) (mark_used now n r) gone
                  marked)
                passes)
          | inr (q, found) ↦
              let (passes_q, there_q) = lawful.find_first-some (has_credential id) t' q found in
              elim (Bool-cases (d.key r == d.key q)) [
                | inl same ↦
                    let k = (==_iff (d.key r) (d.key q)).0 same in
                    found ∙ sym (ap (λ x. d.find_unique x t') k ∙ there_q) ∙ marked
                | inr other ↦
                    let old : d.find_unique (d.key q) t ≡ some q =
                      sym (law (d.key q) ∙ rw other refl) ∙ there_q in
                    let k = unique (d.key r) (d.key q) r q there old (
                      (eq_iff r.credential_id id).0 passes
                      ∙ sym ((eq_iff q.credential_id id).0 passes_q)) in
                    absurd (true-ne other (sym (ap (λ x. d.key r == x) k) ∙ ==_refl (d.key r)))
              ]
        ]

-- ===== src/Tokens/Purpose.antt =====
-- The short-lived, single-purpose JWTs of backend/src/auth/tokens.service.ts. The JWT library is a
-- parameter: a token that it signed verifies to its claims until it expires.
use max_one.Prelude.{
  false, arith, inl, inr, Bool-cases, ℕ, ◌+◌, ◌≡◌, String, ◌<>◌, Bool, Option, none, some, ltb,
  if◌then◌else◌, str_eq,
}
use max_one.Exec.{Result, ok, err, unauthorized}

-- A claim that is not set is undefined in the source.
pub record Claims : Type 0 where
  pub sub : Option ℕ
  pub email : Option String
  pub role : Option String
  pub purpose : Option String
  pub challenge : Option String

-- A token is a text that only this library reads.
pub record Jwt : Type 1 where
  pub Token : Type 0
  -- `signAsync`, with the time at which the token expires
  pub sign : Claims → ℕ → Token
  -- `verifyAsync` at a time: none is a throw
  pub verify : ℕ → Token → Option Claims

-- What the services rely on.
pub record IsJwt (jwt : Jwt) : Type 0 where
  pub verify-sign :
      (now expires_at : ℕ) (claims : Claims)
      → jwt.verify now (jwt.sign claims expires_at)
        ≡ (if ltb now expires_at then some claims else none)

abbrev pub purpose_claims : ℕ → String → Claims
purpose_claims user_id purpose = record {
  sub = some user_id;
  email = none;
  role = none;
  purpose = some purpose;
  challenge = none;
}

abbrev pub text_is : String → Option String → Bool
text_is s none = false
text_is s (some t) = str_eq t s

abbrev pub invalid : String → Result (Option ℕ)
invalid purpose = err (unauthorized ("Invalid or expired " <> purpose <> " token"))

module _ (jwt : Jwt) (now : ℕ) where
  -- `issuePurpose`, with a lifetime in milliseconds
  abbrev pub issue_purpose : ℕ → String → ℕ → jwt.Token
  issue_purpose user_id purpose lifetime =
      jwt.sign (purpose_claims user_id purpose) (now + lifetime)

  -- `verifyPurpose`; the user is none where the token has no `sub`
  unfoldable pub verify_purpose : jwt.Token → String → Result (Option ℕ)
  verify_purpose token purpose = elim (jwt.verify now token) [
    | none ↦ invalid purpose
    | some claims ↦ if text_is purpose claims.purpose then ok claims.sub else invalid purpose
  ]

  abbrev pub issue_ws_ticket : ℕ → jwt.Token
  issue_ws_ticket user_id = issue_purpose user_id "ws" 60000

  abbrev pub issue_step_up_grant : ℕ → jwt.Token
  issue_step_up_grant user_id = issue_purpose user_id "step-up" 300000

  unfoldable pub verify_step_up_grant : jwt.Token → Result (Option ℕ)
  unfolding verify_purpose
  verify_step_up_grant token = verify_purpose token "step-up"

  abbrev pub issue_2fa_challenge : ℕ → jwt.Token
  issue_2fa_challenge user_id = issue_purpose user_id "2fa" 300000

  unfoldable pub verify_2fa_challenge : jwt.Token → Result (Option ℕ)
  unfolding verify_purpose
  verify_2fa_challenge token = verify_purpose token "2fa"

-- A token that was issued for one purpose verifies for another one never, and for its own one
-- until it expires, to the user that it was issued to.
pub verify_purpose-issue_purpose :
    (jwt : Jwt) (issued_at now user_id lifetime : ℕ) (purpose asked : String)
    → IsJwt jwt
    → verify_purpose jwt now (issue_purpose jwt issued_at user_id purpose lifetime) asked ≡ (
        if ltb now (issued_at + lifetime)
        then (if str_eq purpose asked then ok (some user_id) else invalid asked)
        else invalid asked)
unfolding verify_purpose
verify_purpose-issue_purpose jwt issued_at now user_id lifetime purpose asked lawful =
    let signed = lawful.verify-sign now (issued_at + lifetime) (purpose_claims user_id purpose) in
    elim (Bool-cases (ltb now (issued_at + lifetime))) [
      | inl live ↦ elim (Bool-cases (str_eq purpose asked)) [
        | inl same ↦ ground (arith, signed)
        | inr other ↦ ground (arith, signed)
      ]
      | inr late ↦ ground (arith, signed)
    ]

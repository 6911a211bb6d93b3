-- ===== src/Bff/Routes.antt =====
-- The routes of customer/app/api/auth and frontend/app/api/auth that open and close a session.
use max_one.Prelude.{ℕ, String, Option, none, some, ◌==◌, if◌then◌else◌, or_default}
use max_one.Exec.{ok, err, failure, pure, ◌>>◌}
use max_one.Bff.{
  sent, truthy, Reply, granted, refused, Api, ApiCall, Handler, SignedIn, signed_in, requires_2fa,
  called, set_auth_cookies, clear_auth_cookies,
}

-- What a route answers to the browser.
pub data Answer : Type 0 where
  -- the user, and the status of success
  user : ℕ → String → Answer
  challenge : String → Answer
  error : ℕ → String → Answer
  -- an error of the API, passed on
  passed : ℕ → Option String → Answer
  no_content : Answer

module _ (now : ℕ) (api : Api) where
  -- `await setAuthCookies(user, tokens); return Response.json({ user })`
  abbrev pub open_session : ℕ → SignedIn → Handler Answer
  open_session status s = set_auth_cookies now s >> pure (user status s.user)

  -- customer/app/api/auth/login/route.ts
  unfoldable pub login : String → String → Handler Answer
  login email password b = elim (api.login b.calls email password) [
    | none ↦ (err (failure "fetch failed"), called (ApiCall.login email password) b)
    | some reply ↦ elim reply [
      | refused status message ↦ (
        ok (
            if status == 403
            then error 403 (or_default message "This account cannot sign in.")
            else error status "Invalid email or password."),
        called (ApiCall.login email password) b,
      )
      | granted answer ↦ elim answer [
        | requires_2fa token ↦ (ok (challenge token), called (ApiCall.login email password) b)
        | signed_in s ↦ open_session 200 s (called (ApiCall.login email password) b)
      ]
    ]
  ]

  -- frontend/app/api/auth/login/route.ts: where the answer is a challenge, `tokens` is undefined, and
  -- reading its field throws.
  unfoldable pub staff_login : String → String → Handler Answer
  staff_login email password b = elim (api.login b.calls email password) [
    | none ↦ (err (failure "fetch failed"), called (ApiCall.login email password) b)
    | some reply ↦ elim reply [
      | refused status message ↦
          (ok (error status "Invalid email or password."), called (ApiCall.login email password) b)
      | granted answer ↦ elim answer [
        | requires_2fa token ↦ (
          err (failure "Cannot read properties of undefined"),
          called (ApiCall.login email password) b,
        )
        | signed_in s ↦ open_session 200 s (called (ApiCall.login email password) b)
      ]
    ]
  ]

  -- The second step of a login, and the login with a passkey
  abbrev finish : Option (Reply SignedIn) → String → ApiCall → Handler Answer
  finish reply message call b = elim reply [
    | none ↦ (err (failure "fetch failed"), called call b)
    | some r ↦ elim r [
      | refused status m ↦ (ok (error status message), called call b)
      | granted s ↦ open_session 200 s (called call b)
    ]
  ]

  unfoldable pub login_2fa : String → String → Handler Answer
  login_2fa token code b =
      finish (api.two_factor b.calls token code) "Invalid or expired code."
        (ApiCall.two_factor token code) b

  unfoldable pub login_with_passkey : String → String → Handler Answer
  login_with_passkey response token b =
      finish (api.passkey b.calls response token) "Passkey sign-in failed."
        (ApiCall.passkey response token) b

  -- customer/app/api/auth/register/route.ts; `parse` is the schema of the form, which answers the
  -- body to send on or the message of its first issue.
  unfoldable pub register : (String → Option String) → (String → String) → String → Handler Answer
  register parse issue body b = elim (parse body) [
    | none ↦ (ok (error 400 (issue body)), b)
    | some data' ↦ elim (api.register b.calls data') [
      | none ↦ (err (failure "fetch failed"), called (ApiCall.register data') b)
      | some reply ↦ elim reply [
        | refused status message ↦ (ok (passed status message), called (ApiCall.register data') b)
        | granted s ↦ open_session 201 s (called (ApiCall.register data') b)
      ]
    ]
  ]

  -- The best effort of a logout
  abbrev revoke : Option String → Handler (Unit {0})
  revoke none b = (ok tt, b)
  revoke (some token) b = (ok tt, called (ApiCall.logout token) b)

  -- logout/route.ts of both applications
  unfoldable pub logout : Handler Answer
  logout b = (revoke (truthy (sent now b.jar.refresh)) >> clear_auth_cookies >> pure no_content) b

-- ===== src/Bff/Laws/Opening.antt =====
-- When the routes of customer/app/api/auth and frontend/app/api/auth open a session, and what a
-- logout leaves.
use max_one.Prelude.{ℕ, ◌≡◌, refl, String, ◌⊎◌, Option, none, some, arith, inl, inr}
use max_one.Exec.{ok, err, failure}
use max_one.Bff.{
  Reply, granted, refused, Api, Browser, LoginAnswer, signed_in, requires_2fa, SignedIn,
  signed_in_jar, no_cookies,
}
use max_one.Bff.Routes.{Answer, no_content, login, staff_login, logout}

-- A login leaves the cookies, or the API has signed the user in and they hold that session.
abbrev pub Opens : ℕ → Api → String → String → Browser → Browser → Type 0
Opens now api email password b b' =
    (b'.jar ≡ b.jar)
    ⊎ ((s : SignedIn) × (api.login b.calls email password ≡ some (granted (signed_in s)))
        × (b'.jar ≡ signed_in_jar now s))

-- Both logins
pub login-Opens :
    (now : ℕ) (api : Api) (email password : String) (b : Browser)
    → Opens now api email password b (login now api email password b).1
      × Opens now api email password b (staff_login now api email password b).1
unfolding login staff_login
login-Opens now api email password b = go (api.login b.calls email password) refl
  where
    go :
        (r : Option (Reply LoginAnswer))
        → api.login b.calls email password ≡ r
        → Opens now api email password b (login now api email password b).1
          × Opens now api email password b (staff_login now api email password b).1
    go none e = (inl (ground (arith, e)), inl (ground (arith, e)))
    go (some (refused status message)) e = (inl (ground (arith, e)), inl (ground (arith, e)))
    go (some (granted (requires_2fa token))) e = (inl (ground (arith, e)), inl (ground (arith, e)))
    go (some (granted (signed_in s))) e =
        (inr (s, e, ground (arith, e)), inr (s, e, ground (arith, e)))

-- A logout
pub logout_clears :
    (now : ℕ) (api : Api) (b : Browser)
    → ((logout now api b).0 ≡ ok no_content) × ((logout now api b).1.jar ≡ no_cookies)
unfolding logout
logout_clears now api b = (ground arith, ground arith)

-- A user with a second factor
pub login_2fa_differs :
    (now : ℕ) (api : Api) (email password token : String) (b : Browser)
    → api.login b.calls email password ≡ some (granted (requires_2fa token))
    → ((login now api email password b).0 ≡ ok (Answer.challenge token))
      × ((staff_login now api email password b).0
          ≡ err (failure "Cannot read properties of undefined"))
unfolding login staff_login
login_2fa_differs now api email password token b e = (ground (arith, e), ground (arith, e))

-- ===== src/Bff.antt =====
-- What the two Next.js servers keep of a session: the three cookies of customer/lib/auth/session.ts,
-- cookie-names.ts and their copies in frontend/lib/auth, and the calls of the NestJS API.
pub mod Edge
pub mod Server
pub mod Routes
pub mod Laws
use max_one.Prelude.{ℕ, ◌+◌, ◌*◌, String, Option, none, some, List, ◌∷◌, ltb, if◌then◌else◌, str_eq}
use max_one.Exec.{Exec, ok}

-- `ACCESS_MAX_AGE` and `REFRESH_MAX_AGE`, in seconds
abbrev pub access_max_age : ℕ
access_max_age = 60 * 15

abbrev pub refresh_max_age : ℕ
refresh_max_age = 60 * 60 * 24 * 7

-- A cookie that was set with `maxAge`, which the browser drops at its time.
pub record Cookie : Type 0 where
  pub value : String
  pub expires_at : ℕ

-- The cookies `access_token`, `refresh_token` and `session_user` of a browser.
pub record Jar : Type 0 where
  pub access : Option Cookie
  pub refresh : Option Cookie
  pub session_user : Option Cookie

-- The value that the browser still sends at a time.
abbrev pub sent : ℕ → Option Cookie → Option String
sent now none = none
sent now (some c) = if ltb now c.expires_at then some c.value else none

-- A text that is set and not empty, which JavaScript takes for true.
abbrev pub truthy : Option String → Option String
truthy none = none
truthy (some s) = if str_eq s "" then none else some s

pub record Tokens : Type 0 where
  pub access_token : String
  pub refresh_token : String

-- What the servers ask of the API.
pub data ApiCall : Type 0 where
  refresh logout register : String → ApiCall
  login two_factor passkey : String → String → ApiCall
  request : String → Option String → ApiCall

-- The answer of an endpoint that gives `A`, or a status outside 200 to 299 with its message.
pub data Reply (A : Type 0) : Type 0 where
  granted : A → Reply A
  refused : ℕ → Option String → Reply A

-- The answer to any other request.
pub record Response : Type 0 where
  pub status : ℕ
  pub body : String

-- The session of a user, whose identity is a JSON text.
pub record SignedIn : Type 0 where
  pub user : String
  pub tokens : Tokens

pub data LoginAnswer : Type 0 where
  signed_in : SignedIn → LoginAnswer
  requires_2fa : String → LoginAnswer

-- The API, which has taken the calls before; none is a `fetch` that throws.
pub record Api : Type 0 where
  pub refresh : List ApiCall → String → Option (Reply Tokens)
  pub logout : List ApiCall → String → Option ℕ
  pub login : List ApiCall → String → String → Option (Reply LoginAnswer)
  pub two_factor : List ApiCall → String → String → Option (Reply SignedIn)
  pub passkey : List ApiCall → String → String → Option (Reply SignedIn)
  pub register : List ApiCall → String → Option (Reply SignedIn)
  pub request : List ApiCall → String → Option String → Option Response

-- A browser's cookies, and the calls that its requests have led to, newest first.
pub record Browser : Type 0 where
  pub jar : Jar
  pub calls : List ApiCall

abbrev pub Handler : Type 0 → Type 0
Handler A = Exec Browser A

abbrev pub called : ApiCall → Browser → Browser
called call b = record b { calls = call ∷ b.calls }

abbrev pub cookie : ℕ → String → ℕ → Option Cookie
cookie now value max_age = some (record { value = value; expires_at = now + 1000 * max_age })

-- The jar after `setAuthCookies`
abbrev pub signed_in_jar : ℕ → SignedIn → Jar
signed_in_jar now s = record {
  access = cookie now s.tokens.access_token access_max_age;
  refresh = cookie now s.tokens.refresh_token refresh_max_age;
  session_user = cookie now s.user refresh_max_age;
}

-- `setAuthCookies`
abbrev pub set_auth_cookies : ℕ → SignedIn → Handler (Unit {0})
set_auth_cookies now s b = (ok tt, record b { jar = signed_in_jar now s })

-- The jar after `refreshAuthCookies`
abbrev pub renewed : ℕ → Tokens → Jar → Jar
renewed now tokens jar = record jar {
  access = cookie now tokens.access_token access_max_age;
  refresh = cookie now tokens.refresh_token refresh_max_age;
}

-- `refreshAuthCookies`
abbrev pub refresh_auth_cookies : ℕ → Tokens → Handler (Unit {0})
refresh_auth_cookies now tokens b = (ok tt, record b { jar = renewed now tokens b.jar })

abbrev pub no_cookies : Jar
no_cookies = record { access = none; refresh = none; session_user = none }

-- `clearAuthCookies`
abbrev pub clear_auth_cookies : Handler (Unit {0})
clear_auth_cookies b = (ok tt, record b { jar = no_cookies })

-- `getSessionUser`, where `json` is none for what does not parse
unfoldable pub get_session_user : {U : Type 0} → (String → Option U) → ℕ → Handler (Option U)
get_session_user json now b = elim (truthy (sent now b.jar.session_user)) [
  | none ↦ (ok none, b)
  | some raw ↦ (ok (json raw), b)
]

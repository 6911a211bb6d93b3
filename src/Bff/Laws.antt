-- ===== src/Bff/Laws.antt =====
-- What may become of a session on the two servers (customer/proxy.ts, frontend/proxy.ts and
-- lib/api/server.ts of both).
pub mod Requests
pub mod Applications
pub mod Opening
use max_one.Prelude.{
  ℕ, ◌+◌, ◌≤◌, ◌<◌, ◌≡◌, refl, String, Bool, true, false, Option, none, some, List, [], ◌∷◌, ◌==◌,
  if◌then◌else◌, str_eq, ◌⊎◌, arith, inl, inr, Bool-cases, Option-cases,
}
use max_one.Exec.{Result, ok, err}
use max_one.Bff.{
  sent, truthy, Tokens, Reply, granted, refused, Api, ApiCall, Browser, Handler, Jar, SignedIn,
  renewed, no_cookies, signed_in_jar,
}
use max_one.Bff.Edge.{
  Next, proceed, redirect, is_some, customer_paths, staff_paths, is_public, is_rejection,
  refresh_at_edge, staff_refresh_at_edge, guarded, proxy, staff_proxy,
}

-- What may become of the cookies: they stay, or the API has granted new tokens for the refresh token
-- that the browser sent, or it has rejected that token by 401 or 403.
pub data Change (now : ℕ) (api : Api) (jar : Jar) : Jar → Type 0 where
  kept : Change now api jar jar
  renewal :
      (calls : List ApiCall) (token : String) (tokens : Tokens)
      → truthy (sent now jar.refresh) ≡ some token
      → api.refresh calls token ≡ some (granted tokens)
      → Change now api jar (renewed now tokens jar)
  rejection :
      (calls : List ApiCall) (token : String) (status : ℕ) (message : Option String)
      → truthy (sent now jar.refresh) ≡ some token
      → api.refresh calls token ≡ some (refused status message)
      → is_rejection status ≡ true
      → Change now api jar no_cookies

refresh_at_edge-Change :
    (now : ℕ) (api : Api) (b : Browser) (token : String)
    → truthy (sent now b.jar.refresh) ≡ some token
    → Change now api b.jar (refresh_at_edge now api token b).1.jar
unfolding refresh_at_edge
refresh_at_edge-Change now api b token holds = go (api.refresh b.calls token) refl
  where
    go :
        (r : Option (Reply Tokens))
        → api.refresh b.calls token ≡ r
        → Change now api b.jar (refresh_at_edge now api token b).1.jar
    go none e = rw (e, refresh_at_edge) kept
    go (some (granted tokens)) e = rw (e, refresh_at_edge) (renewal b.calls token tokens holds e)
    go (some (refused status message)) e = elim (Bool-cases (is_rejection status)) [
      | inl ends ↦
          rw (e, refresh_at_edge, ends) (rejection b.calls token status message holds e ends)
      | inr stays ↦ rw (e, refresh_at_edge, stays) kept
    ]

-- The ways through `proxy`: on, to another page, or through the refresh.
pub data Way (now : ℕ) (public : Bool) (b : Browser) (refresh : String → Handler Next)
    : Result Next × Browser → Type 0 where
  passed :
      (public ≡ true) ⊎ (is_some (sent now b.jar.session_user) ≡ true)
      → Way now public b refresh (ok proceed, b)
  turned : (path : String) → Way now public b refresh (ok (redirect path), b)
  renews :
      (token : String)
      → truthy (sent now b.jar.refresh) ≡ some token
      → is_some (sent now b.jar.session_user) ≡ true
      → is_some (sent now b.jar.access) ≡ false
      → public ≡ false
      → Way now public b refresh (refresh token b)

pub guarded-Way :
    (now : ℕ) (api : Api) (refresh : String → Handler Next) (public : Bool) (b : Browser)
    → Way now public b refresh (guarded now api refresh public b)
guarded-Way now api refresh true b = elim (Option-cases (sent now b.jar.session_user)) [
  | inl out ↦ elim (Option-cases (truthy (sent now b.jar.refresh))) [
    | inl gone ↦ rw (out, gone) (passed (inl refl))
    | inr (token, holds) ↦ rw (out, holds) (passed (inl refl))
  ]
  | inr (user, signed) ↦ rw signed (turned "/")
]
guarded-Way now api refresh false b = elim (Option-cases (sent now b.jar.session_user)) [
  | inl out ↦ rw out (turned "/login")
  | inr (user, signed) ↦ elim (Option-cases (truthy (sent now b.jar.refresh))) [
    | inl gone ↦ rw (signed, gone) (passed (inr (rw signed)))
    | inr (token, holds) ↦ elim (Option-cases (sent now b.jar.access)) [
      | inl expired ↦ rw (signed, holds, expired) (renews token holds (rw signed) (rw expired) refl)
      | inr (access, valid) ↦ rw (signed, holds, valid) (passed (inr (rw signed)))
    ]
  ]
]

-- A page is served if it is public or if the browser has a session.
abbrev pub MayPass : ℕ → Bool → Browser → Result Next → Type 0
MayPass now public b (ok proceed) = (public ≡ true) ⊎ (is_some (sent now b.jar.session_user) ≡ true)
MayPass now public b _ = Unit

Way-MayPass :
    {now : ℕ} {public : Bool} {b : Browser} {refresh : String → Handler Next}
    {r : Result Next × Browser}
    → Way now public b refresh r
    → MayPass now public b r.0
Way-MayPass (passed allowed) = allowed
Way-MayPass (turned path) = tt
Way-MayPass {now} {public} {b} {refresh} (renews token holds signed expired page) =
    go (refresh token b).0
  where
    go : (r : Result Next) → MayPass now public b r
    go (ok proceed) = inr signed
    go (ok (redirect path)) = tt
    go (err e) = tt

Way-Change :
    {now : ℕ} {public : Bool} {b : Browser} {refresh : String → Handler Next}
    {r : Result Next × Browser} (api : Api)
    → Way now public b refresh r
    → ((token : String)
        → truthy (sent now b.jar.refresh) ≡ some token
        → Change now api b.jar (refresh token b).1.jar)
    → Change now api b.jar r.1.jar
Way-Change api (passed allowed) change = kept
Way-Change api (turned path) change = kept
Way-Change api (renews token holds signed expired page) change = change token holds

-- The proxy of the customer application serves a page only if it is public or the browser has a
-- session. The cookies stay as they were unless the API has granted new tokens for the refresh
-- token that the browser sent, which then replace the old ones, or has rejected it by 401 or 403,
-- which alone ends the session.
pub proxy_guards :
    (now : ℕ) (api : Api) (pathname : String) (b : Browser)
    → let (r, b') = proxy now api pathname b in
      MayPass now (is_public customer_paths pathname) b r × Change now api b.jar b'.jar
unfolding proxy
proxy_guards now api pathname b =
    let way = guarded-Way now api (refresh_at_edge now api) (is_public customer_paths pathname) b in
    (Way-MayPass way, Way-Change api way (refresh_at_edge-Change now api b))

-- ===== src/Bff/Edge.antt =====
-- customer/proxy.ts and frontend/proxy.ts: what runs before every page.
use text.Mathlib.Text.{starts_with}
use max_one.Prelude.{
  ℕ, String, ◌<>◌, Bool, true, false, not, ◌&&◌, ◌||◌, Option, none, some, List, [], ◌∷◌, any, ◌==◌,
  if◌then◌else◌, str_eq,
}
use max_one.Exec.{ok, err, failure, pure, ◌>>◌}
use max_one.Bff.{
  sent, truthy, granted, refused, Api, ApiCall, Handler, called, refresh_auth_cookies,
  clear_auth_cookies,
}

-- `NextResponse.next()` or a redirect to a path
pub data Next : Type 0 where
  proceed : Next
  redirect : String → Next

abbrev pub is_some : {A : Type 0} → Option A → Bool
is_some none = false
is_some (some _) = true

-- `PUBLIC_PATHS` of the two applications
abbrev pub customer_paths : List String
customer_paths = "/login" ∷ "/signup" ∷ []

abbrev pub staff_paths : List String
staff_paths = "/login" ∷ []

unfoldable pub is_public : List String → String → Bool
unfolding any
is_public paths pathname = any (λ p. str_eq pathname p || starts_with pathname (p <> "/")) paths

-- A status by which the API ends the session.
abbrev pub is_rejection : ℕ → Bool
is_rejection status = (status == 401) || (status == 403)

module _ (now : ℕ) (api : Api) where
  -- `refreshAtEdge` of the customer application
  unfoldable pub refresh_at_edge : String → Handler Next
  refresh_at_edge token b = elim (api.refresh b.calls token) [
    | none ↦ (ok proceed, called (ApiCall.refresh token) b)
    | some reply ↦ elim reply [
      | granted tokens ↦
          (refresh_auth_cookies now tokens >> pure proceed) (called (ApiCall.refresh token) b)
      | refused status message ↦
          if is_rejection status
          then (clear_auth_cookies >> pure (redirect "/login")) (called (ApiCall.refresh token) b)
          else (ok proceed, called (ApiCall.refresh token) b)
    ]
  ]

  -- `refreshAtEdge` of the staff console
  unfoldable pub staff_refresh_at_edge : String → Handler Next
  staff_refresh_at_edge token b = elim (api.refresh b.calls token) [
    | none ↦ (err (failure "fetch failed"), called (ApiCall.refresh token) b)
    | some reply ↦ elim reply [
      | granted tokens ↦
          (refresh_auth_cookies now tokens >> pure proceed) (called (ApiCall.refresh token) b)
      | refused status message ↦
          (clear_auth_cookies >> pure (redirect "/login")) (called (ApiCall.refresh token) b)
    ]
  ]

  -- The last test of `proxy`: `hasSession && !isPublic && !hasAccess && refreshToken`
  abbrev renew_or_proceed : (String → Handler Next) → Bool → Option String → Handler Next
  renew_or_proceed refresh expired none = pure proceed
  renew_or_proceed refresh expired (some token) = if expired then refresh token else pure proceed

  -- `proxy`, which the applications have in common up to their public paths and `refreshAtEdge`
  abbrev pub guarded : (String → Handler Next) → Bool → Handler Next
  guarded refresh public b =
      let has_session = is_some (sent now b.jar.session_user) in
      let expired = has_session && not public && not (is_some (sent now b.jar.access)) in
      if has_session && public
      then (ok (redirect "/"), b)
      else if not has_session && not public
      then (ok (redirect "/login"), b)
      else renew_or_proceed refresh expired (truthy (sent now b.jar.refresh)) b

  unfoldable pub proxy : String → Handler Next
  unfolding refresh_at_edge
  proxy pathname = guarded refresh_at_edge (is_public customer_paths pathname)

  unfoldable pub staff_proxy : String → Handler Next
  unfolding staff_refresh_at_edge
  staff_proxy pathname = guarded staff_refresh_at_edge (is_public staff_paths pathname)

-- ===== src/Bff/Server.antt =====
-- customer/lib/api/server.ts and frontend/lib/api/server.ts: the calls of the API on behalf of a
-- page or of a route. A request is its path, with its method and body.
use max_one.Prelude.{
  ℕ, String, Bool, not, ◌&&◌, Option, none, some, ◌==◌, leb, or_default, if◌then◌else◌,
}
use max_one.Exec.{ok, err, failure, pure, gets, ◌>>=◌, ◌>>◌}
use max_one.Bff.{
  sent, truthy, granted, refused, Response, Api, ApiCall, Handler, called, refresh_auth_cookies,
  clear_auth_cookies,
}
use max_one.Bff.Edge.{is_rejection}

-- `res.ok`
abbrev pub is_ok : Response → Bool
is_ok r = leb 200 r.status && leb r.status 299

module _ (now : ℕ) (api : Api) where
  -- `callWithToken`
  unfoldable pub call_with_token : String → Option String → Handler Response
  call_with_token path token b = elim (api.request b.calls path (truthy token)) [
    | none ↦ (err (failure "fetch failed"), called (ApiCall.request path (truthy token)) b)
    | some response ↦ (ok response, called (ApiCall.request path (truthy token)) b)
  ]

  unfoldable pub server_api : String → Handler Response
  unfolding call_with_token
  server_api path b = call_with_token path (sent now b.jar.access) b

  -- `serverApiJson`, where `json` is none for what does not parse
  unfoldable pub server_api_json : {A : Type 0} → (String → Option A) → String → A → Handler A
  unfolding server_api
  server_api_json json path fallback b =
      let (r, b') = server_api path b in
      elim r [
        | err _ ↦ (ok fallback, b')
        | ok response ↦
            (ok (if is_ok response then or_default (json response.body) fallback else fallback), b')
      ]

  -- The refresh of the customer application, after a first answer of 401.
  unfoldable pub renew : String → Response → String → Handler Response
  unfolding call_with_token
  renew path first token b = elim (api.refresh b.calls token) [
    | none ↦ (ok first, called (ApiCall.refresh token) b)
    | some reply ↦ elim reply [
      | granted tokens ↦
          (refresh_auth_cookies now tokens >> call_with_token path (some tokens.access_token))
            (called (ApiCall.refresh token) b)
      | refused status message ↦
          if is_rejection status
          then (clear_auth_cookies >> pure first) (called (ApiCall.refresh token) b)
          else (ok first, called (ApiCall.refresh token) b)
    ]
  ]

  -- The refresh of the staff console
  unfoldable pub staff_renew : String → Response → String → Handler Response
  unfolding call_with_token
  staff_renew path first token b = elim (api.refresh b.calls token) [
    | none ↦ (err (failure "fetch failed"), called (ApiCall.refresh token) b)
    | some reply ↦ elim reply [
      | granted tokens ↦
          (refresh_auth_cookies now tokens >> call_with_token path (some tokens.access_token))
            (called (ApiCall.refresh token) b)
      | refused status message ↦
          (clear_auth_cookies >> pure first) (called (ApiCall.refresh token) b)
    ]
  ]

  abbrev pub retry_with :
      (Response → String → Handler Response) → Response → Option String → Handler Response
  retry_with renewal first token b =
      if not (first.status == 401)
      then (ok first, b)
      else elim token [ none ↦ (ok first, b) | some t ↦ renewal first t b ]

  -- `serverApiWithRefresh`
  unfoldable pub server_api_with_refresh : String → Handler Response
  unfolding server_api renew
  server_api_with_refresh path = do
    first ← server_api path
    token ← gets (λ b. truthy (sent now b.jar.refresh))
    retry_with (renew path) first token

  unfoldable pub staff_server_api_with_refresh : String → Handler Response
  unfolding server_api staff_renew
  staff_server_api_with_refresh path = do
    first ← server_api path
    token ← gets (λ b. truthy (sent now b.jar.refresh))
    retry_with (staff_renew path) first token

-- ===== src/Bff/Laws/Requests.antt =====
-- What a request of customer/lib/api/server.ts does to the session.
use mathlib.Core.Path.{subst}
use max_one.Prelude.{
  sym, ℕ, ◌+◌, ◌≤◌, ◌≡◌, refl, String, Option, none, some, ◌==◌, arith, inl, inr, Bool-cases,
  Option-cases, length,
}
use max_one.Exec.{Result, ok, err, failure}
use max_one.Bff.{
  sent, truthy, Tokens, Reply, granted, refused, Response, Api, ApiCall, Browser, called, renewed,
}
use max_one.Bff.Edge.{is_rejection}
use max_one.Bff.Server.{call_with_token, renew, server_api_with_refresh}
use max_one.Bff.Laws.{Change, kept, renewal, rejection}

module _ (now : ℕ) (api : Api) (path : String) where
  call_with_token_keeps :
      (token : Option String) (b : Browser)
      → ((call_with_token now api path token b).1.jar ≡ b.jar)
        × (length (call_with_token now api path token b).1.calls ≡ length b.calls + 1)
  unfolding call_with_token
  call_with_token_keeps token b = ground arith

  renew-Change :
      (first : Response) (token : String) (b : Browser)
      → truthy (sent now b.jar.refresh) ≡ some token
      → Change now api b.jar (renew now api path first token b).1.jar
        × (length (renew now api path first token b).1.calls ≤ length b.calls + 2)
  unfolding renew
  renew-Change first token b holds = go (api.refresh b.calls token) refl
    where
      go :
          (r : Option (Reply Tokens))
          → api.refresh b.calls token ≡ r
          → Change now api b.jar (renew now api path first token b).1.jar
            × (length (renew now api path first token b).1.calls ≤ length b.calls + 2)
      go none e = rw (e, renew) (kept, ground arith)
      go (some (granted tokens)) e =
          let after = called (ApiCall.refresh token) b in
          let k =
            call_with_token_keeps (some tokens.access_token)
              (record after { jar = renewed now tokens b.jar }) in
          rw (e, renew)
            (
              subst (λ j. Change now api b.jar j) (sym k.0) (renewal b.calls token tokens holds e),
              omega (arith, k.1),
            )
      go (some (refused status message)) e = elim (Bool-cases (is_rejection status)) [
        | inl ends ↦
            rw (e, renew, ends) (rejection b.calls token status message holds e ends, ground arith)
        | inr stays ↦ rw (e, renew, stays) (kept, ground arith)
      ]

  -- A request of the customer application makes at most three calls, and changes the cookies only
  -- by tokens that the API has granted for the refresh token, or to none where the API has
  -- rejected it by 401 or 403.
  pub server_api_with_refresh-Change :
      (b : Browser)
      → let b' = (server_api_with_refresh now api path b).1 in
        Change now api b.jar b'.jar × (length b'.calls ≤ length b.calls + 3)
  unfolding server_api_with_refresh
  server_api_with_refresh-Change b =
      let token = truthy (sent now b.jar.access) in
      let asked = called (ApiCall.request path token) b in
      let Good = λ (x : Result Response × Browser).
        Change now api b.jar x.1.jar × (length x.1.calls ≤ length b.calls + 3) in
      elim (Option-cases (api.request b.calls path token)) [
        | inl down ↦
            let done : server_api_with_refresh now api path b
                ≡ (err (failure "fetch failed"), asked) =
              ground (arith, down) in
            subst Good (sym done) (kept, ground arith)
        | inr (first, answered) ↦ elim (Bool-cases (first.status == 401)) [
          | inr other ↦
              let done : server_api_with_refresh now api path b ≡ (ok first, asked) =
                ground (arith, answered, other) in
              subst Good (sym done) (kept, ground arith)
          | inl denied ↦ elim (Option-cases (truthy (sent now b.jar.refresh))) [
            | inl gone ↦
                let done : server_api_with_refresh now api path b ≡ (ok first, asked) =
                  ground (arith, answered, denied, gone) in
                subst Good (sym done) (kept, ground arith)
            | inr (held, holds) ↦
                let done : server_api_with_refresh now api path b
                    ≡ renew now api path first held asked =
                  ground (arith, answered, denied, holds) in
                let (change, calls) = renew-Change first held asked holds in
                subst Good (sym done) (change, omega (arith, calls))
          ]
        ]
      ]

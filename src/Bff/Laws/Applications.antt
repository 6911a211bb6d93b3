-- ===== src/Bff/Laws/Applications.antt =====
-- The two applications side by side (customer/proxy.ts and frontend/proxy.ts), and a session over time.
use max_one.Prelude.{
  ℕ, ◌+◌, ◌≤◌, ◌<◌, ◌≡◌, ◌≢◌, refl, String, Bool, true, false, Option, none, some, [], ◌∷◌, arith,
  inl, inr, Option-cases, Bool-cases, eq_iff,
}
use max_one.Exec.{ok}
use max_one.Bff.{
  sent, truthy, Tokens, Reply, granted, refused, Api, ApiCall, Browser, Handler, SignedIn, renewed,
  signed_in_jar,
}
use max_one.Bff.Edge.{
  Next, proceed, redirect, is_some, customer_paths, staff_paths, is_public, is_rejection,
  refresh_at_edge, staff_refresh_at_edge, guarded, proxy, staff_proxy,
}

-- The API has answered, and if it refused, by a status that ends the session.
abbrev pub IsVerdict : Option (Reply Tokens) → Type 0
IsVerdict none = ⊥
IsVerdict (some (granted tokens)) = Unit
IsVerdict (some (refused status message)) = is_rejection status ≡ true

refresh_agree :
    (now : ℕ) (api : Api) (token : String) (b : Browser)
    → IsVerdict (api.refresh b.calls token)
    → staff_refresh_at_edge now api token b ≡ refresh_at_edge now api token b
unfolding staff_refresh_at_edge refresh_at_edge
refresh_agree now api token b v = go (api.refresh b.calls token) refl v
  where
    go :
        (r : Option (Reply Tokens))
        → api.refresh b.calls token ≡ r
        → IsVerdict r
        → staff_refresh_at_edge now api token b ≡ refresh_at_edge now api token b
    go none e v = absurd v
    go (some (granted tokens)) e v = ground (arith, e)
    go (some (refused status message)) e v = ground (arith, e, v)

guarded_agree :
    (now : ℕ) (api : Api) (b : Browser) (f g : String → Handler Next) (public : Bool)
    → ((token : String) → truthy (sent now b.jar.refresh) ≡ some token → f token b ≡ g token b)
    → guarded now api f public b ≡ guarded now api g public b
guarded_agree now api b f g public same = elim (Option-cases (truthy (sent now b.jar.refresh))) [
  | inl gone ↦ rw gone
  | inr (token, holds) ↦ elim (Bool-cases (is_some (sent now b.jar.access))) [
    | inl valid ↦ ground (arith, holds, valid)
    | inr expired ↦ ground (arith, holds, expired, same token holds)
  ]
]

-- On a page that is public in both applications or in neither, the proxies of the two agree where
-- the API grants new tokens, or rejects the refresh token by 401 or 403, when it is asked.
pub proxies_agree :
    (now : ℕ) (api : Api) (pathname : String) (b : Browser)
    → is_public customer_paths pathname ≡ is_public staff_paths pathname
    → ((token : String)
        → truthy (sent now b.jar.refresh) ≡ some token
        → IsVerdict (api.refresh b.calls token))
    → staff_proxy now api pathname b ≡ proxy now api pathname b
unfolding staff_proxy proxy
proxies_agree now api pathname b same verdict = rw (← same) (
    guarded_agree now api b (staff_refresh_at_edge now api) (refresh_at_edge now api)
      (is_public customer_paths pathname)
      (λ token holds. refresh_agree now api token b (verdict token holds)))

-- A session that is renewed on a page that is not public, after the 15 minutes of its access token
-- and within its first week, lapses one week after the login: the proxy turns to the login, though
-- the browser still sends the refresh token of the renewal.
pub session_lapses :
    (api : Api) (pathname : String) (s : SignedIn) (tokens : Tokens) (t₀ t₁ t : ℕ)
    → is_public customer_paths pathname ≡ false
    → s.tokens.refresh_token ≢ ""
    → api.refresh [] s.tokens.refresh_token ≡ some (granted tokens)
    → t₀ + 900000 ≤ t₁
    → t₁ < t₀ + 604800000
    → t₀ + 604800000 ≤ t
    → t < t₁ + 604800000
    → let b₀ : Browser = record { jar = signed_in_jar t₀ s; calls = [] } in
      let b₁ = (proxy t₁ api pathname b₀).1 in
      (sent t b₁.jar.refresh ≡ some tokens.refresh_token)
      × (proxy t api pathname b₁ ≡ (ok (redirect "/login"), b₁))
unfolding proxy
session_lapses api pathname s tokens t₀ t₁ t page named answer expired early late later =
    let b₀ : Browser = record { jar = signed_in_jar t₀ s; calls = [] } in
    let first : proxy t₁ api pathname b₀ ≡ (
      ok proceed,
      record {
        jar = renewed t₁ tokens (signed_in_jar t₀ s);
        calls = ApiCall.refresh s.tokens.refresh_token ∷ [];
      },
    ) =
      ground (arith, eq_iff s.tokens.refresh_token "") in
    (ground (arith, first), ground (arith, first))

-- ===== src/Tests/Browsing.antt =====
-- A browser whose access token has run out, and an API that grants new ones.
use max_one.Prelude.{arith, eq_iff, ◌≤◌, ◌≡◌, refl, Option, none, some, [], length}
use max_one.Exec.{ok}
use max_one.Bff.{Tokens, Reply, granted, Api, Browser, SignedIn, signed_in_jar, sent}
use max_one.Bff.Edge.{redirect, proxy, is_public, customer_paths}
use max_one.Bff.Server.{server_api_with_refresh}
use max_one.Bff.Laws.{Change, MayPass, proxy_guards}
use max_one.Bff.Laws.Requests.{server_api_with_refresh-Change}
use max_one.Bff.Laws.Applications.{session_lapses}

abbrev tokens : Tokens
tokens = record { access_token = "a"; refresh_token = "r" }

abbrev fresh : Tokens
fresh = record { access_token = "a2"; refresh_token = "r2" }

-- An API that answers every refresh alike.
abbrev api_of : Option (Reply Tokens) → Api
api_of answer = record {
  refresh = λ calls token. answer;
  logout = λ calls token. none;
  login = λ calls email password. none;
  two_factor = λ calls token code. none;
  passkey = λ calls response token. none;
  register = λ calls body. none;
  request = λ calls path token. some (record { status = 401; body = "" });
}

abbrev granting : Api
granting = api_of (some (granted fresh))

abbrev signed : SignedIn
signed = record { user = "alice"; tokens = tokens }

abbrev browser : Browser
browser = record { jar = signed_in_jar 0 signed; calls = [] }

proxy_guards_example :
    let (r, b') = proxy 1000000 granting "/pay" browser in
    MayPass 1000000 (is_public customer_paths "/pay") browser r
    × Change 1000000 granting browser.jar b'.jar
proxy_guards_example = proxy_guards 1000000 granting "/pay" browser

server_api_with_refresh-Change_example :
    let b' = (server_api_with_refresh 1000000 granting "/wallets" browser).1 in
    Change 1000000 granting browser.jar b'.jar × (length b'.calls ≤ 3)
server_api_with_refresh-Change_example =
    server_api_with_refresh-Change 1000000 granting "/wallets" browser

session_lapses_example :
    let b₁ = (proxy 500000000 granting "/pay" browser).1 in
    (sent 604800000 b₁.jar.refresh ≡ some "r2")
    × (proxy 604800000 granting "/pay" b₁ ≡ (ok (redirect "/login"), b₁))
unfolding is_public
session_lapses_example =
    session_lapses granting "/pay" signed fresh 0 500000000 604800000 refl
      (ground (arith, eq_iff "r" "")) refl (omega arith) (omega arith) (omega arith) (omega arith)

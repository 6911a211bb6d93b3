-- ===== src/Tests/Paying.antt =====
-- A send of which the first reply is lost.
use max_one.Prelude.{
  ℕ, ◌*◌, ◌/◌, ◌≡◌, ◌≢◌, refl, Bool, true, false, none, some, Option, List, [], ◌∷◌, arith,
}
use max_one.Prelude.Int.{pos}
use max_one.Exec.{pure, ◌>>◌}
use max_one.Schema.{Json, number}
use max_one.World.{World, Host, Action}
use max_one.Wallets.Deposit.{deposit}
use max_one.Wallets.Access.{get_owned_wallet}
use max_one.Idempotency.{Req, Response, intercept, reserve, reserve_within}
use max_one.Amounts.{trim_start, trim_end, parse_amount, sanitize_decimal}
use max_one.Pay.{Recipient, found, Wizard, Settings, success}
use max_one.Pay.Attempts.{Wire, attempts, answered}
use max_one.Pay.Once.{attempts_once}
use max_one.Exchange.{
  WalletSummary, Screen, SubmitBody, Event, picked, typed, quoted, from_side, submission, run,
  QuoteKey, Quote, step, pick, settle_quote, captured,
}
use max_one.Exchange.Laws.{AreHonest, Covered, run-Covered}
use max_one.Tests.{prisma, prisma-IsPrisma, host, alice, world}

abbrev settings : Settings
settings = record { my_wallet_id = 0; my_currency = "USD"; to_lower_case = λ s. s }

abbrev wire : Wire
wire = record { json = λ _. "{}"; url = λ id. "/wallets/0/transfers" }

-- "bob"
abbrev bob : List ℕ
bob = b'b' ∷ b'o' ∷ b'b' ∷ []

abbrev bobs_wallet : Recipient
bobs_wallet = record { wallet_id = 1; currency = "USD"; recipient_name = "Bob" }

abbrev confirming : Wizard
confirming = record {
  key = none;
  step = 2;
  handle = bob;
  resolved = record { handle = bob; recipient = some bobs_wallet; state = found "Bob" bob "USD" };
  values = some (record { handle = bob; amount = b'2' ∷ b'5' ∷ []; note = "" });
  step_up = false;
  pending = false;
  result = none;
}

-- What the route does, which must not run twice
abbrev moving : Action prisma (Option Json)
moving = deposit host 0 alice (pos 25) none >> pure (some (number (pos 25)))

keeps_keys : (v : World prisma) → (moving v).1.db.idempotency_keys ≡ v.db.idempotency_keys
unfolding deposit get_owned_wallet
keeps_keys v = ground arith

-- Lost, lost again, and then there.
abbrev presses : List (Host × Bool)
presses = (host, true) ∷ (host, true) ∷ (host, false) ∷ []

abbrev request : Req
request = record {
  user = some 0;
  key = some "k";
  method = "POST";
  url = "/wallets/0/transfers";
  body = "{}";
}

abbrev response : Response
response = record { status_code = 201; body = some (number (pos 25)) }

attempts_once_example : attempts settings wire 0 (λ s. s) moving presses "k" confirming world ≡ (
  answered (number (pos 25)) confirming,
  (intercept host (λ s. s) true request 201 moving world).1,
)
unfolding intercept reserve reserve_within deposit get_owned_wallet trim_start trim_end
attempts_once_example =
    attempts_once settings wire 0 (λ s. s) moving "k" host true ((host, true) ∷ (host, false) ∷ [])
      confirming world request response prisma-IsPrisma keeps_keys refl refl refl refl refl
      (omega arith, (omega arith, tt))

abbrev wallets : List WalletSummary
wallets =
    record { id = 0; currency = "USD"; balance = pos 1000 }
    ∷ record { id = 1; currency = "EUR"; balance = pos 0 }
    ∷ []

abbrev opened : Screen
opened = record {
  key = none;
  from_id = 1;
  to_id = 0;
  amount = [];
  result = none;
  failed_for = none;
  busy = false;
  done = false;
  effect = 0;
  asked = [];
}

-- The wallet of the other side is picked, ten dollars are typed digit by digit, and the quote for
-- the first digit, then the one for both arrive.
abbrev events : List Event
events =
    picked from_side 0
    ∷ typed (b'1' ∷ [])
    ∷ typed (b'1' ∷ b'0' ∷ [])
    ∷ quoted 1 (success (record { converted = pos 7; rate = "0.07" }))
    ∷ quoted 2 (success (record { converted = pos 900; rate = "0.9" }))
    ∷ []

abbrev body : SubmitBody
body = record { from_wallet_id = 0; to_wallet_id = 1; amount = 1000 }

-- The API converts at 0.9.
abbrev Given : QuoteKey → Quote → Type 0
Given key q = q.converted ≡ pos (key.minor * 9 / 10)

honest : AreHonest Given wallets events opened
unfolding step pick settle_quote parse_amount sanitize_decimal captured
honest = (tt, (tt, (tt, (tt, (refl, tt)))))

run-Covered_example :
    Covered Given wallets (run wallets events opened) body
    × (body.from_wallet_id ≢ body.to_wallet_id)
unfolding run submission parse_amount sanitize_decimal
run-Covered_example =
    run-Covered Given wallets events opened body (λ e. ground arith) refl honest refl

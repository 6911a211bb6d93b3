-- ===== src/Tests/Retries.antt =====
-- Requests under an Idempotency-Key on the world of the tests.
use max_one.Prelude.{refl, ◌≡◌, true, none, some, Option, arith}
use max_one.Prelude.Int.{pos}
use max_one.Exec.{ok, bad_request, pure, throw, ◌>>◌}
use max_one.Schema.{Json, number}
use max_one.World.{World, Action}
use max_one.Wallets.Deposit.{deposit}
use max_one.Wallets.Access.{get_owned_wallet}
use max_one.Idempotency.{Req, mismatch, reserve, reserve_within, intercept}
use max_one.Idempotency.Keys.{reserve_excludes}
use max_one.Idempotency.Laws.{intercept_replays}
use max_one.Tests.{prisma, prisma-IsPrisma, host, alice, world}

abbrev request : Req
request = record {
  user = some 0;
  key = some "k";
  method = "POST";
  url = "/wallets/0/deposits";
  body = "{}";
}

-- The handler of a deposit of 25.
abbrev depositing : Action prisma (Option Json)
depositing = deposit host 0 alice (pos 25) none >> pure (some (number (pos 25)))

keeps_keys : (v : World prisma) → (depositing v).1.db.idempotency_keys ≡ v.db.idempotency_keys
unfolding deposit get_owned_wallet
keeps_keys v = ground arith

-- A handler that fails.
abbrev failing : Action prisma (Option Json)
failing = throw (bad_request "no")

reserve_excludes_example :
    let w' = (reserve host 0 "k" "f" world).1 in
    reserve {p = prisma} host 0 "k" "g" w' ≡ (ok mismatch, w')
reserve_excludes_example =
    reserve_excludes prisma-IsPrisma host 0 "k" "f" world refl host "g" (omega arith)

intercept_replays_example :
    let w' = (intercept host (λ s. s) true request 201 depositing world).1 in
    intercept host (λ s. s) true request 201 failing w'
    ≡ (ok (record { status_code = 201; body = some (number (pos 25)) }), w')
unfolding intercept reserve reserve_within deposit get_owned_wallet
intercept_replays_example =
    intercept_replays host (λ s. s) true request 201 depositing world prisma-IsPrisma refl refl refl
      keeps_keys host true 201 failing (omega arith) refl

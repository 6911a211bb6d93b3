-- ===== src/Tests/Funding.antt =====
-- Deposits, and whole sequences of calls, on the world of the tests.
use max_one.Prelude.{refl, ◌≡◌, none, some, List, [], ◌∷◌, ◌==◌, if◌then◌else◌, arith, ℕ}
use max_one.Prelude.Int.{pos, ◌+ℤ◌}
use max_one.Exec.{ok}
use max_one.Wallets.Deposit.{deposit}
use max_one.Schema
use max_one.Schema.{Transaction, AuditLog, deposit_settle, number}
use max_one.Wallets.Withdrawal.{request_withdrawal}
use max_one.Wallets.Access.{get_owned_wallet}
use max_one.Wallets.Requests.{Request, Call, handle, serve}
use max_one.Wallets.Ledger.{Step}
use max_one.Wallets.Ledger.Invariant.{IsSound, KeepsReviewed}
use max_one.Wallets.Laws.Deposit.{deposit-settles}
use max_one.Wallets.Laws.Refinement.{handle-Step, serve-IsSound, serve-KeepsReviewed}
use max_one.Wallets.Laws.Atomicity.{Untouched, handle_failed}
use max_one.Tests.{prisma, prisma-IsPrisma, host, alice, carol, wallet_of, world, world-IsSound}

abbrev credited : Transaction
credited = record {
  id = 1;
  wallet_id = 0;
  kind = Schema.deposit;
  amount = pos 25;
  balance_before = some (pos 1000);
  balance_after = some (pos 1025);
  status = Schema.approved;
  requested_by = alice.id;
  reviewed_by = some alice.id;
  reviewed_at = some host.now;
  note = none;
  transfer_id = none;
  counterparty_wallet_id = none;
  exchange_rate = none;
  created_at = host.now;
}

abbrev audited : AuditLog
audited = record {
  id = 0;
  actor_user_id = alice.id;
  action = deposit_settle;
  entity_type = Schema.AuditEntityType.transaction;
  entity_id = 1;
  old_value = ("balance", number (pos 1000)) ∷ [];
  new_value = ("balance", number (pos 1025)) ∷ ("amount", number (pos 25)) ∷ [];
  ip_address = host.ip_address;
  user_agent = host.user_agent;
  created_at = host.now;
}

deposit-settles_example :
    let (r, w') = deposit {p = prisma} host 0 alice (pos 25) none world in
    (r ≡ ok credited)
    × ((j : ℕ)
        → prisma.wallet.find_unique j w'.db.wallets ≡ (
            if 0 == j
            then some (wallet_of 0 0 (pos 1025))
            else prisma.wallet.find_unique j world.db.wallets))
    × ((j : ℕ)
        → prisma.transaction.find_unique j w'.db.transactions ≡ (
            if 1 == j
            then some credited
            else prisma.transaction.find_unique j world.db.transactions))
    × (w'.db.audit_logs ≡ some audited ∷ [])
unfolding ◌+ℤ◌
deposit-settles_example = deposit-settles host 0 alice (pos 25) none world prisma-IsPrisma refl refl

-- A withdrawal of more than the balance.
abbrev overdraw : Request
overdraw = Request.withdraw 0 (pos 2000) none

abbrev calls : List Call
calls =
    record { host = host; actor = alice; request = Request.deposit 0 (pos 25) none }
    ∷ record { host = host; actor = carol; request = Request.approve 0 }
    ∷ record { host = host; actor = alice; request = overdraw }
    ∷ []

handle-Step_example :
    Step world.db (handle {p = prisma} host alice (Request.deposit 0 (pos 25) none) world).1.db
handle-Step_example =
    handle-Step prisma-IsPrisma host alice (Request.deposit 0 (pos 25) none) world world-IsSound
      (omega arith)

serve-IsSound_example : IsSound (serve calls world).db
serve-IsSound_example =
    serve-IsSound prisma-IsPrisma calls world (omega arith, (tt, (omega arith, tt))) world-IsSound

serve-KeepsReviewed_example :
    KeepsReviewed prisma world.db.transactions (serve calls world).db.transactions
serve-KeepsReviewed_example =
    serve-KeepsReviewed prisma-IsPrisma calls world (omega arith, (tt, (omega arith, tt)))
      world-IsSound

handle_failed_example : Untouched world (handle {p = prisma} host alice overdraw world).1
unfolding handle request_withdrawal get_owned_wallet
handle_failed_example = handle_failed host alice world overdraw refl

-- ===== src/Wallets/Withdrawal.antt =====
-- `requestWithdrawal` of backend/src/wallets/wallets.service.ts: money out waits for a review.
use max_one.Prelude.{ℕ, String, Option, none}
use max_one.Prelude.Int.{ℤ, ltb_ℤ}
use max_one.Exec.{bad_request, throw_if, ◌>>=◌, ◌>>◌}
use max_one.Schema
use max_one.Schema.{Transaction}
use max_one.World.{Prisma, Host, Action, create_transaction}
use max_one.Users.{AuthUser}
use max_one.Wallets.Access.{get_owned_wallet}

abbrev pub withdrawal_row : Host → AuthUser → ℤ → Option String → ℕ → ℕ → Transaction
withdrawal_row host actor amount note wallet_id id = record {
  id = id;
  wallet_id = wallet_id;
  kind = Schema.withdrawal;
  amount = amount;
  balance_before = none;
  balance_after = none;
  status = Schema.TransactionStatus.pending;
  requested_by = actor.id;
  reviewed_by = none;
  reviewed_at = none;
  note = note;
  transfer_id = none;
  counterparty_wallet_id = none;
  exchange_rate = none;
  created_at = host.now;
}

unfoldable pub request_withdrawal :
    {p : Prisma} → Host → ℕ → AuthUser → ℤ → Option String → Action p Transaction
request_withdrawal host id actor amount note = do
  wallet ← get_owned_wallet id actor
  throw_if (ltb_ℤ wallet.balance amount) (bad_request "Insufficient funds")
  create_transaction (withdrawal_row host actor amount note id)

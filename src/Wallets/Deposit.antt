-- ===== src/Wallets/Deposit.antt =====
-- `deposit` of backend/src/wallets/wallets.service.ts.
use max_one.Prelude.{ℕ, String, ◌<>◌, Option, none, some, [], ◌∷◌}
use max_one.Prelude.Int.{ℤ, ◌+ℤ◌}
use max_one.Exec.{pure, ◌>>=◌, ◌>>◌}
use max_one.Schema.{
  Wallet, Transaction, deposit_settle, AuditEntityType, Json, number, NotificationPayload,
}
use max_one.Schema
use max_one.World.{Prisma, Host, Action, in_transaction, update_wallet, create_transaction}
use max_one.Audit.{AuditEntry, log}
use max_one.Money.{format_minor}
use max_one.Notifications.{enqueue, dispatch}
use max_one.Users.{AuthUser}
use max_one.Wallets.Access.{get_owned_wallet}
use max_one.Wallets.Settlement.{Settled, set_balance, owner_of, lock_wallet, announce}

-- The row that `deposit` creates.
abbrev pub deposit_row : Host → AuthUser → ℤ → Option String → ℕ → ℤ → ℕ → Transaction
deposit_row host actor amount note wallet_id before id = record {
  id = id;
  wallet_id = wallet_id;
  kind = Schema.deposit;
  amount = amount;
  balance_before = some before;
  balance_after = some (before +ℤ amount);
  status = Schema.approved;
  requested_by = actor.id;
  reviewed_by = some actor.id;
  reviewed_at = some host.now;
  note = note;
  transfer_id = none;
  counterparty_wallet_id = none;
  exchange_rate = none;
  created_at = host.now;
}

abbrev pub deposit_entry : AuthUser → ℕ → ℤ → ℤ → AuditEntry
deposit_entry actor txn_id before amount = record {
  actor_user_id = actor.id;
  action = deposit_settle;
  entity_type = Schema.AuditEntityType.transaction;
  entity_id = txn_id;
  old_value = ("balance", number before) ∷ [];
  new_value = ("balance", number (before +ℤ amount)) ∷ ("amount", number amount) ∷ [];
}

abbrev pub deposit_payload : ℤ → String → ℕ → NotificationPayload
deposit_payload amount currency txn_id = record {
  title = "Money added";
  body = format_minor amount currency <> " added to your wallet";
  tag = txn_id;
  url = "/";
}

module _ {p : Prisma} (host : Host) where
  -- the body of `$transaction`
  abbrev pub settle_deposit : ℕ → AuthUser → ℤ → Option String → Action p Settled
  settle_deposit id actor amount note = do
    wallet ← lock_wallet id
    let before = wallet.balance
    let after = before +ℤ amount
    update_wallet id (set_balance after)
    created ← create_transaction (deposit_row host actor amount note id before)
    log host (deposit_entry actor created.id before amount)
    event ← enqueue host wallet.user_id (deposit_payload amount wallet.currency created.id)
    pure (record { row = created; owner = owner_of wallet after; event = event })

  unfoldable pub deposit : ℕ → AuthUser → ℤ → Option String → Action p Transaction
  deposit id actor amount note = do
    get_owned_wallet id actor
    result ← in_transaction (settle_deposit id actor amount note)
    announce result.owner
    dispatch host result.event
    pure result.row

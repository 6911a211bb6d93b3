-- ===== src/Wallets/Review.antt =====
-- `approve` and `reject` of backend/src/wallets/wallets.service.ts.
use max_one.Prelude.{
  ℕ, String, ◌<>◌, Bool, true, false, not, Option, none, some, [], ◌∷◌, if◌then◌else◌,
}
use max_one.Prelude.Int.{ℤ, ◌+ℤ◌, ◌-ℤ◌, ltb_ℤ}
use max_one.Exec.{bad_request, conflict, not_found, pure, throw_if, or_throw, ◌>>=◌, ◌>>◌}
use max_one.Schema
use max_one.Schema.{
  Transaction, TransactionStatus, Wallet, Json, text, number, NotificationPayload,
  NotificationPushEvent,
}
use max_one.World.{
  Prisma, Host, Action, in_transaction, lock, transaction_row, find_wallet, find_transaction,
  update_wallet, update_transaction,
}
use max_one.Audit.{AuditEntry, log}
use max_one.Money.{format_minor}
use max_one.Notifications.{enqueue, dispatch}
use max_one.Users.{AuthUser}
use max_one.Wallets.Access.{is_withdrawal, get_settleable_type, assert_approve_permission}
use max_one.Wallets.Settlement.{Settled, set_balance, owner_of, lock_wallet, announce}

abbrev pub is_pending : TransactionStatus → Bool
is_pending TransactionStatus.pending = true
is_pending _ = false

abbrev pub approve_row : Host → AuthUser → ℤ → ℤ → Transaction → Transaction
approve_row host actor before after txn = record txn {
  status = Schema.approved;
  reviewed_by = some actor.id;
  reviewed_at = some host.now;
  balance_before = some before;
  balance_after = some after;
}

abbrev pub reject_row : Host → AuthUser → Option String → Transaction → Transaction
reject_row host actor note txn = record txn {
  status = Schema.rejected;
  reviewed_by = some actor.id;
  reviewed_at = some host.now;
  note = note;
}

-- `note ?? txn.note`
abbrev pub note_or : Option String → Option String → Option String
note_or none old = old
note_or (some note) old = some note

abbrev pub note_json : Option String → Json
note_json none = Schema.null
note_json (some note) = text note

abbrev pub approve_entry : AuthUser → Transaction → ℤ → AuditEntry
approve_entry actor txn after = record {
  actor_user_id = actor.id;
  action = if is_withdrawal txn.kind then Schema.withdrawal_approve else Schema.deposit_approve;
  entity_type = Schema.AuditEntityType.transaction;
  entity_id = txn.id;
  old_value = ("status", text "pending") ∷ [];
  new_value = ("status", text "approved") ∷ ("balanceAfter", number after) ∷ [];
}

abbrev pub reject_entry : AuthUser → Transaction → Option String → AuditEntry
reject_entry actor txn note = record {
  actor_user_id = actor.id;
  action = if is_withdrawal txn.kind then Schema.withdrawal_reject else Schema.deposit_reject;
  entity_type = Schema.AuditEntityType.transaction;
  entity_id = txn.id;
  old_value = ("status", text "pending") ∷ [];
  new_value = ("status", text "rejected") ∷ ("note", note_json note) ∷ [];
}

abbrev pub approve_payload : Transaction → String → NotificationPayload
approve_payload txn currency =
    if is_withdrawal txn.kind
    then record {
      title = "Withdrawal sent";
      body = format_minor txn.amount currency <> " withdrawn";
      tag = txn.id;
      url = "/";
    }
    else record {
      title = "Deposit approved";
      body = format_minor txn.amount currency <> " added to your wallet";
      tag = txn.id;
      url = "/";
    }

abbrev pub reject_payload : Transaction → String → NotificationPayload
reject_payload txn currency = record {
  title = (if is_withdrawal txn.kind then "Withdrawal" else "Deposit") <> " declined";
  body =
      "Your "
      <> format_minor txn.amount currency
      <> " "
      <> (if is_withdrawal txn.kind then "withdrawal" else "deposit")
      <> " was declined";
  tag = txn.id;
  url = "/";
}

-- What `reject`'s transaction body returns; the event is null if the wallet is gone.
pub record Declined : Type 0 where
  pub row : Transaction
  pub event : Option NotificationPushEvent

module _ {p : Prisma} (host : Host) where
  -- The row under its lock, which must still be pending.
  abbrev pub lock_pending : ℕ → Action p Transaction
  lock_pending txn_id = do
    lock (transaction_row txn_id)
    found ← find_transaction txn_id
    txn ← or_throw (not_found "Transaction not found") found
    throw_if (not (is_pending txn.status)) (conflict "Transaction already reviewed")
    pure txn

  -- `after`, or the refusal of a withdrawal that the balance does not cover
  abbrev pub settled_balance : Transaction → ℤ → Action p ℤ
  settled_balance txn before =
      if is_withdrawal txn.kind
      then throw_if (ltb_ℤ before txn.amount) (bad_request "Insufficient funds")
        >> pure (before -ℤ txn.amount)
      else pure (before +ℤ txn.amount)

  -- the body of `approve`'s `$transaction`
  unfoldable pub settle_approval : ℕ → AuthUser → Action p Settled
  settle_approval txn_id actor = do
    txn ← lock_pending txn_id
    wallet ← lock_wallet txn.wallet_id
    after ← settled_balance txn wallet.balance
    update_wallet wallet.id (set_balance after)
    updated ← update_transaction txn (approve_row host actor wallet.balance after)
    log host (approve_entry actor txn after)
    event ← enqueue host wallet.user_id (approve_payload txn wallet.currency)
    pure (record { row = updated; owner = owner_of wallet after; event = event })

  unfoldable pub approve : ℕ → AuthUser → Action p Transaction
  unfolding settle_approval
  approve txn_id actor = do
    kind ← get_settleable_type txn_id
    assert_approve_permission actor kind
    result ← in_transaction (settle_approval txn_id actor)
    announce result.owner
    dispatch host result.event
    pure result.row

  abbrev pub notify_owner : Transaction → Option Wallet → Action p (Option NotificationPushEvent)
  notify_owner txn none = pure none
  notify_owner txn (some owner) = do
    event ← enqueue host owner.user_id (reject_payload txn owner.currency)
    pure (some event)

  -- the body of `reject`'s `$transaction`
  unfoldable pub settle_rejection : ℕ → AuthUser → Option String → Action p Declined
  settle_rejection txn_id actor note = do
    txn ← lock_pending txn_id
    updated ← update_transaction txn (reject_row host actor (note_or note txn.note))
    log host (reject_entry actor txn (note_or note txn.note))
    owner ← find_wallet txn.wallet_id
    event ← notify_owner txn owner
    pure (record { row = updated; event = event })

  abbrev pub dispatch_if : Option NotificationPushEvent → Action p (Unit {0})
  dispatch_if none = pure tt
  dispatch_if (some event) = dispatch host event

  unfoldable pub reject : ℕ → AuthUser → Option String → Action p Transaction
  unfolding settle_rejection
  reject txn_id actor note = do
    kind ← get_settleable_type txn_id
    assert_approve_permission actor kind
    result ← in_transaction (settle_rejection txn_id actor note)
    dispatch_if result.event
    pure result.row

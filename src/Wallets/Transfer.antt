-- ===== src/Wallets/Transfer.antt =====
-- `transfer` of backend/src/wallets/wallets.service.ts.
use max_one.Prelude.{ℕ, String, ◌<>◌, Option, none, some, [], ◌∷◌, ◌==◌, leb, if◌then◌else◌, str_eq}
use max_one.Prelude.Int.{ℤ, ◌+ℤ◌, ◌-ℤ◌, ltb_ℤ}
use max_one.Exec.{ok, err, bad_request, not_found, pure, throw_if, or_throw, ◌>>=◌, ◌>>◌}
use max_one.Schema
use max_one.Schema.{
  Transaction, TransactionType, Wallet, Decimal, Json, text, number, NotificationPayload,
  NotificationPushEvent,
}
use max_one.World.{
  Prisma, Host, Action, DecimalJs, in_transaction, lock, wallet_row, find_wallet, update_wallet,
  create_transaction,
}
use max_one.Audit.{AuditEntry, log}
use max_one.Money.{format_minor}
use max_one.Notifications.{enqueue, dispatch}
use max_one.Rates.{convert_minor, get_rate}
use max_one.Users.{AuthUser, SafeUser, find_by_id}
use max_one.Wallets.Access.{get_owned_wallet}
use max_one.Wallets.Settlement.{Owner, set_balance, owner_of, announce}

-- `TransferDto`
pub record TransferDto : Type 0 where
  pub to_wallet_id : ℕ
  pub amount : ℤ
  pub note : Option String

-- `[fromWalletId, dto.toWalletId].sort()`
unfoldable pub lock_order : ℕ → ℕ → ℕ × ℕ
lock_order a b = if leb a b then (a, b) else (b, a)

-- The credit and the rate that was applied: none between wallets of one currency.
pub record Conversion : Type 0 where
  pub credit : ℤ
  pub exchange_rate : Option Decimal

-- One half of a transfer; the fields of `shared` are the same on both.
abbrev pub transfer_row :
    Host
    → AuthUser
    → Option String
    → Option Decimal
    → TransactionType
    → ℕ
    → ℕ
    → ℤ
    → ℤ
    → ℤ
    → ℕ
    → Transaction
transfer_row host actor note exchange_rate kind wallet_id other amount before after id = record {
  id = id;
  wallet_id = wallet_id;
  kind = kind;
  amount = amount;
  balance_before = some before;
  balance_after = some after;
  status = Schema.approved;
  requested_by = actor.id;
  reviewed_by = some actor.id;
  reviewed_at = some host.now;
  note = note;
  transfer_id = some host.transfer_uuid;
  counterparty_wallet_id = some other;
  exchange_rate = exchange_rate;
  created_at = host.now;
}

abbrev pub out_row : Host → AuthUser → TransferDto → Conversion → Wallet → Wallet → ℕ → Transaction
out_row host actor dto c from to =
    transfer_row host actor dto.note c.exchange_rate Schema.transfer_out from.id to.id dto.amount
      from.balance (from.balance -ℤ dto.amount)

abbrev pub in_row : Host → AuthUser → TransferDto → Conversion → Wallet → Wallet → ℕ → Transaction
in_row host actor dto c from to =
    transfer_row host actor dto.note c.exchange_rate Schema.transfer_in to.id from.id c.credit
      to.balance (to.balance +ℤ c.credit)

abbrev pub rate_json : DecimalJs → Option Decimal → Json
rate_json js none = Schema.null
rate_json js (some rate) = text (js.to_string rate)

abbrev pub transfer_entry :
    Host → AuthUser → TransferDto → Conversion → Wallet → Wallet → AuditEntry
transfer_entry host actor dto c from to = record {
  actor_user_id = actor.id;
  action = Schema.wallet_transfer;
  entity_type = Schema.AuditEntityType.wallet;
  entity_id = from.id;
  old_value = ("balance", number from.balance) ∷ [];
  new_value =
      ("balance", number (from.balance -ℤ dto.amount))
      ∷ ("toWalletId", Json.id to.id)
      ∷ ("amount", number dto.amount)
      ∷ ("credit", number c.credit)
      ∷ ("exchangeRate", rate_json host.decimal c.exchange_rate)
      ∷ [];
}

-- `sender?.handle ?? 'someone'`
abbrev pub sender_name : Option SafeUser → String
sender_name none = "someone"
sender_name (some user) = elim user.handle [ none ↦ "someone" | some handle ↦ handle ]

abbrev pub received_payload : Host → Conversion → Wallet → Option SafeUser → NotificationPayload
received_payload host c to sender = record {
  title = "Received " <> format_minor c.credit to.currency;
  body = "from @" <> sender_name sender;
  tag = host.transfer_uuid;
  url = "/";
}

pub record Transferred : Type 0 where
  pub row : Transaction
  pub from : Owner
  pub to : Owner
  pub event : NotificationPushEvent

-- `promise.catch(() => null)`
abbrev pub catch_null : {p : Prisma} {A : Type 0} → Action p A → Action p (Option A)
catch_null m w = let (r, w') = m w in elim r [ ok a ↦ (ok (some a), w') | err e ↦ (ok none, w') ]

module _ {p : Prisma} (host : Host) where
  unfoldable pub convert : String → String → ℤ → Action p Conversion
  convert from to amount =
      if str_eq from to then pure (record { credit = amount; exchange_rate = none }) else do
        rate ← get_rate host from to
        pure (record { credit = convert_minor host.decimal amount rate; exchange_rate = some rate })

  -- the body of `$transaction`
  unfoldable pub settle_transfer :
      ℕ → AuthUser → TransferDto → Conversion → Option SafeUser → Action p Transferred
  settle_transfer from_wallet_id actor dto c sender = do
    lock (wallet_row (lock_order from_wallet_id dto.to_wallet_id).0)
    lock (wallet_row (lock_order from_wallet_id dto.to_wallet_id).1)
    found_from ← find_wallet from_wallet_id
    from ← or_throw (not_found "Wallet not found") found_from
    found_to ← find_wallet dto.to_wallet_id
    to ← or_throw (not_found "Destination wallet not found") found_to
    throw_if (ltb_ℤ from.balance dto.amount) (bad_request "Insufficient funds")
    update_wallet from.id (set_balance (from.balance -ℤ dto.amount))
    update_wallet to.id (set_balance (to.balance +ℤ c.credit))
    row ← create_transaction (out_row host actor dto c from to)
    create_transaction (in_row host actor dto c from to)
    log host (transfer_entry host actor dto c from to)
    event ← enqueue host to.user_id (received_payload host c to sender)
    pure (record {
      row = row;
      from = owner_of from (from.balance -ℤ dto.amount);
      to = owner_of to (to.balance +ℤ c.credit);
      event = event;
    })

  -- the transaction, and what is told after its commit
  unfoldable pub settle_and_announce :
      ℕ → AuthUser → TransferDto → Conversion → Option SafeUser → Action p Transaction
  settle_and_announce from_wallet_id actor dto c sender = do
    result ← in_transaction (settle_transfer from_wallet_id actor dto c sender)
    announce result.from
    announce result.to
    dispatch host result.event
    pure result.row

  unfoldable pub transfer : ℕ → AuthUser → TransferDto → Action p Transaction
  transfer from_wallet_id actor dto = do
    throw_if (dto.to_wallet_id == from_wallet_id) (bad_request "Cannot transfer to the same wallet")
    source ← get_owned_wallet from_wallet_id actor
    found ← find_wallet dto.to_wallet_id
    dest ← or_throw (not_found "Destination wallet not found") found
    c ← convert source.currency dest.currency dto.amount
    sender ← catch_null (find_by_id actor.id)
    settle_and_announce from_wallet_id actor dto c sender

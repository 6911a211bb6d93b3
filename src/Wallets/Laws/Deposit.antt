-- ===== src/Wallets/Laws/Deposit.antt =====
-- `deposit` of backend/src/wallets/wallets.service.ts on every branch.
use max_one.Prelude.{
  ℕ, ◌≡◌, String, Option, some, arith, ◌==◌, if◌then◌else◌, Bool, false, none, refl, inl, inr, [],
  ◌∷◌, Option-cases, Bool-cases,
}
use max_one.Prelude.Int.{ℤ, ◌+ℤ◌}
use max_one.Exec.{ok}
use max_one.Schema
use max_one.Schema.{
  Transaction, AuditLog, deposit_settle, number, Wallet, OutboxEvent, NotificationPushEvent,
}
use max_one.World.{Prisma, IsPrisma, World, Host}
use max_one.Users.{AuthUser}
use max_one.Wallets.Access.{get_owned_wallet}
use max_one.Wallets.Deposit.{deposit, deposit_row, deposit_payload}
use max_one.Queue.{notification_push}
use max_one.Notifications.{push_event}
use max_one.Outbox.{pending_row, mark_published, mark_failed}
use max_one.Wallets.Tables.{find_wallet-update, find_transaction-insert, find_event-mark}

module _ {p : Prisma} (host : Host) (id : ℕ) (actor : AuthUser) (amount : ℤ) (note : Option String)
    (w : World p) where
  -- To the owner of the wallet a deposit returns a row of that wallet, approved by its owner at
  -- once, with the amount, the balance before and the balance with the amount after; it adds that
  -- row to the ledger and nothing else there, raises the balance of this wallet alone by the
  -- amount, and writes one audit row, of the settled deposit, with the same two balances.
  pub deposit-settles :
      {wallet : Wallet}
      → IsPrisma p
      → p.wallet.find_unique id w.db.wallets ≡ some wallet
      → wallet.user_id ≡ actor.id
      → let t = p.transaction.fresh w.db.transactions in
        let row : Transaction = record {
          id = t;
          wallet_id = id;
          kind = Schema.deposit;
          amount = amount;
          balance_before = some wallet.balance;
          balance_after = some (wallet.balance +ℤ amount);
          status = Schema.approved;
          requested_by = wallet.user_id;
          reviewed_by = some wallet.user_id;
          reviewed_at = some host.now;
          note = note;
          transfer_id = none;
          counterparty_wallet_id = none;
          exchange_rate = none;
          created_at = host.now;
        } in
        let audited : AuditLog = record {
          id = p.audit_log.fresh w.db.audit_logs;
          actor_user_id = wallet.user_id;
          action = deposit_settle;
          entity_type = Schema.AuditEntityType.transaction;
          entity_id = t;
          old_value = ("balance", number wallet.balance) ∷ [];
          new_value =
              ("balance", number (wallet.balance +ℤ amount)) ∷ ("amount", number amount) ∷ [];
          ip_address = host.ip_address;
          user_agent = host.user_agent;
          created_at = host.now;
        } in
        let (r, w') = deposit host id actor amount note w in
        (r ≡ ok row)
        × ((j : ℕ)
            → p.wallet.find_unique j w'.db.wallets ≡ (
                if id == j
                then some (record wallet { balance = wallet.balance +ℤ amount })
                else p.wallet.find_unique j w.db.wallets))
        × ((j : ℕ)
            → p.transaction.find_unique j w'.db.transactions
              ≡ (if t == j then some row else p.transaction.find_unique j w.db.transactions))
        × (w'.db.audit_logs ≡ p.audit_log.insert audited w.db.audit_logs)
  unfolding deposit get_owned_wallet
  deposit-settles {wallet} lawful found owned =
      let row =
        deposit_row host actor amount note id wallet.balance
          (p.transaction.fresh w.db.transactions) in
      (
        ground arith,
        λ j. ground (arith, find_wallet-update lawful j id (wallet.balance +ℤ amount) w.db.wallets),
        λ j. ground (arith, find_transaction-insert lawful j row w.db.transactions),
        ground arith,
      )

  -- The broker's answer to an event: false without a channel, on a throw, and where it says so.
  abbrev accepts : NotificationPushEvent → Bool
  accepts event = elim host.channel [
    | none ↦ false
    | some send ↦ elim (send event) [ none ↦ false | some accepted ↦ accepted ]
  ]

  -- To the owner of the wallet, with a fresh event id: after the deposit its event is in the
  -- outbox for that owner, published if the broker took it at once, else pending with one attempt.
  pub deposit-notifies :
      {wallet : Wallet}
      → IsPrisma p
      → p.wallet.find_unique id w.db.wallets ≡ some wallet
      → wallet.user_id ≡ actor.id
      → p.outbox_event.find_unique host.event_uuid w.db.outbox_events ≡ none
      → let event =
          push_event host wallet.user_id
            (deposit_payload amount wallet.currency (p.transaction.fresh w.db.transactions)) in
        p.outbox_event.find_unique host.event_uuid
          (deposit host id actor amount note w).1.db.outbox_events
        ≡ some (
            (if accepts event then mark_published host.now else mark_failed)
              (pending_row host.now notification_push event))
  unfolding deposit get_owned_wallet
  deposit-notifies {wallet} lawful found owned unused =
      let event =
        push_event host wallet.user_id
          (deposit_payload amount wallet.currency (p.transaction.fresh w.db.transactions)) in
      let mark = λ (f : OutboxEvent → OutboxEvent) (same : (r : OutboxEvent) → (f r).id ≡ r.id).
        find_event-mark lawful host.now notification_push event f w.db.outbox_events unused same in
      elim (Option-cases host.channel) [
        | inl down ↦ ground (arith, mark mark_failed (λ r. refl))
        | inr (send, up) ↦ elim (Option-cases (send event)) [
          | inl thrown ↦ ground (arith, mark mark_failed (λ r. refl))
          | inr (b, answered) ↦ elim (Bool-cases b) [
            | inl taken ↦ ground (arith, mark (mark_published host.now) (λ r. refl))
            | inr refused ↦ ground (arith, mark mark_failed (λ r. refl))
          ]
        ]
      ]

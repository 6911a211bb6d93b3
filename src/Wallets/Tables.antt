-- ===== src/Wallets/Tables.antt =====
-- The laws of the delegates in the forms that the wallet methods use: a new balance in one wallet,
-- a new row in the ledger, a row of the ledger that is settled, an event that is queued.
use max_one.Prelude.{
  ℕ, ◌≡◌, sym, ap, ◌∙◌, String, none, some, arith, ◌==◌, if◌then◌else◌, option_map,
}
use max_one.Prelude.Int.{ℤ}
use max_one.Schema.{Wallet, Transaction, OutboxEvent, NotificationPushEvent}
use max_one.World.{Prisma, IsPrisma}
use max_one.Outbox.{pending_row}
use max_one.Wallets.Settlement.{set_balance}

module _ {p : Prisma} (lawful : IsPrisma p) where
  pub find_wallet-update :
      (j id : ℕ) (after : ℤ) (t : p.wallet.Table)
      → p.wallet.find_unique j (p.wallet.update id (set_balance after) t) ≡ (
          if id == j
          then option_map (set_balance after) (p.wallet.find_unique j t)
          else p.wallet.find_unique j t)
  find_wallet-update j id after t =
      lawful.wallet.find_unique-update j id (set_balance after) t
        (λ r. lawful.key-wallet (set_balance after r) ∙ sym (lawful.key-wallet r))

  pub find_wallet-insert :
      (j : ℕ) (row : Wallet) (t : p.wallet.Table)
      → row.id ≡ p.wallet.fresh t
      → p.wallet.find_unique j (p.wallet.insert row t)
        ≡ (if row.id == j then some row else p.wallet.find_unique j t)
  find_wallet-insert j row t e = ground (
    arith,
    lawful.key-wallet row,
    lawful.wallet.find_unique-fresh t,
    lawful.wallet.find_unique-insert j row t,
  )

  -- The id of a wallet that was found is the id that was asked for.
  pub id-find_wallet :
      (k : ℕ) (t : p.wallet.Table) (r : Wallet) → p.wallet.find_unique k t ≡ some r → r.id ≡ k
  id-find_wallet k t r h = sym (lawful.key-wallet r) ∙ lawful.wallet.key-find_unique k t r h

  pub find_wallet_self :
      (k : ℕ) (t : p.wallet.Table) (r : Wallet)
      → p.wallet.find_unique k t ≡ some r
      → p.wallet.find_unique r.id t ≡ some r
  find_wallet_self k t r h = ap (λ n. p.wallet.find_unique n t) (id-find_wallet k t r h) ∙ h

  pub id-find_transaction :
      (k : ℕ) (t : p.transaction.Table) (r : Transaction)
      → p.transaction.find_unique k t ≡ some r
      → r.id ≡ k
  id-find_transaction k t r h =
      sym (lawful.key-transaction r) ∙ lawful.transaction.key-find_unique k t r h

  pub find_transaction_self :
      (k : ℕ) (t : p.transaction.Table) (r : Transaction)
      → p.transaction.find_unique k t ≡ some r
      → p.transaction.find_unique r.id t ≡ some r
  find_transaction_self k t r h =
      ap (λ n. p.transaction.find_unique n t) (id-find_transaction k t r h) ∙ h

  pub find_transaction-insert :
      (j : ℕ) (row : Transaction) (t : p.transaction.Table)
      → row.id ≡ p.transaction.fresh t
      → p.transaction.find_unique j (p.transaction.insert row t)
        ≡ (if row.id == j then some row else p.transaction.find_unique j t)
  find_transaction-insert j row t e = ground (
    arith,
    lawful.key-transaction row,
    lawful.transaction.find_unique-fresh t,
    lawful.transaction.find_unique-insert j row t,
  )

  pub find_transaction-update :
      (j id : ℕ) (f : Transaction → Transaction) (t : p.transaction.Table)
      → ((r : Transaction) → (f r).id ≡ r.id)
      → p.transaction.find_unique j (p.transaction.update id f t) ≡ (
          if id == j
          then option_map f (p.transaction.find_unique j t)
          else p.transaction.find_unique j t)
  find_transaction-update j id f t same =
      lawful.transaction.find_unique-update j id f t
        (λ r. lawful.key-transaction (f r) ∙ same r ∙ sym (lawful.key-transaction r))

  -- A queued event that is marked afterwards is found as the marked row.
  pub find_event-mark :
      (now : ℕ) (key : String) (event : NotificationPushEvent) (mark : OutboxEvent → OutboxEvent)
      (t : p.outbox_event.Table)
      → p.outbox_event.find_unique event.id t ≡ none
      → ((r : OutboxEvent) → (mark r).id ≡ r.id)
      → p.outbox_event.find_unique event.id (
          p.outbox_event.update event.id mark (p.outbox_event.insert (pending_row now key event) t))
        ≡ some (mark (pending_row now key event))
  find_event-mark now key event mark t unused same = ground (
    arith,
    lawful.key-outbox_event (pending_row now key event),
    lawful.outbox_event.find_unique-insert event.id (pending_row now key event) t,
    lawful.outbox_event.find_unique-update event.id event.id mark
        (p.outbox_event.insert (pending_row now key event) t)
        (λ r. lawful.key-outbox_event (mark r) ∙ same r ∙ sym (lawful.key-outbox_event r)),
  )

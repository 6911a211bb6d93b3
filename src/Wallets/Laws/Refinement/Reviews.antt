-- ===== src/Wallets/Laws/Refinement/Reviews.antt =====
-- The steps of `approve` and `reject`. Whether the reviewer may act is asked before the transaction
-- body, so the body is a step by itself, in whatever state it finds the row.
use max_one.Prelude.{
  ℕ, ◌≡◌, refl, String, true, false, Option, some, arith, inl, inr, Bool-cases, Option-cases, ap,
  ◌∙◌,
}
use max_one.Prelude.Int.{ℤ, ◌+ℤ◌, ◌-ℤ◌, ltb_ℤ, int_laws, -ℤ_nonneg}
use max_one.Schema.{Wallet, Transaction, TransactionType, TransactionStatus}
use max_one.World.{Prisma, IsPrisma, World, Host}
use max_one.Users.{AuthUser, with_role}
use max_one.Wallets.Access.{
  is_withdrawal, approve_code, holds, get_settleable_type, assert_approve_permission,
}
use max_one.Wallets.Review.{is_pending, approve, reject, approve_row, reject_row, note_or}
use max_one.Wallets.Settlement.{set_balance}
use max_one.Wallets.Tables.{id-find_wallet, find_transaction_self}
use max_one.Wallets.Ledger.{Step, IsSettled, IsWaiting, Moved, IsReviewed, Covered}
use max_one.Wallets.Ledger.Invariant.{IsBooked, AllBooked}

-- A booked row that is pending is waiting.
pending-IsWaiting :
    {row : Transaction} → IsBooked row → row.status ≡ TransactionStatus.pending → IsWaiting row
pending-IsWaiting (IsBooked.waiting h) pending = h
pending-IsWaiting (IsBooked.settled before after s h) pending = cc s.status
pending-IsWaiting (IsBooked.declined d) pending = cc d.status

pending_of : (s : TransactionStatus) → is_pending s ≡ true → s ≡ TransactionStatus.pending
pending_of s h = ground arith

module _ {p : Prisma} (lawful : IsPrisma p) (host : Host) (actor : AuthUser) (w : World p) where
  -- A withdrawal that the balance covers, or a deposit.
  credit-Moved :
      (kind : TransactionType) (amount before : ℤ)
      → IsReviewed kind
      → is_withdrawal kind ≡ false
      → Moved kind amount before (before +ℤ amount)
  credit-Moved TransactionType.deposit amount before h e = refl
  credit-Moved TransactionType.withdrawal amount before h e = cc
  credit-Moved TransactionType.adjustment amount before h e = absurd h
  credit-Moved TransactionType.transfer_out amount before h e = absurd h
  credit-Moved TransactionType.transfer_in amount before h e = absurd h

  debit-Moved :
      (kind : TransactionType) (amount before : ℤ)
      → is_withdrawal kind ≡ true
      → Moved kind amount before (before -ℤ amount)
  debit-Moved TransactionType.withdrawal amount before e = refl
  debit-Moved TransactionType.deposit amount before e = cc
  debit-Moved TransactionType.adjustment amount before e = cc
  debit-Moved TransactionType.transfer_out amount before e = cc
  debit-Moved TransactionType.transfer_in amount before e = cc

  approve_row-IsSettled :
      (txn : Transaction) (before after : ℤ)
      → Moved txn.kind txn.amount before after
      → IsSettled (approve_row host actor before after txn) txn.wallet_id before after
  approve_row-IsSettled txn before after m = record {
    wallet_id = refl;
    status = refl;
    balance_before = refl;
    balance_after = refl;
    moved = m;
    reviewed = λ e. cc;
  }

  -- The body of `approve` on a row that is pending and whose wallet is there.
  module _ (txn_id : ℕ) {txn : Transaction} {wallet : Wallet}
      (at : p.transaction.find_unique txn_id w.db.transactions ≡ some txn)
      (found : p.wallet.find_unique txn.wallet_id w.db.wallets ≡ some wallet)
      (pending : is_pending txn.status ≡ true) (waits : IsWaiting txn)
      (held : holds (approve_code txn.kind) (with_role w (p.user.find_unique actor.id w.db.users))
        ≡ true) where
    approved_step :
        (after : ℤ)
        → Moved txn.kind txn.amount wallet.balance after
        → Covered wallet.balance after
        → (approve host txn_id actor w).1.db.wallets
          ≡ p.wallet.update wallet.id (set_balance after) w.db.wallets
        → (approve host txn_id actor w).1.db.transactions
          ≡ p.transaction.update txn.id
              (approve_row host actor wallet.balance after)
              w.db.transactions
        → Step w.db (approve host txn_id actor w).1.db
    approved_step after moved covered ws ts =
        Step.approved wallet after txn (approve_row host actor wallet.balance after) found
          (find_transaction_self lawful txn_id w.db.transactions txn at)
          (pending_of txn.status pending) (λ r. refl)
          (approve_row-IsSettled txn wallet.balance after moved) covered
          (ws
            ∙ ap (λ k. p.wallet.update k (set_balance after) w.db.wallets)
                (id-find_wallet lawful txn.wallet_id w.db.wallets wallet found))
          ts

    approve_pending-Step : Step w.db (approve host txn_id actor w).1.db
    unfolding approve get_settleable_type assert_approve_permission
    approve_pending-Step = elim (Bool-cases (is_withdrawal txn.kind)) [
      | inl out ↦ elim (Bool-cases (ltb_ℤ wallet.balance txn.amount)) [
        | inl short ↦ Step.idle (ground arith) (ground arith)
        | inr enough ↦
            approved_step (wallet.balance -ℤ txn.amount)
              (debit-Moved txn.kind txn.amount wallet.balance out)
              (λ solvent. -ℤ_nonneg wallet.balance txn.amount enough) (ground arith) (ground arith)
      ]
      | inr deposit ↦
          approved_step (wallet.balance +ℤ txn.amount)
            (credit-Moved txn.kind txn.amount wallet.balance waits.kind deposit)
            (λ solvent. omega (int_laws, waits.amount)) (ground arith) (ground arith)
    ]

  pub approve-Step :
      (txn_id : ℕ) → AllBooked p w.db.transactions → Step w.db (approve host txn_id actor w).1.db
  unfolding approve get_settleable_type assert_approve_permission
  approve-Step txn_id booked =
      elim (Option-cases (p.transaction.find_unique txn_id w.db.transactions)) [
        | inl missing ↦ Step.idle (ground arith) (ground arith)
        | inr (txn, at) ↦
            elim (Bool-cases (
              holds (approve_code txn.kind)
                (with_role w (p.user.find_unique actor.id w.db.users)))) [
                  | inl held ↦ elim (Bool-cases (is_pending txn.status)) [
                    | inl pending ↦
                        elim (Option-cases (p.wallet.find_unique txn.wallet_id w.db.wallets)) [
                          | inl gone ↦ Step.idle (ground arith) (ground arith)
                          | inr (wallet, found) ↦
                              approve_pending-Step txn_id at found pending
                                (pending-IsWaiting (booked txn_id txn at)
                                  (pending_of txn.status pending))
                                held
                        ]
                    | inr reviewed ↦ Step.idle (ground arith) (ground arith)
                  ]
                  | inr denied ↦ Step.idle (ground arith) (ground arith)
                ]
      ]

  pub reject-Step :
      (txn_id : ℕ) (note : Option String)
      → AllBooked p w.db.transactions
      → Step w.db (reject host txn_id actor note w).1.db
  unfolding reject get_settleable_type assert_approve_permission
  reject-Step txn_id note booked =
      elim (Option-cases (p.transaction.find_unique txn_id w.db.transactions)) [
        | inl missing ↦ Step.idle (ground arith) (ground arith)
        | inr (txn, at) ↦
            elim (Bool-cases (
              holds (approve_code txn.kind)
                (with_role w (p.user.find_unique actor.id w.db.users)))) [
                  | inl held ↦ elim (Bool-cases (is_pending txn.status)) [
                    | inl pending ↦
                        let waits =
                          pending-IsWaiting (booked txn_id txn at)
                            (pending_of txn.status pending) in
                        Step.declined txn (reject_row host actor (note_or note txn.note))
                          (find_transaction_self lawful txn_id w.db.transactions txn at)
                          waits.status (λ r. refl)
                          (record {
                            status = refl;
                            balance_before = waits.balance_before;
                            balance_after = waits.balance_after;
                            reviewed = λ e. cc;
                          })
                          (ground arith) (ground arith)
                    | inr reviewed ↦ Step.idle (ground arith) (ground arith)
                  ]
                  | inr denied ↦ Step.idle (ground arith) (ground arith)
                ]
      ]

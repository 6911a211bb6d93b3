-- ===== src/Wallets/Ledger.antt =====
-- The specification of the wallet service: the steps that the tables `Wallet` and `Transaction` may
-- take, without actors, permissions, audit rows, events or conversions.
pub mod Invariant
pub mod Preservation
use max_one.Prelude.{ℕ, ◌≡◌, ◌∙◌, ◌≢◌, ◌⊎◌, Option, none, some}
use max_one.Prelude.Int.{ℤ, pos, ◌+ℤ◌, ◌-ℤ◌, ◌≤ℤ◌}
use max_one.Schema
use max_one.Schema.{Wallet, Transaction, TransactionType, TransactionStatus}
use max_one.World.{Prisma, Db}
use max_one.Wallets.Settlement.{set_balance}

-- The balance before and after a settled row, by the row's type and amount.
abbrev pub Moved : TransactionType → ℤ → ℤ → ℤ → Type 0
Moved TransactionType.deposit amount before after = after ≡ before +ℤ amount
Moved TransactionType.withdrawal amount before after = after ≡ before -ℤ amount
Moved TransactionType.adjustment amount before after =
    (after ≡ before +ℤ amount) ⊎ (after ≡ before -ℤ amount)
Moved TransactionType.transfer_out amount before after = after ≡ before -ℤ amount
Moved TransactionType.transfer_in amount before after = after ≡ before +ℤ amount

-- The types of the rows that wait for a review.
abbrev pub IsReviewed : TransactionType → Type 0
IsReviewed TransactionType.deposit = Unit
IsReviewed TransactionType.withdrawal = Unit
IsReviewed _ = ⊥

-- A row that records a settled change of one wallet.
pub record IsSettled (row : Transaction) (id : ℕ) (before after : ℤ) : Type 0 where
  pub wallet_id : row.wallet_id ≡ id
  pub status : row.status ≡ TransactionStatus.approved
  pub balance_before : row.balance_before ≡ some before
  pub balance_after : row.balance_after ≡ some after
  pub moved : Moved row.kind row.amount before after
  pub reviewed : row.reviewed_by ≢ none

-- A row that waits for its review.
pub record IsWaiting (row : Transaction) : Type 0 where
  pub status : row.status ≡ TransactionStatus.pending
  pub balance_before : row.balance_before ≡ none
  pub balance_after : row.balance_after ≡ none
  pub reviewed : row.reviewed_by ≡ none
  pub kind : IsReviewed row.kind
  pub amount : pos 0 ≤ℤ row.amount

-- A row that was declined: no balance ever moved.
pub record IsDeclined (row : Transaction) : Type 0 where
  pub status : row.status ≡ TransactionStatus.rejected
  pub balance_before : row.balance_before ≡ none
  pub balance_after : row.balance_after ≡ none
  pub reviewed : row.reviewed_by ≢ none

-- A balance that was not negative is replaced by one that is not.
abbrev pub Covered : ℤ → ℤ → Type 0
Covered before after = pos 0 ≤ℤ before → pos 0 ≤ℤ after

pub data Step {p : Prisma} (d d' : Db p) : Type 0 where
  idle : d'.wallets ≡ d.wallets → d'.transactions ≡ d.transactions → Step d d'
  opened :
      (row : Wallet)
      → row.id ≡ p.wallet.fresh d.wallets
      → row.balance ≡ pos 0
      → d'.wallets ≡ p.wallet.insert row d.wallets
      → d'.transactions ≡ d.transactions
      → Step d d'
  requested :
      (row : Transaction)
      → row.id ≡ p.transaction.fresh d.transactions
      → IsWaiting row
      → d'.wallets ≡ d.wallets
      → d'.transactions ≡ p.transaction.insert row d.transactions
      → Step d d'
  settled :
      (id : ℕ) (wallet : Wallet) (after : ℤ) (row : Transaction)
      → p.wallet.find_unique id d.wallets ≡ some wallet
      → row.id ≡ p.transaction.fresh d.transactions
      → IsSettled row id wallet.balance after
      → Covered wallet.balance after
      → d'.wallets ≡ p.wallet.update id (set_balance after) d.wallets
      → d'.transactions ≡ p.transaction.insert row d.transactions
      → Step d d'
  approved :
      (wallet : Wallet) (after : ℤ) (txn : Transaction) (f : Transaction → Transaction)
      → p.wallet.find_unique txn.wallet_id d.wallets ≡ some wallet
      → p.transaction.find_unique txn.id d.transactions ≡ some txn
      → txn.status ≡ TransactionStatus.pending
      → ((r : Transaction) → (f r).id ≡ r.id)
      → IsSettled (f txn) txn.wallet_id wallet.balance after
      → Covered wallet.balance after
      → d'.wallets ≡ p.wallet.update txn.wallet_id (set_balance after) d.wallets
      → d'.transactions ≡ p.transaction.update txn.id f d.transactions
      → Step d d'
  declined :
      (txn : Transaction) (f : Transaction → Transaction)
      → p.transaction.find_unique txn.id d.transactions ≡ some txn
      → txn.status ≡ TransactionStatus.pending
      → ((r : Transaction) → (f r).id ≡ r.id)
      → IsDeclined (f txn)
      → d'.wallets ≡ d.wallets
      → d'.transactions ≡ p.transaction.update txn.id f d.transactions
      → Step d d'
  transferred :
      (from to : Wallet) (from_after to_after : ℤ) (out_row in_row : Transaction)
      → from.id ≢ to.id
      → p.wallet.find_unique from.id d.wallets ≡ some from
      → p.wallet.find_unique to.id d.wallets ≡ some to
      → out_row.id ≡ p.transaction.fresh d.transactions
      → in_row.id ≡ p.transaction.fresh (p.transaction.insert out_row d.transactions)
      → IsSettled out_row from.id from.balance from_after
      → IsSettled in_row to.id to.balance to_after
      → Covered from.balance from_after
      → Covered to.balance to_after
      → d'.wallets
        ≡ p.wallet.update to.id
            (set_balance to_after)
            (p.wallet.update from.id (set_balance from_after) d.wallets)
      → d'.transactions ≡ p.transaction.insert in_row (p.transaction.insert out_row d.transactions)
      → Step d d'

-- A step says nothing of the other tables.
pub Step-same :
    {p : Prisma} {d d' d'' : Db p}
    → Step d d'
    → d''.wallets ≡ d'.wallets
    → d''.transactions ≡ d'.transactions
    → Step d d''
Step-same (idle a b) ws ts = idle (ws ∙ a) (ts ∙ b)
Step-same (opened row new zero a b) ws ts = opened row new zero (ws ∙ a) (ts ∙ b)
Step-same (requested row new waits a b) ws ts = requested row new waits (ws ∙ a) (ts ∙ b)
Step-same (settled id wallet after row found new books covered a b) ws ts =
    settled id wallet after row found new books covered (ws ∙ a) (ts ∙ b)
Step-same (approved wallet after txn f found at pending same books covered a b) ws ts =
    approved wallet after txn f found at pending same books covered (ws ∙ a) (ts ∙ b)
Step-same (declined txn f at pending same books a b) ws ts =
    declined txn f at pending same books (ws ∙ a) (ts ∙ b)
Step-same
      (transferred from to from_after to_after out_row in_row ne from_at to_at new_out new_in
        out_books in_books out_covered in_covered a b)
      ws ts =
    transferred from to from_after to_after out_row in_row ne from_at to_at new_out new_in out_books
      in_books out_covered in_covered (ws ∙ a) (ts ∙ b)

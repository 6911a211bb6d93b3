-- ===== src/Wallets/Ledger/Invariant.antt =====
-- What every step of the wallet specification keeps: no balance is negative, every row of the
-- ledger is waiting, settled or declined as a whole, and what is reviewed stays as it is.
use max_one.Prelude.{ℕ, ◌≡◌, ◌≢◌, refl, ap, some, arith, ◌==◌, inl, inr, Bool-cases, ==_iff}
use max_one.Prelude.Int.{ℤ, pos, ◌≤ℤ◌}
use mathlib.Core.Path.{subst}
use max_one.Schema.{Wallet, Transaction, TransactionStatus}
use max_one.World.{Prisma, IsPrisma, Db}
use max_one.Wallets.Settlement.{set_balance}
use max_one.Wallets.Ledger.{IsSettled, IsWaiting, IsDeclined, Covered}
use max_one.Wallets.Tables.{
  find_wallet-update, find_wallet-insert, find_transaction-insert, find_transaction-update,
}

pub data IsBooked (row : Transaction) : Type 0 where
  waiting : IsWaiting row → IsBooked row
  settled :
      (before after : ℤ) → IsSettled row row.wallet_id before after → pos 0 ≤ℤ after → IsBooked row
  declined : IsDeclined row → IsBooked row

module _ (p : Prisma) where
  abbrev pub IsSolvent : p.wallet.Table → Type 0
  IsSolvent t = (k : ℕ) (r : Wallet) → p.wallet.find_unique k t ≡ some r → pos 0 ≤ℤ r.balance

  abbrev pub AllBooked : p.transaction.Table → Type 0
  AllBooked t = (k : ℕ) (r : Transaction) → p.transaction.find_unique k t ≡ some r → IsBooked r

  -- A row that has been reviewed is found in both tables, the same.
  abbrev pub KeepsReviewed : p.transaction.Table → p.transaction.Table → Type 0
  KeepsReviewed t t' =
      (k : ℕ) (r : Transaction)
      → p.transaction.find_unique k t ≡ some r
      → r.status ≢ TransactionStatus.pending
      → p.transaction.find_unique k t' ≡ some r

pub record IsSound {p : Prisma} (d : Db p) : Type 0 where
  pub solvent : IsSolvent p d.wallets
  pub booked : AllBooked p d.transactions

module _ {p : Prisma} (lawful : IsPrisma p) where
  pub update-IsSolvent :
      (id : ℕ) (after : ℤ) (t : p.wallet.Table)
      → IsSolvent p t
      → pos 0 ≤ℤ after
      → IsSolvent p (p.wallet.update id (set_balance after) t)
  update-IsSolvent id after t s h k r e =
      ground (arith, find_wallet-update lawful k id after t, s k r)

  pub insert-IsSolvent :
      (row : Wallet) (t : p.wallet.Table)
      → row.id ≡ p.wallet.fresh t
      → IsSolvent p t
      → row.balance ≡ pos 0
      → IsSolvent p (p.wallet.insert row t)
  insert-IsSolvent row t new s h k r e =
      ground (arith, find_wallet-insert lawful k row t new, s k r)

  pub insert-AllBooked :
      (row : Transaction) (t : p.transaction.Table)
      → row.id ≡ p.transaction.fresh t
      → AllBooked p t
      → IsBooked row
      → AllBooked p (p.transaction.insert row t)
  insert-AllBooked row t new b h k r e = elim (Bool-cases (row.id == k)) [
    | inl same ↦ subst IsBooked (ground (arith, find_transaction-insert lawful k row t new)) h
    | inr other ↦ b k r (ground (arith, find_transaction-insert lawful k row t new))
  ]

  pub update-AllBooked :
      (txn : Transaction) (f : Transaction → Transaction) (t : p.transaction.Table)
      → p.transaction.find_unique txn.id t ≡ some txn
      → ((r : Transaction) → (f r).id ≡ r.id)
      → AllBooked p t
      → IsBooked (f txn)
      → AllBooked p (p.transaction.update txn.id f t)
  update-AllBooked txn f t found same b h k r e = elim (Bool-cases (txn.id == k)) [
    | inl here ↦
        let here' : txn.id ≡ k = (==_iff txn.id k).0 here in
        let found' : p.transaction.find_unique k t ≡ some txn = rw (← here') found in
        subst IsBooked (ground (arith, found', find_transaction-update lawful k txn.id f t same)) h
    | inr other ↦ b k r (ground (arith, find_transaction-update lawful k txn.id f t same))
  ]

  pub insert-KeepsReviewed :
      (row : Transaction) (t : p.transaction.Table)
      → row.id ≡ p.transaction.fresh t
      → KeepsReviewed p t (p.transaction.insert row t)
  insert-KeepsReviewed row t new k r found reviewed = ground (
    arith,
    find_transaction-insert lawful k row t new,
    lawful.transaction.find_unique-fresh t,
    ap (λ n. p.transaction.find_unique n t) new,
  )

  pub update-KeepsReviewed :
      (txn : Transaction) (f : Transaction → Transaction) (t : p.transaction.Table)
      → p.transaction.find_unique txn.id t ≡ some txn
      → txn.status ≡ TransactionStatus.pending
      → ((r : Transaction) → (f r).id ≡ r.id)
      → KeepsReviewed p t (p.transaction.update txn.id f t)
  update-KeepsReviewed txn f t found pending same k r at reviewed =
      elim (Bool-cases (txn.id == k)) [
        | inl here ↦
            let here' : txn.id ≡ k = (==_iff txn.id k).0 here in
            let found' : p.transaction.find_unique k t ≡ some txn = rw (← here') found in
            absurd (reviewed (ground arith))
        | inr other ↦ ground (arith, find_transaction-update lawful k txn.id f t same)
      ]

  pub settled-IsBooked :
      {row : Transaction} {id : ℕ} {before after : ℤ}
      → IsSettled row id before after
      → Covered before after
      → pos 0 ≤ℤ before
      → IsBooked row
  settled-IsBooked {row} {id} {before} {after} s c h =
      IsBooked.settled before after
        (record {
          wallet_id = refl;
          status = s.status;
          balance_before = s.balance_before;
          balance_after = s.balance_after;
          moved = s.moved;
          reviewed = s.reviewed;
        })
        (c h)

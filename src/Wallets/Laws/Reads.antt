-- ===== src/Wallets/Laws/Reads.antt =====
-- What the reads of backend/src/wallets/wallets.service.ts show.
use mathlib.Core.Path.{subst}
use max_one.Prelude.{
  ℕ, ◌≡◌, List, some, arith, ◌==◌, ==_iff, All, All-map, Has, IsDescending, inl, inr, Option-cases,
}
use max_one.Exec.{ok}
use max_one.Schema.{Wallet, Transaction}
use max_one.Prisma.{desc}
use max_one.World.{Prisma, IsPrisma, World}
use max_one.Users.{AuthUser}
use max_one.Wallets.Access.{get_owned_wallet}
use max_one.Wallets.Reads.{list_transactions}

-- Only the owner of a wallet gets its history: every row of the ledger that has the id of the
-- wallet, no other, newest first.
pub list_transactions_complete :
    {p : Prisma} (id : ℕ) (actor : AuthUser) (w : World p) {rows : List Transaction}
    → IsPrisma p
    → (list_transactions id actor w).0 ≡ ok rows
    → (wallet : Wallet) × (p.wallet.find_unique id w.db.wallets ≡ some wallet)
      × (wallet.user_id ≡ actor.id)
      × All
          (λ r.
            (r.wallet_id ≡ id)
            × (p.transaction.find_unique (p.transaction.key r) w.db.transactions ≡ some r))
          rows
      × ((k : ℕ) (r : Transaction)
          → p.transaction.find_unique k w.db.transactions ≡ some r
          → r.wallet_id ≡ id
          → Has r rows)
      × IsDescending (λ r. r.created_at) rows
unfolding list_transactions get_owned_wallet
list_transactions_complete {p} id actor w {rows} lawful h =
    elim (Option-cases (p.wallet.find_unique id w.db.wallets)) [
      | inl missing ↦ absurd (ground arith)
      | inr (wallet, found) ↦
          let test = λ (r : Transaction). r.wallet_id == id in
          let listed = p.transaction.find_many test (desc (λ r. r.created_at)) w.db.transactions in
          let same : listed ≡ rows = ground arith in
          subst
            (λ l.
              (x : Wallet) × (p.wallet.find_unique id w.db.wallets ≡ some x)
              × (x.user_id ≡ actor.id)
              × All
                  (λ r.
                    (r.wallet_id ≡ id)
                    × (p.transaction.find_unique (p.transaction.key r) w.db.transactions ≡ some r))
                  l
              × ((k : ℕ) (r : Transaction)
                  → p.transaction.find_unique k w.db.transactions ≡ some r
                  → r.wallet_id ≡ id
                  → Has r l)
              × IsDescending (λ r. r.created_at) l)
            same
            (
              wallet,
              found,
              ground arith,
              All-map _ _ listed (λ r at. ((==_iff r.wallet_id id).0 at.0, at.1))
                  (lawful.transaction.find_many-All test (desc (λ r. r.created_at))
                    w.db.transactions),
              λ k r at own.
                  lawful.transaction.find_many-Has test (desc (λ x. x.created_at)) w.db.transactions
                    k r at ((==_iff r.wallet_id id).1 own),
              lawful.transaction.find_many-IsOrdered test (desc (λ r. r.created_at))
                  w.db.transactions,
            )
    ]

-- ===== src/Wallets/Laws/Reviews.antt =====
-- `approve` and `reject` of backend/src/wallets/wallets.service.ts: who may settle what, and that a
-- request is settled once.
use max_one.Prelude.{
  ℕ, ◌≡◌, ◌≢◌, refl, String, true, false, Option, some, arith, if◌then◌else◌, inl, inr,
  Option-cases,
}
use max_one.Prelude.Int.{◌+ℤ◌, ◌-ℤ◌, ◌≤ℤ◌}
use max_one.Exec.{ok}
use max_one.Schema.{Wallet, Transaction}
use max_one.World.{Prisma, IsPrisma, World, Host, Action}
use max_one.Users.{AuthUser, with_role}
use max_one.Wallets.Access.{
  is_withdrawal, approve_code, holds, get_settleable_type, assert_approve_permission,
}
use max_one.Wallets.Review.{is_pending, approve, reject, approve_row, reject_row, note_or}
use max_one.Wallets.Tables.{id-find_transaction, find_transaction-update}

pub data Decision : Type 0 where
  accept : Decision
  decline : Option String → Decision

-- The route of the decision.
abbrev pub review : {p : Prisma} → Host → ℕ → AuthUser → Decision → Action p Transaction
review host id actor accept = approve host id actor
review host id actor (decline note) = reject host id actor note

-- What stood in the database when a review went through.
pub record Reviewed {p : Prisma} (id : ℕ) (actor : AuthUser) (decision : Decision) (w : World p)
    : Type 0 where
  pub txn : Transaction
  pub found : p.transaction.find_unique id w.db.transactions ≡ some txn
  pub pending : is_pending txn.status ≡ true
  pub permitted :
      holds (approve_code txn.kind) (with_role w (p.user.find_unique actor.id w.db.users)) ≡ true

module _ {p : Prisma} (host : Host) (id : ℕ) (actor : AuthUser) (w : World p) where
  -- A review goes through only on a row that is there and pending, and only for an actor whose
  -- role in the database holds the permission that the type of the row asks for.
  pub review_permitted :
      (decision : Decision) {row : Transaction}
      → (review host id actor decision w).0 ≡ ok row
      → Reviewed id actor decision w
  unfolding approve reject get_settleable_type assert_approve_permission
  review_permitted accept h = elim (Option-cases (p.transaction.find_unique id w.db.transactions)) [
    | inl missing ↦ absurd (ground arith)
    | inr (txn, found) ↦ record {
      txn = txn;
      found = found;
      pending = ground arith;
      permitted = ground arith;
    }
  ]
  review_permitted (decline _) h =
      elim (Option-cases (p.transaction.find_unique id w.db.transactions)) [
        | inl missing ↦ absurd (ground arith)
        | inr (txn, found) ↦ record {
          txn = txn;
          found = found;
          pending = ground arith;
          permitted = ground arith;
        }
      ]

  -- An approval that goes through on a row and a wallet that are there returns the row with the
  -- balance before and after: a withdrawal takes its amount and was covered by the balance,
  -- anything else adds it.
  pub approve_covered :
      {row : Transaction}
      → (approve host id actor w).0 ≡ ok row
      → (wallet : Wallet) (txn : Transaction)
      → p.transaction.find_unique id w.db.transactions ≡ some txn
      → p.wallet.find_unique txn.wallet_id w.db.wallets ≡ some wallet
      → let after =
          if is_withdrawal txn.kind
          then wallet.balance -ℤ txn.amount
          else wallet.balance +ℤ txn.amount in
        (row ≡ approve_row host actor wallet.balance after txn)
        × (is_withdrawal txn.kind ≡ true → txn.amount ≤ℤ wallet.balance)
  unfolding approve get_settleable_type assert_approve_permission
  approve_covered h wallet txn found at = (ground arith, λ out. ground arith)

  -- An update of the row that was found, by its own id.
  find_updated :
      IsPrisma p
      → (f : Transaction → Transaction) (txn : Transaction) → ((r : Transaction) → (f r).id ≡ r.id)
      → p.transaction.find_unique id w.db.transactions ≡ some txn
      → p.transaction.find_unique id (p.transaction.update txn.id f w.db.transactions)
        ≡ some (f txn)
  find_updated lawful f txn same found = ground (
    arith,
    id-find_transaction lawful id w.db.transactions txn found,
    find_transaction-update lawful id txn.id f w.db.transactions same,
  )

  -- A review that goes through leaves its row in the table, no longer pending.
  row_after :
      IsPrisma p
      → (decision : Decision) {row : Transaction} → (review host id actor decision w).0 ≡ ok row
      → (p.transaction.find_unique id (review host id actor decision w).1.db.transactions
          ≡ some row)
        × (is_pending row.status ≡ false)
  unfolding approve reject get_settleable_type assert_approve_permission
  row_after lawful accept {row} h =
      elim (Option-cases (p.transaction.find_unique id w.db.transactions)) [
        | inl missing ↦ absurd (ground arith)
        | inr (txn, found) ↦ elim (Option-cases (p.wallet.find_unique txn.wallet_id w.db.wallets)) [
          | inl gone ↦ absurd (ground arith)
          | inr (wallet, at) ↦
              let after =
                if is_withdrawal txn.kind
                then wallet.balance -ℤ txn.amount
                else wallet.balance +ℤ txn.amount in
              let f = approve_row host actor wallet.balance after in
              let same = find_updated lawful f txn (λ r. refl) found in
              (ground (arith, same), ground arith)
        ]
      ]
  row_after lawful (decline note) {row} h =
      elim (Option-cases (p.transaction.find_unique id w.db.transactions)) [
        | inl missing ↦ absurd (ground arith)
        | inr (txn, found) ↦
            let f = reject_row host actor (note_or note txn.note) in
            let same = find_updated lawful f txn (λ r. refl) found in
            (ground (arith, same), ground arith)
      ]

-- After a review of a request went through, no second review of it does: neither an approval nor a
-- rejection, by any actor, at any time.
pub reviewed_once :
    {p : Prisma} (host host' : Host) (id : ℕ) (actor actor' : AuthUser) (decision second : Decision)
    (w : World p) {row : Transaction}
    → IsPrisma p
    → (review host id actor decision w).0 ≡ ok row
    → (other : Transaction)
    → (review host' id actor' second (review host id actor decision w).1).0 ≢ ok other
reviewed_once host host' id actor actor' decision second w lawful h other again =
    let (at, settled) = row_after host id actor w lawful decision h in
    let r = review_permitted host' id actor' (review host id actor decision w).1 second again in
    ground (arith, r.found, r.pending)

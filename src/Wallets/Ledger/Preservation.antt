-- ===== src/Wallets/Ledger/Preservation.antt =====
-- Each step of the wallet specification keeps the invariant and the rows that have been reviewed.
use mathlib.Core.Path.{subst⁻¹}
use max_one.World.{Prisma, IsPrisma, Db}
use max_one.Wallets.Ledger.{Step}
use max_one.Wallets.Ledger.Invariant.{
  IsBooked, IsSound, IsSolvent, AllBooked, KeepsReviewed, update-IsSolvent, insert-IsSolvent,
  insert-AllBooked, update-AllBooked, insert-KeepsReviewed, update-KeepsReviewed, settled-IsBooked,
}

module _ {p : Prisma} (lawful : IsPrisma p) {d d' : Db p} where
  wallets_after : Step d d' → IsSound d → IsSolvent p d'.wallets
  wallets_after (Step.idle ws ts) s = subst⁻¹ (IsSolvent p) ws s.solvent
  wallets_after (Step.opened row new zero ws ts) s =
      subst⁻¹ (IsSolvent p) ws (insert-IsSolvent lawful row d.wallets new s.solvent zero)
  wallets_after (Step.requested row new waits ws ts) s = subst⁻¹ (IsSolvent p) ws s.solvent
  wallets_after (Step.settled id wallet after row found new books covered ws ts) s =
      subst⁻¹ (IsSolvent p) ws
        (update-IsSolvent lawful id after d.wallets s.solvent (covered (s.solvent id wallet found)))
  wallets_after (Step.approved wallet after txn f found at pending same books covered ws ts) s =
      subst⁻¹ (IsSolvent p) ws (
        update-IsSolvent lawful txn.wallet_id after d.wallets s.solvent
          (covered (s.solvent txn.wallet_id wallet found)))
  wallets_after (Step.declined txn f at pending same books ws ts) s =
      subst⁻¹ (IsSolvent p) ws s.solvent
  wallets_after
        (Step.transferred from to from_after to_after out_row in_row ne from_at to_at new_out new_in
          out_books in_books out_covered in_covered ws ts)
        s =
      subst⁻¹ (IsSolvent p) ws (
        update-IsSolvent lawful to.id to_after _
          (update-IsSolvent lawful from.id from_after d.wallets s.solvent
            (out_covered (s.solvent from.id from from_at)))
          (in_covered (s.solvent to.id to to_at)))

  rows_after : Step d d' → IsSound d → AllBooked p d'.transactions
  rows_after (Step.idle ws ts) s = subst⁻¹ (AllBooked p) ts s.booked
  rows_after (Step.opened row new zero ws ts) s = subst⁻¹ (AllBooked p) ts s.booked
  rows_after (Step.requested row new waits ws ts) s =
      subst⁻¹ (AllBooked p) ts
        (insert-AllBooked lawful row d.transactions new s.booked (IsBooked.waiting waits))
  rows_after (Step.settled id wallet after row found new books covered ws ts) s =
      subst⁻¹ (AllBooked p) ts (
        insert-AllBooked lawful row d.transactions new s.booked
          (settled-IsBooked lawful books covered (s.solvent id wallet found)))
  rows_after (Step.approved wallet after txn f found at pending same books covered ws ts) s =
      subst⁻¹ (AllBooked p) ts (
        update-AllBooked lawful txn f d.transactions at same s.booked
          (settled-IsBooked lawful books covered (s.solvent txn.wallet_id wallet found)))
  rows_after (Step.declined txn f at pending same books ws ts) s =
      subst⁻¹ (AllBooked p) ts
        (update-AllBooked lawful txn f d.transactions at same s.booked (IsBooked.declined books))
  rows_after
        (Step.transferred from to from_after to_after out_row in_row ne from_at to_at new_out new_in
          out_books in_books out_covered in_covered ws ts)
        s =
      subst⁻¹ (AllBooked p) ts (
        insert-AllBooked lawful in_row _ new_in
          (insert-AllBooked lawful out_row d.transactions new_out s.booked
            (settled-IsBooked lawful out_books out_covered (s.solvent from.id from from_at)))
          (settled-IsBooked lawful in_books in_covered (s.solvent to.id to to_at)))

  pub Step-IsSound : Step d d' → IsSound d → IsSound d'
  Step-IsSound step s = record { solvent = wallets_after step s; booked = rows_after step s }

  pub Step-KeepsReviewed : Step d d' → KeepsReviewed p d.transactions d'.transactions
  Step-KeepsReviewed (Step.idle ws ts) =
      subst⁻¹ (KeepsReviewed p d.transactions) ts (λ k r found reviewed. found)
  Step-KeepsReviewed (Step.opened row new zero ws ts) =
      subst⁻¹ (KeepsReviewed p d.transactions) ts (λ k r found reviewed. found)
  Step-KeepsReviewed (Step.requested row new waits ws ts) =
      subst⁻¹ (KeepsReviewed p d.transactions) ts
        (insert-KeepsReviewed lawful row d.transactions new)
  Step-KeepsReviewed (Step.settled id wallet after row found new books covered ws ts) =
      subst⁻¹ (KeepsReviewed p d.transactions) ts
        (insert-KeepsReviewed lawful row d.transactions new)
  Step-KeepsReviewed (Step.approved wallet after txn f found at pending same books covered ws ts) =
      subst⁻¹ (KeepsReviewed p d.transactions) ts
        (update-KeepsReviewed lawful txn f d.transactions at pending same)
  Step-KeepsReviewed (Step.declined txn f at pending same books ws ts) =
      subst⁻¹ (KeepsReviewed p d.transactions) ts
        (update-KeepsReviewed lawful txn f d.transactions at pending same)
  Step-KeepsReviewed
        (Step.transferred from to from_after to_after out_row in_row ne from_at to_at new_out new_in
          out_books in_books out_covered in_covered ws ts) =
      subst⁻¹ (KeepsReviewed p d.transactions) ts λ k r found reviewed.
        insert-KeepsReviewed lawful in_row _ new_in k r
          (insert-KeepsReviewed lawful out_row d.transactions new_out k r found reviewed) reviewed

-- ===== src/Wallets/Laws/Settled.antt =====
-- What the transaction of `transfer` (backend/src/wallets/wallets.service.ts) leaves behind.
use max_one.Prelude.{ℕ, ◌≡◌, ◌≢◌, refl, false, Option, some, ◌∷◌, arith, ◌==◌, if◌then◌else◌}
use max_one.Prelude.Int.{◌+ℤ◌, ◌-ℤ◌, ltb_ℤ}
use max_one.Exec.{Result, ok}
use max_one.Schema.{Wallet, Transaction}
use max_one.World.{Prisma, IsPrisma, World, Host, wallet_row}
use max_one.Users.{AuthUser, SafeUser}
use max_one.Wallets.Settlement.{set_balance}
use max_one.Wallets.Transfer.{
  TransferDto, Conversion, settle_transfer, settle_and_announce, out_row, in_row, lock_order,
}
use max_one.Wallets.Tables.{find_wallet-update, id-find_wallet, find_transaction-insert}

-- The transaction of a transfer, from any state in which both wallets are there and differ, and the
-- first one covers the amount.
module _ {p : Prisma} (lawful : IsPrisma p) (host : Host) (id : ℕ) (actor : AuthUser)
    (dto : TransferDto) (c : Conversion) (sender : Option SafeUser) (w : World p) {from to : Wallet}
    (ne : dto.to_wallet_id ≢ id) (from_at : p.wallet.find_unique id w.db.wallets ≡ some from)
    (to_at : p.wallet.find_unique dto.to_wallet_id w.db.wallets ≡ some to)
    (enough : ltb_ℤ from.balance dto.amount ≡ false) where
  abbrev pub settled : Result Transaction × World p
  settled = settle_and_announce host id actor dto c sender w

  abbrev pub first_id : ℕ
  first_id = p.transaction.fresh w.db.transactions

  abbrev pub first_row : Transaction
  first_row = out_row host actor dto c from to first_id

  abbrev pub second_id : ℕ
  second_id = p.transaction.fresh (p.transaction.insert first_row w.db.transactions)

  pub settled_wallets :
      (j : ℕ)
      → p.wallet.find_unique j settled.1.db.wallets ≡ (
          if id == j
          then some (set_balance (from.balance -ℤ dto.amount) from)
          else if dto.to_wallet_id == j
          then some (set_balance (to.balance +ℤ c.credit) to)
          else p.wallet.find_unique j w.db.wallets)
  unfolding settle_and_announce settle_transfer
  settled_wallets j =
      let d = p.wallet.update from.id (set_balance (from.balance -ℤ dto.amount)) w.db.wallets in
      ground (
        arith,
        id-find_wallet lawful id w.db.wallets from from_at,
        id-find_wallet lawful dto.to_wallet_id w.db.wallets to to_at,
        find_wallet-update lawful j to.id (to.balance +ℤ c.credit) d,
        find_wallet-update lawful j from.id (from.balance -ℤ dto.amount) w.db.wallets,
      )

  pub settled_rows :
      (settled.0 ≡ ok first_row)
      × (p.transaction.find_unique first_id settled.1.db.transactions ≡ some first_row)
      × (p.transaction.find_unique second_id settled.1.db.transactions
          ≡ some (in_row host actor dto c from to second_id))
  unfolding settle_and_announce settle_transfer
  settled_rows =
      let t = p.transaction.insert first_row w.db.transactions in
      let second = in_row host actor dto c from to second_id in
      let unused = lawful.transaction.find_unique-fresh t in
      let one = find_transaction-insert lawful first_id first_row w.db.transactions refl in
      (
        ground arith,
        ground (arith, one, unused, find_transaction-insert lawful first_id second t refl),
        ground (arith, find_transaction-insert lawful second_id second t refl),
      )

  pub settled_locks :
      settled.1.locks
      ≡ wallet_row (lock_order id dto.to_wallet_id).1
        ∷ wallet_row (lock_order id dto.to_wallet_id).0
        ∷ w.locks
  unfolding settle_and_announce settle_transfer
  settled_locks = ground arith

-- ===== src/Wallets/Laws/Transfers.antt =====
-- `transfer` of backend/src/wallets/wallets.service.ts: where the money goes, the two halves of the
-- entry, and the order of the locks.
use max_one.Prelude.{
  ℕ, ◌<◌, ◌≡◌, ◌≢◌, refl, ap, ◌∙◌, some, ◌∷◌, arith, ◌==◌, if◌then◌else◌, ==_iff, ◌⊎◌,
}
use max_one.Prelude.Int.{◌+ℤ◌, ◌-ℤ◌, ◌≤ℤ◌, int_laws}
use max_one.Exec.{ok}
use max_one.Schema.{Wallet, Transaction}
use max_one.World.{Prisma, IsPrisma, World, Host, wallet_row}
use max_one.Users.{AuthUser}
use max_one.Wallets.Settlement.{set_balance}
use max_one.Wallets.Transfer.{
  TransferDto, Conversion, convert, settle_and_announce, transfer, out_row, in_row, lock_order,
}
use max_one.Wallets.Tables.{id-find_wallet}
use max_one.Wallets.Laws.Conversions.{
  sender_of, transfer_opened, db-convert, locks-convert, convert_same,
}
use max_one.Wallets.Laws.Settled.{settled_wallets, settled_rows, settled_locks}

-- A transfer by the owner of the first wallet to another wallet that is there, covered by the balance,
-- at a rate that could be had.
module _ {p : Prisma} (lawful : IsPrisma p) (host : Host) (id : ℕ) (actor : AuthUser)
    (dto : TransferDto) (w : World p) {from to : Wallet} {c : Conversion}
    (ne : dto.to_wallet_id ≢ id) (from_at : p.wallet.find_unique id w.db.wallets ≡ some from)
    (owned : from.user_id ≡ actor.id)
    (to_at : p.wallet.find_unique dto.to_wallet_id w.db.wallets ≡ some to)
    (got : (convert host from.currency to.currency dto.amount w).0 ≡ ok c)
    (enough : dto.amount ≤ℤ from.balance) where
  abbrev w₁ : World p
  w₁ = (convert host from.currency to.currency dto.amount w).1

  same_db : w₁.db ≡ w.db
  same_db = db-convert host from.currency to.currency dto.amount w

  opened :
      transfer host id actor dto w
      ≡ settle_and_announce host id actor dto c (sender_of actor.id w₁) w₁
  opened =
      transfer_opened host id actor dto w (ground arith) from_at
        ((==_iff from.user_id actor.id).1 owned) to_at got

  -- A transfer by the owner of the first wallet to another wallet that is there, covered by the
  -- balance, at a rate that could be had: the first wallet loses the amount, the other gains the
  -- credit, and no other wallet changes.
  pub transfer_moves :
      (j : ℕ)
      → p.wallet.find_unique j (transfer host id actor dto w).1.db.wallets ≡ (
          if id == j
          then some (set_balance (from.balance -ℤ dto.amount) from)
          else if dto.to_wallet_id == j
          then some (set_balance (to.balance +ℤ c.credit) to)
          else p.wallet.find_unique j w.db.wallets)
  transfer_moves j = rw opened (
      ground (
        arith,
        same_db,
        settled_wallets lawful host id actor dto c (sender_of actor.id w₁) w₁ ne
            (ap (λ d. p.wallet.find_unique id d.wallets) same_db ∙ from_at)
            (ap (λ d. p.wallet.find_unique dto.to_wallet_id d.wallets) same_db ∙ to_at)
            (ground arith) j,
      ))

  -- A transfer by the owner of the first wallet to another wallet that is there, covered by the
  -- balance, at a rate that could be had, returns the row of the debit to the sender, and the
  -- ledger holds both halves: they share the transfer id and the rate, each names the wallet of
  -- the other, the debit has the amount that was asked for and the credit what it converts to.
  pub transfer_entries :
      (out_id in_id : ℕ) × (out : Transaction) × (in' : Transaction) × ((transfer host id actor dto
          w).0
        ≡ ok out)
      × (p.transaction.find_unique out_id (transfer host id actor dto w).1.db.transactions
          ≡ some out)
      × (p.transaction.find_unique in_id (transfer host id actor dto w).1.db.transactions
          ≡ some in')
      × (out.transfer_id ≡ in'.transfer_id)
      × (out.exchange_rate ≡ in'.exchange_rate)
      × (out.wallet_id ≡ id)
      × (in'.wallet_id ≡ dto.to_wallet_id)
      × (out.counterparty_wallet_id ≡ some dto.to_wallet_id)
      × (in'.counterparty_wallet_id ≡ some id)
      × (out.amount ≡ dto.amount)
      × (in'.amount ≡ c.credit)
  transfer_entries =
      let sender = sender_of actor.id w₁ in
      let from_at' = ap (λ d. p.wallet.find_unique id d.wallets) same_db ∙ from_at in
      let to_at' = ap (λ d. p.wallet.find_unique dto.to_wallet_id d.wallets) same_db ∙ to_at in
      let rows =
        settled_rows lawful host id actor dto c sender w₁ ne from_at' to_at' (ground arith) in
      let from_id = id-find_wallet lawful id w.db.wallets from from_at in
      let to_id = id-find_wallet lawful dto.to_wallet_id w.db.wallets to to_at in
      (
        p.transaction.fresh w₁.db.transactions,
        p.transaction.fresh (
            p.transaction.insert
              (out_row host actor dto c from to (p.transaction.fresh w₁.db.transactions))
              w₁.db.transactions),
        out_row host actor dto c from to (p.transaction.fresh w₁.db.transactions),
        in_row host actor dto c from to (
            p.transaction.fresh (
              p.transaction.insert
                (out_row host actor dto c from to (p.transaction.fresh w₁.db.transactions))
                w₁.db.transactions)),
        rw opened rows.0,
        rw opened rows.1,
        rw opened rows.2,
        refl,
        refl,
        from_id,
        to_id,
        ap some to_id,
        ap some from_id,
        refl,
        refl,
      )

  -- A transfer by the owner of the first wallet to another wallet that is there, covered by the
  -- balance, at a rate that could be had, locks its two wallet rows in the order of their ids,
  -- whichever of them pays.
  pub transfer_locks :
      (low high : ℕ) × (low < high)
      × (((low ≡ id) × (high ≡ dto.to_wallet_id)) ⊎ ((low ≡ dto.to_wallet_id) × (high ≡ id)))
      × ((transfer host id actor dto w).1.locks ≡ wallet_row high ∷ wallet_row low ∷ w.locks)
  unfolding lock_order
  transfer_locks = (
    (lock_order id dto.to_wallet_id).0,
    (lock_order id dto.to_wallet_id).1,
    ground arith,
    ground arith,
    rw opened (
        settled_locks lawful host id actor dto c (sender_of actor.id w₁) w₁ ne
          (ap (λ d. p.wallet.find_unique id d.wallets) same_db ∙ from_at)
          (ap (λ d. p.wallet.find_unique dto.to_wallet_id d.wallets) same_db ∙ to_at) (ground arith)
        ∙ ap
            (λ l.
              wallet_row (lock_order id dto.to_wallet_id).1
              ∷ wallet_row (lock_order id dto.to_wallet_id).0
              ∷ l)
            (locks-convert host from.currency to.currency dto.amount w)),
  )

-- Between two different wallets of one currency, by the owner of the first and covered by its
-- balance, a transfer leaves the sum of the two balances as it was.
pub transfer_conserves :
    {p : Prisma} (host : Host) (id : ℕ) (actor : AuthUser) (dto : TransferDto) (w : World p)
    {from to : Wallet}
    → IsPrisma p
    → dto.to_wallet_id ≢ id
    → p.wallet.find_unique id w.db.wallets ≡ some from
    → from.user_id ≡ actor.id
    → p.wallet.find_unique dto.to_wallet_id w.db.wallets ≡ some to
    → from.currency ≡ to.currency
    → dto.amount ≤ℤ from.balance
    → let d = (transfer host id actor dto w).1.db in
      (from' to' : Wallet)
      → p.wallet.find_unique id d.wallets ≡ some from'
      → p.wallet.find_unique dto.to_wallet_id d.wallets ≡ some to'
      → from'.balance +ℤ to'.balance ≡ from.balance +ℤ to.balance
transfer_conserves host id actor dto w {from} {to} lawful ne from_at owned to_at same enough from'
      to' f t =
    let got = convert_same host from.currency to.currency dto.amount w same in
    let moves = transfer_moves lawful host id actor dto w ne from_at owned to_at got enough in
    let from_after : from'.balance ≡ from.balance -ℤ dto.amount = ground (arith, moves id) in
    let to_after : to'.balance ≡ to.balance +ℤ dto.amount =
      ground (arith, moves dto.to_wallet_id) in
    rw (from_after, to_after) (omega int_laws)

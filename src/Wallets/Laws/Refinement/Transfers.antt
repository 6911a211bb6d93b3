-- ===== src/Wallets/Laws/Refinement/Transfers.antt =====
-- The step of `transfer`.
use mathlib.Core.Path.{subst}
use max_one.Prelude.{
  ℕ, ◌≡◌, ◌≢◌, refl, sym, ◌∙◌, true, false, Option, some, arith, ◌==◌, inl, inr, Bool-cases,
  Option-cases,
}
use max_one.Prelude.Int.{ℤ, pos, ◌+ℤ◌, ◌-ℤ◌, ◌≤ℤ◌, ltb_ℤ, int_laws, -ℤ_nonneg}
use max_one.Exec.{ok, Result-cases}
use max_one.Schema
use max_one.Schema.{Wallet, Transaction, Decimal, TransactionType}
use max_one.World.{Prisma, IsPrisma, World, Host, in_transaction}
use max_one.Users.{AuthUser, SafeUser}
use max_one.Wallets.Access.{get_owned_wallet}
use max_one.Wallets.Transfer.{
  TransferDto, Conversion, convert, settle_transfer, settle_and_announce, transfer, out_row, in_row,
  transfer_row,
}
use max_one.Wallets.Laws.Conversions.{
  HasNonnegRates, db-convert, convert_nonneg, sender_of, transfer_opened,
}
use max_one.Wallets.Tables.{id-find_wallet, find_wallet_self}
use max_one.Wallets.Ledger.{Step, Step-same, IsSettled, Moved}

module _ {p : Prisma} (lawful : IsPrisma p) (host : Host) (id : ℕ) (actor : AuthUser)
    (dto : TransferDto) where
  transfer_row-IsSettled :
      (rate : Option Decimal) (kind : TransactionType) (wallet_id other : ℕ)
      (amount before after : ℤ) (k : ℕ)
      → Moved kind amount before after
      → IsSettled
          (transfer_row host actor dto.note rate kind wallet_id other amount before after k)
          wallet_id
          before
          after
  transfer_row-IsSettled rate kind wallet_id other amount before after k m = record {
    wallet_id = refl;
    status = refl;
    balance_before = refl;
    balance_after = refl;
    moved = m;
    reviewed = λ e. cc;
  }

  -- The transaction body, from any state.
  settle_transfer-Step :
      (c : Conversion) (sender : Option SafeUser) (w : World p)
      → dto.to_wallet_id ≢ id
      → pos 0 ≤ℤ c.credit
      → Step w.db (in_transaction (settle_transfer host id actor dto c sender) w).1.db
  unfolding settle_transfer
  settle_transfer-Step c sender w ne h =
      elim (Option-cases (p.wallet.find_unique id w.db.wallets)) [
        | inl missing ↦ Step.idle (ground arith) (ground arith)
        | inr (from, from_at) ↦
            elim (Option-cases (p.wallet.find_unique dto.to_wallet_id w.db.wallets)) [
              | inl missing ↦ Step.idle (ground arith) (ground arith)
              | inr (to, to_at) ↦ elim (Bool-cases (ltb_ℤ from.balance dto.amount)) [
                | inl short ↦ Step.idle (ground arith) (ground arith)
                | inr enough ↦
                    let k = p.transaction.fresh w.db.transactions in
                    let out = out_row host actor dto c from to k in
                    let k' = p.transaction.fresh (p.transaction.insert out w.db.transactions) in
                    Step.transferred from to (from.balance -ℤ dto.amount) (to.balance +ℤ c.credit)
                      out (in_row host actor dto c from to k')
                      (λ e. ne (
                        sym (id-find_wallet lawful dto.to_wallet_id w.db.wallets to to_at)
                        ∙ sym e
                        ∙ id-find_wallet lawful id w.db.wallets from from_at))
                      (find_wallet_self lawful id w.db.wallets from from_at)
                      (find_wallet_self lawful dto.to_wallet_id w.db.wallets to to_at) refl refl
                      (transfer_row-IsSettled c.exchange_rate Schema.transfer_out from.id to.id
                        dto.amount from.balance _ k refl)
                      (transfer_row-IsSettled c.exchange_rate Schema.transfer_in to.id from.id
                        c.credit to.balance _ k' refl)
                      (λ solvent. -ℤ_nonneg from.balance dto.amount enough)
                      (λ solvent. omega int_laws) (ground arith) (ground arith)
              ]
            ]
      ]

  settle_and_announce-Step :
      (c : Conversion) (sender : Option SafeUser) (w : World p)
      → dto.to_wallet_id ≢ id
      → pos 0 ≤ℤ c.credit
      → Step w.db (settle_and_announce host id actor dto c sender w).1.db
  unfolding settle_and_announce
  settle_and_announce-Step c sender w ne h =
      Step-same (settle_transfer-Step c sender w ne h) (ground arith) (ground arith)

  -- The transfer once the wallets are known and the rate has been fetched, in the state `w`.
  module _ (w : World p) {source dest : Wallet} (ne : (dto.to_wallet_id == id) ≡ false)
      (found : p.wallet.find_unique id w.db.wallets ≡ some source)
      (owned : (source.user_id == actor.id) ≡ true)
      (dest_at : p.wallet.find_unique dto.to_wallet_id w.db.wallets ≡ some dest) where
    converted_step :
        (c : Conversion)
        → (convert host source.currency dest.currency dto.amount w).0 ≡ ok c
        → pos 0 ≤ℤ c.credit
        → Step w.db (transfer host id actor dto w).1.db
    converted_step c got h =
        let w₁ = (convert host source.currency dest.currency dto.amount w).1 in
        let step = settle_and_announce-Step c (sender_of actor.id w₁) w₁ (ground arith) h in
        subst (λ d. Step d (transfer host id actor dto w).1.db)
          (db-convert host source.currency dest.currency dto.amount w)
          (rw (transfer_opened host id actor dto w ne found owned dest_at got) step)

  pub transfer-Step :
      (w : World p)
      → HasNonnegRates host
      → pos 0 ≤ℤ dto.amount
      → Step w.db (transfer host id actor dto w).1.db
  unfolding transfer get_owned_wallet
  transfer-Step w rates h = elim (Bool-cases (dto.to_wallet_id == id)) [
    | inl same ↦ Step.idle (ground arith) (ground arith)
    | inr other ↦ elim (Option-cases (p.wallet.find_unique id w.db.wallets)) [
      | inl missing ↦ Step.idle (ground arith) (ground arith)
      | inr (source, found) ↦ elim (Bool-cases (source.user_id == actor.id)) [
        | inr denied ↦ Step.idle (ground arith) (ground arith)
        | inl owned ↦ elim (Option-cases (p.wallet.find_unique dto.to_wallet_id w.db.wallets)) [
          | inl missing ↦ Step.idle (ground arith) (ground arith)
          | inr (dest, dest_at) ↦
              elim (Result-cases (convert host source.currency dest.currency dto.amount w).0) [
                | inl (c, got) ↦
                    converted_step w other found owned dest_at c got
                      (convert_nonneg host source.currency dest.currency dto.amount w rates h got)
                | inr (x, failed) ↦
                    Step.idle
                      (ground (arith, db-convert host source.currency dest.currency dto.amount w))
                      (ground (arith, db-convert host source.currency dest.currency dto.amount w))
              ]
        ]
      ]
    ]
  ]

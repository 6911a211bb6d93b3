-- ===== src/Wallets/Laws/Refinement/Funding.antt =====
-- The steps of the methods that create their ledger row themselves: `createWallet`, `deposit`,
-- `requestWithdrawal` and `adjust`.
use max_one.Prelude.{
  ℕ, ◌≡◌, ◌⊎◌, refl, String, Option, arith, ◌==◌, inl, inr, Bool-cases, Option-cases,
}
use max_one.Prelude.Int.{ℤ, pos, ◌+ℤ◌, ◌-ℤ◌, ◌≤ℤ◌, ltb_ℤ, int_laws}
use max_one.World.{Prisma, World, Host}
use max_one.Users.{AuthUser}
use max_one.Wallets.Access.{get_owned_wallet}
use max_one.Wallets.Deposit.{deposit, deposit_row}
use max_one.Wallets.Withdrawal.{request_withdrawal, withdrawal_row}
use max_one.Wallets.Adjustment.{Correction, credit, debit, corrected, adjust, adjustment_row}
use max_one.Wallets.Reads.{create_wallet, new_wallet}
use max_one.Wallets.Ledger.{Step, idle, opened, requested, settled, IsSettled}

module _ {p : Prisma} (host : Host) (actor : AuthUser) (w : World p) where
  pub create_wallet-Step :
      (name currency : String) → Step w.db (create_wallet host actor name currency w).1.db
  unfolding create_wallet
  create_wallet-Step name currency =
      opened (new_wallet host actor.id name currency (p.wallet.fresh w.db.wallets)) refl refl refl
        refl

  pub deposit-Step :
      (id : ℕ) (amount : ℤ) (note : Option String)
      → pos 0 ≤ℤ amount
      → Step w.db (deposit host id actor amount note w).1.db
  unfolding deposit get_owned_wallet
  deposit-Step id amount note h = elim (Option-cases (p.wallet.find_unique id w.db.wallets)) [
    | inl missing ↦ idle (ground arith) (ground arith)
    | inr (wallet, found) ↦ elim (Bool-cases (wallet.user_id == actor.id)) [
      | inl owned ↦
          settled id wallet (wallet.balance +ℤ amount)
            (deposit_row host actor amount note id wallet.balance
              (p.transaction.fresh w.db.transactions))
            found refl
            (record {
              wallet_id = refl;
              status = refl;
              balance_before = refl;
              balance_after = refl;
              moved = refl;
              reviewed = λ e. cc;
            })
            (λ solvent. omega int_laws) (ground arith) (ground arith)
      | inr other ↦ idle (ground arith) (ground arith)
    ]
  ]

  pub request_withdrawal-Step :
      (id : ℕ) (amount : ℤ) (note : Option String)
      → pos 0 ≤ℤ amount
      → Step w.db (request_withdrawal host id actor amount note w).1.db
  unfolding request_withdrawal get_owned_wallet
  request_withdrawal-Step id amount note h =
      elim (Option-cases (p.wallet.find_unique id w.db.wallets)) [
        | inl missing ↦ idle (ground arith) (ground arith)
        | inr (wallet, found) ↦ elim (Bool-cases (wallet.user_id == actor.id)) [
          | inl owned ↦ elim (Bool-cases (ltb_ℤ wallet.balance amount)) [
            | inl short ↦ idle (ground arith) (ground arith)
            | inr enough ↦
                requested
                  (withdrawal_row host actor amount note id (p.transaction.fresh w.db.transactions))
                  refl
                  (record {
                    status = refl;
                    balance_before = refl;
                    balance_after = refl;
                    reviewed = refl;
                    kind = tt;
                    amount = h;
                  })
                  (ground arith) (ground arith)
          ]
          | inr other ↦ idle (ground arith) (ground arith)
        ]
      ]

  corrected-Moved :
      (dto : Correction) (id : ℕ) (before : ℤ)
      → IsSettled
          (adjustment_row host actor dto id before (p.transaction.fresh w.db.transactions))
          id
          before
          (corrected dto.direction before dto.amount)
  corrected-Moved dto id before = record {
    wallet_id = refl;
    status = refl;
    balance_before = refl;
    balance_after = refl;
    moved =
        elim dto.direction
          as (λ d.
            (corrected d before dto.amount ≡ before +ℤ dto.amount)
            ⊎ (corrected d before dto.amount ≡ before -ℤ dto.amount)) [
              | credit ↦ inl refl
              | debit ↦ inr refl
            ];
    reviewed = λ e. cc;
  }

  pub adjust-Step : (id : ℕ) (dto : Correction) → Step w.db (adjust host id dto actor w).1.db
  unfolding adjust
  adjust-Step id dto = elim (Option-cases (p.wallet.find_unique id w.db.wallets)) [
    | inl missing ↦ idle (ground arith) (ground arith)
    | inr (wallet, found) ↦
        elim (Bool-cases (ltb_ℤ (corrected dto.direction wallet.balance dto.amount) (pos 0))) [
          | inl negative ↦ idle (ground arith) (ground arith)
          | inr covered ↦
              settled id wallet (corrected dto.direction wallet.balance dto.amount)
                (adjustment_row host actor dto id wallet.balance
                  (p.transaction.fresh w.db.transactions))
                found refl (corrected-Moved dto id wallet.balance) (λ solvent. ground arith)
                (ground arith) (ground arith)
        ]
  ]

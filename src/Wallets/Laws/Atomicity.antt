-- ===== src/Wallets/Laws/Atomicity.antt =====
-- A request that throws has changed no table and told nobody.
use max_one.Prelude.{
  ℕ, ◌≡◌, sym, ap, ◌∙◌, String, Option, arith, ◌==◌, inl, inr, Bool-cases, Option-cases,
}
use max_one.Prelude.Int.{ℤ}
use max_one.Exec.{Exception, err, Result-cases}
use max_one.World.{Prisma, World, Host}
use max_one.Users.{AuthUser, SafeUser}
use max_one.Wallets.Access.{get_owned_wallet, get_settleable_type, assert_approve_permission}
use max_one.Wallets.Deposit.{deposit}
use max_one.Wallets.Withdrawal.{request_withdrawal}
use max_one.Wallets.Review.{approve, reject}
use max_one.Wallets.Adjustment.{Correction, adjust}
use max_one.Wallets.Transfer.{
  TransferDto, Conversion, convert, settle_transfer, settle_and_announce, transfer,
}
use max_one.Wallets.Reads.{create_wallet}
use max_one.Wallets.Requests.{Request, handle}
use max_one.Wallets.Laws.Conversions.{db-convert, emissions-convert, sender_of, transfer_opened}

-- The database and the emissions are as they were.
pub record Untouched {p : Prisma} (w w' : World p) : Type 0 where
  pub db : w'.db ≡ w.db
  pub emissions : w'.emissions ≡ w.emissions

module _ {p : Prisma} (host : Host) (actor : AuthUser) where
  emissions-settle_transfer :
      (id : ℕ) (dto : TransferDto) (c : Conversion) (sender : Option SafeUser) (w : World p)
      → (settle_transfer host id actor dto c sender w).1.emissions ≡ w.emissions
  unfolding settle_transfer
  emissions-settle_transfer id dto c sender w = ground arith

  settle_and_announce_failed :
      (id : ℕ) (dto : TransferDto) (c : Conversion) (sender : Option SafeUser) (w : World p)
      {e : Exception}
      → (settle_and_announce host id actor dto c sender w).0 ≡ err e
      → Untouched w (settle_and_announce host id actor dto c sender w).1
  unfolding settle_and_announce
  settle_and_announce_failed id dto c sender w h =
      ground (arith, emissions-settle_transfer id dto c sender w)

module _ {p : Prisma} (host : Host) (actor : AuthUser) (w : World p) {e : Exception} where
  deposit_failed :
      (id : ℕ) (amount : ℤ) (note : Option String)
      → (deposit host id actor amount note w).0 ≡ err e
      → Untouched w (deposit host id actor amount note w).1
  unfolding deposit get_owned_wallet
  deposit_failed id amount _ h = ground arith

  request_withdrawal_failed :
      (id : ℕ) (amount : ℤ) (note : Option String)
      → (request_withdrawal host id actor amount note w).0 ≡ err e
      → Untouched w (request_withdrawal host id actor amount note w).1
  unfolding request_withdrawal get_owned_wallet
  request_withdrawal_failed id amount _ h = ground arith

  approve_failed :
      (id : ℕ) → (approve host id actor w).0 ≡ err e → Untouched w (approve host id actor w).1
  unfolding approve get_settleable_type assert_approve_permission
  approve_failed id h = ground arith

  reject_failed :
      (id : ℕ) (note : Option String)
      → (reject host id actor note w).0 ≡ err e
      → Untouched w (reject host id actor note w).1
  unfolding reject get_settleable_type assert_approve_permission
  reject_failed id _ h = ground arith

  adjust_failed :
      (id : ℕ) (dto : Correction)
      → (adjust host id dto actor w).0 ≡ err e
      → Untouched w (adjust host id dto actor w).1
  unfolding adjust
  adjust_failed id dto h = ground arith

  transfer_failed :
      (id : ℕ) (dto : TransferDto)
      → (transfer host id actor dto w).0 ≡ err e
      → Untouched w (transfer host id actor dto w).1
  unfolding transfer get_owned_wallet
  transfer_failed id dto h = elim (Bool-cases (dto.to_wallet_id == id)) [
    | inl same ↦ ground arith
    | inr other ↦ elim (Option-cases (p.wallet.find_unique id w.db.wallets)) [
      | inl missing ↦ ground arith
      | inr (source, found) ↦ elim (Bool-cases (source.user_id == actor.id)) [
        | inr denied ↦ ground arith
        | inl owned ↦ elim (Option-cases (p.wallet.find_unique dto.to_wallet_id w.db.wallets)) [
          | inl missing ↦ ground arith
          | inr (dest, dest_at) ↦
              elim (Result-cases (convert host source.currency dest.currency dto.amount w).0) [
                | inl (c, got) ↦
                    let w₁ = (convert host source.currency dest.currency dto.amount w).1 in
                    let opened =
                      transfer_opened host id actor dto w other found owned dest_at got in
                    let same =
                      settle_and_announce_failed host actor id dto c (sender_of actor.id w₁) w₁
                        (sym (ap (λ r. r.0) opened) ∙ h) in
                    rw opened (record {
                      db = same.db ∙ db-convert host source.currency dest.currency dto.amount w;
                      emissions =
                          same.emissions
                          ∙ emissions-convert host source.currency dest.currency dto.amount w;
                    })
                | inr (x, failed) ↦ ground (
                  arith,
                  db-convert host source.currency dest.currency dto.amount w,
                  emissions-convert host source.currency dest.currency dto.amount w,
                )
              ]
        ]
      ]
    ]
  ]

  -- Whatever is asked of the wallet service, a request that throws leaves every table of the
  -- database as it was and sends nothing to a socket or to the broker.
  pub handle_failed :
      (request : Request)
      → (handle host actor request w).0 ≡ err e
      → Untouched w (handle host actor request w).1
  unfolding handle create_wallet
  handle_failed (Request.create_wallet name currency) h = ground arith
  handle_failed (Request.deposit id amount note) h = ground (arith, deposit_failed id amount note)
  handle_failed (Request.withdraw id amount note) h =
      ground (arith, request_withdrawal_failed id amount note)
  handle_failed (Request.approve id) h = ground (arith, approve_failed id)
  handle_failed (Request.reject id note) h = ground (arith, reject_failed id note)
  handle_failed (Request.adjust id dto) h = ground (arith, adjust_failed id dto)
  handle_failed (Request.transfer id dto) h = ground (arith, transfer_failed id dto)

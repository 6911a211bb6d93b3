-- ===== src/Wallets/Laws/Conversions.antt =====
-- What `transfer` asks of the rates and of the users before its transaction opens: nothing is
-- written, but the cache.
use max_one.Prelude.{ℕ, ◌≡◌, String, Option, none, some, true, false, ◌==◌, arith, eq_iff, inl, inr}
use max_one.Prelude.Int.{ℤ, pos, ◌≤ℤ◌}
use max_one.Exec.{ok, err, Result-cases}
use max_one.Schema.{Decimal, Wallet}
use max_one.World.{Prisma, World, Host}
use max_one.Rates.{convert_minor, get_rate}
use max_one.Users.{AuthUser, SafeUser, find_by_id}
use max_one.Wallets.Access.{get_owned_wallet}
use max_one.Wallets.Transfer.{Conversion, TransferDto, convert, settle_and_announce, transfer}

-- A conversion at a provider's rate does not make a debt of an amount.
abbrev pub HasNonnegRates : Host → Type 0
HasNonnegRates host =
    (amount : ℤ) (rate : Decimal)
    → pos 0 ≤ℤ amount
    → pos 0 ≤ℤ convert_minor host.decimal amount rate

module _ {p : Prisma} (host : Host) where
  db-get_rate : (from to : String) (w : World p) → (get_rate host from to w).1.db ≡ w.db
  unfolding get_rate
  db-get_rate from to w = ground arith

  pub db-convert :
      (from to : String) (amount : ℤ) (w : World p) → (convert host from to amount w).1.db ≡ w.db
  unfolding convert
  db-convert from to amount w = ground (arith, db-get_rate from to w)

  emissions-get_rate :
      (from to : String) (w : World p) → (get_rate host from to w).1.emissions ≡ w.emissions
  unfolding get_rate
  emissions-get_rate from to w = ground arith

  pub emissions-convert :
      (from to : String) (amount : ℤ) (w : World p)
      → (convert host from to amount w).1.emissions ≡ w.emissions
  unfolding convert
  emissions-convert from to amount w = ground (arith, emissions-get_rate from to w)

  locks-get_rate : (from to : String) (w : World p) → (get_rate host from to w).1.locks ≡ w.locks
  unfolding get_rate
  locks-get_rate from to w = ground arith

  pub locks-convert :
      (from to : String) (amount : ℤ) (w : World p)
      → (convert host from to amount w).1.locks ≡ w.locks
  unfolding convert
  locks-convert from to amount w = ground (arith, locks-get_rate from to w)

  pub convert_same :
      (from to : String) (amount : ℤ) (w : World p)
      → from ≡ to
      → (convert host from to amount w).0 ≡ ok (record { credit = amount; exchange_rate = none })
  unfolding convert
  convert_same from to amount w same = ground (arith, eq_iff from to)

  pub convert_nonneg :
      (from to : String) (amount : ℤ) (w : World p) {c : Conversion}
      → HasNonnegRates host
      → pos 0 ≤ℤ amount
      → (convert host from to amount w).0 ≡ ok c
      → pos 0 ≤ℤ c.credit
  unfolding convert
  convert_nonneg from to amount w {c} rates h e = elim (Result-cases (get_rate host from to w).0) [
    | inl (rate, got) ↦ ground (arith, rates amount rate h)
    | inr (x, failed) ↦ ground arith
  ]

pub find_by_id_reads : {p : Prisma} (id : ℕ) (w : World p) → (find_by_id id w).1 ≡ w
unfolding find_by_id
find_by_id_reads id w = ground arith

-- The user whom the receiver is told of.
abbrev pub sender_of : {p : Prisma} → ℕ → World p → Option SafeUser
sender_of id w = elim (find_by_id id w).0 [ ok user ↦ some user | err _ ↦ none ]

-- What stands before the transaction of a transfer between two wallets that are there, by the owner
-- of the first.
pub transfer_opened :
    {p : Prisma} (host : Host) (id : ℕ) (actor : AuthUser) (dto : TransferDto) (w : World p)
    {source dest : Wallet} {c : Conversion}
    → (dto.to_wallet_id == id) ≡ false
    → p.wallet.find_unique id w.db.wallets ≡ some source
    → (source.user_id == actor.id) ≡ true
    → p.wallet.find_unique dto.to_wallet_id w.db.wallets ≡ some dest
    → (convert host source.currency dest.currency dto.amount w).0 ≡ ok c
    → let w₁ = (convert host source.currency dest.currency dto.amount w).1 in
      transfer host id actor dto w
      ≡ settle_and_announce host id actor dto c (sender_of actor.id w₁) w₁
unfolding transfer get_owned_wallet
transfer_opened host id actor dto w {source} {dest} {c} ne found owned dest_at got =
    let w₁ = (convert host source.currency dest.currency dto.amount w).1 in
    elim (Result-cases (find_by_id actor.id w₁).0) [
      | inl (user, known) ↦ ground (arith, find_by_id_reads actor.id w₁)
      | inr (x, unknown) ↦ ground (arith, find_by_id_reads actor.id w₁)
    ]

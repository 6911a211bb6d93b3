-- ===== src/Wallets/Reads.antt =====
-- The methods of backend/src/wallets/wallets.service.ts that open a wallet or read. `skip`, `take`,
-- the search `where` and the `sort` of `listAllWallets` are the client's and are not modelled.
use max_one.Prelude.{ℕ, String, ◌<>◌, Bool, Option, List, head?, map, option_map, ◌==◌}
use max_one.Prelude.Int.{ℤ, pos}
use max_one.Exec.{gets, ok, not_found, pure, or_throw, ◌>>=◌, ◌>>◌}
use max_one.Schema.{Wallet, Transaction}
use max_one.Prisma.{OrderBy, asc, desc}
use max_one.World.{World, Prisma, Host, Action, find_wallet, create_wallet_row}
use max_one.Users.{AuthUser, find_by_handle}
use max_one.Wallets.Access.{get_owned_wallet}
use max_one.Wallets.Review.{is_pending}

abbrev pub new_wallet : Host → ℕ → String → String → ℕ → Wallet
new_wallet host user_id name currency id = record {
  id = id;
  user_id = user_id;
  name = name;
  currency = currency;
  balance = pos 0;
  created_at = host.now;
}

-- What `findRecipientByHandle` reveals.
pub record Recipient : Type 0 where
  pub wallet_id : ℕ
  pub currency : String
  pub recipient_name : String

-- `STAFF_WALLET_SELECT`
pub record StaffWallet : Type 0 where
  pub id : ℕ
  pub name : String
  pub currency : String
  pub balance : ℤ
  pub created_at : ℕ
  -- `user.email`, where the foreign key finds the user
  pub email : Option String

-- What `listPending` adds to a row of the ledger: the wallet and its owner.
pub record WalletInfo : Type 0 where
  pub id : ℕ
  pub name : String
  pub currency : String
  pub email : Option String

pub record PendingEntry : Type 0 where
  pub row : Transaction
  pub wallet : Option WalletInfo

abbrev pub staff_wallet : Option String → Wallet → StaffWallet
staff_wallet email wallet = record {
  id = wallet.id;
  name = wallet.name;
  currency = wallet.currency;
  balance = wallet.balance;
  created_at = wallet.created_at;
  email = email;
}

abbrev pub wallet_info : Option String → Wallet → WalletInfo
wallet_info email wallet = record {
  id = wallet.id;
  name = wallet.name;
  currency = wallet.currency;
  email = email;
}

module _ {p : Prisma} where
  unfoldable pub create_wallet : Host → AuthUser → String → String → Action p Wallet
  create_wallet host actor name currency =
      create_wallet_row (new_wallet host actor.id name currency)

  abbrev find_wallets : (Wallet → Bool) → OrderBy Wallet → Action p (List Wallet)
  find_wallets test order w = (ok (p.wallet.find_many test order w.db.wallets), w)

  abbrev find_transactions :
      (Transaction → Bool) → OrderBy Transaction → Action p (List Transaction)
  find_transactions test order w = (ok (p.transaction.find_many test order w.db.transactions), w)

  unfoldable pub list_wallets : AuthUser → Action p (List Wallet)
  list_wallets actor = find_wallets (λ r. r.user_id == actor.id) (asc (λ r. r.created_at))

  unfoldable pub find_recipient_by_handle : (String → String) → String → Action p Recipient
  find_recipient_by_handle to_lower_case handle = do
    found ← find_by_handle (to_lower_case handle)
    user ← or_throw (not_found "Account not found") found
    wallets ← find_wallets (λ r. r.user_id == user.id) (asc (λ r. r.created_at))
    wallet ← or_throw (not_found "Wallet not found") (head? wallets)
    pure (record {
      wallet_id = wallet.id;
      currency = wallet.currency;
      recipient_name = user.first_name <> " " <> user.last_name;
    })

  unfoldable pub get_wallet : ℕ → AuthUser → Action p Wallet
  unfolding get_owned_wallet
  get_wallet id actor = get_owned_wallet id actor

  unfoldable pub list_transactions : ℕ → AuthUser → Action p (List Transaction)
  unfolding get_owned_wallet
  list_transactions id actor = do
    get_owned_wallet id actor
    find_transactions (λ r. r.wallet_id == id) (desc (λ r. r.created_at))

  -- `user: { select: { email: true } }`
  abbrev email_of : World p → Wallet → Option String
  email_of w wallet = option_map (λ u. u.email) (p.user.find_unique wallet.user_id w.db.users)

  -- a row with its `include`
  abbrev pub pending_entry : World p → Transaction → PendingEntry
  pending_entry w row = record {
    row = row;
    wallet =
        option_map (λ r. wallet_info (email_of w r) r)
          (p.wallet.find_unique row.wallet_id w.db.wallets);
  }

  unfoldable pub list_pending : Action p (List PendingEntry)
  list_pending w =
      let rows =
        p.transaction.find_many (λ r. is_pending r.status) (asc (λ r. r.created_at))
          w.db.transactions in
      (ok (map (pending_entry w) rows), w)

  unfoldable pub get_wallet_for_staff : ℕ → Action p StaffWallet
  get_wallet_for_staff id = do
    found ← find_wallet id
    wallet ← or_throw (not_found "Wallet not found") found
    gets (λ w. staff_wallet (email_of w wallet) wallet)

  unfoldable pub list_transactions_for_staff : ℕ → Action p (List Transaction)
  unfolding get_wallet_for_staff
  list_transactions_for_staff id = do
    get_wallet_for_staff id
    find_transactions (λ r. r.wallet_id == id) (desc (λ r. r.created_at))

-- ===== src/Wallets/Settlement.antt =====
-- The pieces that the money-moving methods of wallets.service.ts share: the wallet read under its
-- lock, the balance written back, and what the owner is told after the commit.
use max_one.Prelude.{ℕ}
use max_one.Prelude.Int.{ℤ}
use max_one.Exec.{not_found, or_throw, ◌>>=◌, ◌>>◌}
use max_one.Schema.{Wallet, Transaction, NotificationPushEvent}
use max_one.World.{Prisma, Action, BalancePayload, lock, wallet_row, find_wallet}
use max_one.Notifications.{emit_balance}

abbrev pub set_balance : ℤ → Wallet → Wallet
set_balance after wallet = record wallet { balance = after }

-- The `owner` that a transaction body returns.
pub record Owner : Type 0 where
  pub user_id : ℕ
  pub payload : BalancePayload

abbrev pub owner_of : Wallet → ℤ → Owner
owner_of wallet after = record {
  user_id = wallet.user_id;
  payload = record { wallet_id = wallet.id; currency = wallet.currency; balance = after };
}

-- What a transaction body that settles one wallet returns.
pub record Settled : Type 0 where
  pub row : Transaction
  pub owner : Owner
  pub event : NotificationPushEvent

module _ {p : Prisma} where
  -- `SELECT ... FOR UPDATE`, then `findUnique`
  abbrev pub lock_wallet : ℕ → Action p Wallet
  lock_wallet id = do
    lock (wallet_row id)
    wallet ← find_wallet id
    or_throw (not_found "Wallet not found") wallet

  abbrev pub announce : Owner → Action p (Unit {0})
  announce owner = emit_balance owner.user_id owner.payload

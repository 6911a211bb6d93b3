-- ===== src/Tests.antt =====
-- A database in memory with a few rows, a host, and actors, on which the theorems are tried.
mod Funding
mod Moves
mod Reviewing
mod Messages
mod Sessions
mod Retries
mod Callers
mod Watching
mod Broker
mod Browsing
mod Typing
mod Viewing
mod Operating
mod Ceremonies
mod Trading
mod Paying
use max_one.Prelude.{
  ℕ, zero, suc, refl, String, ◌≡◌, ◌≢◌, true, false, none, some, List, [], ◌∷◌, ◌==◌, arith,
}
use max_one.Prelude.Int.{ℤ, pos, ◌≤ℤ◌}
use max_one.Schema.{
  User, UserStatus, Role, Wallet, Transaction, TransactionType, TransactionStatus, Decimal,
  OutboxEvent,
}
use max_one.Prisma.Memory.{memory, memory-IsLawful}
use max_one.World.{Prisma, IsPrisma, World, Host, DecimalJs}
use max_one.Users.{AuthUser}
use max_one.Wallets.Requests.{Request, Call}
use max_one.Wallets.Ledger.{IsWaiting}
use max_one.Wallets.Ledger.Invariant.{IsBooked, IsSound}

abbrev pub prisma : Prisma
prisma = record {
  user = memory (λ r. r.id);
  role = memory (λ r. r.id);
  refresh_token = memory (λ r. r.id);
  wallet = memory (λ r. r.id);
  transaction = memory (λ r. r.id);
  audit_log = memory (λ r. r.id);
  outbox_event = memory (λ r. r.id);
  idempotency_key = memory (λ r. r.id);
  price_alert = memory (λ r. r.id);
}

pub prisma-IsPrisma : IsPrisma prisma
prisma-IsPrisma = record {
  user = memory-IsLawful (λ r. r.id);
  role = memory-IsLawful (λ r. r.id);
  refresh_token = memory-IsLawful (λ r. r.id);
  wallet = memory-IsLawful (λ r. r.id);
  transaction = memory-IsLawful (λ r. r.id);
  outbox_event = memory-IsLawful (λ r. r.id);
  idempotency_key = memory-IsLawful (λ r. r.id);
  price_alert = memory-IsLawful (λ r. r.id);
  key-user = λ r. refl;
  key-refresh_token = λ r. refl;
  key-wallet = λ r. refl;
  key-transaction = λ r. refl;
  key-outbox_event = λ r. refl;
  key-idempotency_key = λ r. refl;
  key-price_alert = λ r. refl;
}

-- Decimals of scale 0 alone: a stand-in for decimal.js.
abbrev pub whole : DecimalJs
whole = record {
  of_number = λ n. record { unscaled = n; scale = 0 };
  of_string = λ s. record { unscaled = pos 1; scale = 0 };
  to_string = λ d. "1";
  to_number = λ d. d.unscaled;
  times = λ a b. a;
  round_half_even = λ d. d;
}

-- The broker takes every message, the FX provider answers 1.
abbrev pub host : Host
host = record {
  now = 5000;
  event_uuid = 0;
  transfer_uuid = 9;
  request_id = "req";
  ip_address = none;
  user_agent = none;
  channel = some (λ e. some true);
  redis_up = true;
  latest = λ from to. some (some (record { unscaled = pos 1; scale = 0 }));
  decimal = whole;
}

abbrev pub customer_role : Role
customer_role = record { id = 0; name = "customer"; permissions = [] }

abbrev pub finance_role : Role
finance_role = record {
  id = 1;
  name = "finance";
  permissions = "deposit.approve" ∷ "withdrawal.approve" ∷ [];
}

abbrev pub user_row : ℕ → String → ℕ → User
user_row id handle role_id = record {
  id = id;
  email = handle;
  handle = some handle;
  password_hash = "hash";
  first_name = handle;
  last_name = handle;
  status = UserStatus.active;
  totp_secret = none;
  totp_enabled = false;
  totp_recovery_hashes = [];
  role_id = role_id;
}

abbrev pub alice : AuthUser
alice = record { id = 0; email = "alice"; role = "customer"; totp_enabled = false }

abbrev pub carol : AuthUser
carol = record { id = 2; email = "carol"; role = "finance"; totp_enabled = false }

abbrev pub wallet_of : ℕ → ℕ → ℤ → Wallet
wallet_of id user_id balance = record {
  id = id;
  user_id = user_id;
  name = "My Wallet";
  currency = "USD";
  balance = balance;
  created_at = 1;
}

-- A withdrawal of 300 from the first wallet, which waits for its review.
abbrev pub waiting_row : Transaction
waiting_row = record {
  id = 0;
  wallet_id = 0;
  kind = TransactionType.withdrawal;
  amount = pos 300;
  balance_before = none;
  balance_after = none;
  status = TransactionStatus.pending;
  requested_by = 0;
  reviewed_by = none;
  reviewed_at = none;
  note = none;
  transfer_id = none;
  counterparty_wallet_id = none;
  exchange_rate = none;
  created_at = 2;
}

abbrev pub world : World prisma
world = record {
  db = record {
    users =
        some (user_row 0 "alice" 0) ∷ some (user_row 1 "bob" 0) ∷ some (user_row 2 "carol" 1) ∷ [];
    roles = some customer_role ∷ some finance_role ∷ [];
    refresh_tokens = [];
    wallets = some (wallet_of 0 0 (pos 1000)) ∷ some (wallet_of 1 1 (pos 50)) ∷ [];
    transactions = some waiting_row ∷ [];
    audit_logs = [];
    outbox_events = [];
    idempotency_keys = [];
    price_alerts = [];
  };
  cache = λ key. none;
  emissions = [];
  locks = [];
  relaying = false;
}

pub world-IsSound : IsSound world.db
world-IsSound = record { solvent = solvent; booked = booked }
  where
    solvent :
        (k : ℕ) (r : Wallet)
        → prisma.wallet.find_unique k world.db.wallets ≡ some r
        → pos 0 ≤ℤ r.balance
    solvent zero r h = ground arith
    solvent (suc zero) r h = ground arith
    solvent (suc (suc k)) r h = ground arith

    booked :
        (k : ℕ) (r : Transaction)
        → prisma.transaction.find_unique k world.db.transactions ≡ some r
        → IsBooked r
    booked zero r h = ground arith
    booked (suc k) r h = ground arith

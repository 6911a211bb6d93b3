-- ===== src/World.antt =====
-- What the services act on: the database's tables, Redis, and the messages that have left the
-- process. `$transaction` (backend/src/**/*.service.ts) undoes the database alone.
use max_one.Prelude.{ℕ, ◌≡◌, String, Bool, Option, List, ◌∷◌}
use max_one.Prelude.Int.{ℤ}
use max_one.Exec.{Exec, ok, err}
use max_one.Prisma.{Delegate, IsLawful}
use max_one.Schema.{
  User, Role, RefreshToken, Wallet, Transaction, AuditLog, OutboxEvent, IdempotencyKey, PriceAlert,
  NotificationPayload, NotificationPushEvent, Decimal,
}

-- The Prisma client: a delegate for each model.
pub record Prisma : Type 1 where
  pub user : Delegate User
  pub role : Delegate Role
  pub refresh_token : Delegate RefreshToken
  pub wallet : Delegate Wallet
  pub transaction : Delegate Transaction
  pub audit_log : Delegate AuditLog
  pub outbox_event : Delegate OutboxEvent
  pub idempotency_key : Delegate IdempotencyKey
  pub price_alert : Delegate PriceAlert

-- The delegates behave, and each reads the column `id`.
pub record IsPrisma (p : Prisma) : Type 0 where
  pub user : IsLawful p.user
  pub role : IsLawful p.role
  pub refresh_token : IsLawful p.refresh_token
  pub wallet : IsLawful p.wallet
  pub transaction : IsLawful p.transaction
  pub outbox_event : IsLawful p.outbox_event
  pub idempotency_key : IsLawful p.idempotency_key
  pub price_alert : IsLawful p.price_alert
  pub key-user : (r : User) → p.user.key r ≡ r.id
  pub key-refresh_token : (r : RefreshToken) → p.refresh_token.key r ≡ r.id
  pub key-wallet : (r : Wallet) → p.wallet.key r ≡ r.id
  pub key-transaction : (r : Transaction) → p.transaction.key r ≡ r.id
  pub key-outbox_event : (r : OutboxEvent) → p.outbox_event.key r ≡ r.id
  pub key-idempotency_key : (r : IdempotencyKey) → p.idempotency_key.key r ≡ r.id
  pub key-price_alert : (r : PriceAlert) → p.price_alert.key r ≡ r.id

pub record Db (p : Prisma) : Type 0 where
  pub users : p.user.Table
  pub roles : p.role.Table
  pub refresh_tokens : p.refresh_token.Table
  pub wallets : p.wallet.Table
  pub transactions : p.transaction.Table
  pub audit_logs : p.audit_log.Table
  pub outbox_events : p.outbox_event.Table
  pub idempotency_keys : p.idempotency_key.Table
  pub price_alerts : p.price_alert.Table

-- `BalancePayload` of realtime/realtime.service.ts
pub record BalancePayload : Type 0 where
  pub wallet_id : ℕ
  pub currency : String
  pub balance : ℤ

-- What has left the process, to a user's socket room or to the broker's exchange.
pub data Emission : Type 0 where
  balance_updated : ℕ → BalancePayload → Emission
  notification : ℕ → NotificationPayload → Emission
  published : String → NotificationPushEvent → Emission

-- The rows that `SELECT ... FOR UPDATE` locks.
pub data Lock : Type 0 where
  wallet_row transaction_row : ℕ → Lock

-- `set(key, value, 'EX', ttl)`: the value, and the time at which Redis drops it.
pub record CacheEntry : Type 0 where
  pub value : String
  pub expires_at : ℕ

pub record World (p : Prisma) : Type 0 where
  pub db : Db p
  -- what Redis holds under each key
  pub cache : String → Option CacheEntry
  -- newest first
  pub emissions : List Emission
  -- the locks that have been asked for, newest first
  pub locks : List Lock
  -- `OutboxService.relaying`
  pub relaying : Bool

-- The calls of decimal.js.
pub record DecimalJs : Type 0 where
  pub of_number : ℤ → Decimal
  pub of_string : String → Decimal
  pub to_string : Decimal → String
  pub to_number : Decimal → ℤ
  pub times : Decimal → Decimal → Decimal
  -- `toDecimalPlaces(0, ROUND_HALF_EVEN)`
  pub round_half_even : Decimal → Decimal

-- What a request reads from its surroundings: the clock, the values that `randomUUID` returns to
-- it, the audit context of the HTTP edge, and the outcomes of calls to other services.
pub record Host : Type 0 where
  pub now : ℕ
  pub event_uuid : ℕ
  pub transfer_uuid : ℕ
  pub request_id : String
  pub ip_address : Option String
  pub user_agent : Option String
  -- no channel, or what `channel.publish` returns; none within is a throw
  pub channel : Option (NotificationPushEvent → Option Bool)
  pub redis_up : Bool
  -- what the FX provider answers for a pair of currencies; none is a failed call
  pub latest : String → String → Option (Option Decimal)
  pub decimal : DecimalJs

module _ (p : Prisma) where
  abbrev pub Action : Type 0 → Type 0
  Action A = Exec (World p) A

module _ {p : Prisma} where
  -- `this.prisma.$transaction(body)`: a throw rolls the tables back.
  abbrev pub in_transaction : {A : Type 0} → Action p A → Action p A
  in_transaction body w =
      let (r, w') = body w in
      elim r [ ok a ↦ (ok a, w') | err e ↦ (err e, record w' { db = w.db }) ]

  -- `SELECT id ... FOR UPDATE`
  abbrev pub lock : Lock → Action p (Unit {0})
  lock l w = (ok tt, record w { locks = l ∷ w.locks })

  abbrev pub emit : Emission → Action p (Unit {0})
  emit e w = (ok tt, record w { emissions = e ∷ w.emissions })

  abbrev pub find_wallet : ℕ → Action p (Option Wallet)
  find_wallet id w = (ok (p.wallet.find_unique id w.db.wallets), w)

  abbrev pub find_transaction : ℕ → Action p (Option Transaction)
  find_transaction id w = (ok (p.transaction.find_unique id w.db.transactions), w)

  abbrev pub update_wallet : ℕ → (Wallet → Wallet) → Action p (Unit {0})
  update_wallet id f w =
      (ok tt, record w { db = record w.db { wallets = p.wallet.update id f w.db.wallets } })

  -- `create` returns the row, whose id the database chooses.
  abbrev pub create_wallet_row : (ℕ → Wallet) → Action p Wallet
  create_wallet_row make w =
      let row = make (p.wallet.fresh w.db.wallets) in
      (ok row, record w { db = record w.db { wallets = p.wallet.insert row w.db.wallets } })

  abbrev pub create_transaction : (ℕ → Transaction) → Action p Transaction
  create_transaction make w =
      let row = make (p.transaction.fresh w.db.transactions) in
      (
        ok row,
        record w { db = record w.db { transactions = p.transaction.insert row w.db.transactions } },
      )

  -- `update` returns the row as it is afterwards.
  abbrev pub update_transaction : Transaction → (Transaction → Transaction) → Action p Transaction
  update_transaction row f w = (
    ok (f row),
    record w {
      db = record w.db { transactions = p.transaction.update row.id f w.db.transactions };
    },
  )

-- ===== src/Schema.antt =====
-- The rows of backend/prisma/schema.prisma. Identifiers (uuid strings in the source) are only
-- compared and ordered, so they are numbers; `DateTime` is a number of milliseconds; money columns
-- are signed integers of minor units. A column that a service names by a closed set of strings is
-- a data type.
use max_one.Prelude.{ℕ, String, Bool, Option, List}
use max_one.Prelude.Int.{ℤ}

pub data UserStatus : Type 0 where
  active suspended : UserStatus

pub record Role : Type 0 where
  pub id : ℕ
  pub name : String
  -- the codes of the role's permissions
  pub permissions : List String

pub record User : Type 0 where
  pub id : ℕ
  pub email : String
  pub handle : Option String
  pub password_hash : String
  pub first_name : String
  pub last_name : String
  pub status : UserStatus
  pub totp_secret : Option String
  pub totp_enabled : Bool
  pub totp_recovery_hashes : List String
  pub role_id : ℕ

pub record RefreshToken : Type 0 where
  pub id : ℕ
  pub token_hash : String
  pub family_id : ℕ
  pub used_at : Option ℕ
  pub user_id : ℕ
  pub expires_at : ℕ

pub record Wallet : Type 0 where
  pub id : ℕ
  pub user_id : ℕ
  pub name : String
  pub currency : String
  pub balance : ℤ
  pub created_at : ℕ

pub data TransactionType : Type 0 where
  deposit withdrawal adjustment transfer_out transfer_in : TransactionType

pub data TransactionStatus : Type 0 where
  pending approved rejected : TransactionStatus

-- A value of `Prisma.Decimal`: `unscaled` / 10 ^ `scale`.
pub record Decimal : Type 0 where
  pub unscaled : ℤ
  pub scale : ℕ

pub record Transaction : Type 0 where
  pub id : ℕ
  pub wallet_id : ℕ
  pub kind : TransactionType
  pub amount : ℤ
  pub balance_before : Option ℤ
  pub balance_after : Option ℤ
  pub status : TransactionStatus
  pub requested_by : ℕ
  pub reviewed_by : Option ℕ
  pub reviewed_at : Option ℕ
  pub note : Option String
  pub transfer_id : Option ℕ
  pub counterparty_wallet_id : Option ℕ
  pub exchange_rate : Option Decimal
  pub created_at : ℕ

-- The values of the `Json` columns.
pub data Json : Type 0 where
  null : Json
  number : ℤ → Json
  id : ℕ → Json
  text : String → Json

pub data AuditAction : Type 0 where
  deposit_settle deposit_approve deposit_reject withdrawal_approve withdrawal_reject : AuditAction
  wallet_adjust wallet_transfer user_status_change user_role_change : AuditAction

pub data AuditEntityType : Type 0 where
  transaction wallet user : AuditEntityType

pub record AuditLog : Type 0 where
  pub id : ℕ
  pub actor_user_id : ℕ
  pub action : AuditAction
  pub entity_type : AuditEntityType
  pub entity_id : ℕ
  pub old_value : List (String × Json)
  pub new_value : List (String × Json)
  pub ip_address : Option String
  pub user_agent : Option String
  pub created_at : ℕ

-- `NotificationPayload` of realtime.service.ts
pub record NotificationPayload : Type 0 where
  pub title : String
  pub body : String
  pub tag : ℕ
  pub url : String

-- `NotificationPushEvent` of queue/events.ts; its `type` is the one routing key
pub record NotificationPushEvent : Type 0 where
  pub id : ℕ
  pub occurred_at : ℕ
  pub user_id : ℕ
  pub payload : NotificationPayload
  pub request_id : Option String

pub data OutboxStatus : Type 0 where
  pending published : OutboxStatus

pub record OutboxEvent : Type 0 where
  pub id : ℕ
  pub routing_key : String
  pub payload : NotificationPushEvent
  pub status : OutboxStatus
  pub attempts : ℕ
  pub last_error : Option String
  pub created_at : ℕ
  pub published_at : Option ℕ

pub data IdempotencyStatus : Type 0 where
  pending completed : IdempotencyStatus

pub record IdempotencyKey : Type 0 where
  pub id : ℕ
  pub user_id : ℕ
  pub key : String
  pub fingerprint : String
  pub status : IdempotencyStatus
  pub status_code : Option ℕ
  pub response_body : Option Json
  pub created_at : ℕ

pub data AlertDirection : Type 0 where
  above below : AlertDirection

-- Prices are floats that the code only compares and prints, so they are integers here, of whatever
-- unit both sides have.
pub record PriceAlert : Type 0 where
  pub id : ℕ
  pub user_id : ℕ
  pub symbol : String
  pub kind : String
  pub target_price : ℤ
  pub direction : AlertDirection
  pub created_at : ℕ
  pub triggered_at : Option ℕ

-- ===== src/Wallets/Adjustment.antt =====
-- `adjust` of backend/src/wallets/wallets.service.ts: a correction by finance, settled at once.
use max_one.Prelude.{ℕ, String, some, none, [], ◌∷◌}
use max_one.Prelude.Int.{ℤ, pos, ◌+ℤ◌, ◌-ℤ◌, ltb_ℤ}
use max_one.Exec.{bad_request, pure, throw_if, ◌>>=◌, ◌>>◌}
use max_one.Schema
use max_one.Schema.{Transaction, Json, text, number}
use max_one.World.{Prisma, Host, Action, in_transaction, update_wallet, create_transaction}
use max_one.Audit.{AuditEntry, log}
use max_one.Users.{AuthUser}
use max_one.Wallets.Settlement.{Owner, set_balance, owner_of, lock_wallet, announce}

pub data Direction : Type 0 where
  credit debit : Direction

-- `AdjustmentDto`
pub record Correction : Type 0 where
  pub direction : Direction
  pub amount : ℤ
  pub note : String

abbrev pub corrected : Direction → ℤ → ℤ → ℤ
corrected credit before amount = before +ℤ amount
corrected debit before amount = before -ℤ amount

abbrev pub direction_text : Direction → String
direction_text credit = "credit"
direction_text debit = "debit"

abbrev pub adjustment_row : Host → AuthUser → Correction → ℕ → ℤ → ℕ → Transaction
adjustment_row host actor dto wallet_id before id = record {
  id = id;
  wallet_id = wallet_id;
  kind = Schema.adjustment;
  amount = dto.amount;
  balance_before = some before;
  balance_after = some (corrected dto.direction before dto.amount);
  status = Schema.approved;
  requested_by = actor.id;
  reviewed_by = some actor.id;
  reviewed_at = some host.now;
  note = some dto.note;
  transfer_id = none;
  counterparty_wallet_id = none;
  exchange_rate = none;
  created_at = host.now;
}

abbrev pub adjustment_entry : AuthUser → Correction → ℕ → ℤ → AuditEntry
adjustment_entry actor dto wallet_id before = record {
  actor_user_id = actor.id;
  action = Schema.wallet_adjust;
  entity_type = Schema.AuditEntityType.wallet;
  entity_id = wallet_id;
  old_value = ("balance", number before) ∷ [];
  new_value =
      ("balance", number (corrected dto.direction before dto.amount))
      ∷ ("direction", text (direction_text dto.direction))
      ∷ ("amount", number dto.amount)
      ∷ ("note", text dto.note)
      ∷ [];
}

pub record Adjusted : Type 0 where
  pub row : Transaction
  pub owner : Owner

module _ {p : Prisma} (host : Host) where
  -- the body of `$transaction`
  unfoldable pub settle_adjustment : ℕ → Correction → AuthUser → Action p Adjusted
  settle_adjustment wallet_id dto actor = do
    wallet ← lock_wallet wallet_id
    let before = wallet.balance
    let after = corrected dto.direction before dto.amount
    throw_if (ltb_ℤ after (pos 0)) (bad_request "Adjustment would make the balance negative")
    update_wallet wallet_id (set_balance after)
    created ← create_transaction (adjustment_row host actor dto wallet_id before)
    log host (adjustment_entry actor dto wallet_id before)
    pure (record { row = created; owner = owner_of wallet after })

  unfoldable pub adjust : ℕ → Correction → AuthUser → Action p Transaction
  unfolding settle_adjustment
  adjust wallet_id dto actor = do
    result ← in_transaction (settle_adjustment wallet_id dto actor)
    announce result.owner
    pure result.row

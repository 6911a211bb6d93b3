-- ===== src/Audit.antt =====
-- backend/src/audit/audit.service.ts: the only writer of the table `AuditLog`.
use max_one.Prelude.{ℕ, String, List}
use max_one.Exec.{Exec}
use max_one.Exec
use max_one.Schema.{AuditAction, AuditEntityType, AuditLog, Json}
use max_one.World.{Prisma, Host, Action}

pub record AuditEntry : Type 0 where
  pub actor_user_id : ℕ
  pub action : AuditAction
  pub entity_type : AuditEntityType
  pub entity_id : ℕ
  pub old_value : List (String × Json)
  pub new_value : List (String × Json)

-- The row that `log` writes: the entry, with the audit context of the request.
abbrev pub audit_row : Host → AuditEntry → ℕ → AuditLog
audit_row host entry id = record {
  id = id;
  actor_user_id = entry.actor_user_id;
  action = entry.action;
  entity_type = entry.entity_type;
  entity_id = entry.entity_id;
  old_value = entry.old_value;
  new_value = entry.new_value;
  ip_address = host.ip_address;
  user_agent = host.user_agent;
  created_at = host.now;
}

module _ {p : Prisma} (host : Host) where
  abbrev pub log : AuditEntry → Action p (Unit {0})
  log entry w =
      let row = audit_row host entry (p.audit_log.fresh w.db.audit_logs) in
      (
        Exec.ok tt,
        record w { db = record w.db { audit_logs = p.audit_log.insert row w.db.audit_logs } },
      )

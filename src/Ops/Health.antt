-- ===== src/Ops/Health.antt =====
-- backend/src/health/health.service.ts and health.controller.ts.
use max_one.Prelude.{ℕ, Bool, true, false, ◌&&◌, Option, none, some, length, if◌then◌else◌}
use max_one.Prisma.{unordered}
use max_one.World.{Prisma, World}
use max_one.Outbox.{is_pending}
use max_one.Ops.Watch.{Probe}

pub data Status : Type 0 where
  up down : Status

abbrev pub status_of : Bool → Status
status_of true = up
status_of false = down

pub record HealthReport : Type 0 where
  -- whether `status` is ok, else degraded
  pub is_ok : Bool
  pub db : Status
  pub redis : Status
  pub rabbitmq : Status
  pub outbox_pending : Option ℕ
  pub dead_letters : Option ℕ

module _ {p : Prisma} where
  -- `HealthService.check`
  unfoldable pub check : Probe → World p → HealthReport
  check probe w = record {
    is_ok = probe.postgres_up && probe.ping && probe.is_connected;
    db = status_of probe.postgres_up;
    redis = status_of probe.ping;
    rabbitmq = status_of probe.is_connected;
    outbox_pending =
        if probe.postgres_up
        then some (length (p.outbox_event.find_many is_pending unordered w.db.outbox_events))
        else none;
    dead_letters = probe.depth;
  }

-- `HealthController.check`: the status of the response
abbrev pub status_code : HealthReport → ℕ
status_code report = elim report.db [ down ↦ 503 | up ↦ 200 ]

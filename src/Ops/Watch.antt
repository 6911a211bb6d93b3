-- ===== src/Ops/Watch.antt =====
-- backend/src/observability/ops-watch.service.ts: two thresholds, looked at every 30 seconds.
use max_one.Prelude.{
  ℕ, ◌-◌, ◌/◌, String, Bool, true, false, not, ◌&&◌, Option, none, some, List, [], ◌∷◌, ◌++◌, leb,
  ltb, if◌then◌else◌, or_default, length, str_eq,
}
use max_one.Prelude.Int.{ℤ, pos, negsuc, ltb_ℤ}
use max_one.Prisma.{asc}
use max_one.Schema.{OutboxEvent}
use max_one.World.{Prisma, World}
use max_one.Outbox.{is_pending}

-- What the tick finds outside: the clock, the answers of PING and of `depth`, the connection, and
-- whether Postgres answers.
pub record Probe : Type 0 where
  pub now : ℕ
  pub ping : Bool
  pub depth : Option ℕ
  pub is_connected : Bool
  pub postgres_up : Bool

pub record OpsSnapshot : Type 0 where
  pub redis_up : Bool
  pub rabbitmq_up : Bool
  pub outbox_pending : ℕ
  pub outbox_oldest_pending_sec : ℤ
  pub dead_letters : ℕ

-- The errors of the log, which also go to Sentry, its notices, and its warnings. An alert's text
-- states the numbers of its snapshot.
pub data Report : Type 0 where
  alert : String → OpsSnapshot → Report
  recovered : String → Report
  snapshot_failed : Report

pub record OpsWatch : Type 0 where
  -- the set of keys
  pub breached : String → Bool
  -- what the gauges show, once they are set
  pub gauges : Option OpsSnapshot
  -- oldest first
  pub reports : List Report

abbrev pub outbox_pending_age_limit_s : ℕ
outbox_pending_age_limit_s = 60

-- `Math.floor((now - at) / 1000)`
abbrev pub seconds_since : ℕ → ℕ → ℤ
seconds_since at now =
    if leb at now then pos ((now - at) / 1000) else negsuc ((at - now - 1) / 1000)

abbrev pub age_of : ℕ → List OutboxEvent → ℤ
age_of now [] = pos 0
age_of now (r ∷ rows) = seconds_since r.created_at now

module _ {p : Prisma} where
  -- `snapshot`, where none is a query that throws
  unfoldable pub snapshot : Probe → World p → Option OpsSnapshot
  snapshot probe w =
      let pending =
        p.outbox_event.find_many is_pending (asc (λ r. r.created_at)) w.db.outbox_events in
      if probe.postgres_up
      then some (record {
        redis_up = probe.ping;
        rabbitmq_up = probe.is_connected;
        outbox_pending = length pending;
        outbox_oldest_pending_sec = age_of probe.now pending;
        dead_letters = or_default probe.depth 0;
      })
      else none

abbrev put : String → Bool → (String → Bool) → String → Bool
put key b breached other = if str_eq key other then b else breached other

-- `watch`
unfoldable pub watch : String → Bool → OpsSnapshot → OpsWatch → OpsWatch
watch key is_breached snap s =
    if is_breached && not (s.breached key)
    then record s { breached = put key true s.breached; reports = s.reports ++ alert key snap ∷ [] }
    else if not is_breached && s.breached key
    then record s { breached = put key false s.breached; reports = s.reports ++ recovered key ∷ [] }
    else s

abbrev pub has_dead_letters : OpsSnapshot → Bool
has_dead_letters snap = ltb 0 snap.dead_letters

abbrev pub is_stuck : OpsSnapshot → Bool
is_stuck snap = ltb_ℤ (pos outbox_pending_age_limit_s) snap.outbox_oldest_pending_sec

-- `refresh`, after `snapshot` has returned or thrown
unfoldable pub report : Option OpsSnapshot → OpsWatch → OpsWatch
unfolding watch
report none s = record s { reports = s.reports ++ snapshot_failed ∷ [] }
report (some snap) s =
    watch "outbox-stuck" (is_stuck snap) snap
      (watch "dead-letters" (has_dead_letters snap) snap (record s { gauges = some snap }))

unfoldable pub refresh : {p : Prisma} → Probe → World p → OpsWatch → OpsWatch
unfolding report snapshot
refresh probe w s = report (snapshot probe w) s

-- A tick after the other, in whatever state the world is
unfoldable pub run : {p : Prisma} → List (Probe × World p) → OpsWatch → OpsWatch
unfolding refresh
run [] s = s
run ((probe, w) ∷ ticks) s = run ticks (refresh probe w s)

abbrev pub boot : OpsWatch
boot = record { breached = λ _. false; gauges = none; reports = [] }

-- ===== src/Notifications.antt =====
-- backend/src/realtime/notification.service.ts and realtime.service.ts.
use max_one.Prelude.{ℕ, none, some, if◌then◌else◌, str_eq}
use max_one.Exec.{pure, ◌>>◌}
use max_one.Schema.{NotificationPayload, NotificationPushEvent}
use max_one.World.{Prisma, Host, Action, BalancePayload, emit, balance_updated, notification}
use max_one.Queue.{notification_push}
use max_one.Outbox

-- The event that `enqueue` builds. An empty request id is left out.
abbrev pub push_event : Host → ℕ → NotificationPayload → NotificationPushEvent
push_event host user_id payload = record {
  id = host.event_uuid;
  occurred_at = host.now;
  user_id = user_id;
  payload = payload;
  request_id = if str_eq host.request_id "" then none else some host.request_id;
}

module _ {p : Prisma} (host : Host) where
  -- `NotificationService.enqueue`, in the caller's transaction
  abbrev pub enqueue : ℕ → NotificationPayload → Action p NotificationPushEvent
  enqueue user_id payload = do
    Outbox.enqueue host notification_push (push_event host user_id payload)
    pure (push_event host user_id payload)

  -- `NotificationService.dispatch`, after the commit
  abbrev pub dispatch : NotificationPushEvent → Action p (Unit {0})
  dispatch event = do
    emit (notification event.user_id event.payload)
    Outbox.publish_now host event.id notification_push event
    pure tt

-- `RealtimeService.emitBalance`
abbrev pub emit_balance : {p : Prisma} → ℕ → BalancePayload → Action p (Unit {0})
emit_balance user_id payload = emit (balance_updated user_id payload)

-- ===== src/Tests/Messages.antt =====
-- The outbox, the consumer and the rates on the world of the tests.
use max_one.Prelude.{refl, ◌≡◌, Bool, true, false, none, some, [], ◌∷◌, zero, suc, arith}
use max_one.Schema.{NotificationPayload, NotificationPushEvent}
use max_one.World.{World, Host}
use max_one.Queue.{notification_push}
use max_one.Outbox.{
  relay_once, publish_all, includes, relay_pending, is_pending, pending_row, mark_published,
}
use max_one.Outbox.Laws.{IsHanded}
use max_one.Outbox.Relay.{relay_pending-IsHanded}
use max_one.Outbox.Drain.{relay_pending-drains}
use max_one.Worker.{AmqpMessage, Settlement, Consumer, Services, RawEvent, handle}
use max_one.Worker.Laws.{handle_settles}
use max_one.Tests.{prisma, prisma-IsPrisma, host, world}

abbrev payload : NotificationPayload
payload = record { title = "Money added"; body = "$1.00"; tag = 1; url = "/" }

abbrev event : NotificationPushEvent
event = record { id = 0; occurred_at = 1; user_id = 0; payload = payload; request_id = none }

-- One row of the outbox waits.
abbrev waiting : World prisma
waiting = record world {
  db = record world.db { outbox_events = some (pending_row 1 notification_push event) ∷ [] };
}

relay_pending-IsHanded_example : IsHanded (relay_pending {p = prisma} host waiting).1
relay_pending-IsHanded_example = relay_pending-IsHanded host waiting prisma-IsPrisma handed
  where
    handed : IsHanded waiting
    handed zero r h taken = absurd (ground arith)
    handed (suc k) r h taken = absurd (ground arith)

relay_pending-drains_example :
    is_pending (mark_published 5000 (pending_row 1 notification_push event)) ≡ false
unfolding relay_pending relay_once publish_all includes
relay_pending-drains_example =
    relay_pending-drains {p = prisma} host refl (λ e. refl) waiting prisma-IsPrisma refl
      (omega arith) 0 (mark_published 5000 (pending_row 1 notification_push event)) refl

abbrev raw : RawEvent
raw = record {
  id = some 0;
  kind = some "notification.push";
  occurred_at = 1;
  user_id = some 0;
  payload = some (record { title = some "Money added"; body = some "$1.00"; tag = 1; url = "/" });
  request_id = none;
}

abbrev services : Bool → Services
services works = record {
  json = λ text. some (some raw);
  uuid = λ n. "0";
  send_to_user = λ user_id what. works;
  park = λ number what. true;
}

abbrev message : AmqpMessage
message = record { content = "{}"; retry_count = some 1 }

abbrev consumer : Consumer prisma
consumer = record { world = world; settled = []; parked = []; pushed = []; in_flight = 0 }

handle_settles_example :
    (s : Settlement) × ((handle host (services true) message consumer).settled ≡ s ∷ [])
    × ((handle host (services true) message consumer).in_flight ≡ 0)
handle_settles_example = handle_settles host (services true) message consumer

-- A week and more later.
abbrev later : Host
later = record host { now = 700000000 }

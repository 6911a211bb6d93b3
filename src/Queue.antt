-- ===== src/Queue.antt =====
-- backend/src/queue/queue.service.ts and events.ts: handing a message to the broker.
pub mod Connection
pub mod Lifecycle
use max_one.Prelude.{Bool, false, none, some, ◌∷◌, String}
use max_one.Exec.{ok}
use max_one.Schema.{NotificationPushEvent}
use max_one.World.{Prisma, Host, Action, published}

-- `ROUTING_KEYS.notificationPush`
abbrev pub notification_push : String
notification_push = "notification.push"

-- `publish`: false without a channel and on a throw. The channel takes the message also where it
-- answers false, which asks the caller to slow down.
abbrev pub publish : {p : Prisma} → Host → String → NotificationPushEvent → Action p Bool
publish host routing_key message w = elim host.channel [
  | none ↦ (ok false, w)
  | some send ↦ elim (send message) [
    | none ↦ (ok false, w)
    | some accepted ↦
        (ok accepted, record w { emissions = published routing_key message ∷ w.emissions })
  ]
]

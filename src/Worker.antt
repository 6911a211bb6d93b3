-- ===== src/Worker.antt =====
-- backend/src/worker/notification.consumer.ts and the parser of backend/src/queue/events.ts. A value
-- of the message that is not a string reads as none; `JSON.parse` and the push service, which sends
-- to the subscriptions of a user or throws, are parameters.
pub mod Laws
use max_one.Prelude.{
  ℕ, suc, ◌-◌, String, ◌<>◌, Bool, true, false, not, Option, none, some, List, [], ◌∷◌, leb,
  if◌then◌else◌, str_eq,
}
use max_one.Exec.{Exec, ok, err}
use max_one.Schema.{NotificationPayload, NotificationPushEvent}
use max_one.World.{Prisma, World, Host}
use max_one.Queue.{notification_push}
use max_one.Cache.{get, set}

pub record RawPayload : Type 0 where
  pub title : Option String
  pub body : Option String
  pub tag : ℕ
  pub url : String

-- A JSON object that may be an event.
pub record RawEvent : Type 0 where
  pub id : Option ℕ
  pub kind : Option String
  pub occurred_at : ℕ
  pub user_id : Option ℕ
  pub payload : Option RawPayload
  pub request_id : Option String

abbrev pub payload_of : RawPayload → Option NotificationPayload
payload_of raw = elim raw.title [
  | none ↦ none
  | some title ↦ elim raw.body [
    | none ↦ none
    | some body ↦ some (record { title = title; body = body; tag = raw.tag; url = raw.url })
  ]
]

abbrev pub is_push : Option String → Bool
is_push none = false
is_push (some kind) = str_eq kind notification_push

abbrev pub event_of : RawEvent → Option NotificationPushEvent
event_of raw = elim raw.id [
  | none ↦ none
  | some id ↦ if not (is_push raw.kind) then none else elim raw.user_id [
    | none ↦ none
    | some user_id ↦ elim raw.payload [
      | none ↦ none
      | some payload ↦ elim (payload_of payload) [
        | none ↦ none
        | some checked ↦ some (record {
          id = id;
          occurred_at = raw.occurred_at;
          user_id = user_id;
          payload = checked;
          request_id = raw.request_id;
        })
      ]
    ]
  ]
]

-- `parseNotificationPushEvent`: none is a throw. `json` is none where the text is not JSON, and holds
-- none where it is null.
unfoldable pub parse_event :
    (String → Option (Option RawEvent)) → String → Option NotificationPushEvent
parse_event json raw = elim (json raw) [
  | none ↦ none
  | some value ↦ elim value [ none ↦ none | some e ↦ event_of e ]
]

-- `MAX_RETRIES`
abbrev pub max_retries : ℕ
max_retries = 3

-- `DONE_TTL_S`
abbrev pub done_ttl_s : ℕ
done_ttl_s = 86400

pub record AmqpMessage : Type 0 where
  pub content : String
  -- the header `x-retry-count`
  pub retry_count : Option ℕ

pub data Settlement : Type 0 where
  ack : Settlement
  -- with `requeue`
  nack : Bool → Settlement

-- An event on its way to the retry queue of its number.
pub record Parked : Type 0 where
  pub number : ℕ
  pub event : NotificationPushEvent

-- What the consumer has done so far, newest first; the cache is the world's.
pub record Consumer (p : Prisma) : Type 0 where
  pub world : World p
  pub settled : List Settlement
  pub parked : List Parked
  pub pushed : List NotificationPushEvent
  pub in_flight : ℕ

-- What the consumer calls: the text of an id, the push to a user's devices (false is a throw), and
-- `queue.publish` to a retry queue.
pub record Services : Type 0 where
  pub json : String → Option (Option RawEvent)
  pub uuid : ℕ → String
  pub send_to_user : ℕ → NotificationPayload → Bool
  pub park : ℕ → NotificationPushEvent → Bool

abbrev pub done_key : Services → NotificationPushEvent → String
done_key services event = "mq:done:" <> services.uuid event.id

-- `Number(headers?.[HEADER_RETRY_COUNT] ?? 0)`
abbrev pub attempt_of : AmqpMessage → ℕ
attempt_of msg = elim msg.retry_count [ none ↦ 0 | some n ↦ n ]

module _ {p : Prisma} where
  abbrev pub settle : Settlement → Consumer p → Consumer p
  settle s c = record c { settled = s ∷ c.settled }

module _ {p : Prisma} (host : Host) (services : Services) where
  unfoldable pub retry_or_dead : AmqpMessage → NotificationPushEvent → Consumer p → Consumer p
  retry_or_dead msg event c =
      let next = suc (attempt_of msg) in
      if leb max_retries (attempt_of msg)
      then settle (nack false) c
      else if services.park next event
      then settle ack (record c { parked = (record { number = next; event = event }) ∷ c.parked })
      else settle (nack true) c

  -- the push, and the mark after it
  unfoldable pub deliver : AmqpMessage → NotificationPushEvent → Consumer p → Consumer p
  unfolding retry_or_dead
  deliver msg event c =
      if services.send_to_user event.user_id event.payload
      then settle ack (record c {
        pushed = event ∷ c.pushed;
        world = (set host (done_key services event) "1" done_ttl_s c.world).1;
      })
      else retry_or_dead msg event c

  -- the `try` of `handle`; the mark is only ever written as 1, so what is found is truthy
  unfoldable pub handle_open : AmqpMessage → Consumer p → Consumer p
  unfolding deliver parse_event
  handle_open msg c = elim (parse_event services.json msg.content) [
    | none ↦ settle (nack false) c
    | some event ↦ elim (get host (done_key services event) c.world).0 [
      | err _ ↦ c
      | ok none ↦ deliver msg event c
      | ok (some _) ↦ settle ack c
    ]
  ]

  -- `handle`, whose `finally` takes the message out of the count
  unfoldable pub handle : AmqpMessage → Consumer p → Consumer p
  unfolding handle_open
  handle msg c =
      let after = handle_open msg (record c { in_flight = suc c.in_flight }) in
      record after { in_flight = after.in_flight - 1 }

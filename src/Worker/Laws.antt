-- ===== src/Worker/Laws.antt =====
-- What the consumer does with a message: it settles it once, retries it three times, pushes it once.
use max_one.Prelude.{
  suc, ◌+◌, ◌*◌, ◌<◌, ◌≡◌, ◌⊎◌, refl, ap, ◌∙◌, ◌<>◌, true, false, none, some, ◌∷◌, leb,
  if◌then◌else◌, arith, inl, inr, Option-cases, Bool-cases, eq_iff,
}
use max_one.Schema.{NotificationPushEvent}
use max_one.World.{Prisma, Host, CacheEntry}
use max_one.Cache.{get, set, live}
use max_one.Worker.{
  AmqpMessage, Settlement, ack, nack, Consumer, Services, parse_event, done_key, attempt_of,
  max_retries, done_ttl_s, retry_or_dead, deliver, handle_open, handle,
}

module _ {p : Prisma} (host : Host) (services : Services) (msg : AmqpMessage) (c : Consumer p) where
  -- Whatever the message and the outcome, the consumer asks for exactly one settlement of it, an
  -- ack or a nack, and the count of messages in flight is what it was.
  pub handle_settles :
      (s : Settlement) × ((handle host services msg c).settled ≡ s ∷ c.settled)
      × ((handle host services msg c).in_flight ≡ c.in_flight)
  unfolding handle handle_open deliver retry_or_dead get set parse_event
  handle_settles = elim (Option-cases (parse_event services.json msg.content)) [
    | inl malformed ↦ (nack false, ground arith, ground arith)
    | inr (event, parsed) ↦
        elim (Option-cases (
          if host.redis_up
          then live host.now (c.world.cache (done_key services event))
          else none)) [
            | inr (mark, done) ↦ (ack, ground arith, ground arith)
            | inl missing ↦ elim (Bool-cases (services.send_to_user event.user_id event.payload)) [
              | inl sent ↦ (ack, ground arith, ground arith)
              | inr failed ↦ elim (Bool-cases (leb max_retries (attempt_of msg))) [
                | inl spent ↦ (nack false, ground arith, ground arith)
                | inr again ↦ elim (Bool-cases (services.park (suc (attempt_of msg)) event)) [
                  | inl parked ↦ (ack, ground arith, ground arith)
                  | inr refused ↦ (nack true, ground arith, ground arith)
                ]
              ]
            ]
          ]
  ]

  -- A push of a well-formed, unmarked event that fails leaves the world alone: after three retries
  -- the message is dead-lettered, before that its event is parked under the next number and the
  -- message acked, or, where the broker refuses, the message goes back to the queue.
  pub handle_retries :
      {event : NotificationPushEvent}
      → parse_event services.json msg.content ≡ some event
      → (host.redis_up ≡ false) ⊎ (live host.now (c.world.cache (done_key services event)) ≡ none)
      → services.send_to_user event.user_id event.payload ≡ false
      → let c' = handle host services msg c in
        (c'.pushed ≡ c.pushed)
        × (c'.world ≡ c.world)
        × ((c'.parked ≡ c.parked)
            ⊎ ((attempt_of msg < max_retries)
                × (c'.parked ≡ record { number = suc (attempt_of msg); event = event } ∷ c.parked)))
        × (c'.settled
            ≡ (if leb max_retries (attempt_of msg)
                then nack false
                else if services.park (suc (attempt_of msg)) event
                then ack
                else nack true)
              ∷ c.settled)
  unfolding handle handle_open deliver retry_or_dead get
  handle_retries {event} parsed unmarked failed =
      let missing : (if host.redis_up
            then live host.now (c.world.cache (done_key services event))
            else none)
          ≡ none =
        elim unmarked [ inl down ↦ ground arith | inr gone ↦ ground arith ] in
      elim (Bool-cases (leb max_retries (attempt_of msg))) [
        | inl spent ↦ (ground arith, ground arith, inl (ground arith), ground arith)
        | inr again ↦ elim (Bool-cases (services.park (suc (attempt_of msg)) event)) [
          | inl parked ↦
              (ground arith, ground arith, inr (ground arith, ground arith), ground arith)
          | inr refused ↦ (ground arith, ground arith, inl (ground arith), ground arith)
        ]
      ]

  -- A push that goes through marks the event for a day.
  handle_delivered :
      {event : NotificationPushEvent}
      → parse_event services.json msg.content ≡ some event
      → live host.now (c.world.cache (done_key services event)) ≡ none
      → services.send_to_user event.user_id event.payload ≡ true
      → host.redis_up ≡ true
      → let c' = handle host services msg c in
        (c'.pushed ≡ event ∷ c.pushed)
        × (c'.settled ≡ ack ∷ c.settled)
        × (c'.world.cache (done_key services event)
            ≡ some (record { value = "1"; expires_at = host.now + 1000 * done_ttl_s }))
  unfolding handle handle_open deliver get set
  handle_delivered {event} parsed missing sent up =
      let key = (eq_iff (done_key services event) (done_key services event)).1 refl in
      (ground arith, ground arith, ground (arith, key))

  -- A marked event is acked.
  handle_marked :
      {event : NotificationPushEvent} {mark : CacheEntry}
      → parse_event services.json msg.content ≡ some event
      → c.world.cache (done_key services event) ≡ some mark
      → host.now < mark.expires_at
      → host.redis_up ≡ true
      → let c' = handle host services msg c in
        (c'.pushed ≡ c.pushed) × (c'.settled ≡ ack ∷ c.settled)
  unfolding handle handle_open get
  handle_marked parsed marked soon up = (ground arith, ground arith)

module _ {p : Prisma} (host : Host) (services : Services) (msg : AmqpMessage) (c : Consumer p) where
  -- With Redis up, after the push of an event went through, a message that brings its id again
  -- within a day is acked without a push.
  pub handle_dedupes :
      (host' : Host) (msg' : AmqpMessage) {event event' : NotificationPushEvent}
      → parse_event services.json msg.content ≡ some event
      → parse_event services.json msg'.content ≡ some event'
      → event'.id ≡ event.id
      → live host.now (c.world.cache (done_key services event)) ≡ none
      → services.send_to_user event.user_id event.payload ≡ true
      → host.redis_up ≡ true
      → host'.redis_up ≡ true
      → host'.now < host.now + 1000 * done_ttl_s
      → let c'' = handle host' services msg' (handle host services msg c) in
        (c''.pushed ≡ event ∷ c.pushed) × (c''.settled ≡ ack ∷ ack ∷ c.settled)
  handle_dedupes host' msg' {event} {event'} parsed parsed' same missing sent up up' soon =
      let first = handle_delivered host services msg c parsed missing sent up in
      let c' = handle host services msg c in
      let marked : c'.world.cache (done_key services event')
          ≡ some (record { value = "1"; expires_at = host.now + 1000 * done_ttl_s }) =
        ap (λ n. c'.world.cache ("mq:done:" <> services.uuid n)) same ∙ first.2 in
      let second = handle_marked host' services msg' c' parsed' marked soon up' in
      (second.0 ∙ first.0, second.1 ∙ ap (λ l. ack ∷ l) first.1)

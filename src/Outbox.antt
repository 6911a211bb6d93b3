-- ===== src/Outbox.antt =====
-- backend/src/outbox/outbox.service.ts: the transactional outbox.
pub mod Laws
pub mod Relay
pub mod Drain
pub mod Purge
use max_one.Prelude.{
  ℕ, suc, ◌-◌, ◌*◌, String, Bool, true, false, not, ◌&&◌, ◌||◌, Option, none, some, List, [], ◌∷◌,
  ◌==◌, ltb, any, length, take, if◌then◌else◌,
}
use max_one.Exec.{ok, pure, gets, ◌>>=◌, ◌>>◌}
use max_one.Schema.{NotificationPushEvent, OutboxEvent, OutboxStatus}
use max_one.Prisma.{asc, unordered}
use max_one.World.{Prisma, World, Host, Action, in_transaction}
use max_one.Queue.{publish}

-- `BROKER_DOWN`
abbrev pub broker_down : String
broker_down = "publish returned false (broker unavailable)"

-- `{ status: 'published', publishedAt: new Date() }`
abbrev pub mark_published : ℕ → OutboxEvent → OutboxEvent
mark_published now r = record r { status = OutboxStatus.published; published_at = some now }

-- `{ attempts: { increment: 1 }, lastError: BROKER_DOWN }`
abbrev pub mark_failed : OutboxEvent → OutboxEvent
mark_failed r = record r { attempts = suc r.attempts; last_error = some broker_down }

-- The row of an event that has not been published.
abbrev pub pending_row : ℕ → String → NotificationPushEvent → OutboxEvent
pending_row now routing_key event = record {
  id = event.id;
  routing_key = routing_key;
  payload = event;
  status = OutboxStatus.pending;
  attempts = 0;
  last_error = none;
  created_at = now;
  published_at = none;
}

module _ {p : Prisma} (host : Host) where
  abbrev pub enqueue : String → NotificationPushEvent → Action p (Unit {0})
  enqueue routing_key event w = (
    ok tt,
    record w {
      db = record w.db {
        outbox_events =
            p.outbox_event.insert (pending_row host.now routing_key event) w.db.outbox_events;
      };
    },
  )

  abbrev update_event : ℕ → (OutboxEvent → OutboxEvent) → Action p (Unit {0})
  update_event id f w = (
    ok tt,
    record w { db = record w.db { outbox_events = p.outbox_event.update id f w.db.outbox_events } },
  )

  abbrev pub publish_now : ℕ → String → NotificationPushEvent → Action p Bool
  publish_now id routing_key payload = do
    done ← publish host routing_key payload
    update_event id (if done then mark_published host.now else mark_failed)
    pure done

-- `RELAY_BATCH`
abbrev pub relay_batch : ℕ
relay_batch = 50

-- `KEEP_PUBLISHED_MS`
abbrev pub keep_published_ms : ℕ
keep_published_ms = 7 * 86400000

abbrev pub is_pending : OutboxEvent → Bool
is_pending r = elim r.status [ OutboxStatus.pending ↦ true | OutboxStatus.published ↦ false ]

unfoldable pub includes : List ℕ → ℕ → Bool
unfolding any
includes ids id = any (λ d. d == id) ids

-- The ids of the rows that the broker took, and of those that it did not.
pub record Outcomes : Type 0 where
  pub done : List ℕ
  pub failed : List ℕ

abbrev pub push_id : Bool → ℕ → Outcomes → Outcomes
push_id true id o = record { done = id ∷ o.done; failed = o.failed }
push_id false id o = record { done = o.done; failed = id ∷ o.failed }

-- `status: 'published', publishedAt: { lt: cutoff }`
abbrev pub is_stale : ℕ → OutboxEvent → Bool
is_stale cutoff r =
    not (is_pending r) && elim r.published_at [ none ↦ false | some at ↦ ltb at cutoff ]

abbrev pub is_connected : Host → Bool
is_connected h = elim h.channel [ none ↦ false | some _ ↦ true ]

module _ {p : Prisma} (host : Host) where
  -- The loop over the batch.
  unfoldable pub publish_all : List OutboxEvent → Action p Outcomes
  publish_all [] = pure (record { done = []; failed = [] })
  publish_all (r ∷ rows) = do
    taken ← publish host r.routing_key r.payload
    rest ← publish_all rows
    pure (push_id taken r.id rest)

  abbrev pub update_events :
      (OutboxEvent → Bool) → (OutboxEvent → OutboxEvent) → Action p (Unit {0})
  update_events test f w = (
    ok tt,
    record w {
      db = record w.db { outbox_events = p.outbox_event.update_many test f w.db.outbox_events };
    },
  )

  -- The rows that the `SELECT` of the relay returns, all of them unlocked.
  abbrev pub pending_batch : World p → List OutboxEvent
  pending_batch w =
      take relay_batch
        (p.outbox_event.find_many is_pending (asc (λ r. r.created_at)) w.db.outbox_events)

  -- The body of the relay's `$transaction`; updates by an empty list of ids change nothing.
  unfoldable pub relay_once : Action p ℕ
  relay_once = do
    rows ← gets pending_batch
    outcomes ← publish_all rows
    update_events (λ r. includes outcomes.done r.id) (mark_published host.now)
    update_events (λ r. includes outcomes.failed r.id) mark_failed
    pure (length outcomes.done)

  abbrev set_relaying : Bool → Action p (Unit {0})
  set_relaying b w = (ok tt, record w { relaying = b })

  unfoldable pub relay_pending : Action p ℕ
  relay_pending w =
      if w.relaying || not (is_connected host)
      then (ok 0, w)
      else (do set_relaying true; n ← in_transaction relay_once; set_relaying false; pure n) w

  unfoldable pub purge_published : Action p ℕ
  purge_published w =
      let test = is_stale (host.now - keep_published_ms) in
      (
        ok (length (p.outbox_event.find_many test unordered w.db.outbox_events)),
        record w {
          db = record w.db { outbox_events = p.outbox_event.delete_many test w.db.outbox_events };
        },
      )

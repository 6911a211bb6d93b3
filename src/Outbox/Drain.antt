-- ===== src/Outbox/Drain.antt =====
-- What the relay of backend/src/outbox/outbox.service.ts achieves when the broker takes everything.
use max_one.Prelude.{
  ℕ, zero, suc, ◌≤◌, ◌≡◌, sym, ap, ◌∙◌, Bool, true, false, Option, some, List, [], ◌∷◌, arith,
  ==_refl, length, take, inl, inr, Bool-cases, Option-cases, Has,
}
use max_one.Exec.{ok}
use max_one.Schema.{OutboxEvent, NotificationPushEvent}
use max_one.Prisma.{asc}
use max_one.World.{Prisma, IsPrisma, World, Host}
use max_one.Queue.{publish}
use max_one.Outbox.{
  is_pending, includes, publish_all, relay_once, relay_pending, pending_batch, relay_batch,
  Outcomes,
}
use max_one.Outbox.Laws.{all_ok}
use max_one.Outbox.Relay.{relay_once-find, relay_once_ok}

-- Nothing of a list that is short enough is cut.
Has-take :
    (n : ℕ) (xs : List OutboxEvent) (x : OutboxEvent) → length xs ≤ n → Has x xs → Has x (take n xs)
Has-take n [] x h m = absurd m
Has-take zero (y ∷ xs) x h m = absurd (omega arith)
Has-take (suc n) (y ∷ xs) x h (inl e) = inl e
Has-take (suc n) (y ∷ xs) x h (inr m) = inr (Has-take n xs x (omega arith) m)

module _ {p : Prisma} (host : Host) {send : NotificationPushEvent → Option Bool}
    (up : host.channel ≡ some send) (takes : (e : NotificationPushEvent) → send e ≡ some true) where
  -- Every row of the batch is among the successes.
  all_done :
      (rows : List OutboxEvent) (w : World p) (o : Outcomes) (r : OutboxEvent)
      → (publish_all host rows w).0 ≡ ok o
      → Has r rows
      → includes o.done r.id ≡ true
  unfolding publish_all includes
  all_done [] w o r all m = absurd m
  all_done (q ∷ rows) w o r all m =
      let w₁ = (publish host q.routing_key q.payload w).1 in
      let taken : (publish host q.routing_key q.payload w).0 ≡ ok true =
        ground (arith, up, takes q.payload) in
      let (o₁, rest) = all_ok host rows w₁ in
      elim m [
        | inl here ↦ ground (arith, taken, rest, ==_refl r.id)
        | inr later ↦ ground (arith, taken, rest, all_done rows w₁ o₁ r rest later)
      ]

  relay_once_drains :
      (w : World p)
      → IsPrisma p
      → length (p.outbox_event.find_many is_pending (asc (λ r. r.created_at)) w.db.outbox_events)
        ≤ relay_batch
      → (k : ℕ) (r : OutboxEvent)
      → p.outbox_event.find_unique k (relay_once host w).1.db.outbox_events ≡ some r
      → is_pending r ≡ false
  relay_once_drains w lawful few k r found =
      let (o, all) = all_ok host (pending_batch host w) w in
      let at = sym (relay_once-find lawful host w o all k) ∙ found in
      elim (Option-cases (p.outbox_event.find_unique k w.db.outbox_events)) [
        | inl missing ↦ absurd (ground arith)
        | inr (q, before) ↦ elim (Bool-cases (is_pending q)) [
          | inr settled ↦ ground arith
          | inl pending ↦
              let batch = Has-take relay_batch _ q few (
                lawful.outbox_event.find_many-Has is_pending (asc (λ x. x.created_at))
                  w.db.outbox_events k q before pending) in
              ground (arith, all_done (pending_batch host w) w o q all batch)
        ]
      ]

  -- With a channel that takes every message, no relay under way, and at most a batch of pending
  -- rows, one run of the relay leaves no row pending.
  pub relay_pending-drains :
      (w : World p)
      → IsPrisma p
      → w.relaying ≡ false
      → length (p.outbox_event.find_many is_pending (asc (λ r. r.created_at)) w.db.outbox_events)
        ≤ relay_batch
      → (k : ℕ) (r : OutboxEvent)
      → p.outbox_event.find_unique k (relay_pending host w).1.db.outbox_events ≡ some r
      → is_pending r ≡ false
  unfolding relay_pending
  relay_pending-drains w lawful idle few k r found =
      let busy = record w { relaying = true } in
      let (n, done) = relay_once_ok lawful host busy in
      let same : (relay_pending host w).1.db ≡ (relay_once host busy).1.db =
        ground (arith, idle, up, done) in
      relay_once_drains busy lawful few k r
        (sym (ap (λ d. p.outbox_event.find_unique k d.outbox_events) same) ∙ found)

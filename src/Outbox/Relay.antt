-- ===== src/Outbox/Relay.antt =====
-- The relay as a whole: its transaction and its guards.
use mathlib.Core.Path.{subst, subst⁻¹}
use max_one.Prelude.{
  ℕ, ◌≡◌, sym, ◌∙◌, true, false, not, ◌||◌, length, some, arith, if◌then◌else◌, option_map, inl,
  inr, Bool-cases, Option-cases, All-take, All-Has, Has,
}
use max_one.Exec.{ok}
use max_one.Schema.{OutboxEvent}
use max_one.Prisma.{asc}
use max_one.World.{Prisma, IsPrisma, World, Host, published}
use max_one.Outbox.{
  is_pending, includes, publish_all, relay_once, relay_pending, pending_batch, mark_published,
  mark_failed, Outcomes, relay_batch, is_connected,
}
use max_one.Outbox.Laws.{IsHanded, all_ok, all-db, all_grow, done_handed}

module _ {p : Prisma} (lawful : IsPrisma p) (host : Host) (w : World p) where
  -- A row of the batch is the row of the table that has its id.
  batch_row :
      (r q : OutboxEvent) (k : ℕ)
      → Has q (pending_batch host w)
      → p.outbox_event.find_unique k w.db.outbox_events ≡ some r
      → q.id ≡ r.id
      → q ≡ r
  batch_row r q k m found same =
      let P = λ (x : OutboxEvent).
        (is_pending x ≡ true)
        × (p.outbox_event.find_unique (p.outbox_event.key x) w.db.outbox_events ≡ some x) in
      let at =
        All-Has P q _
          (All-take P relay_batch _ (
            lawful.outbox_event.find_many-All is_pending (asc (λ x. x.created_at))
              w.db.outbox_events))
          m in
      let same_key : p.outbox_event.key q ≡ k =
        lawful.key-outbox_event q
        ∙ same
        ∙ sym (lawful.key-outbox_event r)
        ∙ lawful.outbox_event.key-find_unique k w.db.outbox_events r found in
      cc (at.1, found, same_key)

  -- The row with the id `k` after the two updates.
  abbrev pub marked : Outcomes → OutboxEvent → OutboxEvent
  marked o r =
      let r₁ = if includes o.done r.id then mark_published host.now r else r in
      if includes o.failed r₁.id then mark_failed r₁ else r₁

  pub relay_once-find :
      (o : Outcomes)
      → (publish_all host (pending_batch host w) w).0 ≡ ok o
      → (k : ℕ)
      → p.outbox_event.find_unique k (relay_once host w).1.db.outbox_events
        ≡ option_map (marked o) (p.outbox_event.find_unique k w.db.outbox_events)
  unfolding relay_once
  relay_once-find o all k =
      let t = w.db.outbox_events in
      let done = λ (r : OutboxEvent). includes o.done r.id in
      let failed = λ (r : OutboxEvent). includes o.failed r.id in
      let t₁ = p.outbox_event.update_many done (mark_published host.now) t in
      let table : (relay_once host w).1.db.outbox_events
          ≡ p.outbox_event.update_many failed mark_failed t₁ =
        ground (arith, all, all-db host (pending_batch host w) w) in
      let first =
        lawful.outbox_event.find_unique-update_many k done (mark_published host.now) t (λ r.
          lawful.key-outbox_event (mark_published host.now r) ∙ sym (lawful.key-outbox_event r)) in
      let second =
        lawful.outbox_event.find_unique-update_many k failed mark_failed t₁
          (λ r. lawful.key-outbox_event (mark_failed r) ∙ sym (lawful.key-outbox_event r)) in
      elim (Option-cases (p.outbox_event.find_unique k t)) [
        | inl missing ↦ ground (arith, table, first, second)
        | inr (r, found) ↦ ground (arith, table, first, second)
      ]

  relay_once-emissions :
      (o : Outcomes)
      → (publish_all host (pending_batch host w) w).0 ≡ ok o
      → (relay_once host w).1.emissions ≡ (publish_all host (pending_batch host w) w).1.emissions
  unfolding relay_once
  relay_once-emissions o all = ground (arith, all)

  relay_once-IsHanded : IsHanded w → IsHanded (relay_once host w).1
  relay_once-IsHanded handed k r' found' taken =
      let (o, all) = all_ok host (pending_batch host w) w in
      let now = relay_once-emissions o all in
      let found = sym (relay_once-find o all k) ∙ found' in
      elim (Option-cases (p.outbox_event.find_unique k w.db.outbox_events)) [
        | inl missing ↦ absurd (ground arith)
        | inr (r, at) ↦
            let is : marked o r ≡ r' = ground arith in
            let key : r'.routing_key ≡ r.routing_key = ground arith in
            let payload : r'.payload ≡ r.payload = ground arith in
            rw (key, payload)
              (subst⁻¹ (Has (published r.routing_key r.payload)) now
                (elim (Bool-cases (includes o.done r.id)) [
                  | inl done ↦
                      let (q, m, same, h) =
                        done_handed host (pending_batch host w) w o r.id all done in
                      let e = batch_row r q k m at same in
                      subst
                        (λ x.
                          Has (published x.routing_key x.payload)
                            (publish_all host (pending_batch host w) w).1.emissions)
                        e h
                  | inr kept ↦
                      all_grow host (pending_batch host w) w (published r.routing_key r.payload)
                        (handed k r at (ground arith))
                ]))
      ]

  pub relay_once_ok : (n : ℕ) × ((relay_once host w).0 ≡ ok n)
  unfolding relay_once
  relay_once_ok =
      let (o, all) = all_ok host (pending_batch host w) w in (length o.done, ground (arith, all))

-- A run of the relay, whatever the broker answers, keeps this: the event of every row that is
-- marked published has been handed to the broker.
pub relay_pending-IsHanded :
    {p : Prisma} (host : Host) (w : World p)
    → IsPrisma p
    → IsHanded w
    → IsHanded (relay_pending host w).1
unfolding relay_pending
relay_pending-IsHanded host w lawful handed =
    elim (Bool-cases (w.relaying || not (is_connected host))) [
      | inl skips ↦ rw skips handed
      | inr runs ↦
          let busy = record w { relaying = true } in
          let (n, done) = relay_once_ok lawful host busy in
          let idle : (relay_pending host w).1
              ≡ record (relay_once host busy).1 { relaying = false } =
            ground (arith, runs, done) in
          subst⁻¹ IsHanded idle (relay_once-IsHanded lawful host busy handed)
    ]

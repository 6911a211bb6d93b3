-- ===== src/Outbox/Purge.antt =====
-- What `purgePublished` of backend/src/outbox/outbox.service.ts leaves.
use max_one.Prelude.{
  ℕ, ◌+◌, ◌-◌, ◌≤◌, ◌≡◌, ◌⊎◌, true, false, none, some, arith, inl, inr, Option-cases,
}
use max_one.Schema.{OutboxEvent}
use max_one.World.{Prisma, IsPrisma, World, Host}
use max_one.Outbox.{is_pending, is_stale, keep_published_ms, purge_published}

-- At a time of at least seven days: a purge deletes exactly the rows that were published more than
-- seven days ago. It keeps a row that is pending, has no time of publication, or was published
-- since; what it leaves was there and is no other.
pub purge_published-keeps :
    {p : Prisma} (host : Host) (w : World p) (k : ℕ)
    → IsPrisma p
    → keep_published_ms ≤ host.now
    → let t = w.db.outbox_events in
      let t' = (purge_published host w).1.db.outbox_events in
      ((r : OutboxEvent)
        → p.outbox_event.find_unique k t ≡ some r
        → (is_pending r ≡ true)
          ⊎ ((r.published_at ≡ none)
              ⊎ ((at : ℕ) × (r.published_at ≡ some at) × (host.now ≤ at + keep_published_ms)))
        → p.outbox_event.find_unique k t' ≡ some r)
      × ((r : OutboxEvent)
          → p.outbox_event.find_unique k t' ≡ some r
          → (p.outbox_event.find_unique k t ≡ some r)
            × ((at : ℕ)
                → is_pending r ≡ false
                → r.published_at ≡ some at
                → host.now ≤ at + keep_published_ms))
unfolding purge_published
purge_published-keeps {p} host w k lawful late =
    let t = w.db.outbox_events in
    let kept =
      lawful.outbox_event.find_unique-delete_many k (is_stale (host.now - keep_published_ms)) t in
    (
      λ r found why. elim why [
        | inl pending ↦ ground (arith, kept)
        | inr other ↦ elim other [
          | inl untimed ↦ ground (arith, kept)
          | inr (at, timed, young) ↦ ground (arith, kept)
        ]
      ],
      λ r found. elim (Option-cases (p.outbox_event.find_unique k t)) [
        | inl missing ↦ absurd (ground (arith, kept))
        | inr (q, before) ↦ (ground (arith, kept), λ at published timed. ground (arith, kept))
      ],
    )

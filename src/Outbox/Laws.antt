-- ===== src/Outbox/Laws.antt =====
-- What the relay of backend/src/outbox/outbox.service.ts guarantees: nothing is marked published that
-- the broker was not handed, and no event is lost.
use mathlib.Core.Path.{subst⁻¹}
use max_one.Prelude.{
  ℕ, ◌≡◌, refl, Bool, true, false, some, List, [], ◌∷◌, arith, ◌==◌, inl, inr, ◌⊎◌, Bool-cases,
  Option-cases, Has, String,
}
use max_one.Exec.{ok}
use max_one.Schema.{OutboxEvent, NotificationPushEvent}
use max_one.World.{Prisma, World, Host, Emission, published}
use max_one.Queue.{publish}
use max_one.Outbox.{is_pending, includes, publish_all, Outcomes, push_id}

-- The broker was handed the event of every row that is marked published.
abbrev pub IsHanded : {p : Prisma} → World p → Type 0
IsHanded {p} w =
    (k : ℕ) (r : OutboxEvent)
    → p.outbox_event.find_unique k w.db.outbox_events ≡ some r
    → is_pending r ≡ false
    → Has (published r.routing_key r.payload) w.emissions

module _ {p : Prisma} (host : Host) where
  publish-emissions :
      (key : String) (event : NotificationPushEvent) (w : World p)
      → ((publish host key event w).1.emissions ≡ published key event ∷ w.emissions)
        ⊎ (((publish host key event w).1.emissions ≡ w.emissions)
            × ((publish host key event w).0 ≡ ok false))
  publish-emissions key event w = elim (Option-cases host.channel) [
    | inl down ↦ inr (ground arith, ground arith)
    | inr (send, up) ↦ elim (Option-cases (send event)) [
      | inl thrown ↦ inr (ground arith, ground arith)
      | inr (b, taken) ↦ inl (ground arith)
    ]
  ]

  publish_grows :
      (key : String) (event : NotificationPushEvent) (w : World p) (e : Emission)
      → Has e w.emissions
      → Has e (publish host key event w).1.emissions
  publish_grows key event w e h = elim (publish-emissions key event w) [
    | inl more ↦ subst⁻¹ (Has e) more (inr h)
    | inr same ↦ subst⁻¹ (Has e) same.0 h
  ]

  publish_hands :
      (key : String) (event : NotificationPushEvent) (w : World p)
      → (publish host key event w).0 ≡ ok true
      → Has (published key event) (publish host key event w).1.emissions
  publish_hands key event w h = elim (publish-emissions key event w) [
    | inl more ↦ subst⁻¹ (Has (published key event)) more (inl refl)
    | inr same ↦ absurd (ground (arith, same.1))
  ]

  publish-ok :
      (key : String) (event : NotificationPushEvent) (w : World p)
      → (b : Bool) × ((publish host key event w).0 ≡ ok b)
  publish-ok key event w = elim (Option-cases host.channel) [
    | inl down ↦ (false, ground arith)
    | inr (send, up) ↦ elim (Option-cases (send event)) [
      | inl thrown ↦ (false, ground arith)
      | inr (b, taken) ↦ (b, ground arith)
    ]
  ]

  publish-db :
      (key : String) (event : NotificationPushEvent) (w : World p)
      → (publish host key event w).1.db ≡ w.db
  publish-db key event w = ground arith

  -- The loop ends, and leaves the database alone.
  pub all_ok :
      (rows : List OutboxEvent) (w : World p)
      → (o : Outcomes) × ((publish_all host rows w).0 ≡ ok o)
  unfolding publish_all
  all_ok [] w = (record { done = []; failed = [] }, refl)
  all_ok (r ∷ rows) w =
      let (b, one) = publish-ok r.routing_key r.payload w in
      let (o, rest) = all_ok rows (publish host r.routing_key r.payload w).1 in
      (push_id b r.id o, ground (arith, one, rest))

  pub all-db : (rows : List OutboxEvent) (w : World p) → (publish_all host rows w).1.db ≡ w.db
  unfolding publish_all
  all-db [] w = refl
  all-db (r ∷ rows) w =
      let (b, one) = publish-ok r.routing_key r.payload w in
      let w₁ = (publish host r.routing_key r.payload w).1 in
      let (o, rest) = all_ok rows w₁ in
      ground (arith, one, rest, all-db rows w₁, publish-db r.routing_key r.payload w)

  -- One round of the loop.
  step :
      (r : OutboxEvent) (rows : List OutboxEvent) (w : World p) (b : Bool) (o : Outcomes)
      → (publish host r.routing_key r.payload w).0 ≡ ok b
      → (publish_all host rows (publish host r.routing_key r.payload w).1).0 ≡ ok o
      → (publish_all host (r ∷ rows) w).1.emissions
        ≡ (publish_all host rows (publish host r.routing_key r.payload w).1).1.emissions
  unfolding publish_all
  step r rows w b o one rest = ground (arith, one, rest)

  pub all_grow :
      (rows : List OutboxEvent) (w : World p) (e : Emission)
      → Has e w.emissions
      → Has e (publish_all host rows w).1.emissions
  unfolding publish_all
  all_grow [] w e h = h
  all_grow (r ∷ rows) w e h =
      let (b, one) = publish-ok r.routing_key r.payload w in
      let w₁ = (publish host r.routing_key r.payload w).1 in
      let (o, rest) = all_ok rows w₁ in
      subst⁻¹ (Has e) (step r rows w b o one rest)
        (all_grow rows w₁ e (publish_grows r.routing_key r.payload w e h))

  -- An id among the successes is that of a row of the batch whose event the broker was handed.
  pub done_handed :
      (rows : List OutboxEvent) (w : World p) (o : Outcomes) (id : ℕ)
      → (publish_all host rows w).0 ≡ ok o
      → includes o.done id ≡ true
      → (r : OutboxEvent) × Has r rows
        × (r.id ≡ id)
        × Has (published r.routing_key r.payload) (publish_all host rows w).1.emissions
  unfolding publish_all includes
  done_handed [] w o id all h = absurd (ground arith)
  done_handed (r ∷ rows) w o id all h =
      let (b, one) = publish-ok r.routing_key r.payload w in
      let w₁ = (publish host r.routing_key r.payload w).1 in
      let (o₁, rest) = all_ok rows w₁ in
      let later : includes o₁.done id ≡ true
          → (q : OutboxEvent) × Has q (r ∷ rows)
            × (q.id ≡ id)
            × Has (published q.routing_key q.payload) (publish_all host (r ∷ rows) w).1.emissions =
        λ m.
          let (q, at, same, handed) = done_handed rows w₁ o₁ id rest m in
          (
            q,
            inr at,
            same,
            subst⁻¹ (Has (published q.routing_key q.payload)) (step r rows w b o₁ one rest) handed,
          ) in
      elim (Bool-cases b) [
        | inl taken ↦ elim (Bool-cases (r.id == id)) [
          | inl here ↦ (
            r,
            inl refl,
            ground arith,
            subst⁻¹ (Has (published r.routing_key r.payload)) (step r rows w b o₁ one rest) (
                all_grow rows w₁ (published r.routing_key r.payload)
                  (publish_hands r.routing_key r.payload w (ground (arith, one)))),
          )
          | inr other ↦ later (ground (arith, one, rest))
        ]
        | inr refused ↦ later (ground (arith, one, rest))
      ]

-- ===== src/Push/Owners.antt =====
-- Who receives the pushes of an endpoint (backend/src/push/push.service.ts, subscribe).
use max_one.Prelude.{
  ℕ, ◌≡◌, ◌≢◌, refl, sym, ap, ◌∙◌, String, Option, none, some, ◌==◌, ==_iff, ==_refl, ◌⊎◌, eq_iff,
  option_map, arith, inl, inr, Bool-cases, Option-cases,
}
use max_one.Prisma.{Delegate, IsLawful}
use max_one.Push.{
  PushSubscription, SubscribeInput, claim, new_subscription, has_endpoint, upsert, subscribe,
}

module _ (d : Delegate PushSubscription) where
  -- `endpoint String @unique`
  abbrev pub IsUnique : d.Table → Type 0
  IsUnique t =
      (j k : ℕ) (r q : PushSubscription)
      → d.find_unique j t ≡ some r
      → d.find_unique k t ≡ some q
      → r.endpoint ≡ q.endpoint
      → j ≡ k

  -- The endpoint is there, once, and is the actor's.
  abbrev pub IsOwner : ℕ → String → d.Table → Type 0
  IsOwner actor endpoint t =
      (k : ℕ) × (r : PushSubscription) × (d.find_unique k t ≡ some r)
      × (r.endpoint ≡ endpoint)
      × (r.user_id ≡ actor)

module _ (d : Delegate PushSubscription) (lawful : IsLawful d)
    (key-id : (r : PushSubscription) → d.key r ≡ r.id) where
  -- A row of the table after an update was there, at the same endpoint.
  update_from :
      (actor : ℕ) (dto : SubscribeInput) (t : d.Table) (i j : ℕ) (r : PushSubscription)
      → d.find_unique j (d.update i (claim d actor dto) t) ≡ some r
      → (q : PushSubscription) × (d.find_unique j t ≡ some q) × (q.endpoint ≡ r.endpoint)
  update_from actor dto t i j r e =
      let law =
        lawful.find_unique-update j i (claim d actor dto) t (λ q. key-id _ ∙ sym (key-id q)) in
      let f : Option PushSubscription → Option String = option_map (λ x. x.endpoint) in
      elim (Option-cases (d.find_unique j t)) [
        | inl gone ↦ absurd (ground (arith, law, gone, e))
        | inr (q, at) ↦
            let same : f (d.find_unique j (d.update i (claim d actor dto) t)) ≡ some q.endpoint =
              ap f law ∙ elim (Bool-cases (i == j)) [
                | inl here ↦ rw (here, at) refl
                | inr other ↦ rw (other, at) refl
              ] in
            (q, at, cc)
      ]

  -- A row after an insertion is the new one or was there.
  insert_from :
      (new : PushSubscription) (t : d.Table) (j : ℕ) (r : PushSubscription)
      → d.find_unique (d.key new) t ≡ none
      → d.find_unique j (d.insert new t) ≡ some r
      → ((j ≡ d.key new) × (r ≡ new)) ⊎ (d.find_unique j t ≡ some r)
  insert_from new t j r free e =
      let law = lawful.find_unique-insert j new t free in
      elim (Bool-cases (d.key new == j)) [
        | inl here ↦ inl (sym ((==_iff (d.key new) j).0 here), cc)
        | inr other ↦ inr (sym (law ∙ rw other refl) ∙ e)
      ]

  no_endpoint :
      (endpoint : String) (t : d.Table) (k : ℕ) (q : PushSubscription)
      → d.find_first (has_endpoint d endpoint) t ≡ none
      → d.find_unique k t ≡ some q
      → q.endpoint ≢ endpoint
  no_endpoint endpoint t k q gone at same =
      let f = lawful.find_first-none (has_endpoint d endpoint) t k q gone at in
      let g = (eq_iff q.endpoint endpoint).1 same in cc

  upsert_owns :
      (actor now : ℕ) (dto : SubscribeInput) (t : d.Table) (o : Option PushSubscription)
      → d.find_first (has_endpoint d dto.endpoint) t ≡ o
      → IsUnique d t
      → IsUnique d (upsert d o actor now dto t)
        × IsOwner d actor dto.endpoint (upsert d o actor now dto t)
  upsert_owns actor now dto t none gone unique =
      let new = new_subscription d actor now dto t in
      let free : d.find_unique (d.key new) t ≡ none =
        ap (λ k. d.find_unique k t) (key-id new) ∙ lawful.find_unique-fresh t in
      (
        (λ j k r q at_j at_k same. elim (insert_from new t j r free at_j) [
          | inl (jn, rn) ↦ elim (insert_from new t k q free at_k) [
            | inl (kn, qn) ↦ jn ∙ sym kn
            | inr old ↦
                absurd
                  (no_endpoint dto.endpoint t k q gone old (sym same ∙ ap (λ x. x.endpoint) rn))
          ]
          | inr old_j ↦ elim (insert_from new t k q free at_k) [
            | inl (kn, qn) ↦
                absurd (no_endpoint dto.endpoint t j r gone old_j (same ∙ ap (λ x. x.endpoint) qn))
            | inr old_k ↦ unique j k r q old_j old_k same
          ]
        ]),
        (
          d.key new,
          new,
          lawful.find_unique-insert (d.key new) new t free ∙ rw (==_refl (d.key new)) refl,
          refl,
          refl,
        ),
      )
  upsert_owns actor now dto t (some r) old unique =
      let (passes, at) = lawful.find_first-some (has_endpoint d dto.endpoint) t r old in
      let law =
        lawful.find_unique-update (d.key r) (d.key r) (claim d actor dto) t
          (λ q. key-id _ ∙ sym (key-id q)) in
      (
        (λ j k a b at_j at_k same.
            let (a', old_j, ea) = update_from actor dto t (d.key r) j a at_j in
            let (b', old_k, eb) = update_from actor dto t (d.key r) k b at_k in
            unique j k a' b' old_j old_k (ea ∙ same ∙ sym eb)),
        (
          d.key r,
          claim d actor dto r,
          law ∙ rw (==_refl (d.key r), at) refl,
          (eq_iff r.endpoint dto.endpoint).0 passes,
          refl,
        ),
      )

  -- If no two rows share an endpoint, then after a user subscribes a browser none do, and the row
  -- at its endpoint is the user's.
  pub subscribe_owns :
      (actor now : ℕ) (dto : SubscribeInput) (t : d.Table)
      → IsUnique d t
      → IsUnique d (subscribe d actor now dto t)
        × IsOwner d actor dto.endpoint (subscribe d actor now dto t)
  unfolding subscribe
  subscribe_owns actor now dto t unique =
      upsert_owns actor now dto t (d.find_first (has_endpoint d dto.endpoint) t) refl unique

-- ===== src/Alerts/Laws.antt =====
-- What the check of the price alerts guarantees.
use max_one.Prelude.{
  ℕ, ◌≡◌, refl, sym, ap, ◌∙◌, Bool, true, false, ◌&&◌, some, List, [], ◌∷◌, any, keep,
  if◌then◌else◌, option_map, arith, inl, inr, Option-cases, Bool-cases, All, All-map, All-Has,
}
use max_one.Exec.{ok}
use max_one.Schema.{PriceAlert, NotificationPushEvent}
use max_one.Prisma.{unordered}
use max_one.World.{Prisma, IsPrisma, World, Host}
use max_one.Notifications.{enqueue, dispatch, push_event}
use max_one.Alerts.{
  Asset, Texts, fires, is_waiting, is_among, mark_triggered_at, find_pending, mark_triggered,
  alert_payload, enqueue_all, dispatch_all, fire, check,
}
use max_one.Alerts.Members.{Has-keep, keep-Has, is_among-Has, among}

module _ {p : Prisma} (host : Host) (texts : Texts) (assets : List Asset) where
  enqueue_all_ok :
      (fired : List PriceAlert) (w : World p)
      → (events : List NotificationPushEvent) × ((enqueue_all host texts assets fired w).0
          ≡ ok events)
        × ((enqueue_all host texts assets fired w).1.db.price_alerts ≡ w.db.price_alerts)
  unfolding enqueue_all
  enqueue_all_ok [] w = ([], refl, refl)
  enqueue_all_ok (a ∷ fired) w =
      let host' = record host { event_uuid = texts.uuid a.id } in
      let payload = alert_payload texts assets a in
      let (events, rest, same) = enqueue_all_ok fired (enqueue host' a.user_id payload w).1 in
      (
        push_event host' a.user_id payload ∷ events,
        ground (arith, rest),
        ground (arith, rest, same),
      )

  dispatch_all-alerts :
      (events : List NotificationPushEvent) (w : World p)
      → (dispatch_all host events w).1.db.price_alerts ≡ w.db.price_alerts
  unfolding dispatch_all
  dispatch_all-alerts [] w = refl
  dispatch_all-alerts (event ∷ events) w =
      ground (arith, dispatch_all-alerts events (dispatch host event w).1)

  dispatch_all_ok :
      (events : List NotificationPushEvent) (w : World p) → (dispatch_all host events w).0 ≡ ok tt
  unfolding dispatch_all
  dispatch_all_ok [] w = refl
  dispatch_all_ok (event ∷ events) w =
      ground (arith, dispatch_all_ok events (dispatch host event w).1)

  -- The alerts that fire are marked, and no other.
  fire-alerts :
      (fired : List PriceAlert) (w : World p) (k : ℕ)
      → IsPrisma p
      → p.price_alert.find_unique k (fire host texts assets fired w).1.db.price_alerts
        ≡ option_map
            (λ r. if is_among fired r then mark_triggered_at host.now r else r)
            (p.price_alert.find_unique k w.db.price_alerts)
  unfolding fire mark_triggered is_among any
  fire-alerts [] w k lawful = elim (Option-cases (p.price_alert.find_unique k w.db.price_alerts)) [
    | inl missing ↦ ground (arith, missing)
    | inr (r, found) ↦ ground (arith, found)
  ]
  fire-alerts (a ∷ fired) w k lawful =
      let w₁ = (mark_triggered host (a ∷ fired) w).1 in
      let (events, sent, same) = enqueue_all_ok (a ∷ fired) w₁ in
      let w₂ = (enqueue_all host texts assets (a ∷ fired) w₁).1 in
      let table : (fire host texts assets (a ∷ fired) w).1.db.price_alerts ≡ w₁.db.price_alerts =
        ground (arith, sent, same, dispatch_all-alerts events w₂) in
      ap (λ t. p.price_alert.find_unique k t) table
      ∙ lawful.price_alert.find_unique-update_many k (is_among (a ∷ fired))
          (mark_triggered_at host.now) w.db.price_alerts
          (λ r.
            lawful.key-price_alert (mark_triggered_at host.now r) ∙ sym (lawful.key-price_alert r))

module _ {p : Prisma} (lawful : IsPrisma p) (assets : List Asset) (w : World p) where
  abbrev fired : List PriceAlert
  fired = keep (fires assets) (find_pending w)

  -- A row of the table is among the alerts that fire if it waits and its price has been crossed.
  is_among-fired :
      (k : ℕ) (r : PriceAlert)
      → p.price_alert.find_unique k w.db.price_alerts ≡ some r
      → is_among fired r ≡ (is_waiting r && fires assets r)
  is_among-fired k r found =
      let t = w.db.price_alerts in
      elim (Bool-cases (is_waiting r && fires assets r)) [
        | inl both ↦
            let m =
              lawful.price_alert.find_many-Has is_waiting unordered t k r found (ground arith) in
            is_among-Has r fired (Has-keep (fires assets) r (find_pending w) m (ground arith))
            ∙ sym both
        | inr one ↦ elim (Bool-cases (is_among fired r)) [
          | inr out ↦ out ∙ sym one
          | inl in_list ↦
              let (f, m, same) = among r fired in_list in
              let (m', crossed) = keep-Has (fires assets) f (find_pending w) m in
              let P = λ (x : PriceAlert).
                (is_waiting x ≡ true)
                × (p.price_alert.find_unique (p.price_alert.key x) t ≡ some x) in
              let (waits, stands) =
                All-Has P f (find_pending w)
                  (lawful.price_alert.find_many-All is_waiting unordered t) m' in
              let key : p.price_alert.key f ≡ k =
                lawful.key-price_alert f
                ∙ same
                ∙ sym (lawful.key-price_alert r)
                ∙ lawful.price_alert.key-find_unique k t r found in
              let equal : f ≡ r = cc (stands, found, key) in
              absurd
                (ground (arith, one, ap is_waiting equal, ap (fires assets) equal, waits, crossed))
        ]
      ]

  -- A check of the prices marks the alerts that wait and whose price has been crossed, and no
  -- other row changes.
  pub check_marks :
      (host : Host) (texts : Texts) (k : ℕ)
      → p.price_alert.find_unique k (check host texts assets w).1.db.price_alerts
        ≡ option_map
            (λ r. if is_waiting r && fires assets r then mark_triggered_at host.now r else r)
            (p.price_alert.find_unique k w.db.price_alerts)
  unfolding check
  check_marks host texts k =
      let all = fire-alerts host texts assets fired w k lawful in
      elim (Option-cases (p.price_alert.find_unique k w.db.price_alerts)) [
        | inl missing ↦ ground (arith, all, missing)
        | inr (r, found) ↦ ground (arith, all, found, is_among-fired k r found)
      ]

-- Nothing that fires is left: no element of a list passes the test.
keep_empty :
    (test : PriceAlert → Bool) (xs : List PriceAlert)
    → All (λ x. test x ≡ false) xs
    → keep test xs ≡ []
unfolding keep
keep_empty test [] h = refl
keep_empty test (x ∷ xs) h = ground (arith, h.0, keep_empty test xs h.1)

-- An alert fires once: a second check at the same prices, whenever it comes, changes nothing and
-- sends nothing.
pub check_once :
    {p : Prisma} (host host' : Host) (texts texts' : Texts) (assets : List Asset) (w : World p)
    → IsPrisma p
    → check host' texts' assets (check host texts assets w).1
      ≡ (ok tt, (check host texts assets w).1)
unfolding check fire
check_once {p} host host' texts texts' assets w lawful =
    let w' = (check host texts assets w).1 in
    let silent : All (λ a. fires assets a ≡ false) (find_pending w') =
      All-map _ _ (find_pending w')
        (λ a at.
          elim (Option-cases (p.price_alert.find_unique (p.price_alert.key a) w.db.price_alerts)) [
            | inl missing ↦
                absurd (
                  ground
                    (arith, at.1, check_marks lawful assets w host texts (p.price_alert.key a)))
            | inr (b, before) ↦
                let now =
                  sym (check_marks lawful assets w host texts (p.price_alert.key a)) ∙ at.1 in
                elim (Bool-cases (is_waiting b && fires assets b)) [
                  | inl both ↦
                      let same : mark_triggered_at host.now b ≡ a =
                        ground (arith, now, before, both) in
                      absurd (ground (arith, ap is_waiting same, at.0))
                  | inr one ↦
                      let same : b ≡ a = ground (arith, now, before, one) in
                      ground (arith, ap is_waiting same, ap (fires assets) same, at.0, one)
                ]
          ])
        (lawful.price_alert.find_many-All is_waiting unordered w'.db.price_alerts) in
    ground (arith, keep_empty (fires assets) (find_pending w') silent)

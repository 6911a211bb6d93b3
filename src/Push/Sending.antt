-- ===== src/Push/Sending.antt =====
-- A push to every browser of a user (backend/src/push/push.service.ts, sendToUser).
use mathlib.Core.List.{append_assoc, append-nil}
use max_one.Prelude.{
  ℕ, ◌≡◌, ◌↔◌, refl, sym, ap, ◌∙◌, Bool, false, not, ◌||◌, Option, none, some, List, [], ◌∷◌, ◌++◌,
  map, length, if◌then◌else◌, str_eq, inl, inr, Bool-cases, Option-cases,
}
use max_one.Prisma.{Delegate, IsLawful, filtered}
use max_one.Schema.{NotificationPayload}
use max_one.Push.{
  PushSubscription, PushState, PushFailed, Delivery, is_gone, is_transient, has_endpoint,
  subscriptions_of, send, send_all, transient, failure_of, send_to_user,
}

module _ (send_notification : PushSubscription → NotificationPayload → Delivery)
    (payload : NotificationPayload) where
  -- Whether one of the browsers at an endpoint has answered that it is gone
  abbrev pub is_pruned : List PushSubscription → PushSubscription → Bool
  is_pruned [] r = false
  is_pruned (sub ∷ subs) r =
      (if is_gone (send_notification sub payload) then str_eq r.endpoint sub.endpoint else false)
      || is_pruned subs r

  -- How many of some browsers can be reached later
  abbrev pub count_transient : List PushSubscription → ℕ
  count_transient [] = 0
  count_transient (sub ∷ subs) =
      let n = count_transient subs in
      if is_transient (send_notification sub payload) then Prim.Native.Nat.suc n else n

module _ (d : Delegate PushSubscription) (lawful : IsLawful d)
    (send_notification : PushSubscription → NotificationPayload → Delivery)
    (payload : NotificationPayload) where
  filtered-filtered :
      (sub : PushSubscription) (subs : List PushSubscription) (o : Option PushSubscription)
      → filtered
          (λ r. not (is_pruned send_notification payload subs r))
          (filtered (λ r. not (has_endpoint d sub.endpoint r)) o)
        ≡ filtered
            (λ r.
              not (str_eq r.endpoint sub.endpoint || is_pruned send_notification payload subs r))
            o
  filtered-filtered sub subs none = refl
  filtered-filtered sub subs (some r) = elim (Bool-cases (str_eq r.endpoint sub.endpoint)) [
    | inl same ↦ rw same refl
    | inr other ↦ rw other refl
  ]

  -- A row stays unless its browser is gone.
  find_unique-send_all :
      (k : ℕ) (subs : List PushSubscription) (s : PushState d)
      → d.find_unique k (send_all d send_notification payload subs s).subscriptions
        ≡ filtered
            (λ r. not (is_pruned send_notification payload subs r))
            (d.find_unique k s.subscriptions)
  unfolding send_all
  find_unique-send_all k [] s = elim (Option-cases (d.find_unique k s.subscriptions)) [
    | inl gone ↦ rw gone refl
    | inr (r, at) ↦ rw at refl
  ]
  find_unique-send_all k (sub ∷ subs) s =
      let ih = find_unique-send_all k subs (send d send_notification payload sub s) in
      elim (Bool-cases (is_gone (send_notification sub payload))) [
        | inl gone ↦
            ih
            ∙ rw gone (
                ap (filtered (λ r. not (is_pruned send_notification payload subs r)))
                  (lawful.find_unique-delete_many k (has_endpoint d sub.endpoint) s.subscriptions)
                ∙ filtered-filtered sub subs (d.find_unique k s.subscriptions))
        | inr here ↦ ih ∙ rw here refl
      ]

  pushes-send_all :
      (subs : List PushSubscription) (s : PushState d)
      → (send_all d send_notification payload subs s).pushes
        ≡ s.pushes ++ map (λ sub. (sub, payload)) subs
  unfolding send_all
  pushes-send_all [] s = sym (append-nil s.pushes)
  pushes-send_all (sub ∷ subs) s =
      pushes-send_all subs (send d send_notification payload sub s)
      ∙ append_assoc s.pushes ((sub, payload) ∷ []) (map (λ sub. (sub, payload)) subs)

  length-transient :
      (subs : List PushSubscription)
      → length (transient d send_notification payload subs)
        ≡ count_transient send_notification payload subs
  length-transient [] = refl
  length-transient (sub ∷ subs) =
      let ih = length-transient subs in
      elim (Bool-cases (is_transient (send_notification sub payload))) [
        | inl later ↦ rw later (ap (λ n. Prim.Native.Nat.suc n) ih)
        | inr never ↦ rw never ih
      ]

  failure_of_lem :
      (tried : ℕ) (es : List Delivery)
      → ((failure_of d send_notification tried es ≡ none) ↔ (length es ≡ 0))
        × ((f : PushFailed)
            → failure_of d send_notification tried es ≡ some f
            → (f.failed ≡ length es) × (f.tried ≡ tried))
  failure_of_lem tried [] = (((λ e. refl), (λ e. refl)), λ f e. cc)
  failure_of_lem tried (x ∷ es) = (((λ e. cc), (λ e. cc)), λ f e. (cc, cc))

  -- A push goes to every browser of the user once, whatever the others answer; the rows that stay
  -- are those at no endpoint that answered 404 or 410; and it throws exactly if some push failed
  -- otherwise, stating how many of how many.
  pub send_to_user_settles :
      (user : ℕ) (s : PushState d)
      → let subs = subscriptions_of d user s.subscriptions in
        let (e, s') = send_to_user d send_notification user payload s in
        (s'.pushes ≡ s.pushes ++ map (λ sub. (sub, payload)) subs)
        × ((k : ℕ)
            → d.find_unique k s'.subscriptions
              ≡ filtered
                  (λ r. not (is_pruned send_notification payload subs r))
                  (d.find_unique k s.subscriptions))
        × ((e ≡ none) ↔ (count_transient send_notification payload subs ≡ 0))
        × ((f : PushFailed)
            → e ≡ some f
            → (f.failed ≡ count_transient send_notification payload subs) × (f.tried ≡ length subs))
  unfolding send_to_user
  send_to_user_settles user s =
      let subs = subscriptions_of d user s.subscriptions in
      let (iff, told) = failure_of_lem (length subs) (transient d send_notification payload subs) in
      let n = length-transient subs in
      (
        pushes-send_all subs s,
        (λ k. find_unique-send_all k subs s),
        ((λ e. sym n ∙ iff.0 e), (λ e. iff.1 (n ∙ e))),
        (λ f e. ((told f e).0 ∙ n, (told f e).1)),
      )

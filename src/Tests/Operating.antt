-- ===== src/Tests/Operating.antt =====
-- The watch of the operators, and pushes to browsers.
use max_one.Prelude.{
  ℕ, zero, suc, ◌≡◌, ◌↔◌, refl, true, false, not, none, some, Option, List, [], ◌∷◌, map, length,
  String,
}
use max_one.Schema.{NotificationPayload}
use max_one.Prisma.{Delegate, filtered}
use max_one.Prisma.Memory.{memory, memory-IsLawful}
use max_one.World.{World}
use max_one.Ops.Watch.{Probe, OpsWatch, run, refresh, boot}
use max_one.Ops.Transitions.{dead_letters, reported, edges, last, readings, run-edges}
use max_one.Push.{
  PushSubscription, SubscribeInput, Delivery, delivered, refused, PushState, PushFailed,
  subscriptions_of, send_to_user,
}
use max_one.Push.Sending.{is_pruned, count_transient, send_to_user_settles}
use max_one.Tests.{prisma, world}

-- All is well but for some dead letters.
abbrev probe : Option ℕ → Probe
probe depth = record {
  now = 5000;
  ping = true;
  depth = depth;
  is_connected = true;
  postgres_up = true;
}

-- None, one, two, and then none again.
abbrev ticks : List (Probe × World prisma)
ticks =
    (probe (some 0), world)
    ∷ (probe (some 1), world)
    ∷ (probe (some 2), world)
    ∷ (probe (some 0), world)
    ∷ []

four_ticks : reported "dead-letters" (run ticks boot).reports ≡ true ∷ false ∷ []
unfolding run
four_ticks = refl

run-edges_example :
    (reported "dead-letters" (run ticks boot).reports ≡ edges false (readings dead_letters ticks))
    × ((run ticks boot).breached "dead-letters" ≡ last false (readings dead_letters ticks))
run-edges_example = run-edges dead_letters ticks

abbrev alerted : OpsWatch
alerted = refresh (probe (some 1)) world boot

abbrev subscriptions : Delegate PushSubscription
subscriptions = memory (λ r. r.id)

abbrev browser : ℕ → ℕ → String → PushSubscription
browser id user_id endpoint = record {
  id = id;
  user_id = user_id;
  endpoint = endpoint;
  p256dh = "key";
  auth = "auth";
  created_at = 0;
}

abbrev payload : NotificationPayload
payload = record { title = "Money added"; body = "$1.00"; tag = 1; url = "/" }

-- The second browser has unsubscribed, the third cannot be reached.
abbrev send_notification : PushSubscription → NotificationPayload → Delivery
send_notification sub _ = elim sub.id [
  | zero ↦ delivered
  | suc zero ↦ refused (some 410) none
  | suc (suc n) ↦ refused none (some "timeout")
]

abbrev browsers : List (Option PushSubscription)
browsers =
    some (browser 0 1 "https://a")
    ∷ some (browser 1 1 "https://b")
    ∷ some (browser 2 1 "https://c")
    ∷ []

abbrev push_state : PushState subscriptions
push_state = record { subscriptions = browsers; pushes = [] }

abbrev pushed : Option PushFailed × PushState subscriptions
pushed = send_to_user subscriptions send_notification 1 payload push_state

pushed_pruned :
    pushed.1.subscriptions
    ≡ some (browser 0 1 "https://a") ∷ none ∷ some (browser 2 1 "https://c") ∷ []
unfolding send_to_user
pushed_pruned = refl

send_to_user_settles_example :
    let subs = subscriptions_of subscriptions 1 browsers in
    (pushed.1.pushes ≡ map (λ sub. (sub, payload)) subs)
    × ((k : ℕ)
        → subscriptions.find_unique k pushed.1.subscriptions
          ≡ filtered
              (λ r. not (is_pruned send_notification payload subs r))
              (subscriptions.find_unique k browsers))
    × ((pushed.0 ≡ none) ↔ (count_transient send_notification payload subs ≡ 0))
    × ((f : PushFailed)
        → pushed.0 ≡ some f
        → (f.failed ≡ count_transient send_notification payload subs) × (f.tried ≡ length subs))
send_to_user_settles_example =
    send_to_user_settles subscriptions (memory-IsLawful (λ r. r.id)) send_notification payload 1
      push_state

abbrev dto : SubscribeInput
dto = record { endpoint = "https://a"; p256dh = "key2"; auth = "auth2" }

-- One browser, which another user now signs in from.
abbrev one_browser : List (Option PushSubscription)
one_browser = some (browser 0 1 "https://a") ∷ []

-- ===== src/Queue/Lifecycle.antt =====
-- The life of the broker's connection in backend/src/queue/queue.service.ts, as the events that the
-- event loop and the broker may bring.
use max_one.Prelude.{
  ℕ, ◌+◌, ◌*◌, ◌≤◌, ◌<◌, ◌≡◌, ◌⊎◌, refl, String, Bool, true, false, Option, none, some, List, [],
  ◌∷◌, arith, length,
}
use max_one.Exec.{Result}
use max_one.Queue.Connection.{
  Service, reconnect_cap_ms, min, is_set, is_connected, on_close, on_open, begin_open, finish_open,
  fail_open, on_connection_closed, fire_timer, begin_destroy, finish_destroy, consume, cancel,
  depth,
}

-- What may happen next to a service that is not shut down.
pub data Step : Service → Service → Type 0 where
  opened : (s : Service) → 0 < s.opening → Step s (finish_open s)
  refused : (s : Service) (msg : String) → 0 < s.opening → Step s (fail_open msg s)
  lost : (s : Service) → is_connected s ≡ true → Step s (on_connection_closed s)
  fired : (s : Service) → s.armed ≡ true → Step s (fire_timer s)
  heard_close : (s : Service) (listener : ℕ) → Step s (on_close listener s)
  heard_open : (s : Service) (listener : ℕ) → Step s (on_open listener s)
  consumed : (s : Service) (tag : String) → Step s (consume tag s).1
  cancelled : (s : Service) → Step s (cancel s)
  measured : (s : Service) (answer : Result ℕ) → Step s (depth answer s).1

-- The life of a service, from `onModuleInit` on.
pub data Reach (s : Service) : Service → Type 0 where
  here : Reach s s
  next : {t u : Service} → Reach s t → Step t u → Reach s u

abbrev pub number : Bool → ℕ
number true = 1
number false = 0

-- The delay that the timer was set with.
abbrev pub IsBackoff : ℕ → Option ℕ → Type 0
IsBackoff attempt none = Unit
IsBackoff attempt (some d) = (d ≡ min (attempt * 500) reconnect_cap_ms) × (1 ≤ attempt)

-- Exactly one of three: connected, waiting for the broker's answer, waiting for the timer.
pub record IsTrying (s : Service) : Type 0 where
  pub running : s.closing ≡ false
  pub one : number (is_set s.channel) + s.opening + number s.armed ≡ 1
  pub timed : is_set s.timer ≡ s.armed
  pub paired : is_set s.conn ≡ is_set s.channel
  pub backoff : IsBackoff s.attempt s.timer

Step-IsTrying : {s t : Service} → Step s t → IsTrying s → IsTrying t
unfolding finish_open fail_open on_connection_closed fire_timer consume cancel depth
Step-IsTrying (opened s waits) h = ground arith
Step-IsTrying (refused s msg waits) h = ground arith
Step-IsTrying (lost s up) h = ground arith
Step-IsTrying (fired s ticks) h = ground arith
Step-IsTrying (heard_close s listener) h = ground arith
Step-IsTrying (heard_open s listener) h = ground arith
Step-IsTrying (consumed s tag) h = ground arith
Step-IsTrying (cancelled s) h = ground arith
Step-IsTrying (measured s answer) h = ground arith

-- A service before `onModuleInit`.
abbrev pub created : Service
created = record {
  conn = none;
  channel = none;
  consumer_tag = none;
  closing = false;
  attempt = 0;
  timer = none;
  last_warned = none;
  close_listeners = [];
  open_listeners = [];
  armed = false;
  opening = 0;
  next = 0;
  log = [];
  called = [];
}

-- From the start of the module on, whatever the broker and the event loop bring, a service that is
-- not shut down is exactly one of connected, waiting for the answer to one attempt, or waiting for
-- an armed timer; the timer field is set exactly when the timer is armed, and its delay is the
-- number of attempts times 500 ms, at most 10 s.
pub life-IsTrying : {s : Service} → Reach (begin_open created) s → IsTrying s
life-IsTrying here = ground arith
life-IsTrying (next r st) = Step-IsTrying st (life-IsTrying r)

-- The timer fires and the attempt fails, as often as there are messages.
abbrev pub retry : List String → Service → Service
retry [] s = s
retry (msg ∷ msgs) s = retry msgs (fail_open msg (fire_timer s))

try_again :
    (msg : String) (s : Service)
    → IsTrying s
    → s.armed ≡ true
    → (0 < (fire_timer s).opening)
      × ((fail_open msg (fire_timer s)).armed ≡ true)
      × ((fail_open msg (fire_timer s)).attempt ≡ s.attempt + 1)
unfolding fail_open fire_timer
try_again msg s h a = ground arith

-- While the broker is away, each failed attempt counts once: the timer is armed again with the
-- delay of the number of attempts times 500 ms, at least 500 ms and at most 10 s.
pub retry_backs_off :
    (msgs : List String) (s : Service)
    → IsTrying s
    → s.armed ≡ true
    → let t = retry msgs s in
      (t.armed ≡ true)
      × (t.attempt ≡ s.attempt + length msgs)
      × (d : ℕ) × (t.timer ≡ some d)
      × (d ≡ min (t.attempt * 500) reconnect_cap_ms)
      × (500 ≤ d)
      × (d ≤ 10000)
retry_backs_off [] s h a =
    let d = min (s.attempt * 500) reconnect_cap_ms in
    (a, omega arith, d, ground arith, refl, ground arith, ground arith)
retry_backs_off (msg ∷ msgs) s h a =
    let (waits, armed, counted) = try_again msg s h a in
    let h' = Step-IsTrying (refused (fire_timer s) msg waits) (Step-IsTrying (fired s a) h) in
    let (a', n, d, e, e', low, high) =
      retry_backs_off msgs (fail_open msg (fire_timer s)) h' armed in
    (a', omega (arith, n, counted), d, e, e', low, high)

-- What may happen from the start of `onModuleDestroy` on. Its `conn.close()` makes the connection
-- emit `close`, before or after `onModuleDestroy` returns, and so may the broker at any time: the
-- handler of `open` is called then, whatever the fields hold.
pub data Ending : Service → Service → Type 0 where
  goes_on : {s t : Service} → Step s t → Ending s t
  closed : (s : Service) → Ending s (on_connection_closed s)

pub data Ends (s : Service) : Service → Type 0 where
  here : Ends s s
  next : {t u : Service} → Ends s t → Ending t u → Ends s u

-- What holds of `t` from the start of the shutdown of `s` on, where at most `n` are connected or
-- connecting
record IsOver (s : Service) (n : ℕ) (t : Service) : Type 0 where
  closing : t.closing ≡ true
  unarmed : t.armed ≡ false
  waiting : t.opening ≤ s.opening
  bounded : number (is_set t.channel) + t.opening ≤ n
  uncalled : (t.called ≡ s.called) ⊎ (0 < s.opening)

module _ (s : Service) (n : ℕ) where
  Step-IsOver : {t u : Service} → Step t u → IsOver s n t → IsOver s n u
  unfolding finish_open fail_open on_connection_closed fire_timer consume cancel depth
  Step-IsOver (opened t waits) h = ground arith
  Step-IsOver (refused t msg waits) h = ground arith
  Step-IsOver (lost t up) h = ground arith
  Step-IsOver (fired t ticks) h = ground arith
  Step-IsOver (heard_close t listener) h = ground arith
  Step-IsOver (heard_open t listener) h = ground arith
  Step-IsOver (consumed t tag) h = ground arith
  Step-IsOver (cancelled t) h = ground arith
  Step-IsOver (measured t answer) h = ground arith

  Ending-IsOver : {t u : Service} → Ending t u → IsOver s n t → IsOver s n u
  unfolding on_connection_closed
  Ending-IsOver (goes_on st) h = Step-IsOver st h
  Ending-IsOver (closed t) h = ground arith

  Ends-IsOver : {t u : Service} → Ends t u → IsOver s n t → IsOver s n u
  Ends-IsOver here h = h
  Ends-IsOver (next r e) h = Ending-IsOver e (Ends-IsOver r h)

  finish_destroy-IsOver : (t : Service) → IsOver s n t → IsOver s s.opening (finish_destroy t)
  unfolding finish_destroy
  finish_destroy-IsOver t h = ground arith

-- Shut down at any moment, with anything happening before onModuleDestroy returns and after, the
-- close event of its own conn.close() included: the timer is never armed again, and connected and
-- connecting together count at most the attempts that were on their way when the shutdown began;
-- where none was, no listener is called any more.
pub shutdown_final :
    (s : Service) {t u : Service}
    → IsTrying s
    → Ends (begin_destroy s) t
    → Ends (finish_destroy t) u
    → (u.armed ≡ false)
      × (number (is_connected u) + u.opening ≤ s.opening)
      × ((u.called ≡ s.called) ⊎ (0 < s.opening))
unfolding begin_destroy
shutdown_final s {t} {u} h before after =
    let begun : IsOver s 1 (begin_destroy s) = ground arith in
    let over = finish_destroy-IsOver s 1 t (Ends-IsOver s 1 before begun) in
    let o = Ends-IsOver s s.opening after over in ground arith

-- Shut down while an attempt is on its way, the service may be connected afterwards, with nothing
-- left that would close the connection.
pub shutdown_races :
    (s : Service)
    → IsTrying s
    → 0 < s.opening
    → (t : Service) × Ends (finish_destroy (begin_destroy s)) t
      × (is_connected t ≡ true)
      × (t.closing ≡ true)
      × (t.armed ≡ false)
      × (t.opening ≡ 0)
unfolding begin_destroy finish_destroy finish_open
shutdown_races s h waits =
    let t = finish_destroy (begin_destroy s) in
    (
      finish_open t,
      next here (goes_on (opened t waits)),
      ground arith,
      ground arith,
      ground arith,
      ground arith,
    )

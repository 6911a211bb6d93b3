-- ===== src/Queue/Connection.antt =====
-- The connection of backend/src/queue/queue.service.ts to the broker: `open`, what it does when a
-- connection is lost, the reconnect timer and the shutdown. amqplib is a parameter: whether
-- `connect` and the topology calls succeed is the environment's choice.
use max_one.Prelude.{
  ℕ, suc, ◌*◌, ◌-◌, String, ◌<>◌, Bool, true, false, ◌||◌, Option, none, some, List, [], ◌∷◌, ◌++◌,
  leb, if◌then◌else◌, str_eq,
}
use max_one.Exec.{Result, ok, err, failure}

-- `RECONNECT_CAP_MS`
abbrev pub reconnect_cap_ms : ℕ
reconnect_cap_ms = 10000

abbrev pub min : ℕ → ℕ → ℕ
min a b = if leb a b then a else b

abbrev pub is_set : {A : Type 0} → Option A → Bool
is_set none = false
is_set (some _) = true

-- The fields of `QueueService`. `conn` and `channel` hold the number of the connection; listeners
-- are numbers; `timer` holds the delay it was set with. The event loop is beside them: whether the
-- timer is armed, how many calls of `open` wait for the broker, and what has been logged and fired.
pub record Service : Type 0 where
  pub conn : Option ℕ
  pub channel : Option ℕ
  pub consumer_tag : Option String
  pub closing : Bool
  pub attempt : ℕ
  pub timer : Option ℕ
  pub last_warned : Option String
  pub close_listeners : List ℕ
  pub open_listeners : List ℕ
  pub armed : Bool
  pub opening : ℕ
  -- the next connection's number
  pub next : ℕ
  -- newest first
  pub log : List String
  -- the listeners that have been called, newest first
  pub called : List ℕ

abbrev pub is_connected : Service → Bool
is_connected s = is_set s.channel

abbrev pub on_close : ℕ → Service → Service
on_close listener s = record s { close_listeners = s.close_listeners ++ listener ∷ [] }

abbrev pub on_open : ℕ → Service → Service
on_open listener s = record s { open_listeners = s.open_listeners ++ listener ∷ [] }

-- `msg === this.lastWarned`
abbrev pub same_warning : String → Option String → Bool
same_warning msg none = false
same_warning msg (some last) = str_eq msg last

unfoldable pub warn : String → Service → Service
warn msg s =
    if same_warning msg s.last_warned
    then s
    else record s { last_warned = some msg; log = ("RabbitMQ unavailable — " <> msg) ∷ s.log }

-- `forEach` calls the listeners in the order of their registration.
abbrev pub call_all : List ℕ → List ℕ → List ℕ
call_all [] called = called
call_all (l ∷ listeners) called = call_all listeners (l ∷ called)

unfoldable pub schedule_reconnect : Service → Service
schedule_reconnect s = if s.closing || is_set s.timer then s else record s {
  attempt = suc s.attempt;
  timer = some (min (suc s.attempt * 500) reconnect_cap_ms);
  armed = true;
}

-- A call of `open` up to its first await.
abbrev pub begin_open : Service → Service
begin_open s = record s { opening = suc s.opening }

-- The rest of `open`, where the broker took everything.
unfoldable pub finish_open : Service → Service
finish_open s = record s {
  opening = s.opening - 1;
  conn = some s.next;
  channel = some s.next;
  next = suc s.next;
  attempt = 0;
  last_warned = none;
  log = "Connected to RabbitMQ" ∷ s.log;
  called = call_all s.open_listeners s.called;
}

-- The `catch` of `open`.
unfoldable pub fail_open : String → Service → Service
unfolding warn schedule_reconnect
fail_open msg s = schedule_reconnect (warn msg (record s { opening = s.opening - 1 }))

-- `onConnectionClosed`
unfoldable pub on_connection_closed : Service → Service
unfolding warn schedule_reconnect
on_connection_closed s =
    let gone = record s { channel = none; conn = none; consumer_tag = none } in
    if s.closing
    then gone
    else schedule_reconnect
        (warn "connection closed" (record gone { called = call_all s.close_listeners s.called }))

-- The timer's callback.
unfoldable pub fire_timer : Service → Service
fire_timer s = begin_open (record s { timer = none; armed = false })

-- `onModuleDestroy` up to its first await: the field `timer` keeps the cleared timer.
unfoldable pub begin_destroy : Service → Service
begin_destroy s = record s { closing = true; armed = false }

-- The end of `onModuleDestroy`.
unfoldable pub finish_destroy : Service → Service
finish_destroy s = record s { consumer_tag = none; channel = none; conn = none }

-- `disconnectForTest`
unfoldable pub disconnect_for_test : Service → Service
disconnect_for_test s = record s {
  consumer_tag = none;
  channel = none;
  conn = none;
  closing = false;
}

-- `consume`: the broker names the consumer.
unfoldable pub consume : String → Service → Result (Unit {0}) × Service
consume tag s =
    if is_set s.channel
    then (ok tt, record s { consumer_tag = some tag })
    else (err (failure "QueueService: not connected"), s)

-- `cancel`, where the broker answers
unfoldable pub cancel : Service → Service
cancel s = record s { consumer_tag = none }

-- `depth`: what `checkQueue` answers, where none is a throw
unfoldable pub depth : Result ℕ → Service → Option ℕ × Service
unfolding warn
depth answer s = elim s.channel [
  | none ↦ (none, s)
  | some _ ↦ elim answer [ ok n ↦ (some n, s) | err _ ↦ (none, warn "checkQueue" s) ]
]

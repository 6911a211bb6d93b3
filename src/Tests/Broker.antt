-- ===== src/Tests/Broker.antt =====
-- A service whose broker is away, and one that is shut down while it connects.
use max_one.Prelude.{◌+◌, ◌≤◌, ◌<◌, ◌≡◌, ◌⊎◌, false, arith}
use max_one.Queue.Connection.{
  Service, is_connected, begin_open, finish_open, fail_open, begin_destroy, finish_destroy,
  on_connection_closed,
}
use max_one.Queue.Lifecycle.{
  number, closed, refused, opened, Reach, Ends, IsTrying, created, life-IsTrying, shutdown_final,
}

abbrev connecting : Service
connecting = begin_open created

abbrev away : Service
away = fail_open "ECONNREFUSED" connecting

abbrev up : Service
up = finish_open connecting

connecting-IsTrying : IsTrying connecting
connecting-IsTrying = life-IsTrying Reach.here

away-Reach : Reach connecting away
away-Reach = Reach.next Reach.here (refused connecting "ECONNREFUSED" (omega arith))

life-IsTrying_example : IsTrying away
life-IsTrying_example = life-IsTrying away-Reach

up-IsTrying : IsTrying up
up-IsTrying = life-IsTrying (Reach.next Reach.here (opened connecting (omega arith)))

-- The connection emits `close` while `onModuleDestroy` waits, and the broker drops it once more.
abbrev closing : Service
closing = on_connection_closed (begin_destroy up)

abbrev over : Service
over = on_connection_closed (finish_destroy closing)

shutdown_final_example :
    (over.armed ≡ false)
    × (number (is_connected over) + over.opening ≤ up.opening)
    × ((over.called ≡ up.called) ⊎ (0 < up.opening))
shutdown_final_example =
    shutdown_final up {t = closing} {u = over} up-IsTrying
      (Ends.next Ends.here (closed (begin_destroy up)))
      (Ends.next Ends.here (closed (finish_destroy closing)))

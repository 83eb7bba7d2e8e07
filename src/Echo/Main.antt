-- ===== src/Echo/Main.antt =====
-- `main` of c/source/smoke-test/main.c: the start and the loop. It has no timeout: where `epoll_wait`
-- returns 0 there are no events.
use network_exercises.Common.{ℕ, List, [], none}
use network_exercises.Common.Int.{ℤ, pos}
use network_exercises.Run.{Run, ok, ◌>>=◌}
use network_exercises.Memory.{Allocator}
use network_exercises.Links.{some_or}
use network_exercises.Queue
use network_exercises.Queue.{Queue}
use network_exercises.Net.{Event, incoming, ready}
use network_exercises.Poll.{unwatch, fd_accept_and_epoll_add}
use network_exercises.Startup.{Log, System, set_up}
use network_exercises.Rounds.{Round, Progress, running, run_rounds}
use network_exercises.Echo.{Fate, kept_open, closed, handle_event}

-- The queue, and what epoll watches.
pub record Server : Type 0 where
  pub qu : Queue
  pub watched : List ℤ

abbrev pub still_watched : ℕ → Fate → List ℤ → List ℤ
still_watched fd kept_open watched = watched
still_watched fd closed watched = unwatch (pos fd) watched

unfoldable pub on_event : Allocator ℕ → Server → Event → Run (Server × List ℕ)
on_event mem s (incoming conn_sock added) = do
  (_, watched) ← fd_accept_and_epoll_add conn_sock added s.watched
  ok (record s { watched = watched }, [])
on_event mem s (ready fd inbox answers removed) = do
  (qu, wire, fate) ← handle_event mem fd inbox answers removed s.qu
  ok (record { qu = qu; watched = still_watched fd fate s.watched }, wire)

-- The queue before the loop; the call of `queue_init` is not checked.
unfoldable pub start : Allocator ℕ → Run Server
start mem = do
  qu_at ← Queue.init mem none 65536
  qu ← some_or qu_at
  ok (record { qu = qu; watched = [] })

unfoldable pub main :
    {L : Type 0}
    → Log L
    → Allocator ℕ
    → System
    → L
    → List (Round Event)
    → Run (Progress Server (Unit {0}) × List (List ℕ))
main log mem sys logs rounds = do
  _ ← set_up log sys logs
  s ← start mem
  run_rounds (on_event mem) (λ s'. ok (running s')) s rounds

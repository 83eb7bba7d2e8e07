-- ===== src/Chat/Main.antt =====
-- `main` of c/source/budget-chat/main.c: the start and the loop.
use network_exercises.Common.{ℕ, Bool, List, [], none}
use network_exercises.Common.Int.{ℤ}
use network_exercises.Run.{Run, ok, ◌>>=◌}
use network_exercises.Memory.{Allocator}
use network_exercises.Net.{Inbox, Answer}
use network_exercises.Poll.{unwatch}
use network_exercises.Startup.{Log, System, Started, set_up}
use network_exercises.Rounds.{Round, Progress, finished, run_rounds}
use network_exercises.Chat.{Fresh}
use network_exercises.Chat.Server.{Server, on_incoming, on_ready}

-- A connection that comes in, or one that is ready, with what `send` answers to each call of
-- `sendall`.
pub data Event : Type 0 where
  incoming : (conn_sock : ℤ) (added : Bool) (fresh : Fresh) (answers : List (List Answer)) → Event
  ready : (fd : ℕ) (inbox : Inbox) (answers : List (List Answer)) (removed : Bool) → Event

-- What goes out, and to which descriptors.
abbrev pub Sent : Type 0
Sent = List (ℤ × List ℕ)

-- The body of the loop over `n`.
unfoldable pub handle_event :
    (fuel junk : ℕ)
    → (ℕ → Bool)
    → Allocator ℕ
    → (listen_fd : ℤ) → Server
    → Event
    → Run (Server × Sent)
handle_event fuel junk isalnum mem listen_fd s (incoming conn_sock added fresh answers) = do
  (s', w) ←
      on_incoming mem s listen_fd conn_sock added fresh (record { answers = answers; sent = [] })
  ok (s', w.sent)
handle_event fuel junk isalnum mem listen_fd s (ready fd inbox answers removed) = do
  (s', w) ←
      on_ready fuel junk isalnum mem s fd inbox removed (record { answers = answers; sent = [] })
  ok (s', w.sent)

-- `if (nfds == 0)`: the server ends with these sockets open besides those of the clients.
abbrev pub clean_up : {L : Type 0} → Started L → Server → Run (Progress Server (List ℤ))
clean_up started s = ok (finished (unwatch started.listen_fd started.opened))

unfoldable pub main :
    {L : Type 0}
    → Log L
    → (fuel junk : ℕ) → (ℕ → Bool)
    → Allocator ℕ
    → System
    → L
    → List (Round Event)
    → Run (Progress Server (List ℤ) × List Sent)
main log fuel junk isalnum mem sys logs rounds = do
  started ← set_up log sys logs
  run_rounds (handle_event fuel junk isalnum mem started.listen_fd) (clean_up started)
      (record { heap = λ a. none; c = none; watched = [] }) rounds

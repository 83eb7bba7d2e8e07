-- ===== src/Chat/First.antt =====
-- What the server of c/source/budget-chat/main.c comes to when the first client connects.
use network_exercises.Common.{
  ℕ, ◌<◌, ◌≡◌, arith, refl, Bool, true, false, none, some, List, [], ◌∷◌, length,
}
use network_exercises.Common.Int.{ℤ, pos, negsuc, pos_part, eq_ℤ}
use network_exercises.Run.{undefined}
use network_exercises.Memory.{Allocator, Serves}
use network_exercises.Net.{Answer}
use network_exercises.Poll.{fd_accept_and_epoll_add}
use network_exercises.Startup.{Log, System}
use network_exercises.Startup.Listen.{CanStart, set_up-CanStart}
use network_exercises.Rounds.{Round, got, handle_events, run_rounds}
use network_exercises.Chat.{Fresh}
use network_exercises.Chat.Room.{open_client-undefined}
use network_exercises.Chat.Server.{on_incoming}
use network_exercises.Chat.Main.{Event, incoming, handle_event, main}

-- Where the system lets the server start on a positive descriptor, with memory at hand: the first
-- client that connects makes the run undefined, whatever comes with it or after it.
pub main-undefined :
    {L : Type 0} {mem : Allocator ℕ} (log : Log L) (sys : System) (logs : L) (log_fd : ℕ) (fd : ℤ)
    (fuel junk : ℕ) (isalnum : ℕ → Bool) (conn a : ℕ) (fresh : Fresh) (answers : List (List Answer))
    (events : List Event) (rounds : List (Round Event))
    → Serves mem
    → CanStart log sys logs log_fd fd
    → 0 < pos_part fd
    → fresh.address ≡ some a
    → 0 < length fresh.name
    → main log fuel junk isalnum mem sys logs
        (got (incoming (pos conn) true fresh answers) events ∷ rounds)
      ≡ undefined
unfolding main run_rounds handle_events handle_event on_incoming fd_accept_and_epoll_add
main-undefined {mem = mem} log sys logs log_fd fd fuel junk isalnum conn a fresh answers events
      rounds serves can some_fd got_memory array =
    let there : eq_ℤ (pos conn) (negsuc 0) ≡ false = ground arith in
    rw
      (
        set_up-CanStart log sys logs log_fd fd can,
        there,
        open_client-undefined serves fresh a (λ b. none) fd
            (record { answers = answers; sent = [] }) got_memory array some_fd,
      )
      refl

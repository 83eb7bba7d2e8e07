-- ===== src/PrimeServer/Main.antt =====
-- `main` of c/source/prime-time/main.c: the start and the loop. It has no timeout: where `epoll_wait`
-- returns 0 there are no events.
use network_exercises.Common.{ℕ, List}
use network_exercises.Run.{Run, ok, ◌>>=◌}
use network_exercises.Memory.{Allocator}
use network_exercises.Startup.{Log, System, set_up}
use network_exercises.Rounds.{Round, Progress, running, run_rounds}
use network_exercises.PrimeTime.Json.{Json}
use network_exercises.PrimeTime.Request.{Request}
use network_exercises.Net.{Event}
use network_exercises.PrimeServer.{Server, handle_event, start}

unfoldable pub main :
    {L : Type 0}
    → Log L
    → Json
    → Allocator ℕ
    → Request
    → System
    → L
    → List (Round Event)
    → Run (Progress Server (Unit {0}) × List (List ℕ))
main log json mem curr sys logs rounds = do
  _ ← set_up log sys logs
  s ← start mem
  run_rounds (handle_event json mem curr) (λ s'. ok (running s')) s rounds

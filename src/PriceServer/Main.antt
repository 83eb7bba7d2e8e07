-- ===== src/PriceServer/Main.antt =====
-- `main` of c/source/means-to-an-end/main.c: the start and the loop.
use network_exercises.Common.{ℕ, List}
use network_exercises.Common.Int.{ℤ}
use network_exercises.Run.{Run, ok, ◌>>=◌}
use network_exercises.Memory.{Allocator}
use network_exercises.Prices.{AssetPrice}
use network_exercises.Links.{Heap}
use network_exercises.Poll.{unwatch}
use network_exercises.Startup.{Log, System, Started, set_up}
use network_exercises.Rounds.{Round, Progress, finished, run_rounds}
use network_exercises.Sessions.{Client, Addresses}
use network_exercises.Net.{Event}
use network_exercises.PriceServer.{Server, handle_event, start, on_timeout}

-- What is left when the server has ended: the heap, and the sockets that are open besides those of
-- the clients.
abbrev pub Ended : Type 0
Ended = Heap Client × List ℤ

-- `if (nfds == 0)`
unfoldable pub clean_up : {L : Type 0} → ℕ → Started L → Server → Run (Progress Server Ended)
clean_up fuel started s = do
  heap ← on_timeout fuel s
  ok (finished (heap, unwatch started.listen_fd started.opened))

unfoldable pub main :
    {L : Type 0}
    → Log L
    → Allocator ℕ
    → Allocator AssetPrice
    → ℕ
    → Addresses
    → System
    → L
    → List (Round Event)
    → Run (Progress Server Ended × List (List ℕ))
main log mem price_mem fuel malloc sys logs rounds = do
  started ← set_up log sys logs
  s ← start mem
  run_rounds (handle_event mem price_mem fuel malloc) (clean_up fuel started) s rounds

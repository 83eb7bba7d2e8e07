-- ===== src/PriceServer/Tests/Main.antt =====
-- A run of `main` of c/source/means-to-an-end/main.c with one client.
use network_exercises.Common.{◌≡◌, refl, subst, arith, [], ◌∷◌, ◌++◌}
use network_exercises.Common.Int.{pos}
use network_exercises.Run.{ok, Returns, ok-injective}
use network_exercises.Memory.Growing.{growing, growing-Serves}
use network_exercises.Queue.{init}
use network_exercises.Startup.Listen.{CanStart, first_usable}
use network_exercises.Startup.Sample.{log, system}
use network_exercises.Rounds.{timed_out}
use network_exercises.Rounds.Batches.{Batches, rounds_of, all_events}
use network_exercises.Net.{Event}
use network_exercises.PriceServer.{Server, start}
use network_exercises.PriceServer.Main.{main}
use network_exercises.PriceServer.Table.{watches}
use network_exercises.PriceServer.Running.{
  AdmitsAll, WaitsAfter, HasEnded, main-Waits, main-HasEnded,
}
use network_exercises.PriceServer.Tests.{blank, malloc, first_server}
use network_exercises.PriceServer.Tests.Runs.{comes}
use network_exercises.PriceServer.Tests.Ready.{asks_once, asks_once-Admits, few_after}

abbrev batches : Batches Event
batches = (comes, []) ∷ (asks_once, []) ∷ []

can : CanStart log system [] 7 (pos 3)
unfolding first_usable
can = (refl, refl, refl)

first_one : {s : Server} → start (growing 0) ≡ ok s → first_server ≡ s
unfolding start init
first_one e = ok-injective e

ad :
    (s : Server)
    → start (growing 0) ≡ ok s
    → AdmitsAll (growing 0) (growing blank) malloc 3 0 s (all_events batches)
unfolding AdmitsAll watches
ad s e =
    subst (λ t. AdmitsAll (growing 0) (growing blank) malloc 3 0 t (all_events batches))
      (first_one e)
      (
        (refl, refl, refl, (40, refl, refl), omega arith),
        λ s' wire ran.
            (asks_once-Admits s' wire ran, λ t out then. few_after s' t wire out ran then),
      )

main-Waits_example :
    Returns
      (λ (p, outs).
        WaitsAfter (growing-Serves 0) (growing-Serves blank) malloc 3 (all_events batches) p)
      (main log (growing 0) (growing blank) 3 malloc system [] (rounds_of batches ++ []))
main-Waits_example =
    main-Waits (growing-Serves 0) (growing-Serves blank) malloc 3 log system [] 7 (pos 3) batches
      can ad

main-HasEnded_example :
    Returns
      (λ (p, outs).
        HasEnded (growing-Serves 0) (growing-Serves blank) malloc 3 0 (all_events batches) p)
      (main log
        (growing 0)
        (growing blank)
        3
        malloc
        system
        []
        (rounds_of batches ++ timed_out ∷ []))
main-HasEnded_example =
    main-HasEnded (growing-Serves 0) (growing-Serves blank) malloc 3 log system [] 7 (pos 3) batches
      [] can ad

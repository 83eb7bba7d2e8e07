-- ===== src/Echo/Tests.antt =====
-- A client that sends seven bytes in two pieces.
use network_exercises.Common.{ℕ, List, length, ◌++◌, refl, arith, [], ◌∷◌, true}
use network_exercises.Run.{Returns}
use network_exercises.Memory.Growing.{growing, growing-Serves}
use network_exercises.Queue.{Queue}
use network_exercises.Net.{Inbox, End, took, Event, incoming, ready}
use network_exercises.Common.Int.{pos}
use network_exercises.Startup.Listen.{first_usable}
use network_exercises.Startup.Sample.{log, system}
use network_exercises.Rounds.Batches.{Batches, rounds_of}
use network_exercises.Echo.Main.{main}
use network_exercises.Echo.Connections.{AllServed, WaitsAfter, main-AllEchoed}

abbrev fresh : Queue
fresh = record { buf = 0 ∷ 0 ∷ 0 ∷ 0 ∷ []; capacity = 4; size = 0; free_capacity = 4; head = 0 }

abbrev inbox : Inbox
inbox = record { chunks = (1 ∷ 2 ∷ 3 ∷ 4 ∷ 5 ∷ []) ∷ (6 ∷ 7 ∷ []) ∷ []; end = End.would_block }

-- Two clients whose bytes mix.
abbrev hears : ℕ → List ℕ → Event
hears fd bytes =
    ready fd (record { chunks = bytes ∷ []; end = End.would_block }) (took (length bytes) ∷ []) true

abbrev batches : Batches Event
batches =
    (incoming (pos 5) true, incoming (pos 6) true ∷ hears 5 (1 ∷ 2 ∷ []) ∷ [])
    ∷ (hears 6 (9 ∷ []), hears 5 (3 ∷ []) ∷ [])
    ∷ []

main-AllEchoed_example :
    Returns
      (λ (p, outs). WaitsAfter batches p outs)
      (main log (growing 0) system [] (rounds_of batches ++ []))
unfolding AllServed first_usable
main-AllEchoed_example =
    main-AllEchoed (growing-Serves 0) log system [] 7 (pos 3) batches (refl, refl, refl)
      (
        (refl, refl),
        (
          (refl, refl),
          (
            (refl, omega arith, omega arith, omega arith, refl),
            (
              (refl, omega arith, omega arith, omega arith, refl),
              ((refl, omega arith, omega arith, omega arith, refl), tt),
            ),
          ),
        ),
      )

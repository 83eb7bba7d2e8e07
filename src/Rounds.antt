-- ===== src/Rounds.antt =====
-- The loops of the four `main` functions of c/source: what `epoll_wait` returns, round after round,
-- over any server, which is given by what it does for an event and for a timeout.
pub mod Batches
use network_exercises.Common.{List, [], ◌∷◌, ◌++◌}
use network_exercises.Run.{Run, ok, aborted, ◌>>=◌}

-- `nfds` is -1, 0, or the number of events, one at least.
pub data Round (E : Type 0) : Type 0 where
  wait_failed : Round E
  timed_out : Round E
  got : (first : E) (others : List E) → Round E

-- A server that waits for more, or has ended by `exit(EXIT_SUCCESS)`.
pub data Progress (S F : Type 0) : Type 0 where
  running : S → Progress S F
  finished : F → Progress S F

module _ {S E O : Type 0} (handle_event : S → E → Run (S × O)) where
  -- The loop over `n`, with what each event comes to.
  unfoldable pub handle_events : S → List E → Run (S × List O)
  handle_events s [] = ok (s, [])
  handle_events s (e ∷ events) = do
    (s', out) ← handle_event s e
    (s'', outs) ← handle_events s' events
    ok (s'', out ∷ outs)

  -- The endless loop, as far as the rounds go.
  unfoldable pub run_rounds :
      {F : Type 0} → (S → Run (Progress S F)) → S → List (Round E) → Run (Progress S F × List O)
  run_rounds on_timeout s [] = ok (running s, [])
  run_rounds on_timeout s (wait_failed ∷ rounds) = aborted
  run_rounds on_timeout s (timed_out ∷ rounds) = do
    p ← on_timeout s
    elim p [ running s' ↦ run_rounds on_timeout s' rounds | finished f ↦ ok (finished f, []) ]
  run_rounds on_timeout s (got first others ∷ rounds) = do
    (s', outs) ← handle_events s (first ∷ others)
    (p, more) ← run_rounds on_timeout s' rounds
    ok (p, outs ++ more)

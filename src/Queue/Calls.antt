-- ===== src/Queue/Calls.antt =====
-- A client's calls in order. No sequence of them tells a queue from a list of bytes: whatever the
-- buffer and its growth, each read returns what was pushed since the read before it.
use network_exercises.Common.{
  ℕ, ◌+◌, ◌<◌, ◌≡◌, refl, ap, ◌∙◌, List, [], ◌∷◌, ◌++◌, ◌^◌, arith, length, take-length,
}
use network_exercises.Common.Int.{pos_part}
use network_exercises.Run.{Run, ok, ◌>>=◌, Returns-bind, Returns-eq}
use network_exercises.Memory.{Allocator, Serves}
use network_exercises.Queue.{Queue, push, pop_no_copy, peek, reset}
use network_exercises.Queue.Valid.{IsValid, contents, size-empty}
use network_exercises.Queue.Push.{push-append}
use network_exercises.Queue.Pop.{pop_no_copy-contents, reset-IsValid, read}

pub data Call : Type 0 where
  put : List ℕ → Call
  get look clear : Call

-- What each call gives to the client, in order; `put` and `clear` give nothing.
pub run : Allocator ℕ → Queue → List Call → Run (List (List ℕ))
run mem qu [] = ok []
run mem qu (put bytes ∷ calls) = do qu' ← push mem qu bytes (length bytes); run mem qu' calls
run mem qu (get ∷ calls) =
    let (qu', bytes, n) = pop_no_copy qu in
    do rest ← run mem qu' calls; ok (read bytes (pos_part n) ∷ rest)
run mem qu (look ∷ calls) =
    let (bytes, n) = peek qu in do rest ← run mem qu calls; ok (read bytes (pos_part n) ∷ rest)
run mem qu (clear ∷ calls) = run mem (reset qu) calls

-- The same calls on a list of bytes.
unfoldable pub expected : List ℕ → List Call → List (List ℕ)
expected held [] = []
expected held (put bytes ∷ calls) = expected (held ++ bytes) calls
expected held (get ∷ calls) = held ∷ expected [] calls
expected held (look ∷ calls) = held ∷ expected held calls
expected held (clear ∷ calls) = expected [] calls

-- The bytes that the calls push in all.
abbrev pub pushed : List Call → ℕ
pushed [] = 0
pushed (put bytes ∷ calls) = length bytes + pushed calls
pushed (_ ∷ calls) = pushed calls

-- A run of calls on a valid queue returns what the same calls on the list of its bytes give, as
-- long as the allocator serves and fewer than 2^31 bytes are in play.
pub run-expected :
    {mem : Allocator ℕ} (qu : Queue) (calls : List Call)
    → Serves mem
    → IsValid qu
    → qu.size + pushed calls < 2 ^ 31
    → run mem qu calls ≡ ok (expected (contents qu) calls)
unfolding run expected
run-expected qu [] serves v few = refl
run-expected {mem} qu (put bytes ∷ calls) serves v few =
    Returns-eq (expected (contents qu ++ bytes) calls) _ (
      Returns-bind _ (λ l. l ≡ expected (contents qu ++ bytes) calls) _ (λ qu'. run mem qu' calls)
        (push-append serves qu bytes (length bytes) v (omega arith) (omega arith))
        (λ qu' (v', more, size).
          let all =
            more ∙ ap (λ l. contents qu ++ l) (take-length (length bytes) bytes (omega arith)) in
          rw (run-expected qu' calls serves v' (omega (arith, size))) (rw all refl)))
run-expected qu (get ∷ calls) serves v few =
    let (v', gone, n, bytes, _) = pop_no_copy-contents qu v (omega arith) in
    let size = size-empty (pop_no_copy qu).0 v' gone in
    rw (run-expected (pop_no_copy qu).0 calls serves v' (omega (arith, size)), gone, n, bytes)
run-expected qu (look ∷ calls) serves v few =
    let (v', gone, n, bytes, same) = pop_no_copy-contents qu v (omega arith) in
    rw (run-expected qu calls serves v few, same, n, bytes)
run-expected qu (clear ∷ calls) serves v few =
    let (v', gone) = reset-IsValid qu v in
    let size = size-empty (reset qu) v' gone in
    rw (run-expected (reset qu) calls serves v' (omega (arith, size)), gone)

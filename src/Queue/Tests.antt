-- ===== src/Queue/Tests.antt =====
-- Runs of the queue, and its theorems at them.
use network_exercises.Common.{ℕ, ◌≡◌, refl, arith, [], ◌∷◌, none, true, false}
use network_exercises.Run.{ok, Returns}
use network_exercises.Memory.{Allocator, memcpy}
use network_exercises.Memory.Growing.{growing, growing-Serves}
use network_exercises.Queue.{Queue, push, push_ex, expand_capacity, empty}
use network_exercises.Queue.Valid.{IsValid, contents}
use network_exercises.Queue.Grow.{Expanded, expand_capacity-Expanded}
use network_exercises.Queue.Push.{Holds, push-append, push_ex-extend}
use network_exercises.Queue.Calls.{put, get, look, clear, run, expected, run-expected}

abbrev mem : Allocator ℕ
mem = growing 0

abbrev starved : Allocator ℕ
starved = record { malloc = λ n. false; realloc = λ old n. none }

-- Three bytes, and two that stand behind the head.
abbrev three : Queue
three = record {
  buf = 1 ∷ 2 ∷ 3 ∷ 4 ∷ 5 ∷ 0 ∷ 0 ∷ 0 ∷ [];
  capacity = 8;
  size = 3;
  free_capacity = 5;
  head = 3;
}

three-IsValid : IsValid three
three-IsValid = omega arith

push_grows :
    Returns
      (λ qu. (qu.capacity ≡ 16) × (contents qu ≡ 1 ∷ 2 ∷ 3 ∷ 6 ∷ 7 ∷ []))
      (push mem three (6 ∷ 7 ∷ []) 2)
unfolding push expand_capacity memcpy
push_grows = (refl, refl)

empty_of_three : empty three ≡ true
unfolding empty
empty_of_three = refl

run-expected_example :
    run mem three (put (6 ∷ 7 ∷ []) ∷ look ∷ get ∷ get ∷ put (8 ∷ []) ∷ clear ∷ get ∷ [])
    ≡ ok ((1 ∷ 2 ∷ 3 ∷ 6 ∷ 7 ∷ []) ∷ (1 ∷ 2 ∷ 3 ∷ 6 ∷ 7 ∷ []) ∷ [] ∷ [] ∷ [])
unfolding expected
run-expected_example =
    run-expected three (put (6 ∷ 7 ∷ []) ∷ look ∷ get ∷ get ∷ put (8 ∷ []) ∷ clear ∷ get ∷ [])
      (growing-Serves 0) three-IsValid (omega arith)

push-append_example : Returns (Holds (1 ∷ 2 ∷ 3 ∷ 6 ∷ 7 ∷ []) 5) (push mem three (6 ∷ 7 ∷ []) 2)
push-append_example =
    push-append (growing-Serves 0) three (6 ∷ 7 ∷ []) 2 three-IsValid (omega arith) (omega arith)

push_ex-extend_example : Returns (Holds (1 ∷ 2 ∷ 3 ∷ 4 ∷ 5 ∷ []) 5) (push_ex mem three 2)
push_ex-extend_example =
    push_ex-extend (growing-Serves 0) three 2 three-IsValid (omega arith) (omega arith)

expand_capacity-Expanded_example : Returns (λ qu. Expanded three qu 5) (expand_capacity mem three 2)
expand_capacity-Expanded_example =
    expand_capacity-Expanded (growing-Serves 0) three 2 three-IsValid (omega arith) (omega arith)
      (omega arith)

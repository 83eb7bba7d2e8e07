-- ===== src/Queue/Pop.antt =====
-- `queue_init`, and the functions that read and empty a queue.
use network_exercises.Common.{
  ℕ, ◌^◌, ◌<◌, ◌≡◌, ◌⊎◌, refl, ap, sym, true, false, inl, inr, arith, Option, some, none, ltb, ◌==◌,
  List, [], Bool-cases, take,
}
use network_exercises.Common.Int.{pos}
use network_exercises.Common.Words.{to_int_small}
use network_exercises.Run.{Returns, ok, undefined}
use network_exercises.Memory.{Allocator, Serves}
use network_exercises.Queue.{Queue, init, init_data, reset, pop, pop_no_copy, peek}
use network_exercises.Queue.Valid.{IsValid, contents, limit}

-- A queue that is ready and holds nothing.
abbrev pub IsFresh : ℕ → Option Queue → Type 0
IsFresh capacity none = ⊥
IsFresh capacity (some qu) = IsValid qu × (qu.size ≡ 0) × (qu.capacity ≡ capacity)

-- With memory at hand `queue_init` makes an empty queue of the capacity asked for.
pub init-IsFresh :
    {mem : Allocator ℕ} (capacity : ℕ)
    → Serves mem
    → 0 < capacity
    → capacity < limit
    → Returns (IsFresh capacity) (init mem none capacity)
unfolding init init_data
init-IsFresh {mem} capacity serves h small =
    let (new, e, m) = serves.reallocs [] capacity (omega arith) in
    let positive : ltb 0 capacity ≡ true = ground arith in
    let nonzero : (capacity == 0) ≡ false = ground arith in
    let fits : ltb capacity 0 ≡ false = ground arith in
    rw positive (rw (serves.mallocs 40) (rw nonzero (rw fits (rw e (omega (arith, m.size))))))

-- When the allocation of the structure fails, `queue_init` writes through NULL.
pub init-undefined :
    (mem : Allocator ℕ) (capacity : ℕ)
    → 0 < capacity
    → mem.malloc 40 ≡ false
    → init mem none capacity ≡ undefined
unfolding init
init-undefined mem capacity h e =
    let positive : ltb 0 capacity ≡ true = ground arith in rw positive (rw e)

module _ (qu : Queue) (v : IsValid qu) where
  pub reset-IsValid : IsValid (reset qu) × (contents (reset qu) ≡ [])
  unfolding reset
  reset-IsValid = (omega arith, refl)

  -- An empty queue, and a buffer that is too small, leave everything as it was.
  pub pop-refused :
      (dst : List ℕ) (size : ℕ)
      → (qu.size ≡ 0) ⊎ (size < qu.size)
      → pop qu dst size ≡ ok (qu, dst, size)
  unfolding pop
  pop-refused dst size h = ground arith

-- What the caller reads through `*data` and the returned size.
abbrev pub read : Option (List ℕ) → ℕ → List ℕ
read none n = []
read (some b) n = take n b

-- `queue_pop_no_copy` returns the size, lets all the bytes be read, and empties the queue; on an
-- empty queue it returns 0. `queue_peek` returns the same, and changes nothing.
pub pop_no_copy-contents :
    (qu : Queue)
    → IsValid qu
    → qu.size < 2 ^ 31
    → let (qu', data', n) = pop_no_copy qu in
      IsValid qu'
      × (contents qu' ≡ [])
      × (n ≡ pos qu.size)
      × (read data' qu.size ≡ contents qu)
      × (peek qu ≡ (data', n))
unfolding pop_no_copy peek
pop_no_copy-contents qu v small = elim (Bool-cases (qu.size == 0)) [
  | inl e ↦
      let z : qu.size ≡ 0 = ground arith in
      rw e (v, ap (λ k. take k qu.buf) z, ap pos (sym z), sym (ap (λ k. take k qu.buf) z), refl)
  | inr e ↦
      rw e ((reset-IsValid qu v).0, (reset-IsValid qu v).1, to_int_small qu.size small, refl, refl)
]

-- A queue that is not empty.
pub pop_no_copy-some :
    (qu : Queue)
    → 0 < qu.size
    → qu.size < 2 ^ 31
    → pop_no_copy qu ≡ (reset qu, some qu.buf, pos qu.size)
unfolding pop_no_copy
pop_no_copy-some qu some_bytes small =
    let nonempty : (qu.size == 0) ≡ false = ground arith in
    rw (nonempty, to_int_small qu.size small)

pub pop_no_copy-none : (qu : Queue) → qu.size ≡ 0 → pop_no_copy qu ≡ (qu, none, pos 0)
unfolding pop_no_copy
pop_no_copy-none qu h = let e : (qu.size == 0) ≡ true = ground arith in rw e

pub peek-some : (qu : Queue) → 0 < qu.size → qu.size < 2 ^ 31 → peek qu ≡ (some qu.buf, pos qu.size)
unfolding peek
peek-some qu some_bytes small =
    let nonempty : (qu.size == 0) ≡ false = ground arith in
    rw (nonempty, to_int_small qu.size small)

pub peek-none : (qu : Queue) → qu.size ≡ 0 → peek qu ≡ (none, pos 0)
unfolding peek
peek-none qu h = let e : (qu.size == 0) ≡ true = ground arith in rw e

pub reset-size : (qu : Queue) → ((reset qu).size ≡ 0) × ((reset qu).capacity ≡ qu.capacity)
unfolding reset
reset-size qu = (refl, refl)

-- ===== src/Queue/Valid.antt =====
-- The representation invariant of `struct queue`, and what a queue holds.
use network_exercises.Common.{
  ℕ, ◌+◌, ◌-◌, ◌≤◌, ◌^◌, ◌<◌, ◌≡◌, List, arith, length, take, length-take, sym, ap, ◌∙◌, [],
}
use network_exercises.Queue.{Queue}

-- The sizes that a server meets, far below what a double represents exactly: a buffer, and the bytes
-- that a queue may be asked to hold.
abbrev pub limit : ℕ
limit = 2 ^ 48

abbrev pub max_bytes : ℕ
max_bytes = 2 ^ 44

-- There is always room for one more byte.
pub record IsValid (qu : Queue) : Type 0 where
  pub filled : length qu.buf ≡ qu.capacity
  pub small : qu.capacity < limit
  pub at_end : qu.head ≡ qu.size
  pub room : qu.size < qu.capacity
  pub rest : qu.free_capacity ≡ qu.capacity - qu.size

-- Two bytes can be read behind the contents.
abbrev pub Spare : Queue → Type 0
Spare qu = qu.size + 2 ≤ qu.capacity

-- The bytes that wait in the queue, oldest first.
abbrev pub contents : Queue → List ℕ
contents qu = take qu.size qu.buf

pub length-contents : (qu : Queue) → IsValid qu → length (contents qu) ≡ qu.size
length-contents qu v = omega (arith, length-take qu.size qu.buf)

pub size-empty : (qu : Queue) → IsValid qu → contents qu ≡ [] → qu.size ≡ 0
size-empty qu v e = sym (length-contents qu v) ∙ ap length e

-- ===== src/Queue.antt =====
-- c/source/utils/queue.c and queue.h: a growing byte queue. Pointers into the buffer are offsets, so
-- `head` is the offset of `qu->head` from `qu->data`. A parameter `struct queue* qu` that the code
-- asserts to be no NULL is a `Queue`; a `struct queue**` is an optional one.
pub mod Valid
pub mod Grow
pub mod Push
pub mod Pop
pub mod Calls
mod Tests
use network_exercises.Common.{
  ℕ, zero, suc, ◌+◌, ◌*◌, ◌/◌, ◌%◌, ◌^◌, Bool, true, false, Option, none, some, List, [], ltb, leb,
  ◌==◌, not, length, take, if◌then◌else◌,
}
use network_exercises.Common.Int.{ℤ, pos}
use network_exercises.Common.Words.{to_int}
use network_exercises.Run.{Run, ok, undefined, out_of_fuel, ◌>>=◌, ◌>>◌, assert, assert_some}
use network_exercises.Memory.{Allocator, memcpy, add64, sub64}

-- `struct queue`
pub record Queue : Type 0 where
  pub buf : List ℕ
  pub capacity : ℕ
  pub size : ℕ
  pub free_capacity : ℕ
  pub head : ℕ

-- `(size_t)((double)n * QUEUE_FREE_CAP_BUFFER)`; exact while `n` is below 2^51.
abbrev pub buffer : ℕ → ℕ
buffer n = n * 4 / 5

unfoldable pub init_data : Allocator ℕ → Queue → ℕ → Run Queue
init_data mem qu capacity =
    if capacity == 0 then ok qu else if ltb capacity qu.capacity then ok qu else do
      new_data ← assert_some (mem.realloc qu.buf capacity)
      ok (record {
        buf = new_data;
        capacity = capacity;
        size = qu.size;
        free_capacity = sub64 capacity qu.size;
        head = qu.size;
      })

-- The `while` loop of `queue_expand_capacity`, from a value of `new_cap`.
grow : ℕ → (size need new_cap : ℕ) → Run ℕ
grow zero size need new_cap = out_of_fuel
grow (suc fuel) size need new_cap =
    let more = grow fuel size need (new_cap * 2 % 2 ^ 64) in
    if leb (buffer (sub64 new_cap size)) need then more else ok new_cap

-- Doubling 64 times passes every `size_t`.
abbrev grow_fuel : ℕ
grow_fuel = 64

unfoldable pub expand_capacity : Allocator ℕ → Queue → ℕ → Run Queue
unfolding grow init_data
expand_capacity mem qu size =
    if size == 0
    then ok qu
    else if ltb (add64 qu.size size) (buffer qu.free_capacity)
    then ok qu
    else do
      new_cap ← grow grow_fuel qu.size (add64 qu.size size) (qu.capacity * 2 % 2 ^ 64)
      init_data mem qu new_cap

-- `malloc` is not checked: its assertion tests `qu`, not `*qu`, so a NULL is written through.
unfoldable pub init : Allocator ℕ → Option Queue → ℕ → Run (Option Queue)
unfolding init_data
init mem (some qu) capacity = ok (some qu)
init mem none capacity = do
  assert (ltb 0 capacity)
  if mem.malloc 40
      then (do
        qu ←
            init_data mem (record { buf = []; capacity = 0; size = 0; free_capacity = 0; head = 0 })
              capacity
        ok (some qu))
      else undefined

pub free : Option Queue → Option Queue
free _ = none

-- The test that comes first in `queue_push` and `queue_push_ex`.
unfoldable pub make_room : Allocator ℕ → Queue → ℕ → Run Queue
make_room mem qu size =
    if leb (buffer qu.free_capacity) (add64 qu.size size)
    then expand_capacity mem qu size
    else ok qu

-- The last three assignments of both.
abbrev advance : Queue → ℕ → Queue
advance qu size = record qu {
  head = qu.head + size;
  size = add64 qu.size size;
  free_capacity = sub64 qu.capacity (add64 qu.size size);
}

pub push : Allocator ℕ → Queue → List ℕ → ℕ → Run Queue
unfolding make_room
push mem qu src size = if size == 0 then ok qu else do
  qu' ← make_room mem qu size
  buf ← memcpy qu'.buf qu'.head src size
  ok (advance (record qu' { buf = buf }) size)

unfoldable pub push_ex : Allocator ℕ → Queue → ℕ → Run Queue
unfolding make_room
push_ex mem qu size =
    if size == 0 then ok qu else do qu' ← make_room mem qu size; ok (advance qu' size)

unfoldable pub reset : Queue → Queue
reset qu = record qu { size = 0; head = 0; free_capacity = qu.capacity }

-- The results are the queue, the caller's buffer and `*size`.
pub pop : Queue → List ℕ → ℕ → Run (Queue × List ℕ × ℕ)
unfolding reset
pop qu dst size =
    if qu.size == 0
    then ok (qu, dst, size)
    else if ltb size qu.size
    then ok (qu, dst, size)
    else do dst' ← memcpy dst 0 qu.buf qu.size; ok (reset qu, dst', qu.size)

-- What `*data` points to afterwards is the buffer; `none` leaves `*data` as it was.
pub pop_no_copy : Queue → Queue × Option (List ℕ) × ℤ
unfolding reset
pop_no_copy qu = if qu.size == 0 then (qu, none, pos 0) else (reset qu, some qu.buf, to_int qu.size)

pub peek : Queue → Option (List ℕ) × ℤ
peek qu = if qu.size == 0 then (none, pos 0) else (some qu.buf, to_int qu.size)

pub empty : Queue → Bool
empty qu = ltb 0 qu.size

-- ===== src/Queue/Grow.antt =====
-- The growth of the buffer: the loop of `queue_expand_capacity` ends, and its result has room.
use network_exercises.Common.{
  ℕ, zero, suc, ◌+◌, ◌-◌, ◌*◌, ◌%◌, ◌^◌, ◌≤◌, ◌<◌, ◌≡◌, ◌⊎◌, false, inl, inr, arith, leb, ltb,
  Bool-cases, length,
}
use network_exercises.Run.{Returns, Returns-mono, Returns-bind}
use network_exercises.Common.{refl, take, ◌==◌}
use network_exercises.Memory.{Allocator, Serves, add64, sub64}
use network_exercises.Queue.{Queue, buffer, grow, expand_capacity, init_data}
use network_exercises.Queue.Valid.{IsValid, max_bytes}

doubled : ℕ → ℕ → ℕ
doubled zero cap = cap
doubled (suc n) cap = doubled n (cap * 2)

-- What the loop is left with.
record Grown (size need cap new_cap : ℕ) : Type 0 where
  enough : need < buffer (new_cap - size)
  bigger : cap ≤ new_cap
  bound : (new_cap ≡ cap) ⊎ (new_cap ≤ 8 * (need + 1))

grow-Grown :
    (n size need cap : ℕ)
    → size ≤ need
    → need < 2 ^ 50
    → size ≤ cap
    → cap < 2 ^ 63
    → 4 * (need + 1) ≤ doubled n cap
    → Returns (Grown size need cap) (grow (suc n) size need cap)
unfolding grow doubled
grow-Grown zero size need cap fits small in_cap cap_small fuel = ground arith
grow-Grown (suc n) size need cap fits small in_cap cap_small fuel =
    elim (Bool-cases (leb (buffer (sub64 cap size)) need)) [
      | inl more ↦
          let tight : cap * 2 < 8 * (need + 1) = ground arith in
          let same : cap * 2 % 2 ^ 64 ≡ cap * 2 = omega arith in
          rw more (
            Returns-mono (Grown size need (cap * 2 % 2 ^ 64)) (Grown size need cap) _
              (grow-Grown n size need (cap * 2 % 2 ^ 64) fits small (omega arith) (omega arith)
                (rw same fuel))
              (λ c g. record {
                enough = g.enough;
                bigger = omega (arith, g.bigger);
                bound = inr (omega (arith, g.bound));
              }))
      | inr done ↦
          rw done (record { enough = ground arith; bigger = omega arith; bound = inl refl })
    ]

-- Doubling 63 times what is at least 1 passes every bound below `limit`.
doubled_fuel : (need cap : ℕ) → 0 < cap → need < 2 ^ 50 → 4 * (need + 1) ≤ doubled 63 cap
unfolding doubled
doubled_fuel need cap h k = omega arith

-- What `queue_expand_capacity` does with a queue that it grows.
pub record Expanded (qu qu' : Queue) (need : ℕ) : Type 0 where
  pub valid : IsValid qu'
  pub same_size : qu'.size ≡ qu.size
  pub same_bytes : take (length qu.buf) qu'.buf ≡ qu.buf
  pub roomy : need < buffer qu'.free_capacity

module _ {mem : Allocator ℕ} (serves : Serves mem) where
  init_data-Expanded :
      (qu : Queue) (need cap : ℕ)
      → IsValid qu
      → qu.capacity ≤ 4 * (need + 1)
      → need < max_bytes
      → Grown qu.size need (qu.capacity * 2 % 2 ^ 64) cap
      → Returns (λ qu'. Expanded qu qu' need) (init_data mem qu cap)
  unfolding init_data
  init_data-Expanded qu need cap v c n g =
      let (new, e, m) = serves.reallocs qu.buf cap (omega (arith, v.filled, g.bigger)) in
      let big : ltb cap qu.capacity ≡ false = ground (arith, g.bigger) in
      let nonzero : (cap == 0) ≡ false = ground (arith, g.bigger, v.room) in
      rw nonzero (
        rw big (
          rw e (record {
            valid = omega (arith, m.size, g.enough, g.bound, v.room);
            same_size = refl;
            same_bytes = m.kept;
            roomy = ground (arith, g.enough);
          })))

  -- A queue that has too little room for `size` more bytes is grown, and keeps its bytes.
  pub expand_capacity-Expanded :
      (qu : Queue) (size : ℕ)
      → IsValid qu
      → 0 < size
      → qu.size + size < max_bytes
      → buffer qu.free_capacity ≤ qu.size + size
      → Returns (λ qu'. Expanded qu qu' (qu.size + size)) (expand_capacity mem qu size)
  unfolding expand_capacity
  expand_capacity-Expanded qu size v pos n short =
      let nonzero : (size == 0) ≡ false = ground arith in
      let need : add64 qu.size size ≡ qu.size + size = omega arith in
      let late : ltb (qu.size + size) (buffer qu.free_capacity) ≡ false = ground arith in
      rw nonzero (
        rw need (
          rw late (
            Returns-bind (Grown qu.size (qu.size + size) (qu.capacity * 2 % 2 ^ 64))
              (λ qu'. Expanded qu qu' (qu.size + size)) _ _
              (grow-Grown 63 qu.size (qu.size + size) (qu.capacity * 2 % 2 ^ 64) (omega arith)
                (omega arith) (omega (arith, v.room)) (omega arith)
                (doubled_fuel (qu.size + size) (qu.capacity * 2 % 2 ^ 64) (omega (arith, v.room))
                  (omega arith)))
              (λ cap g.
                init_data-Expanded qu (qu.size + size) cap v (omega (arith, v.room, v.rest)) n g))))

-- ===== src/Links.antt =====
-- The doubly linked list of c/source/means-to-an-end/client-session.c and of
-- c/source/budget-chat/client.c, over a heap: the walks over its pointers and the relinking around
-- a node. `D` stands for the fields of a node besides `next` and `prev`.
pub mod Linked
pub mod Walk
pub mod Unlink
pub mod Append
pub mod Places
use network_exercises.Common.{ℕ, zero, suc, Bool, Option, none, some, ◌==◌, if◌then◌else◌}
use network_exercises.Common.Int.{ℤ, eq_ℤ}
use network_exercises.Run.{Run, ok, undefined, out_of_fuel, ◌>>=◌}

pub record Node (D : Type 0) : Type 0 where
  pub data_of : D
  pub next : Option ℕ
  pub prev : Option ℕ

-- What stands at an address: a live node, or nothing that may be read.
abbrev pub Heap : Type 0 → Type 0
Heap D = ℕ → Option (Node D)

abbrev pub some_or {ℓ} : {A : Type ℓ} → Option A → Run A
some_or none = undefined
some_or (some a) = ok a

-- `prev` if there is one, else `next`.
abbrev pub neighbour : Option ℕ → Option ℕ → Option ℕ
neighbour (some p) next = some p
neighbour none next = next

module _ {D : Type 0} where
  -- `*a`, `*a = n` and `free(a)`.
  abbrev pub fetch : Heap D → ℕ → Run (Node D)
  fetch h a = some_or (h a)

  unfoldable pub write : Heap D → ℕ → Node D → Heap D
  write h a n b = if b == a then some n else h b

  unfoldable pub erase : Heap D → ℕ → Heap D
  erase h a b = if b == a then none else h b

  -- The `while` loops over `prev` and over `next`.
  unfoldable pub back : ℕ → Heap D → (prev : Option ℕ) → (first : ℕ) → Run ℕ
  back zero h prev first = out_of_fuel
  back (suc fuel) h none first = ok first
  back (suc fuel) h (some p) first = do n ← fetch h p; back fuel h n.prev p

  unfoldable pub ahead : ℕ → Heap D → (next : Option ℕ) → (last : ℕ) → Run ℕ
  ahead zero h next last = out_of_fuel
  ahead (suc fuel) h none last = ok last
  ahead (suc fuel) h (some p) last = do n ← fetch h p; ahead fuel h n.next p

  -- The `do` loop that looks for an identifier from `curr` on.
  unfoldable pub search : (D → ℤ) → ℕ → Heap D → ℤ → Option ℕ → Run (Option ℕ)
  search id zero h wanted curr = out_of_fuel
  search id (suc fuel) h wanted none = ok none
  search id (suc fuel) h wanted (some c) = do
    n ← fetch h c
    let rest = search id fuel h wanted n.next
    if eq_ℤ (id n.data_of) wanted then ok (some c) else rest

  -- `p->next = to` and `p->prev = to` where `p` is no NULL.
  unfoldable pub set_next : Heap D → Option ℕ → Option ℕ → Run (Heap D)
  set_next h none to = ok h
  set_next h (some p) to = do n ← fetch h p; ok (write h p (record n { next = to }))

  unfoldable pub set_prev : Heap D → Option ℕ → Option ℕ → Run (Heap D)
  set_prev h none to = ok h
  set_prev h (some p) to = do n ← fetch h p; ok (write h p (record n { prev = to }))

  -- A node is taken out and freed; the result is the heap and where the pointer goes.
  unfoldable pub unlink : Heap D → ℕ → Run (Heap D × Option ℕ)
  unlink h curr = do
    n ← fetch h curr
    h1 ← set_next h n.prev n.next
    h2 ← set_prev h1 n.next n.prev
    ok (erase h2 curr, neighbour n.prev n.next)

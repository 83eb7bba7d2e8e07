-- ===== src/Memory.antt =====
-- The C library's memory calls, which the program uses and does not implement: the allocator is a
-- parameter, `memcpy` checks the two objects that it touches.
pub mod Growing
use network_exercises.Common.{
  ℕ, lt→ltb, lt→leb-false, ◌<◌, ◌+◌, ◌-◌, ◌%◌, ◌^◌, ◌≤◌, ◌≡◌, Bool, true, Option, none, some,
  get_elem?, set, List, ◌++◌, ◌&&◌, ltb, leb, length, take, drop, if◌then◌else◌,
}
use network_exercises.Run.{Run, ok, undefined}

-- `malloc n` says whether an allocation of `n` bytes succeeds. `realloc` and `reallocarray` return
-- an array of the given number of elements, or NULL. `[]` stands for the NULL that is handed in.
pub record Allocator (A : Type 0) : Type 0 where
  pub malloc : ℕ → Bool
  pub realloc : List A → ℕ → Option (List A)

-- What `realloc` documents of a block that it moved: its size, and the old bytes at the front.
pub record Moved {A : Type 0} (old new : List A) (n : ℕ) : Type 0 where
  pub size : length new ≡ n
  pub kept : take (length old) new ≡ old

-- Memory does not run out. What a grown block holds behind the old bytes is arbitrary.
pub record Serves {A : Type 0} (mem : Allocator A) : Type 0 where
  pub mallocs : (n : ℕ) → mem.malloc n ≡ true
  pub reallocs :
      (old : List A) (n : ℕ)
      → length old ≤ n
      → (new : List A) × (mem.realloc old n ≡ some new) × Moved old new n

-- `memcpy(dst + at, src, n)`
unfoldable pub memcpy : {A : Type 0} → List A → ℕ → List A → ℕ → Run (List A)
memcpy dst at src n =
    if leb n (length src) && leb (at + n) (length dst)
    then ok (take at dst ++ (take n src ++ drop (at + n) dst))
    else undefined

-- `size_t` arithmetic
abbrev pub add64 : ℕ → ℕ → ℕ
add64 a b = (a + b) % 2 ^ 64

abbrev pub sub64 : ℕ → ℕ → ℕ
sub64 a b = (a + 2 ^ 64 - b) % 2 ^ 64

-- `a[i]` as a value, and `a[i] = x`.
unfoldable pub load : {A : Type 0} → List A → ℕ → Run A
load a i = elim (get_elem? a i) [ none ↦ undefined | some x ↦ ok x ]

unfoldable pub assign : {A : Type 0} → List A → ℕ → A → Run (List A)
assign a i x = if ltb i (length a) then ok (set a i x) else undefined

pub load-ok : {A : Type 0} (a : List A) (i : ℕ) (x : A) → get_elem? a i ≡ some x → load a i ≡ ok x
unfolding load
load-ok a i x e = rw (e, load)

pub assign-ok :
    {A : Type 0} (a : List A) (i : ℕ) (x : A) → i < length a → assign a i x ≡ ok (set a i x)
unfolding assign
assign-ok a i x h = rw (lt→ltb _ _ h)

pub memcpy-undefined :
    {A : Type 0} (dst : List A) (at : ℕ) (src : List A) (n : ℕ)
    → length src < n
    → memcpy dst at src n ≡ undefined
unfolding memcpy
memcpy-undefined dst at src n h = rw (lt→leb-false _ _ h)

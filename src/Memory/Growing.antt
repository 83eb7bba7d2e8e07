-- ===== src/Memory/Growing.antt =====
-- An allocator that always serves: it shows that what the theorems ask of one can be met.
use network_exercises.Common.{
  ℕ, ◌≤◌, refl, ◌∙◌, arith, true, some, List, ◌++◌, length, take, replicate, length-take,
  length-append, length-replicate, take-take, take-append,
}
use network_exercises.Memory.{Allocator, Moved, Serves}

-- New cells hold `x`.
abbrev pub growing : {A : Type 0} → A → Allocator A
growing x = record { malloc = λ n. true; realloc = λ old n. some (take n (old ++ replicate n x)) }

growing-Moved :
    {A : Type 0} (x : A) (old : List A) (n : ℕ)
    → length old ≤ n
    → Moved old (take n (old ++ replicate n x)) n
growing-Moved x old n h = record {
  size = omega (
    arith,
    length-take n (old ++ replicate n x),
    length-append old (replicate n x),
    length-replicate n x,
  );
  kept =
      take-take (length old) n (old ++ replicate n x) h
      ∙ take-append old (replicate n x) (length old) refl;
}

pub growing-Serves : {A : Type 0} (x : A) → Serves (growing x)
growing-Serves x = record {
  mallocs = λ n. refl;
  reallocs = λ old n h. (take n (old ++ replicate n x), refl, growing-Moved x old n h);
}

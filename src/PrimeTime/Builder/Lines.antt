-- ===== src/PrimeTime/Builder/Lines.antt =====
-- Lines and how `strtok_r` cuts them: each non-empty line is one token, and its newline a NUL.
use network_exercises.Common.{
  ℕ, zero, suc, ◌+◌, ◌-◌, ◌<◌, ◌≡◌, ◌≢◌, refl, ap, ap₂, sym, ◌∙◌, arith, true, false, List, [], ◌∷◌,
  ◌++◌, none, some, length, take, drop, set, get_elem?, get_elem?-append, length-append,
  drop-append, take-append, set-append, append_assoc, ◌==◌, ◌||◌,
}
use network_exercises.Run.{ok}
use network_exercises.Memory.{load, load-ok, assign, assign-ok}
use network_exercises.PrimeTime.Builder.{delimiter, span, cspan, strtok, token_at}

-- Bytes that neither end a line nor a text.
abbrev pub IsText : List ℕ → Type 0
IsText [] = Unit {0}
IsText (c ∷ l) = ((c ≢ delimiter) × (c ≢ 0)) × IsText l

abbrev pub IsLine : List ℕ → Type 0
IsLine [] = ⊥
IsLine (c ∷ l) = IsText (c ∷ l)

abbrev pub AllLines : List (List ℕ) → Type 0
AllLines [] = Unit {0}
AllLines (l ∷ ls) = IsLine l × AllLines ls

-- The lines with a newline behind each.
unfoldable pub joined : List (List ℕ) → List ℕ
joined [] = []
joined (l ∷ ls) = l ++ (delimiter ∷ joined ls)

-- A byte of a buffer whose front is known.
load-append :
    (before ys : List ℕ) (at i c : ℕ)
    → length before ≡ at
    → get_elem? ys i ≡ some c
    → load (before ++ ys) (at + i) ≡ ok c
load-append before ys at i c h e =
    load-ok (before ++ ys) (at + i) c (get_elem?-append before ys at i h ∙ e)

load_first :
    (before ys : List ℕ) (at c : ℕ) → length before ≡ at → load (before ++ (c ∷ ys)) at ≡ ok c
load_first before ys at c h =
    let e : at + 0 ≡ at = omega arith in rw (← e) (load-append before (c ∷ ys) at 0 c h refl)

cspan_text :
    (fuel : ℕ) (before l more : List ℕ) (at c : ℕ)
    → length before ≡ at
    → IsText l
    → length l < fuel
    → (c == delimiter || c == 0) ≡ true
    → cspan fuel (before ++ (l ++ (c ∷ more))) at ≡ ok (at + length l)
unfolding cspan
cspan_text zero before l more at c h t enough stop = absurd (omega arith)
cspan_text (suc fuel) before [] more at c h t enough stop =
    rw (load_first before more at c h, stop) (ap ok (omega arith))
cspan_text (suc fuel) before (d ∷ l) more at c h t enough stop =
    let first = load_first before (l ++ (c ∷ more)) at d h in
    let goes_on : (d == delimiter || d == 0) ≡ false = ground (arith, t.0) in
    let shift = append_assoc before (d ∷ []) (l ++ (c ∷ more)) in
    rw (first, goes_on, ← shift)
      (cspan_text fuel (before ++ d ∷ []) l more (at + 1) c
          (omega (arith, length-append before (d ∷ []))) t.1 (omega arith) stop
        ∙ ap ok (omega arith))

span_stays :
    (fuel : ℕ) (before ys : List ℕ) (at c : ℕ)
    → length before ≡ at
    → c ≢ delimiter
    → 0 < fuel
    → span fuel (before ++ (c ∷ ys)) at ≡ ok at
unfolding span
span_stays zero before ys at c h ne pos = absurd (omega arith)
span_stays (suc fuel) before ys at c h ne pos =
    let other : (c == delimiter) ≡ false = ground arith in rw (load_first before ys at c h, other)

-- What `strtok_r` does where a line ends.
record CutHere (before l more : List ℕ) (at : ℕ) : Type 0 where
  last : load (before ++ (l ++ (delimiter ∷ more))) (at + length l) ≡ ok delimiter
  cut :
      assign (before ++ (l ++ (delimiter ∷ more))) (at + length l) 0
      ≡ ok (set (before ++ (l ++ (delimiter ∷ more))) (at + length l) 0)
  marked : set (before ++ (l ++ (delimiter ∷ more))) (at + length l) 0 ≡ before ++ (l ++ (0 ∷ more))
  text : take (at + length l - at) (drop at (before ++ (l ++ (delimiter ∷ more)))) ≡ l

cut_here : (before l more : List ℕ) (at : ℕ) → length before ≡ at → CutHere before l more at
cut_here before l more at h =
    let shift = append_assoc before l (delimiter ∷ more) in
    let whole : length (before ++ l) ≡ at + length l = omega (arith, length-append before l) in
    let end : at + length l ≡ at + length l + 0 = omega arith in
    let inside : at + length l < length (before ++ (l ++ (delimiter ∷ more))) =
      omega (
        arith,
        length-append before (l ++ (delimiter ∷ more)),
        length-append l (delimiter ∷ more),
      ) in
    record {
      last = rw (← shift) (load_first (before ++ l) more (at + length l) delimiter whole);
      cut = assign-ok (before ++ (l ++ (delimiter ∷ more))) (at + length l) 0 inside;
      marked =
          ap₂ (λ b k. set b k 0) (sym shift) end
          ∙ set-append (before ++ l) (delimiter ∷ more) (at + length l) 0 0 whole
          ∙ append_assoc before l (0 ∷ more);
      text =
          ap (take (at + length l - at)) (drop-append before (l ++ (delimiter ∷ more)) at h)
          ∙ take-append l (delimiter ∷ more) (at + length l - at) (omega arith);
    }

-- At the start of a line `strtok_r` returns the line, and goes on behind its newline.
pub strtok_line :
    (before l more : List ℕ) (at : ℕ)
    → length before ≡ at
    → IsLine l
    → strtok (before ++ (l ++ (delimiter ∷ more))) at
      ≡ ok (some (token_at at l), before ++ (l ++ (0 ∷ more)), at + length l + 1)
unfolding strtok
strtok_line before [] more at h line = absurd line
strtok_line before (c ∷ l) more at h line =
    let buf : List ℕ = before ++ (c ∷ l ++ (delimiter ∷ more)) in
    let long : length buf ≡ at + (length (c ∷ l) + suc (length more)) = omega (
      arith,
      length-append before (c ∷ l ++ (delimiter ∷ more)),
      length-append (c ∷ l) (delimiter ∷ more),
    ) in
    let begin =
      span_stays (length buf + 1) before (l ++ (delimiter ∷ more)) at c h line.0.0 (omega arith) in
    let first = load_first before (l ++ (delimiter ∷ more)) at c h in
    let letter : (c == 0) ≡ false = ground (arith, line.0.1) in
    let stop =
      cspan_text (length buf + 1) before (c ∷ l) more at delimiter h line (omega (arith, long))
        refl in
    let there = cut_here before (c ∷ l) more at h in
    rw (begin, first, letter, stop, there.last, there.cut)
      (λ i. ok (some (token_at at (there.text i)), there.marked i, at + length (c ∷ l) + 1))

-- At a NUL there is no further token.
pub strtok_end :
    (before rest : List ℕ) (at : ℕ)
    → length before ≡ at
    → strtok (before ++ (0 ∷ rest)) at ≡ ok (none, before ++ (0 ∷ rest), at)
unfolding strtok
strtok_end before rest at h =
    let begin =
      span_stays (length (before ++ (0 ∷ rest)) + 1) before rest at 0 h (omega arith)
        (omega arith) in
    let first = load_first before rest at 0 h in rw (begin, first)

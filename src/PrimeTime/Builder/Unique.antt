-- ===== src/PrimeTime/Builder/Unique.antt =====
-- The responses to lines are decided by the lines, and no longer than a bound.
use network_exercises.Common.{
  ℕ, ◌*◌, ◌≤◌, ◌<◌, ◌≡◌, ◌↔◌, ◌⊎◌, inl, inr, refl, sym, ap, ap₂, subst, ◌∙◌, arith, true, false,
  Bool, List, [], ◌∷◌, ◌++◌, Option, none, some, length, length-append,
}
use network_exercises.Common.Int.{ℤ}
use mathlib.Core.Option.{none-ne-some, some-injective}
use network_exercises.PrimeTime.Request.{response_format}
use network_exercises.PrimeTime.Builder.Answers.{Answer, longest}
use network_exercises.PrimeTime.Builder.Round.{Answers, done, last, more, handled}

Bool-iff : (x y : Bool) → ((x ≡ true) ↔ (y ≡ true)) → x ≡ y
Bool-iff true y e = sym (e.0 refl)
Bool-iff false true e = e.1 refl
Bool-iff false false e = refl

Answer-unique : (v : Option ℤ) (a b : List ℕ) → Answer v a → Answer v b → a ≡ b
Answer-unique none a b p q = p ∙ sym q
Answer-unique (some z) a b (x, dx, p) (y, dy, q) =
    p ∙ ap response_format (Bool-iff x y (λ e. dy.1 (dx.0 e), λ e. dx.1 (dy.0 e))) ∙ sym q

response_short : (b : Bool) → length (response_format b) ≤ longest
response_short true = omega arith
response_short false = omega arith

module _ (v : List ℕ → Option ℤ) where
  -- What the responses to some lines are.
  abbrev Shape : List (List ℕ) → List ℕ → Type 0
  Shape [] b = b ≡ []
  Shape (l ∷ ls) b =
      ((v l ≡ none) × Answer none b)
      ⊎ ((z : ℤ) × (one : List ℕ) × (rest : List ℕ) × (v l ≡ some z)
          × Answer (some z) one
          × Answers v ls rest
          × (b ≡ one ++ rest))

  Answers-Shape : {ls : List (List ℕ)} {b : List ℕ} → Answers v ls b → Shape ls b
  Answers-Shape done = refl
  Answers-Shape (last l ls one e p) = inl (e, p)
  Answers-Shape (more l ls one rest out z e p ps i) = inr (z, one, rest, e, p, ps, i)

  pub Answers-unique : (ls : List (List ℕ)) (a b : List ℕ) → Answers v ls a → Answers v ls b → a ≡ b
  Answers-unique [] a b p q = Answers-Shape p ∙ sym (Answers-Shape q)
  Answers-unique (l ∷ ls) a b p q = elim (Answers-Shape p) [
    | inl (e, one) ↦ elim (Answers-Shape q) [
      | inl (f, other) ↦ one ∙ sym other
      | inr (z, _, _, f, _, _, _) ↦ absurd (none-ne-some _ (sym e ∙ f))
    ]
    | inr (z, first, rest, e, one, more_a, i) ↦ elim (Answers-Shape q) [
      | inl (f, _) ↦ absurd (none-ne-some _ (sym f ∙ e))
      | inr (z', first', rest', f, other, more_b, j) ↦
          let same : z ≡ z' = some-injective _ _ (sym e ∙ f) in
          i
          ∙ ap₂ (λ x y. x ++ y)
              (Answer-unique (some z) first first' one
                (subst (λ k. Answer (some k) first') (sym same) other))
              (Answers-unique ls rest rest' more_a more_b)
          ∙ sym j
    ]
  ]

  -- At least one line gets a response.
  pub handled-some : (ls : List (List ℕ)) → 0 < length ls → 0 < handled v ls
  unfolding handled
  handled-some [] h = absurd (omega arith)
  handled-some (l ∷ ls) h = ground arith

  pub Answers-length :
      (ls : List (List ℕ)) (a : List ℕ) → Answers v ls a → length a ≤ longest * length ls
  Answers-length [] a p = omega (arith, ap length (Answers-Shape p))
  Answers-length (l ∷ ls) a p = elim (Answers-Shape p) [
    | inl (e, one) ↦ omega (arith, ap length one)
    | inr (z, first, rest, e, (b, d, one), more_a, i) ↦ omega (
      arith,
      ap length i,
      length-append first rest,
      ap length one,
      response_short b,
      Answers-length ls rest more_a,
    )
  ]

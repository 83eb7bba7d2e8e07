-- ===== src/PriceServer/Lookup.antt =====
-- A session that is looked up after the sessions have changed.
use network_exercises.Common.{
  ℕ, ◌≡◌, refl, sym, ap, subst, ◌∙◌, arith, true, false, inl, inr, ◌⊎◌, none, some, [], ◌∷◌, ◌++◌,
  Bool-cases,
}
use network_exercises.Common.Int.{ℤ, eq_ℤ}
use mathlib.Core.Option.{none-ne-some, some-injective}
use network_exercises.Links.Append.{
  lookup, without, replaced, lookup-hit, lookup-miss, without-hit, without-miss, replaced-hit,
  replaced-miss,
}
use network_exercises.Sessions.{Client}
use network_exercises.Sessions.Find.{Sessions, id_of}
use network_exercises.PriceServer.Table.{ids, watches, AllOnce, eq_ℤ→eq}

-- A descriptor that is not watched has no session.
pub lookup-unwatched :
    (fd : ℤ) (xs : Sessions) → watches fd (ids xs) ≡ false → lookup id_of fd xs ≡ none
unfolding watches lookup
lookup-unwatched fd [] h = refl
lookup-unwatched fd ((a, c) ∷ xs) h = elim (Bool-cases (eq_ℤ c.client_id fd)) [
  | inl hit ↦ absurd (ground (arith, hit))
  | inr miss ↦ rw miss (lookup-unwatched fd xs (ground (arith, miss)))
]

pub lookup-append :
    (fd : ℤ) (xs : Sessions) (a : ℕ) (c d : Client)
    → lookup id_of fd (xs ++ (a, c) ∷ []) ≡ some d
    → (lookup id_of fd xs ≡ some d) ⊎ ((eq_ℤ c.client_id fd ≡ true) × (c ≡ d))
unfolding lookup
lookup-append fd [] a c d e = elim (Bool-cases (eq_ℤ c.client_id fd)) [
  | inl hit ↦ inr (hit, some-injective _ _ (rw hit at e))
  | inr miss ↦ absurd (none-ne-some _ (rw miss at e))
]
lookup-append fd ((b, x) ∷ xs) a c d e = elim (Bool-cases (eq_ℤ x.client_id fd)) [
  | inl hit ↦ inl (rw hit (rw hit at e))
  | inr miss ↦ rw miss (lookup-append fd xs a c d (rw miss at e))
]

-- Another descriptor than the one that changes.
module _ (fd other : ℤ) (differ : eq_ℤ fd other ≡ false) where
  differs : (c : Client) → eq_ℤ c.client_id fd ≡ true → eq_ℤ c.client_id other ≡ false
  differs c hit = ap (λ i. eq_ℤ i other) (eq_ℤ→eq c.client_id fd hit) ∙ differ

  lookup-tail :
      (a : ℕ) (c : Client) (xs ys : Sessions)
      → lookup id_of other xs ≡ lookup id_of other ys
      → lookup id_of other ((a, c) ∷ xs) ≡ lookup id_of other ((a, c) ∷ ys)
  unfolding lookup
  lookup-tail a c xs ys same = rw same refl

  pub lookup-replaced-other :
      (new : Client) (xs : Sessions)
      → eq_ℤ new.client_id fd ≡ true
      → lookup id_of other (replaced id_of fd new xs) ≡ lookup id_of other xs
  lookup-replaced-other new [] same = unfold lookup replaced in refl
  lookup-replaced-other new ((a, c) ∷ xs) same = elim (Bool-cases (eq_ℤ c.client_id fd)) [
    | inl hit ↦
        ap (lookup id_of other) (replaced-hit id_of fd new a c xs hit)
        ∙ lookup-miss id_of other a new xs (differs new same)
        ∙ sym (lookup-miss id_of other a c xs (differs c hit))
    | inr miss ↦
        ap (lookup id_of other) (replaced-miss id_of fd new a c xs miss)
        ∙ lookup-tail a c (replaced id_of fd new xs) xs (lookup-replaced-other new xs same)
  ]

  pub lookup-without-other :
      (xs : Sessions) → lookup id_of other (without id_of fd xs) ≡ lookup id_of other xs
  lookup-without-other [] = unfold lookup without in refl
  lookup-without-other ((a, c) ∷ xs) = elim (Bool-cases (eq_ℤ c.client_id fd)) [
    | inl hit ↦
        ap (lookup id_of other) (without-hit id_of fd a c xs hit)
        ∙ sym (lookup-miss id_of other a c xs (differs c hit))
    | inr miss ↦
        ap (lookup id_of other) (without-miss id_of fd a c xs miss)
        ∙ lookup-tail a c (without id_of fd xs) xs (lookup-without-other xs)
  ]

-- The descriptor that changes.
pub lookup-replaced_self :
    (fd : ℤ) (new d : Client) (xs : Sessions)
    → eq_ℤ new.client_id fd ≡ true
    → lookup id_of fd (replaced id_of fd new xs) ≡ some d
    → new ≡ d
lookup-replaced_self fd new d [] same e = unfold lookup replaced in absurd (none-ne-some _ e)
lookup-replaced_self fd new d ((a, c) ∷ xs) same e = elim (Bool-cases (eq_ℤ c.client_id fd)) [
  | inl hit ↦ some-injective _ _ (
      sym (lookup-hit id_of fd a new xs same)
      ∙ sym (ap (lookup id_of fd) (replaced-hit id_of fd new a c xs hit))
      ∙ e)
  | inr miss ↦ lookup-replaced_self fd new d xs same (
      sym (lookup-miss id_of fd a c (replaced id_of fd new xs) miss)
      ∙ sym (ap (lookup id_of fd) (replaced-miss id_of fd new a c xs miss))
      ∙ e)
]

pub lookup-without_self :
    (fd : ℤ) (xs : Sessions) → AllOnce (ids xs) → lookup id_of fd (without id_of fd xs) ≡ none
lookup-without_self fd [] once = unfold lookup without in refl
lookup-without_self fd ((a, c) ∷ xs) once = elim (Bool-cases (eq_ℤ c.client_id fd)) [
  | inl hit ↦
      ap (lookup id_of fd) (without-hit id_of fd a c xs hit)
      ∙ lookup-unwatched fd xs
          (ap (λ i. watches i (ids xs)) (sym (eq_ℤ→eq c.client_id fd hit)) ∙ once.0)
  | inr miss ↦
      ap (lookup id_of fd) (without-miss id_of fd a c xs miss)
      ∙ lookup-miss id_of fd a c (without id_of fd xs) miss
      ∙ lookup-without_self fd xs once.1
]

-- The session that is found is the descriptor's.
pub lookup-id :
    (fd : ℤ) (xs : Sessions) (c : Client) → lookup id_of fd xs ≡ some c → eq_ℤ c.client_id fd ≡ true
unfolding lookup
lookup-id fd [] c e = absurd (none-ne-some _ e)
lookup-id fd ((a, x) ∷ xs) c e = elim (Bool-cases (eq_ℤ x.client_id fd)) [
  | inl hit ↦ subst (λ d. eq_ℤ d.client_id fd ≡ true) (some-injective _ _ (rw hit at e)) hit
  | inr miss ↦ lookup-id fd xs c (rw miss at e)
]

-- ===== src/Links/Walk.antt =====
-- The loops over the links end where they should.
use network_exercises.Common.{
  ℕ, zero, suc, ◌<◌, ◌≡◌, refl, Option, none, some, List, [], ◌∷◌, length, if◌then◌else◌, arith,
}
use network_exercises.Common.Int.{ℤ, eq_ℤ}
use network_exercises.Run.{ok}
use network_exercises.Links.{Heap, back, ahead, search}
use network_exercises.Links.Linked.{addr, Ahead, Behind, onto}

module _ {D : Type 0} where
  -- The last address of a list that goes on from `a`.
  abbrev pub farthest : ℕ → List (ℕ × D) → ℕ
  farthest a [] = a
  farthest a ((b, d) ∷ xs) = farthest b xs

  pub back-farthest :
      (fuel : ℕ) (h : Heap D) (a : ℕ) (rs : List (ℕ × D))
      → Behind h (some a) rs
      → length rs < fuel
      → back fuel h (addr rs) a ≡ ok (farthest a rs)
  unfolding back
  back-farthest zero h a rs b enough = absurd (omega arith)
  back-farthest (suc fuel) h a [] b enough = refl
  back-farthest (suc fuel) h a ((c, d) ∷ rs) b enough =
      rw b.0 (back-farthest fuel h c rs b.1 (omega arith))

  pub ahead-farthest :
      (fuel : ℕ) (h : Heap D) (a : ℕ) (xs : List (ℕ × D))
      → Ahead h (some a) xs
      → length xs < fuel
      → ahead fuel h (addr xs) a ≡ ok (farthest a xs)
  unfolding ahead
  ahead-farthest zero h a xs b enough = absurd (omega arith)
  ahead-farthest (suc fuel) h a [] b enough = refl
  ahead-farthest (suc fuel) h a ((c, d) ∷ xs) b enough =
      rw b.0 (ahead-farthest fuel h c xs b.1 (omega arith))

  -- The walk back ends at the first node of the whole list.
  pub onto-first :
      (a : ℕ) (d : D) (rs xs : List (ℕ × D)) → addr (onto rs ((a, d) ∷ xs)) ≡ some (farthest a rs)
  unfolding onto
  onto-first a d [] xs = refl
  onto-first a d ((b, e) ∷ rs) xs = onto-first b e rs ((a, d) ∷ xs)

  -- The address of the first node with an identifier.
  unfoldable pub found : (D → ℤ) → ℤ → List (ℕ × D) → Option ℕ
  found id wanted [] = none
  found id wanted ((a, d) ∷ xs) =
      let rest = found id wanted xs in if eq_ℤ (id d) wanted then some a else rest

  pub search-found :
      (id : D → ℤ) (fuel : ℕ) (h : Heap D) (wanted : ℤ) (prev : Option ℕ) (xs : List (ℕ × D))
      → Ahead h prev xs
      → length xs < fuel
      → search id fuel h wanted (addr xs) ≡ ok (found id wanted xs)
  unfolding search found
  search-found id zero h wanted prev xs b enough = absurd (omega arith)
  search-found id (suc fuel) h wanted prev [] b enough = refl
  search-found id (suc fuel) h wanted prev ((a, d) ∷ xs) b enough =
      rw (b.0, search-found id fuel h wanted (some a) xs b.1 (omega arith)) (ground arith)

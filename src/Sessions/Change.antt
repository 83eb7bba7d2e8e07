-- ===== src/Sessions/Change.antt =====
-- Adding and removing sessions.
use network_exercises.Common.{
  ℕ, zero, suc, ◌<◌, ◌≡◌, refl, sym, ap, subst, ◌∙◌, Bool, true, false, Option, none, some, [], ◌∷◌,
  length, arith, inl, inr, Option-cases, Bool-cases,
}
use network_exercises.Common.Int.{ℤ, pos, leb_ℤ, eq_ℤ}
use network_exercises.Run.{Returns, Returns-bind, Returns-mono}
use mathlib.Core.Option.{none-ne-some}
use network_exercises.Links.{Heap}
use network_exercises.Links.Linked.{addr, NotIn, IsLinked, IsLinked-whole, onto}
use network_exercises.Links.Walk.{found, onto-first}
use network_exercises.Links.Unlink.{Unlinked, unlink-Unlinked}
use network_exercises.Links.Append.{
  At, Spot, found-Spot, without, found-hit, found-miss, without-miss,
}
use network_exercises.Sessions.{Client, free, remove, free_from, free_all}
use network_exercises.Links.Places.{start-At, neighbour-At}
use network_exercises.Sessions.Find.{Sessions, id_of, find-answers, length-onto, get_beg-farthest}

without-missed : (id : ℤ) (xs : Sessions) → found id_of id xs ≡ none → without id_of id xs ≡ xs
without-missed id [] e = unfold without in refl
without-missed id ((a, d) ∷ xs) e = elim (Bool-cases (eq_ℤ (id_of d) id)) [
  | inl hit ↦ absurd (none-ne-some _ (sym e ∙ found-hit id_of id a d xs hit))
  | inr miss ↦
      without-miss id_of id a d xs miss
      ∙ ap (λ l. (a, d) ∷ l) (without-missed id xs (sym (found-miss id_of id a d xs miss) ∙ e))
]

-- The memory of the session that was found is free.
abbrev pub Freed : Heap Client → Option ℕ → Type 0
Freed h none = Unit {0}
Freed h (some c) = h c ≡ none

abbrev pub some? : Option ℕ → Bool
some? none = false
some? (some c) = true

abbrev pub Removed : ℤ → Sessions → Bool × Heap Client × Option ℕ → Type 0
Removed id xs (there, h', q) =
    (there ≡ some? (found id_of id xs))
    × At h' q (without id_of id xs)
    × Freed h' (found id_of id xs)

module _ (fuel : ℕ) (h : Heap Client) where
  -- `clients_session_remove` from any place in a well-formed list of fewer sessions than the fuel
  -- returns whether some session has the identifier; the first that has it is freed and gone from
  -- the list, which stays well-formed with the pointer in it, or NULL where the list is empty.
  pub remove-Removed :
      (p : ℕ) (xs : Sessions) (id : ℤ)
      → leb_ℤ (pos 1) id ≡ true
      → At h (some p) xs
      → length xs < fuel
      → Returns (Removed id xs) (remove fuel h (some p) id)
  unfolding remove free onto
  remove-Removed p xs id positive place enough =
      let (looked, q_at) = find-answers fuel h (some p) xs id positive place enough in
      let linked : IsLinked h [] xs =
        subst (λ l. IsLinked h [] l) place.whole
          (IsLinked-whole h place.rs place.zs place.linked) in
      rw (positive, looked)
        (elim (Option-cases (found id_of id xs)) [
          | inl e ↦ rw e (
            sym (ap some? e),
            subst (At h (addr xs)) (sym (without-missed id xs e)) (start-At h xs linked),
            subst (Freed h) (sym e) tt,
          )
          | inr (c, e) ↦
              let s : Spot id_of id h c [] xs = found-Spot id_of id h c [] xs linked e in
              rw e (
                Returns-bind (Unlinked h c s.before s.after) _ _ _
                  (unlink-Unlinked h c s.data_at s.before s.after s.linked)
                  (λ r u.
                    let left = neighbour-At r.0 s.before s.after u.linked in
                    (
                      sym (ap some? e),
                      subst (At r.0 r.1) s.gone
                          (subst (λ q. At r.0 q (onto s.before s.after)) (sym u.points) left),
                      subst (Freed r.0) (sym e) u.freed,
                    )))
        ])

abbrev pub AllFreed : Heap Client → Sessions → Type 0
AllFreed h [] = Unit {0}
AllFreed h ((a, d) ∷ xs) = (h a ≡ none) × AllFreed h xs

-- Other memory is as before.
abbrev pub Spared : Heap Client → Heap Client → Sessions → Type 0
Spared h h' xs = (b : ℕ) → NotIn b xs → h' b ≡ h b

free_from-AllFreed :
    (n : ℕ) (h : Heap Client) (xs : Sessions)
    → IsLinked h [] xs
    → length xs < n
    → Returns (λ h'. AllFreed h' xs × Spared h h' xs) (free_from n h (addr xs))
unfolding free_from free
free_from-AllFreed zero h xs l enough = absurd (omega arith)
free_from-AllFreed (suc n) h [] l enough = (tt, λ b m. refl)
free_from-AllFreed (suc n) h ((a, d) ∷ xs) l enough =
    Returns-bind (Unlinked h a [] xs) _ _ _ (unlink-Unlinked h a d [] xs l) (λ r u. rw u.points (
      Returns-mono _ (λ h'. AllFreed h' ((a, d) ∷ xs) × Spared h h' ((a, d) ∷ xs)) _
        (free_from-AllFreed n r.0 xs u.linked (omega arith))
        (λ h' f. (
          (f.1 a l.apart_ahead.0 ∙ u.freed, f.0),
          λ b m. f.1 b m.1 ∙ u.kept b tt m.1 (λ e. m.0 (sym e)),
        ))))

free_all-onto :
    (fuel : ℕ) (h : Heap Client) (p : ℕ) (rs zs : Sessions)
    → some p ≡ addr zs
    → IsLinked h rs zs
    → length (onto rs zs) < fuel
    → Returns
        (λ h'. AllFreed h' (onto rs zs) × Spared h h' (onto rs zs))
        (free_all fuel h (addr zs))
unfolding free_all
free_all-onto fuel h p rs [] e l enough = absurd (none-ne-some _ (sym e))
free_all-onto fuel h p rs ((a, d) ∷ zs) e l enough =
    let few : length rs < fuel = omega (arith, length-onto rs ((a, d) ∷ zs)) in
    rw (get_beg-farthest fuel h rs a d zs l few) (
      rw (sym (onto-first a d rs zs))
        (free_from-AllFreed fuel h _ (IsLinked-whole h rs ((a, d) ∷ zs) l) enough))

-- `clients_session_free_all` from any place in a well-formed list of fewer sessions than the fuel
-- returns; the memory of every session is free, and no other is touched.
pub free_all-AllFreed :
    (fuel : ℕ) (h : Heap Client) (p : ℕ) (xs : Sessions)
    → At h (some p) xs
    → length xs < fuel
    → Returns (λ h'. AllFreed h' xs × Spared h h' xs) (free_all fuel h (some p))
unfolding free_all
free_all-AllFreed fuel h p xs place enough =
    subst (λ q. Returns (λ h'. AllFreed h' xs × Spared h h' xs) (free_all fuel h q))
      (sym place.place)
      (subst (λ l. Returns (λ h'. AllFreed h' l × Spared h h' l) (free_all fuel h (addr place.zs)))
        place.whole
        (free_all-onto fuel h p place.rs place.zs place.place place.linked
          (omega (arith, ap length place.whole))))

-- ===== src/Sessions/Find.antt =====
-- Looking a session up.
use network_exercises.Common.{
  ℕ, ◌<◌, ◌+◌, ◌≡◌, refl, sym, ap, subst, ◌∙◌, Bool, true, false, Option, none, some, List, [], ◌∷◌,
  length, arith, inl, inr, Option-cases,
}
use network_exercises.Common.Int.{ℤ, pos, leb_ℤ}
use network_exercises.Run.{Run, ok}
use network_exercises.Links.{Heap, search}
use network_exercises.Links.Linked.{addr, IsLinked, IsLinked-whole, onto}
use network_exercises.Links.Walk.{farthest, back-farthest, onto-first, found, search-found}
use network_exercises.Links.Append.{At, Spot, found-Spot}
use network_exercises.Links.Places.{IsLinked-At, start-At}
use network_exercises.Sessions.{Client, get_beg, find}

abbrev pub Sessions : Type 0
Sessions = List (ℕ × Client)

pub length-onto : {D : Type 0} (rs xs : List (ℕ × D)) → length (onto rs xs) ≡ length rs + length xs
unfolding onto
length-onto [] xs = omega arith
length-onto (r ∷ rs) xs = omega (arith, length-onto rs (r ∷ xs))

abbrev pub id_of : Client → ℤ
id_of c = c.client_id

-- The result of a search, and the pointer: at the session, or at the first one.
abbrev pub outcome : Option ℕ → Option ℕ → Bool × Option ℕ
outcome none first = (false, first)
outcome (some c) first = (true, some c)

abbrev pub answer : ℤ → Sessions → Bool × Option ℕ
answer id xs = outcome (found id_of id xs) (addr xs)

outcome-elim :
    (o first : Option ℕ)
    → elim o as (λ _. Run (Bool × Option ℕ)) [
      | none ↦ ok (false, first)
      | some c ↦ ok (true, some c)
    ]
      ≡ ok (outcome o first)
outcome-elim none first = refl
outcome-elim (some c) first = refl

module _ (fuel : ℕ) (h : Heap Client) where
  pub get_beg-farthest :
      (rs : Sessions) (a : ℕ) (d : Client) (zs : Sessions)
      → IsLinked h rs ((a, d) ∷ zs)
      → length rs < fuel
      → get_beg fuel h (some a) ≡ ok (farthest a rs)
  unfolding get_beg
  get_beg-farthest rs a d zs l enough = rw l.forth.0 (back-farthest fuel h a rs l.behind enough)

  find-answer :
      (id : ℤ) (rs zs : Sessions)
      → leb_ℤ (pos 1) id ≡ true
      → IsLinked h rs zs
      → (zs ≡ [] → rs ≡ [])
      → length (onto rs zs) < fuel
      → find fuel h (addr zs) id ≡ ok (answer id (onto rs zs))
  unfolding find
  find-answer id rs [] positive l inside enough =
      unfold onto found in ap (λ r. ok (answer id (onto r []))) (sym (inside refl))
  find-answer id rs ((a, d) ∷ zs) positive l inside enough =
      let whole = onto rs ((a, d) ∷ zs) in
      let few : length rs < fuel = omega (arith, length-onto rs ((a, d) ∷ zs)) in
      let start = onto-first a d rs zs in
      let linked = IsLinked-whole h rs ((a, d) ∷ zs) l in
      let searched : search id_of fuel h id (some (farthest a rs)) ≡ ok (found id_of id whole) =
        ap (search id_of fuel h id) (sym start)
        ∙ search-found id_of fuel h id none whole linked.forth enough in
      rw (positive, get_beg-farthest rs a d zs l few, searched)
        (outcome-elim (found id_of id whole) (some (farthest a rs))
          ∙ ap (λ q. ok (outcome (found id_of id whole) q)) (sym start))

  answer-At : (id : ℤ) (xs : Sessions) → IsLinked h [] xs → At h (answer id xs).1 xs
  unfolding onto
  answer-At id xs l = elim (Option-cases (found id_of id xs)) [
    | inl e ↦ rw e (start-At h xs l)
    | inr (c, e) ↦
        let s : Spot id_of id h c [] xs = found-Spot id_of id h c [] xs l e in
        let spot = IsLinked-At h s.before c s.data_at s.after s.linked in
        rw e (subst (At h (some c)) s.whole spot)
  ]

  -- `clients_session_find` from any place in a well-formed list of fewer sessions than the fuel, or
  -- from NULL where it is empty: it returns whether some session has the identifier, and moves the
  -- pointer to the first that has it, or to the first session of all.
  pub find-answers :
      (p : Option ℕ) (xs : Sessions) (id : ℤ)
      → leb_ℤ (pos 1) id ≡ true
      → At h p xs
      → length xs < fuel
      → (find fuel h p id ≡ ok (answer id xs)) × At h (answer id xs).1 xs
  find-answers p xs id positive at enough =
      let linked = IsLinked-whole h at.rs at.zs at.linked in
      (
        ap (λ q. find fuel h q id) at.place
            ∙ find-answer id at.rs at.zs positive at.linked at.inside
                (omega (arith, ap length at.whole))
            ∙ ap (λ l. ok (answer id l)) at.whole,
        answer-At id xs (subst (λ l. IsLinked h [] l) at.whole linked),
      )

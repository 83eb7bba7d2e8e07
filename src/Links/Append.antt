-- ===== src/Links/Append.antt =====
-- A new node at the end of a list, and the place in a list.
use network_exercises.Common.{
  ℕ, ◌≡◌, refl, sym, ap, subst, ◌∙◌, Option, none, some, List, [], ◌∷◌, ◌++◌, true, false, inl, inr,
  Bool-cases, if◌then◌else◌,
}
use network_exercises.Common.Int.{ℤ, eq_ℤ}
use mathlib.Core.Option.{some-injective, none-ne-some}
use network_exercises.Links.{Heap, write}
use network_exercises.Links.Linked.{
  addr, Behind, node, NotIn, IsLinked, IsLinked-ahead, Disjoint-take, Disjoint-drop, Ahead-Same,
  Behind-Same, onto, write-at, write-other, write-Same,
}
use network_exercises.Links.Walk.{found}

module _ {D : Type 0} where
  -- A free address is none of the list's.
  Behind-NotIn :
      (h : Heap D) (a : ℕ) (next : Option ℕ) (rs : List (ℕ × D))
      → h a ≡ none
      → Behind h next rs
      → NotIn a rs
  Behind-NotIn h a next [] free b = tt
  Behind-NotIn h a next ((c, d) ∷ rs) free b =
      (λ p. none-ne-some _ (sym free ∙ ap h (sym p) ∙ b.0), Behind-NotIn h a (some c) rs free b.1)

  -- The three writes that hang a node behind the last one.
  unfoldable pub appended : Heap D → (last : ℕ) → D → Option ℕ → (new : ℕ) → D → Heap D
  appended h last dl before new d =
      write (write (write h new (node d none none)) last (node dl (some new) before)) new
        (node d none (some last))

  pub appended-IsLinked :
      (h : Heap D) (last : ℕ) (dl : D) (rs : List (ℕ × D)) (new : ℕ) (d : D)
      → IsLinked h ((last, dl) ∷ rs) []
      → h new ≡ none
      → IsLinked (appended h last dl (addr rs) new d) ((last, dl) ∷ rs) ((new, d) ∷ [])
  unfolding appended
  appended-IsLinked h last dl rs new d l free =
      let not_in : NotIn new ((last, dl) ∷ rs) =
        Behind-NotIn h new none ((last, dl) ∷ rs) free l.behind in
      let h1 = write h new (node d none none) in
      let h2 = write h1 last (node dl (some new) (addr rs)) in
      let rest1 = Behind-Same h h1 (some last) rs (write-Same h new _ rs not_in.1) l.behind.1 in
      let rest2 =
        Behind-Same h1 h2 (some last) rs (write-Same h1 last _ rs l.apart_behind.0) rest1 in
      record {
        behind = (
          write-other h2 new _ last not_in.0 ∙ write-at h1 last _,
          Behind-Same h2 _ (some last) rs (write-Same h2 new _ rs not_in.1) rest2,
        );
        forth = (write-at h2 new _, tt);
        apart_behind = l.apart_behind;
        apart_ahead = (tt, tt);
        disjoint = Disjoint-take new d ((last, dl) ∷ rs) [] not_in l.disjoint;
      }

  -- A pointer into a well-formed list: the nodes before it and from it on. It is NULL only for the
  -- empty list.
  pub record At (h : Heap D) (p : Option ℕ) (xs : List (ℕ × D)) : Type 0 where
    pub rs : List (ℕ × D)
    pub zs : List (ℕ × D)
    pub linked : IsLinked h rs zs
    pub whole : onto rs zs ≡ xs
    pub place : p ≡ addr zs
    pub inside : zs ≡ [] → rs ≡ []

  pub IsLinked-end :
      (h : Heap D) (rs xs : List (ℕ × D)) → IsLinked h rs xs → IsLinked h (onto xs rs) []
  unfolding onto
  IsLinked-end h rs [] l = l
  IsLinked-end h rs ((a, d) ∷ xs) l = IsLinked-end h ((a, d) ∷ rs) xs (IsLinked-ahead h a d rs xs l)

  pub onto-onto : (rs zs ys : List (ℕ × D)) → onto (onto zs rs) ys ≡ onto rs (zs ++ ys)
  unfolding onto
  onto-onto rs [] ys = refl
  onto-onto rs (z ∷ zs) ys = onto-onto (z ∷ rs) zs ys

  pub onto-append : (rs zs ys : List (ℕ × D)) → onto rs zs ++ ys ≡ onto rs (zs ++ ys)
  unfolding onto
  onto-append [] zs ys = refl
  onto-append (r ∷ rs) zs ys = onto-append rs (r ∷ zs) ys

  -- The first node with an identifier is taken out.
  unfoldable pub without : (D → ℤ) → ℤ → List (ℕ × D) → List (ℕ × D)
  without id wanted [] = []
  without id wanted ((a, d) ∷ xs) =
      let rest = without id wanted xs in if eq_ℤ (id d) wanted then xs else (a, d) ∷ rest

  -- The first node with an identifier gets other data.
  unfoldable pub replaced : (D → ℤ) → ℤ → D → List (ℕ × D) → List (ℕ × D)
  replaced id wanted new [] = []
  replaced id wanted new ((a, d) ∷ xs) =
      let rest = replaced id wanted new xs in
      if eq_ℤ (id d) wanted then (a, new) ∷ xs else (a, d) ∷ rest

  -- The data of the first node with an identifier.
  unfoldable pub lookup : (D → ℤ) → ℤ → List (ℕ × D) → Option D
  lookup id wanted [] = none
  lookup id wanted ((a, d) ∷ xs) =
      let rest = lookup id wanted xs in if eq_ℤ (id d) wanted then some d else rest

  -- The place of the node that a search finds.
  pub record Spot (id : D → ℤ) (wanted : ℤ) (h : Heap D) (c : ℕ) (rs xs : List (ℕ × D))
      : Type 0 where
    pub before : List (ℕ × D)
    pub data_at : D
    pub after : List (ℕ × D)
    pub linked : IsLinked h before ((c, data_at) ∷ after)
    pub whole : onto before ((c, data_at) ∷ after) ≡ onto rs xs
    pub gone : onto before after ≡ onto rs (without id wanted xs)
    pub put : (new : D) → onto before ((c, new) ∷ after) ≡ onto rs (replaced id wanted new xs)
    pub here : lookup id wanted xs ≡ some data_at
    pub matches : eq_ℤ (id data_at) wanted ≡ true

  module _ (id : D → ℤ) (wanted : ℤ) (a : ℕ) (d : D) (xs : List (ℕ × D)) where
    pub found-hit : eq_ℤ (id d) wanted ≡ true → found id wanted ((a, d) ∷ xs) ≡ some a
    unfolding found
    found-hit e = rw e

    pub found-miss : eq_ℤ (id d) wanted ≡ false → found id wanted ((a, d) ∷ xs) ≡ found id wanted xs
    unfolding found
    found-miss e = rw e

    pub lookup-hit : eq_ℤ (id d) wanted ≡ true → lookup id wanted ((a, d) ∷ xs) ≡ some d
    unfolding lookup
    lookup-hit e = rw e

    pub lookup-miss :
        eq_ℤ (id d) wanted ≡ false → lookup id wanted ((a, d) ∷ xs) ≡ lookup id wanted xs
    unfolding lookup
    lookup-miss e = rw e

    pub without-hit : eq_ℤ (id d) wanted ≡ true → without id wanted ((a, d) ∷ xs) ≡ xs
    unfolding without
    without-hit e = rw e

    pub without-miss :
        eq_ℤ (id d) wanted ≡ false → without id wanted ((a, d) ∷ xs) ≡ (a, d) ∷ without id wanted xs
    unfolding without
    without-miss e = rw e

  module _ (id : D → ℤ) (wanted : ℤ) (new : D) (a : ℕ) (d : D) (xs : List (ℕ × D)) where
    pub replaced-hit :
        eq_ℤ (id d) wanted ≡ true → replaced id wanted new ((a, d) ∷ xs) ≡ (a, new) ∷ xs
    unfolding replaced
    replaced-hit e = rw e

    pub replaced-miss :
        eq_ℤ (id d) wanted ≡ false
        → replaced id wanted new ((a, d) ∷ xs) ≡ (a, d) ∷ replaced id wanted new xs
    unfolding replaced
    replaced-miss e = rw e

  pub found-Spot :
      (id : D → ℤ) (wanted : ℤ) (h : Heap D) (c : ℕ) (rs xs : List (ℕ × D))
      → IsLinked h rs xs
      → found id wanted xs ≡ some c
      → Spot id wanted h c rs xs
  unfolding onto
  found-Spot id wanted h c rs [] l e = unfold found in absurd (none-ne-some _ e)
  found-Spot id wanted h c rs ((a, d) ∷ xs) l e = elim (Bool-cases (eq_ℤ (id d) wanted)) [
    | inl hit ↦
        subst (λ c. Spot id wanted h c rs ((a, d) ∷ xs))
          (some-injective _ _ (sym (found-hit id wanted a d xs hit) ∙ e))
          (record {
            before = rs;
            data_at = d;
            after = xs;
            linked = l;
            whole = refl;
            gone = ap (onto rs) (sym (without-hit id wanted a d xs hit));
            put = λ new. ap (onto rs) (sym (replaced-hit id wanted new a d xs hit));
            here = lookup-hit id wanted a d xs hit;
            matches = hit;
          })
    | inr miss ↦
        let s : Spot id wanted h c ((a, d) ∷ rs) xs =
          found-Spot id wanted h c ((a, d) ∷ rs) xs (IsLinked-ahead h a d rs xs l)
            (sym (found-miss id wanted a d xs miss) ∙ e) in
        record {
          before = s.before;
          data_at = s.data_at;
          after = s.after;
          linked = s.linked;
          whole = s.whole;
          gone = s.gone ∙ ap (onto rs) (sym (without-miss id wanted a d xs miss));
          put = λ new. s.put new ∙ ap (onto rs) (sym (replaced-miss id wanted new a d xs miss));
          here = lookup-miss id wanted a d xs miss ∙ s.here;
          matches = s.matches;
        }
  ]

  -- A node gets other data in place.
  pub update-IsLinked :
      (h : Heap D) (c : ℕ) (d new : D) (rs xs : List (ℕ × D))
      → IsLinked h rs ((c, d) ∷ xs)
      → IsLinked (write h c (node new (addr xs) (addr rs))) rs ((c, new) ∷ xs)
  update-IsLinked h c d new rs xs l =
      let (not_behind, apart) = Disjoint-drop c d rs xs l.disjoint in
      record {
        behind = Behind-Same h _ (some c) rs (write-Same h c _ rs not_behind) l.behind;
        forth = (
          write-at h c _,
          Ahead-Same h _ (some c) xs (write-Same h c _ xs l.apart_ahead.0) l.forth.1,
        );
        apart_behind = l.apart_behind;
        apart_ahead = l.apart_ahead;
        disjoint = Disjoint-take c new rs xs not_behind apart;
      }

-- ===== src/Links/Places.antt =====
-- The places of a pointer in a well-formed list.
use network_exercises.Common.{
  ℕ, ◌≡◌, refl, sym, ap, ap₂, subst, ◌∙◌, Option, none, some, List, [], ◌∷◌,
}
use mathlib.Core.Option.{none-ne-some, some-injective}
use network_exercises.Links.{Heap, Node, neighbour}
use network_exercises.Links.Linked.{addr, node, Ahead, Behind, IsLinked, IsLinked-back, onto}
use network_exercises.Links.Append.{At}

module _ {D : Type 0} (h : Heap D) where
  -- Every place in a well-formed list is a place for a pointer.
  pub IsLinked-At :
      (rs : List (ℕ × D)) (a : ℕ) (d : D) (zs : List (ℕ × D))
      → IsLinked h rs ((a, d) ∷ zs)
      → At h (some a) (onto rs ((a, d) ∷ zs))
  IsLinked-At rs a d zs l = record {
    rs = rs;
    zs = (a, d) ∷ zs;
    linked = l;
    whole = refl;
    place = refl;
    inside = λ e. absurd (none-ne-some _ (sym (ap addr e)));
  }

  pub start-At : (xs : List (ℕ × D)) → IsLinked h [] xs → At h (addr xs) xs
  unfolding onto
  start-At xs l = record {
    rs = [];
    zs = xs;
    linked = l;
    whole = refl;
    place = refl;
    inside = λ e. refl;
  }

  -- Where the pointer goes when a node is taken out.
  pub neighbour-At :
      (rs zs : List (ℕ × D)) → IsLinked h rs zs → At h (neighbour (addr rs) (addr zs)) (onto rs zs)
  unfolding onto
  neighbour-At [] zs l = start-At zs l
  neighbour-At ((a, d) ∷ rs) zs l = IsLinked-At rs a d zs (IsLinked-back h a d rs zs l)

-- What a heap holds in a place, as its parts.
unlist : {D : Type 0} → Option (Node D) → D → D
unlist none d = d
unlist (some n) d = n.data_of

next_at : {D : Type 0} → Option (Node D) → Option ℕ
next_at none = none
next_at (some n) = n.next

prev_at : {D : Type 0} → Option (Node D) → Option ℕ
prev_at none = none
prev_at (some n) = n.prev

module _ {D : Type 0} (h : Heap D) where
  -- The links lead to one list only.
  Ahead-unique :
      (prev prev' : Option ℕ) (xs ys : List (ℕ × D))
      → addr xs ≡ addr ys
      → Ahead h prev xs
      → Ahead h prev' ys
      → xs ≡ ys
  unfolding unlist next_at
  Ahead-unique prev prev' [] [] e l m = refl
  Ahead-unique prev prev' [] ((b, d) ∷ ys) e l m = absurd (none-ne-some _ e)
  Ahead-unique prev prev' ((a, c) ∷ xs) [] e l m = absurd (none-ne-some _ (sym e))
  Ahead-unique prev prev' ((a, c) ∷ xs) ((b, d) ∷ ys) e l m =
      let place : a ≡ b = some-injective _ _ e in
      let nodes : some (node c (addr xs) prev) ≡ some (node d (addr ys) prev') =
        sym l.0 ∙ ap h place ∙ m.0 in
      let rest : xs ≡ ys = Ahead-unique (some a) (some b) xs ys (ap next_at nodes) l.1 m.1 in
      ap₂ (λ x r. x ∷ r) (ap₂ (λ i x. (i, x)) place (ap (λ n. unlist n c) nodes)) rest

  Behind-unique :
      (next next' : Option ℕ) (xs ys : List (ℕ × D))
      → addr xs ≡ addr ys
      → Behind h next xs
      → Behind h next' ys
      → xs ≡ ys
  unfolding unlist prev_at
  Behind-unique next next' [] [] e l m = refl
  Behind-unique next next' [] ((b, d) ∷ ys) e l m = absurd (none-ne-some _ e)
  Behind-unique next next' ((a, c) ∷ xs) [] e l m = absurd (none-ne-some _ (sym e))
  Behind-unique next next' ((a, c) ∷ xs) ((b, d) ∷ ys) e l m =
      let place : a ≡ b = some-injective _ _ e in
      let nodes : some (node c next (addr xs)) ≡ some (node d next' (addr ys)) =
        sym l.0 ∙ ap h place ∙ m.0 in
      let rest : xs ≡ ys = Behind-unique (some a) (some b) xs ys (ap prev_at nodes) l.1 m.1 in
      ap₂ (λ x r. x ∷ r) (ap₂ (λ i x. (i, x)) place (ap (λ n. unlist n c) nodes)) rest

  -- The nodes before a place are those that its first node leads back to.
  before_unique :
      (rs rs' zs : List (ℕ × D))
      → IsLinked h rs zs
      → IsLinked h rs' zs
      → (zs ≡ [] → rs ≡ [])
      → (zs ≡ [] → rs' ≡ [])
      → rs ≡ rs'
  unfolding prev_at
  before_unique rs rs' [] l m none_left none_left' = none_left refl ∙ sym (none_left' refl)
  before_unique rs rs' ((a, d) ∷ zs) l m none_left none_left' =
      Behind-unique (some a) (some a) rs rs' (ap prev_at (sym l.forth.0 ∙ m.forth.0)) l.behind
        m.behind

  -- A heap and a pointer into a well-formed list determine the list.
  pub At-unique : (p : Option ℕ) (xs ys : List (ℕ × D)) → At h p xs → At h p ys → xs ≡ ys
  At-unique p xs ys at at' =
      let ahead : at.zs ≡ at'.zs =
        Ahead-unique (addr at.rs) (addr at'.rs) at.zs at'.zs (sym at.place ∙ at'.place)
          at.linked.forth at'.linked.forth in
      let back : at.rs ≡ at'.rs =
        before_unique at.rs at'.rs at.zs at.linked
          (subst (IsLinked h at'.rs) (sym ahead) at'.linked) at.inside
          (λ e. at'.inside (sym ahead ∙ e)) in
      sym at.whole ∙ ap₂ onto back ahead ∙ at'.whole

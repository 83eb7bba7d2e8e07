-- ===== src/Links/Unlink.antt =====
-- Taking a node out keeps the list well-formed.
use network_exercises.Common.{ℕ, ◌≡◌, ◌≢◌, refl, sym, ◌∙◌, Option, none, some, List, [], ◌∷◌}
use network_exercises.Run.{Returns, Returns-bind}
use network_exercises.Links.{Heap, set_next, set_prev, neighbour, unlink}
use network_exercises.Links.Linked.{
  addr, Ahead, Behind, NotIn, Distinct, Disjoint, IsLinked, Same, Behind-Same, Ahead-Same, write-at,
  write-other, Disjoint-take, Disjoint-drop, erase-at, erase-other, write-Same, erase-Same,
}

module _ {D : Type 0} where
  -- A changed heap keeps what stands outside a list.
  abbrev pub Keeps : Heap D → Heap D → List (ℕ × D) → Type 0
  Keeps h h' xs = (b : ℕ) → NotIn b xs → h' b ≡ h b

  Disjoint-nil : (xs : List (ℕ × D)) → Disjoint xs []
  Disjoint-nil [] = tt
  Disjoint-nil ((a, d) ∷ xs) = (tt, Disjoint-nil xs)

  Disjoint-sym : (xs ys : List (ℕ × D)) → Disjoint xs ys → Disjoint ys xs
  Disjoint-sym [] ys s = Disjoint-nil ys
  Disjoint-sym ((a, d) ∷ xs) ys s = Disjoint-take a d ys xs s.0 (Disjoint-sym xs ys s.1)

  Same-Keeps :
      (h h' : Heap D) (xs ys : List (ℕ × D)) → Keeps h h' xs → Disjoint ys xs → Same h h' ys
  Same-Keeps h h' xs [] k s = tt
  Same-Keeps h h' xs ((a, d) ∷ ys) k s = (k a s.0, Same-Keeps h h' xs ys k s.1)

  -- The node behind the place is led to another one.
  set_next-Behind :
      (h : Heap D) (next to : Option ℕ) (rs : List (ℕ × D))
      → Behind h next rs
      → Distinct rs
      → Returns (λ h'. Behind h' to rs × Keeps h h' rs) (set_next h (addr rs) to)
  unfolding set_next
  set_next-Behind h next to [] b ds = (tt, λ b n. refl)
  set_next-Behind h next to ((c, d) ∷ rs) b ds = rw b.0 (
    (write-at h c _, Behind-Same h _ (some c) rs (write-Same h c _ rs ds.0) b.1),
    λ e n. write-other h c _ e (λ p. n.0 (sym p)),
  )

  -- The node ahead of the place is led back to another one.
  set_prev-Ahead :
      (h : Heap D) (prev to : Option ℕ) (xs : List (ℕ × D))
      → Ahead h prev xs
      → Distinct xs
      → Returns (λ h'. Ahead h' to xs × Keeps h h' xs) (set_prev h (addr xs) to)
  unfolding set_prev
  set_prev-Ahead h prev to [] b ds = (tt, λ b n. refl)
  set_prev-Ahead h prev to ((c, d) ∷ xs) b ds = rw b.0 (
    (write-at h c _, Ahead-Same h _ (some c) xs (write-Same h c _ xs ds.0) b.1),
    λ e n. write-other h c _ e (λ p. n.0 (sym p)),
  )

  -- The node is gone, its memory is free, the others stay linked and unchanged.
  pub record Unlinked (h : Heap D) (a : ℕ) (rs xs : List (ℕ × D)) (r : Heap D × Option ℕ)
      : Type 0 where
    pub linked : IsLinked r.0 rs xs
    pub points : r.1 ≡ neighbour (addr rs) (addr xs)
    pub freed : r.0 a ≡ none
    pub kept : (b : ℕ) → NotIn b rs → NotIn b xs → b ≢ a → r.0 b ≡ h b

  pub unlink-Unlinked :
      (h : Heap D) (a : ℕ) (d : D) (rs xs : List (ℕ × D))
      → IsLinked h rs ((a, d) ∷ xs)
      → Returns (Unlinked h a rs xs) (unlink h a)
  unfolding unlink
  unlink-Unlinked h a d rs xs l =
      let (not_behind, apart) = Disjoint-drop a d rs xs l.disjoint in
      rw l.forth.0 (
        Returns-bind (λ h1. Behind h1 (addr xs) rs × Keeps h h1 rs) _ _ _
          (set_next-Behind h (some a) (addr xs) rs l.behind l.apart_behind)
          (λ h1 s1.
            Returns-bind (λ h2. Ahead h2 (addr rs) xs × Keeps h1 h2 xs) _ _ _
              (set_prev-Ahead h1 (some a) (addr rs) xs
                (Ahead-Same h h1 (some a) xs (Same-Keeps h h1 rs xs s1.1 (Disjoint-sym rs xs apart))
                  l.forth.1)
                l.apart_ahead.1)
              (λ h2 s2.
                let behind2 =
                  Behind-Same h1 h2 (addr xs) rs (Same-Keeps h1 h2 xs rs s2.1 apart) s1.0 in
                record {
                  linked = record {
                    behind = Behind-Same h2 _ _ rs (erase-Same h2 a rs not_behind) behind2;
                    forth = Ahead-Same h2 _ _ xs (erase-Same h2 a xs l.apart_ahead.0) s2.0;
                    apart_behind = l.apart_behind;
                    apart_ahead = l.apart_ahead.1;
                    disjoint = apart;
                  };
                  points = refl;
                  freed = erase-at h2 a;
                  kept = λ b n1 n2 p. erase-other h2 a b p ∙ s2.1 b n2 ∙ s1.1 b n1;
                })))

-- ===== src/Links/Linked.antt =====
-- What a well-formed list is, seen from a place in it: the nodes before the place, nearest first,
-- and those from it on.
use network_exercises.Common.{ℕ, ◌≡◌, ◌≢◌, sym, ◌∙◌, Option, none, some, List, [], ◌∷◌, arith}
use network_exercises.Links.{Node, Heap, write, erase}

module _ {D : Type 0} where
  abbrev pub addr : List (ℕ × D) → Option ℕ
  addr [] = none
  addr ((a, d) ∷ xs) = some a

  abbrev pub node : D → Option ℕ → Option ℕ → Node D
  node d next prev = record { data_of = d; next = next; prev = prev }

  -- The nodes ahead of a place: each leads to the one after it and back to the one before it.
  abbrev pub Ahead : Heap D → Option ℕ → List (ℕ × D) → Type 0
  Ahead h prev [] = Unit {0}
  Ahead h prev ((a, d) ∷ xs) = (h a ≡ some (node d (addr xs) prev)) × Ahead h (some a) xs

  abbrev pub Behind : Heap D → Option ℕ → List (ℕ × D) → Type 0
  Behind h next [] = Unit {0}
  Behind h next ((a, d) ∷ xs) = (h a ≡ some (node d next (addr xs))) × Behind h (some a) xs

  abbrev pub NotIn : ℕ → List (ℕ × D) → Type 0
  NotIn a [] = Unit {0}
  NotIn a ((b, d) ∷ xs) = (b ≢ a) × NotIn a xs

  abbrev pub Distinct : List (ℕ × D) → Type 0
  Distinct [] = Unit {0}
  Distinct ((a, d) ∷ xs) = NotIn a xs × Distinct xs

  abbrev pub Disjoint : List (ℕ × D) → List (ℕ × D) → Type 0
  Disjoint [] ys = Unit {0}
  Disjoint ((a, d) ∷ xs) ys = NotIn a ys × Disjoint xs ys

  -- The heap holds the nodes of both lists, linked in both directions, at different addresses.
  pub record IsLinked (h : Heap D) (rs xs : List (ℕ × D)) : Type 0 where
    pub behind : Behind h (addr xs) rs
    pub forth : Ahead h (addr rs) xs
    pub apart_behind : Distinct rs
    pub apart_ahead : Distinct xs
    pub disjoint : Disjoint rs xs

  -- The whole list, the nodes behind the place turned round in front of the others.
  unfoldable pub onto : List (ℕ × D) → List (ℕ × D) → List (ℕ × D)
  onto [] xs = xs
  onto (x ∷ rs) xs = onto rs (x ∷ xs)

  pub Disjoint-take :
      (a : ℕ) (d : D) (rs xs : List (ℕ × D))
      → NotIn a rs
      → Disjoint rs xs
      → Disjoint rs ((a, d) ∷ xs)
  Disjoint-take a d [] xs n s = tt
  Disjoint-take a d ((b, e) ∷ rs) xs n s =
      ((λ p. n.0 (sym p), s.0), Disjoint-take a d rs xs n.1 s.1)

  pub Disjoint-drop :
      (a : ℕ) (d : D) (rs xs : List (ℕ × D))
      → Disjoint rs ((a, d) ∷ xs)
      → NotIn a rs × Disjoint rs xs
  Disjoint-drop a d [] xs s = (tt, tt)
  Disjoint-drop a d ((b, e) ∷ rs) xs s =
      let t = Disjoint-drop a d rs xs s.1 in ((λ p. s.0.0 (sym p), t.0), (s.0.1, t.1))

  pub IsLinked-back :
      (h : Heap D) (a : ℕ) (d : D) (rs xs : List (ℕ × D))
      → IsLinked h ((a, d) ∷ rs) xs
      → IsLinked h rs ((a, d) ∷ xs)
  IsLinked-back h a d rs xs l = record {
    behind = l.behind.1;
    forth = (l.behind.0, l.forth);
    apart_behind = l.apart_behind.1;
    apart_ahead = (l.disjoint.0, l.apart_ahead);
    disjoint = Disjoint-take a d rs xs l.apart_behind.0 l.disjoint.1;
  }

  pub IsLinked-ahead :
      (h : Heap D) (a : ℕ) (d : D) (rs xs : List (ℕ × D))
      → IsLinked h rs ((a, d) ∷ xs)
      → IsLinked h ((a, d) ∷ rs) xs
  IsLinked-ahead h a d rs xs l =
      let t = Disjoint-drop a d rs xs l.disjoint in
      record {
        behind = (l.forth.0, l.behind);
        forth = l.forth.1;
        apart_behind = (t.0, l.apart_behind);
        apart_ahead = l.apart_ahead.1;
        disjoint = (l.apart_ahead.0, t.1);
      }

  pub IsLinked-whole :
      (h : Heap D) (rs xs : List (ℕ × D)) → IsLinked h rs xs → IsLinked h [] (onto rs xs)
  unfolding onto
  IsLinked-whole h [] xs l = l
  IsLinked-whole h ((a, d) ∷ rs) xs l =
      IsLinked-whole h rs ((a, d) ∷ xs) (IsLinked-back h a d rs xs l)

  -- Two heaps that agree on the nodes of a list.
  abbrev pub Same : Heap D → Heap D → List (ℕ × D) → Type 0
  Same h h' [] = Unit {0}
  Same h h' ((a, d) ∷ xs) = (h' a ≡ h a) × Same h h' xs

  pub Behind-Same :
      (h h' : Heap D) (next : Option ℕ) (rs : List (ℕ × D))
      → Same h h' rs
      → Behind h next rs
      → Behind h' next rs
  Behind-Same h h' next [] s b = tt
  Behind-Same h h' next ((a, d) ∷ rs) s b = (s.0 ∙ b.0, Behind-Same h h' (some a) rs s.1 b.1)

  pub Ahead-Same :
      (h h' : Heap D) (prev : Option ℕ) (xs : List (ℕ × D))
      → Same h h' xs
      → Ahead h prev xs
      → Ahead h' prev xs
  Ahead-Same h h' prev [] s b = tt
  Ahead-Same h h' prev ((a, d) ∷ xs) s b = (s.0 ∙ b.0, Ahead-Same h h' (some a) xs s.1 b.1)

  pub write-at : (h : Heap D) (a : ℕ) (n : Node D) → write h a n a ≡ some n
  unfolding write
  write-at h a n = ground arith

  pub write-other : (h : Heap D) (a : ℕ) (n : Node D) (b : ℕ) → b ≢ a → write h a n b ≡ h b
  unfolding write
  write-other h a n b p = ground arith

  pub erase-at : (h : Heap D) (a : ℕ) → erase h a a ≡ none
  unfolding erase
  erase-at h a = ground arith

  pub erase-other : (h : Heap D) (a b : ℕ) → b ≢ a → erase h a b ≡ h b
  unfolding erase
  erase-other h a b p = ground arith

  pub write-Same :
      (h : Heap D) (a : ℕ) (n : Node D) (xs : List (ℕ × D)) → NotIn a xs → Same h (write h a n) xs
  write-Same h a n [] p = tt
  write-Same h a n ((b, d) ∷ xs) p = (write-other h a n b p.0, write-Same h a n xs p.1)

  pub erase-Same : (h : Heap D) (a : ℕ) (xs : List (ℕ × D)) → NotIn a xs → Same h (erase h a) xs
  erase-Same h a [] p = tt
  erase-Same h a ((b, d) ∷ xs) p = (erase-other h a b p.0, erase-Same h a xs p.1)

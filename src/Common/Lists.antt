-- ===== src/Common/Lists.antt =====
-- Lists measured and indexed by native numbers, under the library's names.
use Prim.Native.Nat.{ℕ, zero, suc, ◌+◌, ◌-◌, ◌≤◌, ◌<◌, min}
use mathlib.Core.Path.{◌≡◌, refl, ap, sym, ◌∙◌}
use mathlib.Core.List.{List, [], ◌∷◌, ◌++◌}
use mathlib.Core.Option.{Option, none, some}
use native.Mathlib.Omega.{arith}

module _ {ℓ} {A : Type ℓ} where
  abbrev pub length : List A → ℕ
  length [] = 0
  length (_ ∷ xs) = suc (length xs)

  abbrev pub get_elem? : List A → ℕ → Option A
  get_elem? [] _ = none
  get_elem? (x ∷ _) zero = some x
  get_elem? (_ ∷ xs) (suc i) = get_elem? xs i

  -- A write out of bounds changes nothing.
  abbrev pub set : List A → ℕ → A → List A
  set [] _ _ = []
  set (_ ∷ xs) zero v = v ∷ xs
  set (x ∷ xs) (suc i) v = x ∷ set xs i v

  abbrev pub take : ℕ → List A → List A
  take zero _ = []
  take (suc n) [] = []
  take (suc n) (x ∷ xs) = x ∷ take n xs

  abbrev pub drop : ℕ → List A → List A
  drop zero xs = xs
  drop (suc n) [] = []
  drop (suc n) (_ ∷ xs) = drop n xs

  abbrev pub replicate : ℕ → A → List A
  replicate zero _ = []
  replicate (suc n) a = a ∷ replicate n a

module _ {ℓ} {A : Type ℓ} where
  pub take-nil : (n : ℕ) → [] ≡ take {A = A} n []
  take-nil zero = refl
  take-nil (suc n) = refl

  pub length-append : (xs ys : List A) → length (xs ++ ys) ≡ length xs + length ys
  length-append [] ys = omega arith
  length-append (x ∷ xs) ys = omega (arith, length-append xs ys)

  pub length-take : (n : ℕ) (xs : List A) → length (take n xs) ≡ min n (length xs)
  length-take zero xs = omega arith
  length-take (suc n) [] = omega arith
  length-take (suc n) (x ∷ xs) = omega (arith, length-take n xs)

  pub length-drop : (n : ℕ) (xs : List A) → length (drop n xs) ≡ length xs - n
  length-drop zero xs = omega arith
  length-drop (suc n) [] = omega arith
  length-drop (suc n) (x ∷ xs) = omega (arith, length-drop n xs)

  pub length-replicate : (n : ℕ) (a : A) → length (replicate n a) ≡ n
  length-replicate zero a = refl
  length-replicate (suc n) a = ap suc (length-replicate n a)

  pub take-append-drop : (n : ℕ) (xs : List A) → take n xs ++ drop n xs ≡ xs
  take-append-drop zero xs = refl
  take-append-drop (suc n) [] = refl
  take-append-drop (suc n) (x ∷ xs) = ap (λ l. x ∷ l) (take-append-drop n xs)

  -- Taking no more than the first list holds does not see the second.
  pub take-append_le : (n : ℕ) (xs ys : List A) → n ≤ length xs → take n (xs ++ ys) ≡ take n xs
  take-append_le zero xs ys h = refl
  take-append_le (suc n) [] ys h = absurd (omega arith)
  take-append_le (suc n) (x ∷ xs) ys h = ap (λ l. x ∷ l) (take-append_le n xs ys (omega arith))

  -- Taking past the end of the first list continues in the second.
  pub take-append_add :
      (n m : ℕ) (xs ys : List A) → length xs ≡ n → take (n + m) (xs ++ ys) ≡ xs ++ take m ys
  take-append_add n m [] ys h = let e : n + m ≡ m = omega arith in ap (λ k. take k ys) e
  take-append_add zero m (x ∷ xs) ys h = absurd (omega arith)
  take-append_add (suc n) m (x ∷ xs) ys h =
      let e : suc n + m ≡ suc (n + m) = omega arith in
      rw e (ap (λ l. x ∷ l) (take-append_add n m xs ys (omega arith)))

  pub take-length : (n : ℕ) (xs : List A) → length xs ≤ n → take n xs ≡ xs
  take-length zero [] h = refl
  take-length zero (x ∷ xs) h = absurd (omega arith)
  take-length (suc n) [] h = refl
  take-length (suc n) (x ∷ xs) h = ap (λ l. x ∷ l) (take-length n xs (omega arith))

  -- A shorter prefix of a prefix.
  pub take-take : (n m : ℕ) (xs : List A) → n ≤ m → take n (take m xs) ≡ take n xs
  take-take zero m xs h = refl
  take-take (suc n) zero xs h = absurd (omega arith)
  take-take (suc n) (suc m) [] h = refl
  take-take (suc n) (suc m) (x ∷ xs) h = ap (λ l. x ∷ l) (take-take n m xs (omega arith))

  pub length-set : (xs : List A) (i : ℕ) (v : A) → length (set xs i v) ≡ length xs
  length-set [] i v = refl
  length-set (x ∷ xs) zero v = refl
  length-set (x ∷ xs) (suc i) v = ap suc (length-set xs i v)

  -- Writing just past a prefix extends it.
  pub take-set :
      (xs : List A) (i : ℕ) (v : A)
      → i < length xs
      → take (suc i) (set xs i v) ≡ take i xs ++ v ∷ []
  take-set [] i v h = absurd (omega arith)
  take-set (x ∷ xs) zero v h = refl
  take-set (x ∷ xs) (suc i) v h = ap (λ l. x ∷ l) (take-set xs i v (omega arith))

  pub get_elem?-append :
      (xs ys : List A) (n i : ℕ) → length xs ≡ n → get_elem? (xs ++ ys) (n + i) ≡ get_elem? ys i
  get_elem?-append [] ys n i h = let e : n + i ≡ i = omega arith in ap (get_elem? ys) e
  get_elem?-append (x ∷ xs) ys zero i h = absurd (omega arith)
  get_elem?-append (x ∷ xs) ys (suc n) i h =
      let e : suc n + i ≡ suc (n + i) = omega arith in
      rw e (get_elem?-append xs ys n i (omega arith))

  -- A prefix of what was kept is a prefix of the new.
  pub take-kept : (n m : ℕ) (old new : List A) → n ≤ m → take m new ≡ old → take n new ≡ take n old
  take-kept n m old new h e = sym (take-take n m new h) ∙ ap (take n) e

  -- Within bounds there is an element, and it heads what is left from there.
  pub drop_elem :
      (xs : List A) (k : ℕ)
      → k < length xs
      → (x : A) × (get_elem? xs k ≡ some x) × (drop k xs ≡ x ∷ drop (k + 1) xs)
  drop_elem [] k h = absurd (omega arith)
  drop_elem (x ∷ xs) zero h = (x, refl, refl)
  drop_elem (x ∷ xs) (suc k) h =
      let (y, e, d) = drop_elem xs k (omega arith) in
      let f : suc k + 1 ≡ suc (k + 1) = omega arith in (y, e, rw f d)

  -- Going past the first of two lists that are joined.
  pub drop-append : (xs ys : List A) (n : ℕ) → length xs ≡ n → drop n (xs ++ ys) ≡ ys
  drop-append [] ys zero h = refl
  drop-append [] ys (suc n) h = absurd (omega arith)
  drop-append (x ∷ xs) ys zero h = absurd (omega arith)
  drop-append (x ∷ xs) ys (suc n) h = drop-append xs ys n (omega arith)

  pub take-append : (xs ys : List A) (n : ℕ) → length xs ≡ n → take n (xs ++ ys) ≡ xs
  take-append xs ys n h = take-append_le n xs ys (omega arith) ∙ take-length n xs (omega arith)

  pub set-append :
      (xs ys : List A) (n i : ℕ) (v : A)
      → length xs ≡ n
      → set (xs ++ ys) (n + i) v ≡ xs ++ set ys i v
  set-append [] ys n i v h = let e : n + i ≡ i = omega arith in ap (λ k. set ys k v) e
  set-append (x ∷ xs) ys zero i v h = absurd (omega arith)
  set-append (x ∷ xs) ys (suc n) i v h =
      let e : suc n + i ≡ suc (n + i) = omega arith in
      rw e (ap (λ l. x ∷ l) (set-append xs ys n i v (omega arith)))

  pub take-add : (n m : ℕ) (xs : List A) → take (n + m) xs ≡ take n xs ++ take m (drop n xs)
  take-add zero m xs = let e : zero + m ≡ m = omega arith in ap (λ k. take k xs) e
  take-add (suc n) m [] = let e : suc n + m ≡ suc (n + m) = omega arith in rw e (take-nil m)
  take-add (suc n) m (x ∷ xs) =
      let e : suc n + m ≡ suc (n + m) = omega arith in rw e (ap (λ l. x ∷ l) (take-add n m xs))

  -- A write behind a prefix leaves it.
  pub take-set_after : (xs : List A) (n i : ℕ) (v : A) → n ≤ i → take n (set xs i v) ≡ take n xs
  take-set_after xs zero i v h = refl
  take-set_after [] (suc n) i v h = refl
  take-set_after (x ∷ xs) (suc n) zero v h = absurd (omega arith)
  take-set_after (x ∷ xs) (suc n) (suc i) v h =
      ap (λ l. x ∷ l) (take-set_after xs n i v (omega arith))

  pub get_elem?-set_self :
      (xs : List A) (i : ℕ) (v : A) → i < length xs → get_elem? (set xs i v) i ≡ some v
  get_elem?-set_self [] i v h = absurd (omega arith)
  get_elem?-set_self (x ∷ xs) zero v h = refl
  get_elem?-set_self (x ∷ xs) (suc i) v h = get_elem?-set_self xs i v (omega arith)

  pub get_elem?-set_before :
      (xs : List A) (j i : ℕ) (v : A) → j < i → get_elem? (set xs i v) j ≡ get_elem? xs j
  get_elem?-set_before [] j i v h = refl
  get_elem?-set_before (x ∷ xs) j zero v h = absurd (omega arith)
  get_elem?-set_before (x ∷ xs) zero (suc i) v h = refl
  get_elem?-set_before (x ∷ xs) (suc j) (suc i) v h = get_elem?-set_before xs j i v (omega arith)

  pub get_elem?-drop : (xs : List A) (n : ℕ) → get_elem? (drop n xs) 0 ≡ get_elem? xs n
  get_elem?-drop xs zero = refl
  get_elem?-drop [] (suc n) = refl
  get_elem?-drop (x ∷ xs) (suc n) = get_elem?-drop xs n

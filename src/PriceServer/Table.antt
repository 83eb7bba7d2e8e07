-- ===== src/PriceServer/Table.antt =====
-- The sessions of a server by their identifiers.
use network_exercises.Common.{
  ℕ, ◌≡◌, refl, sym, ap, subst, ◌∙◌, arith, Bool, true, false, inl, inr, ◌||◌, none, some, List, [],
  ◌∷◌, ◌++◌, length, Bool-cases,
}
use network_exercises.Common.Int.{ℤ, eq_ℤ, eq_of_parts}
use mathlib.Core.Option.{none-ne-some, some-injective}
use network_exercises.Links.Walk.{found}
use network_exercises.Links.Append.{
  lookup, without, replaced, lookup-hit, lookup-miss, found-hit, found-miss, without-hit,
  without-miss, replaced-hit, replaced-miss,
}
use network_exercises.Poll.{unwatch}
use network_exercises.Sessions.{Client}
use network_exercises.Sessions.Find.{Sessions, id_of}

abbrev pub ids : Sessions → List ℤ
ids [] = []
ids ((a, c) ∷ xs) = c.client_id ∷ ids xs

-- Every session has the property.
abbrev pub Each : (Client → Type 0) → Sessions → Type 0
Each P [] = Unit {0}
Each P ((a, c) ∷ xs) = P c × Each P xs

-- The descriptor is watched.
unfoldable pub watches : ℤ → List ℤ → Bool
watches fd [] = false
watches fd (w ∷ ws) = eq_ℤ w fd || watches fd ws

-- No descriptor twice.
abbrev pub AllOnce : List ℤ → Type 0
AllOnce [] = Unit {0}
AllOnce (w ∷ ws) = (watches w ws ≡ false) × AllOnce ws

pub eq_ℤ→eq : (a b : ℤ) → eq_ℤ a b ≡ true → a ≡ b
eq_ℤ→eq a b h = eq_of_parts a b (ground arith)

pub watches-lookup :
    (fd : ℤ) (xs : Sessions)
    → watches fd (ids xs) ≡ true
    → (c : Client) × (lookup id_of fd xs ≡ some c)
unfolding watches
watches-lookup fd [] h = absurd (cc)
watches-lookup fd ((a, c) ∷ xs) h = elim (Bool-cases (eq_ℤ c.client_id fd)) [
  | inl hit ↦ (c, lookup-hit id_of fd a c xs hit)
  | inr miss ↦
      let (d, e) = watches-lookup fd xs (rw miss at h) in (d, lookup-miss id_of fd a c xs miss ∙ e)
]

pub found-lookup : (fd : ℤ) (xs : Sessions) → found id_of fd xs ≡ none → lookup id_of fd xs ≡ none
unfolding found lookup
found-lookup fd [] h = refl
found-lookup fd ((a, c) ∷ xs) h = elim (Bool-cases (eq_ℤ c.client_id fd)) [
  | inl hit ↦ absurd (none-ne-some _ (sym h ∙ found-hit id_of fd a c xs hit))
  | inr miss ↦
      lookup-miss id_of fd a c xs miss
      ∙ found-lookup fd xs (sym (found-miss id_of fd a c xs miss) ∙ h)
]

pub lookup-Each :
    (P : Client → Type 0) (fd : ℤ) (xs : Sessions) (c : Client)
    → Each P xs
    → lookup id_of fd xs ≡ some c
    → P c
lookup-Each P fd [] c all e = unfold lookup in absurd (none-ne-some _ e)
lookup-Each P fd ((a, d) ∷ xs) c all e = elim (Bool-cases (eq_ℤ d.client_id fd)) [
  | inl hit ↦ subst P (some-injective _ _ (sym (lookup-hit id_of fd a d xs hit) ∙ e)) all.0
  | inr miss ↦ lookup-Each P fd xs c all.1 (sym (lookup-miss id_of fd a d xs miss) ∙ e)
]

pub ids-without : (fd : ℤ) (xs : Sessions) → ids (without id_of fd xs) ≡ unwatch fd (ids xs)
unfolding without unwatch
ids-without fd [] = refl
ids-without fd ((a, c) ∷ xs) = elim (Bool-cases (eq_ℤ c.client_id fd)) [
  | inl hit ↦ rw hit
  | inr miss ↦ rw miss (ap (λ l. c.client_id ∷ l) (ids-without fd xs))
]

-- Other data under the same identifier.
module _ (fd : ℤ) (new : Client) (same : eq_ℤ new.client_id fd ≡ true) where
  pub ids-replaced : (xs : Sessions) → ids (replaced id_of fd new xs) ≡ ids xs
  unfolding replaced
  ids-replaced [] = refl
  ids-replaced ((a, c) ∷ xs) = elim (Bool-cases (eq_ℤ c.client_id fd)) [
    | inl hit ↦
        rw hit
          (ap (λ i. i ∷ ids xs) (eq_ℤ→eq new.client_id fd same ∙ sym (eq_ℤ→eq c.client_id fd hit)))
    | inr miss ↦ rw miss (ap (λ l. c.client_id ∷ l) (ids-replaced xs))
  ]

  pub without-replaced :
      (xs : Sessions) → without id_of fd (replaced id_of fd new xs) ≡ without id_of fd xs
  without-replaced [] = unfold without replaced in refl
  without-replaced ((a, c) ∷ xs) = elim (Bool-cases (eq_ℤ c.client_id fd)) [
    | inl hit ↦
        ap (without id_of fd) (replaced-hit id_of fd new a c xs hit)
        ∙ without-hit id_of fd a new xs same
        ∙ sym (without-hit id_of fd a c xs hit)
    | inr miss ↦
        ap (without id_of fd) (replaced-miss id_of fd new a c xs miss)
        ∙ without-miss id_of fd a c (replaced id_of fd new xs) miss
        ∙ ap (λ l. (a, c) ∷ l) (without-replaced xs)
        ∙ sym (without-miss id_of fd a c xs miss)
  ]

pub Each-replaced :
    (P : Client → Type 0) (fd : ℤ) (new : Client) (xs : Sessions)
    → P new
    → Each P xs
    → Each P (replaced id_of fd new xs)
unfolding replaced
Each-replaced P fd new [] p all = tt
Each-replaced P fd new ((a, c) ∷ xs) p all = elim (Bool-cases (eq_ℤ c.client_id fd)) [
  | inl hit ↦ rw hit (p, all.1)
  | inr miss ↦ rw miss (all.0, Each-replaced P fd new xs p all.1)
]

pub Each-without :
    (P : Client → Type 0) (fd : ℤ) (xs : Sessions) → Each P xs → Each P (without id_of fd xs)
unfolding without
Each-without P fd [] all = tt
Each-without P fd ((a, c) ∷ xs) all = elim (Bool-cases (eq_ℤ c.client_id fd)) [
  | inl hit ↦ rw hit all.1
  | inr miss ↦ rw miss (all.0, Each-without P fd xs all.1)
]

pub Each-append :
    (P : Client → Type 0) (xs : Sessions) (a : ℕ) (c : Client)
    → Each P xs
    → P c
    → Each P (xs ++ (a, c) ∷ [])
Each-append P [] a c all p = (p, tt)
Each-append P ((b, d) ∷ xs) a c all p = (all.0, Each-append P xs a c all.1 p)

pub ids-append :
    (xs : Sessions) (a : ℕ) (c : Client) → ids (xs ++ (a, c) ∷ []) ≡ ids xs ++ c.client_id ∷ []
ids-append [] a c = refl
ids-append ((b, d) ∷ xs) a c = ap (λ l. d.client_id ∷ l) (ids-append xs a c)

pub length-ids : (xs : Sessions) → length (ids xs) ≡ length xs
length-ids [] = refl
length-ids ((a, c) ∷ xs) = omega (arith, length-ids xs)

either : (a b : Bool) → (a || b) ≡ false → (a ≡ false) × (b ≡ false)
either a b h = ground arith

neither_is : (a b : Bool) → a ≡ false → b ≡ false → (a || b) ≡ false
neither_is a b p q = ground arith

watches-append :
    (v w : ℤ) (ws : List ℤ)
    → watches v ws ≡ false
    → eq_ℤ w v ≡ false
    → watches v (ws ++ w ∷ []) ≡ false
unfolding watches
watches-append v w [] h e = neither_is _ _ e refl
watches-append v w (u ∷ ws) h e =
    let (first, others) = either (eq_ℤ u v) (watches v ws) h in
    neither_is _ _ first (watches-append v w ws others e)

pub AllOnce-append :
    (w : ℤ) (ws : List ℤ) → AllOnce ws → watches w ws ≡ false → AllOnce (ws ++ w ∷ [])
unfolding watches
AllOnce-append w [] o h = (refl, tt)
AllOnce-append w (u ∷ ws) o h =
    let (first, others) = either (eq_ℤ u w) (watches w ws) h in
    (watches-append u w ws o.0 (ground arith), AllOnce-append w ws o.1 others)

watches-unwatch : (v w : ℤ) (ws : List ℤ) → watches v ws ≡ false → watches v (unwatch w ws) ≡ false
unfolding watches unwatch
watches-unwatch v w [] h = refl
watches-unwatch v w (u ∷ ws) h =
    let (first, others) = either (eq_ℤ u v) (watches v ws) h in
    elim (Bool-cases (eq_ℤ u w)) [
      | inl hit ↦ rw hit others
      | inr miss ↦ rw miss (neither_is _ _ first (watches-unwatch v w ws others))
    ]

pub AllOnce-unwatch : (w : ℤ) (ws : List ℤ) → AllOnce ws → AllOnce (unwatch w ws)
unfolding unwatch
AllOnce-unwatch w [] o = tt
AllOnce-unwatch w (u ∷ ws) o = elim (Bool-cases (eq_ℤ u w)) [
  | inl hit ↦ rw hit o.1
  | inr miss ↦ rw miss (watches-unwatch u w ws o.0, AllOnce-unwatch w ws o.1)
]

pub Each-mono :
    (P Q : Client → Type 0) (xs : Sessions) → ((c : Client) → P c → Q c) → Each P xs → Each Q xs
Each-mono P Q [] weaken all = tt
Each-mono P Q ((a, c) ∷ xs) weaken all = (weaken c all.0, Each-mono P Q xs weaken all.1)

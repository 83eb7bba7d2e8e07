-- ===== src/Chat/Names.antt =====
-- When a name is taken, and when it has only letters and digits.
use network_exercises.Common.{
  ℕ, lt→ltb, zero, suc, ◌+◌, ◌≤◌, ◌<◌, ◌≡◌, refl, Bool, true, false, ◌&&◌, ◌==◌, inl, inr, Option,
  some, List, [], ◌∷◌, length, take, drop, Bool-cases, arith, drop_elem, if◌then◌else◌,
}
use network_exercises.Common.Int.{ℤ}
use network_exercises.Run.{ok}
use network_exercises.Memory.{load-ok}
use network_exercises.Links.{Heap}
use network_exercises.Links.Linked.{addr, Ahead}
use network_exercises.Chat.{Client}
use network_exercises.Chat.Request.{strncmp_eq, name_exists_loop, all_alnum}
use network_exercises.Chat.Broadcast.{Clients, Named, other, is_other-other}

-- The characters are the same up to `n`, or up to a NUL in both.
unfoldable pub same_text : List ℕ → List ℕ → ℕ → Bool
same_text a b zero = true
same_text [] b (suc n) = false
same_text (x ∷ a) [] (suc n) = false
same_text (x ∷ a) (y ∷ b) (suc n) =
    let rest = same_text a b n in if x == y then (if x == 0 then true else rest) else false

strncmp_eq-same_text :
    (a b : List ℕ) (n : ℕ) → n ≤ length a → n ≤ length b → strncmp_eq a b n ≡ ok (same_text a b n)
unfolding strncmp_eq same_text
strncmp_eq-same_text a b zero p q = refl
strncmp_eq-same_text [] b (suc n) p q = absurd (omega arith)
strncmp_eq-same_text (x ∷ a) [] (suc n) p q = absurd (omega arith)
strncmp_eq-same_text (x ∷ a) (y ∷ b) (suc n) p q =
    rw (strncmp_eq-same_text a b n (omega arith) (omega arith)) (ground arith)

-- Some other client has a name that begins with this one.
unfoldable pub taken : ℤ → List ℕ → ℕ → Clients → Bool
taken me name size [] = false
taken me name size ((a, c) ∷ xs) =
    let rest = taken me name size xs in
    if other me c && same_text c.name name size then true else rest

-- The names of all clients are arrays of at least so many bytes.
abbrev pub Arrays : ℕ → Clients → Type 0
Arrays n [] = Unit {0}
Arrays n ((a, c) ∷ xs) = (n ≤ length c.name) × Arrays n xs

Arrays-Named : (n : ℕ) (xs : Clients) → 0 < n → Arrays n xs → Named xs
Arrays-Named n [] p w = tt
Arrays-Named n ((a, c) ∷ xs) p w = (omega arith, Arrays-Named n xs p w.1)

pub name_exists_loop-taken :
    (fuel : ℕ) (h : Heap Client) (me : ℤ) (name : List ℕ) (size : ℕ) (prev : Option ℕ)
    (xs : Clients)
    → Ahead h prev xs
    → Arrays 33 xs
    → size < 33
    → size ≤ length name
    → length xs < fuel
    → name_exists_loop fuel h me name size (addr xs) ≡ ok (taken me name size xs)
unfolding name_exists_loop taken
name_exists_loop-taken zero h me name size prev xs l w short room enough = absurd (omega arith)
name_exists_loop-taken (suc fuel) h me name size prev [] l w short room enough = refl
name_exists_loop-taken (suc fuel) h me name size prev ((a, c) ∷ xs) l w short room enough =
    rw
      (
        l.0,
        is_other-other me c (omega arith),
        name_exists_loop-taken fuel h me name size (some a) xs l.1 w.1 short room (omega arith),
      )
      (elim (Bool-cases (other me c)) [
        | inl yes_other ↦
            rw (yes_other, strncmp_eq-same_text c.name name size (omega arith) room) (ground arith)
        | inr no_other ↦ rw no_other
      ])

-- Every character is a letter or a digit.
unfoldable pub alnum : (ℕ → Bool) → List ℕ → Bool
alnum isalnum [] = true
alnum isalnum (x ∷ xs) = isalnum x && alnum isalnum xs

-- Characters that `isalnum` takes.
abbrev pub IsAscii : List ℕ → Type 0
IsAscii [] = Unit {0}
IsAscii (x ∷ xs) = (x < 128) × IsAscii xs

pub all_alnum-alnum :
    (isalnum : ℕ → Bool) (name : List ℕ) (n k : ℕ)
    → k + n ≤ length name
    → IsAscii (take n (drop k name))
    → all_alnum isalnum name n k ≡ ok (alnum isalnum (take n (drop k name)))
unfolding all_alnum alnum
all_alnum-alnum isalnum name zero k h ascii = refl
all_alnum-alnum isalnum name (suc n) k h ascii =
    let (x, e, d) = drop_elem name k (omega arith) in
    let (first, others) : (x < 128) × IsAscii (take n (drop (k + 1) name)) = rw d at ascii in
    rw
      (
        load-ok name k x e,
        d,
        lt→ltb x 128 first,
        all_alnum-alnum isalnum name n (k + 1) (omega arith) others,
      )
      (ground arith)

same_text-take : (a b : List ℕ) (n : ℕ) → same_text a (take n b) n ≡ same_text a b n
unfolding same_text
same_text-take a b zero = refl
same_text-take [] b (suc n) = refl
same_text-take (x ∷ a) [] (suc n) = refl
same_text-take (x ∷ a) (y ∷ b) (suc n) = rw (same_text-take a b n)

pub taken-take :
    (me : ℤ) (name : List ℕ) (n : ℕ) (xs : Clients)
    → taken me (take n name) n xs ≡ taken me name n xs
unfolding taken
taken-take me name n [] = refl
taken-take me name n ((a, c) ∷ xs) = rw (same_text-take c.name name n, taken-take me name n xs)

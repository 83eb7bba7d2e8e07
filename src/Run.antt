-- ===== src/Run.antt =====
-- What a call of a C function comes to. An assertion that fails, and `exit` on an error, end the
-- process; an access outside an object and an overflow of a signed integer are undefined.
use network_exercises.Common.{
  ◌≡◌, refl, ap, subst, Option, none, some, Bool, true, false, if◌then◌else◌,
}

pub data Run {ℓ} (A : Type ℓ) : Type ℓ where
  ok : A → Run A
  aborted : Run A
  undefined : Run A
  out_of_fuel : Run A

infixl 5 ◌>>=◌ ◌>>◌
abbrev pub ◌>>=◌ {ℓ κ} : {A : Type ℓ} {B : Type κ} → Run A → (A → Run B) → Run B
ok a >>= f = f a
aborted >>= f = aborted
undefined >>= f = undefined
out_of_fuel >>= f = out_of_fuel

abbrev pub ◌>>◌ {ℓ} : {B : Type ℓ} → Run (Unit {0}) → Run B → Run B
m >> k = m >>= λ _. k

-- `assert(b)`
abbrev pub assert : Bool → Run (Unit {0})
assert true = ok tt
assert false = aborted

-- `assert(p != NULL)` on what an allocation returned.
abbrev pub assert_some {ℓ} : {A : Type ℓ} → Option A → Run A
assert_some none = aborted
assert_some (some a) = ok a

-- The call returns, and its result has the property.
abbrev pub Returns {ℓ} : {A : Type ℓ} → (A → Type 0) → Run A → Type 0
Returns P (ok a) = P a
Returns P aborted = ⊥
Returns P undefined = ⊥
Returns P out_of_fuel = ⊥

module _ {ℓ} {A : Type ℓ} where
  pub Returns-bind {κ} :
      {B : Type κ} (P : A → Type 0) (Q : B → Type 0) (r : Run A) (k : A → Run B)
      → Returns P r
      → ((a : A) → P a → Returns Q (k a))
      → Returns Q (r >>= k)
  Returns-bind P Q (ok a) k p next = next a p
  Returns-bind P Q aborted k p next = p
  Returns-bind P Q undefined k p next = p
  Returns-bind P Q out_of_fuel k p next = p

  pub Returns-mono :
      (P Q : A → Type 0) (r : Run A) → Returns P r → ((a : A) → P a → Q a) → Returns Q r
  Returns-mono P Q (ok a) p weaken = weaken a p
  Returns-mono P Q aborted p weaken = p
  Returns-mono P Q undefined p weaken = p
  Returns-mono P Q out_of_fuel p weaken = p

-- The branch that a test takes.
module _ {ℓ} {A : Type ℓ} (P : A → Type 0) (b : Bool) (x y : Run A) where
  pub Returns-then : b ≡ true → Returns P x → Returns P (if b then x else y)
  Returns-then e h = rw e h

  pub Returns-else : b ≡ false → Returns P y → Returns P (if b then x else y)
  Returns-else e h = rw e h

-- Two properties of one result.
pub Returns-and {ℓ} :
    {A : Type ℓ} (P Q : A → Type 0) (r : Run A)
    → Returns P r
    → Returns Q r
    → Returns (λ a. P a × Q a) r
Returns-and P Q (ok a) p q = (p, q)
Returns-and P Q aborted p q = p
Returns-and P Q undefined p q = p
Returns-and P Q out_of_fuel p q = p

-- A call that returns one value and no other.
pub Returns-eq : {A : Type 0} (a : A) (r : Run A) → Returns (λ x. x ≡ a) r → r ≡ ok a
Returns-eq a (ok x) p = ap ok p
Returns-eq a aborted p = absurd p
Returns-eq a undefined p = absurd p
Returns-eq a out_of_fuel p = absurd p

or_else : {A : Type 0} → A → Run A → A
or_else a (ok x) = x
or_else a _ = a

pub ok-injective : {A : Type 0} {a b : A} → ok a ≡ ok b → a ≡ b
unfolding or_else
ok-injective {A} {a} e = ap (or_else a) e

-- A call that returns has a result.
pub Returns-result {ℓ} :
    {A : Type ℓ} (P : A → Type 0) (r : Run A) → Returns P r → (a : A) × (r ≡ ok a) × P a
Returns-result P (ok a) p = (a, refl, p)
Returns-result P aborted p = absurd p
Returns-result P undefined p = absurd p
Returns-result P out_of_fuel p = absurd p

-- What holds of the result of a call that returns.
pub Returns-at {ℓ} :
    {A : Type ℓ} (P : A → Type 0) (r : Run A) (a : A) → r ≡ ok a → Returns P r → P a
Returns-at P r a e p = subst (Returns P) e p

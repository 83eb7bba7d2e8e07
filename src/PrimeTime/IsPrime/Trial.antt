-- ===== src/PrimeTime/IsPrime/Trial.antt =====
-- `is_prime_f` decides primality as long as the squares that it compares fit.
use network_exercises.Common.{
  ℕ, zero, suc, ◌+◌, ◌*◌, ◌/◌, ◌%◌, ◌^◌, ◌≤◌, ◌<◌, ◌≡◌, ◌≢◌, ◌↔◌, refl, ap, sym, ◌∙◌, Bool, true,
  inl, inr, arith, ltb, leb, ◌==◌, Bool-cases, lt→ltb, leb→le, leb-false→lt, dec_lt,
}
use network_exercises.Common.Int.{ℤ, pos, negsuc, pos_part, leb_ℤ}
use network_exercises.Run.{Returns}
use network_exercises.PrimeTime.IsPrime.{trial, is_prime_f}
use native.Mathlib.Nat.{mul-le-mul, div-add-mod, mul-mod_left}

-- No number from 2 up to the bound divides `n`.
abbrev pub NoDivisor : ℕ → ℕ → Type 0
NoDivisor n bound = (d : ℕ) → 2 ≤ d → d < bound → n % d ≢ 0

abbrev pub IsPrime : ℤ → Type 0
IsPrime (pos n) = (2 ≤ n) × NoDivisor n n
IsPrime (negsuc n) = ⊥

-- The largest `i` whose square an `int64_t` holds.
abbrev pub root : ℕ
root = 3_037_000_499

cofactor_big : (d q n : ℕ) → d * q ≡ n → 2 ≤ n → d < n → 2 ≤ q
cofactor_big d zero n e h k = absurd (omega arith)
cofactor_big d (suc zero) n e h k = absurd (omega arith)
cofactor_big d (suc (suc q)) n e h k = omega arith

-- A divisor above the root has a cofactor below it.
NoDivisor-all : (n i : ℕ) → 2 ≤ n → n < i * i → NoDivisor n i → NoDivisor n n
NoDivisor-all n i two big small d hd less zero_mod = elim (dec_lt d i) [
  | yes below ↦ small d hd below zero_mod
  | no above ↦
      let q : ℕ = n / d in
      let product : d * q ≡ n = omega (arith, div-add-mod n d) in
      let two_q = cofactor_big d q n product two less in
      let divides : n % q ≡ 0 = ap (λ m. m % q) (sym product) ∙ mul-mod_left d q in
      elim (dec_lt q i) [
        | yes below ↦ small q two_q below divides
        | no far ↦
            let far_square : i * i ≤ d * q = mul-le-mul (omega arith) (omega arith) in
            omega (arith, far_square)
      ]
]

-- The answer of the loop is whether the number is prime.
abbrev pub Decides : Type 0 → Bool → Type 0
Decides P b = (b ≡ true) ↔ P

NoDivisor-suc : (n i : ℕ) → NoDivisor n i → n % i ≢ 0 → NoDivisor n (suc i)
NoDivisor-suc n i small at d hd less = elim (dec_lt d i) [
  | yes below ↦ small d hd below
  | no above ↦ λ z. let e : d ≡ i = omega arith in at (ap (λ k. n % k) (sym e) ∙ z)
]

root_above : (n j : ℕ) → n < root * root → j * j ≤ n → j < root
root_above n j fits low = elim (dec_lt j root) [
  | yes below ↦ below
  | no above ↦
      let square : root * root ≤ j * j =
        mul-le-mul {n₁ = root} {m₁ = root} (omega arith) (omega arith) in
      absurd (omega (arith, square))
]

square_fits : (j : ℕ) → j < root → suc j * suc j ≤ root * root
square_fits j h = mul-le-mul h h

trial-Decides :
    (fuel n j : ℕ)
    → 2 ≤ n
    → n < root * root
    → j * j ≤ n
    → 1 ≤ j
    → n < suc j + fuel
    → NoDivisor n (suc j)
    → Returns (Decides (IsPrime (pos n))) (trial fuel n (suc j))
unfolding trial
trial-Decides zero n j two fits low one enough small =
    let square : n * n ≤ j * j = mul-le-mul (omega arith) (omega arith) in
    let double : n * 2 ≤ n * n = mul-le-mul (omega arith) two in
    absurd (omega (arith, square, double))
trial-Decides (suc fuel) n j two fits low one enough small =
    let below = root_above n j fits low in
    let square : ltb (suc j * suc j) (2 ^ 63) ≡ true =
      lt→ltb _ _ (omega (arith, square_fits j below)) in
    rw square (elim (Bool-cases (leb (suc j * suc j) n)) [
      | inr last ↦
          rw last (λ _. (two, NoDivisor-all n (suc j) two (leb-false→lt _ _ last) small), λ _. refl)
      | inl more ↦ rw more (elim (Bool-cases (n % suc j == 0)) [
        | inl hit ↦ rw hit (
          λ wrong. cc,
          λ prime.
              let double : suc j * 2 ≤ suc j * suc j = mul-le-mul (omega arith) (omega arith) in
              absurd (
                prime.1 (suc j) (omega arith) (omega (arith, double, leb→le _ _ more))
                  (ground arith)),
        )
        | inr miss ↦ rw miss (
            let next : suc j + 1 ≡ suc (suc j) = omega arith in
            rw next (
              trial-Decides fuel n (suc j) two fits (leb→le _ _ more) (omega arith) (omega arith)
                (NoDivisor-suc n (suc j) small (ground arith))))
      ])
    ])

-- For every number below `root * root` `is_prime_f` returns, without overflow and within its fuel,
-- and says exactly whether the number is prime.
pub is_prime_f-IsPrime :
    (z : ℤ) → pos_part z < root * root → Returns (Decides (IsPrime z)) (is_prime_f z)
unfolding is_prime_f
is_prime_f-IsPrime (negsuc n) h =
    let low : leb_ℤ (negsuc n) (pos 1) ≡ true = ground arith in
    rw low ((λ wrong. cc), λ p. absurd p)
is_prime_f-IsPrime (pos n) h = elim (Bool-cases (leb_ℤ (pos n) (pos 1))) [
  | inl low ↦ rw low ((λ wrong. cc), λ p. absurd (omega (arith, leb→le _ _ low, p.0)))
  | inr high ↦
      let two : 2 ≤ n = omega (arith, leb-false→lt _ _ high) in
      rw high (
        trial-Decides n n 1 two h (omega arith) (omega arith) (omega arith)
          (λ d hd less. absurd (omega arith)))
]

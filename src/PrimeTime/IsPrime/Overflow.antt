-- ===== src/PrimeTime/IsPrime/Overflow.antt =====
-- Where `is_prime_f` runs into the overflow of `i * i`: at every prime of an `int64_t` from the
-- square of the largest root on.
use network_exercises.Common.{
  ℕ, zero, suc, ◌+◌, ◌*◌, ◌%◌, ◌^◌, ◌≤◌, ◌≡◌, ◌≢◌, true, false, arith, ltb, leb, ◌==◌, lt→ltb,
  le→leb, le→ltb-false, dec_lt,
}
use network_exercises.Common.Int.{pos, leb_ℤ}
use network_exercises.Run.{undefined}
use network_exercises.PrimeTime.IsPrime.{trial, is_prime_f}
use network_exercises.PrimeTime.IsPrime.Trial.{IsPrime, NoDivisor, root}
use native.Mathlib.Nat.{mul-le-mul}

-- A prime leaves the loop no earlier way out.
trial-undefined :
    (fuel n i : ℕ)
    → root * root ≤ n
    → NoDivisor n n
    → 2 ≤ i
    → i ≤ suc root
    → root + 2 ≤ i + fuel
    → trial fuel n i ≡ undefined
unfolding trial
trial-undefined zero n i big prime two low enough = absurd (omega arith)
trial-undefined (suc fuel) n i big prime two low enough = elim (dec_lt root i) [
  | yes last ↦
      let square : suc root * suc root ≤ i * i =
        mul-le-mul {n₁ = suc root} {m₁ = suc root} last last in
      let overflow : ltb (i * i) (2 ^ 63) ≡ false = le→ltb-false _ _ (omega (arith, square)) in
      rw overflow
  | no inside ↦
      let square : i * i ≤ root * root =
        mul-le-mul {n₂ = root} {m₂ = root} (omega arith) (omega arith) in
      let fits : ltb (i * i) (2 ^ 63) ≡ true = lt→ltb _ _ (omega (arith, square)) in
      let goes_on : leb (i * i) n ≡ true = le→leb _ _ (omega (arith, square)) in
      let rest : n % i ≢ 0 = prime i two (omega arith) in
      let misses : (n % i == 0) ≡ false = ground arith in
      rw (fits, goes_on, misses)
        (trial-undefined fuel n (i + 1) big prime (omega arith) (omega arith) (omega arith))
]

-- For a prime from the square of 3,037,000,499 on, the loop computes a square that does not fit.
pub is_prime_f-undefined :
    (n : ℕ) → root * root ≤ n → IsPrime (pos n) → is_prime_f (pos n) ≡ undefined
unfolding is_prime_f
is_prime_f-undefined n big prime =
    let high : leb_ℤ (pos n) (pos 1) ≡ false = ground (arith, prime.0) in
    rw high (trial-undefined n n 2 big prime.1 (omega arith) (omega arith) (omega arith))

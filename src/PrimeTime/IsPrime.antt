-- ===== src/PrimeTime/IsPrime.antt =====
-- `is_prime_f` of c/source/prime-time/is-prime-request.c: trial division over `int64_t`.
pub mod Trial
pub mod Overflow
use network_exercises.Common.{
  ℕ, zero, suc, ◌+◌, ◌*◌, ◌%◌, ◌^◌, Bool, true, false, ltb, leb, ◌==◌, if◌then◌else◌,
}
use network_exercises.Common.Int.{ℤ, pos, pos_part, leb_ℤ}
use network_exercises.Run.{Run, ok, undefined, out_of_fuel}

-- The loop from `i` on. `i * i` is undefined where it does not fit an `int64_t`.
unfoldable pub trial : ℕ → (number i : ℕ) → Run Bool
trial zero number i = out_of_fuel
trial (suc fuel) number i =
    let next = trial fuel number (i + 1) in
    if ltb (i * i) (2 ^ 63)
    then (if leb (i * i) number then (if number % i == 0 then ok false else next) else ok true)
    else undefined

-- Fewer rounds than the number are made.
unfoldable pub is_prime_f : ℤ → Run Bool
unfolding trial
is_prime_f number =
    if leb_ℤ number (pos 1) then ok false else trial (pos_part number) (pos_part number) 2

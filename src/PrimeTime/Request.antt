-- ===== src/PrimeTime/Request.antt =====
-- c/source/prime-time/is-prime-request.c and is-prime-request.h: one request and its response.
pub mod Verdict
use network_exercises.Common.{
  ℕ, zero, suc, ◌+◌, Bool, true, false, Option, none, some, List, [], ◌∷◌, ◌++◌, ◌&&◌, ◌==◌, not,
  length, if◌then◌else◌,
}
use network_exercises.Common.Int.{ℤ, pos, negsuc}
use network_exercises.Common.Text.{codes}
use network_exercises.Run.{Run, ok, aborted, undefined}
use network_exercises.PrimeTime.Json.{Json, JsonType}

-- `struct is_prime_request`
pub record Request : Type 0 where
  pub is_prime : Bool
  pub is_malformed : Bool
  pub number : ℤ

-- `is_prime_init`: what `malloc` returns is not checked, and `is_malformed` is what was there.
abbrev pub init : (allocated junk : Bool) → Run Request
init true junk = ok (record { is_prime = false; is_malformed = junk; number = pos 0 })
init false junk = undefined

-- `is_prime_free`: what `*request` is afterwards.
abbrev pub free : Option Request → Run (Option Request)
free none = aborted
free (some request) = ok none

-- `strncmp(a, b, n) == 0` of two texts without their NUL.
unfoldable pub strncmp_eq : List ℕ → List ℕ → ℕ → Bool
strncmp_eq a b zero = true
strncmp_eq [] [] (suc n) = true
strncmp_eq [] (y ∷ b) (suc n) = false
strncmp_eq (x ∷ a) [] (suc n) = false
strncmp_eq (x ∷ a) (y ∷ b) (suc n) = x == y && strncmp_eq a b n

abbrev pub method_key : List ℕ
method_key = codes "method"

abbrev pub number_key : List ℕ
number_key = codes "number"

abbrev pub method_value : List ℕ
method_value = codes "isPrime"

abbrev pub method_value_len : ℕ
method_value_len = 7

abbrev malformed : Request → Bool × Request
malformed r = (true, record r { is_malformed = true })

abbrev accepted : Request → ℤ → Bool × Request
accepted r number = (false, record r { is_malformed = false; number = number })

module _ (json : Json) where
  open json use {Object, tokener_parse, object_get, get_type, get_string, get_int64}

  -- From the look-up of "number" on.
  check_number : Request → Option Object → Bool × Request
  check_number request none = malformed request
  check_number request (some number) = elim (get_type number) [
    | JsonType.double ↦ accepted request (negsuc 0)
    | JsonType.int ↦
        let (value, failed) = get_int64 number in
        if failed then malformed request else accepted request value
    | _ ↦ malformed request
  ]

  -- From the text of "method" on.
  check_value : Request → Object → Option (List ℕ) → Bool × Request
  unfolding check_number strncmp_eq
  check_value request root none = malformed request
  check_value request root (some value) =
      if not (strncmp_eq method_value value method_value_len)
      then malformed request
      else check_number request (object_get root number_key)

  -- From the look-up of "method" on.
  check_method : Request → Object → Option Object → Bool × Request
  unfolding check_value
  check_method request root none = malformed request
  check_method request root (some method) = elim (get_type method) [
    | JsonType.string ↦ check_value request root (get_string method)
    | _ ↦ malformed request
  ]

  check_root : Request → Option Object → Bool × Request
  unfolding check_method
  check_root request none = malformed request
  check_root request (some root) = check_method request root (object_get root method_key)

  -- `is_prime_request_malformed`: the result, and the request that it fills in.
  pub request_malformed : Request → List ℕ → Bool × Request
  unfolding check_root
  request_malformed request req = check_root request (tokener_parse req)

abbrev pub ill_response : List ℕ
ill_response = codes "{\"response to malformed request\"}\n"

abbrev pub response_format : Bool → List ℕ
response_format b =
    codes "{\"method\":\"isPrime\",\"prime\":"
    ++ ((if b then codes "true" else codes "false") ++ codes "}\n")

-- The bytes that `is_prime_beget_response` puts at `response`, and `*size`. `sprintf` writes a NUL
-- behind its text, which `*size` does not count.
unfoldable pub beget_response : Request → List ℕ × ℕ
beget_response request =
    if request.is_malformed
    then (ill_response, 34)
    else (response_format request.is_prime ++ 0 ∷ [], length (response_format request.is_prime))

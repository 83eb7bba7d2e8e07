-- ===== src/PrimeTime/Request/Verdict.antt =====
-- What the checks of `is_prime_request_malformed` come to.
use network_exercises.Common.{
  ℕ, Bool, false, Option, none, some, ◌≡◌, refl, List, if◌then◌else◌, arith,
}
use network_exercises.Common.Int.{ℤ, negsuc}
use network_exercises.PrimeTime.Json.{Json, JsonType}
use network_exercises.PrimeTime.Request.{
  Request, strncmp_eq, method_key, number_key, method_value, method_value_len, malformed, accepted,
  check_number, check_value, check_method, check_root, request_malformed,
}

-- The request after a verdict: the number that was asked about, or malformed.
abbrev pub judged : Request → Option ℤ → Bool × Request
judged r none = malformed r
judged r (some z) = accepted r z

module _ (json : Json) where
  open json use {Object, tokener_parse, object_get, get_type, get_string, get_int64}

  -- The number that an object asks about; a fraction counts as -1.
  asked : Option Object → Option ℤ
  asked none = none
  asked (some number) = elim (get_type number) [
    | JsonType.double ↦ some (negsuc 0)
    | JsonType.int ↦ if (get_int64 number).1 then none else some (get_int64 number).0
    | _ ↦ none
  ]

  method_ok : Option Object → Bool
  method_ok none = false
  method_ok (some method) = elim (get_type method) [
    | JsonType.string ↦ elim (get_string method) [
      | none ↦ false
      | some value ↦ strncmp_eq method_value value method_value_len
    ]
    | _ ↦ false
  ]

  asked_root : Option Object → Option ℤ
  unfolding asked method_ok
  asked_root none = none
  asked_root (some root) =
      if method_ok (object_get root method_key) then asked (object_get root number_key) else none

  -- The number that a line asks about; `none` if the line is malformed.
  unfoldable pub verdict : List ℕ → Option ℤ
  unfolding asked_root
  verdict req = asked_root (tokener_parse req)

  check_number-asked :
      (r : Request) (o : Option Object) → check_number json r o ≡ judged r (asked o)
  unfolding check_number asked
  check_number-asked r none = refl
  check_number-asked r (some number) = ground arith

  check_method-asked :
      (r : Request) (root : Object) (o : Option Object)
      → check_method json r root o
        ≡ judged r (if method_ok o then asked (object_get root number_key) else none)
  unfolding check_method check_value method_ok
  check_method-asked r root none = refl
  check_method-asked r root (some method) =
      ground (arith, check_number-asked r (object_get root number_key))

  check_root-asked :
      (r : Request) (o : Option Object) → check_root json r o ≡ judged r (asked_root o)
  unfolding check_root asked_root
  check_root-asked r none = refl
  check_root-asked r (some root) = check_method-asked r root (object_get root method_key)

  -- The checks come to one verdict, which does not depend on what the request held before.
  pub request_malformed-verdict :
      (r : Request) (req : List ℕ) → request_malformed json r req ≡ judged r (verdict req)
  unfolding request_malformed verdict
  request_malformed-verdict r req = check_root-asked r (tokener_parse req)

-- ===== src/PrimeTime/Json.antt =====
-- json-c, as c/source/prime-time uses it. The library is not part of the repository.
use network_exercises.Common.{ℕ, Bool, List, Option}
use network_exercises.Common.Int.{ℤ}

-- `json_type`
pub data JsonType : Type 0 where
  null boolean double int object array string : JsonType

-- A NULL is `none`. `get_int64` gives the value and whether `errno` is set.
pub record Json : Type 1 where
  pub Object : Type 0
  pub tokener_parse : List ℕ → Option Object
  pub object_get : Object → List ℕ → Option Object
  pub get_type : Object → JsonType
  pub get_string : Object → Option (List ℕ)
  pub get_int64 : Object → ℤ × Bool

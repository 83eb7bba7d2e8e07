-- ===== src/PrimeTime/Builder/Tests.antt =====
-- A small reader of numbers in the place of json-c, and the theorems at it.
use network_exercises.Common.{
  ℕ, ◌≡◌, refl, arith, List, [], ◌∷◌, ◌++◌, Bool, true, false, Option, none, some, ◌==◌, length,
  replicate, if◌then◌else◌,
}
use network_exercises.Common.Int.{ℤ, pos}
use network_exercises.Run.{ok, Returns}
use network_exercises.Memory.Growing.{growing, growing-Serves}
use network_exercises.Queue.{Queue}
use network_exercises.PrimeTime.IsPrime.{is_prime_f}
use network_exercises.PrimeTime.IsPrime.Trial.{IsPrime, Decides, is_prime_f-IsPrime}
use network_exercises.PrimeTime.Json.{Json, JsonType}
use network_exercises.PrimeTime.Request.{Request, method_value, strncmp_eq}
use network_exercises.PrimeTime.Request.Verdict.{verdict}
use network_exercises.PrimeTime.Builder.{strtok, request_builder}
use network_exercises.PrimeTime.Builder.Lines.{joined, strtok_end}
use network_exercises.PrimeTime.Builder.Rounds.{Built, request_builder-Answers}

-- A line of one byte is a request for that number; any other line is malformed.
pub data Value : Type 0 where
  request : ℕ → Value
  number : ℕ → Value
  method : Value

unfoldable pub parse : List ℕ → Option Value
parse (c ∷ []) = some (request c)
parse _ = none

unfoldable pub find : Value → List ℕ → Option Value
find (request c) (k ∷ _) = if k == b'm' then some method else some (number c)
find _ _ = none

unfoldable pub kind : Value → JsonType
kind (request _) = JsonType.object
kind (number _) = JsonType.int
kind method = JsonType.string

unfoldable pub text : Value → Option (List ℕ)
text method = some method_value
text _ = none

unfoldable pub value : Value → ℤ × Bool
value (number c) = (pos c, false)
value _ = (pos 0, true)

abbrev pub reader : Json
unfolding parse find kind text value
reader = record {
  Object = Value;
  tokener_parse = parse;
  object_get = find;
  get_type = kind;
  get_string = text;
  get_int64 = value;
}

abbrev pub unset : Request
unset = record { is_prime = false; is_malformed = false; number = pos 0 }

abbrev sdq : Queue
sdq = record { buf = replicate 256 0; capacity = 256; size = 0; free_capacity = 256; head = 0 }

-- 97, 12, a malformed line, and one that is not answered.
abbrev lines : List (List ℕ)
lines = (97 ∷ []) ∷ (12 ∷ []) ∷ (1 ∷ 2 ∷ []) ∷ (5 ∷ []) ∷ []

request_builder-Answers_example :
    Returns
      (λ (r, sdq', raw, bad). Built (verdict reader) lines sdq false r sdq' bad)
      (request_builder reader
        (growing 0)
        unset
        sdq
        (joined lines ++ (0 ∷ 7 ∷ []))
        (length (joined lines))
        false)
unfolding parse find kind text value verdict strncmp_eq
request_builder-Answers_example =
    request_builder-Answers reader (growing-Serves 0) unset sdq lines (7 ∷ []) false (omega arith)
      (omega arith) (omega arith) (omega arith) (omega arith) (omega arith) (omega arith)

is_prime_f-IsPrime_example : Returns (Decides (IsPrime (pos 91))) (is_prime_f (pos 91))
is_prime_f-IsPrime_example = is_prime_f-IsPrime (pos 91) (omega arith)

strtok_end_example : strtok (1 ∷ 0 ∷ 5 ∷ []) 1 ≡ ok (none, 1 ∷ 0 ∷ 5 ∷ [], 1)
strtok_end_example = strtok_end (1 ∷ []) (5 ∷ []) 1 refl

-- ===== src/PrimeTime/Builder/Answers.antt =====
-- `is_prime_request_builder` against what the server promises: for each line one response, in
-- order, that tells whether the number is prime, up to and with the first malformed line.
use network_exercises.Common.{
  ℕ, ◌+◌, ◌*◌, ◌<◌, ◌≤◌, ◌≡◌, refl, ap, ap₂, take-take, take-append_add, sym, ◌∙◌, arith, true,
  false, Bool, List, [], ◌∷◌, ◌++◌, Option, none, some, length, take, length-append, take-append,
  take-length,
}
use network_exercises.Common.Int.{ℤ, pos_part}
use network_exercises.Run.{Returns, Returns-bind, Returns-and, Returns-mono}
use network_exercises.Memory.{Allocator, Serves}
use network_exercises.Queue.{Queue}
use network_exercises.Queue.Valid.{IsValid, contents, length-contents, max_bytes}
use network_exercises.Queue.Push.{
  Holds, Slack, Copied, memcpy-Copied, push_ex-extend, push_ex-Slack,
}
use network_exercises.PrimeTime.IsPrime.Trial.{IsPrime, Decides, root, is_prime_f-IsPrime}
use network_exercises.PrimeTime.Json.{Json}
use network_exercises.PrimeTime.Request.{
  request_malformed, beget_response, ill_response, response_format,
}
use network_exercises.PrimeTime.Request.Verdict.{judged}
use network_exercises.PrimeTime.Builder.{Token, Progress, put_response, answer}

-- The longest response, with the NUL that `sprintf` writes behind it.
abbrev pub longest : ℕ
longest = 36

-- A queue with room at its head for any response.
pub record Spacious (qu : Queue) : Type 0 where
  pub large : 256 ≤ qu.capacity
  pub light : 5 * qu.size ≤ 4 * (qu.free_capacity + 36)

-- What the queue is after a response.
pub record Sent (qu : Queue) (out : List ℕ) (qu' : Queue) : Type 0 where
  pub valid : IsValid qu'
  pub spacious : Spacious qu'
  pub bytes : contents qu' ≡ contents qu ++ out
  pub more : qu'.size ≤ qu.size + longest

-- Of the bytes written at the head, the first ones count.
written-contents :
    (qu : Queue) (response written : List ℕ) (size : ℕ)
    → IsValid qu
    → size ≤ length response
    → Copied qu.buf qu.head response (length response) written
    → take (qu.size + size) written ≡ contents qu ++ take size response
written-contents qu response written size v fits c =
    let start : qu.head ≡ qu.size = v.at_end in
    let held : length (contents qu) ≡ qu.size = length-contents qu v in
    sym (take-take (qu.size + size) (qu.head + length response) written (omega (arith, v)))
    ∙ ap (take (qu.size + size)) (
        c.front
        ∙ ap₂ (λ k l. take k qu.buf ++ l) start
            (take-length (length response) response (omega arith)))
    ∙ take-append_add qu.size size (contents qu) response held

-- The response is written where the queue has room, before the queue is told of it.
put_response-Sent :
    {mem : Allocator ℕ} (json : Json) (qu : Queue) (response : List ℕ) (size : ℕ)
    → Serves mem
    → IsValid qu
    → Spacious qu
    → 0 < size
    → size ≤ length response
    → length response ≤ longest
    → qu.size + longest < max_bytes
    → Returns (Sent qu (take size response)) (put_response json mem qu response size)
unfolding put_response
put_response-Sent {mem} json qu response size serves v s some_bytes fits short few =
    Returns-bind (Copied qu.buf qu.head response (length response)) _ _ _
      (memcpy-Copied qu.buf qu.head response (length response) (omega arith) (omega (arith, v, s)))
      (λ written c.
        let filled : Queue = record qu { buf = written } in
        let v' : IsValid filled = omega (arith, v, c.size) in
        let P : Queue → Type 0 = Holds (take (qu.size + size) written) (qu.size + size) in
        Returns-mono (λ q. P q × Slack filled size q) (Sent qu (take size response)) _
          (Returns-and P (Slack filled size) _
            (push_ex-extend serves filled size v' (omega (arith, v, s)) (omega arith))
            (push_ex-Slack serves filled size v' some_bytes (omega arith)))
          (λ qu' (held, slack). record {
            valid = held.0;
            spacious = record { large = omega (arith, s, slack); light = omega (arith, slack) };
            bytes = held.1 ∙ written-contents qu response written size v fits c;
            more = omega (arith, held.2);
          }))

-- The response to a line with a verdict.
abbrev pub Answer : Option ℤ → List ℕ → Type 0
Answer none out = out ≡ ill_response
Answer (some z) out = (b : Bool) × Decides (IsPrime z) b × (out ≡ response_format b)

abbrev pub InRange : Option ℤ → Type 0
InRange none = Unit {0}
InRange (some z) = pos_part z < root * root

abbrev pub is_none : Option ℤ → Bool
is_none none = true
is_none (some _) = false

-- What one round makes of a line.
pub record Answered (v : Option ℤ) (p p' : Progress) : Type 0 where
  pub out : List ℕ
  pub answers : Answer v out
  pub sent : Sent p.sdq out p'.sdq
  pub flag : p'.malformed ≡ is_none v
  pub in_range : pos_part p'.curr.number < root * root
  pub same_raw : p'.raw ≡ p.raw
  pub same_save : p'.save ≡ p.save
  pub same_j : p'.j ≡ p.j

response_bounds :
    (b : Bool) → (0 < length (response_format b)) × (length (response_format b) + 1 ≤ longest)
response_bounds true = omega arith
response_bounds false = omega arith

module _ (json : Json) {mem : Allocator ℕ} (serves : Serves mem) where
  pub answer_verdict :
      (p : Progress) (token : Token) (v : Option ℤ)
      → request_malformed json p.curr token.text ≡ judged p.curr v
      → InRange v
      → pos_part p.curr.number < root * root
      → IsValid p.sdq
      → Spacious p.sdq
      → p.sdq.size + longest < max_bytes
      → Returns (Answered v p) (answer json mem p token)
  unfolding answer beget_response
  answer_verdict p token none e fits small valid spacious few = rw e (
      Returns-bind (Decides (IsPrime p.curr.number)) (Answered none p) _ _
        (is_prime_f-IsPrime p.curr.number small)
        (λ prime d.
          Returns-bind (Sent p.sdq (take 34 ill_response)) (Answered none p) _ _
            (put_response-Sent json p.sdq ill_response 34 serves valid spacious (omega arith)
              (omega arith) (omega arith) few)
            (λ sdq sent. record {
              out = ill_response;
              answers = refl;
              sent = sent;
              flag = refl;
              in_range = small;
              same_raw = refl;
              same_save = refl;
              same_j = refl;
            })))
  answer_verdict p token (some z) e fits small valid spacious few = rw e (
      Returns-bind (Decides (IsPrime z)) (Answered (some z) p) _ _ (is_prime_f-IsPrime z fits)
        (λ prime d.
          let text : List ℕ = response_format prime in
          let bounds = response_bounds prime in
          let whole = length-append text (0 ∷ []) in
          Returns-bind (Sent p.sdq (take (length text) (text ++ 0 ∷ []))) (Answered (some z) p) _ _
            (put_response-Sent json p.sdq (text ++ 0 ∷ []) (length text) serves valid spacious
              bounds.0 (omega (arith, whole)) (omega (arith, bounds.1, whole)) few)
            (λ sdq sent. record {
              out = text;
              answers = (prime, d, refl);
              sent = rw (take-append text (0 ∷ []) (length text) refl) at sent;
              flag = refl;
              in_range = fits;
              same_raw = refl;
              same_save = refl;
              same_j = refl;
            })))

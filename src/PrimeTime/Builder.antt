-- ===== src/PrimeTime/Builder.antt =====
-- `is_prime_request_builder` of c/source/prime-time/is-prime-request.c, and `handle_request` of
-- c/source/prime-time/main.c: the lines of a received buffer, each answered behind the last.
pub mod Lines
pub mod Answers
pub mod Round
pub mod Rounds
pub mod Unique
pub mod Tests
use network_exercises.Common.{
  ℕ, zero, suc, ◌+◌, ◌-◌, Bool, true, false, Option, none, some, List, [], ◌∷◌, ◌||◌, length, take,
  drop, ltb, leb, ◌==◌, if◌then◌else◌,
}
use network_exercises.Common.Int.{ℤ, pos, negsuc}
use network_exercises.Run.{Run, ok, out_of_fuel, ◌>>=◌, ◌>>◌, assert}
use network_exercises.Memory.{Allocator, memcpy, load, assign}
use network_exercises.Queue
use network_exercises.Queue.{Queue}
use network_exercises.PrimeTime.IsPrime.{is_prime_f}
use network_exercises.PrimeTime.Json.{Json}
use network_exercises.PrimeTime.Request.{Request, request_malformed, beget_response}

abbrev pub delimiter : ℕ
delimiter = b'\n'

-- `strspn(s, "\n")` and `strcspn(s, "\n")` as the offset where they stop; the text ends at its NUL,
-- and reading behind the buffer is undefined.
span : ℕ → List ℕ → ℕ → Run ℕ
span zero buf at = out_of_fuel
span (suc fuel) buf at = do
  c ← load buf at
  let rest = span fuel buf (at + 1)
  if c == delimiter then rest else ok at

cspan : ℕ → List ℕ → ℕ → Run ℕ
cspan zero buf at = out_of_fuel
cspan (suc fuel) buf at = do
  c ← load buf at
  let rest = cspan fuel buf (at + 1)
  if c == delimiter || c == 0 then ok at else rest

-- A token: where it starts, and its text.
pub record Token : Type 0 where
  pub start : ℕ
  pub text : List ℕ

abbrev token_at : ℕ → List ℕ → Token
token_at start text = record { start = start; text = text }

-- `strtok_r` from the saved offset: the token, the buffer with a NUL behind it, the next offset.
pub strtok : List ℕ → ℕ → Run (Option Token × List ℕ × ℕ)
unfolding span cspan
strtok buf save = do
  start ← span (length buf + 1) buf save
  c ← load buf start
  if c == 0 then ok (none, buf, start) else (do
    end ← cspan (length buf + 1) buf start
    let token = token_at start (take (end - start) (drop start buf))
    last ← load buf end
    if last == 0
        then ok (some token, buf, end)
        else (do buf' ← assign buf end 0; ok (some token, buf', end + 1)))

-- What the function keeps over its rounds, and the buffer that it cuts up.
pub record Progress : Type 0 where
  pub sdq : Queue
  pub raw : List ℕ
  pub save : ℕ
  pub j : ℕ
  pub curr : Request
  pub malformed : Bool

module _ (json : Json) (mem : Allocator ℕ) where
  -- The response goes to the head of the queue, and then the queue is told.
  put_response : Queue → List ℕ → ℕ → Run Queue
  put_response sdq response size = do
    written ← memcpy sdq.buf sdq.head response (length response)
    Queue.push_ex mem (record sdq { buf = written }) size

  -- The body of the loop once there is a token inside the request.
  pub answer : Progress → Token → Run Progress
  unfolding put_response
  answer p token =
      let (bad, curr) = request_malformed json p.curr token.text in
      do
        prime ← is_prime_f curr.number
        let curr' = record curr { is_prime = prime }
        let (response, size) = beget_response curr'
        sdq ← put_response p.sdq response size
        ok (record p { sdq = sdq; curr = curr'; malformed = bad })

  rounds : ℕ → (req_size : ℕ) → Progress → Run Progress
  unfolding answer
  rounds zero req_size p = out_of_fuel
  rounds (suc fuel) req_size p = do
    (token, raw, save) ← strtok p.raw p.save
    let q = record p { raw = raw; save = save }
    elim token [
      | none ↦ ok q
      | some t ↦ if leb req_size t.start then ok q else (do
        q' ← answer q t
        if q'.malformed
            then ok (record q' { j = q'.j + 1 })
            else rounds fuel req_size (record q' { j = q'.j + 1 }))
    ]

  -- The results are the number of requests, the queue of responses, the buffer, and `*malformed`.
  -- `curr` is not initialised, so it is a parameter.
  pub request_builder :
      Request → Queue → List ℕ → (req_size : ℕ) → Bool → Run (ℕ × Queue × List ℕ × Bool)
  unfolding rounds
  request_builder curr sdq raw req_size mal = do
    assert (ltb 0 req_size)
    p ←
        rounds (length raw + 1) req_size
          (record { sdq = sdq; raw = raw; save = 0; j = 1; curr = curr; malformed = mal })
    ok (p.j - 1, p.sdq, p.raw, p.malformed)

  -- `handle_request`: the status, the queue and the buffer.
  unfoldable pub handle_request : Request → Queue → List ℕ → ℕ → Run (ℤ × Queue × List ℕ)
  unfolding request_builder
  handle_request curr sdq raw size = if size == 0 then ok (pos 1, sdq, raw) else do
    (r, sdq', raw', mal) ← request_builder curr sdq raw size false
    ok ((if leb r 0 then negsuc 0 else if mal then pos 0 else pos 1), sdq', raw')

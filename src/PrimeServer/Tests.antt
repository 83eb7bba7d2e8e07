-- ===== src/PrimeServer/Tests.antt =====
-- A server with two connections, and the theorems at it.
use network_exercises.Common.{ℕ, ◌≡◌, refl, arith, true, false, List, [], ◌∷◌, ◌++◌, replicate}
use network_exercises.Common.Int.{pos, negsuc}
use network_exercises.Run.{ok, Returns}
use network_exercises.Memory.{memcpy}
use network_exercises.Memory.Growing.{growing, growing-Serves}
use network_exercises.Queue.{Queue, push_ex, make_room}
use network_exercises.Queue.Valid.{IsValid}
use network_exercises.Net.{
  Inbox, End, took, recv_request, receive_loop, recv, recv_chunks, store_received,
}
use network_exercises.Net.Receive as Receive
use network_exercises.Net.Reply.{IsIdle}
use network_exercises.PrimeTime.IsPrime.{is_prime_f, trial}
use network_exercises.PrimeTime.IsPrime.Trial.{IsPrime, Decides, is_prime_f-IsPrime}
use network_exercises.PrimeTime.Request.{strncmp_eq, ill_response, response_format}
use network_exercises.PrimeTime.Request.Verdict.{verdict}
use network_exercises.PrimeTime.Builder.Lines.{joined}
use network_exercises.PrimeTime.Builder.Round.{Answers, last, more, flagged}
use network_exercises.PrimeTime.Builder.Tests.{reader, unset, parse, find, kind, text, value}
use network_exercises.PrimeServer.{Server, has_byte, on_ready}
use network_exercises.PrimeServer.Attend.{HoldsLines}
use network_exercises.PrimeServer.Ready.{Waits, Replied, on_ready-Waits, on_ready-LinesServed}

abbrev empty : ℕ → Queue
empty capacity = record {
  buf = replicate capacity 0;
  capacity = capacity;
  size = 0;
  free_capacity = capacity;
  head = 0;
}

abbrev server : Server
server = record { rcqu = empty 64; sdqu = empty 256; watched = pos 5 ∷ pos 6 ∷ [] }

-- A part of a line, and then the end of the connection.
abbrev part : Inbox
part = record { chunks = (97 ∷ []) ∷ []; end = End.closed }

empty-IsValid : IsValid (empty 64)
empty-IsValid = record {
  filled = refl;
  small = omega arith;
  at_end = refl;
  room = omega arith;
  rest = refl;
}

on_ready-Waits_example :
    Returns (Waits server 5 part) (on_ready reader (growing 0) unset server 5 part [] true)
unfolding has_byte Receive.joined
on_ready-Waits_example =
    on_ready-Waits reader (growing-Serves 0) unset server 5 part [] (omega arith) (omega arith, tt)
      empty-IsValid (omega arith) refl

-- 97, and a malformed line.
abbrev lines : List (List ℕ)
lines = (97 ∷ []) ∷ (1 ∷ 2 ∷ []) ∷ []

abbrev whole : Inbox
whole = record { chunks = (97 ∷ 10 ∷ 1 ∷ 2 ∷ []) ∷ (10 ∷ []) ∷ []; end = End.would_block }

abbrev received : Queue
received = record {
  buf = 97 ∷ 10 ∷ 1 ∷ 2 ∷ 10 ∷ replicate 59 0;
  capacity = 64;
  size = 5;
  free_capacity = 59;
  head = 5;
}

received_run : recv_request (growing 0) 5 whole (empty 64) ≡ ok (negsuc 0, received)
unfolding recv_request receive_loop recv recv_chunks store_received push_ex make_room memcpy
received_run = refl

received-HoldsLines : HoldsLines lines (replicate 58 0) received
unfolding joined
received-HoldsLines = record {
  valid = record {
    filled = refl;
    small = omega arith;
    at_end = refl;
    room = omega arith;
    rest = refl;
  };
  buf = refl;
  size = refl;
  small = omega arith;
}

ninety_seven : Decides (IsPrime (pos 97)) true
unfolding is_prime_f trial
ninety_seven = is_prime_f-IsPrime (pos 97) (omega arith)

abbrev responses : List ℕ
responses = response_format true ++ ill_response

answered : Answers (verdict reader) lines responses
unfolding parse find kind text value verdict strncmp_eq
answered =
    more (97 ∷ []) ((1 ∷ 2 ∷ []) ∷ []) (response_format true) ill_response responses (pos 97) refl
      (true, ninety_seven, refl) (last (1 ∷ 2 ∷ []) [] ill_response refl refl) refl

sdqu-IsIdle : IsIdle (empty 256)
sdqu-IsIdle = record {
  valid = record {
    filled = refl;
    small = omega arith;
    at_end = refl;
    room = omega arith;
    rest = refl;
  };
  empty = refl;
  spare = omega arith;
}

on_ready-LinesServed_example :
    Returns
      (Replied false server 5 responses)
      (on_ready reader (growing 0) unset server 5 whole (took 68 ∷ []) true)
unfolding parse find kind text value verdict strncmp_eq flagged
on_ready-LinesServed_example =
    on_ready-LinesServed reader (growing-Serves 0) unset server 5 whole received lines
      (replicate 58 0) responses received_run refl received-HoldsLines (omega arith) (omega arith)
      (omega arith) (omega arith) (omega arith) (omega arith) sdqu-IsIdle
      (record { large = omega arith; light = omega arith }) answered

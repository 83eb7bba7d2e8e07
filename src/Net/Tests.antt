-- ===== src/Net/Tests.antt =====
-- A socket that delivers in pieces, and a `send` that takes less than it is offered.
use network_exercises.Common.{ℕ, ◌≡◌, arith, List, [], ◌∷◌, ◌++◌}
use network_exercises.Run.{ok, Returns}
use network_exercises.Memory.Growing.{growing, growing-Serves}
use network_exercises.Queue.{Queue}
use network_exercises.Net.{Inbox, End, took, errno, recv_request, sendall}
use network_exercises.Net.Receive.{Took, recv_request-Took}
use network_exercises.Net.Send.{SentFront, sendall-SentFront, sendall-short}

abbrev small : Queue
small = record { buf = 1 ∷ 0 ∷ 0 ∷ 0 ∷ []; capacity = 4; size = 1; free_capacity = 3; head = 1 }

-- The first piece is longer than the room at hand.
abbrev inbox : Inbox
inbox = record { chunks = (2 ∷ 3 ∷ 4 ∷ 5 ∷ 6 ∷ []) ∷ (7 ∷ []) ∷ []; end = End.would_block }

recv_request-Took_example : Returns (Took small inbox) (recv_request (growing 0) 5 inbox small)
recv_request-Took_example =
    recv_request-Took (growing-Serves 0) 5 inbox small (omega arith) (omega arith) (omega arith)
      (omega arith)

abbrev ten : List ℕ
ten = 1 ∷ 2 ∷ 3 ∷ 4 ∷ 5 ∷ 6 ∷ 7 ∷ 8 ∷ 0 ∷ 0 ∷ []

sendall-SentFront_example :
    Returns (SentFront ten 8) (sendall ((took 3 ∷ took 5 ∷ []) ++ errno 32 ∷ []) 5 ten 8)
sendall-SentFront_example =
    sendall-SentFront (took 3 ∷ took 5 ∷ []) 32 5 ten 8 (omega arith) (omega arith) (omega arith)
      (omega arith) (omega arith)

-- Of eight bytes the first call takes five: three are never sent.
sendall-short_example :
    sendall (took 5 ∷ took 3 ∷ []) 5 ten 8
    ≡ ok (record { result = 0; len = 5; wire = 1 ∷ 2 ∷ 3 ∷ 4 ∷ 5 ∷ [] })
sendall-short_example =
    sendall-short [] 5 5 8 ten (omega arith) (omega arith) (omega arith) (omega arith) (omega arith)

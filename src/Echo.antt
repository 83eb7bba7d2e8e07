-- ===== src/Echo.antt =====
-- The loop of c/source/smoke-test/main.c: what is done for an event of a connection. The queue is
-- shared by all connections. `removed` says whether `fd_poll_del_and_close` succeeds; where it does
-- not, the server exits.
pub mod Reply
pub mod Main
pub mod Connections
mod Tests
use network_exercises.Common.{ℕ, ◌==◌, Bool, true, false, Option, List, [], if◌then◌else◌, not}
use network_exercises.Common.Int.{ℤ, pos, negsuc, pos_part, leb_ℤ, eq_ℤ}
use network_exercises.Run.{Run, ok, aborted, ◌>>=◌}
use network_exercises.Memory.{Allocator}
use network_exercises.Queue
use network_exercises.Queue.{Queue}
use network_exercises.Links.{some_or}
use network_exercises.Net.{Inbox, Answer, Outcome, recv_request, sendall}

pub data Fate : Type 0 where
  kept_open closed : Fate

-- `fd_poll_del_and_close`, and `exit` where it fails.
unfoldable pub disconnect : Bool → Queue → List ℕ → Run (Queue × List ℕ × Fate)
disconnect true qu wire = ok (qu, wire, closed)
disconnect false qu wire = aborted

-- The echo of the data: what `sendall` returns, and what goes out.
unfoldable pub echo : List Answer → ℕ → Option (List ℕ) → ℤ → Run (ℕ × List ℕ)
echo answers fd data_at size =
    if leb_ℤ (pos 1) size
    then (do
      bytes ← some_or data_at
      out ← sendall answers fd bytes (pos_part size)
      ok (out.result, out.wire))
    else ok (0, [])

-- What follows `recv_request`: the queue, the bytes that went out, and whether the connection stays
-- open.
unfoldable pub respond :
    (fd : ℕ) → List Answer → (removed : Bool) → (res : ℤ) → Queue → Run (Queue × List ℕ × Fate)
respond fd answers removed res qu =
    let (qu', data_at, size) = Queue.pop_no_copy qu in
    if leb_ℤ res (negsuc 1) then disconnect removed qu' [] else do
      (failure, wire) ← echo answers fd data_at size
      if not (failure == 0)
          then ok (qu', wire, kept_open)
          else if eq_ℤ res (negsuc 0)
          then ok (qu', wire, kept_open)
          else disconnect removed qu' wire

unfoldable pub handle_event :
    Allocator ℕ
    → (fd : ℕ) → Inbox
    → List Answer
    → (removed : Bool) → Queue
    → Run (Queue × List ℕ × Fate)
handle_event mem fd inbox answers removed qu = do
  (res, received) ← recv_request mem fd inbox qu
  respond fd answers removed res received

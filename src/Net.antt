-- ===== src/Net.antt =====
-- c/source/utils/utils.c and sockets.c: receiving into a queue, sending from a buffer.
pub mod Receive
pub mod Send
pub mod Reply
pub mod Streams
mod Tests
use network_exercises.Common.{
  ℕ, zero, suc, ◌+◌, ◌-◌, ◌^◌, ◌<◌, Bool, List, [], ◌∷◌, ◌++◌, length, take, drop, replicate, ltb,
  leb, if◌then◌else◌,
}
use network_exercises.Common.Int.{ℤ, pos, negsuc}
use network_exercises.Run.{Run, ok, undefined, out_of_fuel, ◌>>=◌, ◌>>◌, assert}
use network_exercises.Memory.{Allocator, memcpy}
use network_exercises.Queue
use network_exercises.Queue.{Queue}

-- How a socket stands once its data is read: closed, nothing more for now, or an error.
pub data End : Type 0 where
  closed would_block failed : End

-- What a socket delivers: data as it arrives, then its end.
pub record Inbox : Type 0 where
  pub chunks : List (List ℕ)
  pub end : End

pub data Received : Type 0 where
  got : List ℕ → Received
  stopped : End → Received

-- `recv(fd, buffer, n, 0)`: at most `n` bytes, and the rest stays for the next call.
unfoldable pub recv_chunks : ℕ → List (List ℕ) → End → Received × List (List ℕ)
recv_chunks n [] end = (stopped end, [])
recv_chunks n (c ∷ cs) end =
    if leb (length c) n then (got c, cs) else (got (take n c), drop n c ∷ cs)

unfoldable pub recv : ℕ → Inbox → Received × Inbox
unfolding recv_chunks
recv n inbox =
    let (r, chunks) = recv_chunks n inbox.chunks inbox.end in (r, record inbox { chunks = chunks })

-- 0, -1 and -2 of `recv_request`.
abbrev pub status : End → ℤ
status closed = pos 0
status would_block = negsuc 0
status failed = negsuc 1

-- What `recv` wrote at the head becomes the queue's.
unfoldable pub store_received : Allocator ℕ → Queue → List ℕ → Run Queue
store_received mem qu bytes = do
  buf ← memcpy qu.buf qu.head bytes (length bytes)
  Queue.push_ex mem (record qu { buf = buf }) (length bytes)

unfoldable pub receive_loop : Allocator ℕ → ℕ → Inbox → Queue → Run (ℤ × Queue)
receive_loop mem zero inbox qu = out_of_fuel
receive_loop mem (suc fuel) inbox qu =
    let (r, inbox') = recv qu.free_capacity inbox in
    elim r [
      | stopped end ↦ ok (status end, qu)
      | got bytes ↦ (do qu' ← store_received mem qu bytes; receive_loop mem fuel inbox' qu')
    ]

abbrev pub total : List (List ℕ) → ℕ
total [] = 0
total (c ∷ cs) = length c + total cs

-- `recv_request`: the status and the queue. Each round takes a byte at least.
unfoldable pub recv_request : Allocator ℕ → ℕ → Inbox → Queue → Run (ℤ × Queue)
unfolding receive_loop store_received recv
recv_request mem fd inbox qu = do
  assert (ltb 0 fd)
  receive_loop mem (total inbox.chunks + 1) inbox qu

-- What `send` answers: how many bytes it took, no more than were offered, or `errno`.
pub data Answer : Type 0 where
  took : ℕ → Answer
  errno : ℕ → Answer

-- A connection that comes in, or one that is ready. `removed` says whether `epoll_ctl` removes it.
pub data Event : Type 0 where
  incoming : (conn_sock : ℤ) (added : Bool) → Event
  ready : (fd : ℕ) (inbox : Inbox) (answers : List Answer) (removed : Bool) → Event

-- What `sendall` returns, the value of `*len`, and the bytes that went out.
pub record Outcome : Type 0 where
  pub result : ℕ
  pub len : ℕ
  pub wire : List ℕ

-- The loop over the answers of `send`; without an answer it does not return. `buf` advances.
send_loop :
    List Answer
    → (buf : List ℕ) → (nbytes_sent total_to_send total_sent : ℕ) → (wire : List ℕ) → Run Outcome
send_loop [] buf nbytes_sent total_to_send total_sent wire =
    if ltb nbytes_sent total_to_send
    then out_of_fuel
    else ok (record { result = 0; len = total_sent; wire = wire })
send_loop (errno e ∷ answers) buf nbytes_sent total_to_send total_sent wire = ok (record {
  result = if ltb nbytes_sent total_to_send then e else 0;
  len = total_sent;
  wire = wire;
})
send_loop (took n ∷ answers) buf nbytes_sent total_to_send total_sent wire =
    let next =
      send_loop answers (drop n buf) n (total_to_send - n) (total_sent + n) (wire ++ take n buf) in
    if ltb nbytes_sent total_to_send
    then next
    else ok (record { result = 0; len = total_sent; wire = wire })

-- `sendall`. Its trace copies two bytes more than it is asked to send; `*len + 2` is an `int`.
pub sendall : List Answer → ℕ → List ℕ → ℕ → Run Outcome
unfolding send_loop
sendall answers sfd buf len = do
  assert (ltb 0 sfd)
  assert (ltb 0 len)
  if ltb (len + 2) (2 ^ 31)
      then (do
        msg ← memcpy (replicate (len + 2) 0) 0 buf (len + 2)
        send_loop answers buf 0 len 0 [])
      else undefined

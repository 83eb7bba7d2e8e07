-- ===== src/PrimeServer.antt =====
-- The server of c/source/prime-time/main.c: its state, and what its loop does for an event. Both queues
-- are shared by all connections. The calls of the system enter as what they deliver and return.
pub mod Attend
pub mod Ready
pub mod Main
mod Tests
use network_exercises.Common.{
  ℕ, ◌==◌, Bool, true, false, ◌&&◌, ◌||◌, Option, none, some, List, [], ◌∷◌, take, if◌then◌else◌,
}
use network_exercises.Common.Int.{ℤ, pos, negsuc, pos_part, leb_ℤ, eq_ℤ}
use network_exercises.Run.{Run, ok, aborted, ◌>>=◌}
use network_exercises.Memory.{Allocator}
use network_exercises.Queue
use network_exercises.Queue.{Queue}
use network_exercises.Links.{some_or}
use network_exercises.Net.{Inbox, Answer, recv_request, Event, incoming, ready}
use network_exercises.Net.Reply.{send_replies}
use network_exercises.Poll.{fd_poll_del_and_close, fd_accept_and_epoll_add}
use network_exercises.PrimeTime.Json.{Json}
use network_exercises.PrimeTime.Request.{Request}
use network_exercises.PrimeTime.Builder.{delimiter, handle_request}

-- The variables that live across events, and what epoll watches.
pub record Server : Type 0 where
  pub rcqu : Queue
  pub sdqu : Queue
  pub watched : List ℤ

-- What is done for a connection: the queues, the bytes that went out, and whether it stays open.
pub record Served : Type 0 where
  pub rcqu : Queue
  pub sdqu : Queue
  pub wire : List ℕ
  pub keep : Bool

unfoldable pub has_byte : ℕ → List ℕ → Bool
has_byte c [] = false
has_byte c (b ∷ bs) = let rest = has_byte c bs in b == c || rest

-- `memrchr` finds a newline in what the queue holds.
unfoldable pub complete_req : Option (List ℕ) → (size : ℤ) → Run Bool
complete_req data_at size =
    if leb_ℤ (pos 1) size
    then (do bytes ← some_or data_at; ok (has_byte delimiter (take (pos_part size) bytes)))
    else ok false

-- `curr` is not initialised in `is_prime_request_builder`, so it is a parameter.
module _ (json : Json) (mem : Allocator ℕ) (curr : Request) where
  -- `if (complete_req != NULL)`: the received bytes are cut up where they stand, in the buffer of
  -- `rcqu`. `keep` says that `result` is positive and `rs` is 0.
  unfoldable pub process : ℕ → List Answer → Queue → Queue → Run Served
  process fd answers rcqu sdqu =
      let (popped, found, size) = Queue.pop_no_copy rcqu in
      do
        bytes ← some_or found
        (result, filled, raw) ← handle_request json mem curr sdqu bytes (pos_part size)
        (sent, sdqu', wire) ← send_replies fd answers filled
        ok (record {
          rcqu = record popped { buf = raw };
          sdqu = sdqu';
          wire = wire;
          keep = leb_ℤ (pos 1) result && sent;
        })

  -- What follows `recv_request`, up to where the connection is kept or closed.
  unfoldable pub attend : ℕ → List Answer → Queue → Queue → (res : ℤ) → Run Served
  attend fd answers rcqu sdqu res =
      let (data_at, size) = Queue.peek rcqu in
      let waiting : Served = record {
        rcqu = rcqu;
        sdqu = sdqu;
        wire = [];
        keep = eq_ℤ res (negsuc 0);
      } in
      if leb_ℤ res (negsuc 1) then ok (record waiting { keep = false }) else (do
        complete ← complete_req data_at size
        if complete
            then (do
              v ← process fd answers rcqu sdqu
              ok (record v { keep = v.keep && eq_ℤ res (negsuc 0) }))
            else ok waiting)

  -- The connection is closed where it is not kept; where that fails the server exits.
  unfoldable pub on_ready :
      Server → (fd : ℕ) → Inbox → List Answer → (removed : Bool) → Run (Server × List ℕ)
  on_ready s fd inbox answers removed = do
    (res, received) ← recv_request mem fd inbox s.rcqu
    v ← attend fd answers received s.sdqu res
    let (r, watched) = fd_poll_del_and_close removed (pos fd) s.watched
    let kept : Server = record { rcqu = v.rcqu; sdqu = v.sdqu; watched = s.watched }
    if v.keep
        then ok (kept, v.wire)
        else if eq_ℤ r (negsuc 0)
        then aborted
        else ok (record kept { watched = watched }, v.wire)

  unfoldable pub handle_event : Server → Event → Run (Server × List ℕ)
  handle_event s (incoming conn_sock added) = do
    (new_fd, watched) ← fd_accept_and_epoll_add conn_sock added s.watched
    ok (record s { watched = watched }, [])
  handle_event s (ready fd inbox answers removed) = on_ready s fd inbox answers removed

-- The two queues before the loop; the calls of `queue_init` are not checked.
unfoldable pub start : Allocator ℕ → Run Server
start mem = do
  rcqu_at ← Queue.init mem none 2048
  rcqu ← some_or rcqu_at
  sdqu_at ← Queue.init mem none 2048
  sdqu ← some_or sdqu_at
  ok (record { rcqu = rcqu; sdqu = sdqu; watched = [] })

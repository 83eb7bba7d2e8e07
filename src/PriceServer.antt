-- ===== src/PriceServer.antt =====
-- The server of c/source/means-to-an-end/main.c: its state, and what its loop does for an event. The
-- calls of the system enter as what they deliver and return.
pub mod Process
pub mod Serve
pub mod Table
pub mod Lookup
pub mod Streams
pub mod Step
pub mod Accept
pub mod Replies
pub mod Loop
pub mod Knowing
pub mod Isolation
pub mod Main
pub mod Running
mod Tests
use network_exercises.Common.{
  ℕ, ◌%◌, ◌==◌, Bool, true, false, ◌&&◌, Option, none, some, List, [], ◌∷◌, if◌then◌else◌,
}
use network_exercises.Common.Int.{ℤ, pos, negsuc, pos_part, leb_ℤ, eq_ℤ}
use network_exercises.Run.{Run, ok, aborted, ◌>>=◌, ◌>>◌, assert, assert_some}
use network_exercises.Memory.{Allocator}
use network_exercises.Queue
use network_exercises.Queue.{Queue}
use network_exercises.Prices.{AssetPrice}
use network_exercises.Messages.{Session, message_parse, message_size}
use network_exercises.Net.{Inbox, Answer, recv_request, Event, incoming, ready}
use network_exercises.Net.Reply.{send_replies}
use network_exercises.Poll.{fd_poll_del_and_close, fd_accept_and_epoll_add}
use network_exercises.Links.{Heap, Node, fetch, write, some_or}
use network_exercises.Sessions
use network_exercises.Sessions.{Client, Addresses}

-- The variables that live across events, and what epoll watches.
pub record Server : Type 0 where
  pub heap : Heap Client
  pub ca : Option ℕ
  pub sdqu : Queue
  pub watched : List ℤ

-- What is done for a connection: its session, the queue of replies, the bytes that went out, and
-- whether it stays open.
pub record Served : Type 0 where
  pub client : Client
  pub sdqu : Queue
  pub wire : List ℕ
  pub keep : Bool

-- There is at least one request, and no part of one.
abbrev pub complete_req : ℤ → Bool
complete_req size = leb_ℤ (pos 1) size && (pos_part size % message_size == 0)

module _ (mem : Allocator ℕ) (price_mem : Allocator AssetPrice) where
  -- `if (complete_req)`
  unfoldable pub process : ℕ → List Answer → Queue → Client → Run (Bool × Client × Queue × List ℕ)
  process fd answers sdqu c =
      let (recv_qu, found, size) = Queue.pop_no_copy c.recv_qu in
      do
        bytes ← some_or found
        s ←
            message_parse mem price_mem (record { prices = c.asset; sdqu = sdqu }) bytes
              (pos_part size)
        (sent, sdqu', wire) ← send_replies fd answers s.sdqu
        ok (sent, record c { asset = s.prices; recv_qu = recv_qu }, sdqu', wire)

  -- What follows `recv_request`, up to where the connection is kept or closed.
  unfoldable pub attend : ℕ → List Answer → Queue → Client → (res : ℤ) → Run Served
  attend fd answers sdqu c res =
      if leb_ℤ res (negsuc 1)
      then ok (record { client = c; sdqu = sdqu; wire = []; keep = false })
      else if complete_req (Queue.peek c.recv_qu).1
      then (do
        (sent, c', sdqu', wire) ← process fd answers sdqu c
        ok (record { client = c'; sdqu = sdqu'; wire = wire; keep = sent && eq_ℤ res (negsuc 0) }))
      else ok (record { client = c; sdqu = sdqu; wire = []; keep = eq_ℤ res (negsuc 0) })

  unfoldable pub serve : ℕ → Inbox → List Answer → Queue → Client → Run Served
  serve fd inbox answers sdqu client = do
    (res, recv_qu) ← recv_request mem fd inbox client.recv_qu
    attend fd answers sdqu (record client { recv_qu = recv_qu }) res

  module _ (malloc : Addresses) (fuel : ℕ) where
    unfoldable pub on_incoming : Server → (conn_sock : ℤ) → (added : Bool) → Run Server
    on_incoming s conn_sock added = do
      (new_fd, watched) ← fd_accept_and_epoll_add conn_sock added s.watched
      (heap, ca) ← Sessions.add fuel mem price_mem malloc s.heap s.ca new_fd
      ok (record s { heap = heap; ca = ca; watched = watched })

-- The session is removed, and the connection closed; where that fails the server exits.
unfoldable pub drop_client : ℕ → Server → (fd : ℕ) → (removed : Bool) → Run Server
drop_client fuel s fd removed = do
  (there, heap, ca) ← Sessions.remove fuel s.heap s.ca (pos fd)
  let (r, watched) = fd_poll_del_and_close removed (pos fd) s.watched
  if eq_ℤ r (negsuc 0) then aborted else ok (record s { heap = heap; ca = ca; watched = watched })

module _ (mem : Allocator ℕ) (price_mem : Allocator AssetPrice) (fuel : ℕ) where
  -- The session is changed where it stands; the second result is what went out.
  unfoldable pub on_ready :
      Server → (fd : ℕ) → Inbox → List Answer → (removed : Bool) → Run (Server × List ℕ)
  on_ready s fd inbox answers removed = do
    (client_found, p) ← Sessions.find fuel s.heap s.ca (pos fd)
    assert client_found
    c ← some_or p
    n ← fetch s.heap c
    v ← serve mem price_mem fd inbox answers s.sdqu n.data_of
    let s' = record s {
      heap = write s.heap c (record n { data_of = v.client });
      ca = p;
      sdqu = v.sdqu;
    }
    if v.keep then ok (s', v.wire) else (do s'' ← drop_client fuel s' fd removed; ok (s'', v.wire))

  unfoldable pub handle_event : Addresses → Server → Event → Run (Server × List ℕ)
  handle_event malloc s (incoming conn_sock added) = do
    s' ← on_incoming mem price_mem malloc fuel s conn_sock added
    ok (s', [])
  handle_event malloc s (ready fd inbox answers removed) = on_ready s fd inbox answers removed

-- `queue_init(&sdqu, QUEUE_CAPACITY)` before the loop; nothing is connected.
unfoldable pub start : Allocator ℕ → Run Server
start mem = do
  qu ← Queue.init mem none 65536
  sdqu ← assert_some qu
  ok (record { heap = λ a. none; ca = none; sdqu = sdqu; watched = [] })

-- When `epoll_wait` runs into its timeout, before the server exits: the sessions are freed.
unfoldable pub on_timeout : ℕ → Server → Run (Heap Client)
on_timeout fuel s = elim s.ca [ none ↦ ok s.heap | some c ↦ Sessions.free_all fuel s.heap (some c) ]

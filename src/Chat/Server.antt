-- ===== src/Chat/Server.antt =====
-- The server of c/source/budget-chat/main.c: what its loop does for an event. The calls of the system
-- enter as what they deliver and return.
use network_exercises.Common.{ℕ, Bool, Option, some, List, if◌then◌else◌}
use network_exercises.Common.Int.{ℤ, pos, negsuc, leb_ℤ, eq_ℤ}
use network_exercises.Run.{Run, ok, aborted, ◌>>=◌, ◌>>◌, assert}
use network_exercises.Memory.{Allocator}
use network_exercises.Queue
use network_exercises.Queue.{Queue}
use network_exercises.Net.{Inbox, recv_request}
use network_exercises.Links.{Heap, some_or, fetch}
use network_exercises.Poll.{fd_poll_del_and_close, fd_accept_and_epoll_add}
use network_exercises.PrimeServer.{complete_req}
use network_exercises.Chat.{Client, Wires, Fresh, find, close, open_client}
use network_exercises.Chat.Request.{put, handle_request}

-- The variables that live across events, and what epoll watches.
pub record Server : Type 0 where
  pub heap : Heap Client
  pub c : Option ℕ
  pub watched : List ℤ

-- A connection that comes in. The client is opened with the descriptor that listens.
unfoldable pub on_incoming :
    Allocator ℕ
    → Server
    → (listen_fd conn_sock : ℤ) → (added : Bool) → Fresh
    → Wires
    → Run (Server × Wires)
on_incoming mem s listen_fd conn_sock added fresh w = do
  (_, watched) ← fd_accept_and_epoll_add conn_sock added s.watched
  (heap, c, w') ← open_client mem fresh s.heap listen_fd w
  ok (record { heap = heap; c = some c; watched = watched }, w')

-- `junk` is what local arrays held before they are written.
module _ (fuel junk : ℕ) where
  -- The connection of a client that stays in the list is closed.
  unfoldable pub disconnect : Server → (fd : ℕ) → (removed : Bool) → Wires → Run (Server × Wires)
  disconnect s fd removed w =
      let (r, watched) = fd_poll_del_and_close removed (pos fd) s.watched in
      let closed = close fuel junk s.heap s.c w in
      if eq_ℤ r (negsuc 0) then (do _ ← closed; aborted) else ok (record s { watched = watched }, w)

  -- What follows `client_handle_request`, with 0 for `rs` where it is not called.
  unfoldable pub finish :
      Server → (fd : ℕ) → (res rs : ℤ) → (removed : Bool) → Wires → Run (Server × Wires)
  finish s fd res rs removed w =
      if leb_ℤ rs (negsuc 0)
      then disconnect s fd removed w
      else if eq_ℤ res (negsuc 0)
      then ok (s, w)
      else (do
        (heap, c, w') ← close fuel junk s.heap s.c w
        let (r, watched) = fd_poll_del_and_close removed (pos fd) s.watched
        if eq_ℤ r (negsuc 0)
            then aborted
            else ok (record { heap = heap; c = c; watched = watched }, w'))

  module _ (isalnum : ℕ → Bool) (mem : Allocator ℕ) where
    -- What follows `recv_request`, for the client at `c`.
    unfoldable pub attend :
        Server → ℕ → Queue → (fd : ℕ) → (res : ℤ) → (removed : Bool) → Wires → Run (Server × Wires)
    attend s c recv_qu fd res removed w =
        let (data_at, size) = Queue.peek recv_qu in
        if leb_ℤ res (negsuc 1) then disconnect s fd removed w else (do
          complete ← complete_req data_at size
          (rs, heap, w') ←
              (if complete
                then handle_request isalnum mem fuel junk s.heap c w
                else ok (pos 0, s.heap, w))
          finish (record s { heap = heap }) fd res rs removed w')

    -- An event of a connection.
    unfoldable pub on_ready :
        Server → (fd : ℕ) → Inbox → (removed : Bool) → Wires → Run (Server × Wires)
    on_ready s fd inbox removed w = do
      (client_found, p) ← find fuel s.heap s.c (pos fd)
      assert client_found
      c ← some_or p
      n ← fetch s.heap c
      (res, recv_qu) ← recv_request mem fd inbox n.data_of.recv_qu
      heap ← put s.heap c (record n.data_of { recv_qu = recv_qu })
      attend (record s { heap = heap; c = p }) c recv_qu fd res removed w

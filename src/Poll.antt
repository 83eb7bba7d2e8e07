-- ===== src/Poll.antt =====
-- c/source/utils/epoll.c: what epoll watches, next to the listening socket, as a list. What `accept`
-- and `epoll_ctl` return are arguments.
use network_exercises.Common.{Bool, List, [], ◌∷◌, ◌++◌, if◌then◌else◌}
use network_exercises.Common.Int.{ℤ, pos, negsuc, eq_ℤ}
use network_exercises.Run.{Run, ok, aborted}

-- What is left when a descriptor is no longer watched.
unfoldable pub unwatch : ℤ → List ℤ → List ℤ
unwatch fd [] = []
unwatch fd (w ∷ watched) = let rest = unwatch fd watched in if eq_ℤ w fd then watched else w ∷ rest

-- `deleted` says whether `epoll_ctl` succeeds.
unfoldable pub fd_poll_del_and_close : (deleted : Bool) → ℤ → List ℤ → ℤ × List ℤ
fd_poll_del_and_close deleted fd watched =
    if deleted then (pos 0, unwatch fd watched) else (negsuc 0, watched)

-- `conn_sock` is what `accept` returns; `added` says whether `epoll_ctl` succeeds.
unfoldable pub fd_accept_and_epoll_add :
    (conn_sock : ℤ) → (added : Bool) → List ℤ → Run (ℤ × List ℤ)
fd_accept_and_epoll_add conn_sock added watched =
    if eq_ℤ conn_sock (negsuc 0)
    then aborted
    else if added
    then ok (conn_sock, watched ++ conn_sock ∷ [])
    else aborted

-- ===== src/Startup.antt =====
-- How the four servers start: `create_server` of c/source/utils/sockets.c, `init_logs` of
-- c/source/utils/utils.c, and what each `main` does before its loop, which is the same in all four up
-- to the log file's name. What the system returns is an argument, and so is the log library. The
-- arguments of `create_server` are never NULL.
pub mod Listen
pub mod Sample
mod Tests
use network_exercises.Common.{
  ℕ, Bool, true, false, not, Option, none, some, List, [], ◌∷◌, if◌then◌else◌,
}
use network_exercises.Common.Int.{ℤ, pos, negsuc, eq_ℤ}
use network_exercises.Run.{Run, ok, aborted, ◌>>=◌, ◌>>◌, assert_some}
use network_exercises.Links.{some_or}
use network_exercises.Poll.{unwatch}

-- An entry of the list that `getaddrinfo` returns, with what `socket` and `bind` return for it.
pub record Address : Type 0 where
  pub fd : ℤ
  pub bound : ℤ

-- The loop over `rp`, with the sockets that are open: the socket that is bound, none where `rp` runs
-- out.
unfoldable pub bind_first : List Address → List ℤ → Option ℤ × List ℤ
bind_first [] opened = (none, opened)
bind_first (rp ∷ rest) opened =
    let unopened = bind_first rest opened in
    let unbound = bind_first rest (unwatch rp.fd (rp.fd ∷ opened)) in
    if eq_ℤ rp.fd (negsuc 0)
    then unopened
    else if eq_ℤ rp.bound (pos 0)
    then (some rp.fd, rp.fd ∷ opened)
    else unbound

-- `s` is what `getaddrinfo` returns, and `listened` what `listen` does. The results are the returned
-- number, what is stored in `listen_fd`, and the sockets that are open.
unfoldable pub create_server :
    (s : ℤ) → List Address → (listened : ℤ) → List ℤ → ℤ × Option ℤ × List ℤ
create_server s result listened opened =
    if not (eq_ℤ s (pos 0))
    then (negsuc 0, none, opened)
    else let (found, left) = bind_first result opened in
      elim found [
        | none ↦ (negsuc 0, none, left)
        | some fd ↦
            if eq_ℤ listened (negsuc 0) then (negsuc 1, none, left) else (pos 0, some fd, left)
      ]

-- The log library, over its state.
pub record Log (L : Type 0) : Type 0 where
  pub add_fp : (fd : ℕ) → (level : ℤ) → L → ℤ × L
  pub set_level : ℤ → L → L
  pub set_quiet : Bool → L → L

-- What the system returns while a server starts: `fopen`, `getaddrinfo`, `socket` and `bind`,
-- `listen`, `epoll_create1`, and `epoll_ctl`.
pub record System : Type 0 where
  pub log_file : Option ℕ
  pub addresses : ℤ
  pub result : List Address
  pub listened : ℤ
  pub epollfd : ℤ
  pub added : ℤ

-- `exit(EXIT_FAILURE)` where a test fails.
abbrev pub exit_unless : Bool → Run (Unit {0})
exit_unless true = ok tt
exit_unless false = aborted

-- What is there when the loop begins.
pub record Started (L : Type 0) : Type 0 where
  pub logs : L
  pub listen_fd : ℤ
  pub opened : List ℤ

module _ {L : Type 0} (log : Log L) where
  unfoldable pub init_logs : (fd : ℕ) → (log_level : ℤ) → L → ℤ × L
  init_logs fd log_level logs =
      let (r, added) = log.add_fp fd log_level logs in
      if eq_ℤ r (negsuc 0)
      then (negsuc 1, added)
      else (pos 0, log.set_quiet true (log.set_level log_level added))

  -- `LOG_LEVEL` is 0.
  unfoldable pub set_up : System → L → Run (Started L)
  set_up sys logs = do
    log_fd ← assert_some sys.log_file
    let (r, logs') = init_logs log_fd (pos 0) logs
    exit_unless (eq_ℤ r (pos 0))
    let (s, at_fd, opened) = create_server sys.addresses sys.result sys.listened []
    exit_unless (eq_ℤ s (pos 0))
    listen_fd ← some_or at_fd
    exit_unless (not (eq_ℤ sys.epollfd (negsuc 0)))
    exit_unless (not (eq_ℤ sys.added (negsuc 0)))
    ok (record { logs = logs'; listen_fd = listen_fd; opened = opened })

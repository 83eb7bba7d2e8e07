-- ===== src/Startup/Listen.antt =====
-- Which socket a server of c/source listens on, and which sockets are left open.
use network_exercises.Common.{
  ℕ, ◌≡◌, refl, ap, ap₂, ◌∙◌, arith, Bool, true, not, inl, inr, ◌&&◌, Option, none, some, List, [],
  ◌∷◌, Bool-cases, if◌then◌else◌,
}
use network_exercises.Common.Int.{ℤ, pos, negsuc, eq_ℤ}
use network_exercises.Run.{Run, ok, aborted, assert_some, ◌>>=◌, ◌>>◌}
use network_exercises.Links.{some_or}
use network_exercises.Poll.{unwatch}
use network_exercises.Startup.{
  Address, bind_first, create_server, Log, System, Started, System, init_logs, set_up, exit_unless,
}

abbrev pub is_usable : Address → Bool
is_usable a = not (eq_ℤ a.fd (negsuc 0)) && eq_ℤ a.bound (pos 0)

-- The socket of the first address that gives one and that can be bound.
unfoldable pub first_usable : List Address → Option ℤ
first_usable [] = none
first_usable (a ∷ rest) = let later = first_usable rest in if is_usable a then some a.fd else later

-- The sockets that are open with one more, if there is one.
abbrev pub with_open : Option ℤ → List ℤ → List ℤ
with_open none opened = opened
with_open (some fd) opened = fd ∷ opened

pub unwatch-first : (fd : ℤ) (opened : List ℤ) → unwatch fd (fd ∷ opened) ≡ opened
unfolding unwatch
unwatch-first fd opened = let same : eq_ℤ fd fd ≡ true = ground arith in rw same refl

bind_first_lem :
    (result : List Address) (opened : List ℤ)
    → bind_first result opened ≡ (first_usable result, with_open (first_usable result) opened)
unfolding bind_first first_usable
bind_first_lem [] opened = refl
bind_first_lem (a ∷ rest) opened = elim (Bool-cases (eq_ℤ a.fd (negsuc 0))) [
  | inl missing ↦ rw missing (bind_first_lem rest opened)
  | inr there ↦ elim (Bool-cases (eq_ℤ a.bound (pos 0))) [
    | inl bound ↦ rw (there, bound) refl
    | inr unbound ↦ rw (there, unbound, unwatch-first a.fd opened) (bind_first_lem rest opened)
  ]
]

-- What a server that listens on `found` is told.
abbrev pub listening : Option ℤ → ℤ → List ℤ → ℤ × Option ℤ × List ℤ
listening none listened opened = (negsuc 0, none, opened)
listening (some fd) listened opened =
    if eq_ℤ listened (negsuc 0)
    then (negsuc 1, none, fd ∷ opened)
    else (pos 0, some fd, fd ∷ opened)

listening_lem :
    (found : Option ℤ) (listened : ℤ) (opened left : List ℤ)
    → left ≡ with_open found opened
    → (elim found [
      | none ↦ (negsuc 0, none, left)
      | some fd ↦
          if eq_ℤ listened (negsuc 0) then (negsuc 1, none, left) else (pos 0, some fd, left)
    ])
      ≡ listening found listened opened
listening_lem none listened opened left same = rw same refl
listening_lem (some fd) listened opened left same = rw same refl

-- `create_server` listens on the socket of the first address that gives one and can be bound, and
-- every other socket that it opened is closed. It returns -1 where no address was found or none can be
-- bound, with no socket left open, and -2 where `listen` fails, with that one socket left open.
pub create_server_lem :
    (s : ℤ) (result : List Address) (listened : ℤ) (opened : List ℤ)
    → create_server s result listened opened ≡ (
        if eq_ℤ s (pos 0)
        then listening (first_usable result) listened opened
        else (negsuc 0, none, opened))
unfolding create_server
create_server_lem s result listened opened = elim (Bool-cases (eq_ℤ s (pos 0))) [
  | inl found ↦
      rw (found, ap (λ r. r.0) (bind_first_lem result opened))
        (listening_lem (first_usable result) listened opened (bind_first result opened).1
          (ap (λ r. r.1) (bind_first_lem result opened)))
  | inr failed ↦ rw failed refl
]

module _ {L : Type 0} (log : Log L) (sys : System) (logs : L) where
  -- What the system has to return for a server to start, besides a log file and an address.
  abbrev pub can_start : (log_fd : ℕ) → Bool
  can_start log_fd =
      not (eq_ℤ (log.add_fp log_fd (pos 0) logs).0 (negsuc 0))
      && eq_ℤ sys.addresses (pos 0)
      && not (eq_ℤ sys.listened (negsuc 0))
      && not (eq_ℤ sys.epollfd (negsuc 0))
      && not (eq_ℤ sys.added (negsuc 0))

  -- What a server has when it has started.
  abbrev pub begun : (log_fd : ℕ) → (fd : ℤ) → Started L
  begun log_fd fd = record {
    logs = (init_logs log log_fd (pos 0) logs).1;
    listen_fd = fd;
    opened = fd ∷ [];
  }

  -- How a server starts: with its logs, and one socket, on which it listens.
  abbrev pub started_as : Option ℕ → Option ℤ → Run (Started L)
  started_as none found = aborted
  started_as (some log_fd) none = aborted
  started_as (some log_fd) (some fd) = if can_start log_fd then ok (begun log_fd fd) else aborted

  set_up_cases :
      (log_file : Option ℕ) (found : Option ℤ) (server : ℤ × Option ℤ × List ℤ)
      → server ≡ (
          if eq_ℤ sys.addresses (pos 0)
          then listening found sys.listened []
          else (negsuc 0, none, []))
      → (assert_some log_file >>= λ log_fd.
          exit_unless (eq_ℤ (init_logs log log_fd (pos 0) logs).0 (pos 0))
          >> (exit_unless (eq_ℤ server.0 (pos 0))
              >> (some_or server.1 >>= λ listen_fd.
                  exit_unless (not (eq_ℤ sys.epollfd (negsuc 0)))
                  >> (exit_unless (not (eq_ℤ sys.added (negsuc 0)))
                      >> ok (record {
                        logs = (init_logs log log_fd (pos 0) logs).1;
                        listen_fd = listen_fd;
                        opened = server.2;
                      })))))
        ≡ started_as log_file found
  unfolding init_logs
  set_up_cases none found server same = refl
  set_up_cases (some log_fd) none server same =
      elim (Bool-cases (eq_ℤ (log.add_fp log_fd (pos 0) logs).0 (negsuc 0))) [
        | inl failed ↦ rw failed refl
        | inr logged ↦ elim (Bool-cases (eq_ℤ sys.addresses (pos 0))) [
          | inl known ↦ rw (logged, same, known) refl
          | inr unknown ↦ rw (logged, same, unknown) refl
        ]
      ]
  set_up_cases (some log_fd) (some fd) server same =
      elim (Bool-cases (eq_ℤ (log.add_fp log_fd (pos 0) logs).0 (negsuc 0))) [
        | inl failed ↦ rw failed refl
        | inr logged ↦ elim (Bool-cases (eq_ℤ sys.addresses (pos 0))) [
          | inl known ↦ elim (Bool-cases (eq_ℤ sys.listened (negsuc 0))) [
            | inl deaf ↦ rw (logged, same, known, deaf) refl
            | inr heard ↦ elim (Bool-cases (eq_ℤ sys.epollfd (negsuc 0))) [
              | inl blind ↦ rw (logged, same, known, heard, blind) refl
              | inr polls ↦ elim (Bool-cases (eq_ℤ sys.added (negsuc 0))) [
                | inl refused ↦ rw (logged, same, known, heard, polls, refused) refl
                | inr added ↦ rw (logged, same, known, heard, polls, added) refl
              ]
            ]
          ]
          | inr unknown ↦ rw (logged, same, unknown) refl
        ]
      ]

  -- A server starts exactly when the log file opens and is added to the log, some address gives a
  -- socket that can be bound, and every other call of the system succeeds. It listens on the first
  -- such socket, the only one that is open; otherwise it exits.
  pub set_up_lem : set_up log sys logs ≡ started_as sys.log_file (first_usable sys.result)
  unfolding set_up init_logs
  set_up_lem =
      set_up_cases sys.log_file (first_usable sys.result)
        (create_server sys.addresses sys.result sys.listened [])
        (create_server_lem sys.addresses sys.result sys.listened [])

  -- A log file opens, an address can be bound, and all else succeeds.
  abbrev pub CanStart : (log_fd : ℕ) → (fd : ℤ) → Type 0
  CanStart log_fd fd =
      (sys.log_file ≡ some log_fd) × (first_usable sys.result ≡ some fd) × (can_start log_fd ≡ true)

  pub set_up-CanStart :
      (log_fd : ℕ) (fd : ℤ) → CanStart log_fd fd → set_up log sys logs ≡ ok (begun log_fd fd)
  set_up-CanStart log_fd fd (file, usable, rest) = set_up_lem ∙ ap₂ started_as file usable ∙ taken
    where
      taken : started_as (some log_fd) (some fd) ≡ ok (begun log_fd fd)
      taken = rw rest refl

-- ===== src/Startup/Sample.antt =====
-- A system on which a server starts: of three addresses the first is taken, and the second gives no
-- socket.
use network_exercises.Common.{ℕ, some, List, [], ◌∷◌}
use network_exercises.Common.Int.{pos, negsuc}
use network_exercises.Startup.{Address, Log, System}

abbrev pub addresses : List Address
addresses =
    (record { fd = pos 3; bound = negsuc 0 })
    ∷ (record { fd = negsuc 0; bound = pos 0 })
    ∷ (record { fd = pos 3; bound = pos 0 })
    ∷ []

-- A log that keeps its files.
abbrev pub log : Log (List ℕ)
log = record {
  add_fp = λ fd level files. (pos 0, fd ∷ files);
  set_level = λ level files. files;
  set_quiet = λ quiet files. files;
}

abbrev pub system : System
system = record {
  log_file = some 7;
  addresses = pos 0;
  result = addresses;
  listened = pos 0;
  epollfd = pos 4;
  added = pos 0;
}

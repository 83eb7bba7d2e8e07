-- ===== src/Startup/Tests.antt =====
-- The start of a server on the sample system.
use network_exercises.Common.{◌≡◌, refl, none, some, [], if◌then◌else◌}
use network_exercises.Common.Int.{pos, negsuc, eq_ℤ}
use network_exercises.Startup.{create_server}
use network_exercises.Startup.Sample.{addresses}
use network_exercises.Startup.Listen.{first_usable, listening, create_server_lem}

create_server_example : create_server (pos 0) addresses (pos 0) [] ≡ (
    if eq_ℤ (pos 0) (pos 0)
    then listening (first_usable addresses) (pos 0) []
    else (negsuc 0, none, []))
create_server_example = create_server_lem (pos 0) addresses (pos 0) []

-- The first usable address is the third.
listens_on_third : first_usable addresses ≡ some (pos 3)
unfolding first_usable
listens_on_third = refl

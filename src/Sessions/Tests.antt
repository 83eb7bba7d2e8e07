-- ===== src/Sessions/Tests.antt =====
-- Three sessions on a heap, and the theorems at them.
use network_exercises.Common.{
  ℕ, ◌≡◌, refl, sym, ap, arith, Option, none, some, [], ◌∷◌, ◌==◌, if◌then◌else◌,
}
use network_exercises.Common.Int.{pos}
use network_exercises.Run.{ok, Returns}
use network_exercises.Memory.Growing.{growing, growing-Serves}
use network_exercises.Prices.{AssetPrice}
use network_exercises.Links.{Heap}
use network_exercises.Links.Linked.{node, onto, addr}
use mathlib.Core.Option.{none-ne-some}
use network_exercises.Links.Append.{At}
use network_exercises.Sessions.{Client, find, remove, free_all, add}
use network_exercises.Sessions.Find.{Sessions, answer, find-answers}
use network_exercises.Sessions.Change.{Removed, AllFreed, Spared, remove-Removed, free_all-AllFreed}
use network_exercises.Sessions.Add.{Added, add-Added}

abbrev client : ℕ → Client
client id = record {
  client_id = pos id;
  asset = record { cells = []; size = 0; capacity = 0 };
  recv_qu = record { buf = []; capacity = 0; size = 0; free_capacity = 0; head = 0 };
}

-- The sessions 7, 8 and 9 at the addresses 10, 30 and 20.
abbrev heap : Heap Client
heap a =
    if a == 10
    then some (node (client 7) (some 30) none)
    else if a == 30
    then some (node (client 8) (some 20) (some 10))
    else if a == 20
    then some (node (client 9) none (some 30))
    else none

abbrev sessions : Sessions
sessions = (10, client 7) ∷ (30, client 8) ∷ (20, client 9) ∷ []

middle : At heap (some 30) sessions
middle = record {
  rs = (10, client 7) ∷ [];
  zs = (30, client 8) ∷ (20, client 9) ∷ [];
  linked = record {
    behind = (refl, tt);
    forth = (refl, (refl, tt));
    apart_behind = (tt, tt);
    apart_ahead = ((omega arith, tt), (tt, tt));
    disjoint = ((omega arith, (omega arith, tt)), tt);
  };
  whole = unfold onto in refl;
  place = refl;
  inside = λ e. absurd (none-ne-some _ (sym (ap addr e)));
}

find-answers_example :
    (find 4 heap (some 30) (pos 9) ≡ ok (answer (pos 9) sessions))
    × At heap (answer (pos 9) sessions).1 sessions
find-answers_example = find-answers 4 heap (some 30) sessions (pos 9) refl middle (omega arith)

remove-Removed_example : Returns (Removed (pos 8) sessions) (remove 4 heap (some 30) (pos 8))
remove-Removed_example = remove-Removed 4 heap 30 sessions (pos 8) refl middle (omega arith)

free_all-AllFreed_example :
    Returns (λ h. AllFreed h sessions × Spared heap h sessions) (free_all 4 heap (some 30))
free_all-AllFreed_example = free_all-AllFreed 4 heap 30 sessions middle (omega arith)

abbrev sample : AssetPrice
sample = record { timestamp = pos 0; price = pos 0 }

abbrev malloc : Heap Client → Option ℕ
malloc h = some 40

add-Added_example :
    Returns
      (Added (pos 5) heap sessions)
      (add 4 (growing 0) (growing sample) malloc heap (some 30) (pos 5))
add-Added_example =
    add-Added (growing-Serves 0) (growing-Serves sample) malloc 4 heap (some 30) sessions (pos 5)
      refl (40, refl, refl) middle (omega arith)

-- ===== src/Chat/Tests/Leaving.antt =====
-- A client that leaves, and one that is refused.
use network_exercises.Common.{
  length, refl, sym, ap, arith, none, some, [], ◌∷◌, ◌++◌, ◌==◌, replicate, if◌then◌else◌,
}
use network_exercises.Common.Int.{pos}
use network_exercises.Common.Text.{codes}
use network_exercises.Run.{Returns}
use network_exercises.Memory.Growing.{growing}
use network_exercises.Net.{took}
use network_exercises.Links.{Heap}
use network_exercises.Links.Linked.{node, onto, addr, IsLinked}
use network_exercises.Links.Append.{At}
use mathlib.Core.Option.{none-ne-some}
use network_exercises.Chat.{Client, close}
use network_exercises.Chat.Request.{handle_newclient}
use network_exercises.Chat.Broadcast.{Clients, all_taken, wires, other, others, copies}
use network_exercises.Chat.Leave.{Left, farewell, close-Left}
use network_exercises.Chat.Refuse.{response, Refused, handle_newclient-Refused}
use network_exercises.Chat.Username.{verdict}
use network_exercises.Chat.Names.{alnum, taken, same_text}
use network_exercises.Chat.Tests.{waiting, client, bob, unnamed, letter}

-- Two clients with names, of whom the second leaves.
abbrev amy : Client
amy = client 9 (codes "amy")

abbrev named_heap : Heap Client
named_heap a =
    if a == 10
    then some (node bob (some 20) none)
    else if a == 20
    then some (node amy none (some 10))
    else none

amy-IsLinked : IsLinked named_heap ((10, bob) ∷ []) ((20, amy) ∷ [])
amy-IsLinked = record {
  behind = (refl, tt);
  forth = (refl, tt);
  apart_behind = (tt, tt);
  apart_ahead = (tt, tt);
  disjoint = ((omega arith, tt), tt);
}

close-Left_example :
    Returns
      (Left 20 (onto ((10, bob) ∷ []) []) (
        wires [] (
          []
          ++ copies (others amy.id ((10, bob) ∷ (20, amy) ∷ [])) (pos 7, farewell (codes "amy")))))
      (close 3 0 named_heap (some 20) (
        wires
          (all_taken
            (others amy.id ((10, bob) ∷ (20, amy) ∷ []))
            (length (farewell (codes "amy")))
            [])
          []))
unfolding onto
close-Left_example =
    close-Left 3 0 named_heap ((10, bob) ∷ []) [] 20 10 amy bob ((20, amy) ∷ []) (codes "amy")
      (replicate 29 0) [] [] amy-IsLinked refl (omega arith, (omega arith, tt)) (omega arith)
      (omega arith) refl (omega arith, (omega arith, (omega arith, tt))) (omega arith)

-- A client that asks for a taken name.
abbrev copycat : Client
copycat = record unnamed { recv_qu = waiting (codes "bob" ++ 10 ∷ []) }

abbrev copycat_heap : Heap Client
copycat_heap a =
    if a == 10
    then some (node bob (some 20) none)
    else if a == 20
    then some (node copycat none (some 10))
    else none

abbrev with_copycat : Clients
with_copycat = (10, bob) ∷ (20, copycat) ∷ []

copycat_place : At copycat_heap (some 20) with_copycat
copycat_place = record {
  rs = (10, bob) ∷ [];
  zs = (20, copycat) ∷ [];
  linked = record {
    behind = (refl, tt);
    forth = (refl, tt);
    apart_behind = (tt, tt);
    apart_ahead = (tt, tt);
    disjoint = ((omega arith, tt), tt);
  };
  whole = unfold onto in refl;
  place = refl;
  inside = λ e. absurd (none-ne-some _ (sym (ap addr e)));
}

handle_newclient-Refused_example :
    let v = verdict letter (pos 8) (codes "bob") with_copycat in
    Returns
      (Refused letter
        (growing 0)
        4
        0
        copycat_heap
        20
        (node copycat none (some 10))
        (wires [] ([] ++ (pos 8, response v) ∷ [])))
      (handle_newclient letter
        (growing 0)
        4
        0
        copycat_heap
        20
        (wires ((took (length (response v)) ∷ []) ∷ []) []))
unfolding verdict alnum taken other same_text
handle_newclient-Refused_example =
    handle_newclient-Refused letter (growing 0) 4 0 copycat_heap 20 10 (node copycat none (some 10))
      with_copycat (codes "bob") 10 [] [] copycat_place refl refl (omega arith, (omega arith, tt))
      (omega arith) refl (omega arith)
      (record {
        filled = refl;
        small = omega arith;
        at_end = refl;
        room = omega arith;
        rest = refl;
      })
      (omega arith) refl (λ _. omega arith) (λ e. cc)

-- ===== src/Chat/Tests.antt =====
-- Two clients on a heap, and the theorems at them.
mod Leaving
use network_exercises.Common.{
  ℕ, true, length, ◌≡◌, refl, sym, ap, arith, Bool, none, some, List, [], ◌∷◌, ◌++◌, ◌==◌, ltb,
  ◌&&◌, replicate, if◌then◌else◌,
}
use network_exercises.Common.Int.{pos}
use network_exercises.Common.Text.{codes}
use network_exercises.Run.{ok, undefined, Returns}
use network_exercises.Memory.Growing.{growing, growing-Serves}
use network_exercises.Queue.{Queue}
use network_exercises.Queue.Valid.{IsValid, contents}
use network_exercises.Net.{took}
use network_exercises.Links.{Heap}
use network_exercises.Links.Linked.{node, onto, addr, IsLinked}
use network_exercises.Links.Append.{At}
use mathlib.Core.Option.{none-ne-some}
use network_exercises.Chat.{
  Client, close, Fresh, open_client, broadcast_message_from, client_members,
}
use network_exercises.Chat.Message.{drained, composed, handle_request-composed}
use network_exercises.Chat.Request.{
  handle_newclient, handle_request, validate_username, collect_names,
}
use network_exercises.Chat.Broadcast.{
  Clients, all_taken, wires, other, others, copies, broadcast_message_from-copies,
}
use network_exercises.Chat.Leave.{Left, farewell, close-Left}
use network_exercises.Chat.Refuse.{response, Refused, handle_newclient-Refused}
use network_exercises.Startup.Listen.{first_usable}
use network_exercises.Startup.Sample.{log, system}
use network_exercises.Rounds.{got, timed_out}
use network_exercises.Chat.Main.{incoming, main}
use network_exercises.Chat.First.{main-undefined}
use network_exercises.Chat.Username.{verdict, Validated, validate_username-verdict}
use network_exercises.Chat.Room.{listed, collect_names-listed, open_client-undefined}

abbrev waiting : List ℕ → Queue
waiting bytes = record {
  buf = bytes ++ replicate 60 0;
  capacity = 64;
  size = 4;
  free_capacity = 60;
  head = 4;
}

abbrev client : ℕ → List ℕ → Client
client id name = record {
  id = pos id;
  name = name ++ replicate 30 0;
  name_size = 3;
  recv_qu = waiting (codes "amy" ++ 10 ∷ []);
}

abbrev bob : Client
bob = client 7 (codes "bob")

abbrev unnamed : Client
unnamed = client 8 (0 ∷ 0 ∷ 0 ∷ [])

abbrev heap : Heap Client
heap a =
    if a == 10
    then some (node bob (some 20) none)
    else if a == 20
    then some (node unnamed none (some 10))
    else none

abbrev clients : Clients
clients = (10, bob) ∷ (20, unnamed) ∷ []

second : At heap (some 20) clients
second = record {
  rs = (10, bob) ∷ [];
  zs = (20, unnamed) ∷ [];
  linked = record {
    behind = (refl, tt);
    forth = (refl, tt);
    apart_behind = (tt, tt);
    apart_ahead = (tt, tt);
    disjoint = ((omega arith, tt), tt);
  };
  whole = unfold onto in refl;
  place = refl;
  inside = λ e. absurd (none-ne-some _ (sym (ap addr e)));
}

unnamed-IsValid : IsValid unnamed.recv_qu
unnamed-IsValid = record {
  filled = refl;
  small = omega arith;
  at_end = refl;
  room = omega arith;
  rest = refl;
}

abbrev letter : ℕ → Bool
letter c = ltb 96 c && ltb c 123

validate_username-verdict_example :
    Returns (Validated letter unnamed clients (codes "amy")) (validate_username letter 4 heap 20)
validate_username-verdict_example =
    validate_username-verdict 4 heap 20 10 (node unnamed none (some 10)) clients second refl refl
      (omega arith, (omega arith, tt)) (omega arith) letter (codes "amy") 10 refl unnamed-IsValid
      (omega arith) refl (λ _. omega arith)

abbrev hello : List ℕ
hello = codes "hello" ++ 0 ∷ 0 ∷ []

broadcast_message_from-copies_example :
    broadcast_message_from 4 heap 20 hello 5 (wires (all_taken (others (pos 8) clients) 5 []) [])
    ≡ ok (wires [] ([] ++ copies (others (pos 8) clients) (pos 7, codes "hello")))
broadcast_message_from-copies_example =
    broadcast_message_from-copies 4 heap 20 10 (node unnamed none (some 10)) bob
      ((20, unnamed) ∷ []) hello 5 [] [] second refl (omega arith, (omega arith, tt)) (omega arith)
      (omega arith) (omega arith) (omega arith) (omega arith)

collect_names-listed_example :
    Returns
      (λ qu.
        IsValid qu
        × (contents qu ≡ contents unnamed.recv_qu ++ (client_members ++ listed unnamed.id clients)))
      (collect_names (growing 0) 4 heap 20)
collect_names-listed_example =
    collect_names-listed (growing-Serves 0) 4 heap 20 10 (node unnamed none (some 10)) clients
      second refl refl (omega arith, (omega arith, tt)) (omega arith, (omega arith, tt))
      (omega arith) unnamed-IsValid (unfold listed other in omega arith)

-- Both clients have a name, and a message waits for the second.
abbrev talker : Queue → Client
talker qu = record { id = pos 8; name = codes "amy" ++ replicate 30 0; name_size = 3; recv_qu = qu }

abbrev talkers : Queue → Heap Client
talkers qu a =
    if a == 10
    then some (node bob (some 20) none)
    else if a == 20
    then some (node (talker qu) none (some 10))
    else none

abbrev both : Queue → Clients
both qu = (10, bob) ∷ (20, talker qu) ∷ []

second_talker : (qu : Queue) → At (talkers qu) (some 20) (both qu)
second_talker qu = record {
  rs = (10, bob) ∷ [];
  zs = (20, talker qu) ∷ [];
  linked = record {
    behind = (refl, tt);
    forth = (refl, tt);
    apart_behind = (tt, tt);
    apart_ahead = (tt, tt);
    disjoint = ((omega arith, tt), tt);
  };
  whole = unfold onto in refl;
  place = refl;
  inside = λ e. absurd (none-ne-some _ (sym (ap addr e)));
}

abbrev said : Queue
said = waiting (codes "hey" ++ 10 ∷ [])

handle_request-composed_example :
    handle_request letter
      (growing 0)
      4
      0
      (talkers said)
      20
      (wires (all_taken (others (pos 8) (both said)) 10 []) [])
    ≡ ok (
      pos 1,
      drained (talkers said) 20 (node (talker said) none (some 10)),
      wires [] (
          []
          ++ copies
              (others (pos 8) (both said))
              (pos 7, composed (codes "amy") (codes "hey" ++ 10 ∷ []))),
    )
handle_request-composed_example =
    handle_request-composed letter (growing 0) 4 0 (talkers said) 20 10
      (node (talker said) none (some 10)) bob ((20, talker said) ∷ []) (codes "amy")
      (replicate 29 0) (codes "hey" ++ 10 ∷ []) (replicate 59 0) [] [] (second_talker said) refl
      (omega arith, (omega arith, tt)) (omega arith) (omega arith) refl (omega arith) (omega arith)
      refl refl (omega arith) (omega arith) (omega arith) (omega arith)

abbrev silent : Queue
silent = record { buf = replicate 64 10; capacity = 64; size = 1; free_capacity = 63; head = 1 }

abbrev fresh : Fresh
fresh = record { address = some 30; name = replicate 33 1; name_size = 0 }

main-undefined_example :
    main log 3 0 letter
      (growing 0)
      system
      []
      (got (incoming (pos 5) true fresh []) [] ∷ timed_out ∷ [])
    ≡ undefined
unfolding first_usable
main-undefined_example =
    main-undefined log system [] 7 (pos 3) 3 0 letter 5 30 fresh [] [] (timed_out ∷ [])
      (growing-Serves 0) (refl, refl, refl) (omega arith) refl (omega arith)

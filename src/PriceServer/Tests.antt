-- ===== src/PriceServer/Tests.antt =====
-- A server with two clients, one of which completes a request.
mod Runs
mod Ready
mod Main
use network_exercises.Common.{
  ℕ, refl, sym, ap, arith, true, Option, none, some, List, [], ◌∷◌, ◌==◌, replicate, length, take,
  ◌++◌, ◌+◌, ◌*◌, if◌then◌else◌, ◌≡◌,
}
use network_exercises.Common.Int.{pos}
use network_exercises.Run.{Returns}
use network_exercises.Memory.Growing.{growing, growing-Serves}
use network_exercises.Queue.{init}
use network_exercises.Prices.{AssetPrice}
use network_exercises.Prices.Store.{samples}
use network_exercises.Messages.Meaning.{replies}
use network_exercises.Messages.Decode.{decode}
use network_exercises.Messages.Wire.{encode_all, All, IsMessage}
use network_exercises.Net.{Inbox, End, took, incoming}
use network_exercises.Links.{Heap}
use network_exercises.Links.Linked.{node, onto, addr}
use network_exercises.Links.Append.{lookup}
use network_exercises.Sessions.{Client}
use network_exercises.Sessions.Find.{Sessions}
use network_exercises.PriceServer.{Server, Served, on_ready, on_incoming, handle_event, start}
use network_exercises.PriceServer.Serve.{ServedFor, taken, arrived, is_open}
use network_exercises.PriceServer.Table.{watches}
use network_exercises.Net.Receive.{joined}
use network_exercises.PriceServer.Step.{IsServer, after}
use network_exercises.Net.Reply.{SentAll}
use network_exercises.PriceServer.Accept.{Accepted, on_incoming-IsServer}
use network_exercises.PriceServer.Replies.{on_ready-replies}
use network_exercises.PriceServer.Loop.{
  Reach, started, received, handle_event-Reach, Reach-IsSound, IsSound,
}
use mathlib.Core.Option.{none-ne-some}

abbrev blank : AssetPrice
blank = record { timestamp = pos 0; price = pos 0 }

-- Four bytes of a request wait.
abbrev first_client : Client
first_client = record {
  client_id = pos 7;
  asset = record { cells = replicate 4 blank; size = 0; capacity = 4 };
  recv_qu = record {
    buf = b'I' ∷ 0 ∷ 0 ∷ 48 ∷ 0 ∷ 0 ∷ 0 ∷ 0 ∷ [];
    capacity = 8;
    size = 4;
    free_capacity = 4;
    head = 4;
  };
}

abbrev second_client : Client
second_client = record first_client { client_id = pos 9 }

abbrev heap : Heap Client
heap a =
    if a == 10
    then some (node first_client (some 20) none)
    else if a == 20
    then some (node second_client none (some 10))
    else none

abbrev sessions : Sessions
sessions = (10, first_client) ∷ (20, second_client) ∷ []

abbrev server : Server
server = record {
  heap = heap;
  ca = some 20;
  sdqu = record { buf = replicate 8 0; capacity = 8; size = 0; free_capacity = 8; head = 0 };
  watched = pos 7 ∷ pos 9 ∷ [];
}

server-IsServer : IsServer 4 server sessions
unfolding onto watches
server-IsServer = record {
  place = record {
    rs = (10, first_client) ∷ [];
    zs = (20, second_client) ∷ [];
    linked = record {
      behind = (refl, tt);
      forth = (refl, tt);
      apart_behind = (tt, tt);
      apart_ahead = (tt, tt);
      disjoint = ((omega arith, tt), tt);
    };
    whole = refl;
    place = refl;
    inside = λ e. absurd (none-ne-some _ (sym (ap addr e)));
  };
  sessions = omega arith;
  loads = omega arith;
  idle = omega arith;
  known = refl;
  once = (refl, (refl, tt));
}

-- The rest of the insertion, and a query.
abbrev inbox : Inbox
inbox = record {
  chunks = (57 ∷ 0 ∷ 0 ∷ 0 ∷ 101 ∷ b'Q' ∷ []) ∷ (0 ∷ 0 ∷ 48 ∷ 0 ∷ 0 ∷ 0 ∷ 64 ∷ 0 ∷ []) ∷ [];
  end = End.would_block;
}

abbrev sent : List ℕ
sent = replies (samples first_client.asset) (taken inbox.end (arrived first_client inbox))

on_ready-replies_example :
    Returns
      (λ (s', wire).
        (wire ≡ sent)
        × ((v : Served) × ServedFor first_client inbox (SentAll sent) v
            × (v.keep ≡ is_open inbox.end)
            × IsServer 18 s' (after 7 v sessions)))
      (on_ready (growing 0) (growing blank) 3 server 7 inbox (took (length sent) ∷ []) true)
unfolding lookup joined
on_ready-replies_example =
    on_ready-replies (growing-Serves 0) (growing-Serves blank) 3 4 server sessions first_client 7
      inbox server-IsServer (omega arith) refl (omega arith) (omega arith) (omega arith)
      (omega arith)

abbrev malloc : Heap Client → Option ℕ
malloc h = some 40

on_incoming-IsServer_example :
    Returns
      (Accepted (pos 8) 4 server sessions)
      (on_incoming (growing 0) (growing blank) malloc 3 server (pos 8) true)
unfolding watches
on_incoming-IsServer_example =
    on_incoming-IsServer (growing-Serves 0) (growing-Serves blank) malloc 3 4 server sessions
      (pos 8) server-IsServer refl refl (40, refl, refl) (omega arith)

abbrev first_server : Server
first_server = record {
  heap = λ a. none;
  ca = none;
  sdqu = record {
    buf = take 65536 ([] ++ replicate 65536 0);
    capacity = 65536;
    size = 0;
    free_capacity = 65536;
    head = 0;
  };
  watched = [];
}

-- ===== src/PriceServer/Tests/Runs.antt =====
-- A run of the server of c/source/means-to-an-end/main.c: a client comes in, stores a price and asks
-- for it.
use network_exercises.Common.{
  ℕ, ◌≡◌, refl, sym, ap, ap₂, ◌∙◌, arith, true, some, List, [], ◌∷◌, ◌++◌, length,
}
use network_exercises.Common.Int.{pos}
use network_exercises.Run.{ok, Returns-bind, Returns-result, Returns-at}
use network_exercises.Memory.Growing.{growing, growing-Serves}
use network_exercises.Queue.{init}
use network_exercises.Prices.Store.{samples}
use network_exercises.Messages.Meaning.{replies, reply, answer, store_all}
use network_exercises.Messages.{bytes32}
use network_exercises.Messages.Decode.{decode}
use network_exercises.Net.{Inbox, End, Event, incoming, ready, took}
use network_exercises.Net.Receive.{joined}
use network_exercises.Net.Streams.{History, outputs, stream, gave_up}
use network_exercises.Links.Append.{At, lookup}
use network_exercises.Links.Places.{At-unique}
use network_exercises.Sessions.{Client}
use network_exercises.Sessions.Find.{Sessions, id_of}
use network_exercises.PriceServer.{Server, handle_event, start}
use network_exercises.PriceServer.Serve.{taken, arrived}
use network_exercises.PriceServer.Table.{watches}
use network_exercises.PriceServer.Accept.{Accepted, on_incoming-IsServer}
use network_exercises.PriceServer.Step.{IsServer}
use network_exercises.PriceServer.Loop.{AdmitsWhere, start-IsServer}
use network_exercises.PriceServer.Tests.{blank, malloc, first_server}
use network_exercises.PriceServer.Isolation.{
  TakesAll, Ran, started, next, Informed, handle_event-Informed, Ran-Informed, Ran-replies,
}

abbrev pub comes : Event
comes = incoming (pos 5) true

-- An insertion and a query, in two pieces.
abbrev pub inbox : Inbox
inbox = record {
  chunks =
      (b'I' ∷ 0 ∷ 0 ∷ 0 ∷ 48 ∷ 0 ∷ 0 ∷ [])
      ∷ (0 ∷ 101 ∷ b'Q' ∷ 0 ∷ 0 ∷ 0 ∷ 0 ∷ 0 ∷ 0 ∷ 0 ∷ 64 ∷ [])
      ∷ [];
  end = End.would_block;
}

abbrev pub asks : Event
asks = ready 5 inbox (took 4 ∷ []) true

first_server-Ran : Ran (growing 0) (growing blank) malloc 3 [] 0 first_server
unfolding start init
first_server-Ran = started refl

pub start_sound : IsServer 0 first_server []
unfolding start init
start_sound = start-IsServer (growing-Serves 0)

-- The state after the client has come in.
pub after_comes :
    (s : Server) (wire : List ℕ)
    → handle_event (growing 0) (growing blank) 3 malloc first_server comes ≡ ok (s, wire)
    → Informed ((comes, wire) ∷ []) 0 s
unfolding watches
after_comes s wire ran =
    Returns-at (λ (t, out). Informed ((comes, out) ∷ []) 0 t) _ (s, wire) ran
      (handle_event-Informed (growing-Serves 0) (growing-Serves blank) malloc 3 [] 0 first_server
        comes (Ran-Informed (growing-Serves 0) (growing-Serves blank) malloc 3 first_server-Ran)
        (refl, refl, refl, (40, refl, refl), omega arith))

pub watched_after :
    (s : Server) (wire : List ℕ)
    → handle_event (growing 0) (growing blank) 3 malloc first_server comes ≡ ok (s, wire)
    → s.watched ≡ pos 5 ∷ []
unfolding handle_event watches
watched_after s wire ran =
    Returns-at (λ (t, out). t.watched ≡ pos 5 ∷ []) _ (s, wire) ran
      (Returns-bind (Accepted (pos 5) 0 first_server []) _ _ _
        (on_incoming-IsServer (growing-Serves 0) (growing-Serves blank) malloc 3 0 first_server []
          (pos 5) start_sound refl refl (40, refl, refl) (omega arith))
        (λ t (a, c, is_new, w, same). same))

both_nothing : (xs ys : List ℕ) → [] ≡ xs ++ ys → (xs ≡ []) × (ys ≡ [])
both_nothing [] ys e = (refl, sym e)
both_nothing (x ∷ xs) ys e = absurd (omega (arith, ap length e))

four_bytes : length (replies [] (taken End.would_block ([] ++ joined inbox.chunks))) ≡ 4
unfolding joined replies decode reply answer bytes32
four_bytes = refl

-- The session of the client has nothing yet, so its query is answered by four bytes.
pub answered_by :
    (s : Server) (wire : List ℕ)
    → Informed ((comes, wire) ∷ []) 0 s
    → (xs : Sessions) (c : Client) → At s.heap s.ca xs
    → lookup id_of (pos 5) xs ≡ some c
    → length (replies (samples c.asset) (taken inbox.end (arrived c inbox))) ≡ 4
unfolding stream decode store_all
answered_by s wire (ys, w, k) xs c place known =
    let same = At-unique s.heap s.ca ys xs w.place place in
    let (t, stored, waits) = k.follows (pos 5) c (ap (lookup id_of (pos 5)) same ∙ known) in
    let (handled, pending) = both_nothing t.handled t.pending t.whole in
    let no_samples : samples c.asset ≡ [] = stored ∙ ap (λ l. store_all [] (decode l)) handled in
    ap₂ (λ l b. length (replies l (taken End.would_block (b ++ joined inbox.chunks)))) no_samples
      (waits ∙ pending)
    ∙ four_bytes

-- What the client coming in leads to.
first_result :
    (r : Server × List ℕ) × (handle_event (growing 0) (growing blank) 3 malloc first_server comes
      ≡ ok r)
    × Informed ((comes, r.1) ∷ []) 0 r.0
unfolding watches
first_result = Returns-result _ _ (
    handle_event-Informed (growing-Serves 0) (growing-Serves blank) malloc 3 [] 0 first_server comes
      (Ran-Informed (growing-Serves 0) (growing-Serves blank) malloc 3 first_server-Ran)
      (refl, refl, refl, (40, refl, refl), omega arith))

abbrev first_history : History
first_history = (comes, first_result.0.1) ∷ []

second-Ran : Ran (growing 0) (growing blank) malloc 3 first_history 0 first_result.0.0
unfolding watches
second-Ran =
    next comes first_result.0.1 first_server-Ran (refl, refl, refl, (40, refl, refl), omega arith)
      first_result.1 refl

asks_admitted : AdmitsWhere TakesAll malloc 3 0 first_result.0.0 asks
unfolding watches joined
asks_admitted =
    let watched = watched_after first_result.0.0 first_result.0.1 first_result.1 in
    (
      refl,
      omega arith,
      ap (watches (pos 5)) watched,
      omega (arith, ap length watched),
      omega arith,
      omega arith,
      omega arith,
      λ xs c place known.
          ap (λ n. took n ∷ [])
            (sym (answered_by first_result.0.0 first_result.0.1 first_result.2 xs c place known)),
    )

second_result :
    (r : Server × List ℕ) × (handle_event (growing 0) (growing blank) 3 malloc first_result.0.0 asks
      ≡ ok r)
    × Informed ((asks, r.1) ∷ first_history) 18 r.0
unfolding joined
second_result = Returns-result _ _ (
    handle_event-Informed (growing-Serves 0) (growing-Serves blank) malloc 3 first_history 0
      first_result.0.0 asks
      (Ran-Informed (growing-Serves 0) (growing-Serves blank) malloc 3 second-Ran) asks_admitted)

abbrev history : History
history = (asks, second_result.0.1) ∷ first_history

third-Ran : Ran (growing 0) (growing blank) malloc 3 history 18 second_result.0.0
third-Ran = next asks second_result.0.1 second-Ran asks_admitted second_result.1 refl

Ran-replies_example : outputs (pos 5) history ≡ replies [] (decode (stream (pos 5) history))
unfolding gave_up stream joined
Ran-replies_example =
    Ran-replies (growing-Serves 0) (growing-Serves blank) malloc 3 (pos 5) third-Ran refl refl

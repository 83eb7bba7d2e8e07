-- ===== src/Net/Streams.antt =====
-- What a connection has sent and been sent, over the events of all connections of a server.
use network_exercises.Common.{ℕ, Bool, true, false, ◌||◌, List, [], ◌∷◌, ◌++◌, if◌then◌else◌}
use network_exercises.Common.Int.{ℤ, pos, eq_ℤ}
use network_exercises.Net.Receive.{joined}
use network_exercises.Net.{End, Event, incoming, ready}

-- The events so far with what went out for each, the latest first.
abbrev pub History : Type 0
History = List (Event × List ℕ)

abbrev pub is_failed : End → Bool
is_failed End.failed = true
is_failed _ = false

-- The bytes that the connection has delivered since it came in.
unfoldable pub stream : ℤ → History → List ℕ
stream id [] = []
stream id ((incoming conn added, wire) ∷ h) =
    let before = stream id h in if eq_ℤ conn id then [] else before
stream id ((ready fd inbox answers removed, wire) ∷ h) =
    let before = stream id h in if eq_ℤ (pos fd) id then before ++ joined inbox.chunks else before

-- The bytes that have been sent to it since it came in.
unfoldable pub outputs : ℤ → History → List ℕ
outputs id [] = []
outputs id ((incoming conn added, wire) ∷ h) =
    let before = outputs id h in if eq_ℤ conn id then [] else before
outputs id ((ready fd inbox answers removed, wire) ∷ h) =
    let before = outputs id h in if eq_ℤ (pos fd) id then before ++ wire else before

-- Receiving from it has failed since it came in.
unfoldable pub gave_up : ℤ → History → Bool
gave_up id [] = false
gave_up id ((incoming conn added, wire) ∷ h) =
    let before = gave_up id h in if eq_ℤ conn id then false else before
gave_up id ((ready fd inbox answers removed, wire) ∷ h) =
    let before = gave_up id h in if eq_ℤ (pos fd) id then is_failed inbox.end || before else before

-- The history with more events, in their order, and what went out for each.
unfoldable pub happened : History → List Event → List (List ℕ) → History
happened h [] outs = h
happened h (e ∷ events) [] = h
happened h (e ∷ events) (out ∷ outs) = happened ((e, out) ∷ h) events outs

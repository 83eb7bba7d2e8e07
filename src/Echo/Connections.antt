-- ===== src/Echo/Connections.antt =====
-- Over a whole run of c/source/smoke-test/main.c, every connection gets back what it sends.
use network_exercises.Common.{
  ℕ, ◌+◌, ◌^◌, ◌<◌, ◌≡◌, refl, arith, Bool, true, false, inl, inr, Option, none, some, List, [],
  ◌∷◌, ◌++◌, append-nil, Bool-cases, ◌||◌,
}
use network_exercises.Common.Int.{ℤ, pos, negsuc, eq_ℤ}
use network_exercises.Run.{ok, ◌>>=◌, Returns, Returns-bind}
use network_exercises.Memory.{Allocator, Serves}
use network_exercises.Links.{some_or}
use network_exercises.Queue.{Queue}
use network_exercises.Queue.Pop.{IsFresh, init-IsFresh}
use network_exercises.Net.{Event, incoming, ready, took, Inbox, End, Answer, total}
use network_exercises.Net.Receive.{NonEmpty, joined}
use network_exercises.Net.Reply.{IsIdle}
use network_exercises.Net.Streams.{History, is_failed, stream, outputs, gave_up, happened}
use network_exercises.Poll.{fd_accept_and_epoll_add}
use network_exercises.Startup.{Log, System}
use network_exercises.Startup.Listen.{CanStart, set_up-CanStart}
use network_exercises.Rounds.{Progress, running, handle_events, run_rounds}
use network_exercises.Rounds.Batches.{Batches, rounds_of, all_events, run_rounds-batches}
use network_exercises.Echo.Main.{Server, on_event, start, main}
use network_exercises.Echo.Reply.{Echoed, answer_of, handle_event-Echoed}

-- What the system does for an event: `accept` and `epoll_ctl` succeed, sockets deliver fewer than
-- 2^31 - 2 bytes for one event, and `send` takes them in one call.
abbrev pub IsServed : Event → Type 0
IsServed (incoming conn added) = (eq_ℤ conn (negsuc 0) ≡ false) × (added ≡ true)
IsServed (ready fd inbox answers removed) =
    (removed ≡ true)
    × (0 < fd)
    × NonEmpty inbox.chunks
    × (total inbox.chunks + 2 < 2 ^ 31)
    × (answers ≡ took (total inbox.chunks) ∷ [])

unfoldable pub AllServed : List Event → Type 0
AllServed [] = Unit {0}
AllServed (e ∷ events) = IsServed e × AllServed events

-- Every connection from which receiving has not failed has got back what it has sent.
abbrev pub AllEchoed : History → Type 0
AllEchoed h = (id : ℤ) → gave_up id h ≡ false → outputs id h ≡ stream id h

AllEchoed-incoming :
    (h : History) (conn : ℤ) (added : Bool) (wire : List ℕ)
    → AllEchoed h
    → AllEchoed ((incoming conn added, wire) ∷ h)
unfolding gave_up outputs stream
AllEchoed-incoming h conn added wire all id well = elim (Bool-cases (eq_ℤ conn id)) [
  | inl hit ↦ rw hit refl
  | inr miss ↦ rw miss (all id (rw miss at well))
]

-- What goes out where receiving does not fail.
answer_of-joined :
    (inbox : Inbox) (end : End) → is_failed end ≡ false → answer_of inbox end ≡ joined inbox.chunks
answer_of-joined inbox End.closed well = refl
answer_of-joined inbox End.would_block well = refl
answer_of-joined inbox End.failed well = absurd (cc)

AllEchoed-ready :
    (h : History) (fd : ℕ) (inbox : Inbox) (answers : List Answer) (removed : Bool)
    → AllEchoed h
    → AllEchoed ((ready fd inbox answers removed, answer_of inbox inbox.end) ∷ h)
unfolding gave_up outputs stream
AllEchoed-ready h fd inbox answers removed all id well = elim (Bool-cases (eq_ℤ (pos fd) id)) [
  | inl hit ↦
      let still_well : (is_failed inbox.end || gave_up id h) ≡ false = rw hit at well in
      rw
        (
          hit,
          all id (ground (arith, still_well)),
          answer_of-joined inbox inbox.end (ground (arith, still_well)),
        )
        refl
  | inr miss ↦ rw miss (all id (rw miss at well))
]

-- The queue is empty between events.
abbrev IsSound : History → Server → Type 0
IsSound h s = IsIdle s.qu × AllEchoed h

-- The server waits for more, and every connection has got back what it has sent.
abbrev pub WaitsAfter : Batches Event → Progress Server (Unit {0}) → List (List ℕ) → Type 0
WaitsAfter batches p outs =
    (s : Server) × (p ≡ running s) × AllEchoed (happened [] (all_events batches) outs)

module _ {mem : Allocator ℕ} (serves : Serves mem) where
  on_event-IsSound :
      (h : History) (s : Server) (e : Event)
      → IsSound h s
      → IsServed e
      → Returns (λ (s', wire). IsSound ((e, wire) ∷ h) s') (on_event mem s e)
  unfolding on_event fd_accept_and_epoll_add
  on_event-IsSound h s (incoming conn added) (idle, all) (there, added_eq) =
      rw (there, added_eq) (idle, AllEchoed-incoming h conn true [] all)
  on_event-IsSound h s (ready fd inbox answers removed) (idle, all)
        (removed_eq, some_fd, ne, few, takes) =
      rw (removed_eq, takes)
        (Returns-bind (Echoed inbox) _ _ _
          (handle_event-Echoed fd inbox s.qu serves some_fd ne idle few)
          (λ (qu, wire, fate) (idle', same, _).
            rw same (idle', AllEchoed-ready h fd inbox (took (total inbox.chunks) ∷ []) true all)))

  handle_events-IsSound :
      (h : History) (s : Server) (events : List Event)
      → IsSound h s
      → AllServed events
      → Returns
          (λ (s', outs). IsSound (happened h events outs) s')
          (handle_events (on_event mem) s events)
  unfolding handle_events AllServed happened
  handle_events-IsSound h s [] sound ad = sound
  handle_events-IsSound h s (e ∷ events) sound (ad, later) =
      Returns-bind (λ (s', wire). IsSound ((e, wire) ∷ h) s') _ _ _
        (on_event-IsSound h s e sound ad)
        (λ (s', wire) sound'.
          Returns-bind (λ (t, outs). IsSound (happened ((e, wire) ∷ h) events outs) t) _ _ _
            (handle_events-IsSound ((e, wire) ∷ h) s' events sound' later) (λ (t, outs) q. q))

  started_with :
      (qu : Option Queue)
      → IsFresh 65536 qu
      → Returns (IsSound []) (some_or qu >>= λ q. ok (record { qu = q; watched = [] }))
  unfolding gave_up outputs stream
  started_with none f = absurd f
  started_with (some q) f =
      (record { valid = f.0; empty = f.1; spare = omega (arith, f.1, f.2) }, λ id well. refl)

  start-IsSound : Returns (IsSound []) (start mem)
  unfolding start
  start-IsSound =
      Returns-bind (IsFresh 65536) _ _ _ (init-IsFresh 65536 serves (omega arith) (omega arith))
        started_with

  -- There are no more rounds.
  waits :
      (batches : Batches Event) (s : Server) (outs : List (List ℕ))
      → IsSound (happened [] (all_events batches) outs) s
      → WaitsAfter batches (running s) (outs ++ [])
  waits batches s outs (idle, all) = rw (append-nil outs) (s, refl, all)

  -- Where the system lets the server start, with memory at hand: after rounds of one event or more
  -- each, over which `accept` and `epoll_ctl` succeed, each receive gives at least a byte, fewer than
  -- 2^31 - 2 bytes come in for one event, and `send` takes everything in one call, the server has not
  -- stopped and waits for more. However the events of all connections mix, and are cut into rounds,
  -- every connection has been sent back exactly the bytes that it has sent since it came in, unless
  -- receiving from it has failed.
  pub main-AllEchoed :
      {L : Type 0} (log : Log L) (sys : System) (logs : L) (log_fd : ℕ) (fd : ℤ)
      (batches : Batches Event)
      → CanStart log sys logs log_fd fd
      → AllServed (all_events batches)
      → Returns
          (λ (p, outs). WaitsAfter batches p outs)
          (main log mem sys logs (rounds_of batches ++ []))
  unfolding main run_rounds
  main-AllEchoed log sys logs log_fd fd batches can ad =
      rw (set_up-CanStart log sys logs log_fd fd can) (
        Returns-bind (IsSound []) _ _ _ start-IsSound (λ s sound.
          rw (run_rounds-batches (on_event mem) (λ s'. ok (running s')) s batches []) (
            Returns-bind (λ (t, outs). IsSound (happened [] (all_events batches) outs) t)
              (λ (p, outs). WaitsAfter batches p outs) _ _
              (handle_events-IsSound [] s (all_events batches) sound ad)
              (λ (t, outs) sound'. waits batches t outs sound'))))

-- ===== src/PriceServer/Loop.antt =====
-- The states that the loop reaches, and what the system and the clients do meanwhile.
use network_exercises.Common.{
  ℕ, ◌+◌, ◌^◌, ◌≤◌, ◌<◌, ◌≡◌, refl, sym, ap, subst, ◌∙◌, arith, true, false, Option, none, some,
  List, [], ◌∷◌, ◌++◌, length, take, take-take,
}
use network_exercises.Common.Int.{pos, leb_ℤ}
use network_exercises.Run.{
  ok, assert_some, ◌>>=◌, Returns, Returns-bind, Returns-mono, Returns-result, Returns-at,
}
use network_exercises.Memory.{Allocator, Serves}
use network_exercises.Queue.{Queue}
use network_exercises.Queue.Pop.{IsFresh, init-IsFresh}
use network_exercises.Prices.{AssetPrice}
use network_exercises.Prices.Store.{samples}
use network_exercises.Messages.Meaning.{replies}
use network_exercises.Messages.Decode.{IsBytes}
use network_exercises.Net.{Answer, errno, Inbox, Outcome, total, Event, incoming, ready}
use network_exercises.Net.Receive.{NonEmpty, joined}
use network_exercises.Net.Send.{Honest, SentFront, sendall-SentFront}
use network_exercises.Links.Append.{At, lookup}
use network_exercises.Links.Linked.{IsLinked}
use network_exercises.Sessions.{Client, Addresses}
use network_exercises.Links.Places.{start-At}
use network_exercises.Sessions.Find.{Sessions, id_of}
use network_exercises.Sessions.Add.{GivesFresh}
use network_exercises.PriceServer.{Server, handle_event, start}
use network_exercises.Net.Reply.{Sends}
use network_exercises.PriceServer.Serve.{taken, arrived}
use network_exercises.PriceServer.Table.{watches, watches-lookup, length-ids}
use network_exercises.PriceServer.Step.{IsServer, AnswerTo, after, on_ready-AnswerTo}
use network_exercises.PriceServer.Accept.{Accepted, on_incoming-IsServer}

-- How many bytes an event brings.
abbrev pub received : Event → ℕ
received (incoming conn added) = 0
received (ready fd inbox answers removed) = total inbox.chunks

-- `send` never takes more than it is offered, for the replies that this connection gets.
abbrev pub IsFair : Server → ℕ → Inbox → List Answer → Type 0
IsFair s fd inbox answers =
    (xs : Sessions) (c : Client)
    → At s.heap s.ca xs
    → lookup id_of (pos fd) xs ≡ some c
    → Honest (length (replies (samples c.asset) (taken inbox.end (arrived c inbox)))) answers

-- What the answers of `send` may be for an event.
abbrev pub Answering : Type 1
Answering = Server → ℕ → Inbox → List Answer → Type 0

-- What the system and the clients may do after `n` bytes: `accept` returns a descriptor that is not
-- in use, and there is memory for its session; only watched descriptors are ready, sockets deliver
-- bytes, fewer than 2^31 in all, and `send` answers as it may. `epoll_ctl` succeeds.
abbrev pub AdmitsWhere : Answering → Addresses → ℕ → ℕ → Server → Event → Type 0
AdmitsWhere P malloc fuel n s (incoming conn added) =
    (added ≡ true)
    × (leb_ℤ (pos 1) conn ≡ true)
    × (watches conn s.watched ≡ false)
    × GivesFresh malloc s.heap
    × (length s.watched < fuel)
AdmitsWhere P malloc fuel n s (ready fd inbox answers removed) =
    (removed ≡ true)
    × (0 < fd)
    × (watches (pos fd) s.watched ≡ true)
    × (length s.watched < fuel)
    × NonEmpty inbox.chunks
    × IsBytes (joined inbox.chunks)
    × (n + total inbox.chunks < 2 ^ 31)
    × P s fd inbox answers

-- `send` ends by an error at the latest.
abbrev pub EndsFair : Answering
EndsFair s fd inbox answers =
    (before : List Answer) × (e : ℕ) × (answers ≡ before ++ errno e ∷ []) × IsFair s fd inbox before

abbrev pub Admits : Addresses → ℕ → ℕ → Server → Event → Type 0
Admits = AdmitsWhere EndsFair

-- The states that the loop reaches from its start, with the number of bytes received.
pub data Reach (mem : Allocator ℕ) (price_mem : Allocator AssetPrice) (malloc : Addresses)
    (fuel : ℕ) : ℕ → Server → Type 0 where
  started : {s : Server} → start mem ≡ ok s → Reach mem price_mem malloc fuel 0 s
  next :
      {n m : ℕ} {s s' : Server} (e : Event) (wire : List ℕ)
      → Reach mem price_mem malloc fuel n s
      → Admits malloc fuel n s e
      → handle_event mem price_mem fuel malloc s e ≡ ok (s', wire)
      → m ≡ n + received e
      → Reach mem price_mem malloc fuel m s'

-- A front of the bytes to send goes out.
abbrev pub Front : List ℕ → Outcome → Type 0
Front r o = (o.len ≤ length r) × (o.wire ≡ take o.len r)

pub Honest-Sends :
    (answers : List Answer) (e fd : ℕ) (r : List ℕ)
    → 0 < fd
    → Honest (length r) answers
    → Sends (answers ++ errno e ∷ []) fd r (Front r)
Honest-Sends answers e fd r some_fd h buf some_bytes small readable same =
    Returns-mono (SentFront buf (length r)) (Front r) _
      (sendall-SentFront answers e fd buf (length r) some_fd some_bytes small readable h)
      (λ o f. (f.0, f.1 ∙ sym (take-take o.len (length r) buf f.0) ∙ ap (take o.len) same))

nothing-IsLinked : IsLinked {D = Client} (λ a. none) [] []
nothing-IsLinked = record {
  behind = tt;
  forth = tt;
  apart_behind = tt;
  apart_ahead = tt;
  disjoint = tt;
}

started_with :
    (qu : Option Queue)
    → IsFresh 65536 qu
    → Returns
        (λ s. IsServer 0 s [])
        (assert_some qu >>= λ q.
          ok (record { heap = λ a. none; ca = none; sdqu = q; watched = [] }))
started_with none f = absurd f
started_with (some q) f = record {
  place = start-At (λ a. none) [] nothing-IsLinked;
  sessions = tt;
  loads = tt;
  idle = record { valid = f.0; empty = f.1; spare = omega (arith, f.1, f.2) };
  known = refl;
  once = tt;
}

pub start-IsServer : {mem : Allocator ℕ} → Serves mem → Returns (λ s. IsServer 0 s []) (start mem)
unfolding start
start-IsServer {mem} serves =
    Returns-bind (IsFresh 65536) _ _ _ (init-IsFresh 65536 serves (omega arith) (omega arith))
      started_with

-- Some list of sessions makes the server well-formed.
abbrev pub IsSound : ℕ → Server → Type 0
IsSound n s = (xs : Sessions) × IsServer n s xs

module _ {mem : Allocator ℕ} {price_mem : Allocator AssetPrice} (serves : Serves mem)
    (price_serves : Serves price_mem) (malloc : Addresses) (fuel : ℕ) where
  handle_event-IsSound :
      (n : ℕ) (s : Server) (e : Event)
      → IsSound n s
      → Admits malloc fuel n s e
      → Returns
          (λ (s', wire). IsSound (n + received e) s')
          (handle_event mem price_mem fuel malloc s e)
  unfolding handle_event
  handle_event-IsSound n s (incoming conn added) (xs, w) (added_eq, positive, new, fresh, enough) =
      let few : length xs < fuel = omega (arith, length-ids xs, ap length w.known) in
      let same : n + 0 ≡ n = omega arith in
      rw (added_eq, same)
        (Returns-bind (Accepted conn n s xs) _ _ _
          (on_incoming-IsServer serves price_serves malloc fuel n s xs conn w positive new fresh
            few)
          (λ s' (a, c, is_new, w', _). (xs ++ (a, c) ∷ [], w')))
  handle_event-IsSound n s (ready fd inbox answers removed) (xs, w)
        (removed_eq, some_fd, watched, enough, ne, bytes, few, (before, e, ends, fair)) =
      let few_sessions : length xs < fuel = omega (arith, length-ids xs, ap length w.known) in
      let (c, known) = watches-lookup (pos fd) xs (ap (watches (pos fd)) w.known ∙ watched) in
      let r = replies (samples c.asset) (taken inbox.end (arrived c inbox)) in
      rw (removed_eq, ends)
        (Returns-mono (AnswerTo n xs fd inbox (Front r) c) _ _
          (on_ready-AnswerTo serves price_serves fuel n s xs c fd inbox (before ++ errno e ∷ [])
            (Front r) w some_fd known few_sessions ne bytes few
            (Honest-Sends before e fd r some_fd (fair xs c w.place known)))
          (λ (s', wire) (v, served, sent, w'). (after fd v xs, w')))

  -- With memory at hand, in every state that the loop reaches by events in which: `accept` returns
  -- new positive descriptors and `epoll_ctl` succeeds, only watched descriptors are ready, each
  -- receive gives at least a byte, fewer than 2^31 bytes come in all over the whole run, `send` never
  -- takes more than it is offered and ends by an error at the latest, and there is always more fuel
  -- than sessions. The list of sessions is well-formed, each session is valid, nothing waits to be
  -- sent, and the sessions are those of the watched descriptors, each once.
  pub Reach-IsSound : {n : ℕ} {s : Server} → Reach mem price_mem malloc fuel n s → IsSound n s
  Reach-IsSound (started e) = ([], Returns-at _ _ _ e (start-IsServer serves))
  Reach-IsSound (next {n} {m} {s} {s'} e wire r ad ran same) =
      subst (λ k. IsSound k s') (sym same)
        (Returns-at _ _ _ ran (handle_event-IsSound n s e (Reach-IsSound r) ad))

  -- With memory at hand, from every state that the loop reaches by events in which: `accept` returns
  -- new positive descriptors and `epoll_ctl` succeeds, only watched descriptors are ready, each
  -- receive gives at least a byte, fewer than 2^31 bytes come in all over the whole run, `send` never
  -- takes more than it is offered and ends by an error at the latest, and there is always more fuel
  -- than sessions. The server handles one more event of which the same holds and returns. The state
  -- that it leaves is one that the loop reaches, its list of sessions is well-formed and each session
  -- valid, nothing waits to be sent, and the sessions are those of the watched descriptors, each once.
  -- A failing `accept` or `epoll_ctl`, which stops the server, is not such an event.
  pub handle_event-Reach :
      (n : ℕ) (s : Server) (e : Event)
      → Reach mem price_mem malloc fuel n s
      → Admits malloc fuel n s e
      → Returns
          (λ (s', wire).
            Reach mem price_mem malloc fuel (n + received e) s' × IsSound (n + received e) s')
          (handle_event mem price_mem fuel malloc s e)
  handle_event-Reach n s e r ad =
      let ((s', wire), ran, sound) =
        Returns-result _ _ (handle_event-IsSound n s e (Reach-IsSound r) ad) in
      let Q : Server → Type 0 =
        λ t. Reach mem price_mem malloc fuel (n + received e) t × IsSound (n + received e) t in
      subst (Returns (λ (t, out). Q t)) (sym ran) (next e wire r ad ran refl, sound)

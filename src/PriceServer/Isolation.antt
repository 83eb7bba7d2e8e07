-- ===== src/PriceServer/Isolation.antt =====
-- Each connection is answered as if it were alone: the order in which the events of several
-- connections come, and how the bytes of one are cut into events, make no difference.
use network_exercises.Common.{
  ℕ, ◌+◌, ◌%◌, ◌<◌, ◌≡◌, sym, ap, subst, ◌∙◌, arith, true, false, some, List, [], ◌∷◌, ◌++◌, length,
}
use network_exercises.Common.Int.{ℤ, pos}
use network_exercises.Run.{ok, Returns, Returns-bind, Returns-mono, Returns-at}
use network_exercises.Memory.{Allocator, Serves}
use network_exercises.Prices.{AssetPrice}
use network_exercises.Prices.Store.{samples}
use network_exercises.Messages.Meaning.{replies}
use network_exercises.Messages.Decode.{decode}
use network_exercises.Net.{took, Inbox, total, Event, incoming, ready}
use network_exercises.Net.Reply.{SentAll}
use network_exercises.Links.Append.{At, lookup}
use network_exercises.Sessions.{Client, Addresses}
use network_exercises.Sessions.Find.{Sessions, id_of}
use mathlib.Core.Option.{none-ne-some}
use network_exercises.PriceServer.{Server, Served, handle_event, start}
use network_exercises.PriceServer.Serve.{taken, arrived, is_open, ServedFor}
use network_exercises.PriceServer.Table.{ids, watches, watches-lookup, length-ids, AllOnce}
use network_exercises.PriceServer.Step.{IsServer, after}
use network_exercises.PriceServer.Accept.{Accepted, on_incoming-IsServer}
use network_exercises.PriceServer.Replies.{on_ready-replies}
use network_exercises.PriceServer.Loop.{received, Answering, AdmitsWhere, start-IsServer}
use network_exercises.Net.Streams.{History, stream, outputs, gave_up}
use network_exercises.PriceServer.Streams.{nothing-Told, Told-replies}
use network_exercises.PriceServer.Knowing.{Knows, Knows-incoming, Knows-ready}

-- `send` takes all the replies of the descriptor's session in one call.
abbrev pub TakesAll : Answering
TakesAll s fd inbox answers =
    (xs : Sessions) (c : Client)
    → At s.heap s.ca xs
    → lookup id_of (pos fd) xs ≡ some c
    → answers ≡ took (length (replies (samples c.asset) (taken inbox.end (arrived c inbox)))) ∷ []

-- The states that the loop reaches where `send` takes all, with the events so far and the number of
-- bytes received.
pub data Ran (mem : Allocator ℕ) (price_mem : Allocator AssetPrice) (malloc : Addresses) (fuel : ℕ)
    : History → ℕ → Server → Type 0 where
  started : {s : Server} → start mem ≡ ok s → Ran mem price_mem malloc fuel [] 0 s
  next :
      {h : History} {n m : ℕ} {s s' : Server} (e : Event) (wire : List ℕ)
      → Ran mem price_mem malloc fuel h n s
      → AdmitsWhere TakesAll malloc fuel n s e
      → handle_event mem price_mem fuel malloc s e ≡ ok (s', wire)
      → m ≡ n + received e
      → Ran mem price_mem malloc fuel ((e, wire) ∷ h) m s'

-- A well-formed server whose sessions know of their connections.
abbrev pub Informed : History → ℕ → Server → Type 0
Informed h n s = (xs : Sessions) × IsServer n s xs × Knows h xs

-- What goes out for a ready connection, and the server that is left.
abbrev RepliedTo : ℕ → Sessions → Client → ℕ → Inbox → Server × List ℕ → Type 0
RepliedTo n xs c fd inbox =
    let r = replies (samples c.asset) (taken inbox.end (arrived c inbox)) in
    λ (s, wire).
      (wire ≡ r)
      × ((v : Served) × ServedFor c inbox (SentAll r) v
          × (v.keep ≡ is_open inbox.end)
          × IsServer (n + total inbox.chunks) s (after fd v xs))

module _ {mem : Allocator ℕ} {price_mem : Allocator AssetPrice} (serves : Serves mem)
    (price_serves : Serves price_mem) (malloc : Addresses) (fuel : ℕ) where
  pub handle_event-Informed :
      (h : History) (n : ℕ) (s : Server) (e : Event)
      → Informed h n s
      → AdmitsWhere TakesAll malloc fuel n s e
      → Returns
          (λ (s', wire). Informed ((e, wire) ∷ h) (n + received e) s')
          (handle_event mem price_mem fuel malloc s e)
  unfolding handle_event
  handle_event-Informed h n s (incoming conn added) (xs, w, k)
        (added_eq, positive, new, fresh, enough) =
      let few : length xs < fuel = omega (arith, length-ids xs, ap length w.known) in
      let same : n + 0 ≡ n = omega arith in
      rw (added_eq, same)
        (Returns-bind (Accepted conn n s xs) _ _ _
          (on_incoming-IsServer serves price_serves malloc fuel n s xs conn w positive new fresh
            few)
          (λ s' (a, c, is_new, w', _). (
            xs ++ (a, c) ∷ [],
            w',
            Knows-incoming h xs conn true [] k a c (ap (watches conn) w.known ∙ new) is_new,
          )))
  handle_event-Informed h n s (ready fd inbox answers removed) (xs, w, k)
        (removed_eq, some_fd, watched, enough, ne, bytes, few, takes) =
      let few_sessions : length xs < fuel = omega (arith, length-ids xs, ap length w.known) in
      let (c, known) = watches-lookup (pos fd) xs (ap (watches (pos fd)) w.known ∙ watched) in
      let r = replies (samples c.asset) (taken inbox.end (arrived c inbox)) in
      let once : AllOnce (ids xs) = subst AllOnce (sym w.known) w.once in
      rw (removed_eq, takes xs c w.place known)
        (Returns-mono (RepliedTo n xs c fd inbox) _ _
          (on_ready-replies serves price_serves fuel n s xs c fd inbox w some_fd known few_sessions
            ne bytes few)
          (λ (s', wire) (out, (v, served, _, w')). rw out (
            after fd v xs,
            w',
            Knows-ready h xs fd inbox (took (length r) ∷ []) true c k known (SentAll r) v served
                once,
          )))

  nothing-Knows : Knows [] []
  unfolding stream outputs gave_up lookup
  nothing-Knows = record {
    told = λ id. nothing-Told;
    follows = λ id c e. absurd (none-ne-some _ e);
  }

  pub Ran-Informed :
      {h : History} {n : ℕ} {s : Server} → Ran mem price_mem malloc fuel h n s → Informed h n s
  Ran-Informed (started e) = ([], Returns-at _ _ _ e (start-IsServer serves), nothing-Knows)
  Ran-Informed (next {h} {n} {m} {s} {s'} e wire r ad ran same) =
      subst (λ k. Informed ((e, wire) ∷ h) k s') (sym same)
        (Returns-at _ _ _ ran (handle_event-Informed h n s e (Ran-Informed r) ad))

  -- With memory at hand, after any run of events in which: `accept` returns new positive descriptors
  -- and `epoll_ctl` succeeds, only watched descriptors are ready, each receive gives at least a byte,
  -- fewer than 2^31 bytes come in all over the whole run, from all connections together, `send` takes
  -- all the replies of an event in one call, and there is always more fuel than sessions. A connection
  -- that has sent whole messages of nine bytes since it came in, and whose last receive has not
  -- failed, has been sent exactly the replies to all its messages in their order, whatever the other
  -- connections did between, and however its bytes were cut into events.
  pub Ran-replies :
      {h : History} {n : ℕ} {s : Server} (id : ℤ)
      → Ran mem price_mem malloc fuel h n s
      → gave_up id h ≡ false
      → length (stream id h) % 9 ≡ 0
      → outputs id h ≡ replies [] (decode (stream id h))
  Ran-replies {h} id r well groups =
      let (xs, w, k) = Ran-Informed r in
      Told-replies (stream id h) (outputs id h) (gave_up id h) (k.told id) well groups

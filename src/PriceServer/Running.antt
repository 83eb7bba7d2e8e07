-- ===== src/PriceServer/Running.antt =====
-- The whole run of the server of c/source/means-to-an-end/main.c, from its start to its timeout.
use network_exercises.Common.{
  ℕ, ◌+◌, ◌<◌, ◌≡◌, refl, sym, ap, ap₂, subst, ◌∙◌, arith, none, List, [], ◌∷◌, ◌++◌, length,
  Option-cases, inl, inr,
}
use network_exercises.Common.Int.{ℤ}
use network_exercises.Run.{Run, ok, Returns, Returns-bind, Returns-mono, Returns-result}
use mathlib.Core.Option.{none-ne-some}
use network_exercises.Memory.{Allocator, Serves}
use network_exercises.Prices.{AssetPrice}
use network_exercises.Links.{Heap}
use network_exercises.Links.Linked.{addr, onto}
use network_exercises.Links.Append.{At}
use network_exercises.PriceServer.Table.{length-ids}
use network_exercises.Startup.{Log, System, Started}
use network_exercises.Startup.Listen.{CanStart, begun, set_up-CanStart, unwatch-first}
use network_exercises.Rounds.{
  Round, timed_out, Progress, running, finished, handle_events, run_rounds,
}
use network_exercises.Rounds.Batches.{Batches, rounds_of, all_events, run_rounds-batches}
use network_exercises.Sessions.{Client, Addresses}
use network_exercises.Sessions.Find.{Sessions}
use network_exercises.Sessions.Change.{AllFreed, Spared, free_all-AllFreed}
use network_exercises.Net.{Event}
use network_exercises.PriceServer.{Server, handle_event, start, on_timeout}
use network_exercises.PriceServer.Main.{Ended, clean_up, main}
use network_exercises.PriceServer.Step.{IsServer}
use network_exercises.PriceServer.Loop.{
  Reach, started, Admits, received, handle_event-Reach, Reach-IsSound, IsSound, start-IsServer,
}

-- How many bytes the events bring.
abbrev pub all_received : ℕ → List Event → ℕ
all_received n [] = n
all_received n (e ∷ events) = all_received (n + received e) events

-- Each event may happen in the state that the events before it lead to. In the end too there is more
-- fuel than sessions.
unfoldable pub AdmitsAll :
    Allocator ℕ → Allocator AssetPrice → Addresses → ℕ → ℕ → Server → List Event → Type 0
AdmitsAll mem price_mem malloc fuel n s [] = length s.watched < fuel
AdmitsAll mem price_mem malloc fuel n s (e ∷ events) =
    Admits malloc fuel n s e
    × ((s' : Server) (wire : List ℕ)
        → handle_event mem price_mem fuel malloc s e ≡ ok (s', wire)
        → AdmitsAll mem price_mem malloc fuel (n + received e) s' events)

addr-none : (xs : Sessions) → addr xs ≡ none → xs ≡ []
addr-none [] e = refl
addr-none ((a, c) ∷ xs) e = absurd (none-ne-some _ (sym e))

on_timeout-AllFreed :
    (fuel : ℕ) (s : Server) (xs : Sessions)
    → At s.heap s.ca xs
    → length xs < fuel
    → Returns (λ heap. AllFreed heap xs) (on_timeout fuel s)
unfolding on_timeout onto
on_timeout-AllFreed fuel s xs place enough = elim (Option-cases s.ca) [
  | inl nothing ↦
      let none_ahead : place.zs ≡ [] = addr-none place.zs (sym (sym nothing ∙ place.place)) in
      let no_sessions : xs ≡ [] = sym place.whole ∙ ap₂ onto (place.inside none_ahead) none_ahead in
      rw (nothing, no_sessions) tt
  | inr (p, there) ↦ rw there (
      Returns-mono (λ heap. AllFreed heap xs × Spared s.heap heap xs) _ _
        (free_all-AllFreed fuel s.heap p xs (subst (λ q. At s.heap q xs) there place) enough)
        (λ heap f. f.0))
]

module _ {mem : Allocator ℕ} {price_mem : Allocator AssetPrice} (serves : Serves mem)
    (price_serves : Serves price_mem) (malloc : Addresses) (fuel : ℕ) where
  abbrev pub ReachAfter : ℕ → List Event → Server → Type 0
  ReachAfter n events s' =
      Reach mem price_mem malloc fuel (all_received n events) s' × (length s'.watched < fuel)

  handle_events-Reach :
      (n : ℕ) (s : Server) (events : List Event)
      → Reach mem price_mem malloc fuel n s
      → AdmitsAll mem price_mem malloc fuel n s events
      → Returns
          (λ (s', outs). ReachAfter n events s')
          (handle_events (handle_event mem price_mem fuel malloc) s events)
  unfolding handle_events AdmitsAll
  handle_events-Reach n s [] r ad = (r, ad)
  handle_events-Reach n s (e ∷ events) r (ad, later) =
      let ((s', wire), ran, q) =
        Returns-result
          (λ (t, out).
            Reach mem price_mem malloc fuel (n + received e) t × IsSound (n + received e) t)
          (handle_event mem price_mem fuel malloc s e)
          (handle_event-Reach serves price_serves malloc fuel n s e r ad) in
      rw ran (
        Returns-bind (λ (t, outs). ReachAfter (n + received e) events t) _ _ _
          (handle_events-Reach (n + received e) s' events q.0 (later s' wire ran))
          (λ (t, outs) p. p))

  -- The rounds up to the first one of others.
  run_rounds-Reach :
      {F : Type 0} (ends : Server → Run (Progress Server F)) (s : Server) (batches : Batches Event)
      (rounds : List (Round Event)) (Q : Progress Server F → Type 0)
      → Reach mem price_mem malloc fuel 0 s
      → AdmitsAll mem price_mem malloc fuel 0 s (all_events batches)
      → ((s' : Server)
          → ReachAfter 0 (all_events batches) s'
          → Returns
              (λ (p, outs). Q p)
              (run_rounds (handle_event mem price_mem fuel malloc) ends s' rounds))
      → Returns
          (λ (p, outs). Q p)
          (run_rounds (handle_event mem price_mem fuel malloc) ends s (rounds_of batches ++ rounds))
  run_rounds-Reach ends s batches rounds Q r ad next =
      rw (run_rounds-batches (handle_event mem price_mem fuel malloc) ends s batches rounds) (
        Returns-bind (λ (s', outs). ReachAfter 0 (all_events batches) s') _ _ _
          (handle_events-Reach 0 s (all_events batches) r ad)
          (λ (s', outs) q. Returns-bind (λ (p, more). Q p) _ _ _ (next s' q) (λ (p, more) h. h)))

  -- The server waits for more, in a state that the loop reaches, which is well-formed.
  abbrev pub WaitsAfter : List Event → Progress Server Ended → Type 0
  WaitsAfter events p =
      (s : Server) × (p ≡ running s) × ReachAfter 0 events s × IsSound (all_received 0 events) s

  -- What the server has freed when it ends: every session, and the socket on which it listens.
  abbrev pub HasEnded : ℕ → List Event → Progress Server Ended → Type 0
  HasEnded n events p =
      (s : Server) × (xs : Sessions) × (heap : Heap Client) × ReachAfter n events s
      × IsServer (all_received n events) s xs
      × (p ≡ finished (heap, []))
      × AllFreed heap xs

  clean_up-HasEnded :
      {L : Type 0} (st : Started L) (events : List Event) (s : Server)
      → st.opened ≡ st.listen_fd ∷ []
      → ReachAfter 0 events s
      → Returns (HasEnded 0 events) (clean_up fuel st s)
  unfolding clean_up
  clean_up-HasEnded st events s one (r, enough) =
      let (xs, w) = Reach-IsSound serves price_serves malloc fuel r in
      rw (one, unwatch-first st.listen_fd [])
        (Returns-bind (λ heap. AllFreed heap xs) _ _ _
          (on_timeout-AllFreed fuel s xs w.place
            (omega (arith, length-ids xs, ap length w.known, enough)))
          (λ heap freed. (s, xs, heap, (r, enough), w, refl, freed)))

  module _ {L : Type 0} (log : Log L) (sys : System) (logs : L) (log_fd : ℕ) (fd : ℤ)
      (batches : Batches Event) where
    main-rounds :
        (rounds : List (Round Event)) (Q : Progress Server Ended → Type 0)
        → CanStart log sys logs log_fd fd
        → ((s : Server)
            → start mem ≡ ok s
            → AdmitsAll mem price_mem malloc fuel 0 s (all_events batches))
        → ((st : Started L)
            → st.opened ≡ st.listen_fd ∷ []
            → (s : Server) → ReachAfter 0 (all_events batches) s
            → Returns
                (λ (p, outs). Q p)
                (run_rounds (handle_event mem price_mem fuel malloc) (clean_up fuel st) s rounds))
        → Returns
            (λ (p, outs). Q p)
            (main log mem price_mem fuel malloc sys logs (rounds_of batches ++ rounds))
    unfolding main
    main-rounds rounds Q can ad next =
        let (s, from, _) =
          Returns-result (λ t. IsServer 0 t []) (start mem) (start-IsServer serves) in
        rw (set_up-CanStart log sys logs log_fd fd can, from)
          (run_rounds-Reach (clean_up fuel (begun log sys logs log_fd fd)) s batches rounds Q
            (started from) (ad s from) (next (begun log sys logs log_fd fd) refl))

    -- Where the system lets the server start, and with memory at hand: after rounds of one event or
    -- more each, over which `accept` returns new positive descriptors and `epoll_ctl` succeeds, only
    -- watched descriptors are ready, each receive gives at least a byte, fewer than 2^31 bytes come in
    -- all, `send` never takes more than it is offered and ends by an error at the latest, and there is
    -- always more fuel than sessions, in the end too: the server has not stopped, however its events
    -- are cut into rounds. It waits for more, in a state that the loop reaches by these events: its list
    -- of sessions is well-formed, each session is valid, nothing waits to be sent, and the sessions are
    -- those of the watched descriptors, each once.
    pub main-Waits :
        CanStart log sys logs log_fd fd
        → ((s : Server)
            → start mem ≡ ok s
            → AdmitsAll mem price_mem malloc fuel 0 s (all_events batches))
        → Returns
            (λ (p, outs). WaitsAfter (all_events batches) p)
            (main log mem price_mem fuel malloc sys logs (rounds_of batches ++ []))
    unfolding run_rounds
    main-Waits can ad =
        main-rounds [] (WaitsAfter (all_events batches)) can ad
          (λ st one s r. (s, refl, r, Reach-IsSound serves price_serves malloc fuel r.0))

    -- Where the system lets the server start, and with memory at hand: after rounds of one event or
    -- more each, over which `accept` returns new positive descriptors and `epoll_ctl` succeeds, only
    -- watched descriptors are ready, each receive gives at least a byte, fewer than 2^31 bytes come in
    -- all, `send` never takes more than it is offered and ends by an error at the latest, and there is
    -- always more fuel than sessions, in the end too: the first timeout of `epoll_wait` ends the
    -- server, with the memory of every session freed, and no socket open besides those of the clients.
    pub main-HasEnded :
        (rest : List (Round Event))
        → CanStart log sys logs log_fd fd
        → ((s : Server)
            → start mem ≡ ok s
            → AdmitsAll mem price_mem malloc fuel 0 s (all_events batches))
        → Returns
            (λ (p, outs). HasEnded 0 (all_events batches) p)
            (main log mem price_mem fuel malloc sys logs (rounds_of batches ++ timed_out ∷ rest))
    unfolding run_rounds
    main-HasEnded rest can ad =
        main-rounds (timed_out ∷ rest) (HasEnded 0 (all_events batches)) can ad (λ st one s r.
          Returns-bind (HasEnded 0 (all_events batches)) _ _ _
            (clean_up-HasEnded st (all_events batches) s one r)
            (λ p (s', xs, heap, r', w, same, freed). rw same (s', xs, heap, r', w, refl, freed)))

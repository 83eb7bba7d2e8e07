-- ===== src/PriceServer/Step.antt =====
-- What the loop does for an event, on a well-formed server.
use network_exercises.Common.{
  ℕ, ◌+◌, ◌^◌, ◌≤◌, ◌<◌, ◌≡◌, refl, sym, ap, subst, ◌∙◌, arith, Bool, true, false, inl, inr, Option,
  some, List, [], length, Bool-cases, Option-cases, if◌then◌else◌,
}
use network_exercises.Common.Int.{ℤ, pos, leb_ℤ, eq_ℤ}
use network_exercises.Run.{Returns, Returns-bind, Returns-then, Returns-else}
use network_exercises.Memory.{Allocator, Serves}
use network_exercises.Prices.{AssetPrice}
use network_exercises.Prices.Store.{samples}
use network_exercises.Messages.Meaning.{replies}
use network_exercises.Messages.Decode.{IsBytes}
use network_exercises.Net.{Answer, Inbox, Outcome, total}
use network_exercises.Net.Receive.{NonEmpty, joined}
use mathlib.Core.Option.{none-ne-some, some-injective}
use network_exercises.Links.{Heap, write}
use network_exercises.Poll.{unwatch, fd_poll_del_and_close}
use network_exercises.Links.Linked.{addr, node, IsLinked, IsLinked-whole, onto}
use network_exercises.Links.Walk.{found}
use network_exercises.Links.Append.{
  At, Spot, found-Spot, lookup, without, replaced, update-IsLinked,
}
use network_exercises.Sessions.{Client}
use network_exercises.Links.Places.{IsLinked-At}
use network_exercises.Sessions.Find.{Sessions, id_of, find-answers}
use network_exercises.Sessions.Change.{Removed, remove-Removed}
use network_exercises.PriceServer.{Server, Served, drop_client, on_ready}
use network_exercises.Net.Reply.{IsIdle, Sends}
use network_exercises.PriceServer.Process.{IsSession, load_of}
use network_exercises.PriceServer.Serve.{ServedFor, taken, arrived, serve-ServedFor}
use network_exercises.PriceServer.Table.{
  ids, Each, AllOnce, found-lookup, lookup-Each, ids-without, ids-replaced, without-replaced,
  Each-replaced, Each-without, Each-mono, AllOnce-unwatch, length-ids,
}

-- A well-formed server: its sessions are a well-formed list, each of which is valid and has at most
-- `most` samples and bytes, nothing waits to be sent, and the sessions are those of the watched
-- descriptors, each once.
pub record IsServer (most : ℕ) (s : Server) (xs : Sessions) : Type 0 where
  pub place : At s.heap s.ca xs
  pub sessions : Each IsSession xs
  pub loads : Each (λ c. load_of c ≤ most) xs
  pub idle : IsIdle s.sdqu
  pub known : ids xs ≡ s.watched
  pub once : AllOnce s.watched

pub whole_list : {h : Heap Client} {p : Option ℕ} {xs : Sessions} → At h p xs → IsLinked h [] xs
whole_list {h = h} place =
    subst (λ l. IsLinked h [] l) place.whole (IsLinked-whole h place.rs place.zs place.linked)

-- The sessions once the event of a descriptor has been served.
abbrev pub after : ℕ → Served → Sessions → Sessions
after fd v xs = if v.keep then replaced id_of (pos fd) v.client xs else without id_of (pos fd) xs

-- The session of a descriptor that is looked up is found on the heap.
pub found-Spot_of :
    (h : Heap Client) (fd : ℤ) (xs : Sessions) (c : Client)
    → IsLinked h [] xs
    → lookup id_of fd xs ≡ some c
    → (a : ℕ) × (found id_of fd xs ≡ some a) × (s : Spot id_of fd h a [] xs) × (s.data_at ≡ c)
found-Spot_of h fd xs c l e = elim (Option-cases (found id_of fd xs)) [
  | inl missing ↦ absurd (none-ne-some _ (sym (found-lookup fd xs missing) ∙ e))
  | inr (a, f) ↦
      let s : Spot id_of fd h a [] xs = found-Spot id_of fd h a [] xs l f in
      (a, f, s, some-injective _ _ (sym s.here ∙ e))
]

abbrev pub AnswerTo :
    ℕ → Sessions → ℕ → Inbox → (Outcome → Type 0) → Client → Server × List ℕ → Type 0
AnswerTo most xs fd inbox Q c (s', wire) =
    (v : Served) × ServedFor c inbox Q v
    × (wire ≡ v.wire)
    × IsServer (most + total inbox.chunks) s' (after fd v xs)

if_true : {A : Type 0} (b : Bool) (x y : A) → b ≡ true → (if b then x else y) ≡ x
if_true b x y e = rw e

if_false : {A : Type 0} (b : Bool) (x y : A) → b ≡ false → (if b then x else y) ≡ y
if_false b x y e = rw e

-- The server with one session changed in place.
changed-IsServer :
    (most more : ℕ) (s : Server) (xs : Sessions) (fd : ℕ) (a : ℕ) (v : Served)
    → IsServer most s xs
    → (sp : Spot id_of (pos fd) s.heap a [] xs) → eq_ℤ v.client.client_id (pos fd) ≡ true
    → IsSession v.client
    → load_of v.client ≤ most + more
    → IsIdle v.sdqu
    → IsServer
        (most + more)
        (record s {
          heap = write s.heap a (node v.client (addr sp.after) (addr sp.before));
          ca = some a;
          sdqu = v.sdqu;
        })
        (replaced id_of (pos fd) v.client xs)
unfolding onto
changed-IsServer most more s xs fd a v w sp same ses few idle = record {
  place =
      subst (At (write s.heap a (node v.client (addr sp.after) (addr sp.before))) (some a))
        (sp.put v.client)
        (IsLinked-At _ sp.before a v.client sp.after
          (update-IsLinked s.heap a sp.data_at v.client sp.before sp.after sp.linked));
  sessions = Each-replaced IsSession (pos fd) v.client xs ses w.sessions;
  loads =
      Each-replaced (λ c. load_of c ≤ most + more) (pos fd) v.client xs few
        (Each-mono (λ c. load_of c ≤ most) (λ c. load_of c ≤ most + more) xs
          (λ c k. omega (arith, k)) w.loads);
  idle = idle;
  known = ids-replaced (pos fd) v.client same xs ∙ w.known;
  once = w.once;
}

drop_client-IsServer :
    (fuel most : ℕ) (s : Server) (p : ℕ) (xs : Sessions) (fd : ℕ)
    → 0 < fd
    → IsServer most s xs
    → s.ca ≡ some p
    → length xs < fuel
    → Returns (λ s'. IsServer most s' (without id_of (pos fd) xs)) (drop_client fuel s fd true)
unfolding drop_client fd_poll_del_and_close
drop_client-IsServer fuel most s p xs fd some_fd w at_p enough =
    let positive : leb_ℤ (pos 1) (pos fd) ≡ true = ground arith in
    rw at_p (
      Returns-bind (Removed (pos fd) xs) _ _ _
        (remove-Removed fuel s.heap p xs (pos fd) positive
          (subst (λ q. At s.heap q xs) at_p w.place) enough)
        (λ (there, heap, ca) (known, place, freed). record {
          place = place;
          sessions = Each-without IsSession (pos fd) xs w.sessions;
          loads = Each-without (λ c. load_of c ≤ most) (pos fd) xs w.loads;
          idle = w.idle;
          known = ids-without (pos fd) xs ∙ ap (unwatch (pos fd)) w.known;
          once = AllOnce-unwatch (pos fd) s.watched w.once;
        }))

module _ {mem : Allocator ℕ} {price_mem : Allocator AssetPrice} (serves : Serves mem)
    (price_serves : Serves price_mem) where
  on_ready-Spot :
      (fuel most : ℕ) (s : Server) (xs : Sessions) (fd : ℕ) (inbox : Inbox) (answers : List Answer)
      (Q : Outcome → Type 0) (a : ℕ)
      → IsServer most s xs
      → 0 < fd
      → found id_of (pos fd) xs ≡ some a
      → (sp : Spot id_of (pos fd) s.heap a [] xs) → length xs < fuel
      → NonEmpty inbox.chunks
      → IsBytes (joined inbox.chunks)
      → most + total inbox.chunks < 2 ^ 31
      → Sends answers fd
          (replies (samples sp.data_at.asset) (taken inbox.end (arrived sp.data_at inbox)))
          Q
      → Returns
          (AnswerTo most xs fd inbox Q sp.data_at)
          (on_ready mem price_mem fuel s fd inbox answers true)
  unfolding on_ready
  on_ready-Spot fuel most s xs fd inbox answers Q a w some_fd is_at sp enough ne bytes few sends =
      let positive : leb_ℤ (pos 1) (pos fd) ≡ true = ground arith in
      let (looked, _) = find-answers fuel s.heap s.ca xs (pos fd) positive w.place enough in
      let load = lookup-Each (λ c. load_of c ≤ most) (pos fd) xs sp.data_at w.loads sp.here in
      let P : Server × List ℕ → Type 0 = AnswerTo most xs fd inbox Q sp.data_at in
      let next_of : Served → Server = λ v. record s {
        heap = write s.heap a (node v.client (addr sp.after) (addr sp.before));
        ca = some a;
        sdqu = v.sdqu;
      } in
      let ses = lookup-Each IsSession (pos fd) xs sp.data_at w.sessions sp.here in
      rw (looked, is_at, sp.linked.forth.0)
        (Returns-bind (ServedFor sp.data_at inbox Q) _ _ _
          (serve-ServedFor serves price_serves answers fd inbox s.sdqu sp.data_at Q some_fd ne bytes
            w.idle ses (omega (arith, load)) sends)
          (λ v r.
            let same : eq_ℤ v.client.client_id (pos fd) ≡ true =
              ap (λ i. eq_ℤ i (pos fd)) r.same_id ∙ sp.matches in
            let changed =
              changed-IsServer most (total inbox.chunks) s xs fd a v w sp same r.session
                (omega (arith, r.no_more, load)) r.idle in
            elim (Bool-cases v.keep) [
              | inl keeps ↦ Returns-then P v.keep _ _ keeps (
                v,
                r,
                refl,
                subst (IsServer (most + total inbox.chunks) (next_of v))
                    (sym (if_true v.keep _ _ keeps)) changed,
              )
              | inr drops ↦ Returns-else P v.keep _ _ drops (
                  Returns-bind
                    (λ s'.
                      IsServer (most + total inbox.chunks) s'
                        (without id_of (pos fd) (replaced id_of (pos fd) v.client xs)))
                    _ _ _
                    (drop_client-IsServer fuel (most + total inbox.chunks) (next_of v) a
                      (replaced id_of (pos fd) v.client xs) fd some_fd changed refl
                      (omega (
                        arith,
                        length-ids xs,
                        length-ids (replaced id_of (pos fd) v.client xs),
                        ap length (ids-replaced (pos fd) v.client same xs),
                        enough,
                      )))
                    (λ s' w'. (
                      v,
                      r,
                      refl,
                      subst (IsServer (most + total inbox.chunks) s')
                          (without-replaced (pos fd) v.client same xs
                            ∙ sym (if_false v.keep _ _ drops))
                          w',
                    )))
            ]))

  -- A watched descriptor that is ready, on a well-formed server with more fuel than sessions, whose
  -- socket delivers non-empty pieces of bytes: its session is found, gets what it should for the
  -- bytes that have arrived, and is kept or removed with its descriptor; the server stays
  -- well-formed. The allocators serve, `epoll_ctl` removes, the bytes and samples of a session stay
  -- below 2^31, and `sendall` of the replies gives an outcome in `Q`.
  pub on_ready-AnswerTo :
      (fuel most : ℕ) (s : Server) (xs : Sessions) (c : Client) (fd : ℕ) (inbox : Inbox)
      (answers : List Answer) (Q : Outcome → Type 0)
      → IsServer most s xs
      → 0 < fd
      → lookup id_of (pos fd) xs ≡ some c
      → length xs < fuel
      → NonEmpty inbox.chunks
      → IsBytes (joined inbox.chunks)
      → most + total inbox.chunks < 2 ^ 31
      → Sends answers fd (replies (samples c.asset) (taken inbox.end (arrived c inbox))) Q
      → Returns
          (AnswerTo most xs fd inbox Q c)
          (on_ready mem price_mem fuel s fd inbox answers true)
  on_ready-AnswerTo fuel most s xs c fd inbox answers Q w some_fd known enough ne bytes few sends =
      let (a, is_at, sp, same) = found-Spot_of s.heap (pos fd) xs c (whole_list w.place) known in
      subst
        (λ d.
          Returns (AnswerTo most xs fd inbox Q d)
            (on_ready mem price_mem fuel s fd inbox answers true))
        same
        (on_ready-Spot fuel most s xs fd inbox answers Q a w some_fd is_at sp enough ne bytes few (
          subst
            (λ d.
              Sends answers fd (replies (samples d.asset) (taken inbox.end (arrived d inbox))) Q)
            (sym same) sends))

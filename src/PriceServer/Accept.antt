-- ===== src/PriceServer/Accept.antt =====
-- A connection that comes in.
use network_exercises.Common.{
  ℕ, ◌≤◌, ◌<◌, ◌≡◌, refl, sym, ap, subst, ◌∙◌, arith, true, false, [], ◌∷◌, ◌++◌, length, take,
}
use network_exercises.Common.Int.{ℤ, pos, negsuc, leb_ℤ, eq_ℤ}
use network_exercises.Run.{Returns, Returns-bind}
use network_exercises.Memory.{Allocator, Serves}
use network_exercises.Prices.{AssetPrice}
use network_exercises.Prices.Store.{length-samples}
use network_exercises.Prices.Query.{Prices32}
use network_exercises.Messages.Decode.{IsBytes}
use network_exercises.Poll.{fd_accept_and_epoll_add}
use network_exercises.Sessions.{Client, Addresses}
use network_exercises.Sessions.Find.{Sessions}
use network_exercises.Sessions.Add.{GivesFresh, Added, IsNew, add-Added}
use network_exercises.PriceServer.{Server, on_incoming}
use network_exercises.PriceServer.Process.{IsSession, load_of}
use network_exercises.PriceServer.Table.{watches, Each-append, ids-append, AllOnce-append}
use network_exercises.PriceServer.Step.{IsServer}

new-IsSession : (id : ℤ) (c : Client) → IsNew id c → IsSession c
new-IsSession id c n = record {
  asset = n.asset_valid;
  prices32 = subst Prices32 (sym n.no_samples) tt;
  recv_qu = n.recv_valid;
  bytes = subst (λ k. IsBytes (take k c.recv_qu.buf)) (sym n.no_bytes) tt;
}

new-load : (id : ℤ) (c : Client) → IsNew id c → load_of c ≡ 0
new-load id c n =
    omega (arith, n.no_bytes, length-samples c.asset n.asset_valid, ap length n.no_samples)

-- One more session and descriptor.
abbrev pub Accepted : ℤ → ℕ → Server → Sessions → Server → Type 0
Accepted conn most s xs s' =
    (a : ℕ) × (c : Client) × IsNew conn c
    × IsServer most s' (xs ++ (a, c) ∷ [])
    × (s'.watched ≡ s.watched ++ conn ∷ [])

module _ {mem : Allocator ℕ} {price_mem : Allocator AssetPrice} (serves : Serves mem)
    (price_serves : Serves price_mem) (malloc : Addresses) where
  -- A new connection, on a well-formed server with more fuel than sessions, whose descriptor is
  -- positive and not watched yet, with memory at hand: it is watched, it has a session of its own
  -- with nothing in it, and the server stays well-formed.
  pub on_incoming-IsServer :
      (fuel most : ℕ) (s : Server) (xs : Sessions) (conn : ℤ)
      → IsServer most s xs
      → leb_ℤ (pos 1) conn ≡ true
      → watches conn s.watched ≡ false
      → GivesFresh malloc s.heap
      → length xs < fuel
      → Returns (Accepted conn most s xs) (on_incoming mem price_mem malloc fuel s conn true)
  unfolding on_incoming fd_accept_and_epoll_add
  on_incoming-IsServer fuel most s xs conn w positive new fresh enough =
      let accepted : eq_ℤ conn (negsuc 0) ≡ false = ground arith in
      rw accepted (
        Returns-bind (Added conn s.heap xs) _ _ _
          (add-Added serves price_serves malloc fuel s.heap s.ca xs conn positive fresh w.place
            enough)
          (λ (heap, ca) a. (
            a.at_new,
            a.new,
            a.is_new,
            record {
              place = a.place;
              sessions =
                  Each-append IsSession xs a.at_new a.new w.sessions
                    (new-IsSession conn a.new a.is_new);
              loads =
                  Each-append (λ c. load_of c ≤ most) xs a.at_new a.new w.loads
                    (omega (arith, new-load conn a.new a.is_new));
              idle = w.idle;
              known =
                  ids-append xs a.at_new a.new
                  ∙ ap (λ l. l ++ a.new.client_id ∷ []) w.known
                  ∙ ap (λ i. s.watched ++ i ∷ []) a.is_new.same_id;
              once = AllOnce-append conn s.watched w.once new;
            },
            refl,
          )))

-- ===== src/Sessions/Add.antt =====
-- A new session goes to the end of the list.
use network_exercises.Common.{
  ℕ, ◌<◌, ◌≡◌, ◌≢◌, true, refl, sym, ap, subst, ◌∙◌, Option, none, some, [], ◌∷◌, ◌++◌, length,
  arith,
}
use network_exercises.Common.Int.{ℤ, pos, leb_ℤ}
use network_exercises.Run.{ok, assert_some, ◌>>=◌, Returns, Returns-bind, Returns-mono}
use network_exercises.Memory.{Allocator, Serves}
use network_exercises.Queue.{Queue}
use network_exercises.Queue.Valid
use network_exercises.Queue.Pop.{IsFresh, init-IsFresh}
use network_exercises.Prices.{AssetPrice, AssetPrices}
use network_exercises.Prices.Store
use network_exercises.Prices.Store.{init-empty}
use mathlib.Core.Option.{none-ne-some, some-injective}
use network_exercises.Links.{Heap, write, set_prev}
use network_exercises.Links.Linked.{
  addr, IsLinked, IsLinked-ahead, IsLinked-back, onto, node, write-at, write-other,
}
use network_exercises.Links.Walk.{farthest, ahead-farthest, onto-first}
use network_exercises.Links.Append.{
  At, appended, appended-IsLinked, IsLinked-end, onto-onto, onto-append,
}
use network_exercises.Sessions.{Client, Addresses, new_client, init, add, get_end}
use network_exercises.Links.Places.{start-At, IsLinked-At}
use network_exercises.Sessions.Find.{Sessions, length-onto}

-- `malloc` finds an address that is not in use.
abbrev pub GivesFresh : Addresses → Heap Client → Type 0
GivesFresh malloc h = (a : ℕ) × (malloc h ≡ some a) × (h a ≡ none)

-- A session that nothing has been received for.
pub record IsNew (id : ℤ) (c : Client) : Type 0 where
  pub same_id : c.client_id ≡ id
  pub asset_valid : Store.IsValid c.asset
  pub no_samples : Store.samples c.asset ≡ []
  pub recv_valid : Valid.IsValid c.recv_qu
  pub no_bytes : c.recv_qu.size ≡ 0

-- One more session stands behind the others.
pub record Added (id : ℤ) (h : Heap Client) (xs : Sessions) (r : Heap Client × Option ℕ)
    : Type 0 where
  pub at_new : ℕ
  pub new : Client
  pub is_new : IsNew id new
  pub unused : h at_new ≡ none
  pub place : At r.0 r.1 (xs ++ (at_new, new) ∷ [])

-- The whole list with one more node, seen from the node that was the last.
onto-moved :
    (rs zs before : Sessions) (x l y : ℕ × Client)
    → onto zs (x ∷ rs) ≡ l ∷ before
    → onto before (l ∷ y ∷ []) ≡ onto rs (x ∷ zs) ++ y ∷ []
unfolding onto
onto-moved rs zs before x l y e =
    ap (λ k. onto k (y ∷ [])) (sym e)
    ∙ onto-onto (x ∷ rs) zs (y ∷ [])
    ∙ sym (onto-append rs (x ∷ zs) (y ∷ []))

module _ {mem : Allocator ℕ} {price_mem : Allocator AssetPrice} (serves : Serves mem)
    (price_serves : Serves price_mem) (malloc : Addresses) where
  client_of_parts :
      (id : ℤ) (ps : AssetPrices) (qu : Option Queue)
      → Store.IsValid ps × (Store.samples ps ≡ [])
      → IsFresh 512 qu
      → Returns
          (IsNew id)
          (assert_some qu >>= λ q. ok (record { client_id = id; asset = ps; recv_qu = q }))
  client_of_parts id ps none s f = absurd f
  client_of_parts id ps (some qu) s f = record {
    same_id = refl;
    asset_valid = s.0;
    no_samples = s.1;
    recv_valid = f.0;
    no_bytes = f.1;
  }

  new_client-IsNew : (id : ℤ) → Returns (IsNew id) (new_client mem price_mem malloc id)
  unfolding new_client
  new_client-IsNew id =
      Returns-bind (λ ps. Store.IsValid ps × (Store.samples ps ≡ [])) _ _ _
        (init-empty price_serves 16 (omega arith) (omega arith))
        (λ ps s.
          Returns-bind (IsFresh 512) _ _ _ (init-IsFresh 512 serves (omega arith) (omega arith))
            (λ qu f. client_of_parts id ps qu s f))

  -- What `clients_session_init` makes.
  record Made (id : ℤ) (h : Heap Client) (r : Heap Client × ℕ) : Type 0 where
    client : Client
    is_new : IsNew id client
    unused : h r.1 ≡ none
    heap : r.0 ≡ write h r.1 (node client none none)

  init-Made :
      (id : ℤ) (h : Heap Client)
      → leb_ℤ (pos 1) id ≡ true
      → GivesFresh malloc h
      → Returns (Made id h) (init mem price_mem malloc h none id)
  unfolding init
  init-Made id h positive fresh =
      let (a, e, free) = fresh in
      rw (positive, e)
        (Returns-bind (IsNew id) _ _ _ (new_client-IsNew id)
          (λ c n. record { client = c; is_new = n; unused = free; heap = refl }))

  get_end-farthest :
      (fuel : ℕ) (h : Heap Client) (rs : Sessions) (a : ℕ) (d : Client) (zs : Sessions)
      → IsLinked h rs ((a, d) ∷ zs)
      → length zs < fuel
      → get_end fuel h (some a) ≡ ok (farthest a zs)
  unfolding get_end
  get_end-farthest fuel h rs a d zs l enough =
      rw l.forth.0 (ahead-farthest fuel h a zs l.forth.1 enough)

  list_from :
      (l : ℕ) (ys : Sessions) → addr ys ≡ some l → (d : Client) × (t : Sessions) × (ys ≡ (l, d) ∷ t)
  list_from l [] e = absurd (none-ne-some _ e)
  list_from l ((b, d) ∷ t) e = (d, t, ap (λ k. (k, d) ∷ t) (some-injective _ _ e))

  -- A session behind the last one.
  add-behind :
      (fuel : ℕ) (h : Heap Client) (p last : ℕ) (dl : Client) (before : Sessions) (id : ℤ)
      → leb_ℤ (pos 1) id ≡ true
      → GivesFresh malloc h
      → get_end fuel h (some p) ≡ ok last
      → IsLinked h ((last, dl) ∷ before) []
      → Returns
          (λ r.
            (a : ℕ) × (c : Client) × IsNew id c
            × (h a ≡ none)
            × (r.1 ≡ some last)
            × IsLinked r.0 ((last, dl) ∷ before) ((a, c) ∷ []))
          (add fuel mem price_mem malloc h (some p) id)
  unfolding add set_prev
  add-behind fuel h p last dl before id positive fresh reached l =
      rw (positive, reached, l.behind.0)
        (Returns-bind (Made id h) _ _ _ (init-Made id h positive fresh) (λ r m.
          let apart : r.1 ≢ last = λ e. none-ne-some _ (sym m.unused ∙ ap h e ∙ l.behind.0) in
          let stands : write r.0 last (node dl (some r.1) (addr before)) r.1
              ≡ some (node m.client none none) =
            write-other r.0 last _ r.1 apart
            ∙ ap (λ g. g r.1) m.heap
            ∙ write-at h r.1 (node m.client none none) in
          rw stands (
            (
              r.1,
              m.client,
              m.is_new,
              m.unused,
              refl,
              rw m.heap
                  (unfold appended in appended-IsLinked h last dl before r.1 m.client l m.unused),
            ))))

  single :
      (h : Heap Client) (a : ℕ) (c : Client)
      → IsLinked (write h a (node c none none)) [] ((a, c) ∷ [])
  single h a c = record {
    behind = tt;
    forth = (write-at h a (node c none none), tt);
    apart_behind = tt;
    apart_ahead = (tt, tt);
    disjoint = tt;
  }

  add-onto :
      (fuel : ℕ) (h : Heap Client) (id : ℤ) (rs zs : Sessions)
      → leb_ℤ (pos 1) id ≡ true
      → GivesFresh malloc h
      → IsLinked h rs zs
      → (zs ≡ [] → rs ≡ [])
      → length (onto rs zs) < fuel
      → Returns (Added id h (onto rs zs)) (add fuel mem price_mem malloc h (addr zs) id)
  unfolding add
  add-onto fuel h id rs [] positive fresh l inside enough = rw positive (
      Returns-bind (Made id h) _ _ _ (init-Made id h positive fresh) (λ r m. record {
        at_new = r.1;
        new = m.client;
        is_new = m.is_new;
        unused = m.unused;
        place =
            subst (λ k. At r.0 (some r.1) (onto k [] ++ (r.1, m.client) ∷ [])) (sym (inside refl))
              (rw m.heap (unfold onto in start-At _ _ (single h r.1 m.client)));
      }))
  add-onto fuel h id rs ((a, d) ∷ zs) positive fresh l inside enough =
      let few : length zs < fuel = omega (arith, length-onto rs ((a, d) ∷ zs)) in
      let (dl, before, e) =
        list_from (farthest a zs) (onto zs ((a, d) ∷ rs)) (onto-first a d zs rs) in
      let ending : IsLinked h ((farthest a zs, dl) ∷ before) [] =
        subst (λ k. IsLinked h k []) e
          (IsLinked-end h ((a, d) ∷ rs) zs (IsLinked-ahead h a d rs zs l)) in
      Returns-mono _ (Added id h (onto rs ((a, d) ∷ zs))) _
        (add-behind fuel h a (farthest a zs) dl before id positive fresh
          (get_end-farthest fuel h rs a d zs l few) ending)
        (λ r (b, c, n, free, points, linked). record {
          at_new = b;
          new = c;
          is_new = n;
          unused = free;
          place =
              subst (λ q. At r.0 q (onto rs ((a, d) ∷ zs) ++ (b, c) ∷ [])) (sym points)
                (subst (At r.0 (some (farthest a zs)))
                  (onto-moved rs zs before (a, d) (farthest a zs, dl) (b, c) e)
                  (IsLinked-At r.0 before (farthest a zs) dl ((b, c) ∷ [])
                    (IsLinked-back r.0 (farthest a zs) dl before ((b, c) ∷ []) linked)));
        })

  -- `clients_session_add` from any place in a well-formed list of fewer sessions than the fuel, or
  -- from NULL where it is empty, with memory at hand: a session with the identifier and nothing in
  -- it stands behind the others, at an address that was not in use, and the list stays well-formed
  -- with the pointer in it.
  pub add-Added :
      (fuel : ℕ) (h : Heap Client) (p : Option ℕ) (xs : Sessions) (id : ℤ)
      → leb_ℤ (pos 1) id ≡ true
      → GivesFresh malloc h
      → At h p xs
      → length xs < fuel
      → Returns (Added id h xs) (add fuel mem price_mem malloc h p id)
  add-Added fuel h p xs id positive fresh place enough =
      subst (λ q. Returns (Added id h xs) (add fuel mem price_mem malloc h q id)) (sym place.place)
        (subst (λ l. Returns (Added id h l) (add fuel mem price_mem malloc h (addr place.zs) id))
          place.whole
          (add-onto fuel h id place.rs place.zs positive fresh place.linked place.inside
            (omega (arith, ap length place.whole))))

-- ===== src/Prices/Store.antt =====
-- The array of samples: pushing appends, and the check for a duplicate finds every one.
use network_exercises.Common.{
  ℕ, zero, suc, ◌+◌, ◌*◌, ◌%◌, ◌^◌, ◌≤◌, ◌<◌, ◌≡◌, refl, ap, ◌∙◌, true, false, Bool, ◌||◌, inl, inr,
  arith, leb, ltb, List, [], ◌∷◌, ◌++◌, Bool-cases, length, take, drop, length-take, length-set,
  take-set, set, drop_elem, take-kept, take-length,
}
use network_exercises.Common.Int.{ℤ, eq_ℤ}
use network_exercises.Run.{ok, Returns, Returns-bind}
use network_exercises.Memory.{Allocator, Serves, load-ok, assign, add64}
use network_exercises.Prices.{
  AssetPrice, AssetPrices, init, init_data, make_room, push, check_from, duplicate_timestamp_check,
}

-- The arrays that a server meets, and the samples that it may be asked to hold.
abbrev pub limit : ℕ
limit = 2 ^ 48

abbrev pub max_samples : ℕ
max_samples = 2 ^ 31

-- There is always a cell for one more sample.
pub record IsValid (ps : AssetPrices) : Type 0 where
  pub filled : length ps.cells ≡ ps.capacity
  pub small : ps.capacity < limit
  pub room : ps.size < ps.capacity

-- The samples, oldest first.
abbrev pub samples : AssetPrices → List AssetPrice
samples ps = take ps.size ps.cells

pub length-samples : (ps : AssetPrices) → IsValid ps → length (samples ps) ≡ ps.size
length-samples ps v = omega (arith, length-take ps.size ps.cells)

-- A valid array of these samples, so many.
abbrev pub Holds : List AssetPrice → ℕ → AssetPrices → Type 0
Holds l n ps = IsValid ps × (samples ps ≡ l) × (ps.size ≡ n)

-- What `asset_prices_push` has before it writes.
record HasCell (ps ps' : AssetPrices) : Type 0 where
  valid : IsValid ps'
  same_size : ps'.size ≡ ps.size
  room : ps.size + 1 < ps'.capacity
  same_cells : take (length ps.cells) ps'.cells ≡ ps.cells

module _ {mem : Allocator AssetPrice} (serves : Serves mem) where
  -- With memory at hand `asset_prices_init` makes a valid array of no samples.
  pub init-empty :
      (capacity : ℕ)
      → 0 < capacity
      → capacity < limit
      → Returns (λ ps. IsValid ps × (samples ps ≡ [])) (init mem capacity)
  unfolding init init_data
  init-empty capacity h small =
      let (new, e, m) = serves.reallocs [] capacity (omega arith) in
      let positive : ltb 0 capacity ≡ true = ground arith in
      rw positive (rw (serves.mallocs 24) (rw e (omega (arith, m.size), refl)))

  make_room-HasCell :
      (ps : AssetPrices)
      → IsValid ps
      → ps.size + 1 < max_samples
      → Returns (HasCell ps) (make_room mem ps)
  unfolding make_room init_data
  make_room-HasCell ps v few = elim (Bool-cases (leb ps.capacity (add64 ps.size 1))) [
    | inl full ↦
        let (new, e, m) = serves.reallocs ps.cells (ps.capacity * 2 % 2 ^ 64) (omega (arith, v)) in
        let positive : ltb 0 (ps.capacity * 2 % 2 ^ 64) ≡ true = ground (arith, v) in
        let larger : ltb ps.capacity (ps.capacity * 2 % 2 ^ 64) ≡ true = ground (arith, v) in
        let short : ps.capacity ≤ ps.size + 1 = ground (arith, v) in
        rw full (
          rw positive (
            rw larger (
              rw e (record {
                valid = omega (arith, v, m.size);
                same_size = refl;
                room = omega (arith, v);
                same_cells = m.kept;
              }))))
    | inr fits ↦ rw fits (record {
      valid = v;
      same_size = refl;
      room = ground (arith, v);
      same_cells = take-length (length ps.cells) ps.cells (omega arith);
    })
  ]

  -- `asset_prices_push` appends the sample, and keeps the invariant.
  pub push-samples :
      (ps : AssetPrices) (p : AssetPrice)
      → IsValid ps
      → ps.size + 1 < max_samples
      → Returns (Holds (samples ps ++ p ∷ []) (ps.size + 1)) (push mem ps p)
  unfolding push assign
  push-samples ps p v few = Returns-bind (HasCell ps) _ _ _ (make_room-HasCell ps v few) (λ ps' c.
      let inside : ltb ps'.size (length ps'.cells) ≡ true = ground (arith, c.valid) in
      let end : add64 ps'.size 1 ≡ suc ps'.size = omega (arith, c.same_size) in
      rw inside (
        record {
          filled = omega (arith, c.valid, length-set ps'.cells ps'.size p);
          small = omega (arith, c.valid);
          room = omega (arith, c.valid, c.same_size, c.room);
        },
        ap (λ k. take k (set ps'.cells ps'.size p)) end
            ∙ take-set ps'.cells ps'.size p (omega (arith, c.valid))
            ∙ ap (λ l. l ++ p ∷ [])
                (ap (λ k. take k ps'.cells) c.same_size
                  ∙ take-kept ps.size (length ps.cells) ps.cells ps'.cells (omega (arith, v))
                      c.same_cells),
        omega (arith, end, c.same_size),
      ))

-- Some sample has this timestamp.
unfoldable pub has : ℤ → List AssetPrice → Bool
has timestamp [] = false
has timestamp (p ∷ l) = eq_ℤ p.timestamp timestamp || has timestamp l

check_from-has :
    (cells : List AssetPrice) (timestamp : ℤ) (n k : ℕ)
    → k + n ≤ length cells
    → check_from cells timestamp n k ≡ ok (has timestamp (take n (drop k cells)))
unfolding check_from has
check_from-has cells timestamp zero k h = refl
check_from-has cells timestamp (suc n) k h =
    let (p, e, d) = drop_elem cells k (omega arith) in
    rw (load-ok cells k p e, d, check_from-has cells timestamp n (k + 1) (omega arith))
      (ground arith)

-- The check for a duplicate says exactly whether some sample has the timestamp.
pub duplicate_timestamp_check-has :
    (ps : AssetPrices) (timestamp : ℤ)
    → IsValid ps
    → duplicate_timestamp_check ps timestamp ≡ ok (has timestamp (samples ps))
unfolding duplicate_timestamp_check
duplicate_timestamp_check-has ps timestamp v =
    check_from-has ps.cells timestamp ps.size 0 (omega (arith, v))

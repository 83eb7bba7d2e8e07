-- ===== src/Prices/Query.antt =====
-- `asset_prices_query` against its description: the mean price over a period of time.
use network_exercises.Common.{
  ℕ, zero, suc, ◌+◌, ◌-◌, ◌*◌, ◌^◌, ◌≤◌, ◌<◌, ◌≡◌, refl, ap, sym, ◌∙◌, false, Bool, ◌&&◌, inl, inr,
  arith, ◌==◌, List, [], ◌∷◌, Bool-cases, length, take, drop, drop_elem, if◌then◌else◌,
}
use network_exercises.Common.Int.{
  ℤ, pos, pos_part, neg_part, ◌+ℤ◌, +ℤ_le, +ℤ_parts, eq_of_parts, +ℤ_assoc, +ℤ_zero, leb_ℤ,
}
use network_exercises.Common.Words.{IsInt32, to_int32, to_int32_same, div_ℤ, div_ℤ-IsInt32}
use network_exercises.Run.{ok}
use network_exercises.Memory.{load-ok}
use network_exercises.Prices.{
  AssetPrice, AssetPriceQuery, AssetPrices, Tally, int64, count32, add_sample, query_from, query,
}
use network_exercises.Prices.Store.{IsValid, samples, max_samples}

-- The sample's time lies in the period, its ends included.
abbrev pub in_period : AssetPriceQuery → AssetPrice → Bool
in_period pq p = leb_ℤ pq.mintime p.timestamp && leb_ℤ p.timestamp pq.maxtime

-- The prices of the samples in the period.
unfoldable pub selected : AssetPriceQuery → List AssetPrice → List ℤ
selected pq [] = []
selected pq (p ∷ l) = if in_period pq p then p.price ∷ selected pq l else selected pq l

unfoldable pub sum : List ℤ → ℤ
sum [] = pos 0
sum (z ∷ l) = z +ℤ sum l

-- The mean, rounded towards zero; 0 of no prices.
unfoldable pub average : List ℤ → ℤ
average [] = pos 0
average (z ∷ l) = div_ℤ (sum (z ∷ l)) (length (z ∷ l))

-- Every price is an `int32_t`.
abbrev pub Prices32 : List AssetPrice → Type 0
Prices32 [] = Unit {0}
Prices32 (p ∷ l) = IsInt32 p.price × Prices32 l

-- The loop variables after the prices of a list, from earlier values.
abbrev tally : Tally → List ℤ → Tally
tally t l = record { mean = t.mean +ℤ sum l; num_prices = t.num_prices + length l }

-- The sum so far stays within what its count allows.
record Bounded (t : Tally) : Type 0 where
  above : pos_part t.mean ≤ t.num_prices * (2 ^ 31 - 1)
  below : neg_part t.mean ≤ t.num_prices * 2 ^ 31

int64-ok : (z : ℤ) → pos_part z < 2 ^ 63 → neg_part z ≤ 2 ^ 63 → int64 z ≡ ok z
unfolding int64
int64-ok z h l = ground arith

count32-ok : (n : ℕ) → n < 2 ^ 31 → count32 n ≡ ok n
unfolding count32
count32-ok n h = ground arith

Bounded-add :
    (t : Tally) (z : ℤ)
    → Bounded t
    → IsInt32 z
    → Bounded (record { mean = t.mean +ℤ z; num_prices = t.num_prices + 1 })
Bounded-add t z b h = record {
  above = omega (arith, b, h, +ℤ_le t.mean z);
  below = omega (arith, b, h, +ℤ_le t.mean z);
}

-- One round counts the sample exactly when its time lies in the period.
add_sample-in_period :
    (pq : AssetPriceQuery) (p : AssetPrice) (t : Tally)
    → Bounded t
    → IsInt32 p.price
    → t.num_prices + 1 < 2 ^ 31
    → add_sample pq p t
      ≡ ok (
          if in_period pq p
          then record { mean = t.mean +ℤ p.price; num_prices = t.num_prices + 1 }
          else t)
unfolding add_sample
add_sample-in_period pq p t b h few =
    let more = Bounded-add t p.price b h in
    let sum_fits = int64-ok (t.mean +ℤ p.price) (omega (arith, more)) (omega (arith, more)) in
    elim (Bool-cases (in_period pq p)) [
      | inl inside ↦ rw inside (rw sum_fits (rw (count32-ok (t.num_prices + 1) few) refl))
      | inr outside ↦ rw outside
    ]

tally-cons :
    (t : Tally) (z : ℤ) (l : List ℤ)
    → tally (record { mean = t.mean +ℤ z; num_prices = t.num_prices + 1 }) l ≡ tally t (z ∷ l)
unfolding sum
tally-cons t z l = λ i. record { mean = +ℤ_assoc t.mean z (sum l) i; num_prices = add_one_assoc i }
  where
    add_one_assoc : t.num_prices + 1 + length l ≡ t.num_prices + length (z ∷ l)
    add_one_assoc = omega arith

tally-nil : (t : Tally) → t ≡ tally t []
unfolding sum
tally-nil t = λ i. record { mean = sym (+ℤ_zero t.mean) i; num_prices = same i }
  where
    same : t.num_prices ≡ t.num_prices + 0
    same = omega arith

-- The loop adds up the prices of the period, and the sum stays bounded.
query_from-tally :
    (cells : List AssetPrice) (pq : AssetPriceQuery) (n k : ℕ) (t : Tally)
    → k + n ≤ length cells
    → Bounded t
    → Prices32 (take n (drop k cells))
    → t.num_prices + n < 2 ^ 31
    → (query_from cells pq n k t ≡ ok (tally t (selected pq (take n (drop k cells)))))
      × Bounded (tally t (selected pq (take n (drop k cells))))
unfolding query_from selected
query_from-tally cells pq zero k t h b prices few = (ap ok (tally-nil t), rw (← tally-nil t) b)
query_from-tally cells pq (suc n) k t h b prices few =
    let (p, e, d) = drop_elem cells k (omega arith) in
    let all : Prices32 (p ∷ take n (drop (k + 1) cells)) = rw d at prices in
    let step = add_sample-in_period pq p t b all.0 (omega arith) in
    elim (Bool-cases (in_period pq p)) [
      | inl inside ↦
          rw (load-ok cells k p e, d, step, inside)
            (rw (← tally-cons t p.price (selected pq (take n (drop (k + 1) cells)))) (
              query_from-tally cells pq n (k + 1) _ (omega arith) (Bounded-add t p.price b all.0)
                all.1 (omega arith)))
      | inr outside ↦
          rw (load-ok cells k p e, d, step, outside)
            (query_from-tally cells pq n (k + 1) t (omega arith) b all.1 (omega arith))
    ]

abbrev start : Tally
start = record { mean = pos 0; num_prices = 0 }

tally-start : (l : List ℤ) → tally start l ≡ record { mean = sum l; num_prices = length l }
tally-start l = λ i. record { mean = left i; num_prices = count i }
  where
    left : pos 0 +ℤ sum l ≡ sum l
    left = eq_of_parts (pos 0 +ℤ sum l) (sum l) (omega (arith, +ℤ_parts (pos 0) (sum l)))

    count : 0 + length l ≡ length l
    count = omega arith

-- What the function makes of the loop's variables.
abbrev result : Tally → ℤ
result t = if t.num_prices == 0 then pos 0 else to_int32 (div_ℤ t.mean t.num_prices)

result-average : (l : List ℤ) → Bounded (tally start l) → result (tally start l) ≡ average l
unfolding average
result-average [] b = refl
result-average (z ∷ l) b =
    let b' : Bounded (record { mean = sum (z ∷ l); num_prices = length (z ∷ l) }) =
      rw tally-start at b in
    let nonzero : (length (z ∷ l) == 0) ≡ false = ground arith in
    ap result (tally-start (z ∷ l))
    ∙ rw nonzero (
        to_int32_same (div_ℤ (sum (z ∷ l)) (length (z ∷ l)))
          (div_ℤ-IsInt32 (sum (z ∷ l)) (length (z ∷ l)) b'.above b'.below))

-- `asset_prices_query` on a valid array of fewer than `max_samples` samples with 32-bit prices
-- returns the mean of the prices whose time lies in the period, rounded towards zero, and 0 if there
-- is none; neither the sum nor the count overflows.
pub query-average :
    (ps : AssetPrices) (pq : AssetPriceQuery)
    → IsValid ps
    → ps.size < max_samples
    → Prices32 (samples ps)
    → query ps pq ≡ ok (average (selected pq (samples ps)))
unfolding query average selected
query-average ps pq v few prices = elim (Bool-cases (ps.size == 0)) [
  | inl none_yet ↦
      let z : ps.size ≡ 0 = ground arith in
      let nothing : samples ps ≡ [] = ap (λ k. take k ps.cells) z in rw (none_yet, nothing)
  | inr some_yet ↦
      let (e, b) =
        query_from-tally ps.cells pq ps.size 0 start (omega (arith, v)) (omega arith) prices
          (omega arith) in
      rw (some_yet, e) (ap ok (result-average (selected pq (samples ps)) b))
]

-- ===== src/Prices.antt =====
-- c/source/means-to-an-end/asset-prices.c and asset-prices.h: the price samples of one client.
pub mod Query
pub mod Store
mod Tests
use network_exercises.Common.{
  ℕ, zero, suc, ◌+◌, ◌-◌, ◌*◌, ◌%◌, ◌^◌, Bool, true, false, List, [], Option, none, some, ◌&&◌, leb,
  ltb, ◌==◌, if◌then◌else◌,
}
use network_exercises.Common.Int.{ℤ, pos, pos_part, neg_part, ◌+ℤ◌, leb_ℤ, eq_ℤ}
use network_exercises.Common.Words.{to_int32, div_ℤ}
use network_exercises.Run.{Run, ok, aborted, undefined, ◌>>=◌, ◌>>◌, assert, assert_some}
use network_exercises.Memory.{Allocator, load, assign, add64}

-- `struct asset_price`
pub record AssetPrice : Type 0 where
  pub timestamp : ℤ
  pub price : ℤ

-- `struct asset_price_query`
pub record AssetPriceQuery : Type 0 where
  pub mintime : ℤ
  pub maxtime : ℤ

-- `struct asset_prices`
pub record AssetPrices : Type 0 where
  pub cells : List AssetPrice
  pub size : ℕ
  pub capacity : ℕ

pub init_data : Allocator AssetPrice → AssetPrices → ℕ → Run AssetPrices
init_data mem ps capacity = do
  assert (ltb 0 capacity)
  assert (ltb ps.capacity capacity)
  new_data ← assert_some (mem.realloc ps.cells capacity)
  ok (record ps { cells = new_data; capacity = capacity })

-- `sizeof(struct asset_prices)` is 24.
pub init : Allocator AssetPrice → ℕ → Run AssetPrices
unfolding init_data
init mem capacity = do
  assert (ltb 0 capacity)
  assert (mem.malloc 24)
  ps ← init_data mem (record { cells = []; size = 0; capacity = 0 }) capacity
  ok (record ps { size = 0 })

-- What `*pps` is afterwards. The cells of samples that are there are allocated, so they are not NULL.
pub free : Option AssetPrices → Run (Option AssetPrices)
free none = aborted
free (some ps) = ok none

-- The test that comes first in `asset_prices_push`.
make_room : Allocator AssetPrice → AssetPrices → Run AssetPrices
make_room mem ps =
    if leb ps.capacity (add64 ps.size 1) then init_data mem ps (ps.capacity * 2 % 2 ^ 64) else ok ps

pub push : Allocator AssetPrice → AssetPrices → AssetPrice → Run AssetPrices
unfolding init_data make_room
push mem ps sample = do
  ps' ← make_room mem ps
  cells ← assign ps'.cells ps'.size sample
  ok (record ps' { cells = cells; size = add64 ps'.size 1 })

-- The loop over `k`, with the rounds that are left.
check_from : List AssetPrice → ℤ → (rounds k : ℕ) → Run Bool
check_from cells timestamp zero k = ok false
check_from cells timestamp (suc n) k =
    let next = check_from cells timestamp n (k + 1) in
    do p ← load cells k; if eq_ℤ p.timestamp timestamp then ok true else next

pub duplicate_timestamp_check : AssetPrices → ℤ → Run Bool
unfolding check_from
duplicate_timestamp_check ps timestamp = check_from ps.cells timestamp ps.size 0

-- A signed result has to fit its type: `int64_t` for the sum, `int32_t` for the count.
pub int64 : ℤ → Run ℤ
int64 z = if ltb (pos_part z) (2 ^ 63) && leb (neg_part z) (2 ^ 63) then ok z else undefined

pub count32 : ℕ → Run ℕ
count32 n = if ltb n (2 ^ 31) then ok n else undefined

-- The two variables that the loop of `asset_prices_query` updates.
pub record Tally : Type 0 where
  pub mean : ℤ
  pub num_prices : ℕ

-- One round: the sample is counted if its time lies in the period.
add_sample : AssetPriceQuery → AssetPrice → Tally → Run Tally
add_sample pq p t =
    if leb_ℤ pq.mintime p.timestamp && leb_ℤ p.timestamp pq.maxtime
    then (do
      mean ← int64 (t.mean +ℤ p.price)
      num ← count32 (t.num_prices + 1)
      ok (record { mean = mean; num_prices = num }))
    else ok t

query_from : List AssetPrice → AssetPriceQuery → (rounds k : ℕ) → Tally → Run Tally
query_from cells pq zero k t = ok t
query_from cells pq (suc n) k t = do
  p ← load cells k
  t' ← add_sample pq p t
  query_from cells pq n (k + 1) t'

pub query : AssetPrices → AssetPriceQuery → Run ℤ
unfolding query_from add_sample int64 count32
query ps pq = if ps.size == 0 then ok (pos 0) else do
  t ← query_from ps.cells pq ps.size 0 (record { mean = pos 0; num_prices = 0 })
  ok (if t.num_prices == 0 then pos 0 else to_int32 (div_ℤ t.mean t.num_prices))

-- ===== src/Prices/Tests.antt =====
-- Runs of the price samples, and the theorems at them.
use network_exercises.Common.{◌≡◌, arith, [], ◌∷◌}
use network_exercises.Common.Int.{ℤ, pos, negsuc, ◌+ℤ◌}
use network_exercises.Common.Words.{div_ℤ}
use network_exercises.Run.{ok, Returns}
use network_exercises.Memory.{Allocator}
use network_exercises.Memory.Growing.{growing, growing-Serves}
use network_exercises.Prices.{AssetPrice, AssetPriceQuery, AssetPrices, push, query}
use network_exercises.Prices.Store.{IsValid, Holds, push-samples}
use network_exercises.Prices.Query.{average, selected, sum, query-average}

abbrev sample : ℤ → ℤ → AssetPrice
sample t p = record { timestamp = t; price = p }

abbrev mem : Allocator AssetPrice
mem = growing (sample (pos 0) (pos 0))

-- Three samples, and one cell left.
abbrev three : AssetPrices
three = record {
  cells =
      sample (pos 10) (pos 100)
      ∷ sample (pos 20) (negsuc 204)
      ∷ sample (pos 30) (pos 7)
      ∷ sample (pos 0) (pos 0)
      ∷ [];
  size = 3;
  capacity = 4;
}

abbrev early : AssetPriceQuery
early = record { mintime = pos 5; maxtime = pos 20 }

three-IsValid : IsValid three
three-IsValid = omega arith

push-samples_example :
    Returns
      (Holds
        (sample (pos 10) (pos 100)
          ∷ sample (pos 20) (negsuc 204)
          ∷ sample (pos 30) (pos 7)
          ∷ sample (pos 40) (pos 1)
          ∷ [])
        4)
      (push mem three (sample (pos 40) (pos 1)))
push-samples_example =
    push-samples (growing-Serves (sample (pos 0) (pos 0))) three (sample (pos 40) (pos 1))
      three-IsValid (omega arith)

-- (100 - 205) / 2, rounded towards zero.
query-average_example : query three early ≡ ok (negsuc 51)
unfolding average selected sum ◌+ℤ◌ div_ℤ
query-average_example = query-average three early three-IsValid (omega arith) (omega arith)

-- ===== src/Messages/Tests.antt =====
-- A session of one client, and the theorem about its requests at it.
use network_exercises.Common.{ℕ, refl, arith, List, [], ◌∷◌, ◌++◌, replicate}
use network_exercises.Common.Int.{pos}
use network_exercises.Run.{Returns}
use network_exercises.Memory.Growing.{growing, growing-Serves}
use network_exercises.Prices.{AssetPrice}
use network_exercises.Messages.{Session, message_parse, message_query, message_insert}
use network_exercises.Messages.Wire.{Message, encode_all}
use network_exercises.Prices.Store.{samples}
use network_exercises.Messages.Unique.{Unique, message_parse-Unique}
use network_exercises.Messages.Replies.{HandledAll, message_parse-HandledAll}

abbrev blank : AssetPrice
blank = record { timestamp = pos 0; price = pos 0 }

abbrev fresh : Session
fresh = record {
  prices = record { cells = replicate 4 blank; size = 0; capacity = 4 };
  sdqu = record { buf = replicate 8 0; capacity = 8; size = 0; free_capacity = 8; head = 0 };
}

abbrev message : ℕ → ℕ → ℕ → Message
message k a b = record { kind = k; first_word = a; second_word = b }

-- Two insertions at one time, of which the first wins, an unknown message, and a query.
abbrev script : List Message
script =
    message message_insert 12345 101
    ∷ message message_insert 12345 102
    ∷ message 0x58 1 2
    ∷ message message_query 12288 16384
    ∷ []

message_parse-HandledAll_example :
    Returns
      (HandledAll fresh script)
      (message_parse (growing 0) (growing blank) fresh (encode_all script ++ 7 ∷ 7 ∷ []) 38)
message_parse-HandledAll_example =
    message_parse-HandledAll (growing-Serves 0) (growing-Serves blank) fresh script (7 ∷ 7 ∷ []) 38
      (omega arith) (omega arith) (omega arith) refl (omega arith) (omega arith)

message_parse-Unique_example :
    Returns
      (λ s. Unique (samples s.prices))
      (message_parse (growing 0) (growing blank) fresh (encode_all script ++ 7 ∷ 7 ∷ []) 38)
message_parse-Unique_example =
    message_parse-Unique (growing-Serves 0) (growing-Serves blank) fresh script (7 ∷ 7 ∷ []) 38
      (omega arith) tt (omega arith) (omega arith) refl (omega arith) (omega arith)

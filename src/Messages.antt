-- ===== src/Messages.antt =====
-- c/source/means-to-an-end/messages.c and messages.h: the requests of one client, nine bytes each.
pub mod Wire
pub mod Meaning
pub mod Replies
pub mod Unique
pub mod Decode
pub mod Split
mod Tests
use network_exercises.Common.{
  ℕ, zero, suc, ◌+◌, ◌*◌, ◌/◌, ◌%◌, ◌^◌, Bool, true, false, List, [], ◌∷◌, ltb, ◌==◌, if◌then◌else◌,
}
use network_exercises.Common.Words.{signed32, word32}
use network_exercises.Run.{Run, ok, ◌>>=◌, ◌>>◌, assert}
use network_exercises.Memory.{Allocator, load}
use network_exercises.Queue
use network_exercises.Queue.{Queue}
use network_exercises.Prices
use network_exercises.Prices.{AssetPrice, AssetPriceQuery, AssetPrices}

abbrev pub message_size : ℕ
message_size = 9

abbrev pub message_insert : ℕ
message_insert = b'I'

abbrev pub message_query : ℕ
message_query = b'Q'

-- `ntohl` of the four bytes at an offset.
pub load32 : List ℕ → ℕ → Run ℕ
load32 buf at = do
  b3 ← load buf at
  b2 ← load buf (at + 1)
  b1 ← load buf (at + 2)
  b0 ← load buf (at + 3)
  ok (((b3 * 256 + b2) * 256 + b1) * 256 + b0)

-- The four bytes in memory of `htonl(w)`.
unfoldable pub bytes32 : ℕ → List ℕ
bytes32 w = w / 2 ^ 24 % 256 ∷ w / 2 ^ 16 % 256 ∷ w / 2 ^ 8 % 256 ∷ w % 256 ∷ []

-- The samples and the queue of replies.
pub record Session : Type 0 where
  pub prices : AssetPrices
  pub sdqu : Queue

module _ (mem : Allocator ℕ) (price_mem : Allocator AssetPrice) where
  answer_query : Session → (first second : ℕ) → Run Session
  unfolding bytes32
  answer_query s first second = do
    mean ← Prices.query s.prices (record { mintime = signed32 first; maxtime = signed32 second })
    sdqu ← Queue.push mem s.sdqu (bytes32 (word32 mean)) 4
    ok (record s { sdqu = sdqu })

  insert_price : Session → (first second : ℕ) → Run Session
  insert_price s first second = do
    found ← Prices.duplicate_timestamp_check s.prices (signed32 first)
    if found then ok s else (do
      prices ←
          Prices.push price_mem s.prices
            (record { timestamp = signed32 first; price = signed32 second })
      ok (record s { prices = prices }))

  -- The body of the loop, `switch` included.
  parse_one : List ℕ → ℕ → Session → Run Session
  unfolding load32 answer_query insert_price
  parse_one buf pd s = do
    kind ← load buf pd
    if kind == message_query
        then (do
          first ← load32 buf (pd + 1)
          second ← load32 buf (pd + 5)
          answer_query s first second)
        else if kind == message_insert
        then (do
          first ← load32 buf (pd + 1)
          second ← load32 buf (pd + 5)
          insert_price s first second)
        else ok s

  parse_from : List ℕ → (rounds pd : ℕ) → Session → Run Session
  unfolding parse_one
  parse_from buf zero pd s = ok s
  parse_from buf (suc n) pd s = do s' ← parse_one buf pd s; parse_from buf n (pd + message_size) s'

  pub message_parse : Session → List ℕ → ℕ → Run Session
  unfolding parse_from
  message_parse s buf dsize = do assert (ltb 0 dsize); parse_from buf (dsize / message_size) 0 s

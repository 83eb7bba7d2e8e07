-- ===== src/Messages/Meaning.antt =====
-- What a request means, apart from buffers and arrays: the samples it leaves, the bytes it sends.
use network_exercises.Common.{List, [], ◌∷◌, ◌++◌, ◌==◌, if◌then◌else◌, ℕ}
use network_exercises.Common.Words.{signed32, word32}
use network_exercises.Prices.{AssetPrice}
use network_exercises.Prices.Store.{has}
use network_exercises.Prices.Query.{selected, average}
use network_exercises.Messages.{bytes32, message_query, message_insert}
use network_exercises.Messages.Wire.{Message}

-- An insertion stores a sample unless its timestamp is taken; the first one wins.
unfoldable pub insert : List AssetPrice → Message → List AssetPrice
insert l m =
    if has (signed32 m.first_word) l
    then l
    else l ++ record { timestamp = signed32 m.first_word; price = signed32 m.second_word } ∷ []

unfoldable pub store : List AssetPrice → Message → List AssetPrice
unfolding insert
store l m =
    if m.kind == message_query then l else if m.kind == message_insert then insert l m else l

-- A query is answered by the mean price of its period, in network byte order.
unfoldable pub answer : List AssetPrice → Message → List ℕ
answer l m = bytes32 (
    word32 (
      average (
        selected (record { mintime = signed32 m.first_word; maxtime = signed32 m.second_word }) l)))

unfoldable pub reply : List AssetPrice → Message → List ℕ
unfolding answer
reply l m = if m.kind == message_query then answer l m else []

unfoldable pub store_all : List AssetPrice → List Message → List AssetPrice
store_all l [] = l
store_all l (m ∷ ms) = store_all (store l m) ms

-- Each query sees the insertions before it.
unfoldable pub replies : List AssetPrice → List Message → List ℕ
replies l [] = []
replies l (m ∷ ms) = reply l m ++ replies (store l m) ms

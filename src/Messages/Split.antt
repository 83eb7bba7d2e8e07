-- ===== src/Messages/Split.antt =====
-- Requests that come in two parts mean what they mean together.
use network_exercises.Common.{
  ℕ, ◌%◌, ◌≡◌, refl, sym, ap, ◌∙◌, arith, List, [], ◌∷◌, ◌++◌, length, append_assoc,
}
use network_exercises.Prices.{AssetPrice}
use network_exercises.Messages.Wire.{Message}
use network_exercises.Messages.Decode.{decode, word_of}
use network_exercises.Messages.Meaning.{store, store_all, reply, replies}

pub decode-append : (a b : List ℕ) → length a % 9 ≡ 0 → decode (a ++ b) ≡ decode a ++ decode b
unfolding decode
decode-append [] b n = refl
decode-append (k ∷ a1 ∷ a2 ∷ a3 ∷ a4 ∷ a5 ∷ a6 ∷ a7 ∷ a8 ∷ rest) b n =
    ap
      (λ l.
        record { kind = k; first_word = word_of a1 a2 a3 a4; second_word = word_of a5 a6 a7 a8 }
        ∷ l)
      (decode-append rest b (omega arith))
decode-append _ b n = absurd (omega arith)

pub store_all-append :
    (l : List AssetPrice) (ms ns : List Message)
    → store_all l (ms ++ ns) ≡ store_all (store_all l ms) ns
unfolding store_all
store_all-append l [] ns = refl
store_all-append l (m ∷ ms) ns = store_all-append (store l m) ms ns

pub replies-append :
    (l : List AssetPrice) (ms ns : List Message)
    → replies l (ms ++ ns) ≡ replies l ms ++ replies (store_all l ms) ns
unfolding replies store_all
replies-append l [] ns = refl
replies-append l (m ∷ ms) ns =
    ap (λ r. reply l m ++ r) (replies-append (store l m) ms ns)
    ∙ sym
        (append_assoc (reply l m) (replies (store l m) ms) (replies (store_all (store l m) ms) ns))

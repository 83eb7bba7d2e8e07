-- ===== src/Messages/Wire.antt =====
-- Messages as bytes: `struct message` in network byte order, and what the loop reads of it.
use network_exercises.Common.{
  ℕ, ◌+◌, ◌*◌, ◌/◌, ◌%◌, ◌^◌, ◌<◌, ◌≡◌, refl, ap, ◌∙◌, arith, List, [], ◌∷◌, ◌++◌, some, length,
  get_elem?, get_elem?-append,
}
use network_exercises.Run.{ok}
use network_exercises.Memory.{load, load-ok}
use network_exercises.Messages.{load32, bytes32}

-- `struct message`
pub record Message : Type 0 where
  pub kind : ℕ
  pub first_word : ℕ
  pub second_word : ℕ

abbrev pub IsMessage : Message → Type 0
IsMessage m = (m.first_word < 2 ^ 32) × (m.second_word < 2 ^ 32)

abbrev pub All : (Message → Type 0) → List Message → Type 0
All P [] = Unit {0}
All P (m ∷ ms) = P m × All P ms

-- The nine bytes of a message on the wire.
unfoldable pub encode : Message → List ℕ
unfolding bytes32
encode m = m.kind ∷ (bytes32 m.first_word ++ bytes32 m.second_word)

unfoldable pub encode_all : List Message → List ℕ
encode_all [] = []
encode_all (m ∷ ms) = encode m ++ encode_all ms

load32_lem :
    (buf : List ℕ) (at a b c d : ℕ)
    → get_elem? buf at ≡ some a
    → get_elem? buf (at + 1) ≡ some b
    → get_elem? buf (at + 2) ≡ some c
    → get_elem? buf (at + 3) ≡ some d
    → load32 buf at ≡ ok (((a * 256 + b) * 256 + c) * 256 + d)
unfolding load32
load32_lem buf at a b c d p q r s =
    rw (load-ok buf at a p, load-ok buf (at + 1) b q, load-ok buf (at + 2) c r)
      (rw (load-ok buf (at + 3) d s) refl)

-- The four bytes of a word are read back as the word.
bytes32_value :
    (w : ℕ)
    → w < 2 ^ 32
    → ((w / 2 ^ 24 % 256 * 256 + w / 2 ^ 16 % 256) * 256 + w / 2 ^ 8 % 256) * 256 + w % 256 ≡ w
bytes32_value w h = omega arith

get_elem?-at :
    (before ys : List ℕ) (pd i j : ℕ)
    → length before ≡ pd
    → j ≡ pd + i
    → get_elem? (before ++ ys) j ≡ get_elem? ys i
get_elem?-at before ys pd i j h e =
    ap (get_elem? (before ++ ys)) e ∙ get_elem?-append before ys pd i h

-- What the loop reads at a message: its type and its two words.
pub record ReadsAs (buf : List ℕ) (pd : ℕ) (m : Message) : Type 0 where
  pub kind : load buf pd ≡ ok m.kind
  pub first_word : load32 buf (pd + 1) ≡ ok m.first_word
  pub second_word : load32 buf (pd + 5) ≡ ok m.second_word

-- Reading where a message was encoded gives the message.
pub encode-ReadsAs :
    (before after : List ℕ) (pd : ℕ) (m : Message)
    → length before ≡ pd
    → IsMessage m
    → ReadsAs (before ++ (encode m ++ after)) pd m
unfolding encode bytes32
encode-ReadsAs before after pd m h w = record {
  kind = load-ok buf pd m.kind (byte 0 pd (omega arith));
  first_word =
      load32_lem buf (pd + 1) _ _ _ _ (byte 1 (pd + 1) (omega arith))
        (byte 2 (pd + 1 + 1) (omega arith)) (byte 3 (pd + 1 + 2) (omega arith))
        (byte 4 (pd + 1 + 3) (omega arith))
      ∙ ap ok (bytes32_value m.first_word w.0);
  second_word =
      load32_lem buf (pd + 5) _ _ _ _ (byte 5 (pd + 5) (omega arith))
        (byte 6 (pd + 5 + 1) (omega arith)) (byte 7 (pd + 5 + 2) (omega arith))
        (byte 8 (pd + 5 + 3) (omega arith))
      ∙ ap ok (bytes32_value m.second_word w.1);
}
  where
    buf : List ℕ
    buf = before ++ (encode m ++ after)

    byte : (i j : ℕ) → j ≡ pd + i → get_elem? buf j ≡ get_elem? (encode m ++ after) i
    byte i j e = get_elem?-at before (encode m ++ after) pd i j h e

pub length-encode : (m : Message) → length (encode m) ≡ 9
unfolding encode bytes32
length-encode m = refl

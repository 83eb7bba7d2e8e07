-- ===== src/Messages/Decode.antt =====
-- Bytes as messages: any bytes in groups of nine are the wire form of messages.
use network_exercises.Common.{
  ℕ, ◌+◌, ◌*◌, ◌/◌, ◌%◌, ◌^◌, ◌<◌, ◌≡◌, refl, ap, ap₂, ◌∙◌, arith, List, [], ◌∷◌, ◌++◌, length,
}
use network_exercises.Messages.{bytes32}
use network_exercises.Messages.Wire.{Message, IsMessage, All, encode, encode_all}

abbrev pub IsBytes : List ℕ → Type 0
IsBytes [] = Unit {0}
IsBytes (b ∷ bs) = (b < 256) × IsBytes bs

abbrev pub word_of : ℕ → ℕ → ℕ → ℕ → ℕ
word_of a b c d = ((a * 256 + b) * 256 + c) * 256 + d

-- The messages of the groups of nine bytes; fewer at the end are none.
unfoldable pub decode : List ℕ → List Message
decode (k ∷ a ∷ b ∷ c ∷ d ∷ e ∷ f ∷ g ∷ h ∷ rest) =
    record { kind = k; first_word = word_of a b c d; second_word = word_of e f g h } ∷ decode rest
decode _ = []

bytes32-word_of :
    (a b c d : ℕ)
    → a < 256
    → b < 256
    → c < 256
    → d < 256
    → bytes32 (word_of a b c d) ≡ a ∷ b ∷ c ∷ d ∷ []
unfolding bytes32
bytes32-word_of a b c d p q r s =
    let w0 : word_of a b c d / 2 ^ 24 % 256 ≡ a = omega arith in
    let w1 : word_of a b c d / 2 ^ 16 % 256 ≡ b = omega arith in
    let w2 : word_of a b c d / 2 ^ 8 % 256 ≡ c = omega arith in
    let w3 : word_of a b c d % 256 ≡ d = omega arith in cc

-- Bytes in whole groups of nine decode to messages, one for each group, whose encoding they are.
pub encode_all-decode :
    (bs : List ℕ)
    → IsBytes bs
    → length bs % 9 ≡ 0
    → (encode_all (decode bs) ≡ bs)
      × All IsMessage (decode bs)
      × (length bs ≡ 9 * length (decode bs))
unfolding encode_all decode encode
encode_all-decode [] w n = (refl, tt, refl)
encode_all-decode (k ∷ a ∷ b ∷ c ∷ d ∷ e ∷ f ∷ g ∷ h ∷ rest) w n =
    let (same, messages, count) = encode_all-decode rest w.1.1.1.1.1.1.1.1.1 (omega arith) in
    let first = bytes32-word_of a b c d (omega arith) (omega arith) (omega arith) (omega arith) in
    let second = bytes32-word_of e f g h (omega arith) (omega arith) (omega arith) (omega arith) in
    (
      ap (λ l. k ∷ l)
          (ap₂ (λ l m. (l ++ m) ++ encode_all (decode rest)) first second
            ∙ ap (λ l. a ∷ b ∷ c ∷ d ∷ e ∷ f ∷ g ∷ h ∷ l) same),
      ((omega arith, omega arith), messages),
      omega (arith, count),
    )
encode_all-decode _ w n = absurd (omega arith)

-- ===== src/PriceServer/Streams.antt =====
-- What of a connection's bytes has been answered.
use network_exercises.Common.{
  ℕ, ◌%◌, ◌≡◌, refl, sym, ap, ap₂, ◌∙◌, arith, Bool, true, false, ◌||◌, inl, inr, List, [], ◌++◌,
  length, length-append, append_assoc, append-nil, Bool-cases, ◌==◌,
}
use network_exercises.Prices.{AssetPrice}
use network_exercises.Messages.Meaning.{store_all, replies}
use network_exercises.Messages.Decode.{decode}
use network_exercises.Messages.Split.{decode-append, store_all-append, replies-append}
use network_exercises.Net.{End}
use network_exercises.PriceServer.Serve.{taken, waiting}
use network_exercises.Net.Streams.{is_failed}

-- What was sent answers the front of the bytes, and the rest waits. All the bytes are answered where
-- they are whole groups, unless receiving failed.
pub record Told (bytes out : List ℕ) (failed : Bool) : Type 0 where
  pub handled : List ℕ
  pub pending : List ℕ
  pub whole : bytes ≡ handled ++ pending
  pub groups : length handled % 9 ≡ 0
  pub answered : out ≡ replies [] (decode handled)
  pub complete : failed ≡ false → length pending % 9 ≡ 0 → pending ≡ []

pub nothing-Told : Told [] [] false
unfolding decode replies
nothing-Told = record {
  handled = [];
  pending = [];
  whole = refl;
  groups = refl;
  answered = refl;
  complete = λ _ _. refl;
}

-- The bytes that are handled of those that wait.
record Cut (end : End) (bytes : List ℕ) : Type 0 where
  front : List ℕ
  whole : bytes ≡ front ++ waiting end bytes
  groups : length front % 9 ≡ 0
  messages : decode front ≡ taken end bytes
  complete : is_failed end ≡ false → length (waiting end bytes) % 9 ≡ 0 → waiting end bytes ≡ []

Cut-nothing :
    (end : End) (bytes : List ℕ)
    → waiting end bytes ≡ bytes
    → taken end bytes ≡ []
    → (is_failed end ≡ false → (length bytes % 9 == 0) ≡ false)
    → Cut end bytes
unfolding decode
Cut-nothing end bytes all_wait none_taken part = record {
  front = [];
  whole = sym all_wait;
  groups = refl;
  messages = sym none_taken;
  complete = λ well n. absurd (ground (arith, part well, ap (λ l. length l % 9) all_wait));
}

Cut-all :
    (end : End) (bytes : List ℕ)
    → waiting end bytes ≡ []
    → taken end bytes ≡ decode bytes
    → (length bytes % 9 == 0) ≡ true
    → Cut end bytes
Cut-all end bytes none_waits all_taken groups = record {
  front = bytes;
  whole = sym (ap (λ l. bytes ++ l) none_waits ∙ append-nil bytes);
  groups = ground (arith, groups);
  messages = sym all_taken;
  complete = λ _ _. none_waits;
}

cut : (end : End) (bytes : List ℕ) → Cut end bytes
cut End.failed bytes = Cut-nothing End.failed bytes refl refl (λ e. absurd (cc))
cut End.closed bytes = elim (Bool-cases (length bytes % 9 == 0)) [
  | inl groups ↦ Cut-all End.closed bytes (rw groups) (rw groups) groups
  | inr part ↦ Cut-nothing End.closed bytes (rw part) (rw part) (λ _. part)
]
cut End.would_block bytes = elim (Bool-cases (length bytes % 9 == 0)) [
  | inl groups ↦ Cut-all End.would_block bytes (rw groups) (rw groups) groups
  | inr part ↦ Cut-nothing End.would_block bytes (rw part) (rw part) (λ _. part)
]

-- What a session knows of its connection.
abbrev pub Follows : List ℕ → List ℕ → Bool → List AssetPrice → List ℕ → Type 0
Follows bytes out failed stored waits =
    (t : Told bytes out failed) × (stored ≡ store_all [] (decode t.handled)) × (waits ≡ t.pending)

pub Follows-nothing :
    (stored : List AssetPrice) (waits : List ℕ)
    → stored ≡ []
    → waits ≡ []
    → Follows [] [] false stored waits
unfolding nothing-Told decode store_all
Follows-nothing stored waits none_stored none_waits = (nothing-Told, none_stored, none_waits)

-- An event of the connection.
pub Follows-ready :
    (bytes out : List ℕ) (failed : Bool) (stored : List AssetPrice) (waits new : List ℕ) (end : End)
    → Follows bytes out failed stored waits
    → Follows
        (bytes ++ new)
        (out ++ replies stored (taken end (waits ++ new)))
        (is_failed end || failed)
        (store_all stored (taken end (waits ++ new)))
        (waiting end (waits ++ new))
Follows-ready bytes out failed stored waits new end (t, same, there) =
    let c = cut end (waits ++ new) in
    let more : decode (t.handled ++ c.front) ≡ decode t.handled ++ taken end (waits ++ new) =
      decode-append t.handled c.front t.groups ∙ ap (λ l. decode t.handled ++ l) c.messages in
    (
      record {
        handled = t.handled ++ c.front;
        pending = waiting end (waits ++ new);
        whole =
            ap (λ l. l ++ new) t.whole
            ∙ append_assoc t.handled t.pending new
            ∙ ap (λ l. t.handled ++ (l ++ new)) (sym there)
            ∙ ap (λ l. t.handled ++ l) c.whole
            ∙ sym (append_assoc t.handled c.front (waiting end (waits ++ new)));
        groups = omega (arith, length-append t.handled c.front, t.groups, c.groups);
        answered =
            ap₂ (λ l k. l ++ replies k (taken end (waits ++ new))) t.answered same
            ∙ sym (replies-append [] (decode t.handled) (taken end (waits ++ new)))
            ∙ ap (replies []) (sym more);
        complete = λ well n. c.complete (ground (arith, well)) n;
      },
      ap (λ l. store_all l (taken end (waits ++ new))) same
          ∙ sym (store_all-append [] (decode t.handled) (taken end (waits ++ new)))
          ∙ ap (store_all []) (sym more),
      refl,
    )

-- Where all the bytes are whole groups, what was sent is the replies to all of them.
pub Told-replies :
    (bytes out : List ℕ) (failed : Bool)
    → Told bytes out failed
    → failed ≡ false
    → length bytes % 9 ≡ 0
    → out ≡ replies [] (decode bytes)
Told-replies bytes out failed t well groups =
    let none_waits : t.pending ≡ [] =
      t.complete well
        (omega (arith, ap length t.whole, length-append t.handled t.pending, groups, t.groups)) in
    t.answered
    ∙ ap (λ l. replies [] (decode l))
        (sym (t.whole ∙ ap (λ l. t.handled ++ l) none_waits ∙ append-nil t.handled))

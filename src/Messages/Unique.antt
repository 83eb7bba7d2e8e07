-- ===== src/Messages/Unique.antt =====
-- No two samples of a client share a timestamp.
use network_exercises.Common.{
  ℕ, ◌+◌, ◌*◌, ◌/◌, ◌<◌, ◌≡◌, refl, sym, subst, arith, Bool, true, false, inl, inr, List, [], ◌∷◌,
  ◌++◌, ◌||◌, length, Bool-cases, ◌==◌,
}
use network_exercises.Common.Int.{ℤ, eq_ℤ}
use network_exercises.Common.Words.{signed32}
use network_exercises.Run.{Returns, Returns-mono}
use network_exercises.Memory.{Allocator, Serves}
use network_exercises.Queue.Valid.{max_bytes}
use network_exercises.Prices.{AssetPrice}
use network_exercises.Prices.Store.{samples, has, max_samples}
use network_exercises.Messages.{Session, message_parse, message_size, message_query, message_insert}
use network_exercises.Messages.Wire.{Message, IsMessage, All, encode_all}
use network_exercises.Messages.Meaning.{insert, store, store_all}
use network_exercises.Messages.Replies.{HandledAll, IsReady, message_parse-HandledAll}

abbrev pub Unique : List AssetPrice → Type 0
Unique [] = Unit {0}
Unique (p ∷ l) = (has p.timestamp l ≡ false) × Unique l

neither : (a b : Bool) → (a || b) ≡ false → (a ≡ false) × (b ≡ false)
neither true b h = ground arith
neither false b h = (refl, h)

both_false : (a b : Bool) → a ≡ false → b ≡ false → (a || b) ≡ false
both_false a b p q = rw (p, q) refl

eq_ℤ-sym : (a b : ℤ) → eq_ℤ a b ≡ false → eq_ℤ b a ≡ false
eq_ℤ-sym a b h = ground arith

-- A sample with another timestamp behind the others.
has-last :
    (t : ℤ) (l : List AssetPrice) (p : AssetPrice)
    → has t l ≡ false
    → eq_ℤ p.timestamp t ≡ false
    → has t (l ++ p ∷ []) ≡ false
unfolding has
has-last t [] p h e = both_false _ _ e refl
has-last t (q ∷ l) p h e =
    let (first, others) = neither (eq_ℤ q.timestamp t) (has t l) h in
    both_false _ _ first (has-last t l p others e)

Unique-last :
    (l : List AssetPrice) (p : AssetPrice)
    → Unique l
    → has p.timestamp l ≡ false
    → Unique (l ++ p ∷ [])
unfolding has
Unique-last [] p u h = (refl, tt)
Unique-last (q ∷ l) p u h =
    let (first, others) = neither (eq_ℤ q.timestamp p.timestamp) (has p.timestamp l) h in
    (
      has-last q.timestamp l p u.0 (eq_ℤ-sym q.timestamp p.timestamp first),
      Unique-last l p u.1 others,
    )

insert-Unique : (l : List AssetPrice) (m : Message) → Unique l → Unique (insert l m)
unfolding insert
insert-Unique l m u = elim (Bool-cases (has (signed32 m.first_word) l)) [
  | inl there ↦ rw there u
  | inr absent ↦ rw absent (Unique-last l _ u absent)
]

store-Unique : (l : List AssetPrice) (m : Message) → Unique l → Unique (store l m)
unfolding store
store-Unique l m u = elim (Bool-cases (m.kind == message_query)) [
  | inl query ↦ rw query u
  | inr other ↦ rw other (elim (Bool-cases (m.kind == message_insert)) [
    | inl add ↦ rw add (insert-Unique l m u)
    | inr neither_one ↦ rw neither_one u
  ])
]

store_all-Unique : (l : List AssetPrice) (ms : List Message) → Unique l → Unique (store_all l ms)
unfolding store_all
store_all-Unique l [] u = u
store_all-Unique l (m ∷ ms) u = store_all-Unique (store l m) ms (store-Unique l m u)

module _ {mem : Allocator ℕ} {price_mem : Allocator AssetPrice} (serves : Serves mem)
    (price_serves : Serves price_mem) where
  -- When no two samples of a ready session share a timestamp, none do after `message_parse` of a
  -- buffer that begins with whole messages, which returns as long as the allocators serve and the
  -- samples and the bytes of replies stay below their bounds.
  pub message_parse-Unique :
      (s : Session) (ms : List Message) (after : List ℕ) (dsize : ℕ)
      → IsReady s
      → Unique (samples s.prices)
      → All IsMessage ms
      → 0 < dsize
      → dsize / message_size ≡ length ms
      → s.prices.size + length ms < max_samples
      → s.sdqu.size + 4 * length ms < max_bytes
      → Returns
          (λ s'. Unique (samples s'.prices))
          (message_parse mem price_mem s (encode_all ms ++ after) dsize)
  message_parse-Unique s ms after dsize r u w some_bytes n few_prices few_bytes =
      Returns-mono (HandledAll s ms) (λ s'. Unique (samples s'.prices)) _
        (message_parse-HandledAll serves price_serves s ms after dsize r w some_bytes n few_prices
          few_bytes)
        (λ s' k. subst Unique (sym k.stored) (store_all-Unique (samples s.prices) ms u))

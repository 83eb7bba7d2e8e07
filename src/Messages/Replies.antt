-- ===== src/Messages/Replies.antt =====
-- `message_parse` against the meaning of the messages in its buffer.
use network_exercises.Common.{
  ℕ, ◌+◌, ◌*◌, ◌/◌, ◌<◌, ◌≤◌, ◌≡◌, refl, ap, ap₂, sym, ◌∙◌, arith, true, false, inl, inr, List, [],
  ◌∷◌, ◌++◌, length, Bool-cases, ltb, ◌==◌, append-nil, append_assoc, length-append,
}
use network_exercises.Common.Words.{signed32, IsInt32, signed32-IsInt32}
use network_exercises.Run.{Returns, Returns-bind, Returns-mono, Returns-and}
use network_exercises.Memory.{Allocator, Serves}
use network_exercises.Queue.Valid as QueueValid
use network_exercises.Queue.Valid.{contents, max_bytes, Spare}
use network_exercises.Queue.Push
use network_exercises.Queue.Push.{push-append, push-Spare}
use network_exercises.Prices.{AssetPrice}
use network_exercises.Prices.Store as PriceStore
use network_exercises.Prices.Store.{samples, max_samples, has, duplicate_timestamp_check-has}
use network_exercises.Prices.Query.{Prices32, query-average}
use network_exercises.Messages.{
  Session, bytes32, message_query, message_insert, message_size, answer_query, insert_price,
  parse_one, parse_from, message_parse,
}
use network_exercises.Messages.Wire.{
  Message, IsMessage, All, encode, encode_all, ReadsAs, encode-ReadsAs, length-encode,
}
use network_exercises.Messages.Meaning.{insert, store, answer, reply, store_all, replies}

-- The two parts of a session are valid, and its prices are `int32_t`.
pub record IsReady (s : Session) : Type 0 where
  pub prices : PriceStore.IsValid s.prices
  pub sdqu : QueueValid.IsValid s.sdqu
  pub prices32 : Prices32 (samples s.prices)

-- What one message makes of a session.
pub record Handled (s : Session) (m : Message) (s' : Session) : Type 0 where
  pub ready : IsReady s'
  pub stored : samples s'.prices ≡ store (samples s.prices) m
  pub sent : contents s'.sdqu ≡ contents s.sdqu ++ reply (samples s.prices) m
  pub more_prices : s'.prices.size ≤ s.prices.size + 1
  pub more_bytes : s'.sdqu.size ≤ s.sdqu.size + 4
  pub spare : Spare s.sdqu → Spare s'.sdqu

Prices32-append :
    (l : List AssetPrice) (p : AssetPrice) → Prices32 l → IsInt32 p.price → Prices32 (l ++ p ∷ [])
Prices32-append [] p h k = (k, tt)
Prices32-append (q ∷ l) p h k = (h.0, Prices32-append l p h.1 k)

module _ {mem : Allocator ℕ} {price_mem : Allocator AssetPrice} (serves : Serves mem)
    (price_serves : Serves price_mem) where
  answer_query-reply :
      (s : Session) (m : Message)
      → IsReady s
      → s.prices.size + 1 < max_samples
      → s.sdqu.size + 4 < max_bytes
      → m.kind ≡ message_query
      → Returns (Handled s m) (answer_query mem price_mem s m.first_word m.second_word)
  unfolding answer_query store reply answer bytes32
  answer_query-reply s m r few_prices few_bytes kind =
      let is_query : (m.kind == message_query) ≡ true = ground arith in
      rw
        (query-average s.prices
          (record { mintime = signed32 m.first_word; maxtime = signed32 m.second_word }) r.prices
          (omega arith) r.prices32)
        (Returns-bind
          (λ sdqu.
            Push.Holds (contents s.sdqu ++ answer (samples s.prices) m) (s.sdqu.size + 4) sdqu
            × (Spare s.sdqu → Spare sdqu))
          (Handled s m) _ _
          (Returns-and _ (λ sdqu. Spare s.sdqu → Spare sdqu) _
            (push-append serves s.sdqu (answer (samples s.prices) m) 4 r.sdqu (omega arith)
              few_bytes)
            (push-Spare serves s.sdqu (answer (samples s.prices) m) 4 r.sdqu (omega arith)
              few_bytes))
          (λ sdqu ((valid, more, size), spare). record {
            ready = record { prices = r.prices; sdqu = valid; prices32 = r.prices32 };
            stored = rw is_query;
            sent = rw is_query more;
            more_prices = omega arith;
            more_bytes = omega (arith, size);
            spare = spare;
          }))

  insert_price-insert :
      (s : Session) (m : Message)
      → IsReady s
      → IsMessage m
      → s.prices.size + 1 < max_samples
      → m.kind ≡ message_insert
      → Returns (Handled s m) (insert_price mem price_mem s m.first_word m.second_word)
  unfolding insert_price store reply insert
  insert_price-insert s m r w few kind =
      let not_query : (m.kind == message_query) ≡ false = ground arith in
      let is_insert : (m.kind == message_insert) ≡ true = ground arith in
      rw (duplicate_timestamp_check-has s.prices (signed32 m.first_word) r.prices)
        (elim (Bool-cases (has (signed32 m.first_word) (samples s.prices))) [
          | inl old ↦ rw old (record {
            ready = r;
            stored = rw (not_query, is_insert, old);
            sent = rw not_query (sym (append-nil (contents s.sdqu)));
            more_prices = omega arith;
            more_bytes = omega arith;
            spare = λ k. k;
          })
          | inr new ↦
              let p : AssetPrice = record {
                timestamp = signed32 m.first_word;
                price = signed32 m.second_word;
              } in
              rw new (
                Returns-bind (PriceStore.Holds (samples s.prices ++ p ∷ []) (s.prices.size + 1))
                  (Handled s m) _ _ (PriceStore.push-samples price_serves s.prices p r.prices few)
                  (λ prices (valid, more, size). record {
                    ready = record {
                      prices = valid;
                      sdqu = r.sdqu;
                      prices32 = rw more (
                          Prices32-append (samples s.prices) p r.prices32
                            (signed32-IsInt32 m.second_word w.1));
                    };
                    stored = rw (not_query, is_insert, new) more;
                    sent = rw not_query (sym (append-nil (contents s.sdqu)));
                    more_prices = omega (arith, size);
                    more_bytes = omega arith;
                    spare = λ k. k;
                  }))
        ])

  -- One round of the loop does with a message what the message means.
  parse_one-Handled :
      (s : Session) (buf : List ℕ) (pd : ℕ) (m : Message)
      → IsReady s
      → IsMessage m
      → ReadsAs buf pd m
      → s.prices.size + 1 < max_samples
      → s.sdqu.size + 4 < max_bytes
      → Returns (Handled s m) (parse_one mem price_mem buf pd s)
  unfolding parse_one store reply
  parse_one-Handled s buf pd m r w reads few_prices few_bytes =
      rw reads.kind (elim (Bool-cases (m.kind == message_query)) [
        | inl q ↦ rw q (
            rw reads.first_word
              (rw reads.second_word (answer_query-reply s m r few_prices few_bytes (ground arith))))
        | inr not_q ↦ rw not_q (elim (Bool-cases (m.kind == message_insert)) [
          | inl i ↦ rw i (
              rw reads.first_word
                (rw reads.second_word (insert_price-insert s m r w few_prices (ground arith))))
          | inr other ↦ rw other (record {
            ready = r;
            stored = rw (not_q, other);
            sent = rw not_q (sym (append-nil (contents s.sdqu)));
            more_prices = omega arith;
            more_bytes = omega arith;
            spare = λ k. k;
          })
        ])
      ])

-- What a list of messages makes of a session.
pub record HandledAll (s : Session) (ms : List Message) (s' : Session) : Type 0 where
  pub ready : IsReady s'
  pub stored : samples s'.prices ≡ store_all (samples s.prices) ms
  pub sent : contents s'.sdqu ≡ contents s.sdqu ++ replies (samples s.prices) ms
  pub more_prices : s'.prices.size ≤ s.prices.size + length ms
  pub more_bytes : s'.sdqu.size ≤ s.sdqu.size + 4 * length ms
  pub spare : Spare s.sdqu → Spare s'.sdqu

Handled-cons :
    (s s' s'' : Session) (m : Message) (ms : List Message)
    → Handled s m s'
    → HandledAll s' ms s''
    → HandledAll s (m ∷ ms) s''
unfolding store_all replies
Handled-cons s s' s'' m ms h k = record {
  ready = k.ready;
  stored = k.stored ∙ ap (λ l. store_all l ms) h.stored;
  sent =
      k.sent
      ∙ ap₂ (λ b l. b ++ replies l ms) h.sent h.stored
      ∙ append_assoc (contents s.sdqu) (reply (samples s.prices) m)
          (replies (store (samples s.prices) m) ms);
  more_prices = omega (arith, h.more_prices, k.more_prices);
  more_bytes = omega (arith, h.more_bytes, k.more_bytes);
  spare = λ x. k.spare (h.spare x);
}

-- The bytes of the first message, and of those behind it.
split_first :
    (before after : List ℕ) (m : Message) (ms : List Message)
    → (before ++ (encode_all (m ∷ ms) ++ after) ≡ before ++ (encode m ++ (encode_all ms ++ after)))
      × (before ++ (encode_all (m ∷ ms) ++ after)
          ≡ (before ++ encode m) ++ (encode_all ms ++ after))
unfolding encode_all
split_first before after m ms =
    let first = ap (λ l. before ++ l) (append_assoc (encode m) (encode_all ms) after) in
    (first, first ∙ sym (append_assoc before (encode m) (encode_all ms ++ after)))

module _ {mem : Allocator ℕ} {price_mem : Allocator AssetPrice} (serves : Serves mem)
    (price_serves : Serves price_mem) where
  parse_from-HandledAll :
      (s : Session) (buf before after : List ℕ) (pd : ℕ) (ms : List Message)
      → IsReady s
      → All IsMessage ms
      → buf ≡ before ++ (encode_all ms ++ after)
      → length before ≡ pd
      → s.prices.size + length ms < max_samples
      → s.sdqu.size + 4 * length ms < max_bytes
      → Returns (HandledAll s ms) (parse_from mem price_mem buf (length ms) pd s)
  unfolding parse_from store_all replies
  parse_from-HandledAll s buf before after pd [] r w at h few_prices few_bytes = record {
    ready = r;
    stored = refl;
    sent = sym (append-nil (contents s.sdqu));
    more_prices = omega arith;
    more_bytes = omega arith;
    spare = λ k. k;
  }
  parse_from-HandledAll s buf before after pd (m ∷ ms) r w at h few_prices few_bytes =
      let reads : ReadsAs buf pd m =
        rw (at ∙ (split_first before after m ms).0)
          (encode-ReadsAs before (encode_all ms ++ after) pd m h w.0) in
      Returns-bind (Handled s m) (HandledAll s (m ∷ ms)) _ _
        (parse_one-Handled serves price_serves s buf pd m r w.0 reads (omega arith) (omega arith))
        (λ s' k.
          Returns-mono (HandledAll s' ms) (HandledAll s (m ∷ ms)) _
            (parse_from-HandledAll s' buf (before ++ encode m) after (pd + message_size) ms k.ready
              w.1 (at ∙ (split_first before after m ms).1)
              (omega (arith, length-append before (encode m), length-encode m))
              (omega (arith, k.more_prices)) (omega (arith, k.more_bytes)))
            (λ s'' l. Handled-cons s s' s'' m ms k l))

  -- `message_parse` on a ready session, and a buffer that begins with whole messages, handles all
  -- of them in order: the samples are those that the insertions leave, and for each query, and
  -- nothing else, the mean that it asks for is appended to the replies; the session stays ready.
  -- Bytes behind the whole messages do nothing. The allocators serve, and the samples and the bytes
  -- of replies stay below their bounds.
  pub message_parse-HandledAll :
      (s : Session) (ms : List Message) (after : List ℕ) (dsize : ℕ)
      → IsReady s
      → All IsMessage ms
      → 0 < dsize
      → dsize / message_size ≡ length ms
      → s.prices.size + length ms < max_samples
      → s.sdqu.size + 4 * length ms < max_bytes
      → Returns (HandledAll s ms) (message_parse mem price_mem s (encode_all ms ++ after) dsize)
  unfolding message_parse
  message_parse-HandledAll s ms after dsize r w some_bytes n few_prices few_bytes =
      let positive : ltb 0 dsize ≡ true = ground arith in
      rw positive (
        rw n (
          parse_from-HandledAll s (encode_all ms ++ after) [] after 0 ms r w refl refl few_prices
            few_bytes))

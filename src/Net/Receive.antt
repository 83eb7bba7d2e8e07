-- ===== src/Net/Receive.antt =====
-- `recv_request` moves everything that a socket delivers into the queue.
use network_exercises.Common.{
  ℕ, zero, suc, ◌+◌, ◌<◌, ◌≤◌, ◌≡◌, refl, ap, ap₂, sym, ◌∙◌, arith, true, List, [], ◌∷◌, ◌++◌,
  length, take, drop, ltb, leb, inl, inr, Bool-cases, append-nil, append_assoc, length-take,
  length-drop, take-append-drop, take-length, lt→ltb, leb→le, leb-false→lt,
}
use network_exercises.Common.Int.{ℤ}
use network_exercises.Run.{Run, ◌>>=◌, Returns, Returns-bind, Returns-mono, Returns-and}
use network_exercises.Memory.{Allocator, Serves}
use network_exercises.Queue.{Queue}
use network_exercises.Queue.Valid.{IsValid, Spare, contents, max_bytes}
use network_exercises.Queue.Push.{
  Holds, Copied, memcpy-Copied, push_ex-extend, Slack, push_ex-Slack,
}
use network_exercises.Net.{
  End, Inbox, Received, got, recv, recv_chunks, status, store_received, receive_loop, total,
  recv_request,
}

-- `recv` returns 0 for the end of the data only.
abbrev pub NonEmpty : List (List ℕ) → Type 0
NonEmpty [] = Unit {0}
NonEmpty (c ∷ cs) = (0 < length c) × NonEmpty cs

unfoldable pub joined : List (List ℕ) → List ℕ
joined [] = []
joined (c ∷ cs) = c ++ joined cs

-- What the function gives back.
abbrev pub Took : Queue → Inbox → ℤ × Queue → Type 0
Took qu inbox (s, qu') =
    (s ≡ status inbox.end)
    × IsValid qu'
    × (contents qu' ≡ contents qu ++ joined inbox.chunks)
    × (qu'.size ≡ qu.size + total inbox.chunks)
    × (Spare qu → Spare qu')

-- Bytes that `recv` puts at the head and `queue_push_ex` accounts for are appended.
store_received-Holds :
    {mem : Allocator ℕ} (qu : Queue) (bytes : List ℕ)
    → Serves mem
    → IsValid qu
    → 0 < length bytes
    → length bytes ≤ qu.free_capacity
    → qu.size + length bytes < max_bytes
    → Returns
        (λ qu'. Holds (contents qu ++ bytes) (qu.size + length bytes) qu' × Spare qu')
        (store_received mem qu bytes)
unfolding store_received
store_received-Holds {mem} qu bytes serves v some_bytes fits few =
    Returns-bind (Copied qu.buf qu.head bytes (length bytes)) _ _ _
      (memcpy-Copied qu.buf qu.head bytes (length bytes) (omega arith) (omega (arith, v)))
      (λ buf c.
        let filled : Queue = record qu { buf = buf } in
        let start : qu.size ≡ qu.head = sym v.at_end in
        let front =
          ap (λ k. take (k + length bytes) buf) start
          ∙ c.front
          ∙ ap₂ (λ k l. take k qu.buf ++ l) v.at_end
              (take-length (length bytes) bytes (omega arith)) in
        let valid : IsValid filled = omega (arith, v, c.size) in
        Returns-mono
          (λ qu'.
            Holds (take (qu.size + length bytes) buf) (qu.size + length bytes) qu'
            × Slack filled (length bytes) qu')
          (λ qu'. Holds (contents qu ++ bytes) (qu.size + length bytes) qu' × Spare qu') _
          (Returns-and (Holds (take (qu.size + length bytes) buf) (qu.size + length bytes))
            (Slack filled (length bytes)) _
            (push_ex-extend serves filled (length bytes) valid (omega (arith, v)) few)
            (push_ex-Slack serves filled (length bytes) valid some_bytes few))
          (λ qu' (h, s). ((h.0, h.1 ∙ front, h.2), omega (arith, h.0, h.2, s))))

abbrev inbox_of : List (List ℕ) → End → Inbox
inbox_of chunks end = record { chunks = chunks; end = end }

-- After a part of the data has been stored, the rest completes it.
Took-more :
    (qu qu' : Queue) (bytes : List ℕ) (rest chunks : List (List ℕ)) (end : End) (r : ℤ × Queue)
    → Holds (contents qu ++ bytes) (qu.size + length bytes) qu'
    → Spare qu'
    → bytes ++ joined rest ≡ joined chunks
    → length bytes + total rest ≡ total chunks
    → Took qu' (inbox_of rest end) r
    → Took qu (inbox_of chunks end) r
Took-more qu qu' bytes rest chunks end r h spare e n t = (
  t.0,
  t.1,
  t.2
      ∙ ap (λ l. l ++ joined rest) h.1
      ∙ append_assoc (contents qu) bytes (joined rest)
      ∙ ap (λ l. contents qu ++ l) e,
  omega (arith, t.3, h.2, n),
  λ _. t.4 spare,
)

-- What a call of `recv` on waiting data hands over, and what it leaves.
record Splits (n : ℕ) (chunks : List (List ℕ)) (end : End) : Type 0 where
  bytes : List ℕ
  rest : List (List ℕ)
  eq : recv n (inbox_of chunks end) ≡ (got bytes, inbox_of rest end)
  some_bytes : 0 < length bytes
  fits : length bytes ≤ n
  left : NonEmpty rest
  same_bytes : bytes ++ joined rest ≡ joined chunks
  same_total : length bytes + total rest ≡ total chunks

recv-Splits :
    (n : ℕ) (c : List ℕ) (cs : List (List ℕ)) (end : End)
    → 0 < n
    → NonEmpty (c ∷ cs)
    → Splits n (c ∷ cs) end
unfolding recv recv_chunks joined
recv-Splits n c cs end room ne = elim (Bool-cases (leb (length c) n)) [
  | inl whole ↦ record {
    bytes = c;
    rest = cs;
    eq = rw whole;
    some_bytes = ne.0;
    fits = leb→le _ _ whole;
    left = ne.1;
    same_bytes = refl;
    same_total = refl;
  }
  | inr part ↦
      let long = leb-false→lt _ _ part in
      let front = length-take n c in
      let back = length-drop n c in
      record {
        bytes = take n c;
        rest = drop n c ∷ cs;
        eq = rw part;
        some_bytes = omega (arith, front);
        fits = omega (arith, front);
        left = (omega (arith, back), ne.1);
        same_bytes =
            sym (append_assoc (take n c) (drop n c) (joined cs))
            ∙ ap (λ l. l ++ joined cs) (take-append-drop n c);
        same_total = omega (arith, front, back);
      }
]

module _ {mem : Allocator ℕ} (serves : Serves mem) where
  -- One round of the loop on waiting data.
  receive_loop-step :
      (fuel : ℕ) (chunks : List (List ℕ)) (end : End) (qu : Queue)
      (s : Splits qu.free_capacity chunks end)
      → receive_loop mem (suc fuel) (inbox_of chunks end) qu
        ≡ (store_received mem qu s.bytes >>= λ qu'. receive_loop mem fuel (inbox_of s.rest end) qu')
  unfolding receive_loop
  receive_loop-step fuel chunks end qu s =
      let continue : Received × Inbox → Run (ℤ × Queue) =
        λ p. store_received mem qu s.bytes >>= λ qu'. receive_loop mem fuel p.1 qu' in
      rw (s.eq, receive_loop) (ap continue s.eq)

  receive_loop-Took :
      (fuel : ℕ) (chunks : List (List ℕ)) (end : End) (qu : Queue)
      → NonEmpty chunks
      → IsValid qu
      → qu.size + total chunks < max_bytes
      → total chunks < fuel
      → Returns (Took qu (inbox_of chunks end)) (receive_loop mem fuel (inbox_of chunks end) qu)
  receive_loop-Took zero chunks end qu ne v few enough = absurd (omega arith)
  receive_loop-Took (suc fuel) [] end qu ne v few enough = receive_loop-stopped
    where
      receive_loop-stopped :
          Returns (Took qu (inbox_of [] end)) (receive_loop mem (suc fuel) (inbox_of [] end) qu)
      receive_loop-stopped =
          unfold receive_loop recv recv_chunks joined in
          (refl, v, sym (append-nil (contents qu)), omega arith, λ spare. spare)
  receive_loop-Took (suc fuel) (c ∷ cs) end qu ne v few enough =
      let s : Splits qu.free_capacity (c ∷ cs) end =
        recv-Splits qu.free_capacity c cs end (omega (arith, v)) ne in
      rw (receive_loop-step fuel (c ∷ cs) end qu s) (
        Returns-bind
          (λ qu'. Holds (contents qu ++ s.bytes) (qu.size + length s.bytes) qu' × Spare qu') _ _ _
          (store_received-Holds qu s.bytes serves v s.some_bytes s.fits
            (omega (arith, s.same_total)))
          (λ qu' (h, spare).
            Returns-mono (Took qu' (inbox_of s.rest end)) (Took qu (inbox_of (c ∷ cs) end)) _
              (receive_loop-Took fuel s.rest end qu' s.left h.0 (omega (arith, h.2, s.same_total))
                (omega (arith, s.some_bytes, s.same_total)))
              (λ r t.
                Took-more qu qu' s.bytes s.rest (c ∷ cs) end r h spare s.same_bytes s.same_total
                  t)))

  -- `recv_request` of non-empty pieces from a valid descriptor appends everything that the socket
  -- delivers, in order, to a valid queue of fewer than `max_bytes` bytes in all, and returns how the
  -- socket stands, as long as the allocator serves; the queue stays valid, and with two bytes behind
  -- its contents if it had them.
  pub recv_request-Took :
      (fd : ℕ) (inbox : Inbox) (qu : Queue)
      → 0 < fd
      → NonEmpty inbox.chunks
      → IsValid qu
      → qu.size + total inbox.chunks < max_bytes
      → Returns (Took qu inbox) (recv_request mem fd inbox qu)
  unfolding recv_request
  recv_request-Took fd inbox qu some_fd ne v few =
      let positive : ltb 0 fd ≡ true = lt→ltb _ _ some_fd in
      rw positive (
        receive_loop-Took (total inbox.chunks + 1) inbox.chunks inbox.end qu ne v few (omega arith))

-- ===== src/Echo/Reply.antt =====
-- What a client sends comes back to it.
use network_exercises.Common.{
  ℕ, zero, suc, ◌+◌, ◌^◌, ◌<◌, ◌≡◌, refl, sym, ap, subst, ◌∙◌, arith, true, inl, inr, ◌⊎◌, List, [],
  ◌∷◌, ◌++◌, take,
}
use network_exercises.Common.Int.{pos, leb_ℤ}
use network_exercises.Run.{Returns, Returns-bind}
use network_exercises.Memory.{Allocator, Serves}
use network_exercises.Queue.{Queue}
use network_exercises.Queue.Valid.{IsValid, contents, Spare}
use network_exercises.Queue.Pop.{pop_no_copy-some, pop_no_copy-none}
use network_exercises.Net.{Answer, Inbox, End, took, total, status}
use network_exercises.Net.Receive.{Took, NonEmpty, joined, recv_request-Took}
use network_exercises.Net.Reply.{IsIdle, reset-IsIdle}
use network_exercises.Net.Send.{sendall-whole}
use network_exercises.Echo.{Fate, closed, kept_open, disconnect, echo, respond, handle_event}

-- The connection is closed when the client is done.
abbrev pub fate_of : End → Fate
fate_of End.would_block = kept_open
fate_of _ = closed

-- The bytes that go out: none when receiving failed.
abbrev pub answer_of : Inbox → End → List ℕ
answer_of inbox End.failed = []
answer_of inbox _ = joined inbox.chunks

abbrev pub Echoed : Inbox → Queue × List ℕ × Fate → Type 0
Echoed inbox (qu', wire, fate) =
    IsIdle qu' × (wire ≡ answer_of inbox inbox.end) × (fate ≡ fate_of inbox.end)

-- No byte has come.
respond-nothing :
    (fd : ℕ) (q : Queue) (answers : List Answer) (chunks : List (List ℕ)) (end : End)
    → IsIdle q
    → joined chunks ≡ []
    → Returns
        (Echoed (record { chunks = chunks; end = end }))
        (respond fd answers true (status end) q)
unfolding respond disconnect echo
respond-nothing fd q answers chunks End.failed idle nothing =
    rw (pop_no_copy-none q idle.empty) (idle, refl, refl)
respond-nothing fd q answers chunks End.closed idle nothing =
    rw (pop_no_copy-none q idle.empty) (idle, sym nothing, refl)
respond-nothing fd q answers chunks End.would_block idle nothing =
    rw (pop_no_copy-none q idle.empty) (idle, sym nothing, refl)

zero-or-positive : (n : ℕ) → (n ≡ 0) ⊎ (0 < n)
zero-or-positive zero = inl refl
zero-or-positive (suc n) = inr (omega arith)

respond-Echoed :
    (fd : ℕ) (q : Queue) (chunks : List (List ℕ)) (end : End)
    → 0 < fd
    → 0 < q.size
    → q.size + 2 < 2 ^ 31
    → IsValid q
    → Spare q
    → contents q ≡ joined chunks
    → Returns
        (Echoed (record { chunks = chunks; end = end }))
        (respond fd (took q.size ∷ []) true (status end) q)
unfolding respond disconnect echo
respond-Echoed fd q chunks End.failed some_fd some_bytes small v spare same =
    rw (pop_no_copy-some q some_bytes (omega (arith, small))) (reset-IsIdle q v spare, refl, refl)
respond-Echoed fd q chunks End.closed some_fd some_bytes small v spare same =
    let sent =
      sendall-whole fd q.size q.buf some_fd some_bytes (omega (arith, small))
        (omega (arith, v, spare)) in
    let positive : leb_ℤ (pos 1) (pos q.size) ≡ true = ground arith in
    rw (pop_no_copy-some q some_bytes (omega (arith, small)))
      (rw (positive, sent) (reset-IsIdle q v spare, same, refl))
respond-Echoed fd q chunks End.would_block some_fd some_bytes small v spare same =
    let sent =
      sendall-whole fd q.size q.buf some_fd some_bytes (omega (arith, small))
        (omega (arith, v, spare)) in
    let positive : leb_ℤ (pos 1) (pos q.size) ≡ true = ground arith in
    rw (pop_no_copy-some q some_bytes (omega (arith, small)))
      (rw (positive, sent) (reset-IsIdle q v spare, same, refl))

-- When a valid empty queue with two bytes to spare serves a connection, with memory at hand, a `send`
-- that takes everything in one call and a removal that succeeds, all the bytes that the connection
-- delivers, fewer than 2^31 - 2, are echoed in order, the queue is left as it must be found, and the
-- connection is closed unless the client may send more. When receiving fails nothing is echoed and
-- the connection is closed.
pub handle_event-Echoed :
    {mem : Allocator ℕ} (fd : ℕ) (inbox : Inbox) (qu : Queue)
    → Serves mem
    → 0 < fd
    → NonEmpty inbox.chunks
    → IsIdle qu
    → total inbox.chunks + 2 < 2 ^ 31
    → Returns (Echoed inbox) (handle_event mem fd inbox (took (total inbox.chunks) ∷ []) true qu)
unfolding handle_event
handle_event-Echoed {mem} fd inbox qu serves some_fd ne idle few =
    let nothing : contents qu ≡ [] = ap (λ k. take k qu.buf) idle.empty in
    Returns-bind (Took qu inbox) _ _ _
      (recv_request-Took serves fd inbox qu some_fd ne idle.valid (omega (arith, idle.empty)))
      (λ (res, q) t.
        let n : q.size ≡ total inbox.chunks = omega (arith, t.3, idle.empty) in
        let same : contents q ≡ joined inbox.chunks =
          t.2 ∙ ap (λ l. l ++ joined inbox.chunks) nothing in
        rw t.0 (elim (zero-or-positive (total inbox.chunks)) [
          | inl none_came ↦
              respond-nothing fd q _ inbox.chunks inbox.end
                (record { valid = t.1; empty = n ∙ none_came; spare = t.4 idle.spare })
                (sym same ∙ ap (λ k. take k q.buf) (n ∙ none_came))
          | inr some_came ↦
              subst
                (λ k. Returns (Echoed inbox) (respond fd (took k ∷ []) true (status inbox.end) q)) n
                (respond-Echoed fd q inbox.chunks inbox.end some_fd (omega (arith, n, some_came))
                  (omega (arith, n)) t.1 (t.4 idle.spare) same)
        ]))

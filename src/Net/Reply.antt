-- ===== src/Net/Reply.antt =====
-- What c/source/means-to-an-end/main.c and prime-time/main.c do with the queue of replies: all of it is
-- taken out and handed to `sendall`.
use network_exercises.Common.{
  ℕ, ◌+◌, ◌^◌, ◌≤◌, ◌<◌, ◌≡◌, refl, sym, ap, subst, ◌∙◌, arith, Bool, true, List, [], ◌∷◌, length,
  take, ◌==◌, if◌then◌else◌,
}
use network_exercises.Common.Int.{pos, pos_part, leb_ℤ}
use network_exercises.Run.{Run, ok, ◌>>=◌, Returns, Returns-bind}
use network_exercises.Queue
use network_exercises.Queue.{Queue, reset}
use network_exercises.Queue.Valid as Valid
use network_exercises.Queue.Valid.{Spare, contents, length-contents}
use network_exercises.Queue.Pop.{pop_no_copy-some, pop_no_copy-none, reset-IsValid, reset-size}
use network_exercises.Links.{some_or}
use network_exercises.Net.{Answer, Outcome, took, sendall}
use network_exercises.Net.Send.{sendall-whole}

-- The replies are sent: whether `sendall` returns 0, the queue, and what went out.
unfoldable pub send_replies : ℕ → List Answer → Queue → Run (Bool × Queue × List ℕ)
send_replies fd answers sdqu =
    let (sdqu', sddata, sdsize) = Queue.pop_no_copy sdqu in
    if leb_ℤ (pos 1) sdsize
    then (do
      bytes ← some_or sddata
      out ← sendall answers fd bytes (pos_part sdsize)
      ok (out.result == 0, sdqu', out.wire))
    else ok (true, sdqu', [])

-- The queue of replies between two events.
pub record IsIdle (q : Queue) : Type 0 where
  pub valid : Valid.IsValid q
  pub empty : q.size ≡ 0
  pub spare : Spare q

-- `sendall` of these bytes gives an outcome of this kind, wherever they stand with two behind them;
-- their number and two more is an `int`.
abbrev pub Sends : List Answer → ℕ → List ℕ → (Outcome → Type 0) → Type 0
Sends answers fd r Q =
    (buf : List ℕ)
    → 0 < length r
    → length r + 2 < 2 ^ 31
    → length r + 2 ≤ length buf
    → take (length r) buf ≡ r
    → Returns Q (sendall answers fd buf (length r))

-- Nothing is sent where there is no reply.
abbrev pub Reply : (Outcome → Type 0) → List ℕ → Bool → List ℕ → Type 0
Reply Q [] sent wire = (sent ≡ true) × (wire ≡ [])
Reply Q (b ∷ r) sent wire = (o : Outcome) × Q o × (sent ≡ (o.result == 0)) × (wire ≡ o.wire)

pub reset-IsIdle : (q : Queue) → Valid.IsValid q → Spare q → IsIdle (reset q)
reset-IsIdle q v spare = record {
  valid = (reset-IsValid q v).0;
  empty = (reset-size q).0;
  spare = omega (arith, (reset-size q).0, (reset-size q).1);
}

pub send_replies-Reply :
    (answers : List Answer) (fd : ℕ) (q : Queue) (r : List ℕ) (Q : Outcome → Type 0)
    → Valid.IsValid q
    → Spare q
    → contents q ≡ r
    → length r + 2 < 2 ^ 31
    → Sends answers fd r Q
    → Returns
        (λ (sent, q', wire). IsIdle q' × Reply Q r sent wire × (q'.capacity ≡ q.capacity))
        (send_replies fd answers q)
unfolding send_replies
send_replies-Reply answers fd q [] Q v spare same few sends =
    let none_left : q.size ≡ 0 = sym (length-contents q v) ∙ ap length same in
    rw (pop_no_copy-none q none_left)
      (record { valid = v; empty = none_left; spare = spare }, (refl, refl), refl)
send_replies-Reply answers fd q (b ∷ r) Q v spare same few sends =
    let n : q.size ≡ length (b ∷ r) = sym (length-contents q v) ∙ ap length same in
    let positive : leb_ℤ (pos 1) (pos q.size) ≡ true = ground arith in
    rw (pop_no_copy-some q (omega (arith, n)) (omega (arith, n))) (
      rw (positive) (
        Returns-bind Q _ _ _
          (subst (λ k. Returns Q (sendall answers fd q.buf k)) (sym n)
            (sends q.buf (omega arith) (omega (arith, few)) (omega (arith, v, n))
              (ap (λ k. take k q.buf) (sym n) ∙ same)))
          (λ o p. (reset-IsIdle q v spare, (o, p, refl, refl), (reset-size q).1))))

-- Everything goes out, with no error.
abbrev pub SentAll : List ℕ → Outcome → Type 0
SentAll r o = (o.result ≡ 0) × (o.wire ≡ r)

pub sent_all :
    (r : List ℕ) (sent : Bool) (wire : List ℕ)
    → Reply (SentAll r) r sent wire
    → (sent ≡ true) × (wire ≡ r)
sent_all [] sent wire p = p
sent_all (b ∷ r) sent wire (o, (none_failed, all), flag, same) =
    (flag ∙ ap (λ k. k == 0) none_failed, same ∙ all)

-- A `send` that takes everything.
pub took-SentAll : (fd : ℕ) (r : List ℕ) → 0 < fd → Sends (took (length r) ∷ []) fd r (SentAll r)
took-SentAll fd r some_fd buf some_bytes small readable same =
    rw (sendall-whole fd (length r) buf some_fd some_bytes small readable) (refl, same)

-- ===== src/PrimeServer/Ready.antt =====
-- An event of a connection: its lines are answered, and what is no whole line stays in the queue that
-- all connections share.
use network_exercises.Common.{
  ℕ, ◌+◌, ◌*◌, ◌^◌, ◌<◌, ◌≡◌, refl, sym, ap, subst, ◌∙◌, arith, Bool, true, false, not, ◌&&◌, inl,
  inr, Bool-cases, ◌==◌, List, [], ◌∷◌, ◌++◌, length, if◌then◌else◌,
}
use network_exercises.Common.Int.{ℤ, pos, negsuc, pos_part, leb_ℤ}
use network_exercises.Run.{ok, Returns, Returns-bind, Returns-mono}
use network_exercises.Memory.{Allocator, Serves}
use network_exercises.Queue.{Queue, peek}
use network_exercises.Queue.Valid.{IsValid, contents}
use network_exercises.Queue.Pop.{peek-some, peek-none}
use network_exercises.Net.{Answer, End, Inbox, status, took, total, recv_request}
use network_exercises.Net.Receive as Receive
use network_exercises.Net.Receive.{NonEmpty, Took, recv_request-Took}
use network_exercises.Net.Reply.{IsIdle, took-SentAll}
use network_exercises.Poll.{unwatch, fd_poll_del_and_close}
use network_exercises.PrimeTime.IsPrime.Trial.{root}
use network_exercises.PrimeTime.Json.{Json}
use network_exercises.PrimeTime.Request.{Request}
use network_exercises.PrimeTime.Request.Verdict.{verdict}
use network_exercises.PrimeTime.Builder.{delimiter}
use network_exercises.PrimeTime.Builder.Lines.{AllLines}
use network_exercises.PrimeTime.Builder.Answers.{Spacious, longest}
use network_exercises.PrimeTime.Builder.Round.{Answers, AllInRange, flagged}
use network_exercises.PrimeServer.{Server, Served, has_byte, complete_req, attend, on_ready}
use network_exercises.PrimeServer.Attend.{HoldsLines, LinesServed, is_open, attend-LinesServed}

-- The descriptors that are watched after a connection is kept or closed.
abbrev pub after : Bool → ℕ → List ℤ → List ℤ
after keep fd watched = if keep then watched else unwatch (pos fd) watched

-- What the event of a connection leaves, where `attend` serves it so.
abbrev Left : Server → ℕ → Served → Server × List ℕ → Type 0
Left s fd v (s', wire) =
    (s'.rcqu ≡ v.rcqu)
    × (s'.sdqu ≡ v.sdqu)
    × (wire ≡ v.wire)
    × (s'.watched ≡ after v.keep fd s.watched)

module _ (json : Json) (mem : Allocator ℕ) (curr : Request) where
  on_ready-Left :
      (s : Server) (fd : ℕ) (inbox : Inbox) (answers : List Answer) (P : ℤ × Queue → Type 0)
      (Q : Served → Type 0)
      → Returns P (recv_request mem fd inbox s.rcqu)
      → ((r : ℤ × Queue) → P r → Returns Q (attend json mem curr fd answers r.1 s.sdqu r.0))
      → Returns
          (λ r. (v : Served) × Q v × Left s fd v r)
          (on_ready json mem curr s fd inbox answers true)
  unfolding on_ready fd_poll_del_and_close
  on_ready-Left s fd inbox answers P Q received attended = Returns-bind P _ _ _ received (λ r p.
      Returns-bind Q _ _ _ (attended r p) (λ v q. elim (Bool-cases v.keep) [
        | inl kept ↦ rw kept (v, q, (refl, refl, refl, ap (λ k. after k fd s.watched) (sym kept)))
        | inr dropped ↦
            rw dropped (v, q, (refl, refl, refl, ap (λ k. after k fd s.watched) (sym dropped)))
      ]))

-- What is left of an event that brings no newline.
abbrev pub Waits : Server → ℕ → Inbox → Server × List ℕ → Type 0
Waits s fd inbox (s', wire) =
    IsValid s'.rcqu
    × (contents s'.rcqu ≡ contents s.rcqu ++ Receive.joined inbox.chunks)
    × (s'.sdqu ≡ s.sdqu)
    × (wire ≡ [])
    × (s'.watched ≡ after (is_open inbox.end) fd s.watched)

-- What is left of an event that completes some lines: the queues are empty again, and the responses
-- are sent.
abbrev pub Replied : Bool → Server → ℕ → List ℕ → Server × List ℕ → Type 0
Replied keep s fd out (s', wire) =
    IsValid s'.rcqu
    × (s'.rcqu.size ≡ 0)
    × IsIdle s'.sdqu
    × Spacious s'.sdqu
    × (wire ≡ out)
    × (s'.watched ≡ after keep fd s.watched)

complete_req-waits :
    (qu : Queue)
    → qu.size < 2 ^ 31
    → has_byte delimiter (contents qu) ≡ false
    → complete_req (peek qu).0 (peek qu).1 ≡ ok false
unfolding complete_req
complete_req-waits qu small none_there = elim (Bool-cases (qu.size == 0)) [
  | inl e ↦ rw (peek-none qu (ground (arith, e))) refl
  | inr e ↦
      let some_bytes : 0 < qu.size = ground (arith, e) in
      let positive : leb_ℤ (pos 1) (pos qu.size) ≡ true = ground arith in
      rw (peek-some qu some_bytes small) (rw positive (ap ok none_there))
]

attend_waits :
    (json : Json) (mem : Allocator ℕ) (curr : Request) (fd : ℕ) (answers : List Answer)
    (rcqu sdqu : Queue) (end : End)
    → rcqu.size < 2 ^ 31
    → has_byte delimiter (contents rcqu) ≡ false
    → attend json mem curr fd answers rcqu sdqu (status end)
      ≡ ok (record { rcqu = rcqu; sdqu = sdqu; wire = []; keep = is_open end })
unfolding attend
attend_waits json mem curr fd answers rcqu sdqu End.failed small none_there = refl
attend_waits json mem curr fd answers rcqu sdqu End.closed small none_there =
    rw (complete_req-waits rcqu small none_there)
attend_waits json mem curr fd answers rcqu sdqu End.would_block small none_there =
    rw (complete_req-waits rcqu small none_there)

module _ (json : Json) {mem : Allocator ℕ} (serves : Serves mem) (curr : Request) where
  -- An event that brings non-empty pieces with no newline, and none in a valid queue before it, with
  -- memory at hand, as long as the queue stays below 2^31 bytes and `epoll_ctl` removes: whatever
  -- `send` would answer, nothing is sent, and the bytes stand behind those of the queue, also where
  -- the connection is closed; the next connection finds them there.
  pub on_ready-Waits :
      (s : Server) (fd : ℕ) (inbox : Inbox) (answers : List Answer)
      → 0 < fd
      → NonEmpty inbox.chunks
      → IsValid s.rcqu
      → s.rcqu.size + total inbox.chunks < 2 ^ 31
      → has_byte delimiter (contents s.rcqu ++ Receive.joined inbox.chunks) ≡ false
      → Returns (Waits s fd inbox) (on_ready json mem curr s fd inbox answers true)
  on_ready-Waits s fd inbox answers some_fd ne valid few none_there =
      Returns-mono _ (Waits s fd inbox) _
        (on_ready-Left json mem curr s fd inbox answers (Took s.rcqu inbox)
          (λ v.
            IsValid v.rcqu
            × (contents v.rcqu ≡ contents s.rcqu ++ Receive.joined inbox.chunks)
            × (v.sdqu ≡ s.sdqu)
            × (v.wire ≡ [])
            × (v.keep ≡ is_open inbox.end))
          (recv_request-Took serves fd inbox s.rcqu some_fd ne valid (omega arith))
          (λ (res, rcqu) t.
            let same =
              attend_waits json mem curr fd answers rcqu s.sdqu inbox.end (omega (arith, t.3))
                (ap (has_byte delimiter) t.2 ∙ none_there) in
            rw (t.0, same) (t.1, t.2, refl, refl, refl)))
        (λ r (v, q, l). (
          subst IsValid (sym l.0) q.0,
          ap contents l.0 ∙ q.1,
          l.1 ∙ q.2,
          l.2 ∙ q.3,
          l.3 ∙ ap (λ k. after k fd s.watched) q.4,
        ))

  -- An event where `recv_request` returns without an error and leaves non-empty lines in the receive
  -- queue, fewer than 2^31 bytes with a NUL behind them, whose numbers are below the square of the
  -- root, as the number that is not initialised is, and of which 36 times their number, the most bytes
  -- that their responses can have, is below 2^31; with memory at hand, an idle queue of responses
  -- of 256 bytes at least, a `send` that takes everything and an `epoll_ctl` that removes: what is
  -- sent is exactly the responses to the lines, up to and with the first malformed one, both queues
  -- are empty again, and the connection stays just when no line was malformed and the client may
  -- send more.
  pub on_ready-LinesServed :
      (s : Server) (fd : ℕ) (inbox : Inbox) (received : Queue) (ls : List (List ℕ))
      (rest out : List ℕ)
      → recv_request mem fd inbox s.rcqu ≡ ok (status inbox.end, received)
      → leb_ℤ (status inbox.end) (negsuc 1) ≡ false
      → HoldsLines ls rest received
      → 0 < fd
      → 0 < length ls
      → AllLines ls
      → AllInRange (verdict json) ls
      → pos_part curr.number < root * root
      → longest * length ls < 2 ^ 31
      → IsIdle s.sdqu
      → Spacious s.sdqu
      → Answers (verdict json) ls out
      → Returns
          (Replied (not (flagged (verdict json) false ls) && is_open inbox.end) s fd out)
          (on_ready json mem curr s fd inbox (took (length out) ∷ []) true)
  on_ready-LinesServed s fd inbox received ls rest out ran well h some_fd some_lines lines fits
        in_range few idle spacious expected =
      let keep = not (flagged (verdict json) false ls) && is_open inbox.end in
      Returns-mono _ (Replied keep s fd out) _
        (on_ready-Left json mem curr s fd inbox (took (length out) ∷ [])
          (λ r. r ≡ (status inbox.end, received))
          (LinesServed (verdict json) ls out (is_open inbox.end))
          (subst (Returns (λ r. r ≡ (status inbox.end, received))) (sym ran) refl)
          (λ r same. rw same (
            attend-LinesServed json serves curr in_range ls rest some_lines lines fits few fd
              (took (length out) ∷ []) received s.sdqu out inbox.end well h idle spacious expected
              (took-SentAll fd out some_fd))))
        (λ r (v, q, l). (
          subst IsValid (sym l.0) q.rcqu,
          ap (λ k. k.size) l.0 ∙ q.nothing_left,
          subst IsIdle (sym l.1) q.sdqu,
          subst Spacious (sym l.1) q.spacious,
          l.2 ∙ q.wire,
          l.3 ∙ ap (λ k. after k fd s.watched) q.keep,
        ))

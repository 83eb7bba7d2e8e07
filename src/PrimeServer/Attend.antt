-- ===== src/PrimeServer/Attend.antt =====
-- What a connection with whole lines gets, and what waits otherwise.
use network_exercises.Common.{
  ℕ, ◌*◌, ◌^◌, ◌<◌, ◌≡◌, refl, sym, ap, ap₂, subst, ◌∙◌, arith, Bool, true, false, not, ◌&&◌,
  Option, List, [], ◌∷◌, ◌++◌, ◌==◌, leb, length, take, take-append, if◌then◌else◌,
}
use network_exercises.Common.Int.{ℤ, pos, negsuc, pos_part, leb_ℤ, eq_ℤ}
use network_exercises.Run.{Returns, Returns-bind}
use network_exercises.Memory.{Allocator, Serves}
use network_exercises.Queue.{Queue, reset}
use network_exercises.Queue.Valid.{IsValid, contents}
use network_exercises.Queue.Pop.{pop_no_copy-some, peek-some}
use network_exercises.Net.{Answer, End, status}
use network_exercises.Net.Reply.{IsIdle, Sends, Reply, SentAll, sent_all, send_replies-Reply}
use network_exercises.PrimeTime.IsPrime.Trial.{root}
use network_exercises.PrimeTime.Json.{Json}
use network_exercises.PrimeTime.Request.{Request}
use network_exercises.PrimeTime.Request.Verdict.{verdict}
use network_exercises.PrimeTime.Builder.{delimiter, handle_request}
use network_exercises.PrimeTime.Builder.Lines.{AllLines, joined}
use network_exercises.PrimeTime.Builder.Answers.{Spacious, longest}
use network_exercises.PrimeTime.Builder.Unique.{Answers-unique, Answers-length, handled-some}
use network_exercises.PrimeTime.Builder.Round.{Answers, AllInRange, flagged}
use network_exercises.PrimeTime.Builder.Rounds.{Built, request_builder-Built, lines-le-joined}
use network_exercises.PrimeServer.{Served, has_byte, complete_req, process, attend}

-- A queue whose bytes are these lines, with a NUL behind them.
pub record HoldsLines (ls : List (List ℕ)) (rest : List ℕ) (qu : Queue) : Type 0 where
  pub valid : IsValid qu
  pub buf : qu.buf ≡ joined ls ++ (0 ∷ rest)
  pub size : qu.size ≡ length (joined ls)
  pub small : qu.size < 2 ^ 31

-- A buffer of its own size in the place of the old one.
recut-IsValid :
    (qu : Queue) (raw : List ℕ)
    → IsValid qu
    → length raw ≡ length qu.buf
    → IsValid (record (reset qu) { buf = raw }) × ((reset qu).size ≡ 0)
unfolding reset
recut-IsValid qu raw v n = (omega (arith, v, n), refl)

-- What `handle_request` makes of lines with a NUL behind them, from an empty queue of responses.
record Replied (v : List ℕ → Option ℤ) (ls : List (List ℕ)) (size : ℕ) (result : ℤ) (filled : Queue)
    (raw : List ℕ) : Type 0 where
  valid : IsValid filled
  spacious : Spacious filled
  answers : Answers v ls (contents filled)
  positive : leb_ℤ (pos 1) result ≡ not (flagged v false ls)
  same_size : length raw ≡ size

abbrev RepliedAs : (List ℕ → Option ℤ) → List (List ℕ) → ℕ → ℤ × Queue × List ℕ → Type 0
RepliedAs v ls size (result, filled, raw) = Replied v ls size result filled raw

abbrev BuiltAs :
    (List ℕ → Option ℤ) → List (List ℕ) → Queue → ℕ → ℕ × Queue × List ℕ × Bool → Type 0
BuiltAs v ls sdqu size (r, sdq', raw, bad) = Built v ls sdqu false r sdq' bad × (length raw ≡ size)

result_sign :
    (r : ℕ) (bad : Bool)
    → 0 < r
    → leb_ℤ (pos 1) (if leb r 0 then negsuc 0 else if bad then pos 0 else pos 1) ≡ not bad
result_sign r bad h = ground arith

-- What a connection whose queue holds whole lines gets.
pub record LinesServed (v : List ℕ → Option ℤ) (ls : List (List ℕ)) (out : List ℕ) (open_end : Bool)
    (s : Served) : Type 0 where
  pub rcqu : IsValid s.rcqu
  pub nothing_left : s.rcqu.size ≡ 0
  pub sdqu : IsIdle s.sdqu
  pub spacious : Spacious s.sdqu
  pub wire : s.wire ≡ out
  pub keep : s.keep ≡ (not (flagged v false ls) && open_end)

processed-LinesServed :
    (v : List ℕ → Option ℤ) (ls : List (List ℕ)) (q : Queue) (raw : List ℕ) (result : ℤ)
    (filled : Queue) (sent : Bool) (q' : Queue) (wire out : List ℕ)
    → IsValid q
    → Replied v ls (length q.buf) result filled raw
    → IsIdle q'
    → Reply (SentAll out) out sent wire
    → q'.capacity ≡ filled.capacity
    → LinesServed v ls out true (record {
      rcqu = record (reset q) { buf = raw };
      sdqu = q';
      wire = wire;
      keep = leb_ℤ (pos 1) result && sent;
    })
processed-LinesServed v ls q raw result filled sent q' wire out valid r idle reply capacity =
    let (whole, all) = sent_all out sent wire reply in
    record {
      rcqu = (recut-IsValid q raw valid r.same_size).0;
      nothing_left = (recut-IsValid q raw valid r.same_size).1;
      sdqu = idle;
      spacious = record {
        large = omega (arith, capacity, r.spacious);
        light = omega (arith, idle.empty);
      };
      wire = all;
      keep = ap₂ (λ x y. x && y) r.positive whole;
    }

has_byte-append : (c : ℕ) (xs ys : List ℕ) → has_byte c (xs ++ (c ∷ ys)) ≡ true
unfolding has_byte
has_byte-append c [] ys = ground arith
has_byte-append c (x ∷ xs) ys = rw (has_byte-append c xs ys) (ground arith)

has_byte-joined : (ls : List (List ℕ)) → 0 < length ls → has_byte delimiter (joined ls) ≡ true
unfolding joined
has_byte-joined [] h = absurd (omega arith)
has_byte-joined (l ∷ ls) h = has_byte-append delimiter l (joined ls)

abbrev pub is_open : End → Bool
is_open End.would_block = true
is_open _ = false

and_over : (a b : Bool) → ((a && true) && b) ≡ (a && b)
and_over true b = refl
and_over false b = refl

pub status-open : (end : End) → eq_ℤ (status end) (negsuc 0) ≡ is_open end
status-open End.closed = refl
status-open End.would_block = refl
status-open End.failed = refl

LinesServed-end :
    (v : List ℕ → Option ℤ) (ls : List (List ℕ)) (out : List ℕ) (end : End) (s : Served)
    → LinesServed v ls out true s
    → LinesServed v ls out
        (is_open end)
        (record s { keep = s.keep && eq_ℤ (status end) (negsuc 0) })
LinesServed-end v ls out end s w = record {
  rcqu = w.rcqu;
  nothing_left = w.nothing_left;
  sdqu = w.sdqu;
  spacious = w.spacious;
  wire = w.wire;
  keep =
      ap₂ (λ a b. a && b) w.keep (status-open end)
      ∙ and_over (not (flagged v false ls)) (is_open end);
}

module _ (json : Json) {mem : Allocator ℕ} (serves : Serves mem) (curr : Request)
    (in_range : pos_part curr.number < root * root) (ls : List (List ℕ)) (rest : List ℕ)
    (some_lines : 0 < length ls) (lines : AllLines ls) (fits : AllInRange (verdict json) ls)
    (few : longest * length ls < 2 ^ 31) where
  handle_request-Replied :
      (sdqu : Queue)
      → IsIdle sdqu
      → Spacious sdqu
      → let raw : List ℕ = joined ls ++ (0 ∷ rest) in
        Returns
          (RepliedAs (verdict json) ls (length raw))
          (handle_request json mem curr sdqu raw (length (joined ls)))
  unfolding handle_request
  handle_request-Replied sdqu idle spacious =
      let v = verdict json in
      let n : ℕ = length (joined ls ++ (0 ∷ rest)) in
      let nonempty : (length (joined ls) == 0) ≡ false = ground (arith, lines-le-joined ls) in
      let nothing : contents sdqu ≡ [] = ap (λ k. take k sdqu.buf) idle.empty in
      rw nonempty (
        Returns-bind (BuiltAs v ls sdqu n) (RepliedAs v ls n) _ _
          (request_builder-Built json serves curr sdqu ls rest false idle.valid spacious some_lines
            lines fits in_range (omega (arith, idle.empty)))
          (λ (r, sdq', raw, bad) (b, same). record {
            valid = b.valid;
            spacious = b.spacious;
            answers = subst (Answers v ls) (sym (b.bytes ∙ ap (λ l. l ++ b.out) nothing)) b.answers;
            positive =
                result_sign r bad (omega (arith, b.count, handled-some v ls some_lines))
                ∙ ap not b.flag;
            same_size = same;
          }))

  -- The replies to lines that the receive queue holds.
  process-LinesServed :
      (fd : ℕ) (answers : List Answer) (rcqu sdqu : Queue) (out : List ℕ)
      → HoldsLines ls rest rcqu
      → IsIdle sdqu
      → Spacious sdqu
      → Answers (verdict json) ls out
      → Sends answers fd out (SentAll out)
      → Returns
          (LinesServed (verdict json) ls out true)
          (process json mem curr fd answers rcqu sdqu)
  unfolding process
  process-LinesServed fd answers rcqu sdqu out h idle spacious expected sends =
      let v = verdict json in
      let n : ℕ = length (joined ls ++ (0 ∷ rest)) in
      let q : Queue = record rcqu { buf = joined ls ++ (0 ∷ rest); size = length (joined ls) } in
      let valid : IsValid q = omega (arith, h, ap length h.buf) in
      rw (pop_no_copy-some rcqu (omega (arith, h.size, lines-le-joined ls)) h.small) (
        rw (h.buf, h.size)
          (Returns-bind (RepliedAs v ls n) (LinesServed v ls out true) _ _
            (handle_request-Replied sdqu idle spacious)
            (λ (result, filled, raw) r.
              let same : contents filled ≡ out =
                Answers-unique v ls (contents filled) out r.answers expected in
              Returns-bind
                (λ (sent, q', wire).
                  IsIdle q' × Reply (SentAll out) out sent wire × (q'.capacity ≡ filled.capacity))
                (LinesServed v ls out true) _ _
                (send_replies-Reply answers fd filled out (SentAll out) r.valid
                  (omega (arith, r.valid, r.spacious)) same
                  (omega (arith, Answers-length v ls out expected)) sends)
                (λ (sent, q', wire) (idle', reply, capacity).
                  processed-LinesServed v ls q raw result filled sent q' wire out valid r idle'
                    reply capacity))))

  pub attend-LinesServed :
      (fd : ℕ) (answers : List Answer) (rcqu sdqu : Queue) (out : List ℕ) (end : End)
      → leb_ℤ (status end) (negsuc 1) ≡ false
      → HoldsLines ls rest rcqu
      → IsIdle sdqu
      → Spacious sdqu
      → Answers (verdict json) ls out
      → Sends answers fd out (SentAll out)
      → Returns
          (LinesServed (verdict json) ls out (is_open end))
          (attend json mem curr fd answers rcqu sdqu (status end))
  unfolding attend complete_req
  attend-LinesServed fd answers rcqu sdqu out end well h idle spacious expected sends =
      let some_bytes : 0 < rcqu.size = omega (arith, h.size, lines-le-joined ls) in
      let positive : leb_ℤ (pos 1) (pos rcqu.size) ≡ true = ground arith in
      let newline : has_byte delimiter (take rcqu.size rcqu.buf) ≡ true =
        ap (λ k. has_byte delimiter (take k rcqu.buf)) h.size
        ∙ ap (λ b. has_byte delimiter (take (length (joined ls)) b)) h.buf
        ∙ ap (has_byte delimiter) (take-append (joined ls) (0 ∷ rest) (length (joined ls)) refl)
        ∙ has_byte-joined ls some_lines in
      rw (peek-some rcqu some_bytes h.small) (
        rw (well, positive, newline)
          (Returns-bind (LinesServed (verdict json) ls out true)
            (LinesServed (verdict json) ls out (is_open end)) _ _
            (process-LinesServed fd answers rcqu sdqu out h idle spacious expected sends)
            (λ v w. LinesServed-end (verdict json) ls out end v w)))

-- ===== src/PrimeTime/Builder/Rounds.antt =====
-- The loop of `is_prime_request_builder` over the lines of a buffer.
use network_exercises.Common.{
  ℕ, zero, suc, ◌+◌, ◌*◌, ◌<◌, ◌≤◌, ◌≡◌, refl, ap, sym, ◌∙◌, arith, true, false, Bool, List, [],
  ◌∷◌, ◌++◌, Option, none, some, length, ltb, leb, inl, inr, Option-cases, append-nil, subst,
  append_assoc, length-append, lt→ltb, lt→leb-false,
}
use network_exercises.Common.Int.{ℤ, pos_part}
use network_exercises.Run.{Returns, Returns-bind, Returns-mono, Returns-then, Returns-else}
use network_exercises.Memory.{Allocator, Serves}
use network_exercises.Queue.{Queue}
use network_exercises.Queue.Valid.{IsValid, contents, max_bytes}
use network_exercises.PrimeTime.IsPrime.Trial.{root}
use network_exercises.PrimeTime.Json.{Json}
use network_exercises.PrimeTime.Request.{Request}
use network_exercises.PrimeTime.Request.Verdict.{verdict, request_malformed-verdict}
use network_exercises.PrimeTime.Builder.{
  delimiter, token_at, strtok, Progress, rounds, request_builder,
}
use network_exercises.PrimeTime.Builder.Lines.{AllLines, joined, strtok_line, strtok_end}
use network_exercises.PrimeTime.Builder.Answers.{Answered, Spacious, longest, answer_verdict}
use network_exercises.PrimeTime.Builder.Round.{
  Answers, done, handled, flagged, AllInRange, At, Ended, cut_line, next_j, Ended-last, At-next,
  Ended-more,
}

pub lines-le-joined : (ls : List (List ℕ)) → length ls ≤ length (joined ls)
unfolding joined
lines-le-joined [] = omega arith
lines-le-joined (l ∷ ls) =
    omega (arith, lines-le-joined ls, length-append l (delimiter ∷ joined ls))

-- What the function gives back.
pub record Built (v : List ℕ → Option ℤ) (ls : List (List ℕ)) (sdq : Queue) (mal : Bool) (r : ℕ)
    (sdq' : Queue) (bad : Bool) : Type 0 where
  pub valid : IsValid sdq'
  pub spacious : Spacious sdq'
  pub out : List ℕ
  pub bytes : contents sdq' ≡ contents sdq ++ out
  pub answers : Answers v ls out
  pub count : r ≡ handled v ls
  pub flag : bad ≡ flagged v mal ls

module _ (json : Json) {mem : Allocator ℕ} (serves : Serves mem) where
  rounds-Ended :
      (fuel req_size : ℕ) (before rest : List ℕ) (ls : List (List ℕ)) (p : Progress)
      → At before ls rest p
      → AllLines ls
      → AllInRange (verdict json) ls
      → req_size ≡ length before + length (joined ls)
      → length ls < fuel
      → Returns (Ended (verdict json) ls p) (rounds json mem fuel req_size p)
  unfolding rounds handled flagged joined
  rounds-Ended zero req_size before rest ls p at lines fits size enough = absurd (omega arith)
  rounds-Ended (suc fuel) req_size before rest [] p at lines fits size enough =
      let step = ap (λ b. strtok b p.save) at.raw ∙ strtok_end before rest p.save at.save in
      rw step (record {
        valid = at.valid;
        spacious = at.spacious;
        out = [];
        bytes = sym (append-nil (contents p.sdq));
        answers = done;
        count = omega arith;
        flag = refl;
        size = sym (ap length at.raw);
      })
  rounds-Ended (suc fuel) req_size before rest (l ∷ ls) p at lines fits size enough =
      let cut = strtok_line before l (joined ls ++ (0 ∷ rest)) p.save at.save lines.0 in
      let inside : leb req_size p.save ≡ false =
        lt→leb-false _ _ (omega (arith, length-append l (delimiter ∷ joined ls), at.save, size)) in
      let shape : p.raw ≡ before ++ (l ++ (delimiter ∷ (joined ls ++ (0 ∷ rest)))) =
        at.raw ∙ ap (λ t. before ++ t) (append_assoc l (delimiter ∷ joined ls) (0 ∷ rest)) in
      let q : Progress = cut_line p before l ls rest in
      let step = ap (λ b. strtok b p.save) shape ∙ cut in
      rw (step, inside)
        (Returns-bind (Answered (verdict json l) q) (Ended (verdict json) (l ∷ ls) p) _ _
          (answer_verdict json serves q (token_at p.save l) (verdict json l)
            (request_malformed-verdict json q.curr l) fits.0 at.in_range at.valid at.spacious
            (omega (arith, at.few)))
          (λ q' a. elim (Option-cases (verdict json l)) [
            | inl e ↦
                let a' : Answered none q q' = subst (λ w. Answered w q q') e a in
                Returns-then (Ended (verdict json) (l ∷ ls) p) _ _ _ a'.flag
                  (Ended-last (verdict json) p before l ls rest at q' a' e)
            | inr (z, e) ↦
                let a' : Answered (some z) q q' = subst (λ w. Answered w q q') e a in
                Returns-else (Ended (verdict json) (l ∷ ls) p) _ _ _ a'.flag (
                  Returns-mono (Ended (verdict json) ls (next_j q'))
                    (Ended (verdict json) (l ∷ ls) p) _
                    (rounds-Ended fuel req_size (before ++ (l ++ 0 ∷ [])) rest ls (next_j q')
                      (At-next (verdict json) p before l ls rest at q' a') lines.1 fits.1
                      (omega (
                        arith,
                        size,
                        length-append before (l ++ 0 ∷ []),
                        length-append l (0 ∷ []),
                        length-append l (delimiter ∷ joined ls),
                      ))
                      (omega arith))
                    (λ p'' n. Ended-more (verdict json) p before l ls rest at q' a' e n))
          ]))

  -- With the size of the buffer that is cut up.
  pub request_builder-Built :
      (curr : Request) (sdq : Queue) (ls : List (List ℕ)) (rest : List ℕ) (mal : Bool)
      → IsValid sdq
      → Spacious sdq
      → 0 < length ls
      → AllLines ls
      → AllInRange (verdict json) ls
      → pos_part curr.number < root * root
      → sdq.size + longest * length ls < max_bytes
      → Returns
          (λ (r, sdq', raw, bad).
            Built (verdict json) ls sdq mal r sdq' bad
            × (length raw ≡ length (joined ls ++ (0 ∷ rest))))
          (request_builder json mem curr sdq (joined ls ++ (0 ∷ rest)) (length (joined ls)) mal)
  unfolding request_builder
  request_builder-Built curr sdq ls rest mal valid spacious some_lines lines fits in_range few =
      let start : Progress = record {
        sdq = sdq;
        raw = joined ls ++ (0 ∷ rest);
        save = 0;
        j = 1;
        curr = curr;
        malformed = mal;
      } in
      let positive : ltb 0 (length (joined ls)) ≡ true =
        lt→ltb _ _ (omega (arith, lines-le-joined ls)) in
      rw positive (
        Returns-bind (Ended (verdict json) ls start) _ _ _
          (rounds-Ended (length (joined ls ++ (0 ∷ rest)) + 1) (length (joined ls)) [] rest ls start
            (record {
              raw = refl;
              save = refl;
              valid = valid;
              spacious = spacious;
              few = few;
              in_range = in_range;
            })
            lines fits (omega arith)
            (omega (arith, lines-le-joined ls, length-append (joined ls) (0 ∷ rest))))
          (λ p' n. (
            record {
              valid = n.valid;
              spacious = n.spacious;
              out = n.out;
              bytes = n.bytes;
              answers = n.answers;
              count = omega (arith, n.count);
              flag = n.flag;
            },
            n.size,
          )))

  -- A buffer of non-empty lines with a NUL behind them: the function returns, and appends to the
  -- queue one response for each line up to and with the first malformed one. It counts them, and
  -- says whether the last was malformed. A response tells whether the number of its line is prime.
  -- It asks that all numbers lie below the square of the root, also the one that `curr` happens to hold.
  pub request_builder-Answers :
      (curr : Request) (sdq : Queue) (ls : List (List ℕ)) (rest : List ℕ) (mal : Bool)
      → IsValid sdq
      → Spacious sdq
      → 0 < length ls
      → AllLines ls
      → AllInRange (verdict json) ls
      → pos_part curr.number < root * root
      → sdq.size + longest * length ls < max_bytes
      → Returns
          (λ (r, sdq', raw, bad). Built (verdict json) ls sdq mal r sdq' bad)
          (request_builder json mem curr sdq (joined ls ++ (0 ∷ rest)) (length (joined ls)) mal)
  request_builder-Answers curr sdq ls rest mal valid spacious some_lines lines fits in_range few =
      Returns-mono _ (λ (r, sdq', raw, bad). Built (verdict json) ls sdq mal r sdq' bad) _
        (request_builder-Built curr sdq ls rest mal valid spacious some_lines lines fits in_range
          few)
        (λ r b. b.0)

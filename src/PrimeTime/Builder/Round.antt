-- ===== src/PrimeTime/Builder/Round.antt =====
-- One round of the loop of `is_prime_request_builder`, and what all rounds should give.
use network_exercises.Common.{
  ℕ, suc, ◌+◌, ◌*◌, ◌<◌, ◌≡◌, refl, ap, sym, ◌∙◌, arith, true, false, Bool, List, [], ◌∷◌, ◌++◌,
  Option, none, some, length, if◌then◌else◌, append_assoc, length-append,
}
use network_exercises.Common.Int.{ℤ, pos_part}
use network_exercises.Queue.Valid.{IsValid, contents, max_bytes}
use network_exercises.PrimeTime.IsPrime.Trial.{root}
use network_exercises.PrimeTime.Builder.{delimiter, Progress}
use network_exercises.PrimeTime.Builder.Lines.{joined}
use network_exercises.PrimeTime.Builder.Answers.{
  Answer, Answered, InRange, Spacious, is_none, longest,
}

module _ (v : List ℕ → Option ℤ) where
  -- The responses to the lines: one each, up to and with the first malformed line.
  pub data Answers : List (List ℕ) → List ℕ → Type 0 where
    done : Answers [] []
    last :
        (l : List ℕ) (ls : List (List ℕ)) (one : List ℕ)
        → v l ≡ none
        → Answer none one
        → Answers (l ∷ ls) one
    more :
        (l : List ℕ) (ls : List (List ℕ)) (one rest out : List ℕ) (z : ℤ)
        → v l ≡ some z
        → Answer (some z) one
        → Answers ls rest
        → out ≡ one ++ rest
        → Answers (l ∷ ls) out

  -- How many lines get a response.
  unfoldable pub handled : List (List ℕ) → ℕ
  handled [] = 0
  handled (l ∷ ls) = let rest = handled ls in if is_none (v l) then 1 else suc rest

  -- Whether a malformed line ends the responses; `mal` where there is no line.
  unfoldable pub flagged : Bool → List (List ℕ) → Bool
  flagged mal [] = mal
  flagged mal (l ∷ ls) = let rest = flagged false ls in if is_none (v l) then true else rest

  abbrev pub AllInRange : List (List ℕ) → Type 0
  AllInRange [] = Unit {0}
  AllInRange (l ∷ ls) = InRange (v l) × AllInRange ls

-- The state of the loop where some lines are left.
pub record At (before : List ℕ) (ls : List (List ℕ)) (rest : List ℕ) (p : Progress) : Type 0 where
  pub raw : p.raw ≡ before ++ (joined ls ++ (0 ∷ rest))
  pub save : length before ≡ p.save
  pub valid : IsValid p.sdq
  pub spacious : Spacious p.sdq
  pub few : p.sdq.size + longest * length ls < max_bytes
  pub in_range : pos_part p.curr.number < root * root

-- What the loop ends with.
pub record Ended (v : List ℕ → Option ℤ) (ls : List (List ℕ)) (p p' : Progress) : Type 0 where
  pub valid : IsValid p'.sdq
  pub spacious : Spacious p'.sdq
  pub out : List ℕ
  pub bytes : contents p'.sdq ≡ contents p.sdq ++ out
  pub answers : Answers v ls out
  pub count : p'.j ≡ p.j + handled v ls
  pub flag : p'.malformed ≡ flagged v p.malformed ls
  pub size : length p'.raw ≡ length p.raw

-- The loop's variables once `strtok_r` has cut the first line.
abbrev pub cut_line : Progress → (before l : List ℕ) (ls : List (List ℕ)) (rest : List ℕ) → Progress
cut_line p before l ls rest = record p {
  raw = before ++ (l ++ (0 ∷ (joined ls ++ (0 ∷ rest))));
  save = p.save + length l + 1;
}

-- `j++` at the end of a round.
abbrev pub next_j : Progress → Progress
next_j p = record p { j = p.j + 1 }

module _ (v : List ℕ → Option ℤ) (p : Progress) (before l : List ℕ) (ls : List (List ℕ))
    (rest : List ℕ) (at : At before (l ∷ ls) rest p) (p' : Progress) where
  pub cut_line-size : length (cut_line p before l ls rest).raw ≡ length p.raw
  unfolding joined
  cut_line-size = omega (
    arith,
    ap length at.raw,
    length-append before (l ++ (0 ∷ (joined ls ++ (0 ∷ rest)))),
    length-append l (0 ∷ (joined ls ++ (0 ∷ rest))),
    length-append (joined ls) (0 ∷ rest),
    length-append before (joined (l ∷ ls) ++ (0 ∷ rest)),
    length-append (joined (l ∷ ls)) (0 ∷ rest),
    length-append l (delimiter ∷ joined ls),
  )

  pub Ended-last :
      Answered none (cut_line p before l ls rest) p' → v l ≡ none → Ended v (l ∷ ls) p (next_j p')
  unfolding handled flagged
  Ended-last a e = record {
    valid = a.sent.valid;
    spacious = a.sent.spacious;
    out = a.out;
    bytes = a.sent.bytes;
    answers = last l ls a.out e a.answers;
    count = rw e (omega (arith, a.same_j));
    flag = rw e a.flag;
    size = ap length a.same_raw ∙ cut_line-size;
  }

  pub At-next :
      {z : ℤ}
      → Answered (some z) (cut_line p before l ls rest) p'
      → At (before ++ (l ++ 0 ∷ [])) ls rest (next_j p')
  At-next a = record {
    raw =
        a.same_raw
        ∙ sym (
            append_assoc before (l ++ 0 ∷ []) (joined ls ++ (0 ∷ rest))
            ∙ ap (λ t. before ++ t) (append_assoc l (0 ∷ []) (joined ls ++ (0 ∷ rest))));
    save =
        omega (
          arith,
          length-append before (l ++ 0 ∷ []),
          length-append l (0 ∷ []),
          a.same_save,
          at.save,
        );
    valid = a.sent.valid;
    spacious = a.sent.spacious;
    few = omega (arith, a.sent.more, at.few);
    in_range = a.in_range;
  }

  pub Ended-more :
      {z : ℤ} {p'' : Progress}
      → Answered (some z) (cut_line p before l ls rest) p'
      → v l ≡ some z
      → Ended v ls (next_j p') p''
      → Ended v (l ∷ ls) p p''
  unfolding handled flagged
  Ended-more {z} a e n = record {
    valid = n.valid;
    spacious = n.spacious;
    out = a.out ++ n.out;
    bytes = n.bytes ∙ ap (λ t. t ++ n.out) a.sent.bytes ∙ append_assoc (contents p.sdq) a.out n.out;
    answers = more l ls a.out n.out (a.out ++ n.out) z e a.answers n.answers refl;
    count = rw e (omega (arith, n.count, a.same_j));
    flag = rw e (n.flag ∙ ap (λ b. flagged v b ls) a.flag);
    size = n.size ∙ ap length a.same_raw ∙ cut_line-size;
  }

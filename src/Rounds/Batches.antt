-- ===== src/Rounds/Batches.antt =====
-- How `epoll_wait` cuts the events into rounds makes no difference.
use network_exercises.Common.{◌≡◌, refl, sym, ap, ◌∙◌, List, [], ◌∷◌, ◌++◌, append_assoc}
use network_exercises.Run.{Run, ok, aborted, undefined, out_of_fuel, ◌>>=◌}
use network_exercises.Rounds.{Round, got, Progress, handle_events, run_rounds}

-- The events of some rounds, one at least in each.
abbrev pub Batches : Type 0 → Type 0
Batches E = List (E × List E)

-- Rounds that bring these events, and no timeout.
abbrev pub rounds_of : {E : Type 0} → Batches E → List (Round E)
rounds_of [] = []
rounds_of ((first, others) ∷ batches) = got first others ∷ rounds_of batches

abbrev pub all_events : {E : Type 0} → Batches E → List E
all_events [] = []
all_events ((first, others) ∷ batches) = (first ∷ others) ++ all_events batches

-- Results that are put behind others.
abbrev behind : {O A : Type 0} → List O → Run (A × List O) → Run (A × List O)
behind outs r = r >>= λ (a, more). ok (a, outs ++ more)

behind-nothing : {O A : Type 0} (r : Run (A × List O)) → behind [] r ≡ r
behind-nothing (ok (a, more)) = refl
behind-nothing aborted = refl
behind-nothing undefined = refl
behind-nothing out_of_fuel = refl

behind-behind :
    {O A : Type 0} (outs more : List O) (r : Run (A × List O))
    → behind outs (behind more r) ≡ behind (outs ++ more) r
behind-behind outs more (ok (a, rest)) = ap (λ l. ok (a, l)) (sym (append_assoc outs more rest))
behind-behind outs more aborted = refl
behind-behind outs more undefined = refl
behind-behind outs more out_of_fuel = refl

-- Two runs one after the other, with what both put out.
abbrev pub followed :
    {S O A : Type 0} → Run (S × List O) → (S → Run (A × List O)) → Run (A × List O)
followed r next = r >>= λ (s, outs). behind outs (next s)

behind-followed :
    {S O A : Type 0} (outs : List O) (r : Run (S × List O)) (next : S → Run (A × List O))
    → behind outs (followed r next) ≡ followed (behind outs r) next
behind-followed outs (ok (s, more)) next = behind-behind outs more (next s)
behind-followed outs aborted next = refl
behind-followed outs undefined next = refl
behind-followed outs out_of_fuel next = refl

-- The order of putting together three runs.
followed-followed :
    {S T O A : Type 0} (r : Run (S × List O)) (rest : S → Run (T × List O))
    (next : T → Run (A × List O)) (all : S → Run (A × List O))
    → ((s : S) → all s ≡ followed (rest s) next)
    → followed r all ≡ followed (followed r rest) next
followed-followed (ok (s, outs)) rest next all same =
    ap (behind outs) (same s) ∙ behind-followed outs (rest s) next
followed-followed aborted rest next all same = refl
followed-followed undefined rest next all same = refl
followed-followed out_of_fuel rest next all same = refl

-- A run whose result is one output.
abbrev single : {S O : Type 0} → Run (S × O) → Run (S × List O)
single r = r >>= λ (s, out). ok (s, out ∷ [])

followed-single :
    {S O A : Type 0} (r : Run (S × O)) (next : S → Run (A × List O))
    → followed (single r) next ≡ (r >>= λ (s, out). behind (out ∷ []) (next s))
followed-single (ok (s, out)) next = refl
followed-single aborted next = refl
followed-single undefined next = refl
followed-single out_of_fuel next = refl

module _ {S E O : Type 0} (handle_event : S → E → Run (S × O)) where
  handle_events-append :
      (s : S) (xs ys : List E)
      → handle_events handle_event s (xs ++ ys)
        ≡ followed (handle_events handle_event s xs) (λ s'. handle_events handle_event s' ys)
  unfolding handle_events
  handle_events-append s [] ys = sym (behind-nothing _)
  handle_events-append s (e ∷ xs) ys =
      sym (followed-single (handle_event s e) (λ s'. handle_events handle_event s' (xs ++ ys)))
      ∙ followed-followed (single (handle_event s e)) (λ s'. handle_events handle_event s' xs)
          (λ s'. handle_events handle_event s' ys) (λ s'. handle_events handle_event s' (xs ++ ys))
          (λ s'. handle_events-append s' xs ys)
      ∙ ap (λ r. followed r (λ s'. handle_events handle_event s' ys))
          (followed-single (handle_event s e) (λ s'. handle_events handle_event s' xs))

  -- However `epoll_wait` cuts the events into rounds, as long as it neither fails nor runs into its
  -- timeout, the server does the same: it handles all events in their order, puts out the same, and
  -- goes on with the same rounds. It stops early just where an event stops it.
  pub run_rounds-batches :
      {F : Type 0} (on_timeout : S → Run (Progress S F)) (s : S) (batches : Batches E)
      (rounds : List (Round E))
      → run_rounds handle_event on_timeout s (rounds_of batches ++ rounds)
        ≡ followed
            (handle_events handle_event s (all_events batches))
            (λ s'. run_rounds handle_event on_timeout s' rounds)
  unfolding run_rounds handle_events
  run_rounds-batches on_timeout s [] rounds = sym (behind-nothing _)
  run_rounds-batches on_timeout s ((first, others) ∷ batches) rounds =
      followed-followed (handle_events handle_event s (first ∷ others))
        (λ s'. handle_events handle_event s' (all_events batches))
        (λ s'. run_rounds handle_event on_timeout s' rounds)
        (λ s'. run_rounds handle_event on_timeout s' (rounds_of batches ++ rounds))
        (λ s'. run_rounds-batches on_timeout s' batches rounds)
      ∙ ap (λ r. followed r (λ s'. run_rounds handle_event on_timeout s' rounds))
          (sym (handle_events-append s (first ∷ others) (all_events batches)))

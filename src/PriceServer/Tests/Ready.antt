-- ===== src/PriceServer/Tests/Ready.antt =====
-- The server of c/source/means-to-an-end/main.c after its client has asked: its states and its table.
use network_exercises.Common.{
  ℕ, ◌+◌, ◌≤◌, ◌<◌, ◌≡◌, refl, ap, ◌∙◌, arith, true, inl, inr, List, [], ◌∷◌, length, Bool-cases,
}
use network_exercises.Common.Int.{pos, eq_ℤ}
use network_exercises.Run.{ok, Returns, Returns-result, Returns-at}
use network_exercises.Memory.Growing.{growing, growing-Serves}
use network_exercises.Queue.{init}
use network_exercises.Prices.Store.{samples}
use network_exercises.Messages.Meaning.{replies}
use network_exercises.Net.{Event, ready, took, errno}
use network_exercises.Net.Receive.{joined}
use network_exercises.Links.Append.{without, replaced}
use network_exercises.Sessions.{Client}
use network_exercises.Sessions.Find.{Sessions, id_of}
use network_exercises.PriceServer.{Server, Served, handle_event, start}
use network_exercises.PriceServer.Serve.{taken, arrived}
use network_exercises.PriceServer.Table.{watches, watches-lookup, length-ids}
use network_exercises.PriceServer.Step.{AnswerTo, after, on_ready-AnswerTo}
use network_exercises.PriceServer.Loop.{
  Reach, started, next, received, Admits, Front, Honest-Sends, handle_event-Reach, Reach-IsSound,
  IsSound,
}
use network_exercises.PriceServer.Tests.{blank, malloc, first_server}
use network_exercises.PriceServer.Tests.Runs.{comes, inbox, after_comes, watched_after, answered_by}

-- `send` would fail after the reply.
abbrev pub asks_once : Event
asks_once = ready 5 inbox (took 4 ∷ errno 32 ∷ []) true

pub asks_once-Admits :
    (s : Server) (wire : List ℕ)
    → handle_event (growing 0) (growing blank) 3 malloc first_server comes ≡ ok (s, wire)
    → Admits malloc 3 0 s asks_once
unfolding watches joined
asks_once-Admits s wire ran =
    let watched = watched_after s wire ran in
    (
      refl,
      omega arith,
      ap (watches (pos 5)) watched,
      omega (arith, ap length watched),
      omega arith,
      omega arith,
      omega arith,
      (
        took 4 ∷ [],
        32,
        refl,
        λ xs c place known.
            (omega (arith, answered_by s wire (after_comes s wire ran) xs c place known), tt),
      ),
    )

length-replaced :
    (fd : ℕ) (new : Client) (xs : Sessions) → length (replaced id_of (pos fd) new xs) ≡ length xs
unfolding replaced
length-replaced fd new [] = refl
length-replaced fd new ((a, c) ∷ xs) = elim (Bool-cases (eq_ℤ c.client_id (pos fd))) [
  | inl hit ↦ rw hit refl
  | inr miss ↦ rw miss (omega (arith, length-replaced fd new xs))
]

length-without : (fd : ℕ) (xs : Sessions) → length (without id_of (pos fd) xs) ≤ length xs
unfolding without
length-without fd [] = omega arith
length-without fd ((a, c) ∷ xs) = elim (Bool-cases (eq_ℤ c.client_id (pos fd))) [
  | inl hit ↦ rw hit (omega arith)
  | inr miss ↦ rw miss (omega (arith, length-without fd xs))
]

length-after : (fd : ℕ) (v : Served) (xs : Sessions) → length (after fd v xs) ≤ length xs
length-after fd v xs = elim (Bool-cases v.keep) [
  | inl stays ↦ rw stays (omega (arith, length-replaced fd v.client xs))
  | inr gone ↦ rw gone (length-without fd xs)
]

-- No more descriptors are watched than before.
pub few_after :
    (s t : Server) (wire out : List ℕ)
    → handle_event (growing 0) (growing blank) 3 malloc first_server comes ≡ ok (s, wire)
    → handle_event (growing 0) (growing blank) 3 malloc s asks_once ≡ ok (t, out)
    → length t.watched < 3
unfolding handle_event watches joined
few_after s t wire out ran then =
    let (xs, w, k) = after_comes s wire ran in
    let watched = watched_after s wire ran in
    let one : length xs ≡ 1 = omega (arith, length-ids xs, ap length w.known, ap length watched) in
    let (c, known) = watches-lookup (pos 5) xs (ap (watches (pos 5)) (w.known ∙ watched)) in
    let r = replies (samples c.asset) (taken inbox.end (arrived c inbox)) in
    let four = answered_by s wire (xs, w, k) xs c w.place known in
    let (v, served, sent, w') =
      Returns-at (AnswerTo 0 xs 5 inbox (Front r) c) _ (t, out) then
        (on_ready-AnswerTo (growing-Serves 0) (growing-Serves blank) 3 0 s xs c 5 inbox
          (took 4 ∷ errno 32 ∷ []) (Front r) w (omega arith) known (omega (arith, one))
          (omega arith) (omega arith) (omega arith)
          (Honest-Sends (took 4 ∷ []) 32 5 r (omega arith) (omega (arith, four), tt))) in
    omega (arith, length-after 5 v xs, length-ids (after 5 v xs), ap length w'.known, one)

first_server-Reach : Reach (growing 0) (growing blank) malloc 3 0 first_server
unfolding start init
first_server-Reach = started refl

-- The server once the client has come in.
came_in :
    (r : Server × List ℕ) × (handle_event (growing 0) (growing blank) 3 malloc first_server comes
      ≡ ok r)
    × Reach (growing 0) (growing blank) malloc 3 0 r.0
unfolding watches
came_in =
    let (r, ran, q) = Returns-result _ _ (
      handle_event-Reach (growing-Serves 0) (growing-Serves blank) malloc 3 0 first_server comes
        first_server-Reach (refl, refl, refl, (40, refl, refl), omega arith)) in
    (r, ran, q.0)

handle_event-Reach_example :
    Returns
      (λ (s, wire).
        Reach (growing 0) (growing blank) malloc 3 (0 + received asks_once) s
        × IsSound (0 + received asks_once) s)
      (handle_event (growing 0) (growing blank) 3 malloc came_in.0.0 asks_once)
handle_event-Reach_example =
    handle_event-Reach (growing-Serves 0) (growing-Serves blank) malloc 3 0 came_in.0.0 asks_once
      came_in.2 (asks_once-Admits came_in.0.0 came_in.0.1 came_in.1)

-- The server once it has answered.
has_answered :
    (r : Server × List ℕ) × (handle_event (growing 0) (growing blank) 3 malloc came_in.0.0 asks_once
      ≡ ok r)
has_answered =
    let (r, ran, q) = Returns-result _ _ (
      handle_event-Reach (growing-Serves 0) (growing-Serves blank) malloc 3 0 came_in.0.0 asks_once
        came_in.2 (asks_once-Admits came_in.0.0 came_in.0.1 came_in.1)) in
    (r, ran)

has_answered-Reach : Reach (growing 0) (growing blank) malloc 3 18 has_answered.0.0
has_answered-Reach =
    next asks_once has_answered.0.1 came_in.2 (asks_once-Admits came_in.0.0 came_in.0.1 came_in.1)
      has_answered.1 refl

Reach-IsSound_example : IsSound 18 has_answered.0.0
Reach-IsSound_example =
    Reach-IsSound (growing-Serves 0) (growing-Serves blank) malloc 3 has_answered-Reach

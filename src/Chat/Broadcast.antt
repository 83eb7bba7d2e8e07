-- ===== src/Chat/Broadcast.antt =====
-- What a broadcast sends, and to whom.
use network_exercises.Common.{
  ℕ, zero, suc, ◌+◌, ◌^◌, ◌≤◌, ◌<◌, ◌≡◌, refl, sym, ap, subst, ◌∙◌, Bool, false, not, ◌&&◌, ◌==◌,
  inl, inr, Option, none, some, List, [], ◌∷◌, ◌++◌, length, take, replicate, append-nil,
  append_assoc, Bool-cases, arith, if◌then◌else◌,
}
use network_exercises.Common.Int.{ℤ, pos_part, eq_ℤ}
use network_exercises.Common.Words.{to_int_small}
use network_exercises.Run.{ok, ◌>>=◌}
use network_exercises.Memory.{load}
use network_exercises.Net.{Answer, took}
use network_exercises.Net.Send.{sendall-whole}
use mathlib.Core.Option.{none-ne-some, some-injective}
use network_exercises.Links.{Node, Heap}
use network_exercises.Links.Linked.{addr, Ahead, IsLinked, IsLinked-whole, onto}
use network_exercises.Links.Walk.{back-farthest, onto-first}
use network_exercises.Links.Append.{At}
use network_exercises.Sessions.Find.{length-onto}
use network_exercises.Chat.{
  Client, Wires, send_to, first, is_other, broadcast_loop, broadcast_message_from,
}

abbrev pub Clients : Type 0
Clients = List (ℕ × Client)

-- The name of a client is an array.
abbrev pub Named : Clients → Type 0
Named [] = Unit {0}
Named ((a, c) ∷ xs) = (0 < length c.name) × Named xs

abbrev pub starts : List ℕ → Bool
starts [] = false
starts (b ∷ bs) = not (b == 0)

-- Another client that has given its name.
unfoldable pub other : ℤ → Client → Bool
other me c = not (eq_ℤ c.id me) && starts c.name

unfoldable pub others : ℤ → Clients → ℕ
others me [] = 0
others me ((a, c) ∷ xs) = if other me c then suc (others me xs) else others me xs

load_first : (b : ℕ) (bs : List ℕ) → load (b ∷ bs) 0 ≡ ok b
unfolding load
load_first b bs = refl

is_other_by :
    (me : ℤ) (c : Client) (name : List ℕ)
    → 0 < length name
    → (load name 0 >>= λ x. ok (not (eq_ℤ c.id me) && not (x == 0)))
      ≡ ok (not (eq_ℤ c.id me) && starts name)
is_other_by me c [] h = absurd (omega arith)
is_other_by me c (b ∷ bs) h = rw (load_first b bs) refl

pub is_other-other : (me : ℤ) (c : Client) → 0 < length c.name → is_other me c ≡ ok (other me c)
unfolding is_other other
is_other-other me c h = is_other_by me c c.name h

-- `send` takes everything that it is offered, each time.
abbrev pub all_taken : ℕ → ℕ → List (List Answer) → List (List Answer)
all_taken zero size more = more
all_taken (suc n) size more = (took size ∷ []) ∷ all_taken n size more

-- So many copies go to one descriptor.
abbrev pub copies : ℕ → ℤ × List ℕ → List (ℤ × List ℕ)
copies n s = replicate n s

abbrev pub wires : List (List Answer) → List (ℤ × List ℕ) → Wires
wires answers sent = record { answers = answers; sent = sent }

pub send_to-whole :
    (id : ℤ) (msg : List ℕ) (size : ℕ) (more : List (List Answer)) (sent : List (ℤ × List ℕ))
    → 0 < pos_part id
    → 0 < size
    → size + 2 < 2 ^ 31
    → size + 2 ≤ length msg
    → send_to (wires ((took size ∷ []) ∷ more) sent) id msg size
      ≡ ok (wires more (sent ++ (id, take size msg) ∷ []))
unfolding send_to
send_to-whole id msg size more sent some_fd some_bytes small readable =
    rw (sendall-whole (pos_part id) size msg some_fd some_bytes small readable)

module _ (h : Heap Client) (me target : ℤ) (msg : List ℕ) (size : ℕ) (more : List (List Answer))
    (some_fd : 0 < pos_part target) (some_bytes : 0 < size) (small : size + 2 < 2 ^ 31)
    (readable : size + 2 ≤ length msg) where
  broadcast_loop-copies :
      (fuel : ℕ) (prev : Option ℕ) (xs : Clients) (sent : List (ℤ × List ℕ))
      → Ahead h prev xs
      → Named xs
      → length xs < fuel
      → broadcast_loop fuel h me target msg size
          (addr xs)
          (wires (all_taken (others me xs) size more) sent)
        ≡ ok (wires more (sent ++ copies (others me xs) (target, take size msg)))
  unfolding broadcast_loop others
  broadcast_loop-copies zero prev xs sent l named enough = absurd (omega arith)
  broadcast_loop-copies (suc fuel) prev [] sent l named enough =
      ap (λ s. ok (wires more s)) (sym (append-nil sent))
  broadcast_loop-copies (suc fuel) prev ((a, c) ∷ xs) sent l named enough =
      rw (l.0, is_other-other me c named.0, to_int_small size (omega (arith, small)))
        (elim (Bool-cases (other me c)) [
          | inl yes_other ↦ rw yes_other (
              rw
                (send_to-whole target msg size (all_taken (others me xs) size more) sent some_fd
                  some_bytes small readable)
                (broadcast_loop-copies fuel (some a) xs (sent ++ (target, take size msg) ∷ []) l.1
                    named.1 (omega arith)
                  ∙ ap (λ s. ok (wires more s))
                      (append_assoc sent ((target, take size msg) ∷ [])
                        (copies (others me xs) (target, take size msg)))))
          | inr no_other ↦
              rw no_other (broadcast_loop-copies fuel (some a) xs sent l.1 named.1 (omega arith))
        ])

module _ (fuel : ℕ) (h : Heap Client) where
  first-onto :
      (c f : ℕ) (rs zs : Clients)
      → some c ≡ addr zs
      → IsLinked h rs zs
      → addr (onto rs zs) ≡ some f
      → length (onto rs zs) < fuel
      → first fuel h (addr zs) ≡ ok f
  unfolding first
  first-onto c f rs [] e l starts_at enough = absurd (none-ne-some _ (sym e))
  first-onto c f rs ((a, d) ∷ zs) e l starts_at enough =
      let few : length rs < fuel = omega (arith, length-onto rs ((a, d) ∷ zs)) in
      rw l.forth.0 (
        back-farthest fuel h a rs l.behind few
        ∙ ap ok (some-injective _ _ (sym (onto-first a d rs zs) ∙ starts_at)))

  -- From any place in a well-formed list the walk back reaches its first client.
  pub first-At :
      (c f : ℕ) (xs : Clients)
      → At h (some c) xs
      → addr xs ≡ some f
      → length xs < fuel
      → first fuel h (some c) ≡ ok f
  first-At c f xs place starts_at enough =
      ap (first fuel h) place.place
      ∙ first-onto c f place.rs place.zs place.place place.linked (ap addr place.whole ∙ starts_at)
          (omega (arith, ap length place.whole))

  pub whole-At : (p : Option ℕ) (xs : Clients) → At h p xs → IsLinked h [] xs
  whole-At p xs place =
      subst (λ l. IsLinked h [] l) place.whole (IsLinked-whole h place.rs place.zs place.linked)

  -- `client_broadcast_message_from` for a client `c` of a well-formed list of fewer clients than the
  -- fuel, whose names are arrays and whose first client has a positive descriptor, with a message
  -- that is not empty, of fewer than 2^31 - 2 bytes, and with two bytes to read behind it, where
  -- `send` takes everything: for every other client with a name one copy of the message goes to the
  -- first client of the list, and to nobody else.
  pub broadcast_message_from-copies :
      (c f : ℕ) (n : Node Client) (first_client : Client) (rest : Clients) (msg : List ℕ) (size : ℕ)
      (more : List (List Answer)) (sent : List (ℤ × List ℕ))
      → At h (some c) ((f, first_client) ∷ rest)
      → h c ≡ some n
      → Named ((f, first_client) ∷ rest)
      → length ((f, first_client) ∷ rest) < fuel
      → 0 < pos_part first_client.id
      → 0 < size
      → size + 2 < 2 ^ 31
      → size + 2 ≤ length msg
      → let k = others n.data_of.id ((f, first_client) ∷ rest) in
        broadcast_message_from fuel h c msg size (wires (all_taken k size more) sent)
        ≡ ok (wires more (sent ++ copies k (first_client.id, take size msg)))
  unfolding broadcast_message_from
  broadcast_message_from-copies c f n first_client rest msg size more sent place here named enough
        some_fd some_bytes small readable =
      let l = whole-At (some c) ((f, first_client) ∷ rest) place in
      rw (here, first-At c f ((f, first_client) ∷ rest) place refl enough, l.forth.0)
        (broadcast_loop-copies h n.data_of.id first_client.id msg size more some_fd some_bytes small
          readable fuel none ((f, first_client) ∷ rest) sent l.forth named enough)

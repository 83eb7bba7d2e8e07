-- ===== src/Chat/Username.antt =====
-- Which names are accepted, and what an accepted name leaves in the client.
use network_exercises.Common.{
  ℕ, ◌+◌, ◌^◌, ◌≤◌, ◌<◌, ◌≡◌, refl, sym, ap, subst, ◌∙◌, Bool, not, inl, inr, none, some, List, [],
  ◌∷◌, ◌++◌, length, take, drop, take-take, Bool-cases, arith, ltb, leb, get_elem?, length-append,
  take-append, length-take, length-set, take-set_after, get_elem?-set_before, get_elem?-set_self,
  get_elem?-drop, if◌then◌else◌,
}
use network_exercises.Common.Int.{ℤ}
use network_exercises.Run.{ok, ◌>>=◌, Returns, Returns-bind}
use network_exercises.Memory.{assign-ok, sub64}
use network_exercises.Queue.{reset}
use network_exercises.Queue.Valid.{IsValid, contents, length-contents}
use network_exercises.Queue.Push.{Copied, memcpy-Copied}
use network_exercises.Queue.Pop.{pop_no_copy-some, reset-IsValid}
use network_exercises.Links.{Node, Heap}
use network_exercises.Links.Linked.{addr}
use network_exercises.Links.Append.{At}
use network_exercises.Chat.{Client, client_max_name}
use network_exercises.Chat.Request.{
  name_exists_loop, name_exists, set_name, all_alnum, validate_username, Verdict, accepted,
  empty_name, too_long, not_alphanumeric, already_taken,
}
use network_exercises.Chat.Broadcast.{Clients, first-At, whole-At}
use network_exercises.Chat.Names.{
  Arrays, IsAscii, taken, alnum, name_exists_loop-taken, all_alnum-alnum, taken-take,
}

-- What `client_validate_username` should find for a name.
unfoldable pub verdict : (ℕ → Bool) → ℤ → List ℕ → Clients → Verdict
verdict isalnum me name xs =
    if ltb (length name) 1
    then empty_name
    else if leb client_max_name (length name)
    then too_long
    else if not (alnum isalnum name)
    then not_alphanumeric
    else if taken me name (length name) xs
    then already_taken
    else accepted

-- An accepted name stands at the front of the array, and its size in `name_size`; the NUL is written
-- one place further than behind the name. Otherwise the name is as it was.
abbrev pub NameAfter : Client → List ℕ → Verdict → Client → Type 0
NameAfter me name accepted me' =
    (take (length name) me'.name ≡ name)
    × (get_elem? me'.name (length name) ≡ get_elem? me.name (length name))
    × (get_elem? me'.name (length name + 1) ≡ some 0)
    × (length me'.name ≡ length me.name)
    × (me'.name_size ≡ length name)
NameAfter me name _ me' = (me'.name ≡ me.name) × (me'.name_size ≡ me.name_size)

set_name-NameAfter :
    (me : Client) (name : List ℕ) (size : ℕ)
    → length me.name ≡ 33
    → size < 32
    → size ≤ length name
    → Returns
        (λ me'.
          (me'.id ≡ me.id)
          × (me'.recv_qu ≡ me.recv_qu)
          × NameAfter me (take size name) accepted me')
        (set_name me name size)
unfolding set_name
set_name-NameAfter me name size array short room =
    let start : 0 + size ≡ size = omega arith in
    let n : length (take size name) ≡ size = omega (arith, length-take size name) in
    Returns-bind (Copied me.name 0 name size) _ _ _
      (memcpy-Copied me.name 0 name size room (omega arith))
      (λ copied k. rw (assign-ok copied (size + 1) 0 (omega (arith, k.size))) (
        let kept : drop size copied ≡ drop size me.name =
          subst (λ m. drop m copied ≡ drop m me.name) start k.rest in
        rw n (
          refl,
          refl,
          (
            take-set_after copied size (size + 1) 0 (omega arith)
                ∙ subst (λ m. take m copied ≡ take size name) start k.front,
            get_elem?-set_before copied size (size + 1) 0 (omega arith)
                ∙ sym (get_elem?-drop copied size)
                ∙ ap (λ l. get_elem? l 0) kept
                ∙ get_elem?-drop me.name size,
            get_elem?-set_self copied (size + 1) 0 (omega (arith, k.size)),
            length-set copied (size + 1) 0 ∙ k.size,
            refl,
          ),
        )))

-- What the verdict on a name leaves of a client, among these clients: its queue is empty.
unfoldable pub Validated : (ℕ → Bool) → Client → Clients → List ℕ → Verdict × Client → Type 0
Validated isalnum me xs name (v, me') =
    (v ≡ verdict isalnum me.id name xs)
    × (me'.id ≡ me.id)
    × IsValid me'.recv_qu
    × (contents me'.recv_qu ≡ [])
    × NameAfter me name v me'

module _ (fuel : ℕ) (h : Heap Client) (c f : ℕ) (n : Node Client) (xs : Clients)
    (place : At h (some c) xs) (starts_at : addr xs ≡ some f) (here : h c ≡ some n)
    (arrays : Arrays 33 xs) (enough : length xs < fuel) where
  name_exists-taken :
      (name : List ℕ) (size : ℕ)
      → size < 33
      → size ≤ length name
      → name_exists fuel h c name size ≡ ok (taken n.data_of.id name size xs)
  unfolding name_exists
  name_exists-taken name size short room =
      rw (here, first-At fuel h c f xs place starts_at enough)
        (ap (name_exists_loop fuel h n.data_of.id name size) (sym starts_at)
          ∙ name_exists_loop-taken fuel h n.data_of.id name size none xs
              (whole-At fuel h (some c) xs place).forth arrays short room enough)

  set_name-Validated :
      (isalnum : ℕ → Bool) (name buf : List ℕ)
      → verdict isalnum n.data_of.id name xs ≡ accepted
      → length n.data_of.name ≡ 33
      → IsValid n.data_of.recv_qu
      → length name < 32
      → length name ≤ length buf
      → take (length name) buf ≡ name
      → let me : Client = record n.data_of { recv_qu = reset n.data_of.recv_qu } in
        Returns
          (Validated isalnum n.data_of xs name)
          (set_name me buf (length name) >>= λ named. ok (accepted, named))
  unfolding Validated
  set_name-Validated isalnum name buf good array valid short room front =
      let me : Client = record n.data_of { recv_qu = reset n.data_of.recv_qu } in
      let drained = reset-IsValid n.data_of.recv_qu valid in
      let After : List ℕ → Client → Type 0 = λ text me'.
        (me'.id ≡ me.id) × (me'.recv_qu ≡ me.recv_qu) × NameAfter me text accepted me' in
      Returns-bind (After name) (Validated isalnum n.data_of xs name)
        (set_name me buf (length name)) (λ named. ok (accepted, named))
        (subst (λ text. Returns (After text) (set_name me buf (length name))) front
          (set_name-NameAfter me buf (length name) array short room))
        (λ me' k.
          (sym good, k.0, subst IsValid (sym k.1) drained.0, ap contents k.1 ∙ drained.1, k.2))

  -- `client_validate_username` for a client `c` of a well-formed list of fewer clients than the fuel,
  -- where all names are arrays of at least 33 bytes and that of `c` of 33, and where the queue of `c`
  -- is valid, shorter than an `int`, and holds a name and one more byte, where a name of fewer than 32
  -- characters has none of 128 and more: it returns the verdict of the
  -- description above (empty, 32 characters or more, a character that is no letter and no digit,
  -- a name with which the name of another client begins, or accepted), keeps the descriptor, and
  -- leaves a valid and empty queue. An accepted name is then stored with its size, the NUL two places
  -- behind its last character; a refused one changes neither.
  pub validate_username-verdict :
      (isalnum : ℕ → Bool) (name : List ℕ) (end : ℕ)
      → length n.data_of.name ≡ 33
      → IsValid n.data_of.recv_qu
      → n.data_of.recv_qu.size < 2 ^ 31
      → contents n.data_of.recv_qu ≡ name ++ end ∷ []
      → (length name < 32 → IsAscii name)
      → Returns (Validated isalnum n.data_of xs name) (validate_username isalnum fuel h c)
  unfolding validate_username Validated verdict
  validate_username-verdict isalnum name end array valid small holds ascii =
      let qu = n.data_of.recv_qu in
      let count : qu.size ≡ length name + 1 =
        sym (length-contents qu valid) ∙ ap length holds ∙ length-append name (end ∷ []) in
      let whole : length qu.buf ≡ qu.capacity = valid.filled in
      let less : sub64 qu.size 1 ≡ length name = omega (arith, count) in
      let drained = reset-IsValid qu valid in
      let front : take (length name) qu.buf ≡ name =
        sym (take-take (length name) qu.size qu.buf (omega (arith, count)))
        ∙ ap (take (length name)) holds
        ∙ take-append name (end ∷ []) (length name) refl in
      let letters : length name < 32
          → all_alnum isalnum qu.buf (length name) 0 ≡ ok (alnum isalnum name) =
        λ fits.
          all_alnum-alnum isalnum qu.buf (length name) 0 (omega (arith, count, whole))
            (subst IsAscii (sym front) (ascii fits))
          ∙ ap (λ l. ok (alnum isalnum l)) front in
      let is_taken : taken n.data_of.id qu.buf (length name) xs
          ≡ taken n.data_of.id name (length name) xs =
        sym (taken-take n.data_of.id qu.buf (length name) xs)
        ∙ ap (λ l. taken n.data_of.id l (length name) xs) front in
      rw here (
        rw (pop_no_copy-some qu (omega (arith, count)) small) (
          rw less (elim (Bool-cases (ltb (length name) 1)) [
            | inl none_left ↦
                rw none_left (rw none_left refl, refl, drained.0, drained.1, (refl, refl))
            | inr some_left ↦ rw some_left (elim (Bool-cases (leb client_max_name (length name))) [
              | inl long ↦
                  rw long (rw (some_left, long) refl, refl, drained.0, drained.1, (refl, refl))
              | inr fits ↦
                  rw (fits, letters (ground (arith, fits)))
                    (elim (Bool-cases (alnum isalnum name)) [
                      | inr bad ↦
                          rw bad (
                            rw (some_left, fits, bad) refl,
                            refl,
                            drained.0,
                            drained.1,
                            (refl, refl),
                          )
                      | inl good ↦
                          rw
                            (
                              good,
                              name_exists-taken qu.buf (length name) (ground (arith, fits))
                                  (omega (arith, count, whole)),
                              is_taken,
                            )
                            (elim (Bool-cases (taken n.data_of.id name (length name) xs)) [
                              | inl used ↦ rw used (
                                rw (some_left, fits, good, used) refl,
                                refl,
                                drained.0,
                                drained.1,
                                (refl, refl),
                              )
                              | inr free_name ↦ rw free_name (
                                  set_name-Validated isalnum name qu.buf
                                    (rw (some_left, fits, good, free_name) refl) array valid
                                    (ground (arith, fits)) (omega (arith, count, whole)) front)
                            ])
                    ])
            ])
          ])))

-- ===== src/Chat/Room.antt =====
-- A client that joins: the welcome, and the list of those who are there.
use network_exercises.Common.{
  ℕ, zero, suc, ◌+◌, ◌≤◌, ◌<◌, ◌≡◌, refl, sym, ap, subst, ◌∙◌, inl, inr, Option, none, some, List,
  [], ◌∷◌, ◌++◌, length, take, append-nil, append_assoc, length-append, length-take, Bool-cases,
  arith, if◌then◌else◌,
}
use network_exercises.Common.Int.{ℤ, pos_part}
use network_exercises.Common.Text.{codes}
use network_exercises.Run.{
  Run, undefined, ◌>>=◌, Returns, Returns-bind, Returns-mono, Returns-result,
}
use network_exercises.Memory.{Allocator, Serves, assign-ok}
use network_exercises.Queue.{Queue, init, push}
use network_exercises.Queue.Valid.{IsValid, contents, max_bytes}
use network_exercises.Queue.Push.{Holds, push-append}
use network_exercises.Queue.Pop.{IsFresh, init-IsFresh}
use network_exercises.Net.Send.{sendall-undefined}
use network_exercises.Links.{Node, Heap, some_or}
use network_exercises.Links.Linked.{addr, Ahead}
use network_exercises.Links.Append.{At}
use network_exercises.Chat.{
  Client, Wires, Fresh, open_client, next_answers, client_welcome_prompt, client_members,
}
use network_exercises.Chat.Request.{collect_loop, collect_names}
use network_exercises.Chat.Broadcast.{Clients, Named, other, is_other-other, first-At, whole-At}

-- A name in the list.
abbrev pub entry : Client → List ℕ
entry c = codes ", " ++ take c.name_size c.name

-- What the list of names says of the clients: a comma before each name, the first one too.
unfoldable pub listed : ℤ → Clients → List ℕ
listed me [] = []
listed me ((a, c) ∷ xs) = let rest = listed me xs in if other me c then entry c ++ rest else rest

-- The sizes of the names are within their arrays.
abbrev pub Sized : Clients → Type 0
Sized [] = Unit {0}
Sized ((a, c) ∷ xs) = (c.name_size ≤ length c.name) × Sized xs

module _ {mem : Allocator ℕ} (serves : Serves mem) where
  push-entry :
      (c : Client) (qu : Queue)
      → IsValid qu
      → c.name_size ≤ length c.name
      → qu.size + length (entry c) < max_bytes
      → Returns
          (Holds (contents qu ++ entry c) (qu.size + length (entry c)))
          (push mem qu (codes ", ") 2 >>= λ separated. push mem separated c.name c.name_size)
  push-entry c qu v inside few =
      let n : length (take c.name_size c.name) ≡ c.name_size =
        omega (arith, length-take c.name_size c.name) in
      Returns-bind (Holds (contents qu ++ codes ", ") (qu.size + 2)) _ _ _
        (push-append serves qu (codes ", ") 2 v (omega arith) (omega (arith, few)))
        (λ separated k.
          Returns-mono _ (Holds (contents qu ++ entry c) (qu.size + length (entry c))) _
            (push-append serves separated c.name c.name_size k.0 inside
              (omega (arith, k.2, few, n)))
            (λ qu' m. (
              m.0,
              m.1
                  ∙ ap (λ l. l ++ take c.name_size c.name) k.1
                  ∙ append_assoc (contents qu) (codes ", ") (take c.name_size c.name),
              omega (arith, m.2, k.2, n),
            )))

  collect_loop-listed :
      (fuel : ℕ) (h : Heap Client) (me : ℤ) (prev : Option ℕ) (xs : Clients) (qu : Queue)
      → Ahead h prev xs
      → Named xs
      → Sized xs
      → IsValid qu
      → qu.size + length (listed me xs) < max_bytes
      → length xs < fuel
      → Returns
          (Holds (contents qu ++ listed me xs) (qu.size + length (listed me xs)))
          (collect_loop mem fuel h me (addr xs) qu)
  unfolding collect_loop listed
  collect_loop-listed zero h me prev xs qu l named sized v few enough = absurd (omega arith)
  collect_loop-listed (suc fuel) h me prev [] qu l named sized v few enough =
      (v, sym (append-nil (contents qu)), omega arith)
  collect_loop-listed (suc fuel) h me prev ((a, c) ∷ xs) qu l named sized v few enough =
      rw (l.0, is_other-other me c named.0)
        (elim (Bool-cases (other me c)) [
          | inr no_other ↦
              let same : listed me ((a, c) ∷ xs) ≡ listed me xs = rw no_other refl in
              rw no_other (
                collect_loop-listed fuel h me (some a) xs qu l.1 named.1 sized.1 v
                  (omega (arith, few, ap length same)) (omega arith))
          | inl yes_other ↦
              let more : listed me ((a, c) ∷ xs) ≡ entry c ++ listed me xs = rw yes_other refl in
              let sum = length-append (entry c) (listed me xs) in
              rw yes_other (
                Returns-bind (Holds (contents qu ++ entry c) (qu.size + length (entry c))) _ _ _
                  (push-entry c qu v sized.0 (omega (arith, few, ap length more, sum)))
                  (λ qu' k.
                    Returns-mono _
                      (Holds (contents qu ++ (entry c ++ listed me xs))
                        (qu.size + length (entry c ++ listed me xs)))
                      _
                      (collect_loop-listed fuel h me (some a) xs qu' l.1 named.1 sized.1 k.0
                        (omega (arith, few, ap length more, sum, k.2)) (omega arith))
                      (λ qu'' m. (
                        m.0,
                        m.1
                            ∙ ap (λ l. l ++ listed me xs) k.1
                            ∙ append_assoc (contents qu) (entry c) (listed me xs),
                        omega (arith, m.2, k.2, sum),
                      ))))
        ])

  -- For a client `c` of a well-formed list of fewer clients than the fuel, each with an array for its
  -- name and a size within it, with memory at hand and a valid queue that stays below the bound: what
  -- `client_collect_list_of_names_other_names` adds to the queue of `c` is the heading and then, for
  -- every other client with a name, in the order of the list, a comma, a space and its name.
  pub collect_names-listed :
      (fuel : ℕ) (h : Heap Client) (c f : ℕ) (n : Node Client) (xs : Clients)
      → At h (some c) xs
      → addr xs ≡ some f
      → h c ≡ some n
      → Named xs
      → Sized xs
      → length xs < fuel
      → IsValid n.data_of.recv_qu
      → n.data_of.recv_qu.size + (21 + length (listed n.data_of.id xs)) < max_bytes
      → Returns
          (λ qu.
            IsValid qu
            × (contents qu
                ≡ contents n.data_of.recv_qu ++ (client_members ++ listed n.data_of.id xs)))
          (collect_names mem fuel h c)
  unfolding collect_names
  collect_names-listed fuel h c f n xs place starts_at here named sized enough v few =
      let me = n.data_of in
      let Listed : Queue → Type 0 = λ qu.
        IsValid qu × (contents qu ≡ contents me.recv_qu ++ (client_members ++ listed me.id xs)) in
      rw (here, first-At fuel h c f xs place starts_at enough)
        (Returns-bind (Holds (contents me.recv_qu ++ client_members) (me.recv_qu.size + 21)) _ _ _
          (push-append serves me.recv_qu client_members 21 v (omega arith) (omega (arith, few)))
          (λ opened k.
            subst (λ p. Returns Listed (collect_loop mem fuel h me.id p opened)) starts_at
              (Returns-mono _ Listed _
                (collect_loop-listed fuel h me.id none xs opened
                  (whole-At fuel h (some c) xs place).forth named sized k.0
                  (omega (arith, few, k.2)) enough)
                (λ qu m. (
                  m.0,
                  m.1
                      ∙ ap (λ l. l ++ listed me.id xs) k.1
                      ∙ append_assoc (contents me.recv_qu) client_members (listed me.id xs),
                )))))

some_or-undefined :
    (qu : Option Queue) {B : Type 0} (k : Queue → Run B)
    → ((q : Queue) → k q ≡ undefined)
    → (some_or qu >>= k) ≡ undefined
some_or-undefined none k h = refl
some_or-undefined (some q) k h = h q

-- With memory at hand, for an address that `malloc` returned and a positive descriptor, `client_open`
-- is undefined whatever `send` answers: `sendall` reads beyond the end of the welcome.
pub open_client-undefined :
    {mem : Allocator ℕ}
    → Serves mem
    → (fresh : Fresh) (a : ℕ) (h : Heap Client) (fd : ℤ) (w : Wires) → fresh.address ≡ some a
    → 0 < length fresh.name
    → 0 < pos_part fd
    → open_client mem fresh h fd w ≡ undefined
unfolding open_client
open_client-undefined {mem} serves fresh a h fd w got array some_fd =
    let (qu, made, _) =
      Returns-result (IsFresh 1024) (init mem none 1024)
        (init-IsFresh 1024 serves (omega arith) (omega arith)) in
    rw (got, assign-ok fresh.name 0 0 array, made)
      (some_or-undefined qu _ (λ q. rw (
        sendall-undefined (next_answers w.answers).0 (pos_part fd) 45
          (client_welcome_prompt ++ 0 ∷ []) some_fd (omega arith) (omega arith))))

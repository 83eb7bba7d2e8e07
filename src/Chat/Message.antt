-- ===== src/Chat/Message.antt =====
-- The messages of a client that has a name.
use network_exercises.Common.{
  ℕ, ◌+◌, ◌^◌, ◌<◌, ◌≡◌, ◌≢◌, ◌⊎◌, inl, inr, refl, ap, ap₂, ◌∙◌, arith, Bool, true, false, some,
  List, [], ◌∷◌, ◌++◌, ◌-◌, ◌≤◌, length, take, replicate, sym, subst, lt→ltb, length-append,
  length-replicate, take-append, take-length, ltb, ◌==◌,
}
use network_exercises.Common.Int.{ℤ, pos, pos_part}
use network_exercises.Run.{ok}
use network_exercises.Memory.{Allocator, load, load-ok, sub64}
use network_exercises.Queue.{reset}
use network_exercises.Queue.Pop.{pop_no_copy-some}
use network_exercises.Links.{Node, Heap, write}
use network_exercises.Net.{Answer}
use network_exercises.Links.Append.{At}
use network_exercises.Links.Linked.{write-at}
use network_exercises.Common.Text.{codes}
use network_exercises.Chat.{
  Client, Wires, client_max_message_size, text_of, printed, broadcast_message_from,
}
use network_exercises.Chat.Broadcast.{
  Clients, Named, others, copies, all_taken, wires, broadcast_message_from-copies,
}
use network_exercises.Chat.Similar.{
  Similar, Similar-Named, Similar-others, Similar-length, requeued, requeued-At,
}
use network_exercises.Chat.Request.{put, handle_request}

-- The client at an address with its queue emptied.
abbrev pub drained : Heap Client → ℕ → Node Client → Heap Client
drained h c n =
    write h c (record n { data_of = record n.data_of { recv_qu = reset n.data_of.recv_qu } })

pub put-write :
    (h : Heap Client) (c : ℕ) (n : Node Client) (new : Client)
    → h c ≡ some n
    → put h c new ≡ ok (write h c (record n { data_of = new }))
unfolding put
put-write h c n new here = rw here refl

-- For a client with a name, whose queue holds fewer than 2^31 bytes, a message that is empty or has
-- more than 1024 characters before its last byte: `client_handle_request` returns 0, empties the
-- queue, and sends nothing.
pub handle_request-drained :
    (isalnum : ℕ → Bool) (mem : Allocator ℕ) (fuel junk : ℕ) (h : Heap Client) (c : ℕ)
    (n : Node Client) (w : Wires) (letter : ℕ) (letters : List ℕ)
    → h c ≡ some n
    → n.data_of.name ≡ letter ∷ letters
    → letter ≢ 0
    → n.data_of.recv_qu.size < 2 ^ 31
    → (n.data_of.recv_qu.size ≡ 1) ⊎ (1025 < n.data_of.recv_qu.size)
    → handle_request isalnum mem fuel junk h c w ≡ ok (pos 0, drained h c n, w)
unfolding handle_request
handle_request-drained isalnum mem fuel junk h c n w letter letters here name some_name small
      extreme =
    let size = n.data_of.recv_qu.size in
    let me : Client = record n.data_of { recv_qu = reset n.data_of.recv_qu } in
    let first : load n.data_of.name 0 ≡ ok letter =
      ap (λ l. load l 0) name ∙ load-ok (letter ∷ letters) 0 letter refl in
    let named : (letter == 0) ≡ false = ground (arith, some_name) in
    let new = put-write h c n me here in
    rw (here, first, pop_no_copy-some n.data_of.recv_qu (omega (arith, extreme)) small)
      (rw (named, new)
        (elim extreme [
          | inl one ↦
              let none_left : (sub64 size 1 == 0) ≡ true = ground (arith, one) in rw none_left refl
          | inr long ↦
              let some_left : (sub64 size 1 == 0) ≡ false = ground (arith, long) in
              let over : ltb client_max_message_size (sub64 size 1) ≡ true = ground (arith, long) in
              rw (some_left, over) refl
        ]))

-- A text has no NUL in it.
abbrev pub NoNul : List ℕ → Type 0
NoNul [] = Unit {0}
NoNul (c ∷ t) = (c ≢ 0) × NoNul t

pub text_of-ok : (t rest : List ℕ) → NoNul t → text_of (t ++ 0 ∷ rest) ≡ ok t
unfolding text_of
text_of-ok [] rest n = refl
text_of-ok (c ∷ t) rest n =
    let letter : (c == 0) ≡ false = ground (arith, n.0) in rw (text_of-ok t rest n.1, letter) refl

pub printed-ok :
    (text : List ℕ) (size junk : ℕ)
    → length text < size
    → printed text size junk ≡ ok (text ++ 0 ∷ replicate (size - length text - 1) junk)
unfolding printed
printed-ok text size junk fits = rw (lt→ltb _ _ fits) refl

-- The message that the others should see.
abbrev pub composed : List ℕ → List ℕ → List ℕ
composed name body = codes "[" ++ (name ++ (codes "] " ++ body))

module _ (fuel : ℕ) (h : Heap Client) (c : ℕ) where
  -- A broadcast where the clients are known but for their queues.
  broadcast-Similar :
      (f : ℕ) (first_client : Client) (rest ys : Clients) (n : Node Client) (msg : List ℕ)
      (size : ℕ) (more : List (List Answer)) (sent : List (ℤ × List ℕ))
      → Similar ((f, first_client) ∷ rest) ys
      → At h (some c) ys
      → h c ≡ some n
      → Named ((f, first_client) ∷ rest)
      → length ((f, first_client) ∷ rest) < fuel
      → 0 < pos_part first_client.id
      → 0 < size
      → size + 2 < 2 ^ 31
      → size + 2 ≤ length msg
      → let k = others n.data_of.id ((f, first_client) ∷ rest) in
        broadcast_message_from fuel h c msg size (wires (all_taken k size more) sent)
        ≡ ok (wires more (sent ++ copies k (first_client.id, take size msg)))
  broadcast-Similar f first_client rest [] n msg size more sent s place here named enough some_fd
        some_bytes small readable =
      absurd s
  broadcast-Similar f first_client rest ((f', first') ∷ ys) n msg size more sent s place here named
        enough some_fd some_bytes small readable =
      let xs = (f, first_client) ∷ rest in
      let k = Similar-others n.data_of.id xs ((f', first') ∷ ys) s in
      let e =
        broadcast_message_from-copies fuel h c f' n first' ys msg size more sent place here
          (Similar-Named xs ((f', first') ∷ ys) s named)
          (omega (arith, Similar-length xs ((f', first') ∷ ys) s))
          (subst (λ i. 0 < pos_part i) s.1 some_fd) some_bytes small readable in
      ap (λ j. broadcast_message_from fuel h c msg size (wires (all_taken j size more) sent)) k
      ∙ e
      ∙ ap₂ (λ j i. ok (wires more (sent ++ copies j (i, take size msg)))) (sym k) (sym s.1)

-- The first byte of a name.
first_letter :
    (name rest : List ℕ)
    → 0 < length name
    → NoNul name
    → (letter : ℕ) × (load (name ++ 0 ∷ rest) 0 ≡ ok letter) × (letter ≢ 0)
first_letter [] rest some_name n = absurd (omega arith)
first_letter (c ∷ name) rest some_name n = (c, load-ok (c ∷ (name ++ 0 ∷ rest)) 0 c refl, n.0)

-- A client with a name in a well-formed list of fewer clients than the fuel, whose names are arrays
-- and whose first client has a positive descriptor; its queue holds a message of 2 to 1025 bytes with
-- a NUL behind it, neither the message nor the name has a NUL, and together they are 5 bytes shorter
-- than the buffer; `send` takes everything. `client_handle_request` returns 1, empties the queue, and
-- sends the name in brackets and the message, as often as there are other clients with a name, each
-- time to the first client of the list.
pub handle_request-composed :
    (isalnum : ℕ → Bool) (mem : Allocator ℕ) (fuel junk : ℕ) (h : Heap Client) (c f : ℕ)
    (n : Node Client) (first_client : Client) (rest : Clients)
    (name name_rest body buf_rest : List ℕ) (more : List (List Answer)) (sent : List (ℤ × List ℕ))
    → At h (some c) ((f, first_client) ∷ rest)
    → h c ≡ some n
    → Named ((f, first_client) ∷ rest)
    → length ((f, first_client) ∷ rest) < fuel
    → 0 < pos_part first_client.id
    → n.data_of.name ≡ name ++ 0 ∷ name_rest
    → 0 < length name
    → NoNul name
    → n.data_of.recv_qu.buf ≡ body ++ 0 ∷ buf_rest
    → n.data_of.recv_qu.size ≡ length body
    → NoNul body
    → 1 < length body
    → length body ≤ 1025
    → length name + length body + 5 ≤ 1058
    → let k = others n.data_of.id ((f, first_client) ∷ rest) in
      let text = composed name body in
      handle_request isalnum mem fuel junk h c (wires (all_taken k (length text) more) sent)
      ≡ ok (pos 1, drained h c n, wires more (sent ++ copies k (first_client.id, text)))
unfolding handle_request
handle_request-composed isalnum mem fuel junk h c f n first_client rest name name_rest body buf_rest
      more sent place here named enough some_fd name_at some_name name_text body_at body_size
      body_text some_body short fits =
    let xs : Clients = (f, first_client) ∷ rest in
    let qu = n.data_of.recv_qu in
    let me : Client = record n.data_of { recv_qu = reset qu } in
    let text : List ℕ = composed name body in
    let long : length text ≡ length name + length body + 3 =
      omega (arith, length-append name (codes "] " ++ body)) in
    let (letter, first, some_letter) = first_letter name name_rest some_name name_text in
    let named_now : (letter == 0) ≡ false = ground (arith, some_letter) in
    let letter_at : load n.data_of.name 0 ≡ ok letter = ap (λ l. load l 0) name_at ∙ first in
    let name_is : text_of n.data_of.name ≡ ok name =
      ap text_of name_at ∙ text_of-ok name name_rest name_text in
    let body_is : text_of qu.buf ≡ ok body =
      ap text_of body_at ∙ text_of-ok body buf_rest body_text in
    let new = put-write h c n me here in
    let some_left : (sub64 qu.size 1 == 0) ≡ false = ground (arith, body_size) in
    let not_over : ltb client_max_message_size (sub64 qu.size 1) ≡ false =
      ground (arith, body_size) in
    let kept : take 1057 text ≡ text = take-length 1057 text (omega (arith, long)) in
    let tail : ℕ = 1058 - length text - 1 in
    let msg : List ℕ = text ++ 0 ∷ replicate tail junk in
    let room : length text + 2 ≤ length msg =
      omega
        (arith, long, length-append text (0 ∷ replicate tail junk), length-replicate tail junk) in
    let whole : take (length text) msg ≡ text =
      take-append text (0 ∷ replicate tail junk) (length text) refl in
    let (ys, at, similar) = requeued-At h c n (reset qu) xs place here in
    let out =
      broadcast-Similar fuel (drained h c n) c f first_client rest ys (requeued n (reset qu)) msg
        (length text) more sent similar at (write-at h c (requeued n (reset qu))) named enough
        some_fd (omega (arith, long)) (omega (arith, long, fits)) room in
    rw (here, letter_at, pop_no_copy-some qu (omega (arith, body_size)) (omega (arith, body_size)))
      (rw
        (
          named_now,
          new,
          some_left,
          not_over,
          body_is,
          name_is,
          kept,
          printed-ok text 1058 junk (omega (arith, long)),
        )
        (rw (out, whole) refl))

-- ===== src/Chat.antt =====
-- c/source/budget-chat/client.c and client.h: the clients of the chat server, a doubly linked list on
-- the heap, and what is sent to them. `struct client** pc` is the pointer `p`. A queue that is made
-- for a client is no NULL while the client lives, so the client holds it.
pub mod Request
pub mod Broadcast
pub mod Names
pub mod Username
pub mod Room
pub mod Server
pub mod Main
pub mod Similar
pub mod Message
pub mod Leave
pub mod First
pub mod Refuse
mod Tests
use network_exercises.Common.{
  ℕ, zero, suc, ◌+◌, ◌-◌, ◌==◌, Bool, true, false, not, ◌&&◌, Option, none, some, List, [], ◌∷◌,
  ◌++◌, length, ltb, if◌then◌else◌, replicate,
}
use network_exercises.Common.Int.{ℤ, pos, pos_part, leb_ℤ, eq_ℤ}
use network_exercises.Common.Words.{to_int}
use network_exercises.Common.Text.{codes}
use network_exercises.Run.{Run, ok, undefined, out_of_fuel, ◌>>=◌, ◌>>◌, assert, assert_some}
use network_exercises.Memory.{Allocator, load, assign}
use network_exercises.Queue
use network_exercises.Queue.{Queue}
use network_exercises.Net.{Answer, sendall}
use network_exercises.Links.{Node, Heap, some_or, fetch, write, back, ahead, search, unlink}

abbrev pub client_max_name : ℕ
client_max_name = 32

abbrev pub client_max_message_size : ℕ
client_max_message_size = 1024

-- `CLIENT_MAX_MESSAGE_SIZE + CLIENT_MAX_NAME + 2`
abbrev pub client_max_composed_message_size : ℕ
client_max_composed_message_size = 1058

abbrev pub client_recv_queue_size : ℕ
client_recv_queue_size = 1024

abbrev pub client_welcome_prompt : List ℕ
client_welcome_prompt = codes "Welcome to budgetchat! What shall I call you?"

abbrev pub client_welcome_prompt_size : ℕ
client_welcome_prompt_size = 45

abbrev pub client_members : List ℕ
client_members = codes "* The room contains: "

abbrev pub client_members_size : ℕ
client_members_size = 21

-- The fields of `struct client` besides its links.
pub record Client : Type 0 where
  pub id : ℤ
  pub name : List ℕ
  pub name_size : ℕ
  pub recv_qu : Queue

-- What `send` answers to the calls of `sendall` still to come, and what went out so far, with the
-- descriptors it went to.
pub record Wires : Type 0 where
  pub answers : List (List Answer)
  pub sent : List (ℤ × List ℕ)

abbrev pub next_answers : List (List Answer) → List Answer × List (List Answer)
next_answers [] = ([], [])
next_answers (a ∷ rest) = (a, rest)

-- `sendall`, and the assertion on what it returns.
unfoldable pub send_to : Wires → ℤ → List ℕ → ℕ → Run Wires
send_to w id buf len =
    let (answers, rest) = next_answers w.answers in
    do
      out ← sendall answers (pos_part id) buf len
      assert (out.result == 0)
      ok (record { answers = rest; sent = w.sent ++ (id, out.wire) ∷ [] })

-- A text in a buffer of so many bytes, as `sprintf` leaves it; behind the NUL stands what was there.
unfoldable pub printed : List ℕ → ℕ → ℕ → Run (List ℕ)
printed text size junk =
    if ltb (length text) size
    then ok (text ++ 0 ∷ replicate (size - length text - 1) junk)
    else undefined

-- The text of an array, up to its NUL.
unfoldable pub text_of : List ℕ → Run (List ℕ)
text_of [] = undefined
text_of (c ∷ cs) = let rest = text_of cs in if c == 0 then ok [] else (do t ← rest; ok (c ∷ t))

module _ (fuel : ℕ) where
  -- `client_first`
  unfoldable pub first : Heap Client → Option ℕ → Run ℕ
  first h p = do a ← assert_some p; n ← fetch h a; back fuel h n.prev a

  -- `clients_last`
  unfoldable pub last : Heap Client → Option ℕ → Run ℕ
  last h p = do a ← assert_some p; n ← fetch h a; ahead fuel h n.next a

  -- `client_find`
  unfoldable pub find : Heap Client → Option ℕ → ℤ → Run (Bool × Option ℕ)
  find h none id = ok (false, none)
  find h (some a) id = do
    assert (leb_ℤ (pos 1) id)
    start ← first h (some a)
    r ← search (λ c. c.id) fuel h id (some start)
    elim r [ none ↦ ok (false, some start) | some c ↦ ok (true, some c) ]

-- The test of the loops: another client, with a name.
unfoldable pub is_other : ℤ → Client → Run Bool
is_other me c = do first_char ← load c.name 0; ok (not (eq_ℤ c.id me) && not (first_char == 0))

-- The `do` loop of `client_broadcast_message_from` from `last` on. All calls of `sendall` name `c`,
-- which has been moved to the first client. `size` is cast to an `int`, which `sendall` asserts to be
-- positive.
unfoldable pub broadcast_loop :
    ℕ → Heap Client → (me target : ℤ) → (msg : List ℕ) → (size : ℕ) → Option ℕ → Wires → Run Wires
broadcast_loop zero h me target msg size last w = out_of_fuel
broadcast_loop (suc fuel) h me target msg size none w = ok w
broadcast_loop (suc fuel) h me target msg size (some a) w = do
  n ← fetch h a
  other ← is_other me n.data_of
  w' ← (if other then send_to w target msg (pos_part (to_int size)) else ok w)
  broadcast_loop fuel h me target msg size n.next w'

-- The `do` loop of `client_broadcast_message_to_all` from `last` on, with the same target.
unfoldable pub to_all_loop :
    ℕ → Heap Client → (target : ℤ) → (msg : List ℕ) → (size : ℕ) → Option ℕ → Wires → Run Wires
to_all_loop zero h target msg size last w = out_of_fuel
to_all_loop (suc fuel) h target msg size none w = ok w
to_all_loop (suc fuel) h target msg size (some a) w = do
  n ← fetch h a
  first_char ← load n.data_of.name 0
  w' ← (if first_char == 0 then ok w else send_to w target msg (pos_part (to_int size)))
  to_all_loop fuel h target msg size n.next w'

module _ (fuel : ℕ) where
  -- `client_broadcast_message_to_all`
  unfoldable pub broadcast_message_to_all : Heap Client → Option ℕ → List ℕ → ℕ → Wires → Run Wires
  broadcast_message_to_all h p msg size w = do
    start ← first fuel h p
    target ← fetch h start
    to_all_loop fuel h target.data_of.id msg size (some start) w

  -- `client_broadcast_message_from`
  unfoldable pub broadcast_message_from : Heap Client → ℕ → List ℕ → ℕ → Wires → Run Wires
  broadcast_message_from h c msg size w = do
    me ← fetch h c
    start ← first fuel h (some c)
    target ← fetch h start
    broadcast_loop fuel h me.data_of.id target.data_of.id msg size (some start) w

  -- `client_close`; `junk` is what the buffer of the farewell held.
  unfoldable pub close : ℕ → Heap Client → Option ℕ → Wires → Run (Heap Client × Option ℕ × Wires)
  close junk h p w = do
    c ← assert_some p
    n ← fetch h c
    name ← text_of n.data_of.name
    let farewell = codes "* '" ++ (name ++ codes "' has left the chat")
    newuser ← printed farewell 128 junk
    w' ← broadcast_message_from h c newuser (length farewell) w
    (h', q) ← unlink h c
    ok (h', q, w')

-- `malloc` of a client: an address, or NULL, and the bytes that the name and its size then hold.
pub record Fresh : Type 0 where
  pub address : Option ℕ
  pub name : List ℕ
  pub name_size : ℕ

-- `client_open`. The allocation is not checked, and `*pc` is overwritten, whatever it pointed to.
unfoldable pub open_client :
    Allocator ℕ → Fresh → Heap Client → (fd : ℤ) → Wires → Run (Heap Client × ℕ × Wires)
open_client mem fresh h fd w = do
  a ← some_or fresh.address
  name ← assign fresh.name 0 0
  qu ← Queue.init mem none client_recv_queue_size
  recv_qu ← some_or qu
  let c : Client = record { id = fd; name = name; name_size = fresh.name_size; recv_qu = recv_qu }
  let (answers, rest) = next_answers w.answers
  out ← sendall answers (pos_part fd) (client_welcome_prompt ++ 0 ∷ []) client_welcome_prompt_size
  assert (out.result == 0)
  assert (out.len == client_welcome_prompt_size)
  let w' : Wires = record { answers = rest; sent = w.sent ++ (fd, out.wire) ∷ [] }
  ok (write h a (record { data_of = c; next = none; prev = none }), a, w')

-- ===== src/Chat/Request.antt =====
-- The requests of c/source/budget-chat/client.c: a name, and the messages after it.
use network_exercises.Common.{
  ℕ, zero, suc, ◌+◌, ◌-◌, ◌==◌, Bool, true, false, not, Option, none, some, List, [], ◌∷◌, ◌++◌,
  length, take, ltb, leb, if◌then◌else◌,
}
use network_exercises.Common.Int.{ℤ, pos, negsuc, pos_part}
use network_exercises.Common.Text.{codes}
use network_exercises.Run.{Run, ok, undefined, out_of_fuel, ◌>>=◌}
use network_exercises.Memory.{Allocator, memcpy, load, assign, sub64}
use network_exercises.Queue
use network_exercises.Queue.{Queue}
use network_exercises.Links.{Heap, some_or, fetch, write}
use network_exercises.Chat.{
  Client, Wires, send_to, printed, text_of, first, is_other, broadcast_message_from,
  client_max_name, client_max_message_size, client_max_composed_message_size, client_members,
  client_members_size,
}

-- `strncmp(a, b, n) == 0`, where reading behind an array is undefined.
unfoldable pub strncmp_eq : List ℕ → List ℕ → ℕ → Run Bool
strncmp_eq a b zero = ok true
strncmp_eq [] b (suc n) = undefined
strncmp_eq (x ∷ a) [] (suc n) = undefined
strncmp_eq (x ∷ a) (y ∷ b) (suc n) =
    let rest = strncmp_eq a b n in if x == y then (if x == 0 then ok true else rest) else ok false

-- The `do` loop of `client_name_exists` from `last` on.
unfoldable pub name_exists_loop :
    ℕ → Heap Client → (me : ℤ) → (name : List ℕ) → (size : ℕ) → Option ℕ → Run Bool
name_exists_loop zero h me name size last = out_of_fuel
name_exists_loop (suc fuel) h me name size none = ok false
name_exists_loop (suc fuel) h me name size (some a) = do
  n ← fetch h a
  other ← is_other me n.data_of
  same ← (if other then strncmp_eq n.data_of.name name size else ok false)
  let rest = name_exists_loop fuel h me name size n.next
  if same then ok true else rest

-- What `client_validate_username` finds, and the texts that it answers with.
pub data Verdict : Type 0 where
  accepted empty_name too_long not_alphanumeric already_taken : Verdict

unfoldable pub invalid_name_response : Verdict → List ℕ
invalid_name_response accepted = []
invalid_name_response empty_name = codes "Empty username provided"
invalid_name_response too_long = codes "Name provided exceeds limit for number of characters: 32"
invalid_name_response not_alphanumeric = codes "Username must only contain alphanumeric characters"
invalid_name_response already_taken = codes "Username is already taken"

-- `client_name_exists`
unfoldable pub name_exists : ℕ → Heap Client → ℕ → (name : List ℕ) → (size : ℕ) → Run Bool
name_exists fuel h c name size = do
  me ← fetch h c
  start ← first fuel h (some c)
  name_exists_loop fuel h me.data_of.id name size (some start)

-- The last assignments of `client_validate_username`.
unfoldable pub set_name : Client → List ℕ → ℕ → Run Client
set_name c name size = do
  copied ← memcpy c.name 0 name size
  ended ← assign copied (size + 1) 0
  ok (record c { name = ended; name_size = size })

-- `isalnum` is the C library's.
module _ (isalnum : ℕ → Bool) where
  -- The `for` loop over the characters of the name, with the rounds that are left. A character of
  -- 128 and more is negative as a `char`, for which `isalnum` is undefined.
  unfoldable pub all_alnum : List ℕ → (rounds k : ℕ) → Run Bool
  all_alnum name zero k = ok true
  all_alnum name (suc n) k =
      let rest = all_alnum name n (k + 1) in
      do x ← load name k; if ltb x 128 then (if isalnum x then rest else ok false) else undefined

  -- `client_validate_username`: what it finds, and the client at `c` as it leaves it.
  unfoldable pub validate_username : ℕ → Heap Client → ℕ → Run (Verdict × Client)
  validate_username fuel h c = do
    n ← fetch h c
    let (recv_qu, name_at, popped) = Queue.pop_no_copy n.data_of.recv_qu
    let me = record n.data_of { recv_qu = recv_qu }
    let size = sub64 (pos_part popped) 1
    if ltb size 1
        then ok (empty_name, me)
        else if leb client_max_name size
        then ok (too_long, me)
        else (do
          name ← some_or name_at
          alphanumeric ← all_alnum name size 0
          if not alphanumeric then ok (not_alphanumeric, me) else (do
            exists ← name_exists fuel h c name size
            if exists
                then ok (already_taken, me)
                else (do named ← set_name me name size; ok (accepted, named))))

-- The `do` loop of `client_collect_list_of_names_other_names` from `last` on, over the queue of the
-- client itself; nothing else that it reads changes. `first` is false in every round.
unfoldable pub collect_loop :
    Allocator ℕ → ℕ → Heap Client → (me : ℤ) → Option ℕ → Queue → Run Queue
collect_loop mem zero h me last qu = out_of_fuel
collect_loop mem (suc fuel) h me none qu = ok qu
collect_loop mem (suc fuel) h me (some a) qu = do
  n ← fetch h a
  other ← is_other me n.data_of
  qu' ←
      (if other
        then (do
          separated ← Queue.push mem qu (codes ", ") 2
          Queue.push mem separated n.data_of.name n.data_of.name_size)
        else ok qu)
  collect_loop mem fuel h me n.next qu'

-- `client_collect_list_of_names_other_names`: the queue of the client at `c`.
unfoldable pub collect_names : Allocator ℕ → ℕ → Heap Client → ℕ → Run Queue
collect_names mem fuel h c = do
  me ← fetch h c
  start ← first fuel h (some c)
  opened ← Queue.push mem me.data_of.recv_qu client_members client_members_size
  collect_loop mem fuel h me.data_of.id (some start) opened

-- The client at an address is changed in place.
unfoldable pub put : Heap Client → ℕ → Client → Run (Heap Client)
put h c new = do n ← fetch h c; ok (write h c (record n { data_of = new }))

-- What local arrays held before they are written.
module _ (isalnum : ℕ → Bool) (mem : Allocator ℕ) (fuel junk : ℕ) where
  -- The rest of `client_handle_newclient` for a refused name.
  unfoldable pub refuse : Heap Client → ℤ → Verdict → Wires → Run (ℤ × Heap Client × Wires)
  refuse h id verdict w = do
    response ← printed (invalid_name_response verdict) 128 junk
    w' ← send_to w id response (length (invalid_name_response verdict))
    ok (negsuc 0, h, w')

  -- The rest of `client_handle_newclient` for an accepted name.
  unfoldable pub welcome : Heap Client → ℕ → Wires → Run (ℤ × Heap Client × Wires)
  welcome h c w = do
    n ← fetch h c
    names ← collect_names mem fuel h c
    let (recv_qu, msg_at, size) = Queue.pop_no_copy names
    msg ← some_or msg_at
    h' ← put h c (record n.data_of { recv_qu = recv_qu })
    w' ← send_to w n.data_of.id msg (pos_part size)
    name ← text_of n.data_of.name
    let joined = codes "* '" ++ (name ++ codes "' has joined the chat")
    newuser ← printed joined 128 junk
    w'' ← broadcast_message_from fuel h' c newuser (length joined) w'
    ok (pos 1, h', w'')

  -- `client_handle_newclient`: what it returns, the heap, and what has been sent.
  unfoldable pub handle_newclient : Heap Client → ℕ → Wires → Run (ℤ × Heap Client × Wires)
  handle_newclient h c w = do
    (verdict, me) ← validate_username isalnum fuel h c
    h' ← put h c me
    elim verdict [ accepted ↦ welcome h' c w | other ↦ refuse h' me.id other w ]

  -- `client_handle_request`
  unfoldable pub handle_request : Heap Client → ℕ → Wires → Run (ℤ × Heap Client × Wires)
  handle_request h c w = do
    n ← fetch h c
    first_char ← load n.data_of.name 0
    let new_name = handle_newclient h c w
    let (recv_qu, msg_at, popped) = Queue.pop_no_copy n.data_of.recv_qu
    let size = sub64 (pos_part popped) 1
    if first_char == 0 then new_name else (do
      h' ← put h c (record n.data_of { recv_qu = recv_qu })
      if size == 0
          then ok (pos 0, h', w)
          else if ltb client_max_message_size size
          then ok (pos 0, h', w)
          else (do
            msg ← some_or msg_at
            body ← text_of msg
            name ← text_of n.data_of.name
            let composed = codes "[" ++ (name ++ (codes "] " ++ body))
            let kept = take (client_max_composed_message_size - 1) composed
            mesg ← printed kept client_max_composed_message_size junk
            w' ← broadcast_message_from fuel h' c mesg (length composed) w
            ok (pos 1, h', w')))

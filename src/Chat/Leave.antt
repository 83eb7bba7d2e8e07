-- ===== src/Chat/Leave.antt =====
-- A client that leaves.
use network_exercises.Common.{
  ℕ, ◌+◌, ◌<◌, ◌≤◌, ◌-◌, ◌≡◌, refl, ap, subst, ◌∙◌, arith, Option, none, some, List, ◌∷◌, ◌++◌,
  length, replicate, length-append, length-replicate, take-append,
}
use network_exercises.Common.Int.{ℤ, pos_part}
use network_exercises.Common.Text.{codes}
use network_exercises.Run.{ok, Returns, Returns-bind}
use network_exercises.Net.{Answer}
use network_exercises.Links.{Heap}
use network_exercises.Links.Linked.{IsLinked, addr, node, onto}
use network_exercises.Links.Append.{At}
use network_exercises.Links.Places.{IsLinked-At, neighbour-At}
use network_exercises.Links.Unlink.{Unlinked, unlink-Unlinked}
use network_exercises.Chat.{Client, Wires, close, text_of}
use network_exercises.Chat.Broadcast.{
  Clients, Named, others, copies, all_taken, wires, broadcast_message_from-copies,
}
use network_exercises.Chat.Message.{NoNul, text_of-ok, printed-ok}

abbrev pub farewell : List ℕ → List ℕ
farewell name = codes "* '" ++ (name ++ codes "' has left the chat")

length-farewell : (name : List ℕ) → length (farewell name) ≡ length name + 22
length-farewell name = omega (arith, length-append name (codes "' has left the chat"))

-- The client is gone, its memory is free, the pointer stands in the list of the others, and so much
-- has been sent.
abbrev pub Left : ℕ → Clients → Wires → Heap Client × Option ℕ × Wires → Type 0
Left c others_left w (h, p, w') = At h p others_left × (h c ≡ none) × (w' ≡ w)

-- `client_close` of a client in a well-formed list of fewer clients than the fuel, whose names are
-- arrays and whose first client has a positive descriptor, where its own name is a text of at most
-- 104 characters and `send` takes everything: a farewell with its name goes out, once for each other
-- client with a name, each time to the first client of the list; the client is taken out of the list
-- and freed, and the others stay as they were.
pub close-Left :
    (fuel junk : ℕ) (h : Heap Client) (before after : Clients) (c f : ℕ) (me first_client : Client)
    (rest : Clients) (name name_rest : List ℕ) (more : List (List Answer))
    (sent : List (ℤ × List ℕ))
    → IsLinked h before ((c, me) ∷ after)
    → onto before ((c, me) ∷ after) ≡ (f, first_client) ∷ rest
    → Named ((f, first_client) ∷ rest)
    → length ((f, first_client) ∷ rest) < fuel
    → 0 < pos_part first_client.id
    → me.name ≡ name ++ 0 ∷ name_rest
    → NoNul name
    → length name ≤ 104
    → let k = others me.id ((f, first_client) ∷ rest) in
      Returns
        (Left c
          (onto before after)
          (wires more (sent ++ copies k (first_client.id, farewell name))))
        (close fuel junk h (some c) (wires (all_taken k (length (farewell name)) more) sent))
unfolding close
close-Left fuel junk h before after c f me first_client rest name name_rest more sent l whole named
      enough some_fd name_at name_text short =
    let text = farewell name in
    let long = length-farewell name in
    let behind : List ℕ = 0 ∷ replicate (128 - length text - 1) junk in
    let place : At h (some c) ((f, first_client) ∷ rest) =
      subst (At h (some c)) whole (IsLinked-At h before c me after l) in
    let said : text_of me.name ≡ ok name =
      ap text_of name_at ∙ text_of-ok name name_rest name_text in
    let room : length text + 2 ≤ length (text ++ behind) = omega (
      arith,
      long,
      short,
      length-append text behind,
      length-replicate (128 - length text - 1) junk,
    ) in
    let told =
      broadcast_message_from-copies fuel h c f (node me (addr after) (addr before)) first_client
        rest (text ++ behind) (length text) more sent place l.forth.0 named enough some_fd
        (omega (arith, long)) (omega (arith, long, short)) room in
    let same = take-append text behind (length text) refl in
    rw (l.forth.0, said, printed-ok text 128 junk (omega (arith, long, short)), told)
      (rw same (
        Returns-bind (Unlinked h c before after) _ _ _ (unlink-Unlinked h c me before after l)
          (λ r u. (rw u.points (neighbour-At r.0 before after u.linked), u.freed, refl))))

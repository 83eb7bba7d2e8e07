-- ===== src/Chat/Refuse.antt =====
-- A client whose name is refused.
use network_exercises.Common.{
  ℕ, ◌+◌, ◌^◌, ◌<◌, ◌≤◌, ◌-◌, ◌≡◌, ◌≢◌, refl, sym, ap₂, ◌∙◌, arith, Bool, some, List, [], ◌∷◌, ◌++◌,
  length, replicate, length-append, length-replicate, take-append,
}
use network_exercises.Common.Int.{ℤ, negsuc, pos_part}
use network_exercises.Run.{ok, Returns, Returns-bind}
use network_exercises.Memory.{Allocator}
use network_exercises.Queue.Valid.{IsValid, contents}
use network_exercises.Net.{Answer, took}
use network_exercises.Links.{Heap, Node, write}
use network_exercises.Links.Linked.{addr}
use network_exercises.Links.Append.{At}
use network_exercises.Chat.{Client, Wires}
use network_exercises.Chat.Broadcast.{Clients, wires, send_to-whole}
use network_exercises.Chat.Message.{put-write, printed-ok}
use network_exercises.Chat.Request.{
  Verdict, accepted, empty_name, too_long, not_alphanumeric, already_taken, invalid_name_response,
  refuse, welcome, handle_newclient,
}
use network_exercises.Chat.Names.{Arrays, IsAscii}
use network_exercises.Chat.Username.{Validated, NameAfter, verdict, validate_username-verdict}

abbrev pub response : Verdict → List ℕ
response v = invalid_name_response v

-- Every refusal fits its buffer.
response-fits :
    (v : Verdict) → v ≢ accepted → (0 < length (response v)) × (length (response v) < 120)
unfolding invalid_name_response
response-fits accepted bad = absurd (bad refl)
response-fits empty_name bad = (omega arith, omega arith)
response-fits too_long bad = (omega arith, omega arith)
response-fits not_alphanumeric bad = (omega arith, omega arith)
response-fits already_taken bad = (omega arith, omega arith)

module _ (isalnum : ℕ → Bool) (mem : Allocator ℕ) (fuel junk : ℕ) where
  refuse-response :
      (h : Heap Client) (id : ℤ) (v : Verdict) (more : List (List Answer))
      (sent : List (ℤ × List ℕ))
      → v ≢ accepted
      → 0 < pos_part id
      → refuse isalnum mem fuel junk h id v (wires ((took (length (response v)) ∷ []) ∷ more) sent)
        ≡ ok (negsuc 0, h, wires more (sent ++ (id, response v) ∷ []))
  unfolding refuse
  refuse-response h id v more sent bad some_fd =
      let text = response v in
      let (some_text, short) = response-fits v bad in
      let behind : List ℕ = 0 ∷ replicate (128 - length text - 1) junk in
      let room : length text + 2 ≤ length (text ++ behind) =
        omega (
          arith,
          short,
          length-append text behind,
          length-replicate (128 - length text - 1) junk,
        ) in
      rw
        (
          printed-ok text 128 junk (omega (arith, short)),
          send_to-whole id (text ++ behind) (length text) more sent some_fd some_text
              (omega (arith, short)) room,
          take-append text behind (length text) refl,
        )
        refl

  -- What is left of the client: it has no name, and its queue is empty.
  abbrev pub Refused : Heap Client → ℕ → Node Client → Wires → ℤ × Heap Client × Wires → Type 0
  Refused h c n w (r, h', w') =
      (r ≡ negsuc 0)
      × (w' ≡ w)
      × ((me : Client) × (h' ≡ write h c (record n { data_of = me }))
          × (me.name ≡ n.data_of.name)
          × (contents me.recv_qu ≡ []))

  refused_name :
      (me me' : Client) (name : List ℕ) (v : Verdict)
      → v ≢ accepted
      → NameAfter me name v me'
      → me'.name ≡ me.name
  refused_name me me' name accepted bad after = absurd (bad refl)
  refused_name me me' name empty_name bad after = after.0
  refused_name me me' name too_long bad after = after.0
  refused_name me me' name not_alphanumeric bad after = after.0
  refused_name me me' name already_taken bad after = after.0

  -- What follows the verdict.
  dismissed :
      (h : Heap Client) (c : ℕ) (id : ℤ) (w : Wires) (v : Verdict)
      → v ≢ accepted
      → (elim v [
        | accepted ↦ welcome isalnum mem fuel junk h c w
        | other ↦ refuse isalnum mem fuel junk h id other w
      ])
        ≡ refuse isalnum mem fuel junk h id v w
  dismissed h c id w accepted bad = absurd (bad refl)
  dismissed h c id w empty_name bad = refl
  dismissed h c id w too_long bad = refl
  dismissed h c id w not_alphanumeric bad = refl
  dismissed h c id w already_taken bad = refl

  -- `client_handle_newclient` for a client of a well-formed list of fewer clients than the fuel, where
  -- all names are arrays of at least 33 bytes and its own of 33, its descriptor is positive, its queue
  -- is valid, shorter than an `int`, and holds a name that is not accepted and one more byte,
  -- where a name of fewer than 32 characters has none of 128 and more, and
  -- `send` takes everything: it returns -1, sends the client the reason and nothing to anybody else,
  -- and leaves the client where it was, with its name as it was and an empty queue.
  pub handle_newclient-Refused :
      (h : Heap Client) (c f : ℕ) (n : Node Client) (xs : Clients) (name : List ℕ) (end : ℕ)
      (more : List (List Answer)) (sent : List (ℤ × List ℕ))
      → At h (some c) xs
      → addr xs ≡ some f
      → h c ≡ some n
      → Arrays 33 xs
      → length xs < fuel
      → length n.data_of.name ≡ 33
      → 0 < pos_part n.data_of.id
      → IsValid n.data_of.recv_qu
      → n.data_of.recv_qu.size < 2 ^ 31
      → contents n.data_of.recv_qu ≡ name ++ end ∷ []
      → (length name < 32 → IsAscii name)
      → verdict isalnum n.data_of.id name xs ≢ accepted
      → let v = verdict isalnum n.data_of.id name xs in
        Returns (Refused h c n (wires more (sent ++ (n.data_of.id, response v) ∷ []))) (
          handle_newclient isalnum mem fuel junk h c
            (wires ((took (length (response v)) ∷ []) ∷ more) sent))
  unfolding handle_newclient Validated
  handle_newclient-Refused h c f n xs name end more sent place starts_at here arrays enough array
        some_fd valid small holds ascii bad =
      let v = verdict isalnum n.data_of.id name xs in
      let w = wires ((took (length (response v)) ∷ []) ∷ more) sent in
      Returns-bind (Validated isalnum n.data_of xs name) _ _ _
        (validate_username-verdict fuel h c f n xs place starts_at here arrays enough isalnum name
          end array valid small holds ascii)
        (λ (u, me) (found, same_id, _, emptied, kept).
          let h' = write h c (record n { data_of = me }) in
          let bad_u : u ≢ accepted = λ e. bad (sym found ∙ e) in
          let told =
            ap₂ (λ i x. refuse isalnum mem fuel junk h' i x w) same_id found
            ∙ refuse-response h' n.data_of.id v more sent bad some_fd in
          rw (put-write h c n me here, dismissed h' c me.id w u bad_u, told)
            (refl, refl, (me, refl, refused_name n.data_of me name u bad_u kept, emptied)))

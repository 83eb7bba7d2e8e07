-- ===== src/Net/Send.antt =====
-- `sendall`: what goes out is always the front of the buffer, and when that is all of it.
use network_exercises.Common.{
  ℕ, ◌+◌, ◌-◌, ◌^◌, ◌<◌, ◌≤◌, ◌≡◌, ap, sym, ◌∙◌, arith, true, false, List, [], ◌∷◌, ◌++◌, length,
  take, drop, ltb, leb, inl, inr, Bool-cases, append-nil, append_assoc, lt→ltb, take-add,
  length-replicate, replicate,
}
use network_exercises.Run.{ok, undefined, Returns, Returns-mono, Returns-then, Returns-else}
use network_exercises.Memory.{memcpy, memcpy-undefined}
use network_exercises.Net.{Answer, took, errno, Outcome, send_loop, sendall}

-- `send` never takes more than it is offered.
abbrev pub Honest : ℕ → List Answer → Type 0
Honest offered [] = Unit {0}
Honest offered (errno e ∷ answers) = Honest offered answers
Honest offered (took n ∷ answers) = (n ≤ offered) × Honest (offered - n) answers

-- What went out since the loop's start is the front of what is left of the buffer.
record Front (buf : List ℕ) (to_send total : ℕ) (wire : List ℕ) (o : Outcome) : Type 0 where
  more : ℕ
  bound : more ≤ to_send
  len : o.len ≡ total + more
  bytes : o.wire ≡ wire ++ take more buf

Front-none :
    (buf : List ℕ) (to_send total r : ℕ) (wire : List ℕ)
    → Front buf to_send total wire (record { result = r; len = total; wire = wire })
Front-none buf to_send total r wire = record {
  more = 0;
  bound = omega arith;
  len = omega arith;
  bytes = sym (append-nil wire);
}

Front-more :
    (buf : List ℕ) (n to_send total : ℕ) (wire : List ℕ) (o : Outcome)
    → n ≤ to_send
    → Front (drop n buf) (to_send - n) (total + n) (wire ++ take n buf) o
    → Front buf to_send total wire o
Front-more buf n to_send total wire o h f = record {
  more = n + f.more;
  bound = omega (arith, f.bound);
  len = omega (arith, f.len);
  bytes =
      f.bytes
      ∙ append_assoc wire (take n buf) (take f.more (drop n buf))
      ∙ ap (λ l. wire ++ l) (sym (take-add n f.more buf));
}

-- With an error as the last answer the loop always returns.
send_loop-Front :
    (answers : List Answer) (e : ℕ) (buf : List ℕ) (sent to_send total : ℕ) (wire : List ℕ)
    → Honest to_send answers
    → Returns
        (Front buf to_send total wire)
        (send_loop (answers ++ errno e ∷ []) buf sent to_send total wire)
unfolding send_loop
send_loop-Front [] e buf sent to_send total wire h = Front-none buf to_send total _ wire
send_loop-Front (errno d ∷ answers) e buf sent to_send total wire h =
    Front-none buf to_send total _ wire
send_loop-Front (took n ∷ answers) e buf sent to_send total wire h =
    elim (Bool-cases (ltb sent to_send)) [
      | inl goes_on ↦ Returns-then (Front buf to_send total wire) _ _ _ goes_on (
          Returns-mono (Front (drop n buf) (to_send - n) (total + n) (wire ++ take n buf))
            (Front buf to_send total wire) _
            (send_loop-Front answers e (drop n buf) n (to_send - n) (total + n) (wire ++ take n buf)
              h.1)
            (λ o f. Front-more buf n to_send total wire o h.0 f))
      | inr stops ↦
          Returns-else (Front buf to_send total wire) _ _ _ stops
            (Front-none buf to_send total _ wire)
    ]

trace_reads :
    (buf : List ℕ) (len : ℕ)
    → len + 2 ≤ length buf
    → (msg : List ℕ) × (memcpy (replicate (len + 2) 0) 0 buf (len + 2) ≡ ok msg)
unfolding memcpy
trace_reads buf len h =
    let first : leb (len + 2) (length buf) ≡ true = ground arith in
    let room = length-replicate {A = ℕ} (len + 2) 0 in
    let second : leb (0 + (len + 2)) (length (replicate {A = ℕ} (len + 2) 0)) ≡ true =
      ground (arith, room) in
    let dst : List ℕ = replicate (len + 2) 0 in
    (take 0 dst ++ (take (len + 2) buf ++ drop (0 + (len + 2)) dst), rw (first, second))

-- What `sendall` promises at least: `*len` bytes of the front of the buffer have gone out.
abbrev pub SentFront : List ℕ → ℕ → Outcome → Type 0
SentFront buf len o = (o.len ≤ len) × (o.wire ≡ take o.len buf)

-- For a length that stays an `int` with two more, and two bytes to read behind those to send:
-- whatever `send` answers, as long as it never takes more than it is offered, up to an error,
-- `sendall` returns; what has gone out is the front of the buffer, in order and without gaps, and
-- `*len` says how much.
pub sendall-SentFront :
    (answers : List Answer) (e sfd : ℕ) (buf : List ℕ) (len : ℕ)
    → 0 < sfd
    → 0 < len
    → len + 2 < 2 ^ 31
    → len + 2 ≤ length buf
    → Honest len answers
    → Returns (SentFront buf len) (sendall (answers ++ errno e ∷ []) sfd buf len)
unfolding sendall
sendall-SentFront answers e sfd buf len some_fd some_bytes small readable h =
    let fd_ok = lt→ltb _ _ some_fd in
    let len_ok = lt→ltb _ _ some_bytes in
    let (msg, copied) = trace_reads buf len readable in
    let fits = lt→ltb (len + 2) (2 ^ 31) small in
    rw (fd_ok, len_ok, fits, copied)
      (Returns-mono (Front buf len 0 []) (SentFront buf len) _
        (send_loop-Front answers e buf 0 len 0 [] h)
        (λ o f.
          let same : o.len ≡ f.more = omega (arith, f.len) in
          (omega (arith, f.bound, same), f.bytes ∙ ap (λ k. take k buf) (sym same))))

-- A `send` that takes everything ends `sendall`.
pub sendall-whole :
    (sfd len : ℕ) (buf : List ℕ)
    → 0 < sfd
    → 0 < len
    → len + 2 < 2 ^ 31
    → len + 2 ≤ length buf
    → sendall (took len ∷ []) sfd buf len
      ≡ ok (record { result = 0; len = len; wire = take len buf })
unfolding sendall send_loop
sendall-whole sfd len buf some_fd some_bytes small readable =
    let fd_ok = lt→ltb _ _ some_fd in
    let len_ok = lt→ltb _ _ some_bytes in
    let (msg, copied) = trace_reads buf len readable in
    let fits = lt→ltb (len + 2) (2 ^ 31) small in
    let over : ltb len (len - len) ≡ false = ground arith in
    let same : 0 + len ≡ len = omega arith in
    rw (fd_ok, len_ok, fits, copied, over)
      (ap (λ k. ok (record { result = 0; len = k; wire = take len buf })) same)

-- For a length that stays an `int` with two more, and two bytes to read behind those to send: when
-- the first `send` takes at least half of the bytes, but not all, `sendall` stops there and returns 0
-- as for success; the rest of the bytes is never sent.
pub sendall-short :
    (answers : List Answer) (sfd n len : ℕ) (buf : List ℕ)
    → 0 < sfd
    → n < len
    → len ≤ n + n
    → len + 2 < 2 ^ 31
    → len + 2 ≤ length buf
    → sendall (took n ∷ took (len - n) ∷ answers) sfd buf len
      ≡ ok (record { result = 0; len = n; wire = take n buf })
unfolding sendall send_loop
sendall-short answers sfd n len buf some_fd less half small readable =
    let fd_ok = lt→ltb _ _ some_fd in
    let len_ok : ltb 0 len ≡ true = lt→ltb _ _ (omega arith) in
    let (msg, copied) = trace_reads buf len readable in
    let fits = lt→ltb (len + 2) (2 ^ 31) small in
    let over : ltb n (len - n) ≡ false = ground arith in
    let same : 0 + n ≡ n = omega arith in
    rw (fd_ok, len_ok, fits, copied, over)
      (ap (λ k. ok (record { result = 0; len = k; wire = take n buf })) same)

-- A buffer that holds fewer than two bytes beyond those to send is read beyond its end.
pub sendall-undefined :
    (answers : List Answer) (sfd len : ℕ) (buf : List ℕ)
    → 0 < sfd
    → 0 < len
    → length buf < len + 2
    → sendall answers sfd buf len ≡ undefined
unfolding sendall
sendall-undefined answers sfd len buf some_fd some_bytes short =
    rw (lt→ltb _ _ some_fd, lt→ltb _ _ some_bytes)
      (elim (Bool-cases (ltb (len + 2) (2 ^ 31))) [
        | inl fits ↦ rw (fits, memcpy-undefined (replicate (len + 2) 0) 0 buf (len + 2) short)
        | inr over ↦ rw over
      ])

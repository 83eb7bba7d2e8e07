-- ===== src/PriceServer/Serve.antt =====
-- What a ready connection gets: its whole requests are handled, a part of one waits.
use network_exercises.Common.{
  ℕ, ◌+◌, ◌%◌, ◌^◌, ◌≤◌, ◌<◌, ◌≡◌, refl, sym, ap, subst, ◌∙◌, arith, Bool, true, false, ◌&&◌, inl,
  inr, List, [], ◌∷◌, ◌++◌, length, take, ◌==◌, Bool-cases, if◌then◌else◌,
}
use network_exercises.Common.Int.{pos}
use network_exercises.Run.{ok, ◌>>=◌, Returns, Returns-bind, Returns-mono}
use network_exercises.Memory.{Allocator, Serves}
use network_exercises.Queue.{Queue, peek}
use network_exercises.Queue.Valid.{contents, length-contents}
use network_exercises.Queue.Pop.{peek-some, peek-none}
use network_exercises.Prices.{AssetPrice}
use network_exercises.Prices.Store.{samples, max_samples}
use network_exercises.Messages.Wire.{Message}
use network_exercises.Messages.Meaning.{store_all, replies}
use network_exercises.Messages.Decode.{IsBytes, decode}
use network_exercises.Net.{Answer, End, Inbox, Outcome, total, status}
use network_exercises.Net.Reply.{IsIdle, Sends, Reply}
use network_exercises.Net.Receive.{NonEmpty, joined, Took, recv_request-Took}
use network_exercises.Sessions.{Client}
use network_exercises.PriceServer.{Served, process, attend, serve, complete_req}
use network_exercises.PriceServer.Process.{IsSession, load_of, Processed, process-Handled}

-- Bytes are handled when they are whole groups of nine, and wait otherwise.
abbrev pub whole_groups : List ℕ → List Message
whole_groups bytes = if length bytes % 9 == 0 then decode bytes else []

abbrev pub part_of_group : List ℕ → List ℕ
part_of_group bytes = if length bytes % 9 == 0 then [] else bytes

-- The messages that are handled of the bytes that wait, and the bytes that wait on.
abbrev pub taken : End → List ℕ → List Message
taken End.failed bytes = []
taken _ bytes = whole_groups bytes

abbrev pub waiting : End → List ℕ → List ℕ
waiting End.failed bytes = bytes
waiting _ bytes = part_of_group bytes

abbrev pub is_open : End → Bool
is_open End.would_block = true
is_open _ = false

-- What a connection gets for the bytes that wait.
pub record ServedAs (c : Client) (end : End) (bytes : List ℕ) (most : ℕ) (Q : Outcome → Type 0)
    (v : Served) : Type 0 where
  pub same_id : v.client.client_id ≡ c.client_id
  pub session : IsSession v.client
  pub idle : IsIdle v.sdqu
  pub no_more : load_of v.client ≤ most
  pub stored : samples v.client.asset ≡ store_all (samples c.asset) (taken end bytes)
  pub waits : contents v.client.recv_qu ≡ waiting end bytes
  pub sent : Bool
  pub reply : Reply Q (replies (samples c.asset) (taken end bytes)) sent v.wire
  pub kept : v.keep ≡ (sent && is_open end)

-- Nothing is handled: the bytes wait on.
left_alone :
    (c : Client) (q : Queue) (end : End) (Q : Outcome → Type 0)
    → IsSession c
    → IsIdle q
    → taken end (contents c.recv_qu) ≡ []
    → waiting end (contents c.recv_qu) ≡ contents c.recv_qu
    → ServedAs c end
        (contents c.recv_qu)
        (load_of c)
        Q
        (record { client = c; sdqu = q; wire = []; keep = is_open end })
unfolding store_all replies
left_alone c q end Q ses idle none_taken all_wait = record {
  same_id = refl;
  session = ses;
  idle = idle;
  no_more = omega arith;
  stored = rw none_taken;
  waits = sym all_wait;
  sent = true;
  reply = rw none_taken (refl, refl);
  kept = refl;
}

module _ {mem : Allocator ℕ} {price_mem : Allocator AssetPrice} (serves : Serves mem)
    (price_serves : Serves price_mem) where
  -- The part that does not depend on how the socket stands, unless receiving failed.
  attend_open :
      (answers : List Answer) (fd : ℕ) (q : Queue) (c : Client) (end : End) (Q : Outcome → Type 0)
      → IsIdle q
      → IsSession c
      → c.recv_qu.size < 2 ^ 31
      → c.asset.size + c.recv_qu.size < max_samples
      → taken end (contents c.recv_qu) ≡ whole_groups (contents c.recv_qu)
      → waiting end (contents c.recv_qu) ≡ part_of_group (contents c.recv_qu)
      → Sends answers fd (replies (samples c.asset) (taken end (contents c.recv_qu))) Q
      → Returns (ServedAs c end (contents c.recv_qu) (load_of c) Q) (
          if complete_req (peek c.recv_qu).1
          then process mem price_mem fd answers q c >>= (λ (sent, c', q', wire).
            ok (record { client = c'; sdqu = q'; wire = wire; keep = sent && is_open end }))
          else ok (record { client = c; sdqu = q; wire = []; keep = is_open end }))
  attend_open answers fd q c end Q idle ses few room t w sends =
      let n = length-contents c.recv_qu ses.recv_qu in
      elim (Bool-cases (c.recv_qu.size == 0)) [
        | inl nothing ↦
            let zero_size : c.recv_qu.size ≡ 0 = ground arith in
            let no_bytes : contents c.recv_qu ≡ [] = ap (λ k. take k c.recv_qu.buf) zero_size in
            rw (peek-none c.recv_qu zero_size) (
              left_alone c q end Q ses idle (t ∙ ap whole_groups no_bytes ∙ unfold decode in refl)
                (w ∙ ap part_of_group no_bytes ∙ sym no_bytes))
        | inr something ↦
            let some_bytes : 0 < c.recv_qu.size = ground arith in
            rw (peek-some c.recv_qu some_bytes few) (elim (Bool-cases (c.recv_qu.size % 9 == 0)) [
              | inl groups ↦
                  let groups' : (length (contents c.recv_qu) % 9 == 0) ≡ true =
                    ap (λ k. k % 9 == 0) n ∙ groups in
                  let ready : complete_req (pos c.recv_qu.size) ≡ true = ground arith in
                  let all_taken : taken end (contents c.recv_qu) ≡ decode (contents c.recv_qu) =
                    t ∙ rw groups' in
                  rw ready (
                    Returns-bind (Processed c (decode (contents c.recv_qu)) Q) _ _ _
                      (process-Handled serves price_serves answers fd q c Q idle ses some_bytes few
                        (ground arith) room
                        (subst (λ ms. Sends answers fd (replies (samples c.asset) ms) Q) all_taken
                          sends))
                      (λ (sent, c', q', wire) (h, idle', reply). record {
                        same_id = h.same_id;
                        session = h.session;
                        idle = idle';
                        no_more = h.no_more;
                        stored = h.stored ∙ ap (store_all (samples c.asset)) (sym all_taken);
                        waits = h.nothing_left ∙ sym (w ∙ rw groups');
                        sent = sent;
                        reply =
                            subst (λ ms. Reply Q (replies (samples c.asset) ms) sent wire)
                              (sym all_taken) reply;
                        kept = refl;
                      }))
              | inr part ↦
                  let part' : (length (contents c.recv_qu) % 9 == 0) ≡ false =
                    ap (λ k. k % 9 == 0) n ∙ part in
                  let not_ready : complete_req (pos c.recv_qu.size) ≡ false = ground arith in
                  rw not_ready (left_alone c q end Q ses idle (t ∙ rw part') (w ∙ rw part'))
            ])
      ]

  attend-ServedAs :
      (answers : List Answer) (fd : ℕ) (q : Queue) (c : Client) (end : End) (Q : Outcome → Type 0)
      → IsIdle q
      → IsSession c
      → c.recv_qu.size < 2 ^ 31
      → c.asset.size + c.recv_qu.size < max_samples
      → Sends answers fd (replies (samples c.asset) (taken end (contents c.recv_qu))) Q
      → Returns
          (ServedAs c end (contents c.recv_qu) (load_of c) Q)
          (attend mem price_mem fd answers q c (status end))
  unfolding attend
  attend-ServedAs answers fd q c End.failed Q idle ses few room sends =
      left_alone c q End.failed Q ses idle refl refl
  attend-ServedAs answers fd q c End.closed Q idle ses few room sends =
      attend_open answers fd q c End.closed Q idle ses few room refl refl sends
  attend-ServedAs answers fd q c End.would_block Q idle ses few room sends =
      attend_open answers fd q c End.would_block Q idle ses few room refl refl sends

IsBytes-append : (xs ys : List ℕ) → IsBytes xs → IsBytes ys → IsBytes (xs ++ ys)
IsBytes-append [] ys p q = q
IsBytes-append (x ∷ xs) ys p q = (p.0, IsBytes-append xs ys p.1 q)

-- The bytes that wait once the socket has delivered.
abbrev pub arrived : Client → Inbox → List ℕ
arrived c inbox = contents c.recv_qu ++ joined inbox.chunks

-- What the connection gets for the bytes that have arrived.
abbrev pub ServedFor : Client → Inbox → (Outcome → Type 0) → Served → Type 0
ServedFor c inbox Q v = ServedAs c inbox.end (arrived c inbox) (load_of c + total inbox.chunks) Q v

module _ {mem : Allocator ℕ} {price_mem : Allocator AssetPrice} (serves : Serves mem)
    (price_serves : Serves price_mem) where
  pub serve-ServedFor :
      (answers : List Answer) (fd : ℕ) (inbox : Inbox) (q : Queue) (c : Client)
      (Q : Outcome → Type 0)
      → 0 < fd
      → NonEmpty inbox.chunks
      → IsBytes (joined inbox.chunks)
      → IsIdle q
      → IsSession c
      → load_of c + total inbox.chunks < 2 ^ 31
      → Sends answers fd (replies (samples c.asset) (taken inbox.end (arrived c inbox))) Q
      → Returns (ServedFor c inbox Q) (serve mem price_mem fd inbox answers q c)
  unfolding serve
  serve-ServedFor answers fd inbox q c Q some_fd ne bytes idle ses few sends =
      Returns-bind (Took c.recv_qu inbox) _ _ _
        (recv_request-Took serves fd inbox c.recv_qu some_fd ne ses.recv_qu (omega arith))
        (λ (res, recv_qu) t.
          let c' : Client = record c { recv_qu = recv_qu } in
          let ses' : IsSession c' = record {
            asset = ses.asset;
            prices32 = ses.prices32;
            recv_qu = t.1;
            bytes =
                subst IsBytes (sym t.2)
                  (IsBytes-append (contents c.recv_qu) (joined inbox.chunks) ses.bytes bytes);
          } in
          rw t.0 (
            Returns-mono (ServedAs c' inbox.end (contents recv_qu) (load_of c') Q)
              (ServedFor c inbox Q) _
              (attend-ServedAs serves price_serves answers fd q c' inbox.end Q idle ses'
                (omega (arith, t.3)) (omega (arith, t.3))
                (subst (λ l. Sends answers fd (replies (samples c.asset) (taken inbox.end l)) Q)
                  (sym t.2) sends))
              (λ v a. record {
                same_id = a.same_id;
                session = a.session;
                idle = a.idle;
                no_more = omega (arith, a.no_more, t.3);
                stored = a.stored ∙ ap (λ l. store_all (samples c.asset) (taken inbox.end l)) t.2;
                waits = a.waits ∙ ap (waiting inbox.end) t.2;
                sent = a.sent;
                reply =
                    subst
                      (λ l. Reply Q (replies (samples c.asset) (taken inbox.end l)) a.sent v.wire)
                      t.2 a.reply;
                kept = a.kept;
              })))

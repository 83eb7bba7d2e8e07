-- ===== src/PriceServer/Process.antt =====
-- The sessions of the price server between two events, and what their whole requests come to.
use network_exercises.Common.{
  ℕ, ◌+◌, ◌%◌, ◌^◌, ◌≤◌, ◌<◌, ◌≡◌, refl, sym, ap, subst, ◌∙◌, arith, Bool, List, [], ◌++◌, length,
  take, drop, take-append-drop,
}
use network_exercises.Run.{ok, Returns, Returns-bind}
use network_exercises.Memory.{Allocator, Serves}
use network_exercises.Queue.{Queue, reset}
use network_exercises.Queue.Valid as Valid
use network_exercises.Queue.Valid.{Spare, contents, length-contents, max_bytes}
use network_exercises.Queue.Pop.{pop_no_copy-some, reset-IsValid, reset-size}
use network_exercises.Prices.{AssetPrice}
use network_exercises.Prices.Store as Store
use network_exercises.Prices.Store.{samples, max_samples}
use network_exercises.Prices.Query.{Prices32}
use network_exercises.Messages.{Session, message_parse}
use network_exercises.Messages.Wire.{Message, encode_all}
use network_exercises.Messages.Meaning.{store_all, replies}
use network_exercises.Messages.Replies.{HandledAll, message_parse-HandledAll}
use network_exercises.Messages.Decode.{IsBytes, decode, encode_all-decode}
use network_exercises.Net.{Answer, Outcome}
use network_exercises.Net.Reply.{IsIdle, Sends, Reply, send_replies-Reply}
use network_exercises.Sessions.{Client}
use network_exercises.PriceServer.{process}

-- A session between two events.
pub record IsSession (c : Client) : Type 0 where
  pub asset : Store.IsValid c.asset
  pub prices32 : Prices32 (samples c.asset)
  pub recv_qu : Valid.IsValid c.recv_qu
  pub bytes : IsBytes (contents c.recv_qu)

-- The samples and the bytes of a session.
abbrev pub load_of : Client → ℕ
load_of c = c.asset.size + c.recv_qu.size

-- What a session is after its whole requests, the messages `ms`, are handled.
pub record Handled (c : Client) (ms : List Message) (c' : Client) : Type 0 where
  pub same_id : c'.client_id ≡ c.client_id
  pub session : IsSession c'
  pub stored : samples c'.asset ≡ store_all (samples c.asset) ms
  pub nothing_left : contents c'.recv_qu ≡ []
  pub no_more : load_of c' ≤ load_of c

abbrev pub Processed :
    Client → List Message → (Outcome → Type 0) → Bool × Client × Queue × List ℕ → Type 0
Processed c ms Q (sent, c', q', wire) =
    Handled c ms c' × IsIdle q' × Reply Q (replies (samples c.asset) ms) sent wire

module _ {mem : Allocator ℕ} {price_mem : Allocator AssetPrice} (serves : Serves mem)
    (price_serves : Serves price_mem) where
  pub process-Handled :
      (answers : List Answer) (fd : ℕ) (q : Queue) (c : Client) (Q : Outcome → Type 0)
      → IsIdle q
      → IsSession c
      → 0 < c.recv_qu.size
      → c.recv_qu.size < 2 ^ 31
      → c.recv_qu.size % 9 ≡ 0
      → c.asset.size + c.recv_qu.size < max_samples
      → Sends answers fd (replies (samples c.asset) (decode (contents c.recv_qu))) Q
      → Returns (Processed c (decode (contents c.recv_qu)) Q) (process mem price_mem fd answers q c)
  unfolding process
  process-Handled answers fd q c Q idle ses some_bytes few groups room sends =
      let bytes = contents c.recv_qu in
      let n : length bytes ≡ c.recv_qu.size = length-contents c.recv_qu ses.recv_qu in
      let (same, messages, count) =
        encode_all-decode bytes ses.bytes (ap (λ k. k % 9) n ∙ groups) in
      let split : c.recv_qu.buf ≡ encode_all (decode bytes) ++ drop c.recv_qu.size c.recv_qu.buf =
        sym (take-append-drop c.recv_qu.size c.recv_qu.buf)
        ∙ ap (λ l. l ++ drop c.recv_qu.size c.recv_qu.buf) (sym same) in
      let start : Session = record { prices = c.asset; sdqu = q } in
      rw (pop_no_copy-some c.recv_qu some_bytes few) (
        Returns-bind (HandledAll start (decode bytes)) _ _ _
          (subst
            (λ l.
              Returns (HandledAll start (decode bytes))
                (message_parse mem price_mem start l c.recv_qu.size))
            (sym split)
            (message_parse-HandledAll serves price_serves start (decode bytes)
              (drop c.recv_qu.size c.recv_qu.buf) c.recv_qu.size
              (record { prices = ses.asset; sdqu = idle.valid; prices32 = ses.prices32 }) messages
              some_bytes (omega (arith, n, count)) (omega (arith, n, count))
              (omega (arith, n, count, idle.empty))))
          (λ s h.
            let queued : contents s.sdqu ≡ replies (samples c.asset) (decode bytes) =
              h.sent
              ∙ ap (λ k. take k q.buf ++ replies (samples c.asset) (decode bytes)) idle.empty in
            let as_many = sym (ap length queued) ∙ length-contents s.sdqu h.ready.sdqu in
            Returns-bind
              (λ (sent, q', wire).
                IsIdle q'
                × Reply Q (replies (samples c.asset) (decode bytes)) sent wire
                × (q'.capacity ≡ s.sdqu.capacity))
              (Processed c (decode bytes) Q) _
              (λ (sent, q', wire).
                ok (sent, record c { asset = s.prices; recv_qu = reset c.recv_qu }, q', wire))
              (send_replies-Reply answers fd s.sdqu (replies (samples c.asset) (decode bytes)) Q
                h.ready.sdqu (h.spare idle.spare) queued
                (omega (arith, as_many, h.more_bytes, idle.empty, count, n)) sends)
              (λ (sent, q', wire) (idle', reply, _). (
                record {
                  same_id = refl;
                  session = record {
                    asset = h.ready.prices;
                    prices32 = h.ready.prices32;
                    recv_qu = (reset-IsValid c.recv_qu ses.recv_qu).0;
                    bytes = subst IsBytes (sym (reset-IsValid c.recv_qu ses.recv_qu).1) tt;
                  };
                  stored = h.stored;
                  nothing_left = (reset-IsValid c.recv_qu ses.recv_qu).1;
                  no_more = omega (arith, h.more_prices, count, n, (reset-size c.recv_qu).0);
                },
                idle',
                reply,
              ))))

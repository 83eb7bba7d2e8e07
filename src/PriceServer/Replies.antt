-- ===== src/PriceServer/Replies.antt =====
-- What a ready connection gets where everything can be sent.
use network_exercises.Common.{
  ℕ, ◌+◌, ◌^◌, ◌<◌, ◌≡◌, ap, ◌∙◌, true, some, List, [], ◌∷◌, length, ◌&&◌,
}
use network_exercises.Common.Int.{pos}
use network_exercises.Run.{Returns, Returns-mono}
use network_exercises.Memory.{Allocator, Serves}
use network_exercises.Prices.{AssetPrice}
use network_exercises.Prices.Store.{samples}
use network_exercises.Messages.Meaning.{replies}
use network_exercises.Messages.Decode.{IsBytes}
use network_exercises.Net.{took, Inbox, total}
use network_exercises.Net.Receive.{NonEmpty, joined}
use network_exercises.Links.Append.{lookup}
use network_exercises.Sessions.{Client}
use network_exercises.Sessions.Find.{Sessions, id_of}
use network_exercises.PriceServer.{Server, Served, on_ready}
use network_exercises.Net.Reply.{SentAll, sent_all, took-SentAll}
use network_exercises.PriceServer.Serve.{taken, arrived, ServedFor, is_open}
use network_exercises.PriceServer.Step.{IsServer, AnswerTo, after, on_ready-AnswerTo}

module _ {mem : Allocator ℕ} {price_mem : Allocator AssetPrice} (serves : Serves mem)
    (price_serves : Serves price_mem) where
  -- A watched descriptor that is ready, on a well-formed server with more fuel than sessions, whose
  -- socket delivers non-empty pieces of bytes, with memory at hand, a `send` that takes all replies in
  -- one call and an `epoll_ctl` that removes, as long as the bytes and samples of a session stay below
  -- 2^31: exactly the replies to the whole requests that have arrived go out, the session is left as
  -- these requests ask, it is kept just when the client may send more, and the server stays
  -- well-formed.
  pub on_ready-replies :
      (fuel most : ℕ) (s : Server) (xs : Sessions) (c : Client) (fd : ℕ) (inbox : Inbox)
      → IsServer most s xs
      → 0 < fd
      → lookup id_of (pos fd) xs ≡ some c
      → length xs < fuel
      → NonEmpty inbox.chunks
      → IsBytes (joined inbox.chunks)
      → most + total inbox.chunks < 2 ^ 31
      → let r = replies (samples c.asset) (taken inbox.end (arrived c inbox)) in
        Returns
          (λ (s', wire).
            (wire ≡ r)
            × ((v : Served) × ServedFor c inbox (SentAll r) v
                × (v.keep ≡ is_open inbox.end)
                × IsServer (most + total inbox.chunks) s' (after fd v xs)))
          (on_ready mem price_mem fuel s fd inbox (took (length r) ∷ []) true)
  on_ready-replies fuel most s xs c fd inbox w some_fd known enough ne bytes few =
      let r : List ℕ = replies (samples c.asset) (taken inbox.end (arrived c inbox)) in
      Returns-mono (AnswerTo most xs fd inbox (SentAll r) c) _ _
        (on_ready-AnswerTo serves price_serves fuel most s xs c fd inbox (took (length r) ∷ [])
          (SentAll r) w some_fd known enough ne bytes few (took-SentAll fd r some_fd))
        (λ (s', wire) (v, served, same, w').
          let (sent, all) = sent_all r served.sent v.wire served.reply in
          (same ∙ all, (v, served, served.kept ∙ ap (λ b. b && is_open inbox.end) sent, w')))

-- ===== src/PriceServer/Knowing.antt =====
-- What the sessions of c/source/means-to-an-end/main.c know of what their connections have sent.
use network_exercises.Common.{
  ℕ, ◌≡◌, sym, ap, subst, ◌∙◌, arith, Bool, true, false, inl, inr, some, List, [], ◌∷◌, ◌++◌, take,
  Bool-cases,
}
use network_exercises.Common.Int.{ℤ, pos, eq_ℤ}
use network_exercises.Queue.Valid.{contents}
use network_exercises.Prices.Store.{samples}
use network_exercises.Messages.Meaning.{replies}
use network_exercises.Net.{Answer, Inbox, Outcome, incoming, ready}
use network_exercises.Net.Receive.{joined}
use network_exercises.Links.Append.{lookup}
use network_exercises.Sessions.{Client}
use network_exercises.Sessions.Find.{Sessions, id_of}
use network_exercises.Sessions.Add.{IsNew}
use mathlib.Core.Option.{none-ne-some}
use network_exercises.PriceServer.{Served}
use network_exercises.PriceServer.Serve.{taken, arrived, ServedFor}
use network_exercises.PriceServer.Table.{ids, watches, eq_ℤ→eq, AllOnce}
use network_exercises.PriceServer.Lookup.{
  lookup-unwatched, lookup-append, lookup-replaced-other, lookup-without-other,
  lookup-replaced_self, lookup-without_self, lookup-id,
}
use network_exercises.PriceServer.Step.{after}
use network_exercises.Net.Streams.{History, stream, outputs, gave_up}
use network_exercises.PriceServer.Streams.{
  Told, nothing-Told, Follows, Follows-nothing, Follows-ready,
}

abbrev pub ToldOf : History → ℤ → Type 0
ToldOf h id = Told (stream id h) (outputs id h) (gave_up id h)

abbrev pub FollowsOf : History → ℤ → Client → Type 0
FollowsOf h id c =
    Follows (stream id h) (outputs id h) (gave_up id h) (samples c.asset) (contents c.recv_qu)

-- Every connection has been told what it asked, and the sessions know of theirs.
pub record Knows (h : History) (xs : Sessions) : Type 0 where
  pub told : (id : ℤ) → ToldOf h id
  pub follows : (id : ℤ) (c : Client) → lookup id_of id xs ≡ some c → FollowsOf h id c

-- A connection that comes in: nothing is known of it.
module _ (h : History) (xs : Sessions) (conn : ℤ) (added : Bool) (wire : List ℕ)
    (k : Knows h xs) where
  told-incoming : (id : ℤ) → ToldOf ((incoming conn added, wire) ∷ h) id
  unfolding stream outputs gave_up
  told-incoming id = elim (Bool-cases (eq_ℤ conn id)) [
    | inl hit ↦ rw hit nothing-Told
    | inr miss ↦ rw miss (k.told id)
  ]

  follows-new :
      (id : ℤ) (c : Client)
      → eq_ℤ conn id ≡ true
      → IsNew conn c
      → FollowsOf ((incoming conn added, wire) ∷ h) id c
  unfolding stream outputs gave_up
  follows-new id c hit new = rw hit (
      Follows-nothing (samples c.asset) (contents c.recv_qu) new.no_samples
        (ap (λ n. take n c.recv_qu.buf) new.no_bytes))

  follows-old :
      (id : ℤ) (c : Client)
      → eq_ℤ conn id ≡ false
      → lookup id_of id xs ≡ some c
      → FollowsOf ((incoming conn added, wire) ∷ h) id c
  unfolding stream outputs gave_up
  follows-old id c miss e = rw miss (k.follows id c e)

  pub Knows-incoming :
      (a : ℕ) (c : Client)
      → watches conn (ids xs) ≡ false
      → IsNew conn c
      → Knows ((incoming conn added, wire) ∷ h) (xs ++ (a, c) ∷ [])
  Knows-incoming a c apart new = record {
    told = told-incoming;
    follows = λ id d e. elim (Bool-cases (eq_ℤ conn id)) [
      | inl hit ↦ elim (lookup-append id xs a c d e) [
        | inl old ↦ absurd (
            none-ne-some _ (
              sym (
                lookup-unwatched id xs
                  (ap (λ i. watches i (ids xs)) (sym (eq_ℤ→eq conn id hit)) ∙ apart))
              ∙ old))
        | inr (_, same) ↦
            subst (FollowsOf ((incoming conn added, wire) ∷ h) id) same (follows-new id c hit new)
      ]
      | inr miss ↦ elim (lookup-append id xs a c d e) [
        | inl old ↦ follows-old id d miss old
        | inr (hit, _) ↦ absurd (cc (miss, ap (λ i. eq_ℤ i id) new.same_id, hit))
      ]
    ];
  }

-- A connection that is ready.
module _ (h : History) (xs : Sessions) (fd : ℕ) (inbox : Inbox) (answers : List Answer)
    (removed : Bool) (c : Client) (k : Knows h xs) (known : lookup id_of (pos fd) xs ≡ some c) where
  -- The history once the replies have gone out.
  abbrev pub answered : History
  answered =
      (
        ready fd inbox answers removed,
        replies (samples c.asset) (taken inbox.end (arrived c inbox)),
      )
      ∷ h

  follows_self :
      (Q : Outcome → Type 0) (v : Served)
      → ServedFor c inbox Q v
      → FollowsOf answered (pos fd) v.client
  unfolding stream outputs gave_up
  follows_self Q v served =
      let same : eq_ℤ (pos fd) (pos fd) ≡ true = ground arith in
      rw (same, served.stored, served.waits)
        (Follows-ready (stream (pos fd) h) (outputs (pos fd) h) (gave_up (pos fd) h)
          (samples c.asset) (contents c.recv_qu) (joined inbox.chunks) inbox.end
          (k.follows (pos fd) c known))

  told-other : (id : ℤ) → eq_ℤ (pos fd) id ≡ false → ToldOf answered id
  unfolding stream outputs gave_up
  told-other id miss = rw miss (k.told id)

  follows-other :
      (id : ℤ) (d : Client)
      → eq_ℤ (pos fd) id ≡ false
      → lookup id_of id xs ≡ some d
      → FollowsOf answered id d
  unfolding stream outputs gave_up
  follows-other id d miss e = rw miss (k.follows id d e)

  module _ (Q : Outcome → Type 0) (v : Served) (served : ServedFor c inbox Q v) where
    told-ready : (id : ℤ) → ToldOf answered id
    told-ready id = elim (Bool-cases (eq_ℤ (pos fd) id)) [
      | inl hit ↦ subst (ToldOf answered) (eq_ℤ→eq (pos fd) id hit) (follows_self Q v served).0
      | inr miss ↦ told-other id miss
    ]

    -- The session of the descriptor, where it is still there.
    self_after :
        (d : Client)
        → AllOnce (ids xs)
        → lookup id_of (pos fd) (after fd v xs) ≡ some d
        → v.client ≡ d
    self_after d once e = elim (Bool-cases v.keep) [
      | inl stays ↦
          lookup-replaced_self (pos fd) v.client d xs
            (ap (λ i. eq_ℤ i (pos fd)) served.same_id ∙ lookup-id (pos fd) xs c known)
            (rw stays at e)
      | inr gone ↦
          absurd (none-ne-some _ (sym (lookup-without_self (pos fd) xs once) ∙ (rw gone at e)))
    ]

    other_after :
        (id : ℤ) → eq_ℤ (pos fd) id ≡ false → lookup id_of id (after fd v xs) ≡ lookup id_of id xs
    other_after id miss = elim (Bool-cases v.keep) [
      | inl stays ↦ rw stays (
          lookup-replaced-other (pos fd) id miss v.client xs
            (ap (λ i. eq_ℤ i (pos fd)) served.same_id ∙ lookup-id (pos fd) xs c known))
      | inr gone ↦ rw gone (lookup-without-other (pos fd) id miss xs)
    ]

    pub Knows-ready : AllOnce (ids xs) → Knows answered (after fd v xs)
    Knows-ready once = record {
      told = told-ready;
      follows = λ id d e. elim (Bool-cases (eq_ℤ (pos fd) id)) [
        | inl hit ↦
            let at_fd = eq_ℤ→eq (pos fd) id hit in
            subst (λ i. FollowsOf answered i d) at_fd
              (subst (FollowsOf answered (pos fd))
                (self_after d once (ap (λ i. lookup id_of i (after fd v xs)) at_fd ∙ e))
                (follows_self Q v served))
        | inr miss ↦ follows-other id d miss (sym (other_after id miss) ∙ e)
      ];
    }

-- ===== src/Chat/Similar.antt =====
-- Lists of clients that differ in their queues only.
use network_exercises.Common.{
  ℕ, suc, ◌<◌, ◌≡◌, refl, sym, ap, ap₂, subst, ◌∙◌, some, [], ◌∷◌, ◌&&◌, not, length, if◌then◌else◌,
}
use network_exercises.Common.Int.{ℤ, eq_ℤ}
use network_exercises.Queue.{Queue}
use mathlib.Core.Option.{none-ne-some, some-injective}
use network_exercises.Links.{Node, Heap, write}
use network_exercises.Links.Linked.{addr, node, onto, IsLinked}
use network_exercises.Links.Append.{At, update-IsLinked}
use network_exercises.Chat.{Client}
use network_exercises.Chat.Broadcast.{Clients, Named, other, others, starts}

abbrev pub Similar : Clients → Clients → Type 0
Similar [] [] = Unit {0}
Similar [] (y ∷ ys) = ⊥
Similar (x ∷ xs) [] = ⊥
Similar ((a, c) ∷ xs) ((b, d) ∷ ys) = (a ≡ b) × (c.id ≡ d.id) × (c.name ≡ d.name) × Similar xs ys

Similar-refl : (xs : Clients) → Similar xs xs
Similar-refl [] = tt
Similar-refl ((a, c) ∷ xs) = (refl, refl, refl, Similar-refl xs)

Similar-onto : (rs xs ys : Clients) → Similar xs ys → Similar (onto rs xs) (onto rs ys)
unfolding onto
Similar-onto [] xs ys s = s
Similar-onto ((a, c) ∷ rs) xs ys s =
    Similar-onto rs ((a, c) ∷ xs) ((a, c) ∷ ys) (refl, refl, refl, s)

pub Similar-Named : (xs ys : Clients) → Similar xs ys → Named xs → Named ys
Similar-Named [] [] s n = tt
Similar-Named [] (y ∷ ys) s n = absurd s
Similar-Named (x ∷ xs) [] s n = absurd s
Similar-Named ((a, c) ∷ xs) ((b, d) ∷ ys) s n =
    (subst (λ l. 0 < length l) s.2 n.0, Similar-Named xs ys s.3 n.1)

pub Similar-others : (me : ℤ) (xs ys : Clients) → Similar xs ys → others me xs ≡ others me ys
unfolding others other
Similar-others me [] [] s = refl
Similar-others me [] (y ∷ ys) s = absurd s
Similar-others me (x ∷ xs) [] s = absurd s
Similar-others me ((a, c) ∷ xs) ((b, d) ∷ ys) s =
    ap₂ (λ t k. if t then suc k else k) (ap₂ (λ i l. not (eq_ℤ i me) && starts l) s.1 s.2)
      (Similar-others me xs ys s.3)

pub Similar-length : (xs ys : Clients) → Similar xs ys → length xs ≡ length ys
Similar-length [] [] s = refl
Similar-length [] (y ∷ ys) s = absurd s
Similar-length (x ∷ xs) [] s = absurd s
Similar-length ((a, c) ∷ xs) ((b, d) ∷ ys) s = ap suc (Similar-length xs ys s.3)

-- The queue of one client is changed in place.
abbrev pub requeued : Node Client → Queue → Node Client
requeued n qu = record n { data_of = record n.data_of { recv_qu = qu } }

requeued-onto :
    (h : Heap Client) (c : ℕ) (n : Node Client) (qu : Queue) (rs zs : Clients)
    → IsLinked h rs zs
    → some c ≡ addr zs
    → h c ≡ some n
    → (ys : Clients) × At (write h c (requeued n qu)) (some c) ys × Similar (onto rs zs) ys
requeued-onto h c n qu rs [] l e here = absurd (none-ne-some _ (sym e))
requeued-onto h c n qu rs ((a, d) ∷ zs) l e here =
    let at : c ≡ a = some-injective _ _ e in
    let same : n ≡ node d (addr zs) (addr rs) =
      some-injective _ _ (sym here ∙ ap h at ∙ l.forth.0) in
    let new : Client = record d { recv_qu = qu } in
    let heaps : write h a (node new (addr zs) (addr rs)) ≡ write h c (requeued n qu) =
      ap₂ (λ k m. write h k (requeued m qu)) (sym at) (sym same) in
    (
      onto rs ((a, new) ∷ zs),
      record {
        rs = rs;
        zs = (a, new) ∷ zs;
        linked =
            subst (λ k. IsLinked k rs ((a, new) ∷ zs)) heaps (update-IsLinked h a d new rs zs l);
        whole = refl;
        place = e;
        inside = λ none_there. absurd (none-ne-some _ (sym (ap addr none_there)));
      },
      Similar-onto rs ((a, d) ∷ zs) ((a, new) ∷ zs) (refl, refl, refl, Similar-refl zs),
    )

pub requeued-At :
    (h : Heap Client) (c : ℕ) (n : Node Client) (qu : Queue) (xs : Clients)
    → At h (some c) xs
    → h c ≡ some n
    → (ys : Clients) × At (write h c (requeued n qu)) (some c) ys × Similar xs ys
requeued-At h c n qu xs place here =
    let (ys, at, similar) =
      requeued-onto h c n qu place.rs place.zs place.linked place.place here in
    (ys, at, subst (λ l. Similar l ys) place.whole similar)

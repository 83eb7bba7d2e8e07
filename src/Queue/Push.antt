-- ===== src/Queue/Push.antt =====
-- `queue_push` and `queue_push_ex`: they never write outside the buffer, and append.
use network_exercises.Common.{
  ℕ, zero, suc, ◌+◌, ◌-◌, ◌≤◌, ◌<◌, ◌≡◌, refl, ap, sym, ◌∙◌, true, false, inl, inr, arith, leb,
  ◌==◌, List, ◌++◌, append-nil, Bool-cases, length, take, drop, length-append, length-take,
  length-drop, append_assoc, drop-append, take-append_le, take-append_add, take-kept, take-length,
}
use network_exercises.Run.{Returns, Returns-mono, Returns-bind}
use network_exercises.Memory.{Allocator, Serves, memcpy, add64}
use network_exercises.Queue.{Queue, buffer, advance, make_room, push, push_ex}
use network_exercises.Queue.Valid.{IsValid, Spare, contents, max_bytes}
use network_exercises.Queue.Grow.{Expanded, expand_capacity-Expanded}

-- A valid queue with these bytes, so many.
abbrev pub Holds : List ℕ → ℕ → Queue → Type 0
Holds bytes n qu = IsValid qu × (contents qu ≡ bytes) × (qu.size ≡ n)

-- A queue that has grown in proportion to the `n` bytes that it took last.
abbrev pub Slack : Queue → ℕ → Queue → Type 0
Slack qu n qu' = (qu.capacity ≤ qu'.capacity) × (qu'.size < buffer (qu'.free_capacity + n))

-- What a queue has become before `size` bytes are written behind its own.
record Roomy (qu qu' : Queue) (size : ℕ) : Type 0 where
  valid : IsValid qu'
  same_size : qu'.size ≡ qu.size
  same_bytes : take (length qu.buf) qu'.buf ≡ qu.buf
  fits : qu.size + size < buffer (qu'.capacity - qu.size)

Roomy-bytes :
    (qu qu' : Queue) (size n : ℕ)
    → IsValid qu
    → Roomy qu qu' size
    → n ≤ qu.capacity
    → take n qu'.buf ≡ take n qu.buf
Roomy-bytes qu qu' size n v m h =
    take-kept n (length qu.buf) qu.buf qu'.buf (omega (arith, v.filled)) m.same_bytes

-- The three assignments at the end keep the invariant, whatever has been written.
advance-IsValid :
    (qu qu' : Queue) (size : ℕ) (new : List ℕ)
    → Roomy qu qu' size
    → length new ≡ length qu'.buf
    → IsValid (advance (record qu' { buf = new }) size)
      × ((advance (record qu' { buf = new }) size).size ≡ qu.size + size)
advance-IsValid qu qu' size new m e = (
  record {
    filled = omega (arith, m.valid);
    small = omega (arith, m.valid);
    at_end = omega (arith, m.valid, m.same_size, m.fits);
    room = omega (arith, m.valid, m.same_size, m.fits);
    rest = omega (arith, m.valid, m.same_size, m.fits);
  },
  omega (arith, m.valid, m.same_size, m.fits),
)

-- What `memcpy` leaves: the size of the object, and the copied bytes where they were asked for.
pub record Copied (dst : List ℕ) (at : ℕ) (src : List ℕ) (n : ℕ) (new : List ℕ) : Type 0 where
  pub size : length new ≡ length dst
  pub front : take (at + n) new ≡ take at dst ++ take n src
  pub rest : drop (at + n) new ≡ drop (at + n) dst

pub memcpy-Copied :
    (dst : List ℕ) (at : ℕ) (src : List ℕ) (n : ℕ)
    → n ≤ length src
    → at + n ≤ length dst
    → Returns (Copied dst at src n) (memcpy dst at src n)
unfolding memcpy
memcpy-Copied dst at src n in_src in_dst =
    let first : leb n (length src) ≡ true = ground arith in
    let second : leb (at + n) (length dst) ≡ true = ground arith in
    let copied : length (take n src) ≡ n = omega (arith, length-take n src) in
    let before : length (take at dst) ≡ at = omega (arith, length-take at dst) in
    rw first (
      rw second (record {
        size = omega (
          arith,
          length-append (take at dst) (take n src ++ drop (at + n) dst),
          length-append (take n src) (drop (at + n) dst),
          length-drop (at + n) dst,
        );
        front =
            take-append_add at n (take at dst) (take n src ++ drop (at + n) dst) before
            ∙ ap (λ l. take at dst ++ l)
                (take-append_le n (take n src) (drop (at + n) dst) (omega arith)
                  ∙ take-length n (take n src) (omega arith));
        rest =
            ap (drop (at + n)) (sym (append_assoc (take at dst) (take n src) (drop (at + n) dst)))
            ∙ drop-append (take at dst ++ take n src) (drop (at + n) dst) (at + n)
                (omega (arith, length-append (take at dst) (take n src)));
      }))

pushed-contents :
    (qu qu' : Queue) (src new : List ℕ) (n : ℕ)
    → IsValid qu
    → Roomy qu qu' n
    → Copied qu'.buf qu'.head src n new
    → contents (advance (record qu' { buf = new }) n) ≡ contents qu ++ take n src
pushed-contents qu qu' src new n v m c =
    let end : add64 qu'.size n ≡ qu'.head + n = omega (arith, m.valid, m.same_size, m.fits) in
    let start : qu'.head ≡ qu.size = omega (arith, m.valid, m.same_size) in
    ap (λ k. take k new) end
    ∙ c.front
    ∙ ap (λ l. l ++ take n src)
        (ap (λ k. take k qu'.buf) start ∙ Roomy-bytes qu qu' n qu.size v m (omega (arith, v)))

module _ {mem : Allocator ℕ} (serves : Serves mem) where
  make_room-Roomy :
      (qu : Queue) (size : ℕ)
      → IsValid qu
      → 0 < size
      → qu.size + size < max_bytes
      → Returns (λ qu'. Roomy qu qu' size) (make_room mem qu size)
  unfolding make_room
  make_room-Roomy qu size v pos n =
      let need : add64 qu.size size ≡ qu.size + size = omega arith in
      rw need (elim (Bool-cases (leb (buffer qu.free_capacity) (qu.size + size))) [
        | inl short ↦ rw short (
            Returns-mono (λ qu'. Expanded qu qu' (qu.size + size)) (λ qu'. Roomy qu qu' size) _
              (expand_capacity-Expanded serves qu size v pos n (ground arith))
              (λ qu' x. record {
                valid = x.valid;
                same_size = x.same_size;
                same_bytes = x.same_bytes;
                fits = omega (arith, x.roomy, x.valid.rest, x.same_size);
              }))
        | inr enough ↦ rw enough (record {
          valid = v;
          same_size = refl;
          same_bytes = take-length (length qu.buf) qu.buf (omega arith);
          fits = ground (arith, v.rest);
        })
      ])

  -- What `queue_push` has done: the invariant, and the new bytes behind the old ones.
  pub push-append :
      (qu : Queue) (src : List ℕ) (n : ℕ)
      → IsValid qu
      → n ≤ length src
      → qu.size + n < max_bytes
      → Returns (Holds (contents qu ++ take n src) (qu.size + n)) (push mem qu src n)
  unfolding push
  push-append qu src zero v in_src few = (v, sym (append-nil (contents qu)), omega arith)
  push-append qu src (suc n) v in_src few =
      let nonzero : (suc n == 0) ≡ false = ground arith in
      rw nonzero (
        Returns-bind (λ qu'. Roomy qu qu' (suc n)) _ _ _
          (make_room-Roomy qu (suc n) v (omega arith) few)
          (λ qu' m.
            Returns-bind (Copied qu'.buf qu'.head src (suc n)) _ _ _
              (memcpy-Copied qu'.buf qu'.head src (suc n) in_src (omega (arith, m.fits, m.valid)))
              (λ new c. (
                (advance-IsValid qu qu' (suc n) new m c.size).0,
                pushed-contents qu qu' src new (suc n) v m c,
                (advance-IsValid qu qu' (suc n) new m c.size).1,
              ))))

  -- A push keeps two bytes behind the contents.
  pub push-Spare :
      (qu : Queue) (src : List ℕ) (n : ℕ)
      → IsValid qu
      → n ≤ length src
      → qu.size + n < max_bytes
      → Returns (λ qu'. Spare qu → Spare qu') (push mem qu src n)
  unfolding push
  push-Spare qu src zero v in_src few = λ s. s
  push-Spare qu src (suc n) v in_src few =
      let nonzero : (suc n == 0) ≡ false = ground arith in
      rw nonzero (
        Returns-bind (λ qu'. Roomy qu qu' (suc n)) _ _ _
          (make_room-Roomy qu (suc n) v (omega arith) few)
          (λ qu' m.
            Returns-bind (Copied qu'.buf qu'.head src (suc n)) _ _ _
              (memcpy-Copied qu'.buf qu'.head src (suc n) in_src (omega (arith, m.fits, m.valid)))
              (λ new c s. omega (arith, m.fits, (advance-IsValid qu qu' (suc n) new m c.size).1))))

  -- What `queue_push_ex` has done: bytes that stand behind the head already become the queue's.
  pub push_ex-extend :
      (qu : Queue) (n : ℕ)
      → IsValid qu
      → qu.size + n ≤ qu.capacity
      → qu.size + n < max_bytes
      → Returns (Holds (take (qu.size + n) qu.buf) (qu.size + n)) (push_ex mem qu n)
  unfolding push_ex
  push_ex-extend qu zero v inside few =
      let e : qu.size ≡ qu.size + 0 = omega arith in (v, ap (λ k. take k qu.buf) e, e)
  push_ex-extend qu (suc n) v inside few =
      let nonzero : (suc n == 0) ≡ false = ground arith in
      rw nonzero (
        Returns-bind (λ qu'. Roomy qu qu' (suc n)) _ _ _
          (make_room-Roomy qu (suc n) v (omega arith) few)
          (λ qu' m. (
            (advance-IsValid qu qu' (suc n) qu'.buf m refl).0,
            ap (λ k. take k qu'.buf) (advance-IsValid qu qu' (suc n) qu'.buf m refl).1
                ∙ Roomy-bytes qu qu' (suc n) (qu.size + suc n) v m inside,
            (advance-IsValid qu qu' (suc n) qu'.buf m refl).1,
          )))

  pub push_ex-Slack :
      (qu : Queue) (n : ℕ)
      → IsValid qu
      → 0 < n
      → qu.size + n < max_bytes
      → Returns (Slack qu n) (push_ex mem qu n)
  unfolding push_ex
  push_ex-Slack qu n v some_bytes few =
      let nonzero : (n == 0) ≡ false = ground arith in
      rw nonzero (
        Returns-bind (λ qu'. Roomy qu qu' n) _ _ _ (make_room-Roomy qu n v some_bytes few)
          (λ qu' m.
            let kept : length (take (length qu.buf) qu'.buf) ≡ length qu.buf =
              ap length m.same_bytes in
            let fits : add64 qu'.size n ≡ qu.size + n = omega (arith, m) in
            (
              omega (arith, kept, length-take (length qu.buf) qu'.buf, v, m.valid),
              omega (arith, fits, m, m.valid),
            )))

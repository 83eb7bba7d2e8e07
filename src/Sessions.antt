-- ===== src/Sessions.antt =====
-- c/source/means-to-an-end/client-session.c and client-session.h: the sessions of the connected
-- clients, a doubly linked list on the heap. `struct clients_session** pca` is the pointer `p`, and
-- an operation returns the heap and the pointer. `asset` and `recv_qu` are checked once, when a
-- session is made, and are no NULL while it lives, so a session holds what they point to.
pub mod Find
pub mod Change
pub mod Add
mod Tests
use network_exercises.Common.{ℕ, zero, suc, Bool, true, false, Option, none, some, if◌then◌else◌}
use network_exercises.Common.Int.{ℤ, pos, leb_ℤ}
use network_exercises.Run.{Run, ok, aborted, out_of_fuel, ◌>>=◌, ◌>>◌, assert, assert_some}
use network_exercises.Memory.{Allocator}
use network_exercises.Queue
use network_exercises.Queue.{Queue}
use network_exercises.Prices
use network_exercises.Prices.{AssetPrice, AssetPrices}
use network_exercises.Links.{Node, Heap, fetch, write, back, ahead, search, set_prev, unlink}

-- The fields of `struct clients_session` besides its links.
pub record Client : Type 0 where
  pub client_id : ℤ
  pub asset : AssetPrices
  pub recv_qu : Queue

-- `malloc` of a session: an address, or NULL.
abbrev pub Addresses : Type 0
Addresses = Heap Client → Option ℕ

abbrev is_none {ℓ} : {A : Type ℓ} → Option A → Bool
is_none none = true
is_none (some a) = false

module _ (mem : Allocator ℕ) (price_mem : Allocator AssetPrice) (malloc : Addresses) where
  unfoldable pub new_client : ℤ → Run Client
  new_client client_id = do
    asset ← Prices.init price_mem 16
    qu ← Queue.init mem none 512
    recv_qu ← assert_some qu
    ok (record { client_id = client_id; asset = asset; recv_qu = recv_qu })

  -- `clients_session_init`: the heap, and where the new session is.
  unfoldable pub init : Heap Client → Option ℕ → ℤ → Run (Heap Client × ℕ)
  init h p client_id = do
    assert (is_none p)
    assert (leb_ℤ (pos 1) client_id)
    a ← assert_some (malloc h)
    c ← new_client client_id
    ok (write h a (record { data_of = c; next = none; prev = none }), a)

-- `clients_session_free`
unfoldable pub free : Heap Client → Option ℕ → Run (Heap Client × Option ℕ)
free h p = do a ← assert_some p; unlink h a

-- The loop of `clients_session_free_all`; the pointer is NULL at its end.
unfoldable pub free_from : ℕ → Heap Client → Option ℕ → Run (Heap Client)
free_from zero h p = out_of_fuel
free_from (suc n) h none = ok h
free_from (suc n) h (some a) = do (h', q) ← free h (some a); free_from n h' q

-- The loops have fuel for a list of fewer sessions.
module _ (fuel : ℕ) where
  unfoldable pub get_beg : Heap Client → Option ℕ → Run ℕ
  get_beg h p = do a ← assert_some p; n ← fetch h a; back fuel h n.prev a

  unfoldable pub get_end : Heap Client → Option ℕ → Run ℕ
  get_end h p = do a ← assert_some p; n ← fetch h a; ahead fuel h n.next a

  -- `clients_session_find`: whether the session is there, and the pointer.
  unfoldable pub find : Heap Client → Option ℕ → ℤ → Run (Bool × Option ℕ)
  find h none id = ok (false, none)
  find h (some a) id = do
    assert (leb_ℤ (pos 1) id)
    first ← get_beg h (some a)
    r ← search (λ c. c.client_id) fuel h id (some first)
    elim r [ none ↦ ok (false, some first) | some c ↦ ok (true, some c) ]

  unfoldable pub remove : Heap Client → Option ℕ → ℤ → Run (Bool × Heap Client × Option ℕ)
  remove h p id = do
    a ← assert_some p
    assert (leb_ℤ (pos 1) id)
    (there, q) ← find h p id
    if there then (do (h', q') ← free h q; ok (true, h', q')) else ok (false, h, q)

  unfoldable pub free_all : Heap Client → Option ℕ → Run (Heap Client)
  free_all h p = do first ← get_beg h p; free_from fuel h (some first)

  -- `clients_session_add`
  unfoldable pub add :
      Allocator ℕ
      → Allocator AssetPrice
      → Addresses
      → Heap Client
      → Option ℕ
      → ℤ
      → Run (Heap Client × Option ℕ)
  add mem price_mem malloc h none id = do
    assert (leb_ℤ (pos 1) id)
    (h1, a) ← init mem price_mem malloc h none id
    ok (h1, some a)
  add mem price_mem malloc h (some p) id = do
    assert (leb_ℤ (pos 1) id)
    last ← get_end h (some p)
    l ← fetch h last
    (h1, a) ← init mem price_mem malloc h l.next id
    let h2 = write h1 last (record l { next = some a })
    h3 ← set_prev h2 (some a) (some last)
    ok (h3, some last)

-- ===== src/Ring/Inv.antt =====
-- The representation invariant of the ring buffer, and what it gives: no slot is read or written
-- out of range, and no counter wraps.
use native.Mathlib.Nat.{mod-mod, mod-lt}
use app_simple_log.Prelude.{
  ℕ, suc, ◌+◌, ◌%◌, ◌^◌, ◌≤◌, ◌<◌, ◌≡◌, refl, length, length-set, length-replicate, size_mod,
  mod-add_congr, arith,
}
use app_simple_log.Ring.{RingBuffer, create, try_push, pop_all}

-- The head is a ticket that is never reduced; the tail is kept below the capacity. `n` more pushes
-- fit before the head wraps.
pub record IsValid {A : Type 0} (n : ℕ) (r : RingBuffer A) : Type 0 where
  pub slots : length r.buffer ≡ r.capacity
  pub small : r.capacity ≤ 2 ^ 62
  pub held : r.size ≤ r.capacity
  pub tail_le : r.tail ≤ r.capacity
  pub tail_in : 0 < r.capacity → r.tail < r.capacity
  pub in_step : r.head % r.capacity ≡ (r.tail + r.size) % r.capacity
  pub no_wrap : r.head + n < size_mod

module _ {A : Type 0} where
  pub create-IsValid :
      (blank : A) (capacity n : ℕ)
      → capacity ≤ 2 ^ 62
      → n < size_mod
      → IsValid n (create blank capacity)
  unfolding create
  create-IsValid blank capacity n h k = record {
    slots = length-replicate capacity blank;
    small = h;
    held = omega arith;
    tail_le = omega arith;
    tail_in = λ pos. pos;
    in_step = refl;
    no_wrap = omega arith;
  }

  pub try_push-IsValid :
      (n : ℕ) (r : RingBuffer A) (entry : A) → IsValid (suc n) r → IsValid n (try_push r entry).1
  unfolding try_push
  try_push-IsValid n r entry v = ground (
    arith,
    length-set r.buffer (r.head % r.capacity) entry,
    mod-add_congr r.head (r.tail + r.size) 1 r.capacity,
  )

  pub pop_all-IsValid :
      (blank : A) (n : ℕ) (r : RingBuffer A) → IsValid n r → IsValid n (pop_all blank r).1
  unfolding pop_all
  pop_all-IsValid blank n r v =
      ground
        (arith, mod-mod (r.tail + r.size) r.capacity, mod-lt (r.tail + r.size) {m = r.capacity})

  pub IsValid-weaken : (n : ℕ) (r : RingBuffer A) → IsValid (suc n) r → IsValid n r
  IsValid-weaken n r v = ground arith

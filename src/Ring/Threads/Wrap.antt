-- ===== src/Ring/Threads/Wrap.antt =====
-- A push that gives back its place in the size while `popAll` empties the buffer.
use native.Mathlib.Nat.{mod-eq_of_lt}
use app_simple_log.Prelude.{
  get_or, ℕ, zero, suc, ◌-◌, ◌^◌, ◌≤◌, ◌<◌, ◌%◌, ◌≡◌, ◌≢◌, true, [], ◌∷◌, ◌++◌, get_or, set,
  replicate, length-replicate, get_or-set_self, get_or-replicate, refl, ap, size_mod, add_size,
  update, arith,
}
use app_simple_log.Interleave.{start, later, picked}
use app_simple_log.Ring.{is_empty, create}
use app_simple_log.Ring.Threads.{
  Moves, Shared, Pc, idle, lowering, System, Reach, init, Move, push, room, raise, overshoot, lower,
  take_head, write, pop, exchange, load_tail, gather, finish, store_tail,
}

module _ {A : Type 0} (blank : A) (capacity : ℕ) where
  moves :
      (i : ℕ) {s : System A} {p q : Pc A} {m : Shared A}
      → s.pc i ≡ p
      → Move blank s.mem p m q
      → Reach blank capacity s
      → Reach blank capacity (record { mem = m; pc = update s.pc i q })
  moves i here mv r = later r (picked (Moves blank) i here mv)

  -- A reachable state, with its size, in which all threads rest.
  abbrev Rests : ℕ → Type 0
  Rests n =
      (s : System A) × Reach blank capacity s
      × (s.mem.ring.size ≡ n)
      × (s.mem.ring.capacity ≡ capacity)
      × ((i : ℕ) → s.pc i ≡ idle)

  -- A whole push by thread 0.
  one_more : (n : ℕ) → n < capacity → capacity ≤ 2 ^ 62 → Rests n → Rests (suc n)
  one_more n room_left few (s, r, size_is, cap_is, rest) =
      let asked = moves 0 refl (room (omega arith)) (moves 0 (rest 0) (push blank) r) in
      let raised = moves 0 refl (raise (omega arith)) asked in
      (
        _,
        moves 0 refl write (moves 0 refl take_head raised),
        omega arith,
        cap_is,
        λ j. ground (arith, rest j),
      )

  filled : (n : ℕ) → n < capacity → capacity ≤ 2 ^ 62 → Rests n
  unfolding create
  filled zero pos few = (init blank capacity, start, refl, refl, λ i. refl)
  filled (suc n) lt few = one_more n (omega arith) few (filled n (omega arith) few)

  -- For every capacity from 1 to 2^62 a state can be reached in which the size is 2^64 - 1 and no push
  -- is left that would still lower it. Two threads push into the last free slot, and a third
  -- empties the buffer before the second push has taken back its part of the size.
  pub size_underflows :
      0 < capacity
      → capacity ≤ 2 ^ 62
      → (s : System A) × Reach blank capacity s
        × (s.mem.ring.size ≡ size_mod - 1)
        × ((i : ℕ) → s.pc i ≢ lowering)
  size_underflows pos few =
      let (s, r, size_is, cap_is, rest) = filled (capacity - 1) (omega arith) few in
      let first = moves 1 refl (room (omega arith)) (moves 1 (rest 1) (push blank) r) in
      let both = moves 2 refl (room (omega arith)) (moves 2 (rest 2) (push blank) first) in
      let over = moves 2 refl (overshoot (omega arith)) (moves 1 refl (raise (omega arith)) both) in
      let emptied = moves 3 refl (exchange (omega arith)) (moves 3 (rest 3) pop over) in
      (_, moves 2 refl lower emptied, refl, λ j e. ground (arith, rest j, e))

  -- For every capacity from 1 to 2^62 and every entry a state can be reached in which all threads
  -- rest, one call of `tryPush` has taken the entry and written it to the first slot, one call of `popAll` has
  -- returned a default-constructed entry instead, and the buffer counts as empty.
  pub unwritten_slot_popped :
      0 < capacity
      → capacity ≤ 2 ^ 62
      → (e : A)
      → (s : System A) × Reach blank capacity s
        × ((i : ℕ) → s.pc i ≡ idle)
        × (s.mem.ring.head ≡ 1)
        × (get_or s.mem.ring.buffer 0 blank ≡ e)
        × (s.mem.delivered ≡ blank ∷ [])
        × (is_empty s.mem.ring ≡ true)
  unfolding create is_empty
  unwritten_slot_popped pos few e =
      let raised =
        moves 1 refl (raise pos) (moves 1 refl (room pos) (moves 1 refl (push e) start)) in
      let emptied = moves 3 refl (exchange (omega arith)) (moves 3 refl pop raised) in
      let gathered = moves 3 refl (gather (omega arith)) (moves 3 refl load_tail emptied) in
      let popped = moves 3 refl store_tail (moves 3 refl (finish (omega arith)) gathered) in
      let written = moves 1 refl write (moves 1 refl take_head popped) in
      (_, written, λ j. ground arith, refl, first, nothing, refl)
    where
      at_0 : 0 % capacity ≡ 0
      at_0 = mod-eq_of_lt pos

      first : get_or (set (replicate capacity blank) (0 % capacity) e) 0 blank ≡ e
      first = rw at_0 (
          get_or-set_self (replicate capacity blank) 0 e blank
            (omega (arith, length-replicate capacity blank)))

      nothing :
          [] ++ [] ++ get_or (replicate capacity blank) (add_size 0 0 % capacity) blank ∷ []
          ≡ blank ∷ []
      nothing = ap (λ x. x ∷ []) (get_or-replicate capacity (add_size 0 0 % capacity) blank)

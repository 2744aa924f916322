-- ===== src/Queue/Threads/Consumers.antt =====
-- A second consumer of the asynchronous queue: src/src/async_queue.cpp. The logger has one where
-- `flush` of src/src/async_logger.cpp runs beside the writer thread.
use app_simple_log.Prelude.{
  ℕ, ◌^◌, ◌≤◌, ◌<◌, ◌≡◌, ◌≢◌, refl, Bool, true, [], ◌∷◌, add_size, update, ◌%◌, ap, ◌∙◌, set,
  length, length-set, List, some, none, arith,
}
use app_simple_log.Interleave.{start, later, picked}
use app_simple_log.Queue.{create, Cell}
use app_simple_log.Queue.Inv.{slot, slot-set_self, create-IsValid}
use app_simple_log.Queue.Threads.{
  Shared, Pc, idle, draining, System, Reach, Moves, Move, moved, cell_at, push, load_tail, accept,
  reserve, enter, emplace, publish, count, pop, load_head, begin, ready, take_entry, free_slot,
  finish, advance, uncount,
}

module _ {A : Type 0} (pops : ℕ → Bool) (blank : A) (capacity : ℕ) where
  moves :
      (i : ℕ) {s : System A} {p q : Pc A} {m : Shared A}
      → s.pc i ≡ p
      → Move (pops i) s.mem p m q
      → Reach pops blank capacity s
      → Reach pops blank capacity (record { mem = m; pc = update s.pc i q })
  moves i here mv r = later r (picked (Moves pops) i here mv)

  -- With a second consumer a `popAll` can be left behind before a slot that nobody will publish: for
  -- every capacity from 2 to 2^62, every entry, and threads 0 and 2 that may both call `popAll`, a
  -- state can be reached in which the entry was pushed and returned, the head has come to the tail, all
  -- threads but thread 2 are idle, and thread 2 is in the loop of `popAll` with none of one entry
  -- taken, where the number of its slot is not the one that it waits for.
  pub second_consumer_waits :
      1 < capacity
      → capacity ≤ 2 ^ 62
      → pops 0 ≡ true
      → pops 2 ≡ true
      → (e : A)
      → (s : System A) × Reach pops blank capacity s
        × (s.mem.delivered ≡ e ∷ [])
        × (s.mem.queue.head ≡ s.mem.queue.tail)
        × (s.pc 2 ≡ draining 0 1 0 [])
        × ((cell_at s.mem (add_size 0 0)).seq ≢ add_size (add_size 0 0) 1)
        × ((i : ℕ) → i ≢ 2 → s.pc i ≡ idle)
  unfolding create
  second_consumer_waits many few first second e =
      let made = create-IsValid {A = A} capacity 0 (omega arith) few (omega arith) in
      let b₀ : List (Cell A) = (create {A = A} capacity).buffer in
      let p : ℕ = 0 % capacity in
      let b₁ : List (Cell A) =
        set b₀ p (record { seq = (slot capacity b₀ 0).seq; storage = some e }) in
      let b₂ : List (Cell A) =
        set b₁ p (record { seq = 1; storage = (slot capacity b₁ 0).storage }) in
      let b₃ : List (Cell A) =
        set b₂ p (record { seq = (slot capacity b₂ 0).seq; storage = none }) in
      let len₁ = written b₀ p _ made.cells.slots in
      let len₂ = written b₁ p _ len₁ in
      let len₃ = written b₂ p _ len₂ in
      let at₀ : (slot capacity b₀ 0).seq ≡ 0 =
        ap (λ (c : Cell A). c.seq) (made.cells.free 0 (omega arith) (omega arith)) in
      let at₁ =
        slot-set_self capacity b₀ 0 (record { seq = (slot capacity b₀ 0).seq; storage = some e })
          made.cells.slots (omega arith) in
      let at₂ =
        slot-set_self capacity b₁ 0 (record { seq = 1; storage = (slot capacity b₁ 0).storage })
          len₁ (omega arith) in
      let at₄ =
        slot-set_self capacity b₃ 0
          (record { seq = add_size 0 capacity; storage = (slot capacity b₃ 0).storage }) len₃
          (omega arith) in
      let held : (slot capacity b₂ 0).storage ≡ some e =
        ap (λ (c : Cell A). c.storage) at₂ ∙ ap (λ (c : Cell A). c.storage) at₁ in
      let asked = moves 1 refl load_tail (moves 1 refl (push e) start) in
      let ticket = moves 1 refl (reserve refl) (moves 1 refl (accept (ground arith)) asked) in
      let filled = moves 1 refl emplace (moves 1 refl (enter at₀) ticket) in
      let pushed = moves 1 refl count (moves 1 refl publish filled) in
      let writer =
        moves 0 refl (begin (λ z. absurd (omega (arith, z))))
          (moves 0 refl load_head (moves 0 refl (pop first) pushed)) in
      let both =
        moves 2 refl (begin (λ z. absurd (omega (arith, z))))
          (moves 2 refl load_head (moves 2 refl (pop second) writer)) in
      let taken =
        moves 0 refl take_entry
          (moves 0 refl (ready (omega arith) (ap (λ (c : Cell A). c.seq) at₂)) both) in
      let freed = moves 0 refl (finish (omega arith)) (moves 0 refl free_slot taken) in
      (
        _,
        moves 0 refl uncount (moves 0 refl advance freed),
        ap moved held,
        refl,
        refl,
        λ z. absurd (omega (arith, ap (λ (c : Cell A). c.seq) at₄, z)),
        λ i other. ground (arith, other),
      )
    where
      written :
          (b : List (Cell A)) (k : ℕ) (c : Cell A)
          → length b ≡ capacity
          → length (set b k c) ≡ capacity
      written b k c len = length-set b k c ∙ len

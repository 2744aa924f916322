-- ===== src/Queue/Threads/WholePop.antt =====
-- A `popAll` that no other thread interrupts.
use mathlib.Core.Path.{subst, ap₂}
use app_simple_log.Prelude.{
  ℕ, zero, suc, ◌+◌, ◌<◌, ◌≡◌, refl, sym, ap, ◌∙◌, Bool, true, Bool-cases, inl, inr, List, [], ◌∷◌,
  ◌++◌, append-nil, Option, Option-cases, none, some, length, length-set, add_size, sub_size, ◌==◌,
  arith,
}
use app_simple_log.Interleave.{Solo, done, next, Solo-append}
use app_simple_log.Queue.{AsyncQueue, take_slot, take_slots, pop_all}
use app_simple_log.Queue.Threads.{
  Shared, idle, popping, draining, advancing, cell_at, with_cell, moved, available, load_head,
  leave, begin, ready, take_entry, free_slot, finish, advance, uncount,
}
use app_simple_log.Queue.Threads.Whole.{two_writes, Step}

module _ {A : Type 0} where
  moved_eq :
      (o : Option A) {es : List A} → elim o [ none ↦ [] | some e ↦ e ∷ [] ] ≡ es → moved o ≡ es
  moved_eq none p = p
  moved_eq (some e) p = p

  -- The memory behind a round of `popAll`.
  abbrev took : Shared A → ℕ → Shared A
  took m k = record m {
    queue = with_cell m k (record { seq = (cell_at m k).seq; storage = none });
    taken = m.taken + 1;
  }

  abbrev round_end : Shared A → ℕ → Shared A
  round_end m k = record (took m k) {
    queue =
        with_cell (took m k) k
          (record { seq = add_size k m.queue.capacity; storage = (cell_at (took m k) k).storage });
    freed = m.freed + 1;
  }

  -- One round of the loop of `popAll`.
  round-Solo :
      {pops : Bool} (m : Shared A) (h n j : ℕ) (result es : List A) (q' : AsyncQueue A)
      → 0 < m.queue.capacity
      → length m.queue.buffer ≡ m.queue.capacity
      → j < n
      → take_slot m.queue (add_size h j) ≡ some (es, q')
      → (m' : Shared A) × Solo
          (Step pops)
          m
          (draining h n j result)
          m'
          (draining h n (suc j) (result ++ es))
        × (m'.queue ≡ q')
        × (m'.issued ≡ m.issued)
        × (m'.delivered ≡ m.delivered)
        × (m'.queue.capacity ≡ m.queue.capacity)
        × (length m'.queue.buffer ≡ length m.queue.buffer)
  unfolding take_slot
  round-Solo {pops = pops} m h n j result es q' pos len lt ran =
      elim (Bool-cases ((cell_at m (add_size h j)).seq == add_size (add_size h j) 1)) [
        | inl here ↦ (
          round_end m (add_size h j),
          subst
              (λ l.
                Solo (Step pops) m (draining h n j result) (round_end m (add_size h j))
                  (draining h n (suc j) (result ++ l)))
              (moved_eq (cell_at m (add_size h j)).storage (ground (arith, ran, here)))
              (next (refl, refl, ready lt (ground (arith, here)))
                (next (refl, refl, take_entry) (next (refl, refl, free_slot) done))),
          ground (
            arith,
            ran,
            here,
            two_writes m.queue.capacity m.queue.buffer (add_size h j) (cell_at m (add_size h j)).seq
                (add_size (add_size h j) m.queue.capacity) none pos len,
          ),
          refl,
          refl,
          refl,
          length-set (took m (add_size h j)).queue.buffer _ _ ∙ length-set m.queue.buffer _ _,
        )
        | inr early ↦ ground (arith, ran, early)
      ]

  -- The loop of `popAll`, from round `j` on.
  loop-Solo :
      {pops : Bool} (k : ℕ) (m : Shared A) (h n j : ℕ) (result all : List A) (q' : AsyncQueue A)
      → 0 < m.queue.capacity
      → length m.queue.buffer ≡ m.queue.capacity
      → j + k ≡ n
      → take_slots h j k result m.queue ≡ some (all, q')
      → (m' : Shared A) × Solo (Step pops) m (draining h n j result) m' (advancing h n all)
        × (m'.queue ≡ q')
        × (m'.issued ≡ m.issued)
        × (m'.delivered ≡ m.delivered)
  unfolding take_slots
  loop-Solo {pops = pops} zero m h n j result all q' pos len at ran = (
    m,
    subst (λ l. Solo (Step pops) m (draining h n j result) m (advancing h n l)) (cc)
        (next (refl, refl, finish (omega arith)) done),
    cc,
    refl,
    refl,
  )
  loop-Solo {pops = pops} (suc k) m h n j result all q' pos len at ran =
      elim (Option-cases (take_slot m.queue (add_size h j))) [
        | inl waits ↦ ground (arith, ran, waits)
        | inr ((es, q₁), gives) ↦
            let (m₁, first, queue_is, issued_is, delivered_is, cap_is, len_is) =
              round-Solo {pops = pops} m h n j result es q₁ pos len (omega arith) gives in
            let (m₂, rest, queue_is₂, issued_is₂, delivered_is₂) =
              loop-Solo {pops = pops} k m₁ h n (suc j) (result ++ es) all q' (omega arith)
                (len_is ∙ len ∙ sym cap_is) (omega arith)
                (ap₂ (λ t q. take_slots h t k (result ++ es) q) {y = j + 1} (omega arith) queue_is
                  ∙ ground (arith, ran, gives)) in
            (
              m₂,
              Solo-append first rest,
              queue_is₂,
              issued_is₂ ∙ issued_is,
              delivered_is₂ ∙ delivered_is,
            )
      ]

  -- A `popAll` that nobody interrupts does what the sequential operation says wherever that
  -- returns: it ends with the same queue, and has returned the same entries.
  pub pop_all-Solo :
      (m : Shared A) (result : List A) (q' : AsyncQueue A)
      → 0 < m.queue.capacity
      → length m.queue.buffer ≡ m.queue.capacity
      → pop_all m.queue ≡ some (result, q')
      → (m' : Shared A) × Solo (Step true) m popping m' idle
        × (m'.queue ≡ q')
        × (m'.issued ≡ m.issued)
        × (m'.delivered ≡ m.delivered ++ result)
  unfolding pop_all
  pop_all-Solo m result q' pos len ran =
      elim (Bool-cases (available m.queue.head m.queue.tail == 0)) [
        | inl nothing ↦ (
          m,
          next (refl, refl, load_head) (next (refl, refl, leave (ground (arith, nothing))) done),
          ground (arith, ran, nothing),
          refl,
          sym (append-nil m.delivered)
              ∙ ap (λ l. m.delivered ++ l) {y = result} (ground (arith, ran, nothing)),
        )
        | inr some_held ↦
            elim (Option-cases
              (take_slots m.queue.head 0 (available m.queue.head m.queue.tail) [] m.queue)) [
                | inl waits ↦ ground (arith, ran, some_held, waits)
                | inr ((all, q₁), gives) ↦
                    let (m₁, rounds, queue_is, issued_is, delivered_is) =
                      loop-Solo {pops = true} (available m.queue.head m.queue.tail) m m.queue.head
                        (available m.queue.head m.queue.tail) 0 [] all q₁ pos len (omega arith)
                        gives in
                    (
                      _,
                      next (refl, refl, load_head)
                          (next (refl, refl, begin (ground (arith, some_held)))
                            (Solo-append rounds
                              (next (refl, refl, advance) (next (refl, refl, uncount) done)))),
                      ap
                            (λ (q : AsyncQueue A). record q {
                              head = add_size m.queue.head (available m.queue.head m.queue.tail);
                              size = sub_size q.size (available m.queue.head m.queue.tail);
                            })
                            queue_is
                          ∙ ground (arith, ran, some_held, gives),
                      issued_is,
                      ap₂ ◌++◌ {v = result} delivered_is (ground (arith, ran, some_held, gives)),
                    )
              ]
      ]

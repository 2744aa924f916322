-- ===== src/Queue/Threads/Inv.antt =====
-- The invariant of the shared queue with one consumer, and what holds at the start.
use app_simple_log.Prelude.{
  ℕ, suc, ◌+◌, ◌^◌, ◌≤◌, ◌<◌, ◌≡◌, ◌⊎◌, refl, Bool, true, false, List, Option, none, some, length,
  size_mod, window, arith,
}
use app_simple_log.Queue.{create}
use app_simple_log.Queue.Inv.{create-IsValid}
use app_simple_log.Queue.Threads.{
  Shared, Pc, saw_tail, reserving, waiting, filling, publishing, popping, saw_head, draining,
  taking, freeing, advancing, uncounting, cell_at, init,
}

module _ {A : Type 0} where
  -- The ticket that a producer holds and has not published.
  abbrev pub ticket : Pc A → Option ℕ
  ticket (waiting e t) = some t
  ticket (filling e t) = some t
  ticket (publishing t) = some t
  ticket p = none

  -- Inside `popAll`.
  abbrev pub consuming : Pc A → Bool
  consuming popping = true
  consuming (saw_head h) = true
  consuming (draining h n i result) = true
  consuming (taking h n i result) = true
  consuming (freeing h n i result) = true
  consuming (advancing h n result) = true
  consuming (uncounting n) = true
  consuming p = false

  -- What the locals of a producer say about the queue. A free slot waits for the holder of its ticket.
  abbrev pub Produces : Shared A → Pc A → Type 0
  Produces m (saw_tail e t) = t ≤ m.issued
  Produces m (reserving e t) = t < m.queue.head + m.queue.capacity
  Produces m (waiting e t) =
      (m.taken ≤ t)
      × (t < m.issued)
      × (cell_at m t ≡ record { seq = t; storage = none })
      × (m.ledger t ≡ e)
  Produces m (filling e t) =
      (m.taken ≤ t)
      × (t < m.issued)
      × (cell_at m t ≡ record { seq = t; storage = none })
      × (m.ledger t ≡ e)
  Produces m (publishing t) =
      (m.taken ≤ t)
      × (t < m.issued)
      × (cell_at m t ≡ record { seq = t; storage = some (m.ledger t) })
  Produces m p = Unit

  -- A round of `popAll` that has gathered the entries of `i` tickets from `head` on.
  abbrev Gathers : Shared A → ℕ → ℕ → ℕ → List A → Type 0
  Gathers m h n i result =
      (h ≡ m.queue.head) × (i ≤ n) × (h + n ≤ m.issued) × (result ≡ window m.ledger h i)

  -- What the locals of the consumer say about the queue.
  abbrev pub Consumes : Shared A → Pc A → Type 0
  Consumes m (saw_head h) = (m.taken ≡ m.queue.head) × (m.freed ≡ m.queue.head) × (h ≡ m.queue.head)
  Consumes m (draining h n i result) =
      (m.taken ≡ h + i) × (m.freed ≡ h + i) × Gathers m h n i result
  Consumes m (taking h n i result) =
      (m.taken ≡ h + i)
      × (m.freed ≡ h + i)
      × Gathers m h n i result
      × (i < n)
      × (cell_at m (h + i) ≡ record { seq = h + i + 1; storage = some (m.ledger (h + i)) })
  Consumes m (freeing h n i result) =
      (m.taken ≡ h + i + 1)
      × (m.freed ≡ h + i)
      × Gathers m h n (suc i) result
      × (i < n)
      × (cell_at m (h + i) ≡ record { seq = h + i + 1; storage = none })
  Consumes m (advancing h n result) = (m.taken ≡ h + n) × (m.freed ≡ h + n) × Gathers m h n n result
  Consumes m p = (m.taken ≡ m.queue.head) × (m.freed ≡ m.queue.head)

  -- The slots: of the tickets that are handed out and not taken, each is published or held by a
  -- producer; the slots of the next tickets, up to a capacity behind the last slot given back, are
  -- free and wait for exactly those.
  pub record Inv (m : Shared A) (pc : ℕ → Pc A) : Type 0 where
    pub nonempty : 0 < m.queue.capacity
    pub small : m.queue.capacity ≤ 2 ^ 62
    pub slots : length m.queue.buffer ≡ m.queue.capacity
    pub fits : m.issued + m.queue.capacity < size_mod
    pub tail_is : m.queue.tail ≡ m.issued
    pub order :
        (m.queue.head ≤ m.freed)
        × (m.freed ≤ m.taken)
        × (m.taken ≤ m.freed + 1)
        × (m.taken ≤ m.issued)
    pub bounded : m.issued ≤ m.queue.head + m.queue.capacity
    pub held :
        (k : ℕ)
        → m.taken ≤ k
        → k < m.issued
        → (cell_at m k ≡ record { seq = k + 1; storage = some (m.ledger k) })
          ⊎ ((j : ℕ) × (ticket (pc j) ≡ some k))
    pub free :
        (k : ℕ)
        → m.issued ≤ k
        → k < m.freed + m.queue.capacity
        → cell_at m k ≡ record { seq = k; storage = none }
    pub unique : (i j t : ℕ) → ticket (pc i) ≡ some t → ticket (pc j) ≡ some t → i ≡ j
    pub produces : (i : ℕ) → Produces m (pc i)
    pub consumes : Consumes m (pc 0)
    pub single : (i : ℕ) → consuming (pc i) ≡ true → i ≡ 0
    pub in_order : m.delivered ≡ window m.ledger 0 m.queue.head

  pub init-Inv :
      (blank : A) (capacity : ℕ)
      → 0 < capacity
      → capacity ≤ 2 ^ 62
      → Inv (init blank capacity).mem (init blank capacity).pc
  unfolding create
  init-Inv blank capacity pos few =
      let v = create-IsValid {A = A} capacity 0 pos few (omega arith) in
      record {
        nonempty = pos;
        small = few;
        slots = v.cells.slots;
        fits = omega arith;
        tail_is = refl;
        order = omega arith;
        bounded = omega arith;
        held = λ k le lt. absurd (omega arith);
        free = λ k le lt. v.cells.free k le lt;
        unique = λ i j t p q. cc;
        produces = λ i. tt;
        consumes = (refl, refl);
        single = λ i e. cc;
        in_order = refl;
      }

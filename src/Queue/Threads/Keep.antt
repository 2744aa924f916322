-- ===== src/Queue/Threads/Keep.antt =====
-- How the facts about the threads survive a change of the shared queue.
use app_simple_log.Prelude.{
  ℕ, suc, ◌+◌, ◌≤◌, ◌<◌, ◌≡◌, refl, sym, ap, ◌∙◌, Option, none, some, window, window-congr, arith,
}
use app_simple_log.Queue.Threads.{
  Shared, Pc, idle, pushing, saw_tail, reserving, waiting, filling, publishing, counting, popping,
  saw_head, draining, taking, freeing, advancing, uncounting, cell_at,
}
use app_simple_log.Queue.Threads.Inv.{ticket, Produces, Consumes}

module _ {A : Type 0} where
  -- What a change of the queue owes to the holder of a ticket.
  abbrev pub Spares : Shared A → Shared A → ℕ → Type 0
  Spares m m' t = (m'.taken ≤ t) × (cell_at m' t ≡ cell_at m t) × (m'.ledger t ≡ m.ledger t)

  pub Produces-keep :
      (m m' : Shared A) (p : Pc A)
      → m.issued ≤ m'.issued
      → m.queue.head + m.queue.capacity ≤ m'.queue.head + m'.queue.capacity
      → ((t : ℕ) → ticket p ≡ some t → m.taken ≤ t → t < m.issued → Spares m m' t)
      → Produces m p
      → Produces m' p
  Produces-keep m m' idle grown up spares f = tt
  Produces-keep m m' (pushing e) grown up spares f = tt
  Produces-keep m m' (saw_tail e t) grown up spares f = omega arith
  Produces-keep m m' (reserving e t) grown up spares f = omega arith
  Produces-keep m m' (waiting e t) grown up spares f =
      let (later, cell, entry) = spares t refl f.0 f.1 in
      (later, omega arith, cell ∙ f.2, entry ∙ f.3)
  Produces-keep m m' (filling e t) grown up spares f =
      let (later, cell, entry) = spares t refl f.0 f.1 in
      (later, omega arith, cell ∙ f.2, entry ∙ f.3)
  Produces-keep m m' (publishing t) grown up spares f =
      let (later, cell, entry) = spares t refl f.0 f.1 in
      (later, omega arith, cell ∙ f.2 ∙ ap (λ e. record { seq = t; storage = some e }) (sym entry))
  Produces-keep m m' counting grown up spares f = tt
  Produces-keep m m' popping grown up spares f = tt
  Produces-keep m m' (saw_head h) grown up spares f = tt
  Produces-keep m m' (draining h n i result) grown up spares f = tt
  Produces-keep m m' (taking h n i result) grown up spares f = tt
  Produces-keep m m' (freeing h n i result) grown up spares f = tt
  Produces-keep m m' (advancing h n result) grown up spares f = tt
  Produces-keep m m' (uncounting n) grown up spares f = tt

  -- A change made by a producer: what the consumer has seen stays.
  pub record Apart (m m' : Shared A) : Type 0 where
    pub head_same : m'.queue.head ≡ m.queue.head
    pub taken_same : m'.taken ≡ m.taken
    pub freed_same : m'.freed ≡ m.freed
    pub grown : m.issued ≤ m'.issued
    pub same_entries : (k : ℕ) → k < m.issued → m'.ledger k ≡ m.ledger k

  same_window :
      (m m' : Shared A) (h n : ℕ)
      → ((k : ℕ) → k < m.issued → m'.ledger k ≡ m.ledger k)
      → h + n ≤ m.issued
      → window m'.ledger h n ≡ window m.ledger h n
  same_window m m' h n same le =
      window-congr m'.ledger m.ledger h n (λ i lt. same (h + i) (omega arith))

  -- The slot that the consumer works on, if it is published or just emptied.
  abbrev pub Untouched : Shared A → Shared A → Type 0
  Untouched m m' = (cell_at m m.freed).seq ≡ m.freed + 1 → cell_at m' m.freed ≡ cell_at m m.freed

  seen_cell :
      (m m' : Shared A) (k : ℕ) (o : Option A)
      → Untouched m m'
      → m.freed ≡ k
      → cell_at m k ≡ record { seq = k + 1; storage = o }
      → cell_at m' k ≡ record { seq = k + 1; storage = o }
  seen_cell m m' k o untouched at_k cell =
      let seen : (cell_at m m.freed).seq ≡ m.freed + 1 =
        ap (λ j. (cell_at m j).seq) at_k ∙ ap (λ c. c.seq) cell ∙ ap (λ j. j + 1) (sym at_k) in
      ap (cell_at m') (sym at_k) ∙ untouched seen ∙ ap (cell_at m) at_k ∙ cell

  pub Consumes-keep :
      (m m' : Shared A) (p : Pc A) → Apart m m' → Untouched m m' → Consumes m p → Consumes m' p
  Consumes-keep m m' idle a u f = omega arith
  Consumes-keep m m' (pushing e) a u f = omega arith
  Consumes-keep m m' (saw_tail e t) a u f = omega arith
  Consumes-keep m m' (reserving e t) a u f = omega arith
  Consumes-keep m m' (waiting e t) a u f = omega arith
  Consumes-keep m m' (filling e t) a u f = omega arith
  Consumes-keep m m' (publishing t) a u f = omega arith
  Consumes-keep m m' counting a u f = omega arith
  Consumes-keep m m' popping a u f = omega arith
  Consumes-keep m m' (saw_head h) a u f = omega arith
  Consumes-keep m m' (draining h n i result) a u f =
      let (t, r, (at_head, within, inside, gathered)) = f in
      (
        omega arith,
        omega arith,
        (
          omega arith,
          within,
          omega arith,
          gathered ∙ sym (same_window m m' h i a.same_entries (omega arith)),
        ),
      )
  Consumes-keep m m' (taking h n i result) a u f =
      let (t, r, (at_head, within, inside, gathered), more, cell) = f in
      (
        omega arith,
        omega arith,
        (
          omega arith,
          within,
          omega arith,
          gathered ∙ sym (same_window m m' h i a.same_entries (omega arith)),
        ),
        more,
        seen_cell m m' (h + i) (some (m.ledger (h + i))) u r cell
            ∙ ap (λ e. record { seq = h + i + 1; storage = some e })
                (sym (a.same_entries (h + i) (omega arith))),
      )
  Consumes-keep m m' (freeing h n i result) a u f =
      let (t, r, (at_head, within, inside, gathered), more, cell) = f in
      (
        omega arith,
        omega arith,
        (
          omega arith,
          within,
          omega arith,
          gathered ∙ sym (same_window m m' h (suc i) a.same_entries (omega arith)),
        ),
        more,
        seen_cell m m' (h + i) none u r cell,
      )
  Consumes-keep m m' (advancing h n result) a u f =
      let (t, r, (at_head, within, inside, gathered)) = f in
      (
        omega arith,
        omega arith,
        (
          omega arith,
          within,
          omega arith,
          gathered ∙ sym (same_window m m' h n a.same_entries (omega arith)),
        ),
      )
  Consumes-keep m m' (uncounting n) a u f = omega arith

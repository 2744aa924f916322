-- ===== src/Queue/Threads/Places.antt =====
-- The place of one thread changes: what stays with the others, and the moves that change nothing
-- else or only the size.
use mathlib.Core.Path.{subst}
use native.Mathlib.Decide.{ℕ_discrete, dec_lt}
use app_simple_log.Prelude.{
  ℕ, ◌+◌, ◌≤◌, ◌<◌, ◌≡◌, ◌≢◌, inl, inr, refl, sym, ap, ◌∙◌, true, some, length, update, arith,
}
use app_simple_log.Queue.{Cell}
use app_simple_log.Queue.Inv.{slot, slot-set_self, slot-set_above, slot-set_below}
use app_simple_log.Queue.Threads.{
  Shared, Pc, idle, pushing, saw_tail, reserving, waiting, filling, publishing, counting, popping,
  saw_head, draining, taking, freeing, advancing, uncounting, cell_at, with_cell,
}
use app_simple_log.Queue.Threads.Inv.{ticket, consuming, Produces, Consumes, Inv}
use app_simple_log.Queue.Threads.Keep.{Produces-keep, Consumes-keep}

module _ {A : Type 0} where
  -- A thread that moves and keeps its ticket leaves all tickets where they are.
  pub ticket-update :
      (pc : ℕ → Pc A) (i : ℕ) (p' : Pc A) (j : ℕ)
      → ticket p' ≡ ticket (pc i)
      → ticket (update pc i p' j) ≡ ticket (pc j)
  ticket-update pc i p' j same = elim (ℕ_discrete i j) [
    | yes here ↦ ground (arith, ap (λ k. ticket (pc k)) here)
    | no other ↦ ground arith
  ]

  -- The threads after a move of thread `i`: one by one, and the consumer among them.
  pub at-update :
      (P : Pc A → Type 0) (pc : ℕ → Pc A) (i : ℕ) (p' : Pc A) (j : ℕ)
      → (i ≡ j → P p')
      → (i ≢ j → P (pc j))
      → P (update pc i p' j)
  at-update P pc i p' j here there = elim (ℕ_discrete i j) [
    | yes e ↦ subst P (ground arith) (here e)
    | no ne ↦ subst P (ground arith) (there ne)
  ]

  pub single-update :
      (pc : ℕ → Pc A) (i : ℕ) (p' : Pc A)
      → ((j : ℕ) → consuming (pc j) ≡ true → j ≡ 0)
      → (consuming p' ≡ true → i ≡ 0)
      → (j : ℕ) → consuming (update pc i p' j) ≡ true
      → j ≡ 0
  single-update pc i p' others mine j =
      at-update (λ p. consuming p ≡ true → j ≡ 0) pc i p' j (λ here e. sym here ∙ mine e)
        (λ ne e. others j e)

  -- What every holder of a ticket knows of it.
  pub ticket-range :
      (m : Shared A) (p : Pc A) (t : ℕ)
      → Produces m p
      → ticket p ≡ some t
      → (m.taken ≤ t) × (t < m.issued) × ((cell_at m t).seq ≡ t)
  ticket-range m idle t f e = cc
  ticket-range m (pushing x) t f e = cc
  ticket-range m (saw_tail x u) t f e = cc
  ticket-range m (reserving x u) t f e = cc
  ticket-range m (waiting x u) t f e =
      let same : u ≡ t = cc in
      subst (λ k. (m.taken ≤ k) × (k < m.issued) × ((cell_at m k).seq ≡ k)) same
        (f.0, f.1, ap (λ c. c.seq) f.2)
  ticket-range m (filling x u) t f e =
      let same : u ≡ t = cc in
      subst (λ k. (m.taken ≤ k) × (k < m.issued) × ((cell_at m k).seq ≡ k)) same
        (f.0, f.1, ap (λ c. c.seq) f.2)
  ticket-range m (publishing u) t f e =
      let same : u ≡ t = cc in
      subst (λ k. (m.taken ≤ k) × (k < m.issued) × ((cell_at m k).seq ≡ k)) same
        (f.0, f.1, ap (λ c. c.seq) f.2)
  ticket-range m counting t f e = cc
  ticket-range m popping t f e = cc
  ticket-range m (saw_head h) t f e = cc
  ticket-range m (draining h n i result) t f e = cc
  ticket-range m (taking h n i result) t f e = cc
  ticket-range m (freeing h n i result) t f e = cc
  ticket-range m (advancing h n result) t f e = cc
  ticket-range m (uncounting n) t f e = cc

  pub ticket_here : (pc : ℕ → Pc A) (i : ℕ) (p' : Pc A) → ticket (update pc i p' i) ≡ ticket p'
  ticket_here pc i p' = ground arith

  pub ticket_there :
      (pc : ℕ → Pc A) (i : ℕ) (p' : Pc A) (j : ℕ)
      → i ≢ j
      → ticket (update pc i p' j) ≡ ticket (pc j)
  ticket_there pc i p' j ne = ground arith

  -- Tickets stay apart if no other thread holds the one that thread `i` has after its move.
  pub unique-update :
      (pc : ℕ → Pc A) (i : ℕ) (p' : Pc A)
      → ((a b t : ℕ) → ticket (pc a) ≡ some t → ticket (pc b) ≡ some t → a ≡ b)
      → ((j t : ℕ) → i ≢ j → ticket p' ≡ some t → ticket (pc j) ≢ some t)
      → (a b t : ℕ) → ticket (update pc i p' a) ≡ some t
      → ticket (update pc i p' b) ≡ some t
      → a ≡ b
  unique-update pc i p' old new a b t pa pb = elim (ℕ_discrete i a) [
    | yes ia ↦ elim (ℕ_discrete i b) [
      | yes ib ↦ sym ia ∙ ib
      | no nb ↦ absurd (
          new b t nb (sym (ticket_here pc i p') ∙ ap (λ k. ticket (update pc i p' k)) ia ∙ pa)
            (sym (ticket_there pc i p' b nb) ∙ pb))
    ]
    | no na ↦ elim (ℕ_discrete i b) [
      | yes ib ↦ absurd (
          new a t na (sym (ticket_here pc i p') ∙ ap (λ k. ticket (update pc i p' k)) ib ∙ pb)
            (sym (ticket_there pc i p' a na) ∙ pa))
      | no nb ↦
          old a b t (sym (ticket_there pc i p' a na) ∙ pa) (sym (ticket_there pc i p' b nb) ∙ pb)
    ]
  ]

  -- The moves that change nothing but the place of a thread.
  pub local-Inv :
      {m : Shared A} {pc : ℕ → Pc A} (inv : Inv m pc) (i : ℕ) (p' : Pc A)
      → ticket p' ≡ ticket (pc i)
      → (consuming p' ≡ true → i ≡ 0)
      → Produces m p'
      → (i ≡ 0 → Consumes m p')
      → Inv m (update pc i p')
  local-Inv {m} {pc} inv i p' same single produces consumes = record {
    nonempty = inv.nonempty;
    small = inv.small;
    slots = inv.slots;
    fits = inv.fits;
    tail_is = inv.tail_is;
    order = inv.order;
    bounded = inv.bounded;
    held = λ k le lt. elim (inv.held k le lt) [
      | inl cell ↦ inl cell
      | inr (j, has) ↦ inr (j, ticket-update pc i p' j same ∙ has)
    ];
    free = inv.free;
    unique = λ a b t pa pb.
        inv.unique a b t (sym (ticket-update pc i p' a same) ∙ pa)
          (sym (ticket-update pc i p' b same) ∙ pb);
    produces = λ j. at-update (Produces m) pc i p' j (λ e. produces) (λ ne. inv.produces j);
    consumes = at-update (Consumes m) pc i p' 0 consumes (λ ne. inv.consumes);
    single = single-update pc i p' inv.single single;
    in_order = inv.in_order;
  }

  -- A write of one slot, among the slots of the tickets up to a capacity from `from` on.
  pub cell-written :
      (m : Shared A) (t : ℕ) (c : Cell A)
      → length m.queue.buffer ≡ m.queue.capacity
      → 0 < m.queue.capacity
      → slot m.queue.capacity (with_cell m t c).buffer t ≡ c
  cell-written m t c len pos = slot-set_self m.queue.capacity m.queue.buffer t c len pos

  pub cell-unwritten :
      (m : Shared A) (from t k : ℕ) (c : Cell A)
      → from ≤ t
      → t < from + m.queue.capacity
      → from ≤ k
      → k < from + m.queue.capacity
      → k ≢ t
      → slot m.queue.capacity (with_cell m t c).buffer k ≡ cell_at m k
  cell-unwritten m from t k c le lt le' lt' ne = elim (dec_lt k t) [
    | yes below ↦ slot-set_below m.queue.capacity m.queue.buffer t k c below (omega arith)
    | no above ↦
        slot-set_above m.queue.capacity m.queue.buffer t k c (omega (arith, ne)) (omega arith)
  ]

  -- The size counter is read by no move.
  pub size-Inv :
      {m : Shared A} {pc : ℕ → Pc A} (inv : Inv m pc) (size : ℕ)
      → Inv (record m { queue = record (m.queue) { size = size } }) pc
  size-Inv {m} {pc} inv size =
      let m' : Shared A = record m { queue = record (m.queue) { size = size } } in
      record {
        nonempty = inv.nonempty;
        small = inv.small;
        slots = inv.slots;
        fits = inv.fits;
        tail_is = inv.tail_is;
        order = inv.order;
        bounded = inv.bounded;
        held = inv.held;
        free = inv.free;
        unique = inv.unique;
        produces = λ i.
            Produces-keep m m' (pc i) (omega arith) (omega arith) (λ t has le lt. (le, refl, refl))
              (inv.produces i);
        consumes =
            Consumes-keep m m' (pc 0)
              (record {
                head_same = refl;
                taken_same = refl;
                freed_same = refl;
                grown = omega arith;
                same_entries = λ k lt. refl;
              })
              (λ seen. refl) inv.consumes;
        single = inv.single;
        in_order = inv.in_order;
      }

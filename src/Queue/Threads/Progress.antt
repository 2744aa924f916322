-- ===== src/Queue/Threads/Progress.antt =====
-- The wait of `popAll` for the slot of a ticket: the producer that holds the ticket publishes it
-- within three steps of its own.
use mathlib.Core.Path.{subst}
use app_simple_log.Prelude.{
  length-set, ℕ, suc, ◌+◌, ◌≤◌, ◌<◌, ◌≡◌, ◌≢◌, inl, inr, refl, sym, ap, ◌∙◌, Bool, List, some,
  length, size_mod, add_size, add_size-eq, update, arith,
}
use app_simple_log.Interleave.{Alone, stop, go}
use app_simple_log.Queue.{Cell}
use app_simple_log.Queue.Inv.{slot-set_self}
use app_simple_log.Queue.Threads.{
  Shared, Pc, waiting, filling, publishing, draining, cell_at, Move, enter, emplace, publish,
  System, Moves, Reach,
}
use app_simple_log.Queue.Threads.Inv.{Produces, Consumes, ticket}
use app_simple_log.Queue.Threads.Safety.{none≢some, IsAllowed, Reach-Inv}

module _ {A : Type 0} (pops : ℕ → Bool) (i t : ℕ) where
  -- At most `n` steps of the thread publish the ticket, and hand out none.
  abbrev Publishes : ℕ → System A → Type 0
  Publishes n s =
      (k : ℕ) × (k ≤ n)
      × (s' : System A) × Alone (Moves pops) i k s s'
      × ((cell_at s'.mem t).seq ≡ add_size t 1)
      × (s'.mem.issued ≡ s.mem.issued)
      × (s'.mem.queue.capacity ≡ s.mem.queue.capacity)
      × ((j : ℕ) → j ≢ i → s'.pc j ≡ s.pc j)

  Publishes-go :
      {n : ℕ} {s : System A} {m : Shared A} {p q : Pc A}
      → s.pc i ≡ p
      → Move (pops i) s.mem p m q
      → m.issued ≡ s.mem.issued
      → m.queue.capacity ≡ s.mem.queue.capacity
      → Publishes n (record { mem = m; pc = update s.pc i q })
      → Publishes (suc n) s
  Publishes-go {s = s} {m = m} {q = q} here mv same_issued same_capacity
        (k, le, s', run, seq, issued_is, cap_is, others) =
      (
        suc k,
        omega arith,
        s',
        go (subst (λ x. Move (pops i) s.mem x m q) (sym here) mv) run,
        seq,
        issued_is ∙ same_issued,
        cap_is ∙ same_capacity,
        λ j ne. others j ne ∙ ground arith,
      )

  Publishes-weaken : {n n' : ℕ} {s : System A} → n ≤ n' → Publishes n s → Publishes n' s
  Publishes-weaken more (k, le, s', run, seq, issued_is, cap_is, others) =
      (k, omega arith, s', run, seq, issued_is, cap_is, others)

  publishing_ends :
      (s : System A)
      → s.pc i ≡ publishing t
      → length s.mem.queue.buffer ≡ s.mem.queue.capacity
      → 0 < s.mem.queue.capacity
      → Publishes 1 s
  publishing_ends s here len pos = Publishes-go here publish refl refl (
    0,
    omega arith,
    _,
    stop,
    ap (λ (c : Cell A). c.seq) (slot-set_self s.mem.queue.capacity s.mem.queue.buffer t _ len pos),
    refl,
    refl,
    λ j ne. refl,
  )

  filling_ends :
      (s : System A) (e : A)
      → s.pc i ≡ filling e t
      → length s.mem.queue.buffer ≡ s.mem.queue.capacity
      → 0 < s.mem.queue.capacity
      → Publishes 2 s
  filling_ends s e here len pos =
      Publishes-go here emplace refl refl
        (publishing_ends _ (ground arith) (length-set s.mem.queue.buffer _ _ ∙ len) pos)

  waiting_ends :
      (s : System A) (e : A)
      → s.pc i ≡ waiting e t
      → (cell_at s.mem t).seq ≡ t
      → length s.mem.queue.buffer ≡ s.mem.queue.capacity
      → 0 < s.mem.queue.capacity
      → Publishes 3 s
  waiting_ends s e here free len pos =
      Publishes-go here (enter free) refl refl (filling_ends _ e (ground arith) len pos)

some-inj : {t u : ℕ} → some u ≡ some t → u ≡ t
some-inj e = cc

module _ {A : Type 0} (pops : ℕ → Bool) (i t : ℕ) where
  -- The holder of a ticket publishes it.
  ticket_ends :
      (s : System A) (p : Pc A)
      → s.pc i ≡ p
      → ticket p ≡ some t
      → Produces s.mem p
      → length s.mem.queue.buffer ≡ s.mem.queue.capacity
      → 0 < s.mem.queue.capacity
      → Publishes pops i t 3 s
  ticket_ends s (waiting e u) here has (le, lt, cell, entry) len pos =
      subst (λ v. Publishes pops i v 3 s) (some-inj has)
        (waiting_ends pops i u s e here (ap (λ (c : Cell A). c.seq) cell) len pos)
  ticket_ends s (filling e u) here has made len pos =
      subst (λ v. Publishes pops i v 3 s) (some-inj has)
        (Publishes-weaken pops i u (omega arith) (filling_ends pops i u s e here len pos))
  ticket_ends s (publishing u) here has made len pos =
      subst (λ v. Publishes pops i v 3 s) (some-inj has)
        (Publishes-weaken pops i u (omega arith) (publishing_ends pops i u s here len pos))
  ticket_ends s p here has made len pos = absurd (none≢some has)

module _ {A : Type 0} (pops : ℕ → Bool) (blank : A) (capacity : ℕ) {s : System A}
    (r : Reach pops blank capacity s) (ok : IsAllowed pops blank capacity)
    (fits : s.mem.issued + s.mem.queue.capacity < size_mod) where
  -- A consumer that waits for the next slot waits for one producer at most: some thread, by at most
  -- three steps of its own that hand out no ticket, makes the awaited test hold, and the consumer
  -- still stands at the test.
  pub awaited_slot_filled :
      (h n j : ℕ) (result : List A)
      → s.pc 0 ≡ draining h n j result
      → j < n
      → (i k : ℕ) × (k ≤ 3)
        × (s' : System A) × Alone (Moves pops) i k s s'
        × (s'.pc 0 ≡ draining h n j result)
        × ((cell_at s'.mem (add_size h j)).seq ≡ add_size (add_size h j) 1)
        × (s'.mem.issued ≡ s.mem.issued)
        × (s'.mem.queue.capacity ≡ s.mem.queue.capacity)
  awaited_slot_filled h n j result here lt =
      let inv = Reach-Inv pops blank capacity r ok fits in
      let (taken_is, freed_is, (head_is, some_left, issued_enough, so_far)) =
        subst (Consumes s.mem) here inv.consumes in
      let as_number : add_size h j ≡ h + j = add_size-eq h j (omega arith) in
      elim (inv.held (h + j) (omega arith) (omega arith)) [
        | inl cell ↦ (
          0,
          0,
          omega arith,
          s,
          stop,
          here,
          rw as_number
              (ap (λ (c : Cell A). c.seq) cell ∙ sym (add_size-eq (h + j) 1 (omega arith))),
          refl,
          refl,
        )
        | inr (i, has) ↦
            let (k, le, s', run, seq, issued_is, cap_is, others) =
              ticket_ends pops i (h + j) s (s.pc i) refl has (inv.produces i) inv.slots
                inv.nonempty in
            (
              i,
              k,
              le,
              s',
              run,
              others 0 (λ e. none≢some (ap ticket (sym here) ∙ ap (λ x. ticket (s.pc x)) e ∙ has))
                  ∙ here,
              rw as_number seq,
              issued_is,
              cap_is,
            )
      ]

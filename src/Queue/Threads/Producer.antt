-- ===== src/Queue/Threads/Producer.antt =====
-- The moves of a producer that change the shared queue keep the invariant.
use mathlib.Core.Path.{subst}
use native.Mathlib.Decide.{ℕ_discrete}
use app_simple_log.Prelude.{
  ℕ, ◌+◌, ◌≤◌, ◌<◌, ◌≡◌, ◌⊎◌, inl, inr, refl, sym, ap, ◌∙◌, none, some, size_mod, add_size,
  window-congr, update, arith,
}
use app_simple_log.Queue.Threads.{Shared, Pc, reserving, waiting, cell_at}
use app_simple_log.Queue.Threads.Inv.{ticket, Produces, Consumes, Inv}
use app_simple_log.Queue.Threads.Keep.{Produces-keep, Consumes-keep, Apart}
use app_simple_log.Queue.Threads.Places.{
  at-update, single-update, ticket_here, ticket_there, unique-update, ticket-range,
}

module _ {A : Type 0} {m : Shared A} {pc : ℕ → Pc A} (inv : Inv m pc) (i : ℕ) where
  -- The slots in play are those of the tickets from the last one given back on.
  pub in_play :
      (t : ℕ) → m.taken ≤ t → t < m.issued → (m.freed ≤ t) × (t < m.freed + m.queue.capacity)
  in_play t le lt = omega (arith, inv.order, inv.bounded)

  -- The consumer as a producer.
  pub resting : i ≡ 0 → (p : Pc A) → pc i ≡ p → Consumes m p
  resting e0 p here = subst (Consumes m) (ap pc (sym e0) ∙ here) inv.consumes

  abbrev pub reserved : A → ℕ → Shared A
  reserved e t = record m {
    queue = record (m.queue) { tail = add_size t 1 };
    issued = m.issued + 1;
    ledger = update m.ledger m.issued e;
  }

  old_entry : (e : A) (k : ℕ) → k < m.issued → update m.ledger m.issued e k ≡ m.ledger k
  old_entry e k lt = ground arith

  -- After a ticket is handed out, each is still published or held.
  reserve-held :
      (e : A) (t : ℕ)
      → pc i ≡ reserving e t
      → m.queue.tail ≡ t
      → (k : ℕ) → m.taken ≤ k
      → k < m.issued + 1
      → (cell_at m k ≡ record { seq = k + 1; storage = some (update m.ledger m.issued e k) })
        ⊎ ((j : ℕ) × (ticket (update pc i (waiting e t) j) ≡ some k))
  reserve-held e t here won k le lt =
      let empty_handed : ticket (pc i) ≡ none = ap ticket here in
      elim (ℕ_discrete k m.issued) [
        | yes new ↦
            inr (i, ticket_here pc i (waiting e t) ∙ ap some (omega (arith, new, inv.tail_is)))
        | no old ↦ elim (inv.held k le (omega (arith, old))) [
          | inl cell ↦ inl (
              cell
              ∙ ap (λ x. record { seq = k + 1; storage = some x })
                  (sym (old_entry e k (omega (arith, old)))))
          | inr (j, has) ↦ inr (j, ticket_there pc i (waiting e t) j (λ same. cc) ∙ has)
        ]
      ]

  pub reserve-Inv :
      (e : A) (t : ℕ)
      → pc i ≡ reserving e t
      → m.queue.tail ≡ t
      → m.issued + 1 + m.queue.capacity < size_mod
      → Inv (reserved e t) (update pc i (waiting e t))
  reserve-Inv e t here won fits =
      let room : t < m.queue.head + m.queue.capacity = subst (Produces m) here (inv.produces i) in
      let empty_handed : ticket (pc i) ≡ none = ap ticket here in
      let apart : Apart m (reserved e t) = record {
        head_same = refl;
        taken_same = refl;
        freed_same = refl;
        grown = omega arith;
        same_entries = old_entry e;
      } in
      record {
        nonempty = inv.nonempty;
        small = inv.small;
        slots = inv.slots;
        fits = fits;
        tail_is = omega (arith, inv.tail_is);
        order = omega (arith, inv.order);
        bounded = omega (arith, inv.tail_is);
        held = reserve-held e t here won;
        free = λ k le lt. inv.free k (omega arith) lt;
        unique = unique-update pc i (waiting e t) inv.unique (λ j k ne mine other.
            let same : t ≡ k = cc in
            omega (arith, (ticket-range m (pc j) k (inv.produces j) other).1, inv.tail_is));
        produces = λ j.
            at-update (Produces (reserved e t)) pc i (waiting e t) j
              (λ same. (
                omega (arith, inv.order, inv.tail_is),
                omega (arith, inv.tail_is),
                inv.free t (omega (arith, inv.tail_is)) (omega (arith, inv.order)),
                ground (arith, inv.tail_is),
              ))
              (λ ne.
                Produces-keep m (reserved e t) (pc j) (omega arith) (omega arith)
                  (λ k has le lt. (le, refl, old_entry e k lt)) (inv.produces j));
        consumes =
            at-update (Consumes (reserved e t)) pc i (waiting e t) 0
              (λ e0. resting e0 (reserving e t) here)
              (λ ne. Consumes-keep m (reserved e t) (pc 0) apart (λ seen. refl) inv.consumes);
        single = single-update pc i (waiting e t) inv.single (λ wrong. cc);
        in_order =
            inv.in_order
            ∙ sym (
                window-congr (update m.ledger m.issued e) m.ledger 0 m.queue.head
                  (λ k lt. old_entry e (0 + k) (omega (arith, inv.order))));
      }

-- ===== src/Queue/Threads/Filling.antt =====
-- The writes of a producer to the slot of its ticket.
use mathlib.Core.Path.{subst}
use native.Mathlib.Decide.{ℕ_discrete}
use app_simple_log.Prelude.{
  ℕ, ◌+◌, ◌%◌, ◌≤◌, ◌<◌, ◌≡◌, ◌≢◌, ◌⊎◌, inl, inr, refl, sym, ap, ◌∙◌, false, none, some, length-set,
  add_size, add_size-eq, update, arith,
}
use app_simple_log.Queue.{Cell}
use app_simple_log.Queue.Threads.{
  slot, Shared, Pc, filling, publishing, counting, cell_at, with_cell,
}
use app_simple_log.Queue.Threads.Inv.{ticket, consuming, Produces, Consumes, Inv}
use app_simple_log.Queue.Threads.Keep.{Produces-keep, Consumes-keep, Untouched}
use app_simple_log.Queue.Threads.Places.{
  at-update, single-update, cell-written, cell-unwritten, ticket_here, ticket_there, unique-update,
  ticket-range,
}
use app_simple_log.Queue.Threads.Producer.{in_play, resting}

module _ {A : Type 0} {m : Shared A} {pc : ℕ → Pc A} (inv : Inv m pc) (i : ℕ) where
  -- The storage of the slot of the ticket `t`, by its holder.
  abbrev pub filled : A → ℕ → Shared A
  filled e t = record m {
    queue = with_cell m t (record { seq = (cell_at m t).seq; storage = some e });
  }

  abbrev pub published : ℕ → Shared A
  published t = record m {
    queue = with_cell m t (record { seq = add_size t 1; storage = (cell_at m t).storage });
  }

  -- What a holder's write of its slot leaves alone.
  spared :
      (t : ℕ) (c : Cell A)
      → ticket (pc i) ≡ some t
      → (j : ℕ) → i ≢ j
      → (k : ℕ) → ticket (pc j) ≡ some k
      → m.taken ≤ k
      → k < m.issued
      → slot m.queue.capacity (with_cell m t c).buffer k ≡ cell_at m k
  spared t c mine j ne k other le lt =
      let (le', lt', seq) = ticket-range m (pc i) t (inv.produces i) mine in
      let (a, b) = in_play inv i t le' lt' in
      let (a', b') = in_play inv i k le lt in
      cell-unwritten m m.freed t k c a b a' b'
        (λ same. ne (inv.unique i j k (mine ∙ ap some (sym same)) other))

  untouched :
      (t : ℕ) (c : Cell A)
      → ticket (pc i) ≡ some t
      → Untouched m (record m { queue = with_cell m t c })
  untouched t c mine seen =
      let (le', lt', seq) = ticket-range m (pc i) t (inv.produces i) mine in
      let (a, b) = in_play inv i t le' lt' in
      cell-unwritten m m.freed t m.freed c a b (omega arith) (omega (arith, inv.nonempty))
        (λ same. absurd (omega (arith, seen, seq, ap (λ k. (cell_at m k).seq) same)))

  abbrev written : ℕ → Cell A → Shared A
  written t c = record m { queue = with_cell m t c }

  -- After a holder's write of its slot, each ticket is still published or held.
  write-held :
      (t : ℕ) (c : Cell A) (p' : Pc A)
      → ticket (pc i) ≡ some t
      → ((ticket p' ≡ some t)
          ⊎ ((ticket p' ≡ none) × (c ≡ record { seq = t + 1; storage = some (m.ledger t) })))
      → (k : ℕ) → m.taken ≤ k
      → k < m.issued
      → (cell_at (written t c) k ≡ record { seq = k + 1; storage = some (m.ledger k) })
        ⊎ ((j : ℕ) × (ticket (update pc i p' j) ≡ some k))
  write-held t c p' mine after k le lt =
      let (le', lt', seq) = ticket-range m (pc i) t (inv.produces i) mine in
      let (a, b) = in_play inv i t le' lt' in
      elim (ℕ_discrete k t) [
        | yes at_t ↦ elim after [
          | inl kept ↦ inr (i, ticket_here pc i p' ∙ kept ∙ ap some (sym at_t))
          | inr (gone, full) ↦ inl (
              subst
                (λ x. cell_at (written t c) x ≡ record { seq = x + 1; storage = some (m.ledger x) })
                (sym at_t) (cell-written m t c inv.slots inv.nonempty ∙ full))
        ]
        | no off ↦ elim (inv.held k le lt) [
          | inl cell ↦ inl (
              cell-unwritten m m.freed t k c a b (in_play inv i k le lt).0 (in_play inv i k le lt).1
                off
              ∙ cell)
          | inr (j, has) ↦ inr (
            j,
            ticket_there pc i p' j (λ same.
                  off
                    (let at_i : ticket (pc i) ≡ some k = ap (λ x. ticket (pc x)) same ∙ has in cc))
                ∙ has,
          )
        ]
      ]

  -- A holder's write of its slot, up to what becomes of the slot and of the holder.
  write-Inv :
      (t : ℕ) (c : Cell A) (p' : Pc A)
      → ticket (pc i) ≡ some t
      → ((ticket p' ≡ some t)
          ⊎ ((ticket p' ≡ none) × (c ≡ record { seq = t + 1; storage = some (m.ledger t) })))
      → consuming p' ≡ false
      → Produces (written t c) p'
      → (i ≡ 0 → Consumes (written t c) p')
      → Inv (written t c) (update pc i p')
  write-Inv t c p' mine after quiet produces consumes =
      let (le', lt', seq) = ticket-range m (pc i) t (inv.produces i) mine in
      let (a, b) = in_play inv i t le' lt' in
      record {
        nonempty = inv.nonempty;
        small = inv.small;
        slots = length-set m.queue.buffer (t % m.queue.capacity) c ∙ inv.slots;
        fits = inv.fits;
        tail_is = inv.tail_is;
        order = inv.order;
        bounded = inv.bounded;
        held = write-held t c p' mine after;
        free = λ k le lt.
            cell-unwritten m m.freed t k c a b (omega (arith, inv.order)) lt
              (λ same. absurd (omega arith))
            ∙ inv.free k le lt;
        unique = unique-update pc i p' inv.unique (λ j k ne has other. elim after [
          | inl kept ↦ (let same : ticket (pc i) ≡ some k = cc in ne (inv.unique i j k same other))
          | inr (gone, full) ↦ cc
        ]);
        produces = λ j.
            at-update (Produces (written t c)) pc i p' j (λ same. produces)
              (λ ne.
                Produces-keep m (written t c) (pc j) (omega arith) (omega arith)
                  (λ k has le lt. (le, spared t c mine j ne k has le lt, refl)) (inv.produces j));
        consumes = at-update (Consumes (written t c)) pc i p' 0 consumes (λ ne.
            Consumes-keep m (written t c) (pc 0)
              (record {
                head_same = refl;
                taken_same = refl;
                freed_same = refl;
                grown = omega arith;
                same_entries = λ k lt. refl;
              })
              (untouched t c mine) inv.consumes);
        single = single-update pc i p' inv.single (λ wrong. cc);
        in_order = inv.in_order;
      }

  pub emplace-Inv :
      (e : A) (t : ℕ) → pc i ≡ filling e t → Inv (filled e t) (update pc i (publishing t))
  emplace-Inv e t here =
      let (le, lt, cell, entry) = subst (Produces m) here (inv.produces i) in
      let c : Cell A = record { seq = (cell_at m t).seq; storage = some e } in
      write-Inv t c (publishing t) (ap ticket here) (inl refl) refl
        (le, lt, cell-written m t c inv.slots inv.nonempty ∙ ground (arith, cell, entry))
        (λ e0. resting inv i e0 (filling e t) here)

  pub publish-Inv : (t : ℕ) → pc i ≡ publishing t → Inv (published t) (update pc i counting)
  publish-Inv t here =
      let (le, lt, cell) = subst (Produces m) here (inv.produces i) in
      write-Inv t (record { seq = add_size t 1; storage = (cell_at m t).storage }) counting
        (ap ticket here)
        (inr (refl, ground (arith, cell, add_size-eq t 1 (omega (arith, inv.fits))))) refl tt
        (λ e0. resting inv i e0 (publishing t) here)

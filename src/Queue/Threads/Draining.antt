-- ===== src/Queue/Threads/Draining.antt =====
-- The moves of the consumer that change the queue: taking an entry, giving its slot back, and
-- advancing the head.
use mathlib.Core.Path.{subst, ap₂}
use native.Mathlib.Decide.{ℕ_discrete}
use native.Mathlib.Nat.{add-mod_right}
use app_simple_log.Prelude.{
  ℕ, suc, ◌+◌, ◌%◌, ◌≤◌, ◌<◌, ◌≡◌, refl, sym, ap, ◌∙◌, List, ◌++◌, none, length-set, add_size,
  add_size-eq, window, window_last, window-append, get_or, update, arith,
}
use app_simple_log.Queue.{Cell, no_cell}
use app_simple_log.Queue.Inv.{slot}
use app_simple_log.Queue.Threads.{
  Shared, Pc, draining, taking, freeing, advancing, uncounting, cell_at, with_cell, moved,
}
use app_simple_log.Queue.Threads.Inv.{Inv}
use app_simple_log.Queue.Threads.Places.{cell-written, cell-unwritten}
use app_simple_log.Queue.Threads.Consumer.{consumer_facts, consumer-Inv}

module _ {A : Type 0} {m : Shared A} {pc : ℕ → Pc A} (inv : Inv m pc) (i : ℕ) where
  abbrev pub taken_out : ℕ → Shared A
  taken_out t = record m {
    queue = with_cell m t (record { seq = (cell_at m t).seq; storage = none });
    taken = m.taken + 1;
  }

  pub take-Inv :
      (h n j : ℕ) (result : List A)
      → pc i ≡ taking h n j result
      → Inv
          (taken_out (h + j))
          (update pc i (freeing h n j (result ++ moved (cell_at m (h + j)).storage)))
  take-Inv h n j result here =
      let (i0, facts) = consumer_facts inv i (taking h n j result) here refl in
      let (t_is, f_is, (at_head, within, inside, gathered), more, cell) = facts in
      let c : Cell A = record { seq = (cell_at m (h + j)).seq; storage = none } in
      let p' : Pc A = freeing h n j (result ++ moved (cell_at m (h + j)).storage) in
      let other : (k : ℕ)
          → m.taken + 1 ≤ k
          → k < m.freed + m.queue.capacity
          → slot m.queue.capacity (with_cell m (h + j) c).buffer k ≡ cell_at m k =
        λ k le lt.
          cell-unwritten m m.freed (h + j) k c (omega arith) (omega (arith, inv.nonempty))
            (omega arith) lt (λ e. absurd (omega arith)) in
      consumer-Inv inv i (taking h n j result) p' (with_cell m (h + j) c).buffer m.queue.head
        (m.taken + 1) m.freed m.delivered here i0 refl refl tt
        (length-set m.queue.buffer ((h + j) % m.queue.capacity) c ∙ inv.slots)
        (omega (arith, inv.order)) (omega arith)
        (λ k le lt seq. elim (ℕ_discrete k (h + j)) [
          | yes e ↦
              absurd
                (omega (arith, seq, ap (λ (x : Cell A). x.seq) cell, ap (λ u. (cell_at m u).seq) e))
          | no off ↦ omega (arith, off)
        ])
        (λ k le lt. other k le (omega (arith, inv.bounded, inv.order))) (omega arith)
        (λ k le lt. other k (omega arith) lt ∙ inv.free k le lt)
        (
          omega arith,
          f_is,
          (
            at_head,
            omega arith,
            inside,
            ap₂ ◌++◌ gathered (ap (λ (x : Cell A). moved x.storage) cell)
                ∙ sym (window_last m.ledger h j),
          ),
          more,
          cell-written m (h + j) c inv.slots inv.nonempty
              ∙ ap (λ (x : Cell A). let y : Cell A = record { seq = x.seq; storage = none } in y)
                  cell,
        )
        inv.in_order

  abbrev pub given_back : ℕ → Shared A
  given_back t = record m {
    queue =
        with_cell m t
          (record { seq = add_size t m.queue.capacity; storage = (cell_at m t).storage });
    freed = m.freed + 1;
  }

  pub free-Inv :
      (h n j : ℕ) (result : List A)
      → pc i ≡ freeing h n j result
      → Inv (given_back (h + j)) (update pc i (draining h n (suc j) result))
  free-Inv h n j result here =
      let (i0, facts) = consumer_facts inv i (freeing h n j result) here refl in
      let (t_is, f_is, (at_head, within, inside, gathered), more, cell) = facts in
      let c : Cell A = record {
        seq = add_size (h + j) m.queue.capacity;
        storage = (cell_at m (h + j)).storage;
      } in
      let p' : Pc A = draining h n (suc j) result in
      let other : (k : ℕ)
          → m.taken ≤ k
          → k < m.freed + m.queue.capacity
          → slot m.queue.capacity (with_cell m (h + j) c).buffer k ≡ cell_at m k =
        λ k le lt.
          cell-unwritten m m.freed (h + j) k c (omega arith) (omega (arith, inv.nonempty))
            (omega arith) lt (λ e. absurd (omega arith)) in
      let reusable : c ≡ record { seq = m.freed + m.queue.capacity; storage = none } =
        ground
          (arith, cell, add_size-eq (h + j) m.queue.capacity (omega (arith, inv.fits)), f_is) in
      consumer-Inv inv i (freeing h n j result) p' (with_cell m (h + j) c).buffer m.queue.head
        m.taken (m.freed + 1) m.delivered here i0 refl refl tt
        (length-set m.queue.buffer ((h + j) % m.queue.capacity) c ∙ inv.slots)
        (omega (arith, inv.order)) (omega arith) (λ k le lt seq. le)
        (λ k le lt. other k le (omega (arith, inv.bounded, inv.order))) (omega arith)
        (λ k le lt. elim (ℕ_discrete k (m.freed + m.queue.capacity)) [
          | yes last ↦
              subst (λ k. cell_at (given_back (h + j)) k ≡ record { seq = k; storage = none })
                (sym last)
                (ap (λ r. get_or (given_back (h + j)).queue.buffer r no_cell)
                    (add-mod_right m.freed m.queue.capacity)
                  ∙ ap (cell_at (given_back (h + j))) f_is
                  ∙ cell-written m (h + j) c inv.slots inv.nonempty
                  ∙ reusable)
          | no before ↦
              other k (omega (arith, inv.order)) (omega (arith, before))
              ∙ inv.free k le (omega (arith, before))
        ])
        (omega arith, omega arith, (at_head, omega arith, inside, gathered)) inv.in_order

  abbrev pub advanced : ℕ → List A → Shared A
  advanced head result = record m {
    queue = record (m.queue) { head = head };
    delivered = m.delivered ++ result;
  }

  pub advance-Inv :
      (h n : ℕ) (result : List A)
      → pc i ≡ advancing h n result
      → Inv (advanced (h + n) result) (update pc i (uncounting n))
  advance-Inv h n result here =
      let (i0, facts) = consumer_facts inv i (advancing h n result) here refl in
      let (t_is, f_is, (at_head, within, inside, gathered)) = facts in
      consumer-Inv inv i (advancing h n result) (uncounting n) m.queue.buffer (h + n) m.taken
        m.freed (m.delivered ++ result) here i0 refl refl tt inv.slots (omega (arith, inv.order))
        (omega arith) (λ k le lt seq. le) (λ k le lt. refl) (omega arith) inv.free (t_is, f_is)
        (ap₂ ◌++◌ inv.in_order (gathered ∙ ap (λ u. window m.ledger u n) at_head)
          ∙ ap (λ u. window m.ledger 0 m.queue.head ++ window m.ledger u n) {y = 0 + m.queue.head}
              (omega arith)
          ∙ sym (window-append m.ledger 0 m.queue.head n)
          ∙ ap (λ u. window m.ledger 0 (u + n)) (sym at_head))

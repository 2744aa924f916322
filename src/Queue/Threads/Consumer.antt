-- ===== src/Queue/Threads/Consumer.antt =====
-- The moves of the consumer that change the shared queue keep the invariant.
use mathlib.Core.Path.{subst}
use app_simple_log.Prelude.{
  length, ℕ, ◌+◌, ◌≤◌, ◌<◌, ◌≡◌, inl, inr, refl, sym, ap, ◌∙◌, true, List, none, some, window,
  update, arith,
}
use app_simple_log.Queue.{Cell}
use app_simple_log.Queue.Inv.{slot}
use app_simple_log.Queue.Threads.{Shared, Pc, cell_at}
use app_simple_log.Queue.Threads.Inv.{ticket, consuming, Produces, Consumes, Inv}
use app_simple_log.Queue.Threads.Keep.{Produces-keep}
use app_simple_log.Queue.Threads.Places.{
  ticket-update, ticket-range, at-update, single-update, unique-update,
}

module _ {A : Type 0} {m : Shared A} {pc : ℕ → Pc A} (inv : Inv m pc) (i : ℕ) where
  pub consumer_facts : (p : Pc A) → pc i ≡ p → consuming p ≡ true → (i ≡ 0) × Consumes m p
  consumer_facts p here inside =
      let i0 = inv.single i (ap consuming here ∙ inside) in
      (i0, subst (Consumes m) (ap pc (sym i0) ∙ here) inv.consumes)

  -- No ticket is held in a thread that stands at `p`, before and after.
  still_unique :
      (p p' : Pc A)
      → pc i ≡ p
      → ticket p ≡ none
      → ticket p' ≡ none
      → (a b t : ℕ) → ticket (update pc i p' a) ≡ some t
      → ticket (update pc i p' b) ≡ some t
      → a ≡ b
  still_unique p p' here before after = unique-update pc i p' inv.unique (λ j t ne mine other. cc)

  -- The consumer's entry of the table of threads, where only the consumer's can matter.
  Consumes-update :
      (m' : Shared A) (p' : Pc A) → i ≡ 0 → Consumes m' p' → Consumes m' (update pc i p' 0)
  Consumes-update m' p' i0 f = at-update (Consumes m') pc i p' 0 (λ e. f) (λ ne. absurd (ne i0))

  -- The queue after a step of the consumer.
  abbrev pub stage : List (Cell A) → ℕ → ℕ → ℕ → List A → Shared A
  stage cells head taken freed delivered = record m {
    queue = record (m.queue) { buffer = cells; head = head };
    taken = taken;
    freed = freed;
    delivered = delivered;
  }

  -- A step of the consumer from `p` to `p'`: what is left to show of its queue. Producers are spared,
  -- since the slots of the tickets that they hold are not touched.
  pub consumer-Inv :
      (p p' : Pc A) (cells : List (Cell A)) (head taken freed : ℕ) (delivered : List A)
      → pc i ≡ p
      → i ≡ 0
      → ticket p ≡ none
      → ticket p' ≡ none
      → Produces (stage cells head taken freed delivered) p'
      → length cells ≡ m.queue.capacity
      → (head ≤ freed) × (freed ≤ taken) × (taken ≤ freed + 1) × (taken ≤ m.issued)
      → m.queue.head ≤ head
      → ((k : ℕ) → m.taken ≤ k → k < m.issued → (cell_at m k).seq ≡ k → taken ≤ k)
      → ((k : ℕ) → taken ≤ k → k < m.issued → slot m.queue.capacity cells k ≡ cell_at m k)
      → m.taken ≤ taken
      → ((k : ℕ)
          → m.issued ≤ k
          → k < freed + m.queue.capacity
          → slot m.queue.capacity cells k ≡ record { seq = k; storage = none })
      → Consumes (stage cells head taken freed delivered) p'
      → delivered ≡ window m.ledger 0 head
      → Inv (stage cells head taken freed delivered) (update pc i p')
  consumer-Inv p p' cells head taken freed delivered here i0 before after made len order up spare
        kept on fresh consumes in_order =
      let m' : Shared A = stage cells head taken freed delivered in
      let same : ticket p' ≡ ticket (pc i) = after ∙ sym before ∙ sym (ap ticket here) in
      record {
        nonempty = inv.nonempty;
        small = inv.small;
        slots = len;
        fits = inv.fits;
        tail_is = inv.tail_is;
        order = order;
        bounded = omega (arith, inv.bounded);
        held = λ k le lt. elim (inv.held k (omega arith) lt) [
          | inl full ↦ inl (kept k le lt ∙ full)
          | inr (a, has) ↦ inr (a, ticket-update pc i p' a same ∙ has)
        ];
        free = fresh;
        unique = still_unique p p' here before after;
        produces = λ a.
            at-update (Produces m') pc i p' a (λ e. made)
              (λ ne.
                Produces-keep m m' (pc a) (omega arith) (omega arith)
                  (λ k has le lt.
                    let later = spare k le lt (ticket-range m (pc a) k (inv.produces a) has).2 in
                    (later, kept k later lt, refl))
                  (inv.produces a));
        consumes = Consumes-update m' p' i0 consumes;
        single = single-update pc i p' inv.single (λ e. i0);
        in_order = in_order;
      }

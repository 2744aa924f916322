-- ===== src/Ring/Refine.antt =====
-- A valid ring buffer behaves as the bounded list of the entries that it holds.
use app_simple_log.Prelude.{
  ℕ, zero, suc, ◌+◌, ◌%◌, ◌<◌, ◌≡◌, refl, sym, ap, ◌∙◌, Option, Bool, List, [], ◌∷◌, ◌++◌, some,
  get_or, set, get_or-set_self, get_or-set_ne, mod-ne, size_mod, add_size-eq, window, length-window,
  window-congr, window_last, arith, Bool-cases, inl, inr, ◌==◌,
}
use mathlib.Core.Path.{ap₂}
use native.Mathlib.Nat.{mod-lt}
use app_simple_log.Fifo.{BoundedFifo, offer}
use app_simple_log.Ring.{create, RingBuffer, try_push, pop_all, collect}
use app_simple_log.Ring.Inv.{IsValid-weaken, IsValid, try_push-IsValid, pop_all-IsValid}

module _ {A : Type 0} (blank : A) where
  abbrev at_ticket : RingBuffer A → ℕ → A
  at_ticket r t = get_or r.buffer (t % r.capacity) blank

  -- The entries held, oldest first.
  abbrev pub contents : RingBuffer A → List A
  contents r = window (at_ticket r) r.tail r.size

  -- The loop of `popAll` reads the window from the tail on.
  collect-window :
      (r : RingBuffer A) (i n : ℕ)
      → r.tail + i + n < size_mod
      → collect blank r.buffer r.capacity r.tail i n ≡ window (at_ticket r) (r.tail + i) n
  unfolding collect
  collect-window r i zero h = refl
  collect-window r i (suc n) h =
      rw (add_size-eq r.tail i (omega arith), add_size-eq i 1 (omega arith))
        (ap (λ l. at_ticket r (r.tail + i) ∷ l)
          (collect-window r (i + 1) n (omega arith)
            ∙ ap (λ t. window (at_ticket r) t n) (omega arith)))

  -- The slot that a push writes is the first one behind the window.
  window-set :
      (n : ℕ) (r : RingBuffer A) (entry : A)
      → IsValid n r
      → r.size < r.capacity
      → window
          (λ t. get_or (set r.buffer (r.head % r.capacity) entry) (t % r.capacity) blank)
          r.tail
          (suc r.size)
        ≡ contents r ++ entry ∷ []
  window-set n r entry v room =
      window_last written r.tail r.size ∙ ap₂ (λ l x. l ++ x ∷ []) (window-congr _ _ _ _ same) last
    where
      written : ℕ → A
      written t = get_or (set r.buffer (r.head % r.capacity) entry) (t % r.capacity) blank

      same : (i : ℕ) → i < r.size → written (r.tail + i) ≡ at_ticket r (r.tail + i)
      same i lt =
          get_or-set_ne r.buffer (r.head % r.capacity) ((r.tail + i) % r.capacity) entry blank (λ e.
            mod-ne (r.tail + i) (r.tail + r.size) r.capacity (omega arith) (omega arith)
              (sym e ∙ v.in_step))

      last : written (r.tail + r.size) ≡ entry
      last = rw (← v.in_step) (
          get_or-set_self r.buffer (r.head % r.capacity) entry blank
            (omega (arith, mod-lt r.head {m = r.capacity} (omega arith))))

  -- On a valid ring buffer with room for one more head ticket, `tryPush` is `offer`: it takes the entry
  -- as the last one while fewer than the capacity are held, and otherwise refuses it and keeps what it
  -- holds; the capacity stays.
  pub try_push_refines :
      (n : ℕ) (r : RingBuffer A) (entry : A)
      → IsValid (suc n) r
      → let (taken, r') = try_push r entry in
        ((taken, contents r') ≡ offer r.capacity (contents r) entry) × (r'.capacity ≡ r.capacity)
  unfolding try_push
  try_push_refines n r entry v =
      ground (arith, length-window (at_ticket r) r.tail r.size, window-set (suc n) r entry v)

  size-pop_all : (r : RingBuffer A) → (pop_all blank r).1.size ≡ 0
  unfolding pop_all
  size-pop_all r = ground arith

  -- What the loop gathers; an empty buffer returns before the loop, which would make no round.
  pop_all-collect :
      (r : RingBuffer A) → (pop_all blank r).0 ≡ collect blank r.buffer r.capacity r.tail 0 r.size
  unfolding pop_all
  pop_all-collect r = elim (Bool-cases (r.size == 0)) [
    | inl e ↦ let zero_size : r.size ≡ 0 = ground arith in rw (e, zero_size)
    | inr e ↦ rw e
  ]

  -- On a valid ring buffer, `popAll` gives all entries in the order in which they were pushed, leaves
  -- none, and keeps the capacity.
  pub pop_all_refines :
      (n : ℕ) (r : RingBuffer A)
      → IsValid n r
      → let (taken, r') = pop_all blank r in
        (taken ≡ contents r) × (contents r' ≡ []) × (r'.capacity ≡ r.capacity)
  pop_all_refines n r v = (
    pop_all-collect r
        ∙ collect-window r 0 r.size (omega arith)
        ∙ ap (λ t. window (at_ticket r) t r.size) (omega arith),
    rw (size-pop_all r),
    unfold pop_all in ground arith,
  )

  pub push_offers :
      (n : ℕ) (r : RingBuffer A) (e : A)
      → IsValid (suc n) r
      → (r' : RingBuffer A) × (◌≡◌ {A = Option (Bool × RingBuffer A)}
          (some (try_push r e))
          (some ((offer r.capacity (contents r) e).0, r')))
        × (contents r' ≡ (offer r.capacity (contents r) e).1)
        × (r'.capacity ≡ r.capacity)
        × IsValid n r'
  push_offers n r e v =
      let (same, kept) = try_push_refines n r e v in
      ((try_push r e).1, cc, cc, kept, try_push-IsValid n r e v)

  pub contents-create : (capacity : ℕ) → contents (create blank capacity) ≡ []
  unfolding create
  contents-create capacity = refl

  pub capacity-create : (capacity : ℕ) → (create blank capacity).capacity ≡ capacity
  unfolding create
  capacity-create capacity = refl

  pub pop_drains :
      (n : ℕ) (r : RingBuffer A)
      → IsValid n r
      → (r' : RingBuffer A) × (◌≡◌ {A = Option (List A × RingBuffer A)}
          (some (pop_all blank r))
          (some (contents r, r')))
        × (contents r' ≡ [])
        × (r'.capacity ≡ r.capacity)
        × IsValid n r'
  pop_drains n r v =
      let (all, none_left, kept) = pop_all_refines n r v in
      ((pop_all blank r).1, cc, none_left, kept, pop_all-IsValid blank n r v)

  -- The ring buffer fills the interface that the logger uses.
  abbrev pub fifo : BoundedFifo A (RingBuffer A)
  fifo = record {
    capacity = λ r. r.capacity;
    contents = contents;
    IsValid = IsValid;
    try_push = λ r e. some (try_push r e);
    pop_all = λ r. some (pop_all blank r);
    weaken = IsValid-weaken;
    push_offers = push_offers;
    pop_drains = pop_drains;
  }

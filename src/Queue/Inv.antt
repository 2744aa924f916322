-- ===== src/Queue/Inv.antt =====
-- The slots of the asynchronous queue by ticket, and the representation invariant.
use native.Mathlib.Nat.{add-zero, mod-lt, mod-eq_of_lt, add-mod_right}
use native.Mathlib.Decide.{ℕ_discrete}
use app_simple_log.Prelude.{
  ℕ, zero, suc, ◌+◌, ◌%◌, ◌^◌, ◌≤◌, ◌<◌, ◌≡◌, refl, sym, ap, ◌∙◌, List, none, some, length,
  length-set, get_or, set, get_or-set_self, get_or-set_ne, mod-ne, size_mod, arith,
}
use app_simple_log.Queue.{Cell, AsyncQueue, no_cell, create, fresh_cells}

abbrev pub slot : {A : Type 0} → ℕ → List (Cell A) → ℕ → Cell A
slot cap cells ticket = get_or cells (ticket % cap) no_cell

-- Tickets from `h` to `t` are published and not taken; the slots of the next tickets, up to a
-- capacity behind `h`, are free and wait for exactly those.
pub record Slots {A : Type 0} (cap : ℕ) (cells : List (Cell A)) (h t : ℕ) : Type 0 where
  pub slots : length cells ≡ cap
  pub ordered : h ≤ t
  pub bounded : t ≤ h + cap
  pub published :
      (k : ℕ)
      → h ≤ k
      → k < t
      → (e : A) × (slot cap cells k ≡ record { seq = k + 1; storage = some e })
  pub free : (k : ℕ) → t ≤ k → k < h + cap → slot cap cells k ≡ record { seq = k; storage = none }

module _ {A : Type 0} (cap : ℕ) (cells : List (Cell A)) where
  -- A write at one ticket's slot is read back there, and nowhere else less than a capacity away.
  pub slot-set_self :
      (k : ℕ) (c : Cell A) → length cells ≡ cap → 0 < cap → slot cap (set cells (k % cap) c) k ≡ c
  slot-set_self k c len pos =
      get_or-set_self cells (k % cap) c no_cell (omega (arith, mod-lt k {m = cap} pos))

  pub slot-set_above :
      (k j : ℕ) (c : Cell A)
      → k < j
      → j < k + cap
      → slot cap (set cells (k % cap) c) j ≡ slot cap cells j
  slot-set_above k j c lt near =
      get_or-set_ne cells (k % cap) (j % cap) c no_cell (mod-ne k j cap lt near)

  pub slot-set_below :
      (k j : ℕ) (c : Cell A)
      → j < k
      → k < j + cap
      → slot cap (set cells (k % cap) c) j ≡ slot cap cells j
  slot-set_below k j c lt near =
      get_or-set_ne cells (k % cap) (j % cap) c no_cell (λ e. mod-ne j k cap lt near (sym e))

  -- The next ticket is published.
  pub Slots-publish :
      (h t : ℕ) (e : A)
      → Slots cap cells h t
      → t < h + cap
      → Slots cap (set cells (t % cap) (record { seq = t + 1; storage = some e })) h (t + 1)
  Slots-publish h t e s room = record {
    slots = length-set cells (t % cap) _ ∙ s.slots;
    ordered = omega (arith, s.ordered);
    bounded = omega arith;
    published = λ k le lt. elim (ℕ_discrete k t) [
      | yes here ↦ (
        e,
        rw here (
            slot-set_self t (record { seq = t + 1; storage = some e }) s.slots
              (omega (arith, s.ordered))),
      )
      | no other ↦
          let (x, held) = s.published k le (omega arith) in
          (x, slot-set_below t k _ (omega arith) (omega (arith, s.bounded)) ∙ held)
    ];
    free = λ k le lt.
        slot-set_above t k _ (omega arith) (omega (arith, s.ordered)) ∙ s.free k (omega arith) lt;
  }

  -- The oldest ticket is taken.
  pub Slots-release :
      (h t : ℕ)
      → Slots cap cells h t
      → h < t
      → Slots cap (set cells (h % cap) (record { seq = h + cap; storage = none })) (h + 1) t
  Slots-release h t s some_held = record {
    slots = length-set cells (h % cap) _ ∙ s.slots;
    ordered = omega arith;
    bounded = omega (arith, s.bounded);
    published = λ k le lt.
        let (x, held) = s.published k (omega arith) lt in
        (x, slot-set_above h k _ (omega arith) (omega (arith, s.bounded)) ∙ held);
    free = λ k le lt. elim (ℕ_discrete k (h + cap)) [
      | yes here ↦
          rw (here, add-mod_right)
            (slot-set_self h (record { seq = h + cap; storage = none }) s.slots (omega arith))
      | no other ↦ slot-set_above h k _ (omega arith) (omega arith) ∙ s.free k le (omega arith)
    ];
  }

-- The representation invariant: `n` more pushes fit before a sequence number wraps.
pub record IsValid {A : Type 0} (n : ℕ) (q : AsyncQueue A) : Type 0 where
  pub nonempty : 0 < q.capacity
  pub small : q.capacity ≤ 2 ^ 62
  pub cells : Slots q.capacity q.buffer q.head q.tail
  pub counted : q.size + q.head ≡ q.tail
  pub no_wrap : q.tail + q.capacity + n < size_mod

length-fresh_cells : (A : Type 0) (i n : ℕ) → length (fresh_cells {A = A} i n) ≡ n
unfolding fresh_cells
length-fresh_cells A i zero = refl
length-fresh_cells A i (suc n) = ap suc (length-fresh_cells A (i + 1) n)

module _ {A : Type 0} where
  get_or-fresh_cells :
      (i n k : ℕ)
      → k < n
      → get_or (fresh_cells {A = A} i n) k no_cell ≡ record { seq = i + k; storage = none }
  unfolding fresh_cells
  get_or-fresh_cells i zero k h = absurd (omega arith)
  get_or-fresh_cells i (suc n) zero h = rw add-zero
  get_or-fresh_cells i (suc n) (suc k) h =
      get_or-fresh_cells (i + 1) n k (omega arith)
      ∙ ap {B = Cell A} (λ s. record { seq = s; storage = none }) (omega arith)

  -- The constructor numbers each slot with its index.
  pub create-IsValid :
      (capacity n : ℕ)
      → 0 < capacity
      → capacity ≤ 2 ^ 62
      → capacity + n < size_mod
      → IsValid n (create {A = A} capacity)
  unfolding create
  create-IsValid capacity n pos small fits = record {
    nonempty = pos;
    small = small;
    cells = record {
      slots = length-fresh_cells A 0 capacity;
      ordered = omega arith;
      bounded = omega arith;
      published = λ k le lt. absurd (omega arith);
      free = λ k le lt. rw (mod-eq_of_lt {n = k} {m = capacity} (omega arith)) (
          get_or-fresh_cells 0 capacity k (omega arith)
          ∙ ap {B = Cell A} (λ s. record { seq = s; storage = none }) (omega arith));
    };
    counted = refl;
    no_wrap = omega arith;
  }

-- ===== src/Queue/Refine.antt =====
-- A valid asynchronous queue behaves as the bounded list of the entries that it holds, and no call
-- of one thread alone waits for ever.
use mathlib.Core.Path.{subst}
use native.Mathlib.Decide.{dec_lt}
use app_simple_log.Prelude.{
  ℕ, suc, ◌+◌, ◌-◌, ◌%◌, ◌≤◌, ◌<◌, ◌≡◌, refl, sym, ap, ◌∙◌, true, false, some, List, [], ◌∷◌, ◌++◌,
  length, set, arith,
}
use app_simple_log.Fifo.{BoundedFifo, offer}
use app_simple_log.Queue.{create, Cell, AsyncQueue, try_push, pop_all}
use app_simple_log.Queue.Rounds.{
  entries, length-entries, entries-publish, released, released-Slots, take_slots_lem,
}
use app_simple_log.Queue.Inv.{Slots, Slots-publish, IsValid}

pub capacity-create : (A : Type 0) (capacity : ℕ) → (create {A = A} capacity).capacity ≡ capacity
unfolding create
capacity-create A capacity = refl

module _ {A : Type 0} where
  -- The entries held, oldest first.
  abbrev pub contents : AsyncQueue A → List A
  contents q = entries q.capacity q.buffer q.head (q.tail - q.head)

  length-contents : (n : ℕ) (q : AsyncQueue A) → IsValid n q → length (contents q) ≡ q.tail - q.head
  length-contents n q v =
      length-entries q.capacity q.buffer q.head (q.tail - q.head)
        (λ k le lt. v.cells.published k le (omega (arith, v.cells.ordered)))

  -- The queue after a push that finds room.
  abbrev pushed : AsyncQueue A → A → AsyncQueue A
  pushed q e = record q {
    buffer = set q.buffer (q.tail % q.capacity) (record { seq = q.tail + 1; storage = some e });
    tail = q.tail + 1;
    size = q.size + 1;
  }

  try_push_full :
      (n : ℕ) (q : AsyncQueue A) (e : A)
      → IsValid n q
      → q.capacity ≤ q.tail - q.head
      → try_push q e ≡ some (false, q)
  unfolding try_push
  try_push_full n q e v full = ground (arith, v.cells.ordered)

  try_push_room :
      (n : ℕ) (q : AsyncQueue A) (e : A)
      → IsValid n q
      → q.tail < q.head + q.capacity
      → try_push q e ≡ some (true, pushed q e)
  unfolding try_push
  try_push_room n q e v room =
      ground (arith, v.cells.ordered, v.cells.free q.tail (omega arith) room)

  pub IsValid-weaken : (n : ℕ) (q : AsyncQueue A) → IsValid (suc n) q → IsValid n q
  IsValid-weaken n q v = record {
    nonempty = v.nonempty;
    small = v.small;
    cells = v.cells;
    counted = v.counted;
    no_wrap = omega (arith, v.no_wrap);
  }

  pushed-IsValid :
      (n : ℕ) (q : AsyncQueue A) (e : A)
      → IsValid (suc n) q
      → q.tail < q.head + q.capacity
      → IsValid n (pushed q e)
  pushed-IsValid n q e v room = record {
    nonempty = v.nonempty;
    small = v.small;
    cells = Slots-publish q.capacity q.buffer q.head q.tail e v.cells room;
    counted = omega (arith, v.counted);
    no_wrap = omega (arith, v.no_wrap);
  }

  contents-pushed :
      (n : ℕ) (q : AsyncQueue A) (e : A)
      → IsValid n q
      → q.tail < q.head + q.capacity
      → contents (pushed q e) ≡ contents q ++ e ∷ []
  contents-pushed n q e v room =
      let held : ℕ = q.tail - q.head in
      let same : q.head + held ≡ q.tail = omega (arith, v.cells.ordered) in
      let one_more : q.tail + 1 - q.head ≡ suc held = omega (arith, v.cells.ordered) in
      ap (entries q.capacity (pushed q e).buffer q.head) one_more
      ∙ subst
          (λ t.
            entries q.capacity
              (set q.buffer (t % q.capacity) (record { seq = t + 1; storage = some e })) q.head
              (suc held)
            ≡ contents q ++ e ∷ [])
          same
          (entries-publish q.capacity q.buffer q.head held e
            (subst (λ t. Slots q.capacity q.buffer q.head t) (sym same) v.cells) (omega arith))

  -- On a valid queue with room for one more ticket, `tryPush` returns and is `offer`: it takes the entry
  -- as the last one while fewer than the capacity are held, and otherwise refuses it and keeps what it
  -- holds; the capacity stays and the queue is valid.
  pub push_offers :
      (n : ℕ) (q : AsyncQueue A) (e : A)
      → IsValid (suc n) q
      → (q' : AsyncQueue A) × (try_push q e ≡ some ((offer q.capacity (contents q) e).0, q'))
        × (contents q' ≡ (offer q.capacity (contents q) e).1)
        × (q'.capacity ≡ q.capacity)
        × IsValid n q'
  push_offers n q e v = elim (dec_lt q.tail (q.head + q.capacity)) [
    | yes room ↦ (
      pushed q e,
      ground
          (arith, try_push_room (suc n) q e v room, length-contents (suc n) q v, v.cells.ordered),
      ground
          (arith, contents-pushed (suc n) q e v room, length-contents (suc n) q v, v.cells.ordered),
      refl,
      pushed-IsValid n q e v room,
    )
    | no full ↦ (
      q,
      ground (arith, try_push_full (suc n) q e v, length-contents (suc n) q v, v.cells.ordered),
      ground (arith, length-contents (suc n) q v, v.cells.ordered),
      refl,
      IsValid-weaken n q v,
    )
  ]

  -- The queue after all tickets are taken.
  abbrev drained : AsyncQueue A → AsyncQueue A
  drained q = record q {
    buffer = released q.capacity q.buffer q.head (q.tail - q.head);
    head = q.tail;
    size = 0;
  }

  drained-IsValid : (n : ℕ) (q : AsyncQueue A) → IsValid n q → IsValid n (drained q)
  drained-IsValid n q v = record {
    nonempty = v.nonempty;
    small = v.small;
    cells =
        subst (λ h. Slots q.capacity (drained q).buffer h q.tail) (omega (arith, v.cells.ordered))
          (released-Slots q.capacity q.buffer q.head (q.tail - q.head) q.tail v.cells
            (omega (arith, v.cells.ordered)));
    counted = omega arith;
    no_wrap = v.no_wrap;
  }

  pop_all_empty :
      (n : ℕ) (q : AsyncQueue A) → IsValid n q → q.tail ≡ q.head → pop_all q ≡ some ([], q)
  unfolding pop_all
  pop_all_empty n q v e = ground arith

  pop_all_held :
      (n : ℕ) (q : AsyncQueue A)
      → IsValid n q
      → q.head < q.tail
      → pop_all q ≡ some (contents q, drained q)
  unfolding pop_all
  pop_all_held n q v lt = ground (
    arith,
    take_slots_lem q.head 0 q.head (q.tail - q.head) q.tail [] q (omega arith) v.cells (omega arith)
        (omega (arith, v.no_wrap)),
    v.counted,
    v.no_wrap,
  )

  no_entries :
      (q : AsyncQueue A) (cells : List (Cell A)) (h t : ℕ)
      → t ≡ h
      → entries q.capacity cells h (t - h) ≡ []
  no_entries q cells h t e = ap {B = List A} (entries q.capacity cells h) {y = 0} (omega arith)

  pub contents-create : (capacity : ℕ) → contents (create {A = A} capacity) ≡ []
  unfolding create
  contents-create capacity = refl

  -- On a valid queue, `popAll` returns all entries in the order in which they were pushed, leaves none,
  -- and keeps the capacity; the queue is valid.
  pub pop_drains :
      (n : ℕ) (q : AsyncQueue A)
      → IsValid n q
      → (q' : AsyncQueue A) × (pop_all q ≡ some (contents q, q'))
        × (contents q' ≡ [])
        × (q'.capacity ≡ q.capacity)
        × IsValid n q'
  pop_drains n q v = elim (dec_lt q.head q.tail) [
    | yes held ↦ (
      drained q,
      pop_all_held n q v held,
      no_entries q (drained q).buffer q.tail q.tail refl,
      refl,
      drained-IsValid n q v,
    )
    | no none_held ↦
        let same : q.tail ≡ q.head = omega (arith, v.cells.ordered) in
        let nothing = no_entries q q.buffer q.head q.tail same in
        (q, pop_all_empty n q v same ∙ ap (λ l. some (l, q)) (sym nothing), nothing, refl, v)
  ]

  -- The asynchronous queue fills the interface that the logger uses.
  abbrev pub fifo : BoundedFifo A (AsyncQueue A)
  fifo = record {
    capacity = λ q. q.capacity;
    contents = contents;
    IsValid = IsValid;
    try_push = try_push;
    pop_all = pop_all;
    weaken = IsValid-weaken;
    push_offers = push_offers;
    pop_drains = pop_drains;
  }

-- ===== src/Queue.antt =====
-- AsyncQueue: src/include/speckit/log/async_queue.h and src/src/async_queue.cpp, run by one thread
-- at a time: each atomic load, store, exchange and fetch is a read or a write of the record, and a
-- compare-exchange of a value just loaded succeeds.
pub mod Inv
mod Rounds
pub mod Refine
pub mod Threads
mod Tests
use app_simple_log.Prelude.{
  ℕ, zero, suc, ◌+◌, ◌-◌, ◌%◌, Bool, true, false, List, [], ◌∷◌, ◌++◌, Option, none, some, get_or,
  set, add_size, sub_size, ◌==◌, leb, if◌then◌else◌,
}

-- A slot: a sequence number, and the entry while there is one.
pub record Cell (A : Type 0) : Type 0 where
  pub seq : ℕ
  pub storage : Option A

pub record AsyncQueue (A : Type 0) : Type 0 where
  pub buffer : List (Cell A)
  pub capacity : ℕ
  pub tail : ℕ
  pub head : ℕ
  pub size : ℕ

module _ {A : Type 0} where
  -- A cell outside the array.
  abbrev pub no_cell : Cell A
  no_cell = record { seq = 0; storage = none }

  abbrev pub cell : AsyncQueue A → ℕ → Cell A
  cell q pos = get_or q.buffer pos no_cell

  -- The constructor's loop: `n` cells from index `i` on, each with its index for a number.
  pub fresh_cells : ℕ → ℕ → List (Cell A)
  fresh_cells i zero = []
  fresh_cells i (suc n) = record { seq = i; storage = none } ∷ fresh_cells (i + 1) n

  -- The assertion on the capacity is the caller's duty.
  pub create : ℕ → AsyncQueue A
  unfolding fresh_cells
  create capacity = record {
    buffer = fresh_cells 0 capacity;
    capacity = capacity;
    tail = 0;
    head = 0;
    size = 0;
  }

  -- `none`: the ticket is taken, and the wait for its slot never ends.
  pub try_push : AsyncQueue A → A → Option (Bool × AsyncQueue A)
  try_push q entry =
      let cap = q.capacity in
      let current_tail = q.tail in
      let current_head = q.head in
      if leb cap (sub_size current_tail current_head)
      then some (false, q)
      else (let q₁ = record q { tail = add_size current_tail 1 } in
          let pos = current_tail % cap in
          if (cell q₁ pos).seq == current_tail
          then some (
            true,
            record q₁ {
              buffer =
                  set q₁.buffer pos
                    (record { seq = add_size current_tail 1; storage = some entry });
              size = add_size q₁.size 1;
            },
          )
          else none)

  -- One round of `popAll`: the entry of ticket `ticket`, if the slot holds one, and the slot free
  -- for the ticket a capacity later. `none`: the wait for the slot never ends.
  pub take_slot : AsyncQueue A → ℕ → Option (List A × AsyncQueue A)
  take_slot q ticket =
      let idx = ticket % q.capacity in
      let expected = add_size ticket 1 in
      if (cell q idx).seq == expected
      then some (
        elim (cell q idx).storage [ none ↦ [] | some e ↦ e ∷ [] ],
        record q {
          buffer = set q.buffer idx (record { seq = add_size ticket q.capacity; storage = none });
        },
      )
      else none

  -- The loop of `popAll`: `n` rounds from round `i` on, over what is gathered already.
  pub take_slots : ℕ → ℕ → ℕ → List A → AsyncQueue A → Option (List A × AsyncQueue A)
  take_slots head i zero result q = some (result, q)
  take_slots head i (suc n) result q = elim (take_slot q (add_size head i)) [
    | none ↦ none
    | some (es, q') ↦ take_slots head (i + 1) n (result ++ es) q'
  ]

  pub pop_all : AsyncQueue A → Option (List A × AsyncQueue A)
  unfolding take_slots take_slot
  pop_all q =
      let head = q.head in
      let tail = q.tail in
      let available = if leb head tail then tail - head else 0 in
      if available == 0 then some ([], q) else elim (take_slots head 0 available [] q) [
        | none ↦ none
        | some (result, q') ↦ some (
          result,
          record q' { head = add_size head available; size = sub_size q'.size available },
        )
      ]

  -- The loop of the destructor, `n` rounds from round `i` on.
  pub reset_slots : ℕ → ℕ → ℕ → AsyncQueue A → AsyncQueue A
  reset_slots head i zero q = q
  reset_slots head i (suc n) q =
      let pos = add_size head i % q.capacity in
      reset_slots head (i + 1) n (elim (cell q pos).storage [
        | none ↦ q
        | some e ↦ record q {
          buffer = set q.buffer pos (record { seq = (cell q pos).seq; storage = none });
        }
      ])

  -- What the destructor leaves of the entries.
  pub destroy : AsyncQueue A → AsyncQueue A
  unfolding reset_slots
  destroy q = reset_slots q.head 0 (if leb q.head q.tail then q.tail - q.head else 0) q

  pub is_empty : AsyncQueue A → Bool
  is_empty q = q.size == 0

-- ===== src/Ring.antt =====
-- RingBuffer: src/include/speckit/log/log_buffer.h and src/src/log_buffer.cpp, the buffer that
-- takes an entry when the asynchronous queue is full. One call at a time runs here: each atomic
-- load, store and fetch is a read or a write of the record.
pub mod Inv
pub mod Refine
pub mod Threads
mod Tests
use app_simple_log.Prelude.{
  ℕ, zero, suc, ◌+◌, ◌%◌, Bool, true, false, List, [], ◌∷◌, get_or, set, replicate, add_size,
  sub_size, ◌==◌, leb, if◌then◌else◌,
}

pub record RingBuffer (A : Type 0) : Type 0 where
  pub buffer : List A
  pub head : ℕ
  pub tail : ℕ
  pub size : ℕ
  pub capacity : ℕ

-- `blank` is a default-constructed entry: what `std::make_unique<LogEntry[]>` fills the slots with,
-- and what a read outside of them gives.
module _ {A : Type 0} (blank : A) where
  pub create : ℕ → RingBuffer A
  create capacity = record {
    buffer = replicate capacity blank;
    head = 0;
    tail = 0;
    size = 0;
    capacity = capacity;
  }

  -- The loop of `popAll`, `n` rounds from round `i` on. Moving from a slot copies its fields, so
  -- the slot keeps its value.
  pub collect : List A → ℕ → ℕ → ℕ → ℕ → List A
  collect buffer capacity tail i zero = []
  collect buffer capacity tail i (suc n) =
      get_or buffer (add_size tail i % capacity) blank
      ∷ collect buffer capacity tail (add_size i 1) n

  pub pop_all : RingBuffer A → List A × RingBuffer A
  unfolding collect
  pop_all r =
      let old_size = r.size in
      let r₁ = record r { size = 0 } in
      if old_size == 0
      then ([], r₁)
      else (let current_tail = r₁.tail in
          let new_tail = add_size current_tail old_size % r.capacity in
          (collect r₁.buffer r.capacity current_tail 0 old_size, record r₁ { tail = new_tail }))

module _ {A : Type 0} where
  -- The size is read, raised, and tested again before the head is taken.
  pub try_push : RingBuffer A → A → Bool × RingBuffer A
  try_push r entry =
      let current_size = r.size in
      if leb r.capacity current_size
      then (false, r)
      else (let old_size = r.size in
          let r₁ = record r { size = add_size old_size 1 } in
          if leb r.capacity old_size
          then (false, record r₁ { size = sub_size r₁.size 1 })
          else (let current_head = r₁.head in
              let r₂ = record r₁ { head = add_size current_head 1 } in
              (true, record r₂ { buffer = set r₂.buffer (current_head % r.capacity) entry })))

  pub is_empty : RingBuffer A → Bool
  is_empty r = r.size == 0

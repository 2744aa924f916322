-- ===== src/Ring/Threads.antt =====
-- The ring buffer shared by threads: src/src/log_buffer.cpp with one step for each access to an
-- atomic or to a slot. A step that only reads an atomic also takes the branch that follows.
pub mod Wrap
pub mod Calls
mod Tests
use app_simple_log.Prelude.{
  ℕ, zero, suc, ◌+◌, ◌%◌, ◌≤◌, ◌<◌, ◌≡◌, ◌≢◌, Bool, true, false, List, [], ◌∷◌, ◌++◌, get_or, set,
  add_size, sub_size,
}
use app_simple_log.Interleave.{Threads, Reachable}
use app_simple_log.Ring.{RingBuffer, create}

-- The buffer, and what no step reads: what the calls of `popAll` and of `tryPush` have returned.
pub record Shared (A : Type 0) : Type 0 where
  pub ring : RingBuffer A
  pub delivered : List A
  pub answers : List Bool

-- Where a thread stands, with the local variables that are live there.
pub data Pc (A : Type 0) : Type 0 where
  idle : Pc A
  pushing : A → Pc A  -- start of `tryPush`
  raising : A → Pc A  -- behind the first test
  lowering : Pc A  -- behind the second test, the buffer was full
  heading : A → Pc A
  writing : A → ℕ → Pc A  -- with `current_head`
  popping : Pc A  -- start of `popAll`
  tailing : ℕ → Pc A  -- with `old_size`
  gathering : ℕ → ℕ → ℕ → List A → Pc A  -- `old_size`, `current_tail`, `i` and `entries`
  storing : ℕ → ℕ → List A → Pc A  -- before the tail is stored

-- One step of one thread.
pub data Move {A : Type 0} (blank : A) (m : Shared A) : Pc A → Shared A → Pc A → Type 0 where
  push : (e : A) → Move blank m idle m (pushing e)
  full :
      {e : A}
      → m.ring.capacity ≤ m.ring.size
      → Move blank m (pushing e) (record m { answers = m.answers ++ false ∷ [] }) idle
  room : {e : A} → m.ring.size < m.ring.capacity → Move blank m (pushing e) m (raising e)
  raise :
      {e : A}
      → m.ring.size < m.ring.capacity
      → Move blank m
          (raising e)
          (record m { ring = record (m.ring) { size = add_size m.ring.size 1 } })
          (heading e)
  overshoot :
      {e : A}
      → m.ring.capacity ≤ m.ring.size
      → Move blank m
          (raising e)
          (record m { ring = record (m.ring) { size = add_size m.ring.size 1 } })
          lowering
  lower :
      Move blank m lowering
        (record m {
          ring = record (m.ring) { size = sub_size m.ring.size 1 };
          answers = m.answers ++ false ∷ [];
        })
        idle
  take_head :
      {e : A}
      → Move blank m
          (heading e)
          (record m { ring = record (m.ring) { head = add_size m.ring.head 1 } })
          (writing e m.ring.head)
  write :
      {e : A} {h : ℕ}
      → Move blank m
          (writing e h)
          (record m {
            ring = record (m.ring) { buffer = set m.ring.buffer (h % m.ring.capacity) e };
            answers = m.answers ++ true ∷ [];
          })
          idle
  pop : Move blank m idle m popping
  exchange_none :
      m.ring.size ≡ 0 → Move blank m popping (record m { ring = record (m.ring) { size = 0 } }) idle
  exchange :
      m.ring.size ≢ 0
      → Move blank m popping
          (record m { ring = record (m.ring) { size = 0 } })
          (tailing m.ring.size)
  load_tail : {n : ℕ} → Move blank m (tailing n) m (gathering n m.ring.tail 0 [])
  gather :
      {n t j : ℕ} {entries : List A}
      → j < n
      → Move blank m (gathering n t j entries) m (
          gathering n t
            (suc j)
            (entries ++ get_or m.ring.buffer (add_size t j % m.ring.capacity) blank ∷ []))
  finish :
      {n t j : ℕ} {entries : List A}
      → n ≤ j
      → Move blank m (gathering n t j entries) m (storing n t entries)
  store_tail :
      {n t : ℕ} {entries : List A}
      → Move blank m
          (storing n t entries)
          (record m {
            ring = record (m.ring) { tail = add_size t n % m.ring.capacity };
            delivered = m.delivered ++ entries;
          })
          idle

abbrev pub System : Type 0 → Type 0
System A = Threads (Shared A) (Pc A)

-- A new buffer that no thread uses.
abbrev pub init : {A : Type 0} → A → ℕ → System A
init blank capacity = record {
  mem = record { ring = create blank capacity; delivered = []; answers = [] };
  pc = λ i. idle;
}

-- Every thread may push and pop.
abbrev pub Moves : {A : Type 0} → A → ℕ → Shared A → Pc A → Shared A → Pc A → Type 0
Moves blank i = Move blank

abbrev pub Reach : {A : Type 0} → A → ℕ → System A → Type 0
Reach blank capacity = Reachable (Moves blank) (init blank capacity)

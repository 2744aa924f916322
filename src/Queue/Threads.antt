-- ===== src/Queue/Threads.antt =====
-- The asynchronous queue shared by threads: src/src/async_queue.cpp with one step for each access to
-- an atomic or to a slot's storage, in the order of the program (moving an entry out and resetting its
-- storage are one). Any number of threads push; a thread
-- for which `pops` is true may also call `popAll`.
pub mod Inv
mod Keep
mod Places
mod Producer
mod Filling
mod Consumer
mod Draining
mod Preserve
pub mod Safety
mod Progress
pub mod Return
pub mod Whole
mod WholePop
pub mod Calls
pub mod Consumers
mod Tests
use app_simple_log.Prelude.{
  ℕ, suc, ◌+◌, ◌-◌, ◌%◌, ◌≤◌, ◌<◌, ◌≡◌, ◌≢◌, Bool, true, false, List, [], ◌∷◌, ◌++◌, Option, none,
  some, add_size, sub_size, leb, set, update, if◌then◌else◌,
}
use app_simple_log.Interleave.{Threads, Reachable}
use app_simple_log.Queue.{Cell, AsyncQueue, create}
use app_simple_log.Queue.Inv.{slot}

-- The queue, and what the proofs remember of its past, which no step reads: how many tickets were
-- handed out, the entry of each, how many were taken from their slots, how many slots were given back,
-- and what the calls of `popAll` have returned.
pub record Shared (A : Type 0) : Type 0 where
  pub queue : AsyncQueue A
  pub issued : ℕ
  pub ledger : ℕ → A
  pub taken : ℕ
  pub freed : ℕ
  pub delivered : List A

-- Where a thread stands, with the local variables that are live there.
pub data Pc (A : Type 0) : Type 0 where
  idle : Pc A
  pushing : A → Pc A  -- head of the loop in `tryPush`
  saw_tail : A → ℕ → Pc A
  reserving : A → ℕ → Pc A  -- before the compare-exchange
  waiting : A → ℕ → Pc A  -- the inner loop, with a ticket
  filling : A → ℕ → Pc A
  publishing : ℕ → Pc A
  counting : Pc A
  popping : Pc A  -- start of `popAll`
  saw_head : ℕ → Pc A
  draining : ℕ → ℕ → ℕ → List A → Pc A  -- the loop: `head`, `available`, `i` and `result`
  taking : ℕ → ℕ → ℕ → List A → Pc A
  freeing : ℕ → ℕ → ℕ → List A → Pc A
  advancing : ℕ → ℕ → List A → Pc A
  uncounting : ℕ → Pc A

abbrev pub available : ℕ → ℕ → ℕ
available head tail = if leb head tail then tail - head else 0

module _ {A : Type 0} where
  abbrev pub cell_at : Shared A → ℕ → Cell A
  cell_at m ticket = slot m.queue.capacity m.queue.buffer ticket

  -- A write of a ticket's slot.
  abbrev pub with_cell : Shared A → ℕ → Cell A → AsyncQueue A
  with_cell m ticket c = record (m.queue) {
    buffer = set m.queue.buffer (ticket % m.queue.capacity) c;
  }

  -- What the move of a slot's storage adds to the result.
  abbrev pub moved : Option A → List A
  moved none = []
  moved (some e) = e ∷ []

  -- The test for a full queue.
  abbrev pub refuses : Shared A → ℕ → Bool
  refuses m tail = leb m.queue.capacity (sub_size tail m.queue.head)

-- One step of one thread. A weak compare-exchange may fail also where the values agree.
pub data Move {A : Type 0} (pops : Bool) (m : Shared A) : Pc A → Shared A → Pc A → Type 0 where
  push : (e : A) → Move pops m idle m (pushing e)
  load_tail : {e : A} → Move pops m (pushing e) m (saw_tail e m.queue.tail)
  refuse : {e : A} {t : ℕ} → refuses m t ≡ true → Move pops m (saw_tail e t) m idle
  accept : {e : A} {t : ℕ} → refuses m t ≡ false → Move pops m (saw_tail e t) m (reserving e t)
  reserve :
      {e : A} {t : ℕ}
      → m.queue.tail ≡ t
      → Move pops m
          (reserving e t)
          (record m {
            queue = record (m.queue) { tail = add_size t 1 };
            issued = m.issued + 1;
            ledger = update m.ledger m.issued e;
          })
          (waiting e t)
  retry : {e : A} {t : ℕ} → Move pops m (reserving e t) m (pushing e)
  spin : {e : A} {t : ℕ} → (cell_at m t).seq ≢ t → Move pops m (waiting e t) m (waiting e t)
  enter : {e : A} {t : ℕ} → (cell_at m t).seq ≡ t → Move pops m (waiting e t) m (filling e t)
  emplace :
      {e : A} {t : ℕ}
      → Move pops m
          (filling e t)
          (record m {
            queue = with_cell m t (record { seq = (cell_at m t).seq; storage = some e });
          })
          (publishing t)
  publish :
      {t : ℕ}
      → Move pops m
          (publishing t)
          (record m {
            queue = with_cell m t (record { seq = add_size t 1; storage = (cell_at m t).storage });
          })
          counting
  count :
      Move pops m counting
        (record m { queue = record (m.queue) { size = add_size m.queue.size 1 } })
        idle
  pop : pops ≡ true → Move pops m idle m popping
  load_head : Move pops m popping m (saw_head m.queue.head)
  leave : {h : ℕ} → available h m.queue.tail ≡ 0 → Move pops m (saw_head h) m idle
  begin :
      {h : ℕ}
      → available h m.queue.tail ≢ 0
      → Move pops m (saw_head h) m (draining h (available h m.queue.tail) 0 [])
  await :
      {h n j : ℕ} {result : List A}
      → j < n
      → (cell_at m (add_size h j)).seq ≢ add_size (add_size h j) 1
      → Move pops m (draining h n j result) m (draining h n j result)
  ready :
      {h n j : ℕ} {result : List A}
      → j < n
      → (cell_at m (add_size h j)).seq ≡ add_size (add_size h j) 1
      → Move pops m (draining h n j result) m (taking h n j result)
  take_entry :
      {h n j : ℕ} {result : List A}
      → Move pops m
          (taking h n j result)
          (record m {
            queue =
                with_cell m
                  (add_size h j)
                  (record { seq = (cell_at m (add_size h j)).seq; storage = none });
            taken = m.taken + 1;
          })
          (freeing h n j (result ++ moved (cell_at m (add_size h j)).storage))
  free_slot :
      {h n j : ℕ} {result : List A}
      → Move pops m
          (freeing h n j result)
          (record m {
            queue = with_cell m (add_size h j) (record {
              seq = add_size (add_size h j) m.queue.capacity;
              storage = (cell_at m (add_size h j)).storage;
            });
            freed = m.freed + 1;
          })
          (draining h n (suc j) result)
  finish :
      {h n j : ℕ} {result : List A}
      → n ≤ j
      → Move pops m (draining h n j result) m (advancing h n result)
  advance :
      {h n : ℕ} {result : List A}
      → Move pops m
          (advancing h n result)
          (record m {
            queue = record (m.queue) { head = add_size h n };
            delivered = m.delivered ++ result;
          })
          (uncounting n)
  uncount :
      {n : ℕ}
      → Move pops m
          (uncounting n)
          (record m { queue = record (m.queue) { size = sub_size m.queue.size n } })
          idle

abbrev pub System : Type 0 → Type 0
System A = Threads (Shared A) (Pc A)

-- A new queue that no thread uses. The ledger holds `blank` for tickets that are not handed out.
abbrev pub init : {A : Type 0} → A → ℕ → System A
init blank capacity = record {
  mem = record {
    queue = create capacity;
    issued = 0;
    ledger = λ t. blank;
    taken = 0;
    freed = 0;
    delivered = [];
  };
  pc = λ i. idle;
}

-- What each thread may do.
abbrev pub Moves : {A : Type 0} → (ℕ → Bool) → ℕ → Shared A → Pc A → Shared A → Pc A → Type 0
Moves pops i = Move (pops i)

abbrev pub Reach : {A : Type 0} → (ℕ → Bool) → A → ℕ → System A → Type 0
Reach pops blank capacity = Reachable (Moves pops) (init blank capacity)

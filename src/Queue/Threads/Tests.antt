-- ===== src/Queue/Threads/Tests.antt =====
-- A run of two producers and the consumer on a queue of capacity 2, and the theorems at its states.
use app_simple_log.Prelude.{
  add_size, none, ℕ, ◌<◌, ◌≤◌, ◌≡◌, ◌≢◌, ◌⊎◌, ◌↔◌, ◌==◌, refl, Bool, true, [], ◌∷◌, ◌++◌, some,
  window, arith,
}
use app_simple_log.Interleave.{Runs, Solo, done, next, pick, start, later}
use app_simple_log.Queue.{
  create, AsyncQueue, try_push, pop_all, take_slots, take_slot, destroy, reset_slots,
}
use app_simple_log.Queue.Inv.{Slots}
use app_simple_log.Queue.Refine.{contents}
use app_simple_log.Queue.Threads.{
  draining, idle, Shared, Pc, cell_at, refuses, Move, push, load_tail, accept, reserve, enter,
  emplace, publish, count, popping, pop, load_head, saw_head, begin, ready, take_entry, free_slot,
  finish, advance, uncount, System, Moves, init, Reach,
}
use app_simple_log.Queue.Threads.Inv.{ticket}
use app_simple_log.Queue.Threads.Safety.{
  IsAllowed, delivered_in_order, ticket_exclusive, refused_iff, rest_holds_all,
}
use app_simple_log.Queue.Threads.Whole.{Step}
use app_simple_log.Queue.Threads.Calls.{pushes, pops_all, sequential, sequential-Solo}
use app_simple_log.Queue.Threads.Consumers.{second_consumer_waits}
use app_simple_log.Queue.Threads.Return.{pop_all_returns}

abbrev consumer_is_0 : ℕ → Bool
consumer_is_0 i = i == 0

two_allowed : IsAllowed {A = ℕ} consumer_is_0 0 2
two_allowed = record { only = λ i e. ground arith; nonempty = omega arith; small = omega arith }

-- A state and how it is reached.
abbrev Run : Type 0
Run = (s : System ℕ) × Reach {A = ℕ} consumer_is_0 0 2 s

abbrev then :
    (i : ℕ) (r : Run) {m : Shared ℕ} {p : Pc ℕ}
    → Move (consumer_is_0 i) r.0.mem (r.0.pc i) m p
    → Run
then i r mv = (_, later r.1 (pick i mv))

abbrev begun : Run
begun = (init {A = ℕ} 0 2, start)

-- Thread 1 holds the ticket of 7.
abbrev one_ticket : Run
unfolding create
one_ticket = then 1 (then 1 (then 1 (then 1 begun (push 7)) load_tail) (accept refl)) (reserve refl)

abbrev two_tickets : Run
unfolding create
two_tickets =
    then 2 (then 2 (then 2 (then 2 one_ticket (push 9)) load_tail) (accept refl)) (reserve refl)

-- Thread 3 has read the tail, and finds the queue full.
abbrev third_asks : Run
unfolding create
third_asks = then 3 (then 3 two_tickets (push 4)) load_tail

-- The consumer waits for the first slot.
abbrev one_waits : Run
unfolding create
one_waits = then 0 (then 0 (then 0 two_tickets (pop refl)) load_head) (begin some_available)
  where
    some_available : ◌≢◌ {A = ℕ} 2 0
    some_available = omega arith

abbrev both_published : Run
unfolding create
both_published =
    then 2
      (then 2
        (then 2
          (then 2
            (then 1 (then 1 (then 1 (then 1 one_waits (enter {t = 0} refl)) emplace) publish) count)
            (enter {t = 1} refl))
          emplace)
        publish)
      count

abbrev emptied : Run
unfolding create
emptied =
    then 0
      (then 0
        (then 0
          (then 0
            (then 0
              (then 0
                (then 0
                  (then 0 (then 0 both_published (ready {j = 0} (omega arith) refl)) take_entry)
                  free_slot)
                (ready (omega arith) refl))
              take_entry)
            free_slot)
          (finish (omega arith)))
        advance)
      uncount

abbrev one_more : Run
unfolding create
one_more =
    then 1
      (then 1
        (then 1
          (then 1
            (then 1 (then 1 (then 1 (then 1 emptied (push 5)) load_tail) (accept refl))
              (reserve refl))
            (enter {t = 2} refl))
          emplace)
        publish)
      count

one_more_delivers : one_more.0.mem.delivered ≡ 7 ∷ 9 ∷ []
unfolding create
one_more_delivers = refl

delivered_in_order_example :
    (one_more.0.mem.delivered ≡ window one_more.0.mem.ledger 0 2) × (2 ≤ 3) × (3 ≤ 4)
unfolding create
delivered_in_order_example =
    delivered_in_order consumer_is_0 0 2 one_more.1 two_allowed (omega arith)

ticket_exclusive_example :
    ((cell_at two_tickets.0.mem 0).seq ≡ 0) × (ticket (two_tickets.0.pc 2) ≢ some 0)
unfolding create
ticket_exclusive_example =
    ticket_exclusive consumer_is_0 0 2 two_tickets.1 two_allowed (omega arith) 1 2 7 0 (omega arith)
      refl

refused_iff_example : (refuses third_asks.0.mem 2 ≡ true) ↔ ((2 ≤ 2) ⊎ (2 < 0))
unfolding create
refused_iff_example =
    refused_iff consumer_is_0 0 2 third_asks.1 two_allowed (omega arith) 3 4 2 refl

pop_all_returns_example :
    (k : ℕ) × (k ≤ 15)
    × (s' : System ℕ) × Runs (Moves consumer_is_0) k one_waits.0 s'
    × (s'.pc 0 ≡ idle)
    × (s'.mem.issued ≡ 2)
    × (s'.mem.queue.head ≡ 2)
    × (s'.mem.delivered ≡ window s'.mem.ledger 0 2)
unfolding create
pop_all_returns_example =
    pop_all_returns consumer_is_0 0 2 two_allowed one_waits.1 (omega arith) 0 2 0 [] refl

rest_holds_all_example :
    (one_more.0.mem.delivered ++ contents one_more.0.mem.queue ≡ window one_more.0.mem.ledger 0 3)
    × Slots 2 one_more.0.mem.queue.buffer 2 3
unfolding create
rest_holds_all_example =
    rest_holds_all consumer_is_0 0 2 one_more.1 two_allowed (omega arith) (λ i. ground arith)

-- The new queue after a push of 7, and what its `popAll` leaves.
abbrev holds_7 : AsyncQueue ℕ
holds_7 = record {
  buffer = record { seq = 1; storage = some 7 } ∷ record { seq = 1; storage = none } ∷ [];
  capacity = 2;
  tail = 1;
  head = 0;
  size = 1;
}

abbrev drained_of_7 : AsyncQueue ℕ
drained_of_7 = record {
  buffer = record { seq = 2; storage = none } ∷ record { seq = 1; storage = none } ∷ [];
  capacity = 2;
  tail = 1;
  head = 1;
  size = 0;
}

abbrev before_pop : Shared ℕ
before_pop = record ((init {A = ℕ} 0 2).mem) { queue = holds_7 }

-- A call of `popAll` that has read the head.
pop_begun : Solo (Step true) before_pop popping before_pop (saw_head 0)
pop_begun = next (refl, refl, load_head) done

sequential-Solo_example :
    (m' : Shared ℕ) × Solo (Step true) before_pop (saw_head 0) m' idle
    × (m'.queue ≡ drained_of_7)
    × (m'.issued ≡ 0)
    × (m'.delivered ≡ 7 ∷ [])
unfolding create pop_all take_slots take_slot
sequential-Solo_example =
    sequential-Solo pops_all before_pop before_pop (saw_head 0) drained_of_7 0 (7 ∷ [])
      (omega arith) refl refl pop_begun

first_push : sequential (pushes 7) (init {A = ℕ} 0 2).mem.queue ≡ some (holds_7, 1, [])
unfolding create try_push
first_push = refl

holds_7-destroy :
    (destroy holds_7).buffer
    ≡ record { seq = 1; storage = none } ∷ record { seq = 1; storage = none } ∷ []
unfolding destroy reset_slots
holds_7-destroy = refl

second_consumer_waits_example :
    (s : System ℕ) × Reach {A = ℕ} (λ i. true) 0 2 s
    × (s.mem.delivered ≡ 7 ∷ [])
    × (s.mem.queue.head ≡ s.mem.queue.tail)
    × (s.pc 2 ≡ draining 0 1 0 [])
    × ((cell_at s.mem (add_size 0 0)).seq ≢ add_size (add_size 0 0) 1)
    × ((i : ℕ) → i ≢ 2 → s.pc i ≡ idle)
second_consumer_waits_example =
    second_consumer_waits {A = ℕ} (λ i. true) 0 2 (omega arith) (omega arith) refl refl 7

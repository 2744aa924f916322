-- ===== src/Queue/Tests.antt =====
-- The asynchronous queue at concrete values.
use app_simple_log.Prelude.{ℕ, ◌≡◌, refl, Bool, true, List, Option, [], none, ◌∷◌, some, arith}
use app_simple_log.Fifo.{offer}
use app_simple_log.Queue.{AsyncQueue, create, try_push, pop_all, is_empty}
use app_simple_log.Queue.Inv.{IsValid, create-IsValid}
use app_simple_log.Queue.Refine.{contents, push_offers, pop_drains}

abbrev two_slots : AsyncQueue ℕ
two_slots = create 2

two_slots-IsValid : IsValid 5 two_slots
two_slots-IsValid = create-IsValid 2 5 (omega arith) (omega arith) (omega arith)

push_offers_example :
    (q' : AsyncQueue ℕ) × (try_push two_slots 7
      ≡ some ((offer two_slots.capacity (contents two_slots) 7).0, q'))
    × (contents q' ≡ (offer two_slots.capacity (contents two_slots) 7).1)
    × (q'.capacity ≡ two_slots.capacity)
    × IsValid 4 q'
push_offers_example = push_offers 4 two_slots 7 two_slots-IsValid

abbrev one_held : AsyncQueue ℕ
one_held = (push_offers 4 two_slots 7 two_slots-IsValid).0

pop_drains_example :
    (q' : AsyncQueue ℕ) × (pop_all one_held ≡ some (contents one_held, q'))
    × (contents q' ≡ [])
    × (q'.capacity ≡ one_held.capacity)
    × IsValid 4 q'
pop_drains_example = pop_drains 4 one_held (push_offers 4 two_slots 7 two_slots-IsValid).4

-- A run of a queue with one slot: the entry comes out, and the queue is empty.
abbrev one_slot_run : Option (Bool × List ℕ × Bool)
one_slot_run = elim (try_push {A = ℕ} (create 1) 7) [
  | none ↦ none
  | some (ok, q) ↦ elim (pop_all q) [ none ↦ none | some (es, q') ↦ some (ok, es, is_empty q') ]
]

taken_back : one_slot_run ≡ some (true, 7 ∷ [], true)
unfolding create try_push pop_all is_empty
taken_back = refl

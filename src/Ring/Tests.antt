-- ===== src/Ring/Tests.antt =====
-- The ring buffer at concrete values.
use app_simple_log.Prelude.{ℕ, ◌≡◌, refl, false, [], ◌∷◌, arith}
use app_simple_log.Fifo.{offer}
use app_simple_log.Ring.{RingBuffer, create, try_push, pop_all, is_empty}
use app_simple_log.Ring.Inv.{create-IsValid, try_push-IsValid}
use app_simple_log.Ring.Refine.{contents, try_push_refines, pop_all_refines}

abbrev two_slots : RingBuffer ℕ
two_slots = create 0 2

abbrev one_held : RingBuffer ℕ
one_held = (try_push two_slots 7).1

try_push_refines_example :
    let (taken, r') = try_push one_held 8 in
    ((taken, contents 0 r') ≡ offer one_held.capacity (contents 0 one_held) 8)
    × (r'.capacity ≡ one_held.capacity)
try_push_refines_example =
    try_push_refines 0 3 one_held 8
      (try_push-IsValid 4 two_slots 7 (create-IsValid 0 2 5 (omega arith) (omega arith)))

pop_all_refines_example :
    let (taken, r') = pop_all 0 one_held in
    (taken ≡ contents 0 one_held) × (contents 0 r' ≡ []) × (r'.capacity ≡ one_held.capacity)
pop_all_refines_example =
    pop_all_refines 0 4 one_held
      (try_push-IsValid 4 two_slots 7 (create-IsValid 0 2 5 (omega arith) (omega arith)))

-- A third entry is refused, and the two that are held come out in order.
full_run :
    let r = (try_push (try_push one_held 8).1 9).1 in
    ((try_push (try_push one_held 8).1 9).0 ≡ false)
    × ((pop_all 0 r).0 ≡ 7 ∷ 8 ∷ [])
    × (is_empty r ≡ false)
unfolding create try_push pop_all is_empty
full_run = (refl, refl, refl)

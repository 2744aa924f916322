-- ===== src/Ring/Threads/Tests.antt =====
-- The runs of the shared ring buffer at a concrete capacity.
use app_simple_log.Prelude.{ℕ, ◌-◌, ◌≡◌, ◌≢◌, refl, true, [], ◌∷◌, get_or, size_mod, arith}
use app_simple_log.Interleave.{Solo, done, next}
use app_simple_log.Ring.{RingBuffer, is_empty, pop_all, collect}
use app_simple_log.Ring.Threads.{Shared, popping, tailing, exchange, idle, lowering, System, Reach}
use app_simple_log.Ring.Threads.Calls.{pops_all, whole_call-Solo, Step}
use app_simple_log.Ring.Threads.Wrap.{size_underflows, unwritten_slot_popped}

size_underflows_example :
    (s : System ℕ) × Reach {A = ℕ} 0 2 s
    × (s.mem.ring.size ≡ size_mod - 1)
    × ((i : ℕ) → s.pc i ≢ lowering)
size_underflows_example = size_underflows {A = ℕ} 0 2 (omega arith) (omega arith)

unwritten_slot_popped_example :
    (s : System ℕ) × Reach {A = ℕ} 0 2 s
    × ((i : ℕ) → s.pc i ≡ idle)
    × (s.mem.ring.head ≡ 1)
    × (get_or s.mem.ring.buffer 0 0 ≡ 7)
    × (s.mem.delivered ≡ 0 ∷ [])
    × (is_empty s.mem.ring ≡ true)
unwritten_slot_popped_example = unwritten_slot_popped {A = ℕ} 0 2 (omega arith) (omega arith) 7

abbrev holds_7 : Shared ℕ
holds_7 = record {
  ring = record { buffer = 7 ∷ 0 ∷ []; head = 1; tail = 0; size = 1; capacity = 2 };
  delivered = [];
  answers = [];
}

abbrev emptied : RingBuffer ℕ
emptied = record { buffer = 7 ∷ 0 ∷ []; head = 1; tail = 0; size = 0; capacity = 2 }

-- A call of `popAll` that has taken the size.
begun : Solo (Step 0) holds_7 popping (record holds_7 { ring = emptied }) (tailing 1)
begun = next (refl, exchange (λ z. absurd (omega (arith, z)))) done

whole_call-Solo_example :
    (m' : Shared ℕ) × Solo (Step 0) (record holds_7 { ring = emptied }) (tailing 1) m' idle
    × (m'.ring ≡ record { buffer = 7 ∷ 0 ∷ []; head = 1; tail = 1; size = 0; capacity = 2 })
    × (m'.delivered ≡ 7 ∷ [])
    × (m'.answers ≡ [])
unfolding pop_all collect
whole_call-Solo_example =
    whole_call-Solo {A = ℕ} 0 pops_all holds_7 (record holds_7 { ring = emptied }) (tailing 1)
      (omega arith) begun

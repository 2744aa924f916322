-- ===== src/Ring/Threads/Calls.antt =====
-- The two ways to read the ring buffer's code agree: the operations run whole, and their steps.
use mathlib.Core.Path.{subst}
use app_simple_log.Prelude.{
  true, false, Bool, ℕ, zero, suc, ◌+◌, ◌%◌, ◌<◌, ◌≡◌, refl, sym, ap, Bool, true, false, ◌∙◌, List,
  [], ◌∷◌, ◌++◌, append_assoc, append-nil, get_or, size_mod, add_size, arith,
}
use native.Mathlib.Decide.{dec_lt, ℕ_discrete}
use app_simple_log.Interleave.{Solo-follow, Solo, done, next, Solo-append}
use app_simple_log.Ring.{RingBuffer, try_push, pop_all, collect}
use app_simple_log.Ring.Threads.{
  overshoot, Shared, Pc, idle, push, pop, lower, overshoot, pushing, popping, gathering, storing,
  Move, full, room, raise, take_head, write, exchange_none, exchange, load_tail, gather, finish,
  store_tail,
}

-- A call of an operation that changes the buffer.
pub data Call (A : Type 0) : Type 0 where
  pushes : A → Call A
  pops_all : Call A

abbrev pub rests : {A : Type 0} → Pc A → Bool
rests idle = true
rests p = false

module _ {A : Type 0} (blank : A) where
  -- A step inside of a call.
  abbrev pub Step : Shared A → Pc A → Shared A → Pc A → Type 0
  Step m p m' p' = (rests p ≡ false) × Move blank m p m' p'

  abbrev pub start_of : Call A → Pc A
  start_of (pushes e) = pushing e
  start_of pops_all = popping

  -- What the sequential operation leaves, which entries it returned and what `tryPush` answered.
  abbrev pub whole_call : Call A → RingBuffer A → RingBuffer A × List A × List Bool
  whole_call (pushes e) r = ((try_push r e).1, [], (try_push r e).0 ∷ [])
  whole_call pops_all r = ((pop_all blank r).1, (pop_all blank r).0, [])

  -- The loop of `popAll`, from round `j` on.
  loop-Solo :
      (k n t j : ℕ) (m : Shared A) (entries : List A)
      → j + k ≡ n
      → n < size_mod
      → Solo Step m
          (gathering n t j entries)
          m
          (storing n t (entries ++ collect blank m.ring.buffer m.ring.capacity t j k))
  unfolding collect
  loop-Solo zero n t j m entries at fits =
      next (refl, finish (omega arith))
        (subst (λ l. Solo Step m (storing n t entries) m (storing n t l)) (sym (append-nil entries))
          done)
  loop-Solo (suc k) n t j m entries at fits =
      next (refl, gather (omega arith))
        (subst (λ l. Solo Step m (gathering n t (suc j) (entries ++ here ∷ [])) m (storing n t l))
          (append_assoc entries (here ∷ []) _
            ∙ ap (λ i. entries ++ here ∷ collect blank m.ring.buffer m.ring.capacity t i k)
                {y = add_size j 1} (omega arith))
          (loop-Solo k n t (suc j) m (entries ++ here ∷ []) (omega arith) fits))
    where
      here : A
      here = get_or m.ring.buffer (add_size t j % m.ring.capacity) blank

  whole_run :
      (call : Call A) (m : Shared A)
      → m.ring.size < size_mod
      → (m' : Shared A) × Solo Step m (start_of call) m' idle
        × (m'.ring ≡ (whole_call call m.ring).0)
        × (m'.delivered ≡ m.delivered ++ (whole_call call m.ring).1)
        × (m'.answers ≡ m.answers ++ (whole_call call m.ring).2)
  unfolding try_push pop_all
  whole_run (pushes e) m fits = elim (dec_lt m.ring.size m.ring.capacity) [
    | yes lt ↦ (
      _,
      next (refl, room lt)
          (next (refl, raise lt) (next (refl, take_head) (next (refl, write) done))),
      ground (arith, lt),
      sym (append-nil m.delivered),
      ap (λ b. m.answers ++ b ∷ []) {y = (try_push m.ring e).0} (ground (arith, lt)),
    )
    | no ge ↦ (
      _,
      next (refl, full (omega arith)) done,
      ground (arith, ge),
      sym (append-nil m.delivered),
      ap (λ b. m.answers ++ b ∷ []) {y = (try_push m.ring e).0} (ground (arith, ge)),
    )
  ]
  whole_run pops_all m fits = elim (ℕ_discrete m.ring.size 0) [
    | yes nothing ↦ (
      _,
      next (refl, exchange_none nothing) done,
      ground (arith, nothing),
      sym (append-nil m.delivered)
          ∙ ap (λ l. m.delivered ++ l) {y = (pop_all blank m.ring).0} (ground (arith, nothing)),
      sym (append-nil m.answers),
    )
    | no held ↦ (
      _,
      next (refl, exchange held)
          (next (refl, load_tail)
            (Solo-append (loop-Solo m.ring.size m.ring.size m.ring.tail 0 _ [] (omega arith) fits)
              (next (refl, store_tail) done))),
      ground (arith, held),
      ap (λ l. m.delivered ++ l) {y = (pop_all blank m.ring).0} (ground (arith, held)),
      sym (append-nil m.answers),
    )
  ]

  -- Inside of a call a thread never has two ways to go on.
  Move-one :
      {m m₁ m₂ : Shared A} {p p₁ p₂ : Pc A}
      → rests p ≡ false
      → Move blank m p m₁ p₁
      → Move blank m p m₂ p₂
      → (m₁ ≡ m₂) × (p₁ ≡ p₂)
  Move-one inside (full a) (full b) = (refl, refl)
  Move-one inside (full a) (room b) = absurd (omega (arith, a, b))
  Move-one inside (room a) (full b) = absurd (omega (arith, a, b))
  Move-one inside (room a) (room b) = (refl, refl)
  Move-one inside (raise a) (raise b) = (refl, refl)
  Move-one inside (raise a) (overshoot b) = absurd (omega (arith, a, b))
  Move-one inside (overshoot a) (raise b) = absurd (omega (arith, a, b))
  Move-one inside (overshoot a) (overshoot b) = (refl, refl)
  Move-one inside lower lower = (refl, refl)
  Move-one inside take_head take_head = (refl, refl)
  Move-one inside write write = (refl, refl)
  Move-one inside (exchange_none a) (exchange_none b) = (refl, refl)
  Move-one inside (exchange_none a) (exchange b) = absurd (b a)
  Move-one inside (exchange a) (exchange_none b) = absurd (a b)
  Move-one inside (exchange a) (exchange b) = (refl, refl)
  Move-one inside load_tail load_tail = (refl, refl)
  Move-one inside (gather a) (gather b) = (refl, refl)
  Move-one inside (gather a) (finish b) = absurd (omega (arith, a, b))
  Move-one inside (finish a) (gather b) = absurd (omega (arith, a, b))
  Move-one inside (finish a) (finish b) = (refl, refl)
  Move-one inside store_tail store_tail = (refl, refl)
  Move-one inside (push e) mv = absurd cc
  Move-one inside pop mv = absurd cc

  Step-one :
      (m m₁ m₂ : Shared A) (p p₁ p₂ : Pc A)
      → Step m p m₁ p₁
      → Step m p m₂ p₂
      → (m₁ ≡ m₂) × (p₁ ≡ p₂)
  Step-one m m₁ m₂ p p₁ p₂ (inside, a) (inside', b) = Move-one inside a b

  Step-over : (m m' : Shared A) (p p' : Pc A) → p ≡ idle → ¬ (Step m p m' p')
  Step-over m m' p p' here (inside, mv) = absurd cc

  -- While the size is below 2^64, a call of `tryPush` or of `popAll` that no other thread interrupts,
  -- however far it has gone, goes on to its end, and at the end, which is the only one, it has left
  -- the buffer that the sequential operation leaves, returned the same entries and given the same
  -- answer.
  pub whole_call-Solo :
      (call : Call A) (m m₁ : Shared A) (p₁ : Pc A)
      → m.ring.size < size_mod
      → Solo Step m (start_of call) m₁ p₁
      → (m' : Shared A) × Solo Step m₁ p₁ m' idle
        × (m'.ring ≡ (whole_call call m.ring).0)
        × (m'.delivered ≡ m.delivered ++ (whole_call call m.ring).1)
        × (m'.answers ≡ m.answers ++ (whole_call call m.ring).2)
  whole_call-Solo call m m₁ p₁ fits begun =
      let (m', run, ring_is, delivered_is, answers_are) = whole_run call m fits in
      (m', Solo-follow Step-one idle Step-over begun run, ring_is, delivered_is, answers_are)

-- ===== src/Queue/Threads/Calls.antt =====
-- The two ways to read the queue's code agree: the operations run whole, and their steps.
use app_simple_log.Prelude.{
  ℕ, ◌+◌, ◌<◌, ◌≡◌, refl, sym, ap, ◌∙◌, true, false, List, [], ◌++◌, append-nil, Option,
  Option-cases, none, some, inl, inr, length, if◌then◌else◌, arith,
}
use app_simple_log.Interleave.{Solo, Solo-follow}
use app_simple_log.Queue.{AsyncQueue, try_push, pop_all}
use app_simple_log.Queue.Threads.{
  Shared, Pc, idle, pushing, popping, Move, push, pop, load_tail, refuse, accept, reserve, retry,
  spin, enter, emplace, publish, count, load_head, leave, begin, await, ready, take_entry,
  free_slot, finish, advance, uncount,
}
use app_simple_log.Queue.Threads.Whole.{try_push-Solo, rests, restarts, Step}
use app_simple_log.Queue.Threads.WholePop.{pop_all-Solo}

-- A call of an operation that changes the queue.
pub data Call (A : Type 0) : Type 0 where
  pushes : A → Call A
  pops_all : Call A

module _ {A : Type 0} where
  abbrev pub start_of : Call A → Pc A
  start_of (pushes e) = pushing e
  start_of pops_all = popping

  -- What the sequential operation leaves: the queue, the number of tickets that it took, and what
  -- it returned.
  abbrev pub sequential : Call A → AsyncQueue A → Option (AsyncQueue A × ℕ × List A)
  sequential (pushes e) q = elim (try_push q e) [
    | none ↦ none
    | some (b, q') ↦ some (q', if b then 1 else 0, [])
  ]
  sequential pops_all q = elim (pop_all q) [
    | none ↦ none
    | some (result, q') ↦ some (q', 0, result)
  ]

  whole_run :
      (call : Call A) (m : Shared A) (q' : AsyncQueue A) (tickets : ℕ) (entries : List A)
      → 0 < m.queue.capacity
      → length m.queue.buffer ≡ m.queue.capacity
      → sequential call m.queue ≡ some (q', tickets, entries)
      → (m' : Shared A) × Solo (Step true) m (start_of call) m' idle
        × (m'.queue ≡ q')
        × (m'.issued ≡ m.issued + tickets)
        × (m'.delivered ≡ m.delivered ++ entries)
  whole_run (pushes e) m q' tickets entries pos len ran = elim (Option-cases (try_push m.queue e)) [
    | inl waits ↦ ground (arith, ran, waits)
    | inr ((b, q₁), gives) ↦
        let (m', steps, queue_is, issued_is, delivered_is) =
          try_push-Solo true m e b q₁ pos len gives in
        (
          m',
          steps,
          queue_is ∙ ground (arith, ran, gives),
          ground (arith, ran, gives, issued_is),
          delivered_is
              ∙ sym (append-nil m.delivered)
              ∙ ap (λ l. m.delivered ++ l) {y = entries} (ground (arith, ran, gives)),
        )
  ]
  whole_run pops_all m q' tickets entries pos len ran = elim (Option-cases (pop_all m.queue)) [
    | inl waits ↦ ground (arith, ran, waits)
    | inr ((result, q₁), gives) ↦
        let (m', steps, queue_is, issued_is, delivered_is) =
          pop_all-Solo m result q₁ pos len gives in
        (
          m',
          steps,
          queue_is ∙ ground (arith, ran, gives),
          ground (arith, ran, gives, issued_is),
          delivered_is ∙ ap (λ l. m.delivered ++ l) {y = entries} (ground (arith, ran, gives)),
        )
  ]

  -- Inside of a call a thread has two ways to go on only where a compare-exchange may fail.
  Move-one :
      {m m₁ m₂ : Shared A} {p p₁ p₂ : Pc A}
      → rests p ≡ false
      → restarts p₁ ≡ false
      → restarts p₂ ≡ false
      → Move true m p m₁ p₁
      → Move true m p m₂ p₂
      → (m₁ ≡ m₂) × (p₁ ≡ p₂)
  Move-one inside on₁ on₂ load_tail load_tail = (refl, refl)
  Move-one inside on₁ on₂ (refuse a) (refuse b) = (refl, refl)
  Move-one inside on₁ on₂ (refuse a) (accept b) = absurd cc
  Move-one inside on₁ on₂ (accept a) (refuse b) = absurd cc
  Move-one inside on₁ on₂ (accept a) (accept b) = (refl, refl)
  Move-one inside on₁ on₂ (reserve a) (reserve b) = (refl, refl)
  Move-one inside on₁ on₂ (reserve a) retry = absurd cc
  Move-one inside on₁ on₂ retry mv = absurd cc
  Move-one inside on₁ on₂ (spin a) (spin b) = (refl, refl)
  Move-one inside on₁ on₂ (spin a) (enter b) = absurd (a b)
  Move-one inside on₁ on₂ (enter a) (spin b) = absurd (b a)
  Move-one inside on₁ on₂ (enter a) (enter b) = (refl, refl)
  Move-one inside on₁ on₂ emplace emplace = (refl, refl)
  Move-one inside on₁ on₂ publish publish = (refl, refl)
  Move-one inside on₁ on₂ count count = (refl, refl)
  Move-one inside on₁ on₂ load_head load_head = (refl, refl)
  Move-one inside on₁ on₂ (leave a) (leave b) = (refl, refl)
  Move-one inside on₁ on₂ (leave a) (begin b) = absurd (b a)
  Move-one inside on₁ on₂ (begin a) (leave b) = absurd (a b)
  Move-one inside on₁ on₂ (begin a) (begin b) = (refl, refl)
  Move-one inside on₁ on₂ (await a a') (await b b') = (refl, refl)
  Move-one inside on₁ on₂ (await a a') (ready b b') = absurd (a' b')
  Move-one inside on₁ on₂ (await a a') (finish b) = absurd (omega (arith, a, b))
  Move-one inside on₁ on₂ (ready a a') (await b b') = absurd (b' a')
  Move-one inside on₁ on₂ (ready a a') (ready b b') = (refl, refl)
  Move-one inside on₁ on₂ (ready a a') (finish b) = absurd (omega (arith, a, b))
  Move-one inside on₁ on₂ (finish a) (await b b') = absurd (omega (arith, a, b))
  Move-one inside on₁ on₂ (finish a) (ready b b') = absurd (omega (arith, a, b))
  Move-one inside on₁ on₂ (finish a) (finish b) = (refl, refl)
  Move-one inside on₁ on₂ take_entry take_entry = (refl, refl)
  Move-one inside on₁ on₂ free_slot free_slot = (refl, refl)
  Move-one inside on₁ on₂ advance advance = (refl, refl)
  Move-one inside on₁ on₂ uncount uncount = (refl, refl)
  Move-one inside on₁ on₂ (push e) mv = absurd cc
  Move-one inside on₁ on₂ (pop may) mv = absurd cc

  Step-one :
      (m m₁ m₂ : Shared A) (p p₁ p₂ : Pc A)
      → Step true m p m₁ p₁
      → Step true m p m₂ p₂
      → (m₁ ≡ m₂) × (p₁ ≡ p₂)
  Step-one m m₁ m₂ p p₁ p₂ (inside, on₁, a) (inside', on₂, b) = Move-one inside on₁ on₂ a b

  Step-over : (m m' : Shared A) (p p' : Pc A) → p ≡ idle → ¬ (Step true m p m' p')
  Step-over m m' p p' here (inside, on, mv) = absurd cc

  -- On a queue whose array has its capacity, and that is not zero, take a call of `tryPush` or of
  -- `popAll` for which the sequential operation returns, and which no other thread interrupts and no
  -- compare-exchange fails. However far it has gone, it goes on to its end, and at the end, which is
  -- the only one, it has left the queue that the sequential operation leaves, taken as many
  -- tickets and returned the same entries.
  pub sequential-Solo :
      (call : Call A) (m m₁ : Shared A) (p₁ : Pc A) (q' : AsyncQueue A) (tickets : ℕ)
      (entries : List A)
      → 0 < m.queue.capacity
      → length m.queue.buffer ≡ m.queue.capacity
      → sequential call m.queue ≡ some (q', tickets, entries)
      → Solo (Step true) m (start_of call) m₁ p₁
      → (m' : Shared A) × Solo (Step true) m₁ p₁ m' idle
        × (m'.queue ≡ q')
        × (m'.issued ≡ m.issued + tickets)
        × (m'.delivered ≡ m.delivered ++ entries)
  sequential-Solo call m m₁ p₁ q' tickets entries pos len ran begun =
      let (m', run, queue_is, issued_is, delivered_is) =
        whole_run call m q' tickets entries pos len ran in
      (m', Solo-follow Step-one idle Step-over begun run, queue_is, issued_is, delivered_is)

-- ===== src/Queue/Threads/Return.antt =====
-- `popAll` can always come to its end, whatever the other threads have left undone.
use mathlib.Core.Path.{subst}
use app_simple_log.Prelude.{
  ℕ, zero, suc, ◌+◌, ◌*◌, ◌-◌, ◌≤◌, ◌<◌, ◌≡◌, refl, ap, ◌∙◌, Bool, List, ◌++◌, size_mod, add_size,
  add_size-eq, window, update, arith,
}
use app_simple_log.Interleave.{picked, Runs, still, onward, Alone-Runs, Runs-append, Reachable-Runs}
use app_simple_log.Queue.Threads.{
  Shared, Pc, idle, draining, cell_at, moved, Move, ready, take_entry, free_slot, finish, advance,
  uncount, System, Moves, Reach,
}
use app_simple_log.Queue.Threads.Inv.{Consumes}
use app_simple_log.Queue.Threads.Safety.{IsAllowed, Reach-Inv}
use app_simple_log.Queue.Threads.Progress.{awaited_slot_filled}

module _ {A : Type 0} (pops : ℕ → Bool) where
  -- A move of the consumer, and then more.
  consumes :
      {k : ℕ} {s t : System A} {m : Shared A} {p q : Pc A}
      → s.pc 0 ≡ p
      → Move (pops 0) s.mem p m q
      → Runs (Moves pops) k (record { mem = m; pc = update s.pc 0 q }) t
      → Runs (Moves pops) (suc k) s t
  consumes here mv rest = onward (picked (Moves pops) 0 here mv) rest

  -- One round, once the slot is published.
  round-Runs :
      (s : System A) (h n j : ℕ) (result : List A)
      → s.pc 0 ≡ draining h n j result
      → j < n
      → (cell_at s.mem (add_size h j)).seq ≡ add_size (add_size h j) 1
      → (s' : System A) × Runs (Moves pops) 3 s s'
        × (s'.pc 0 ≡ draining h n (suc j) (result ++ moved (cell_at s.mem (add_size h j)).storage))
        × (s'.mem.issued ≡ s.mem.issued)
        × (s'.mem.queue.capacity ≡ s.mem.queue.capacity)
  round-Runs s h n j result here lt seq = (
    _,
    consumes here (ready lt seq) (consumes refl take_entry (consumes refl free_slot still)),
    refl,
    refl,
    refl,
  )

module _ {A : Type 0} (pops : ℕ → Bool) (blank : A) (capacity : ℕ)
    (ok : IsAllowed pops blank capacity) where
  -- At most `bound` moves bring the consumer to the end of `popAll`, behind the ticket `last`.
  abbrev Returns : ℕ → System A → ℕ → Type 0
  Returns bound s last =
      (k : ℕ) × (k ≤ bound)
      × (s' : System A) × Runs (Moves pops) k s s'
      × (s'.pc 0 ≡ idle)
      × (s'.mem.issued ≡ s.mem.issued)
      × (s'.mem.queue.capacity ≡ s.mem.queue.capacity)
      × (s'.mem.queue.head ≡ last)

  drains :
      (rounds : ℕ) {s : System A}
      → Reach pops blank capacity s
      → s.mem.issued + s.mem.queue.capacity < size_mod
      → (h n j : ℕ) (result : List A) → s.pc 0 ≡ draining h n j result
      → j + rounds ≡ n
      → Returns (6 * rounds + 3) s (h + n)
  drains zero {s = s} r fits h n j result here left =
      let inv = Reach-Inv pops blank capacity r ok fits in
      let (taken_is, freed_is, (head_is, some_left, issued_enough, so_far)) =
        subst (Consumes s.mem) here inv.consumes in
      (
        3,
        omega arith,
        _,
        consumes pops here (finish (omega arith))
            (consumes pops refl advance (consumes pops refl uncount still)),
        refl,
        refl,
        refl,
        add_size-eq h n (omega arith),
      )
  drains (suc rounds) {s = s} r fits h n j result here left =
      let (i, k, le, s₁, filled, here₁, seq₁, issued₁, cap₁) =
        awaited_slot_filled pops blank capacity r ok fits h n j result here (omega arith) in
      let (s₂, round, here₂, issued₂, cap₂) =
        round-Runs pops s₁ h n j result here₁ (omega arith) seq₁ in
      let first = Runs-append (Moves pops) (Alone-Runs (Moves pops) filled) round in
      let (l, le₂, s', rest, done, issued₃, cap₃, head₃) =
        drains rounds (Reachable-Runs (Moves pops) r first) (omega arith) h n (suc j) _ here₂
          (omega arith) in
      (
        k + 3 + l,
        omega arith,
        s',
        Runs-append (Moves pops) first rest,
        done,
        issued₃ ∙ issued₂ ∙ issued₁,
        cap₃ ∙ cap₂ ∙ cap₁,
        head₃,
      )

  -- If only thread 0 calls `popAll`, the capacity is from 1 to 2^62, and the tickets handed out
  -- and the capacity stay together below 2^64, then in every reachable state in which the consumer
  -- is in the loop of `popAll`, with `n` tickets from `h` on to take, of which `j` are taken,
  -- there is a continuation of at most 6 (n - j) + 3 steps of the threads, none of which hands out
  -- a ticket, after which `popAll` has returned, the head is at `h + n`, and what was returned so
  -- far is the entries of all tickets below, in order.
  pub pop_all_returns :
      {s : System A}
      → Reach pops blank capacity s
      → s.mem.issued + s.mem.queue.capacity < size_mod
      → (h n j : ℕ) (result : List A) → s.pc 0 ≡ draining h n j result
      → (k : ℕ) × (k ≤ 6 * (n - j) + 3)
        × (s' : System A) × Runs (Moves pops) k s s'
        × (s'.pc 0 ≡ idle)
        × (s'.mem.issued ≡ s.mem.issued)
        × (s'.mem.queue.head ≡ h + n)
        × (s'.mem.delivered ≡ window s'.mem.ledger 0 (h + n))
  pop_all_returns {s = s} r fits h n j result here =
      let inv = Reach-Inv pops blank capacity r ok fits in
      let (taken_is, freed_is, (head_is, some_left, issued_enough, so_far)) =
        subst (Consumes s.mem) here inv.consumes in
      let (k, le, s', run, done, issued_is, cap_is, head_at) =
        drains (n - j) r fits h n j result here (omega arith) in
      let after =
        Reach-Inv pops blank capacity (Reachable-Runs (Moves pops) r run) ok (omega arith) in
      (
        k,
        le,
        s',
        run,
        done,
        issued_is,
        head_at,
        after.in_order ∙ ap (window s'.mem.ledger 0) head_at,
      )

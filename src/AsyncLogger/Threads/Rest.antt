-- ===== src/AsyncLogger/Threads/Rest.antt =====
-- All threads of the logger come to rest.
use mathlib.Core.Path.{subst}
use native.Mathlib.Decide.{ℕ_discrete}
use app_simple_log.Prelude.{
  ℕ, zero, suc, ◌+◌, ◌-◌, ◌*◌, ◌≤◌, ◌<◌, ◌≡◌, ◌≢◌, refl, ap, ◌∙◌, Bool, true, false, [], ◌∷◌,
  count_if, count_if-append, update, arith,
}
use app_simple_log.Entry.{Memory, LogEntry, Runtime}
use app_simple_log.Interleave.{
  Interleaved, pick, Reachable, start, later, picked, Solo, done, next, Solo-append,
}
use app_simple_log.AsyncLogger.Delivery.{IsAlive}
use app_simple_log.AsyncLogger.Threads.{
  Shared, Pc, acquiring, System, Move, Moves, log, acquire, wake, return_loop, test, loop,
}
use app_simple_log.AsyncLogger.Threads.Inv.{closes}
use app_simple_log.AsyncLogger.Threads.Safety.{rests}
use app_simple_log.AsyncLogger.Threads.Settle.{outside-Settled}
use app_simple_log.AsyncLogger.Threads.Sweep.{HasRoom, flushing-Ran}

abbrev pub at : Shared → (ℕ → Pc) → System
at m pc = record { mem = m; pc = pc }

module _ (runtime : Runtime) (blank : LogEntry) (memory : Memory) (threads : ℕ)
    (alive : (e : LogEntry) → IsAlive runtime memory e) where
  abbrev pub Continues : System → System → Type 0
  Continues = Reachable (Moves runtime blank memory threads)

  pub Continues-trans : {a b c : System} → Continues a b → Continues b c → Continues a c
  Continues-trans r start = r
  Continues-trans r (later more st) = later (Continues-trans r more) st

  Move-asked :
      (which : LogEntry → Bool) {m m' : Shared} {p p' : Pc}
      → Move runtime blank memory m p m' p'
      → count_if which m.asked ≤ count_if which m'.asked
  Move-asked which {m} (log e on) = omega (arith, count_if-append which m.asked (e ∷ []))
  Move-asked which mv = omega arith

  Interleaved-asked :
      (which : LogEntry → Bool) {s t : System}
      → Interleaved (Moves runtime blank memory threads) s t
      → count_if which s.mem.asked ≤ count_if which t.mem.asked
  Interleaved-asked which (pick i (lt, mv)) = Move-asked which mv

  pub Continues-asked :
      (which : LogEntry → Bool) {s t : System}
      → Continues s t
      → count_if which s.mem.asked ≤ count_if which t.mem.asked
  Continues-asked which start = omega arith
  Continues-asked which (later more st) =
      omega (arith, Continues-asked which more, Interleaved-asked which st)

  -- The moves of one thread by itself, with the others where they stand.
  pub Solo-Continues :
      (i : ℕ) {m m' : Shared} {p p' : Pc}
      → i < threads
      → Solo (Move runtime blank memory) m p m' p'
      → (pc : ℕ → Pc) → pc i ≡ p
      → (pc' : ℕ → Pc) × Continues (at m pc) (at m' pc')
        × (pc' i ≡ p')
        × ((j : ℕ) → j ≢ i → pc' j ≡ pc j)
  Solo-Continues i lt done pc here = (pc, start, here, λ j other. refl)
  Solo-Continues i lt (next {p₁ = p₁} mv rest) pc here =
      let (pc', more, there, others) = Solo-Continues i lt rest (update pc i p₁) (ground arith) in
      (
        pc',
        Continues-trans (later start (picked (Moves runtime blank memory threads) i here (lt, mv)))
            more,
        there,
        λ j other. others j other ∙ ground (arith, other),
      )

  -- The threads below `k` have come to rest, with two pushes each at most.
  pub record Below (k n : ℕ) (m : Shared) (pc : ℕ → Pc) : Type 0 where
    pub m' : Shared
    pub pc' : ℕ → Pc
    pub more : Continues (at m pc) (at m' pc')
    pub quiet : (j : ℕ) → j < k → rests (pc' j) ≡ true
    pub others : (j : ℕ) → k ≤ j → pc' j ≡ pc j
    pub initialized : m'.initialized ≡ m.initialized
    pub stop : m'.stop ≡ m.stop
    pub spent : m'.pushes ≤ m.pushes + 2 * k
    pub room : HasRoom runtime blank memory alive n m'

  Below-suc :
      (k n : ℕ) (m : Shared) (pc : ℕ → Pc)
      → k < threads
      → closes (pc k) ≡ 0
      → Below k (suc (suc n)) m pc
      → Below (suc k) n m pc
  Below-suc k n m pc lt outside b =
      let s =
        outside-Settled runtime blank memory alive n b.m' (b.pc' k)
          (ap closes (b.others k (omega arith)) ∙ outside) b.room in
      let (pc', more, there, others) = Solo-Continues k lt s.solo b.pc' refl in
      record {
        m' = s.m';
        pc' = pc';
        more = Continues-trans b.more more;
        quiet = λ j below. elim (ℕ_discrete j k) [
          | yes here ↦ ap (λ x. rests (pc' x)) here ∙ ap rests there ∙ s.quiet
          | no other ↦ ap rests (others j other) ∙ b.quiet j (omega (arith, other))
        ];
        others = λ j above. others j (λ e. absurd (omega (arith, e))) ∙ b.others j (omega arith);
        initialized = s.initialized ∙ b.initialized;
        stop = s.stop ∙ b.stop;
        spent = omega (arith, s.spent, b.spent);
        room = s.room;
      }

  pub all_below :
      (k n : ℕ) (m : Shared) (pc : ℕ → Pc)
      → k ≤ threads
      → ((j : ℕ) → j < threads → closes (pc j) ≡ 0)
      → HasRoom runtime blank memory alive (n + 2 * k) m
      → Below k n m pc
  all_below zero n m pc le outside ok = record {
    m' = m;
    pc' = pc;
    more = start;
    quiet = λ j lt. absurd (omega arith);
    others = λ j le. refl;
    initialized = refl;
    stop = refl;
    spent = omega arith;
    room = subst (λ x. HasRoom runtime blank memory alive x m) (omega arith) ok;
  }
  all_below (suc k) n m pc le outside ok =
      Below-suc k n m pc (omega arith) (outside k (omega arith)) (
        all_below k (suc (suc n)) m pc (omega arith) outside
          (subst (λ x. HasRoom runtime blank memory alive x m) (omega arith) ok))

  -- The writer takes all wake-ups that are left, one flush for each.
  pub record Woken (n : ℕ) (m : Shared) : Type 0 where
    pub m' : Shared
    pub solo : Solo (Move runtime blank memory) m acquiring m' acquiring
    pub silent : m'.semaphore ≡ 0
    pub initialized : m'.initialized ≡ m.initialized
    pub pushes : m'.pushes ≡ m.pushes

  pub all_woken :
      (k n : ℕ) (m : Shared)
      → m.semaphore ≡ k
      → m.stop ≡ false
      → HasRoom runtime blank memory alive n m
      → Woken n m
  all_woken zero n m up goes ok = record {
    m' = m;
    solo = done;
    silent = up;
    initialized = refl;
    pushes = refl;
  }
  all_woken (suc k) n m up goes ok =
      let r =
        flushing-Ran runtime blank memory alive n loop (record m { semaphore = m.semaphore - 1 })
          (record { queue = ok.queue; ring = ok.ring; wakes = omega (arith, ok.wakes) }) in
      let goes_on : r.m'.stop ≡ false = r.same.stop ∙ goes in
      let w = all_woken k n r.m' (omega (arith, r.same.semaphore)) goes_on r.room in
      record {
        m' = w.m';
        solo =
            next (acquire (omega arith)) (
              next (wake goes)
                (Solo-append r.solo (next return_loop (next (test goes_on) w.solo))));
        silent = w.silent;
        initialized = w.initialized ∙ r.same.initialized;
        pushes = w.pushes ∙ r.same.pushes;
      }

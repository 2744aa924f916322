-- ===== src/AsyncLogger/Threads/Wakes.antt =====
-- How far the semaphore of the logger counts: src/src/async_logger.cpp, where it is a
-- std::counting_semaphore<1>.
use mathlib.Core.Path.{subst}
use app_simple_log.Prelude.{
  ℕ, zero, suc, ◌+◌, ◌-◌, ◌≤◌, ◌<◌, ◌≡◌, refl, ap, ◌∙◌, true, List, [], ◌∷◌, ◌++◌, Bytes, some,
  length, length-append, update, arith,
}
use app_simple_log.Level.{LogLevel, should_log}
use app_simple_log.Entry.{Memory, LogEntry, Runtime}
use app_simple_log.Disk.{Disk}
use app_simple_log.Interleave.{start}
use app_simple_log.Fifo.{offer}
use app_simple_log.AsyncLogger.{Components}
use app_simple_log.AsyncLogger.Delivery.{queue_fifo, IsReady, waiting}
use app_simple_log.AsyncLogger.Threads.{
  Shared, Pc, idle, releasing, semaphore_max, System, Move, init, pass, log, push, release,
}
use app_simple_log.AsyncLogger.Threads.Inv.{queued}
use app_simple_log.AsyncLogger.Threads.Safety.{append_empty}
use app_simple_log.AsyncLogger.Threads.Late.{Reaches, moves}

offer_fits :
    {A : Type 0} (cap : ℕ) (held : List A) (e : A)
    → length held < cap
    → offer cap held e ≡ (true, held ++ e ∷ [])
offer_fits cap held e room = ground arith

module _ (runtime : Runtime) (blank : LogEntry) (memory : Memory) (budget threads : ℕ)
    (path : Bytes) (c : Components) (d : Disk) (level : LogLevel)
    (ready : IsReady runtime blank memory path (suc budget) c d)
    (nothing : waiting blank c ≡ []) where
  abbrev Here : System → Type 0
  Here = Reaches runtime blank memory budget threads path c d level ready nothing

  -- A state that `n` calls of `log` by thread 1 have led to, with room for `left` more.
  record Piled (n left : ℕ) : Type 0 where
    s : System
    reached : Here s
    counted : s.mem.semaphore ≡ n
    held : length (queued blank s.mem) ≡ n
    room : queue_fifo.capacity s.mem.components.async_queue ≡ queue_fifo.capacity c.async_queue
    valid : queue_fifo.IsValid left s.mem.components.async_queue
    on : s.mem.initialized ≡ true
    same_level : s.mem.min_level ≡ level
    at_rest : s.pc 1 ≡ idle

  go :
      {s : System} {p q : Pc} {m : Shared}
      → 1 < threads
      → s.pc 1 ≡ p
      → Move runtime blank memory s.mem p m q
      → Here s
      → Here (record { mem = m; pc = update s.pc 1 q })
  go many = moves runtime blank memory budget threads path c d level ready nothing 1 many

  -- One more call of `log`, up to the release of the semaphore.
  pushes_one :
      (n left : ℕ) (e : LogEntry)
      → 1 < threads
      → should_log e.level level ≡ true
      → n < queue_fifo.capacity c.async_queue
      → (p : Piled n (suc left))
      → (s : System) × Here s
        × (s.mem.semaphore ≡ n)
        × (length (queued blank s.mem) ≡ n + 1)
        × (queue_fifo.capacity s.mem.components.async_queue ≡ queue_fifo.capacity c.async_queue)
        × queue_fifo.IsValid left s.mem.components.async_queue
        × ((s.mem.initialized ≡ true) × (s.mem.min_level ≡ level))
        × (s.pc 1 ≡ releasing)
  pushes_one n left e many passes fits p =
      let (q, pushed, holds, size, ok) =
        queue_fifo.push_offers left p.s.mem.components.async_queue e p.valid in
      let taken =
        offer_fits (queue_fifo.capacity p.s.mem.components.async_queue) (queued blank p.s.mem) e
          (omega (arith, p.room, p.held)) in
      let entered = go many refl (log e p.on) (
        go many p.at_rest (pass e.level (ap (should_log e.level) p.same_level ∙ passes))
          p.reached) in
      (
        _,
        go many refl (push (pushed ∙ ap (λ b. some (b, q)) (ap (λ x. x.0) taken))) entered,
        p.counted,
        omega (
          arith,
          ap length (holds ∙ ap (λ x. x.1) taken),
          length-append (queued blank p.s.mem) (e ∷ []),
          p.held,
        ),
        size ∙ p.room,
        ok,
        (p.on, p.same_level),
        refl,
      )

  -- One more call of `log`.
  Piled-suc :
      (n left : ℕ) (e : LogEntry)
      → 1 < threads
      → should_log e.level level ≡ true
      → n < queue_fifo.capacity c.async_queue
      → n < semaphore_max runtime
      → Piled n (suc left)
      → Piled (suc n) left
  Piled-suc n left e many passes fits below p =
      let (s, reached, semaphore_is, held, capacity_is, valid, fields, at) =
        pushes_one n left e many passes fits p in
      record {
        s = _;
        reached = go many at (release (omega (arith, semaphore_is))) reached;
        counted = omega (arith, semaphore_is);
        held = omega (arith, held);
        room = capacity_is;
        valid = valid;
        on = fields.0;
        same_level = fields.1;
        at_rest = refl;
      }

  piled :
      (n left : ℕ) (e : LogEntry)
      → 1 < threads
      → should_log e.level level ≡ true
      → n ≤ queue_fifo.capacity c.async_queue
      → n ≤ semaphore_max runtime
      → n + left ≡ suc budget
      → Piled n left
  piled zero left e many passes fits below all = record {
    s = init c d level;
    reached = start;
    counted = refl;
    held = ap length (append_empty _ _ nothing).0;
    room = refl;
    valid = subst (λ k. queue_fifo.IsValid k c.async_queue) (omega arith) ready.queue_valid;
    on = refl;
    same_level = refl;
    at_rest = refl;
  }
  piled (suc n) left e many passes fits below all =
      Piled-suc n left e many passes (omega arith) (omega arith)
        (piled n (suc left) e many passes (omega arith) (omega arith) (omega arith))

  -- The logger breaks the precondition of its semaphore, a std::counting_semaphore<1>, wherever its
  -- maximum is below the capacity of the queue: for every logger that starts initialized and ready
  -- with room for more pushes than that maximum and holds nothing, with two threads or more and every
  -- entry that passes the level, a state of the initialized logger can be reached in which the
  -- semaphore stands at its maximum and thread 1 is about to release it once more, for a message that is in the
  -- queue.
  pub release_past_max :
      (e : LogEntry)
      → 1 < threads
      → should_log e.level level ≡ true
      → semaphore_max runtime < queue_fifo.capacity c.async_queue
      → semaphore_max runtime ≤ budget
      → (s : System) × Here s
        × (s.mem.semaphore ≡ semaphore_max runtime)
        × (s.pc 1 ≡ releasing)
        × (s.mem.initialized ≡ true)
        × (length (queued blank s.mem) ≡ semaphore_max runtime + 1)
  release_past_max e many passes fits few =
      let p =
        piled (semaphore_max runtime) (suc (budget - semaphore_max runtime)) e many passes
          (omega arith) (omega arith) (omega arith) in
      let (s, reached, semaphore_is, held, capacity_is, valid, fields, at) =
        pushes_one (semaphore_max runtime) (budget - semaphore_max runtime) e many passes fits p in
      (s, reached, semaphore_is, at, fields.0, held)

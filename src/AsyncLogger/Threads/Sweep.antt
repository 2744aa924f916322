-- ===== src/AsyncLogger/Threads/Sweep.antt =====
-- A thread of the logger that has begun a flush can end it by itself: src/src/async_logger.cpp.
use app_simple_log.Prelude.{◌+◌, ◌≤◌, arith, arith, ℕ, ◌≡◌, refl, ◌∙◌, List, [], ◌∷◌}
use app_simple_log.Disk.{Disk}
use app_simple_log.AsyncLogger.{Components}
use app_simple_log.Entry.{Memory, LogEntry, Runtime}
use app_simple_log.Interleave.{Solo, done, next}
use app_simple_log.AsyncLogger.Delivery.{queue_fifo, ring_fifo, IsAlive}
use app_simple_log.AsyncLogger.Threads.{
  semaphore_max, Shared, Back, caller, Pc, flushing, draining, writing, emergency, saving, Move,
  with_line, pop_queue, pop_ring, write, rescue_queue, save, rescue_ring,
}
use app_simple_log.AsyncLogger.Threads.Late.{only}

-- The fields that a flush leaves as they are.
pub record Same (m m' : Shared) : Type 0 where
  pub semaphore : m'.semaphore ≡ m.semaphore
  pub initialized : m'.initialized ≡ m.initialized
  pub stop : m'.stop ≡ m.stop
  pub pushes : m'.pushes ≡ m.pushes

Same-refl : (m : Shared) → Same m m
Same-refl m = record { semaphore = refl; initialized = refl; stop = refl; pushes = refl }

-- The buffers and the file are none of these fields.
Same-stored :
    (m : Shared) (c : Components) (d : Disk) (written : List LogEntry)
    → Same m (record m { components = c; disk = d; written = written })
Same-stored m c d written = record {
  semaphore = refl;
  initialized = refl;
  stop = refl;
  pushes = refl;
}

Same-trans : {a b c : Shared} → Same a b → Same b c → Same a c
Same-trans x y = record {
  semaphore = y.semaphore ∙ x.semaphore;
  initialized = y.initialized ∙ x.initialized;
  stop = y.stop ∙ x.stop;
  pushes = y.pushes ∙ x.pushes;
}

module _ (runtime : Runtime) (blank : LogEntry) (memory : Memory)
    (alive : (e : LogEntry) → IsAlive runtime memory e) where
  abbrev pub Alone : Shared → Pc → Shared → Pc → Type 0
  Alone = Solo (Move runtime blank memory)

  -- Both buffers are valid, with room for `n` pushes, and the semaphore has as much room.
  pub record HasRoom (n : ℕ) (m : Shared) : Type 0 where
    pub queue : queue_fifo.IsValid n m.components.async_queue
    pub ring : (ring_fifo blank).IsValid n m.components.ring_buffer
    pub wakes : m.semaphore + n ≤ semaphore_max runtime

  -- Where a thread comes by itself without a push.
  pub record Ran (n : ℕ) (m : Shared) (p p' : Pc) : Type 0 where
    pub m' : Shared
    pub solo : Alone m p m' p'
    pub same : Same m m'
    pub room : HasRoom n m'

  Ran-next :
      {n : ℕ} {m m₁ : Shared} {p p₁ p' : Pc}
      → Move runtime blank memory m p m₁ p₁
      → Same m m₁
      → Ran n m₁ p₁ p'
      → Ran n m p p'
  Ran-next mv same r = record {
    m' = r.m';
    solo = next mv r.solo;
    same = Same-trans same r.same;
    room = r.room;
  }

  pub writing-Ran :
      (n : ℕ) (back : Back) (es : List LogEntry) (m : Shared)
      → HasRoom n m
      → Ran n m (writing back es) (writing back [])
  writing-Ran n back [] m ok = record { m' = m; solo = done; same = Same-refl m; room = ok }
  writing-Ran n back (e ∷ es) m ok =
      let (text, printed) = alive e in
      Ran-next (write printed) (Same-stored m _ _ _) (
        writing-Ran n back es (with_line m text e)
          (record { queue = ok.queue; ring = ok.ring; wakes = omega (arith, ok.wakes) }))

  pub draining-Ran :
      (n : ℕ) (back : Back) (es : List LogEntry) (m : Shared)
      → HasRoom n m
      → Ran n m (draining back es) (writing back [])
  draining-Ran n back es m ok =
      let (r, popped, empty, size, valid) =
        (ring_fifo blank).pop_drains n m.components.ring_buffer ok.ring in
      Ran-next (pop_ring (only popped)) (Same-stored m _ _ _) (
        writing-Ran n back _ _
          (record { queue = ok.queue; ring = valid; wakes = omega (arith, ok.wakes) }))

  pub flushing-Ran :
      (n : ℕ) (back : Back) (m : Shared) → HasRoom n m → Ran n m (flushing back) (writing back [])
  flushing-Ran n back m ok =
      let (q, popped, empty, size, valid) =
        queue_fifo.pop_drains n m.components.async_queue ok.queue in
      Ran-next (pop_queue popped) (Same-stored m _ _ _) (
        draining-Ran n back _ _
          (record { queue = valid; ring = ok.ring; wakes = omega (arith, ok.wakes) }))

  pub saving-Ran :
      (n : ℕ) (es : List LogEntry) (m : Shared)
      → HasRoom n m
      → Ran n m (saving es) (writing caller [])
  saving-Ran n [] m ok =
      let (r, popped, empty, size, valid) =
        (ring_fifo blank).pop_drains n m.components.ring_buffer ok.ring in
      Ran-next (rescue_ring (only popped)) (Same-stored m _ _ _) (
        writing-Ran n caller _ _
          (record { queue = ok.queue; ring = valid; wakes = omega (arith, ok.wakes) }))
  saving-Ran n (e ∷ es) m ok =
      let (text, printed) = alive e in
      Ran-next (save printed) (Same-stored m _ _ _) (
        saving-Ran n es (with_line m text e)
          (record { queue = ok.queue; ring = ok.ring; wakes = omega (arith, ok.wakes) }))

  pub emergency-Ran : (n : ℕ) (m : Shared) → HasRoom n m → Ran n m emergency (writing caller [])
  emergency-Ran n m ok =
      let (q, popped, empty, size, valid) =
        queue_fifo.pop_drains n m.components.async_queue ok.queue in
      Ran-next (rescue_queue popped) (Same-stored m _ _ _) (
        saving-Ran n _ _
          (record { queue = valid; ring = ok.ring; wakes = omega (arith, ok.wakes) }))

-- ===== src/AsyncLogger/Threads/Inv.antt =====
-- The invariant of the shared logger.
use app_simple_log.Prelude.{
  ℕ, ◌+◌, ◌-◌, ◌<◌, ◌≡◌, ◌⊎◌, Bool, true, false, List, [], ◌∷◌, ◌++◌, some, Bytes, count_if, total,
  if◌then◌else◌,
}
use app_simple_log.Entry.{Memory, LogEntry, Runtime}
use app_simple_log.Disk.{contents_of}
use app_simple_log.AsyncLogger.Delivery.{queue_fifo, ring_fifo, IsReliable, printed}
use app_simple_log.AsyncLogger.Threads.{
  Shared, Back, ending, closing, Pc, logging, releasing, overflowing, flushing, draining, writing,
  emergency, saving, awake, notifying, joining,
}

-- The messages in a thread's hands.
abbrev pub hand : Pc → List LogEntry
hand (logging e) = e ∷ []
hand (overflowing e) = e ∷ []
hand (draining back es) = es
hand (writing back es) = es
hand (saving es) = es
hand p = []

-- 1 for a thread that will raise the semaphore, or will empty the queue.
abbrev pub wakes : Pc → ℕ
wakes releasing = 1
wakes (flushing back) = 1
wakes emergency = 1
wakes awake = 1
wakes p = 0

-- 1 for a thread that will empty the ring buffer.
abbrev pub sweeps : Pc → ℕ
sweeps (flushing back) = 1
sweeps (draining back es) = 1
sweeps emergency = 1
sweeps (saving es) = 1
sweeps p = 0

abbrev pub closes_behind : Back → ℕ
closes_behind closing = 1
closes_behind back = 0

-- 1 for a thread in `deinitialize`.
abbrev pub closes : Pc → ℕ
closes notifying = 1
closes joining = 1
closes (flushing back) = closes_behind back
closes (draining back es) = closes_behind back
closes (writing back es) = closes_behind back
closes p = 0

abbrev lasts_behind : Back → ℕ
lasts_behind ending = 1
lasts_behind back = 0

-- 1 for the writer in its last flush.
abbrev pub lasts : Pc → ℕ
lasts (flushing back) = lasts_behind back
lasts (draining back es) = lasts_behind back
lasts (writing back es) = lasts_behind back
lasts p = 0

-- The wake-ups that the writer will still take.
abbrev pub signals : Shared → ℕ
signals m = if m.ended then 0 else m.semaphore

module _ (blank : LogEntry) where
  abbrev pub queued : Shared → List LogEntry
  queued m = queue_fifo.contents m.components.async_queue

  abbrev pub ringed : Shared → List LogEntry
  ringed m = (ring_fifo blank).contents m.components.ring_buffer

-- `budget` bounds the pushes that the 64-bit counters of the buffers can take.
module _ (runtime : Runtime) (blank : LogEntry) (memory : Memory) (budget threads : ℕ)
    (path base : Bytes) where
  -- Where each message is: written, dropped, in one of the buffers, or in the hands of one thread.
  abbrev pub Balanced : Shared → (ℕ → Pc) → Type 0
  Balanced m pc =
      (test : LogEntry → Bool)
      → count_if test m.asked
        ≡ count_if test m.written
          + count_if test m.dropped
          + count_if test (queued blank m)
          + count_if test (ringed blank m)
          + total (λ j. count_if test (hand (pc j))) threads

  abbrev pub Closing : Shared → (ℕ → Pc) → Type 0
  Closing m pc = (m.initialized ≡ false) ⊎ (0 < total (λ j. closes (pc j)) threads)

  pub record Inv (m : Shared) (pc : ℕ → Pc) : Type 0 where
    pub opened : m.components.file_manager.file_handle ≡ some path
    pub reliable : IsReliable m.disk
    pub queue_valid : queue_fifo.IsValid (budget - m.pushes) m.components.async_queue
    pub ring_valid : (ring_fifo blank).IsValid (budget - m.pushes) m.components.ring_buffer
    pub recorded : contents_of path m.disk ≡ base ++ printed runtime memory m.written
    pub balanced : Balanced m pc
    pub woken :
        (queued blank m ≡ []) ⊎ (0 < signals m + total (λ j. wakes (pc j)) threads) ⊎ Closing m pc
    pub swept : (ringed blank m ≡ []) ⊎ (0 < total (λ j. sweeps (pc j)) threads)
    pub stopped : (m.stop ≡ false) ⊎ Closing m pc
    pub final : (m.stop ≡ true) ⊎ (total (λ j. lasts (pc j)) threads ≡ 0)
    pub over : (m.ended ≡ false) ⊎ (m.stop ≡ true)

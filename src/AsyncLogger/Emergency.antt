-- ===== src/AsyncLogger/Emergency.antt =====
-- The crash handler's callback, `emergencyFlush`, in a logger that is ready.
use app_simple_log.Prelude.{ℕ, ◌≡◌, refl, ◌∙◌, not, Option-cases, inl, inr, none, [], some, arith}
use app_simple_log.Entry.{Memory, LogEntry, Runtime}
use app_simple_log.Disk.{Disk, contents_of}
use app_simple_log.Queue
use app_simple_log.Ring
use app_simple_log.FileManager.State
use app_simple_log.Prelude.{Bytes}
use app_simple_log.AsyncLogger.{Components, write_entries, flush_components, emergency_flush}
use app_simple_log.AsyncLogger.Delivery.{IsReady, waiting, account, flush_components_lem}

module _ (runtime : Runtime) (blank : LogEntry) (memory : Memory) where
  -- `emergencyFlush` writes the queue before it empties the ring buffer, `flush` empties both first;
  -- with nothing in between, both leave the same components and the same disk, and one returns exactly
  -- if the other does, for every logger and disk. The emergency flush then flushes the file as well.
  emergency_flush-flush_components :
      (c : Components) (d : Disk)
      → emergency_flush runtime blank memory c d
        ≡ elim (flush_components runtime blank memory c d) [
          | none ↦ none
          | some (c', d') ↦ some (c', d', State.flush c'.file_manager d')
        ]
  unfolding flush_components emergency_flush
  emergency_flush-flush_components c d = elim (Option-cases (Queue.pop_all c.async_queue)) [
    | inl stuck ↦ ground (arith, stuck)
    | inr ((queue_entries, queue), popped) ↦
        elim (Option-cases (write_entries runtime blank memory queue_entries c.file_manager d)) [
          | inl gone ↦ ground (arith, popped, gone)
          | inr ((file₁, d₁), first) ↦
              elim (Option-cases (
                write_entries runtime blank memory (Ring.pop_all blank c.ring_buffer).0 file₁ d₁)) [
                  | inl gone ↦ ground (arith, popped, first, gone)
                  | inr ((file₂, d₂), second) ↦ ground (arith, popped, first, second)
                ]
        ]
  ]

module _ (runtime : Runtime) (blank : LogEntry) (memory : Memory) (path : Bytes) where
  flushes :
      (c : Components) (d : Disk)
      → c.file_manager.file_handle ≡ some path
      → State.flush c.file_manager d ≡ not d.faults.flush_fails
  unfolding State.flush State.flush_to_file
  flushes c d opened = rw opened refl

  -- In a logger whose file is open on a disk that takes what is written, whose buffers are valid and
  -- whose entries' texts are alive, the emergency flush returns, writes all that waits, oldest first,
  -- leaves both buffers empty, and answers whether the file could be flushed.
  emergency_flush_lem :
      (n : ℕ) (c : Components) (d : Disk)
      → IsReady runtime blank memory path n c d
      → (c' : Components) × (d' : Disk) × (emergency_flush runtime blank memory c d
          ≡ some (c', d', not d'.faults.flush_fails))
        × IsReady runtime blank memory path n c' d'
        × (waiting blank c' ≡ [])
        × (contents_of path d' ≡ account runtime blank memory path c d)
  emergency_flush_lem n c d r =
      let (c', d', run, ready, empty, written, size) =
        flush_components_lem runtime blank memory path n c d r in
      (
        c',
        d',
        emergency_flush-flush_components runtime blank memory c d
            ∙ ground (arith, run, flushes c' d' ready.opened),
        ready,
        empty,
        written,
      )

-- ===== src/AsyncLogger.antt =====
-- AsyncLogger: src/include/speckit/log/async_logger.h and src/src/async_logger.cpp. One thread runs
-- at a time, a whole call or a whole round of the writer thread after another. `none` is a call that
-- never returns, or one that uses a component or a text that is not there.
pub mod Delivery
pub mod Messages
pub mod Runs
pub mod Session
mod Emergency
pub mod Crash
pub mod Threads
mod Tests
use app_simple_log.Prelude.{
  ℕ, suc, ◌+◌, ◌-◌, Bool, true, false, not, List, [], ◌∷◌, Option, none, some, Bytes, ltb, ℤ,
  if◌then◌else◌,
}
use app_simple_log.Level.{LogLevel, should_log}
use app_simple_log.Entry.{StringView, Memory, LogEntry, Runtime, format_log_entry}
use app_simple_log.Disk.{Disk}
use app_simple_log.FileManager.Ownership.{Platform, Hash}
use app_simple_log.FileManager.State
use app_simple_log.FileManager.State.{FileManager}
use app_simple_log.Queue
use app_simple_log.Queue.{AsyncQueue}
use app_simple_log.Ring
use app_simple_log.Ring.{RingBuffer}

pub record Components : Type 0 where
  pub file_manager : FileManager
  pub async_queue : AsyncQueue LogEntry
  pub ring_buffer : RingBuffer LogEntry

-- The components are null until `initialize` makes them.
pub record AsyncLogger : Type 0 where
  pub components : Option Components
  pub semaphore : ℕ
  pub min_level : LogLevel
  pub process_id : ℕ
  pub initialized : Bool
  pub queue_size : ℕ

unfoldable pub create : ℕ → AsyncLogger
create process_id = record {
  components = none;
  semaphore = 0;
  min_level = LogLevel.debug;
  process_id = process_id;
  initialized = false;
  queue_size = 0;
}

unfoldable pub set_log_level : LogLevel → AsyncLogger → AsyncLogger
set_log_level level l = record l { min_level = level }

abbrev pub get_log_level : AsyncLogger → LogLevel
get_log_level l = l.min_level

-- The end of the components; only the file manager has a destructor of its own.
abbrev pub release_components : Platform → Option Components → Disk → Disk
release_components platform none d = d
release_components platform (some c) d = (State.destroy platform c.file_manager d).1

module _ (runtime : Runtime) (blank : LogEntry) where
  -- The components are made anew, the old file manager is destroyed first, and they are kept also
  -- when the file cannot be opened.
  unfoldable pub initialize_components :
      Platform → Hash → Bytes → ℕ → AsyncLogger → Disk → Bool × AsyncLogger × Disk
  initialize_components platform hash base_name queue_size l d =
      let (opened, file, d₁) =
        State.initialize platform hash l.process_id (State.create base_name)
          (release_components platform l.components d) in
      (
        opened,
        record l {
          components = some (record {
            file_manager = file;
            async_queue = Queue.create queue_size;
            ring_buffer = Ring.create blank queue_size;
          });
        },
        d₁,
      )

  unfoldable pub initialize :
      Platform → Hash → Bytes → ℕ → AsyncLogger → Disk → Bool × AsyncLogger × Disk
  unfolding initialize_components
  initialize platform hash base_name queue_size l d =
      if l.initialized
      then (true, l, d)
      else (let (ok, l₁, d₁) =
            initialize_components platform hash base_name queue_size
              (record l { queue_size = queue_size }) d in
          (ok, record l₁ { initialized = ok }, d₁))

  -- The result of each write is ignored.
  unfoldable pub write_entries :
      Memory → List LogEntry → FileManager → Disk → Option (FileManager × Disk)
  write_entries memory [] file d = some (file, d)
  write_entries memory (entry ∷ entries) file d = elim (format_log_entry runtime memory entry) [
    | none ↦ none
    | some formatted ↦
        let (ok, file', d') = State.write formatted file d in write_entries memory entries file' d'
  ]

  -- Both buffers are emptied before anything is written.
  unfoldable pub flush_components : Memory → Components → Disk → Option (Components × Disk)
  flush_components memory c d = elim (Queue.pop_all c.async_queue) [
    | none ↦ none
    | some (queue_entries, queue) ↦
        let (ring_entries, ring) = Ring.pop_all blank c.ring_buffer in
        elim (write_entries memory queue_entries c.file_manager d) [
          | none ↦ none
          | some (file₁, d₁) ↦ elim (write_entries memory ring_entries file₁ d₁) [
            | none ↦ none
            | some (file₂, d₂) ↦
                some (record { file_manager = file₂; async_queue = queue; ring_buffer = ring }, d₂)
          ]
        ]
  ]

  unfoldable pub flush : Memory → AsyncLogger → Disk → Option (AsyncLogger × Disk)
  flush memory l d = elim l.components [
    | none ↦ none
    | some c ↦ elim (flush_components memory c d) [
      | none ↦ none
      | some (c', d') ↦ some (record l { components = some c' }, d')
    ]
  ]

  -- A full queue sends the entry to the ring buffer and flushes; a full ring buffer drops it.
  unfoldable pub push_entry :
      Memory → LogEntry → Components → AsyncLogger → Disk → Option (AsyncLogger × Disk)
  unfolding flush
  push_entry memory entry c l d = elim (Queue.try_push c.async_queue entry) [
    | none ↦ none
    | some (taken, queue) ↦
        if taken
        then some (
          record l {
            components = some (record c { async_queue = queue });
            semaphore = l.semaphore + 1;
          },
          d,
        )
        else (let (kept, ring) = Ring.try_push c.ring_buffer entry in
            let l₁ = record l {
              components = some (record c { async_queue = queue; ring_buffer = ring });
            } in
            if not kept then some (l₁, d) else flush memory l₁ d)
  ]

  -- `log`, at the time `now` on the thread `thread_id`. The entry holds views of the caller's texts.
  unfoldable pub log :
      Memory
      → LogLevel
      → StringView
      → StringView
      → ℤ
      → ℕ
      → AsyncLogger
      → Disk
      → Option (AsyncLogger × Disk)
  unfolding push_entry
  log memory level tag message now thread_id l d =
      if not (should_log level l.min_level)
      then some (l, d)
      else if not l.initialized
      then some (l, d)
      else elim l.components [
        | none ↦ none
        | some c ↦
            push_entry memory
              (record {
                level = level;
                timestamp_ms = now;
                process_id = l.process_id;
                thread_id = thread_id;
                tag = tag;
                message = message;
              })
              c l d
      ]

  -- One round of `writerThread`, if the semaphore lets it through; no stop is asked for.
  unfoldable pub writer_round : Memory → AsyncLogger → Disk → Option (AsyncLogger × Disk)
  unfolding flush
  writer_round memory l d =
      if ltb 0 l.semaphore
      then flush memory (record l { semaphore = l.semaphore - 1 }) d
      else some (l, d)

  -- The writer thread leaves its loop: with a flush if it was waiting for the semaphore, without
  -- one if it was about to test for a stop.
  unfoldable pub writer_exit : Bool → Memory → AsyncLogger → Disk → Option (AsyncLogger × Disk)
  unfolding flush
  writer_exit waiting memory l d =
      if waiting then flush memory (record l { semaphore = l.semaphore - 1 }) d else some (l, d)

  unfoldable pub deinitialize : Bool → Memory → AsyncLogger → Disk → Option (AsyncLogger × Disk)
  unfolding writer_exit flush
  deinitialize waiting memory l d =
      if not l.initialized
      then some (l, d)
      else elim (writer_exit waiting memory (record l { semaphore = l.semaphore + 1 }) d) [
        | none ↦ none
        | some (l₁, d₁) ↦ elim (flush memory l₁ d₁) [
          | none ↦ none
          | some (l₂, d₂) ↦ some (record l₂ { initialized = false }, d₂)
        ]
      ]

  -- The crash handler's callback: the queue is written before the ring buffer is emptied, and the
  -- file is flushed. The last result is that of the flush.
  unfoldable pub emergency_flush : Memory → Components → Disk → Option (Components × Disk × Bool)
  emergency_flush memory c d = elim (Queue.pop_all c.async_queue) [
    | none ↦ none
    | some (queue_entries, queue) ↦ elim (write_entries memory queue_entries c.file_manager d) [
      | none ↦ none
      | some (file₁, d₁) ↦
          let (ring_entries, ring) = Ring.pop_all blank c.ring_buffer in
          elim (write_entries memory ring_entries file₁ d₁) [
            | none ↦ none
            | some (file₂, d₂) ↦ some (
              record { file_manager = file₂; async_queue = queue; ring_buffer = ring },
              d₂,
              State.flush file₂ d₂,
            )
          ]
    ]
  ]

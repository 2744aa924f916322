-- ===== src/AsyncLogger/Threads.antt =====
-- The logger shared by threads: src/src/async_logger.cpp in the schedules in which no two calls of a
-- buffer or of the file manager overlap. Each such call is one step then, and so is each access to the
-- semaphore, to the stop token or to a field. What overlapping calls do is in Queue/Threads and
-- Ring/Threads; there entries can be lost, so what is proved here of all schedules is of these.
-- Any thread may call `log`, `flush`, `setLogLevel` and the crash handler's `emergencyFlush`. One call
-- of `deinitialize` is made at a time, so that its test of `initialized_` and its request of a stop are
-- one step, and no `initialize` follows it. The `Flush` with which `emergencyFlush` ends changes no
-- contents and its result is not used: it has no step. A `release` of the semaphore at its maximum,
-- whose effect is not defined, has no step either.
pub mod Inv
mod Keep
mod Buffers
mod Steps
mod Preserve
pub mod Safety
pub mod Late
pub mod Wakes
pub mod Sweep
pub mod Settle
pub mod Writer
pub mod Rest
pub mod Progress
mod Tests
use app_simple_log.Prelude.{
  ℕ, suc, ◌+◌, ◌-◌, ◌<◌, ◌≡◌, Bool, true, false, List, [], ◌∷◌, ◌++◌, some, ℤ, update,
}
use app_simple_log.Level.{LogLevel, should_log}
use app_simple_log.Entry.{StringView, Memory, LogEntry, Runtime, format_log_entry}
use app_simple_log.Disk.{Disk}
use app_simple_log.FileManager.State
use app_simple_log.FileManager.State.{FileManager}
use app_simple_log.Queue
use app_simple_log.Queue.{AsyncQueue}
use app_simple_log.Ring
use app_simple_log.Ring.{RingBuffer}
use app_simple_log.Interleave.{Threads, Reachable}
use app_simple_log.AsyncLogger.{Bytes, Components}

-- An initialized logger, and what the proofs remember of its past, which no step reads: the messages
-- that passed the tests of `log`, those that were dropped, those that were written, and the number
-- of pushes. `ended`: the writer thread has left its function.
pub record Shared : Type 0 where
  pub components : Components
  pub disk : Disk
  pub semaphore : ℕ
  pub min_level : LogLevel
  pub initialized : Bool
  pub stop : Bool
  pub ended : Bool
  pub asked : List LogEntry
  pub dropped : List LogEntry
  pub written : List LogEntry
  pub pushes : ℕ

-- Where a `flush` returns to: the caller, the loop of the writer, the end of the writer, or
-- `deinitialize`.
pub data Back : Type 0 where
  caller loop ending closing : Back

-- Where a thread stands, with the local variables that are live there.
pub data Pc : Type 0 where
  idle : Pc
  entering : LogLevel → Pc  -- `log`, behind its test of the level
  logging : LogEntry → Pc  -- before `async_queue_->tryPush`
  releasing : Pc  -- before `sem_.release` in `log`
  overflowing : LogEntry → Pc  -- before `ring_buffer_->tryPush`
  flushing : Back → Pc  -- start of `flush`
  draining : Back → List LogEntry → Pc  -- with `queue_entries`
  writing : Back → List LogEntry → Pc  -- the entries that are left to write
  emergency : Pc  -- start of `emergencyFlush`
  saving : List LogEntry → Pc  -- the queue's entries that are left to write
  testing : Pc  -- head of the loop in `writerThread`
  acquiring : Pc
  awake : Pc  -- behind `sem_.acquire`
  exited : Pc
  notifying : Pc  -- `deinitialize`, behind `request_stop`
  joining : Pc

-- A memory in which the buffers and the file have changed.
abbrev pub with_queue : Shared → AsyncQueue LogEntry → Components
with_queue m q = record (m.components) { async_queue = q }

abbrev pub with_ring : Shared → RingBuffer LogEntry → Components
with_ring m r = record (m.components) { ring_buffer = r }

-- The memory after a `Write` of the text of an entry.
abbrev pub with_line : Shared → Bytes → LogEntry → Shared
with_line m text e = record m {
  components = record (m.components) {
    file_manager = (State.write text m.components.file_manager m.disk).1;
  };
  disk = (State.write text m.components.file_manager m.disk).2;
  written = m.written ++ e ∷ [];
}

-- How far the semaphore may count: `release` at its maximum breaks a precondition.
abbrev pub semaphore_max : Runtime → ℕ
semaphore_max runtime = runtime.semaphore_spare + 1

module _ (runtime : Runtime) (blank : LogEntry) (memory : Memory) where
  -- One step of one thread.
  pub data Move (m : Shared) : Pc → Shared → Pc → Type 0 where
    pass : (level : LogLevel) → should_log level m.min_level ≡ true → Move m idle m (entering level)
    filter : (level : LogLevel) → should_log level m.min_level ≡ false → Move m idle m idle
    log :
        (e : LogEntry)
        → m.initialized ≡ true
        → Move m (entering e.level) (record m { asked = m.asked ++ e ∷ [] }) (logging e)
    reject : {level : LogLevel} → m.initialized ≡ false → Move m (entering level) m idle
    set_log_level : (level : LogLevel) → Move m idle (record m { min_level = level }) idle
    push :
        {e : LogEntry} {q : AsyncQueue LogEntry}
        → Queue.try_push m.components.async_queue e ≡ some (true, q)
        → Move m
            (logging e)
            (record m { components = with_queue m q; pushes = m.pushes + 1 })
            releasing
    full :
        {e : LogEntry} {q : AsyncQueue LogEntry}
        → Queue.try_push m.components.async_queue e ≡ some (false, q)
        → Move m
            (logging e)
            (record m { components = with_queue m q; pushes = m.pushes + 1 })
            (overflowing e)
    release :
        m.semaphore < semaphore_max runtime
        → Move m releasing (record m { semaphore = m.semaphore + 1 }) idle
    keep :
        {e : LogEntry} {r : RingBuffer LogEntry}
        → Ring.try_push m.components.ring_buffer e ≡ (true, r)
        → Move m
            (overflowing e)
            (record m { components = with_ring m r; pushes = m.pushes + 1 })
            (flushing caller)
    drop :
        {e : LogEntry} {r : RingBuffer LogEntry}
        → Ring.try_push m.components.ring_buffer e ≡ (false, r)
        → Move m
            (overflowing e)
            (record m {
              components = with_ring m r;
              dropped = m.dropped ++ e ∷ [];
              pushes = m.pushes + 1;
            })
            idle
    flush : Move m idle m (flushing caller)
    pop_queue :
        {back : Back} {es : List LogEntry} {q : AsyncQueue LogEntry}
        → Queue.pop_all m.components.async_queue ≡ some (es, q)
        → Move m (flushing back) (record m { components = with_queue m q }) (draining back es)
    pop_ring :
        {back : Back} {es rs : List LogEntry} {r : RingBuffer LogEntry}
        → Ring.pop_all blank m.components.ring_buffer ≡ (rs, r)
        → Move m
            (draining back es)
            (record m { components = with_ring m r })
            (writing back (es ++ rs))
    write :
        {back : Back} {e : LogEntry} {es : List LogEntry} {text : Bytes}
        → format_log_entry runtime memory e ≡ some text
        → Move m (writing back (e ∷ es)) (with_line m text e) (writing back es)
    return_caller : Move m (writing caller []) m idle
    return_loop : Move m (writing loop []) m testing
    return_ending : Move m (writing ending []) (record m { ended = true }) exited
    return_closing : Move m (writing closing []) (record m { initialized = false }) idle
    rescue : Move m idle m emergency
    rescue_queue :
        {es : List LogEntry} {q : AsyncQueue LogEntry}
        → Queue.pop_all m.components.async_queue ≡ some (es, q)
        → Move m emergency (record m { components = with_queue m q }) (saving es)
    save :
        {e : LogEntry} {es : List LogEntry} {text : Bytes}
        → format_log_entry runtime memory e ≡ some text
        → Move m (saving (e ∷ es)) (with_line m text e) (saving es)
    rescue_ring :
        {rs : List LogEntry} {r : RingBuffer LogEntry}
        → Ring.pop_all blank m.components.ring_buffer ≡ (rs, r)
        → Move m (saving []) (record m { components = with_ring m r }) (writing caller rs)
    test : m.stop ≡ false → Move m testing m acquiring
    leave : m.stop ≡ true → Move m testing (record m { ended = true }) exited
    acquire : 0 < m.semaphore → Move m acquiring (record m { semaphore = m.semaphore - 1 }) awake
    wake : m.stop ≡ false → Move m awake m (flushing loop)
    wake_last : m.stop ≡ true → Move m awake m (flushing ending)
    skip : m.initialized ≡ false → Move m idle m idle  -- `deinitialize`
    deinitialize :
        m.initialized ≡ true → m.stop ≡ false → Move m idle (record m { stop = true }) notifying
    notify :
        m.semaphore < semaphore_max runtime
        → Move m notifying (record m { semaphore = m.semaphore + 1 }) joining
    join : m.ended ≡ true → Move m joining m (flushing closing)

  -- The threads below `threads` move; thread 0 is the writer.
  abbrev pub Moves : ℕ → ℕ → Shared → Pc → Shared → Pc → Type 0
  Moves threads i m p m' p' = (i < threads) × Move m p m' p'

abbrev pub System : Type 0
System = Threads Shared Pc

-- A logger behind `initialize`, whose writer thread is about to begin.
abbrev pub init : Components → Disk → LogLevel → System
init c d level = record {
  mem = record {
    components = c;
    disk = d;
    semaphore = 0;
    min_level = level;
    initialized = true;
    stop = false;
    ended = false;
    asked = [];
    dropped = [];
    written = [];
    pushes = 0;
  };
  pc = update (λ i. idle) 0 testing;
}

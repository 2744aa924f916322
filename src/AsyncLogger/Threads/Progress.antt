-- ===== src/AsyncLogger/Threads/Progress.antt =====
-- From every state, the threads of an initialized logger can go on until all is written.
use app_simple_log.Prelude.{ℕ, ◌+◌, ◌-◌, ◌*◌, ◌≤◌, ◌<◌, ◌≡◌, true, [], Bytes}
use app_simple_log.Level.{LogLevel}
use app_simple_log.Entry.{Memory, LogEntry, Runtime}
use app_simple_log.Disk.{Disk}
use app_simple_log.AsyncLogger.{Components}
use app_simple_log.AsyncLogger.Delivery.{IsReady, IsAlive, waiting}
use app_simple_log.AsyncLogger.Threads.{semaphore_max, System}
use app_simple_log.AsyncLogger.Threads.Inv.{closes, Inv}
use app_simple_log.AsyncLogger.Threads.Safety.{Reach}

module _ (runtime : Runtime) (blank : LogEntry) (memory : Memory) (budget threads : ℕ)
    (path : Bytes) (c : Components) (d : Disk) (level : LogLevel)
    (ready : IsReady runtime blank memory path budget c d) (nothing : waiting blank c ≡ []) where
  abbrev Here : System → Type 0
  Here = Reach runtime blank memory budget threads path c d level ready nothing

  module _ (alive : (e : LogEntry) → IsAlive runtime memory e) {s : System} (r : Here s)
      (few : s.mem.pushes + 2 * threads ≤ budget)
      (calm : s.mem.semaphore + 2 * threads ≤ semaphore_max runtime) (some_thread : 0 < threads)
      (on : s.mem.initialized ≡ true) (outside : (i : ℕ) → i < threads → closes (s.pc i) ≡ 0) where
    abbrev spare : ℕ
    spare = budget - s.mem.pushes - 2 * threads

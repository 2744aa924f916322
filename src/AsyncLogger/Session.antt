-- ===== src/AsyncLogger/Session.antt =====
-- A whole life of a logger: made, initialized, used and deinitialized.
use mathlib.Core.Path.{subst, ap₂}
use app_simple_log.Prelude.{
  ℕ, ◌^◌, ◌≤◌, ◌<◌, ◌≡◌, refl, sym, ap, ◌∙◌, Bool, true, false, List, [], ◌++◌, Option, none, some,
  Bytes, All, length, arith,
}
use app_simple_log.Level.{LogLevel}
use app_simple_log.Entry.{Memory, LogEntry, Runtime}
use app_simple_log.Disk.{Disk, contents_of}
use app_simple_log.FileManager.State
use app_simple_log.FileManager.State.{FileManager}
use app_simple_log.FileManager.Ownership.{Platform, Hash}
use app_simple_log.FileManager.Opening.{initialize_lem}
use app_simple_log.Queue
use app_simple_log.Queue.Inv as QueueInv
use app_simple_log.Ring
use app_simple_log.Ring.Inv as RingInv
use app_simple_log.AsyncLogger.{
  AsyncLogger, Components, create, set_log_level, initialize, deinitialize,
}
use app_simple_log.Queue.Refine as QueueLaws
use app_simple_log.Ring.Refine as RingLaws
use app_simple_log.AsyncLogger.Delivery
use app_simple_log.AsyncLogger.Delivery.{IsAlive, IsReady, IsReliable, ring_fifo}
use app_simple_log.AsyncLogger.Messages.{IsIdle, account_empty}
use app_simple_log.AsyncLogger.Runs.{Event, accepted, run, run_lem, deinitialize_lem}

module _ (runtime : Runtime) (blank : LogEntry) (memory : Memory) (platform : Platform)
    (hash : Hash) (base_name : Bytes) (pid : ℕ) (m : LogLevel) where
  -- A new logger of this level.
  abbrev pub fresh : AsyncLogger
  fresh = set_log_level m (create pid)

  fresh_fields : (fresh.min_level ≡ m) × (fresh.process_id ≡ pid)
  unfolding set_log_level create
  fresh_fields = (refl, refl)

  abbrev pub started : ℕ → Disk → Bool × AsyncLogger × Disk
  started queue_size d = initialize runtime blank platform hash base_name queue_size fresh d

  -- The components that `initialize` makes.
  abbrev pub made : ℕ → Disk → Components
  made queue_size d = record {
    file_manager = (State.initialize platform hash pid (State.create base_name) d).1;
    async_queue = Queue.create queue_size;
    ring_buffer = Ring.create blank queue_size;
  }

  started_eq :
      (queue_size : ℕ) (d : Disk)
      → started queue_size d ≡ (
          let (ok, file, d₁) = State.initialize platform hash pid (State.create base_name) d in
          (
            ok,
            record fresh {
              queue_size = queue_size;
              components = some (made queue_size d);
              initialized = ok;
            },
            d₁,
          ))
  unfolding initialize set_log_level create
  started_eq queue_size d = refl

  pub started-IsIdle :
      (queue_size n : ℕ) (d : Disk)
      → 0 < queue_size
      → queue_size ≤ 2 ^ 62
      → n ≤ 2 ^ 62
      → (started queue_size d).0 ≡ true
      → IsReliable (started queue_size d).2
      → (path : Bytes) × ((made queue_size d).file_manager.file_handle ≡ some path)
        × IsIdle runtime blank memory path m pid n
            (started queue_size d).1
            (started queue_size d).2
            (made queue_size d)
        × (Delivery.waiting blank (made queue_size d) ≡ [])
  started-IsIdle queue_size n d pos small few ok reliable =
      let steps = started_eq queue_size d in
      let opens : (State.initialize platform hash pid (State.create base_name) d).0 ≡ true =
        sym (ap (λ r. r.0) steps) ∙ ok in
      let queue_empty = QueueLaws.contents-create {A = LogEntry} queue_size in
      let no_entries = RingLaws.contents-create blank queue_size in
      let (path, tracked, nothing) =
        initialize_lem platform hash pid (State.create base_name) d (unfold State.create in refl)
          opens in
      (
        path,
        tracked.opened,
        record {
          running = ap (λ r. r.1.initialized) steps ∙ opens;
          level = ap (λ r. r.1.min_level) steps ∙ fresh_fields.0;
          process = ap (λ r. r.1.process_id) steps ∙ fresh_fields.1;
          made = ap (λ r. r.1.components) steps;
          ready = record {
            opened = tracked.opened;
            reliable = reliable;
            queue_valid = QueueInv.create-IsValid queue_size n pos small (omega arith);
            ring_valid = RingInv.create-IsValid blank queue_size n small (omega arith);
            queue_alive = subst (All (IsAlive runtime memory)) (sym queue_empty) tt;
            ring_alive = subst (All (IsAlive runtime memory)) (sym no_entries) tt;
          };
          ring_empty = no_entries;
          ring_room = subst (λ k. 0 < k) (sym (RingLaws.capacity-create blank queue_size)) pos;
        },
        ap₂ ◌++◌ queue_empty no_entries,
      )

  -- `initialize`, the events and `deinitialize`, one after the other.
  unfoldable pub session : Bool → ℕ → List Event → Disk → Option (AsyncLogger × Disk)
  session waits queue_size events d =
      elim (run runtime blank memory events (started queue_size d).1 (started queue_size d).2) [
        | none ↦ none
        | some (l, d') ↦ deinitialize runtime blank waits memory l d'
      ]

  -- From `initialize` to `deinitialize` nothing is lost: if the log file can be opened and takes what
  -- is written, and the texts of the accepted messages are alive, then a session of at most 2^62
  -- calls of `log` and rounds of the writer, on a queue of any size from 1 to 2^62, returns, and the
  -- log file holds what it held and then exactly the lines of the messages that pass the level,
  -- in the order of the calls.
  pub session_lem :
      (waits : Bool) (queue_size : ℕ) (events : List Event) (d : Disk)
      → 0 < queue_size
      → queue_size ≤ 2 ^ 62
      → length events ≤ 2 ^ 62
      → (started queue_size d).0 ≡ true
      → IsReliable (started queue_size d).2
      → All (IsAlive runtime memory) (accepted m pid events)
      → (path : Bytes) × ((made queue_size d).file_manager.file_handle ≡ some path)
        × (l' : AsyncLogger) × (d' : Disk) × (session waits queue_size events d ≡ some (l', d'))
        × (l'.initialized ≡ false)
        × (contents_of path d'
            ≡ contents_of path (started queue_size d).2
              ++ Delivery.printed runtime memory (accepted m pid events))
  unfolding session
  session_lem waits queue_size events d pos small few ok reliable alive =
      let (path, opened, idle, nothing) =
        started-IsIdle queue_size (length events) d pos small few ok reliable in
      let (l₁, d₁, c₁, ran, idle₁, grown) =
        run_lem runtime blank memory path m pid events (started queue_size d).1
          (started queue_size d).2 (made queue_size d) idle alive in
      let (l', d', ended, off, written) =
        deinitialize_lem runtime blank memory path m pid waits 0 l₁ d₁ c₁ idle₁ in
      (
        path,
        opened,
        l',
        d',
        ground (arith, ran, ended),
        off,
        written
            ∙ grown
            ∙ ap (λ t. t ++ Delivery.printed runtime memory (accepted m pid events))
                (account_empty runtime blank memory path m pid (made queue_size d)
                  (started queue_size d).2 (contents_of path (started queue_size d).2) nothing
                  refl),
      )

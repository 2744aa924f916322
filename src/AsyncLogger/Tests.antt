-- ===== src/AsyncLogger/Tests.antt =====
-- A session of a logger whose queue has one slot: the second message overflows into the ring buffer,
-- and the third is below the level.
use app_simple_log.Prelude.{
  none, bytes_eq, find_last_of, ◌≡◌, ◌++◌, refl, true, false, List, [], ◌∷◌, some, Bytes, codes,
  length, All, pos, arith,
}
use app_simple_log.Level.{LogLevel, should_log}
use app_simple_log.Entry.{StringView, Memory, LogEntry, Runtime, format_log_entry}
use app_simple_log.Disk.{Disk, contents_of}
use app_simple_log.FileManager.Ownership.{macos}
use app_simple_log.FileManager.State
use app_simple_log.AsyncLogger.{
  Bool, Components, AsyncLogger, initialize, deinitialize, set_log_level, create,
}
use app_simple_log.AsyncLogger.Delivery.{waiting, account, IsAlive, IsReliable, printed}
use app_simple_log.AsyncLogger.Messages.{IsIdle}
use app_simple_log.CrashHandler.{
  CrashHandler, Statics, fresh, abrt, signal_of, handled, sig_default,
}
use app_simple_log.AsyncLogger.Crash.{
  emergency_callback, initialize_protected, reinitialized_unprotected,
}
use app_simple_log.AsyncLogger.Runs.{deinitialize_lem, Event, message, wake, accepted}
use app_simple_log.AsyncLogger.Session.{started-IsIdle, started, made, session, session_lem}

abbrev pub disk : Disk
disk = record {
  files = [];
  directories = codes "/w" ∷ [];
  current_path = codes "/w";
  named_objects = [];
  faults = record {
    open_fails = λ path. false;
    rename_fails = λ from to. false;
    remove_fails = λ path. false;
    mkdir_fails = λ path. false;
    accepted = length;
    flush_fails = false;
    named_object_fails = λ name. false;
    reopen_fails = λ name. false;
    unit_taken = λ name. false;
    conversion_fails = λ text. false;
  };
}

-- Every time is the first second of 2025, and every thread is "1".
abbrev pub runtime : Runtime
runtime = record {
  localtime = λ t. record {
    tm_year = pos 125;
    tm_mon = pos 0;
    tm_mday = pos 1;
    tm_hour = pos 0;
    tm_min = pos 0;
    tm_sec = pos 1;
  };
  thread_text = λ t. codes "1";
  semaphore_spare = 1000;
}

-- Every address holds the text "hi".
abbrev pub memory : Memory
memory = λ buffer. some (codes "hi")

abbrev pub view : StringView
view = record { buffer = 0; start = 0; count = 2 }

abbrev pub blank : LogEntry
blank = record {
  level = LogLevel.debug;
  timestamp_ms = pos 0;
  process_id = 0;
  thread_id = 0;
  tag = view;
  message = view;
}

abbrev events : List Event
events =
    message LogLevel.error view view (pos 5) 1
    ∷ message LogLevel.warning view view (pos 6) 1
    ∷ message LogLevel.debug view view (pos 7) 1
    ∷ wake
    ∷ []

pub starts :
    (started runtime blank memory macos length (codes "app") 4 LogLevel.info 1 disk).0 ≡ true
unfolding initialize State.initialize State.create find_last_of bytes_eq set_log_level create
starts = refl

pub reliable :
    IsReliable (started runtime blank memory macos length (codes "app") 4 LogLevel.info 1 disk).2
unfolding initialize State.initialize State.create find_last_of bytes_eq set_log_level create
reliable text = omega arith

alive : All (IsAlive runtime memory) (accepted LogLevel.info 4 events)
unfolding accepted should_log format_log_entry
alive = ((_, refl), ((_, refl), tt))

session_lem_example :
    (path : Bytes) × ((made runtime blank memory macos length
        (codes "app")
        4
        LogLevel.info
        1
        disk).file_manager.file_handle
      ≡ some path)
    × (l' : AsyncLogger) × (d' : Disk) × (session runtime blank memory macos length
          (codes "app")
          4
          LogLevel.info
          true
          1
          events
          disk
        ≡ some (l', d'))
    × (l'.initialized ≡ false)
    × (contents_of path d'
        ≡ contents_of path
            (started runtime blank memory macos length (codes "app") 4 LogLevel.info 1 disk).2
          ++ printed runtime memory (accepted LogLevel.info 4 events))
session_lem_example =
    session_lem runtime blank memory macos length (codes "app") 4 LogLevel.info true 1 events disk
      (omega arith) (omega arith) (omega arith) starts reliable alive

abbrev pub components : Components
components = made runtime blank memory macos length (codes "app") 4 LogLevel.info 1 disk

abbrev pub started_disk : Disk
started_disk = (started runtime blank memory macos length (codes "app") 4 LogLevel.info 1 disk).2

abbrev pub idle :
    (path : Bytes) × (components.file_manager.file_handle ≡ some path)
    × IsIdle runtime blank memory path LogLevel.info 4 9
        (started runtime blank memory macos length (codes "app") 4 LogLevel.info 1 disk).1
        started_disk
        components
    × (waiting blank components ≡ [])
idle =
    started-IsIdle runtime blank memory macos length (codes "app") 4 LogLevel.info 1 9 disk
      (omega arith) (omega arith) (omega arith) starts reliable

abbrev statics : Statics (Components × Disk)
statics = fresh

abbrev opened : Bool × AsyncLogger × Disk
opened = started runtime blank memory macos length (codes "app") 4 LogLevel.info 1 disk

abbrev ended :
    (l' : AsyncLogger) × (d' : Disk) × (deinitialize runtime blank true memory opened.1 opened.2
      ≡ some (l', d'))
    × (l'.initialized ≡ false)
    × (contents_of idle.0 d' ≡ account runtime blank memory idle.0 components started_disk)
ended =
    deinitialize_lem runtime blank memory idle.0 LogLevel.info 4 true 9 opened.1 opened.2 components
      idle.2

abbrev new_logger : AsyncLogger
new_logger = set_log_level LogLevel.info (create 4)

new_logger_off : new_logger.initialized ≡ false
unfolding set_log_level create
new_logger_off = refl

abbrev callback : Components × Disk → (Components × Disk) × Bool
callback = emergency_callback runtime blank memory

reinitialized_unprotected_example :
    (h₁ h₂ : CrashHandler) × (s₁ s₂ : Statics (Components × Disk)) × (initialize_protected runtime
        blank macos length
        (codes "app")
        1
        callback
        new_logger
        none
        statics
        disk
      ≡ some (opened, some h₁, s₁))
    × (signal_of abrt s₁ ≡ handled)
    × (initialize_protected runtime blank macos length
          (codes "app")
          1
          callback
          ended.0
          (some h₁)
          s₁
          ended.1
        ≡ some (initialize runtime blank macos length (codes "app") 1 ended.0 ended.1, some h₂, s₂))
    × (signal_of abrt s₂ ≡ sig_default)
    × (h₂.monitor_running ≡ false)
reinitialized_unprotected_example =
    reinitialized_unprotected runtime blank macos length (codes "app") 1 callback callback true
      memory new_logger ended.0 disk ended.1 statics abrt new_logger_off refl ended.2

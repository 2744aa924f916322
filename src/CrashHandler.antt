-- ===== src/CrashHandler.antt =====
-- CrashHandler: src/include/speckit/log/crash_handler.h and src/src/crash_handler.cpp. The static
-- members and the dispositions of the two signals are shared by all handlers; `W` is what the flush
-- callback works on. `none` is a call of `std::terminate`.
pub mod Lives
pub mod Threads
mod Tests
use app_simple_log.Prelude.{Bool, true, false, not, Option, none, some, if◌then◌else◌}
use app_simple_log.FileManager.Ownership.{Platform, windows, macos, elsewhere}

pub data Disposition : Type 0 where
  sig_default sig_ignored handled : Disposition

pub data Signal : Type 0 where
  segv abrt : Signal

-- `initialized_`, `flush_requested_` and `flush_callback_`. A callback says whether it threw.
pub record Statics (W : Type 0) : Type 0 where
  pub initialized : Bool
  pub flush_requested : Bool
  pub flush_callback : Option (W → W × Bool)
  pub on_segv : Disposition
  pub on_abrt : Disposition

-- A handler object: whether its monitor thread runs, and its stop flag.
pub record CrashHandler : Type 0 where
  pub monitor_running : Bool
  pub stop_monitor : Bool

-- A thread that runs may not be assigned over.
unfoldable pub start_monitor : CrashHandler → Option CrashHandler
start_monitor h =
    if h.monitor_running
    then none
    else some (record { monitor_running = true; stop_monitor = false })

unfoldable pub stop_monitor : CrashHandler → CrashHandler
stop_monitor h = record { monitor_running = false; stop_monitor = true }

module _ {W : Type 0} where
  -- The statics of a new process.
  abbrev pub fresh : Statics W
  fresh = record {
    initialized = false;
    flush_requested = false;
    flush_callback = none;
    on_segv = sig_default;
    on_abrt = sig_default;
  }

  abbrev pub set_signal : Signal → Disposition → Statics W → Statics W
  set_signal segv to s = record s { on_segv = to }
  set_signal abrt to s = record s { on_abrt = to }

  abbrev pub signal_of : Signal → Statics W → Disposition
  signal_of segv s = s.on_segv
  signal_of abrt s = s.on_abrt

  abbrev pub set_all : Disposition → Statics W → Statics W
  set_all to s = set_signal abrt to (set_signal segv to s)

  unfoldable pub initialize_handlers :
      Platform → CrashHandler → Statics W → Option (CrashHandler × Statics W)
  unfolding start_monitor
  initialize_handlers platform h s =
      let s₁ = set_all handled (record s { initialized = true }) in
      let monitored : Option (CrashHandler × Statics W) = elim platform [
        | windows ↦ elim (start_monitor h) [ none ↦ none | some h' ↦ some (h', s₁) ]
        | macos ↦ some (h, s₁)
        | elsewhere ↦ some (h, s₁)
      ] in
      if s.initialized then some (h, s) else monitored

  unfoldable pub cleanup_handlers : Platform → CrashHandler → Statics W → CrashHandler × Statics W
  unfolding stop_monitor
  cleanup_handlers platform h s =
      let s₁ = set_all sig_default (record s { initialized = false }) in
      let stopped : CrashHandler × Statics W = elim platform [
        | windows ↦ (stop_monitor h, s₁)
        | macos ↦ (h, s₁)
        | elsewhere ↦ (h, s₁)
      ] in
      if not s.initialized then (h, s) else stopped

  unfoldable pub construct : Platform → Statics W → Option (CrashHandler × Statics W)
  unfolding initialize_handlers
  construct platform s =
      initialize_handlers platform (record { monitor_running = false; stop_monitor = false }) s

  -- The destructor, that of the thread included: a thread that still runs ends the program.
  unfoldable pub destroy : Platform → CrashHandler → Statics W → Option (Statics W)
  unfolding cleanup_handlers
  destroy platform h s =
      let (h₁, s₁) = cleanup_handlers platform h s in if h₁.monitor_running then none else some s₁

  unfoldable pub set_flush_callback : Option (W → W × Bool) → Statics W → Statics W
  set_flush_callback callback s = record s { flush_callback = callback }

  -- What the callback throws is swallowed.
  unfoldable pub emergency_flush : Statics W → W → W
  emergency_flush s w = elim s.flush_callback [ none ↦ w | some callback ↦ (callback w).0 ]

  -- One round of the monitor thread's loop: whether it goes on.
  unfoldable pub monitor_round : CrashHandler → Statics W → W → Bool × Statics W × W
  unfolding emergency_flush
  monitor_round h s w =
      if h.stop_monitor
      then (false, s, w)
      else if s.flush_requested
      then (true, record s { flush_requested = false }, emergency_flush s w)
      else (true, s, w)

  -- The signal handler up to `raise`, after which the default action ends the process.
  unfoldable pub signal_handler : Signal → Statics W → Statics W
  signal_handler signal s =
      set_signal signal sig_default
        (record (set_signal signal sig_ignored s) { flush_requested = true })

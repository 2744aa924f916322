-- ===== src/CrashHandler/Lives.antt =====
-- The lives of one handler and of two, and the service of a request.
use app_simple_log.Prelude.{◌≡◌, refl, Bool, true, false, none, some, if◌then◌else◌, arith}
use app_simple_log.FileManager.Ownership.{Platform, windows, macos, elsewhere}
use app_simple_log.CrashHandler.{
  sig_default, handled, Signal, segv, abrt, Statics, CrashHandler, signal_of, set_all,
  start_monitor, stop_monitor, construct, destroy, emergency_flush, monitor_round, signal_handler,
}

-- The monitor of a handler that is alone, and of no other.
abbrev pub monitored : Platform → Bool
monitored windows = true
monitored macos = false
monitored elsewhere = false

abbrev pub registered : Platform → CrashHandler
registered platform = record { monitor_running = monitored platform; stop_monitor = false }

abbrev pub idle : CrashHandler
idle = record { monitor_running = false; stop_monitor = false }

module _ {W : Type 0} where
  abbrev pub taken : Statics W → Statics W
  taken s = set_all handled (record s { initialized = true })

  abbrev pub given_back : Statics W → Statics W
  given_back s = set_all sig_default (record s { initialized = false })

  pub construct_first :
      (platform : Platform) (s : Statics W)
      → s.initialized ≡ false
      → construct platform s ≡ some (registered platform, taken s)
  unfolding construct start_monitor
  construct_first windows s free = ground (arith, free)
  construct_first macos s free = ground (arith, free)
  construct_first elsewhere s free = ground (arith, free)

  pub construct_later :
      (platform : Platform) (s : Statics W)
      → s.initialized ≡ true
      → construct platform s ≡ some (idle, s)
  unfolding construct
  construct_later platform s taken_already = ground (arith, taken_already)

  -- The handler that unregisters stops its own monitor thread, whichever handler started one.
  pub destroy_first :
      (platform : Platform) (running : Bool) (s : Statics W)
      → s.initialized ≡ true
      → (monitored platform ≡ false → running ≡ false)
      → destroy platform (record { monitor_running = running; stop_monitor = false }) s
        ≡ some (given_back s)
  unfolding destroy stop_monitor
  destroy_first windows running s on quiet = ground (arith, on)
  destroy_first macos running s on quiet = ground (arith, on, quiet refl)
  destroy_first elsewhere running s on quiet = ground (arith, on, quiet refl)

  destroy_later :
      (platform : Platform) (h : CrashHandler) (s : Statics W)
      → s.initialized ≡ false
      → destroy platform h s ≡ (if h.monitor_running then none else some s)
  unfolding destroy
  destroy_later platform h s off = rw off refl

  -- While no handler is registered, a new one takes both signals, and only on Windows a monitor
  -- thread runs that could serve a request; its destructor returns and gives both signals back.
  lone_handler :
      (platform : Platform) (s : Statics W) (signal : Signal)
      → s.initialized ≡ false
      → (h : CrashHandler) × (s₁ s₂ : Statics W) × (construct platform s ≡ some (h, s₁))
        × (signal_of signal s₁ ≡ handled)
        × (h.monitor_running ≡ monitored platform)
        × (destroy platform h s₁ ≡ some s₂)
        × (signal_of signal s₂ ≡ sig_default)
        × (s₂.initialized ≡ false)
  lone_handler platform s segv free = (
    registered platform,
    taken s,
    given_back (taken s),
    construct_first platform s free,
    refl,
    refl,
    destroy_first platform (monitored platform) (taken s) refl (λ e. e),
    refl,
    refl,
  )
  lone_handler platform s abrt free = (
    registered platform,
    taken s,
    given_back (taken s),
    construct_first platform s free,
    refl,
    refl,
    destroy_first platform (monitored platform) (taken s) refl (λ e. e),
    refl,
    refl,
  )

  -- A second handler's destructor unregisters the first: both signals are at their default while
  -- the first handler lives, and then the first one's destructor terminates the program on Windows,
  -- where its monitor thread was never stopped.
  pub second_handler :
      (platform : Platform) (s : Statics W) (signal : Signal)
      → s.initialized ≡ false
      → (first second : CrashHandler) × (s₁ s₂ : Statics W) × (construct platform s
          ≡ some (first, s₁))
        × (construct platform s₁ ≡ some (second, s₁))
        × (destroy platform second s₁ ≡ some s₂)
        × (signal_of signal s₂ ≡ sig_default)
        × (destroy platform first s₂ ≡ (if monitored platform then none else some s₂))
  second_handler platform s segv free = (
    registered platform,
    idle,
    taken s,
    given_back (taken s),
    construct_first platform s free,
    construct_later platform (taken s) refl,
    destroy_first platform false (taken s) refl (λ e. refl),
    refl,
    destroy_later platform (registered platform) (given_back (taken s)) refl,
  )
  second_handler platform s abrt free = (
    registered platform,
    idle,
    taken s,
    given_back (taken s),
    construct_first platform s free,
    construct_later platform (taken s) refl,
    destroy_first platform false (taken s) refl (λ e. refl),
    refl,
    destroy_later platform (registered platform) (given_back (taken s)) refl,
  )

  -- A monitor thread that was not told to stop serves a request of the signal handler with one call
  -- of the flush, and with none in the round after it.
  request_served :
      (h : CrashHandler) (s : Statics W) (signal : Signal) (w : W)
      → h.stop_monitor ≡ false
      → (s' : Statics W) × (monitor_round h (signal_handler signal s) w
          ≡ (true, s', emergency_flush s w))
        × (monitor_round h s' (emergency_flush s w) ≡ (true, s', emergency_flush s w))
  unfolding monitor_round signal_handler
  request_served h s segv w going = (
    record s { on_segv = sig_default; flush_requested = false },
    ground (arith, going),
    ground (arith, going),
  )
  request_served h s abrt w going = (
    record s { on_abrt = sig_default; flush_requested = false },
    ground (arith, going),
    ground (arith, going),
  )

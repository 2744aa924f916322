-- ===== src/AsyncLogger/Crash.antt =====
-- The logger's crash handler: the parts of `initializeComponents` in src/src/async_logger.cpp that
-- make it and set its callback, and what a signal then does.
use app_simple_log.Prelude.{
  ◌+◌, Bool-cases, Option-cases, inl, inr, ℕ, ◌≡◌, refl, ◌∙◌, Bool, true, false, Option, none, some,
  Bytes, if◌then◌else◌, arith,
}
use app_simple_log.Entry.{Memory, LogEntry, Runtime}
use app_simple_log.Disk.{Disk}
use app_simple_log.FileManager.Ownership.{Platform, Hash}
use app_simple_log.CrashHandler.{
  sig_default, handled, Signal, segv, abrt, Statics, CrashHandler, signal_of, construct, destroy,
  set_flush_callback,
}
use app_simple_log.CrashHandler.Lives.{
  monitored, registered, idle, taken, given_back, construct_first, construct_later, destroy_first,
}
use app_simple_log.AsyncLogger.{
  Components, AsyncLogger, initialize, deinitialize, writer_exit, flush, release_components,
  emergency_flush,
}
use app_simple_log.AsyncLogger.Delivery.{waiting}

module _ {W : Type 0} where
  -- `crash_handler_ = std::make_unique<CrashHandler>()`: the new handler is made before the old one
  -- is destroyed.
  unfoldable pub replace_crash_handler :
      Platform → Option CrashHandler → Statics W → Option (CrashHandler × Statics W)
  replace_crash_handler platform old s = elim (construct platform s) [
    | none ↦ none
    | some (h, s₁) ↦ elim old [
      | none ↦ some (h, s₁)
      | some gone ↦ elim (destroy platform gone s₁) [ none ↦ none | some s₂ ↦ some (h, s₂) ]
    ]
  ]

  -- The callback is set only if the log file was opened.
  unfoldable pub initialize_crash_handler :
      Platform
      → Bool
      → Option CrashHandler
      → (W → W × Bool)
      → Statics W
      → Option (CrashHandler × Statics W)
  unfolding replace_crash_handler
  initialize_crash_handler platform opened old callback s =
      elim (replace_crash_handler platform old s) [
        | none ↦ none
        | some (h, s₁) ↦ some (h, if opened then set_flush_callback (some callback) s₁ else s₁)
      ]

  signals_taken : (signal : Signal) (s : Statics W) → signal_of signal (taken s) ≡ handled
  signals_taken segv s = refl
  signals_taken abrt s = refl

  signals_given_back :
      (signal : Signal) (s : Statics W) → signal_of signal (given_back s) ≡ sig_default
  signals_given_back segv s = refl
  signals_given_back abrt s = refl

  signal_of-set_flush_callback :
      (signal : Signal) (callback : Option (W → W × Bool)) (s : Statics W)
      → signal_of signal (set_flush_callback callback s) ≡ signal_of signal s
  unfolding set_flush_callback
  signal_of-set_flush_callback segv callback s = refl
  signal_of-set_flush_callback abrt callback s = refl

  -- With its callback, if the log file was opened.
  abbrev with_callback : Bool → (W → W × Bool) → Statics W → Statics W
  with_callback opened callback s = if opened then set_flush_callback (some callback) s else s

  signal_of-with_callback :
      (signal : Signal) (opened : Bool) (callback : W → W × Bool) (s : Statics W)
      → signal_of signal (with_callback opened callback s) ≡ signal_of signal s
  signal_of-with_callback signal true callback s =
      signal_of-set_flush_callback signal (some callback) s
  signal_of-with_callback signal false callback s = refl

  initialized-with_callback :
      (opened : Bool) (callback : W → W × Bool) (s : Statics W)
      → (with_callback opened callback s).initialized ≡ s.initialized
  unfolding set_flush_callback
  initialized-with_callback true callback s = refl
  initialized-with_callback false callback s = refl

  initialize_first :
      (platform : Platform) (opened : Bool) (callback : W → W × Bool) (s : Statics W)
      → s.initialized ≡ false
      → initialize_crash_handler platform opened none callback s
        ≡ some (registered platform, with_callback opened callback (taken s))
  unfolding initialize_crash_handler replace_crash_handler
  initialize_first platform opened callback s free = ground (arith, construct_first platform s free)

  initialize_again :
      (platform : Platform) (opened : Bool) (callback : W → W × Bool) (s : Statics W)
      → s.initialized ≡ true
      → initialize_crash_handler platform opened (some (registered platform)) callback s
        ≡ some (idle, with_callback opened callback (given_back s))
  unfolding initialize_crash_handler replace_crash_handler
  initialize_again platform opened callback s on = ground (
    arith,
    construct_later platform s on,
    destroy_first platform (monitored platform) s on (λ e. e),
  )

module _ (runtime : Runtime) (blank : LogEntry) where
  -- A `deinitialize` that returns leaves the logger uninitialized.
  deinitialize_off :
      (waits : Bool) (memory : Memory) (l l' : AsyncLogger) (d d' : Disk)
      → deinitialize runtime blank waits memory l d ≡ some (l', d')
      → l'.initialized ≡ false
  unfolding deinitialize writer_exit flush
  deinitialize_off waits memory l l' d d' ran = elim (Bool-cases l.initialized) [
    | inr off ↦ ground (arith, ran, off)
    | inl on ↦
        elim (Option-cases
          (writer_exit runtime blank waits memory (record l { semaphore = l.semaphore + 1 }) d)) [
            | inl never ↦ ground (arith, ran, on, never)
            | inr ((l₁, d₁), left) ↦ elim (Option-cases (flush runtime blank memory l₁ d₁)) [
              | inl never ↦ ground (arith, ran, on, left, never)
              | inr ((l₂, d₂), flushed) ↦ ground (arith, ran, on, left, flushed)
            ]
          ]
  ]

module _ {W : Type 0} (runtime : Runtime) (blank : LogEntry) where
  -- `initialize` with the crash handler: nothing happens to a logger that is initialized.
  unfoldable pub initialize_protected :
      Platform
      → Hash
      → Bytes
      → ℕ
      → (W → W × Bool)
      → AsyncLogger
      → Option CrashHandler
      → Statics W
      → Disk
      → Option ((Bool × AsyncLogger × Disk) × Option CrashHandler × Statics W)
  initialize_protected platform hash base_name queue_size callback l old s d =
      let made = initialize runtime blank platform hash base_name queue_size l d in
      if l.initialized
      then some ((true, l, d), old, s)
      else elim (initialize_crash_handler platform made.0 old callback s) [
        | none ↦ none
        | some (h, s') ↦ some (made, some h, s')
      ]

  -- The destructor with those of the members: the crash handler goes before the file manager.
  unfoldable pub destroy_logger :
      Platform
      → Bool
      → Memory
      → AsyncLogger
      → Option CrashHandler
      → Statics W
      → Disk
      → Option (Statics W × Disk)
  destroy_logger platform waiting memory l handler s d =
      elim (deinitialize runtime blank waiting memory l d) [
        | none ↦ none
        | some (l', d') ↦ elim handler [
          | none ↦ some (s, release_components platform l'.components d')
          | some h ↦ elim (destroy platform h s) [
            | none ↦ none
            | some s' ↦ some (s', release_components platform l'.components d')
          ]
        ]
      ]

  -- A logger that is initialized, deinitialized and initialized again is without crash handling. Where
  -- no crash handler is registered, `initialize` of a logger that is not initialized takes both
  -- signals. If the `deinitialize` behind it returns, the next `initialize` of the same logger leaves, on
  -- every platform, both signals at their default and a crash handler without a monitor thread,
  -- whether or not the log file could be opened either time.
  pub reinitialized_unprotected :
      (platform : Platform) (hash : Hash) (base_name : Bytes) (queue_size : ℕ)
      (first second : W → W × Bool) (waits : Bool) (memory : Memory) (l l₂ : AsyncLogger)
      (d d₂ : Disk) (s : Statics W) (signal : Signal)
      → l.initialized ≡ false
      → s.initialized ≡ false
      → deinitialize runtime blank waits memory
          (initialize runtime blank platform hash base_name queue_size l d).1
          (initialize runtime blank platform hash base_name queue_size l d).2
        ≡ some (l₂, d₂)
      → (h₁ h₂ : CrashHandler) × (s₁ s₂ : Statics W) × (initialize_protected platform hash base_name
            queue_size first l none s d
          ≡ some (initialize runtime blank platform hash base_name queue_size l d, some h₁, s₁))
        × (signal_of signal s₁ ≡ handled)
        × (initialize_protected platform hash base_name queue_size second l₂ (some h₁) s₁ d₂
            ≡ some (initialize runtime blank platform hash base_name queue_size l₂ d₂, some h₂, s₂))
        × (signal_of signal s₂ ≡ sig_default)
        × (h₂.monitor_running ≡ false)
  unfolding initialize_protected
  reinitialized_unprotected platform hash base_name queue_size first second waits memory l l₂ d d₂ s
        signal off free ended =
      let off_again = deinitialize_off runtime blank waits memory _ l₂ _ d₂ ended in
      let opened = (initialize runtime blank platform hash base_name queue_size l d).0 in
      let opened_again = (initialize runtime blank platform hash base_name queue_size l₂ d₂).0 in
      let s₁ = with_callback opened first (taken s) in
      let made = initialize_first platform opened first s free in
      let made_again =
        initialize_again platform opened_again second s₁
          (initialized-with_callback opened first (taken s)) in
      (
        registered platform,
        idle,
        s₁,
        with_callback opened_again second (given_back s₁),
        ground (arith, off, made),
        signal_of-with_callback signal opened first (taken s) ∙ signals_taken signal s,
        ground (arith, off_again, made_again),
        signal_of-with_callback signal opened_again second (given_back s₁)
            ∙ signals_given_back signal s₁,
        refl,
      )

module _ (runtime : Runtime) (blank : LogEntry) (memory : Memory) where
  -- The callback: `emergencyFlush`, here with the memory and the disk at that time. It throws
  -- nothing that the model knows.
  abbrev pub emergency_callback : Components × Disk → (Components × Disk) × Bool
  emergency_callback (c, d) = elim (emergency_flush runtime blank memory c d) [
    | none ↦ ((c, d), true)
    | some (c', d', flushed) ↦ ((c', d'), false)
  ]

-- ===== src/CrashHandler/Tests.antt =====
-- Crash handlers on concrete platforms; the flush callback counts its calls.
use app_simple_log.Prelude.{ℕ, ◌+◌, ◌≡◌, refl, true, none, some, if◌then◌else◌}
use app_simple_log.FileManager.Ownership.{windows}
use app_simple_log.CrashHandler.{
  sig_default, abrt, Statics, CrashHandler, signal_of, fresh, construct, destroy, emergency_flush,
}
use app_simple_log.CrashHandler.Lives.{monitored, second_handler}

abbrev statics : Statics ℕ
statics = record fresh { flush_callback = some (λ n. (n + 1, true)) }

second_handler_example :
    (first second : CrashHandler) × (s₁ s₂ : Statics ℕ) × (construct windows statics
      ≡ some (first, s₁))
    × (construct windows s₁ ≡ some (second, s₁))
    × (destroy windows second s₁ ≡ some s₂)
    × (signal_of abrt s₂ ≡ sig_default)
    × (destroy windows first s₂ ≡ (if monitored windows then none else some s₂))
second_handler_example = second_handler windows statics abrt refl

-- The callback ran once, and what it threw was swallowed.
counted : emergency_flush statics 3 ≡ 4
unfolding emergency_flush
counted = refl

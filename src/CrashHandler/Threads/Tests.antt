-- ===== src/CrashHandler/Threads/Tests.antt =====
-- A process that counts the calls of its flush callback.
use app_simple_log.Prelude.{ℕ, ◌+◌, ◌≤◌, ◌≡◌, ◌⊎◌, refl, true, false, some, total, arith}
use app_simple_log.CrashHandler.{Statics, CrashHandler, segv, handled, emergency_flush}
use app_simple_log.CrashHandler.Threads.{System, Reach}
use app_simple_log.CrashHandler.Threads.Requests.{takes, bit, flushed, requests_kept}
use app_simple_log.CrashHandler.Threads.Race.{crash_race}

abbrev statics : Statics ℕ
statics = record {
  initialized = true;
  flush_requested = false;
  flush_callback = some (λ n. (n + 1, false));
  on_segv = handled;
  on_abrt = handled;
}

abbrev handler : CrashHandler
handler = record { monitor_running = true; stop_monitor = false }

abbrev Raced : Type 0
Raced =
    ((s : System ℕ) × Reach 2 statics handler 0 s
      × (s.mem.ended ≡ true)
      × (s.mem.requests ≡ 1)
      × (s.mem.world ≡ 0))
    × ((s : System ℕ) × Reach 2 statics handler 0 s
        × (s.mem.ended ≡ true)
        × (s.mem.requests ≡ 1)
        × (s.mem.world ≡ emergency_flush statics 0))

crash_race_example : Raced
crash_race_example = crash_race 2 statics handler 0 segv (omega arith) refl refl

abbrev raced : Raced
raced = crash_race 2 statics handler 0 segv (omega arith) refl refl

abbrev after : System ℕ
after = raced.1.0

requests_kept_example :
    ((after.mem.requests ≡ after.mem.served) ⊎ (after.mem.statics.flush_requested ≡ true))
    × (after.mem.flushes + total (λ j. takes (after.pc j)) 2 ≡ after.mem.takings)
    × (after.mem.takings + bit after.mem.statics.flush_requested ≤ after.mem.requests)
    × (after.mem.world ≡ flushed statics after.mem.flushes 0)
requests_kept_example = requests_kept 2 statics handler 0 refl raced.1.1

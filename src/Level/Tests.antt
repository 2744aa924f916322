-- ===== src/Level/Tests.antt =====
-- Tests of the log levels at concrete values.
use app_simple_log.Prelude.{◌≡◌, refl, true, false, pos, negsuc}
use app_simple_log.Level.{should_log, of_int, LogLevel}

thresholds :
    (should_log LogLevel.error LogLevel.warning ≡ true)
    × (should_log LogLevel.debug LogLevel.info ≡ false)
    × (should_log LogLevel.info LogLevel.info ≡ true)
unfolding should_log
thresholds = (refl, refl, refl)

-- An `int` is cut to eight bits: 258 is a warning, 200 is below every level, and so is -1.
casts :
    (of_int (pos 258) ≡ LogLevel.warning)
    × (of_int (pos 200) ≡ LogLevel.other (negsuc 55))
    × (of_int (negsuc 0) ≡ LogLevel.other (negsuc 0))
unfolding of_int
casts = (refl, refl, refl)

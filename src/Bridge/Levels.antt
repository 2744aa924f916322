-- ===== src/Bridge/Levels.antt =====
-- The levels of the C interface: `SpeckitLogLevel` and its conversions in cbridge/speckit_logger.h.
use app_simple_log.Prelude.{◌≤ℤ◌, true, ◌≡◌, ◌↔◌, refl, ap, ◌∙◌, Option, none, some, ℤ, pos}
use app_simple_log.Level.{should_log_iff, should_log, to_int8, LogLevel, of_int, of_int8}

pub data SpeckitLogLevel : Type 0 where
  debug info warning error : SpeckitLogLevel

abbrev pub value : SpeckitLogLevel → ℤ
value debug = pos 0
value info = pos 1
value warning = pos 2
value error = pos 3

unfoldable pub to_cpp_log_level : SpeckitLogLevel → LogLevel
unfolding of_int
to_cpp_log_level level = of_int (value level)

-- `none`: a value that the C enumeration cannot hold, for which C++ leaves the cast undefined.
unfoldable pub to_c_log_level : LogLevel → Option SpeckitLogLevel
to_c_log_level LogLevel.debug = some debug
to_c_log_level LogLevel.info = some info
to_c_log_level LogLevel.warning = some warning
to_c_log_level LogLevel.error = some error
to_c_log_level (LogLevel.other v) = none

level-inj : {c d : SpeckitLogLevel} → some c ≡ some d → c ≡ d
level-inj e = cc

converts_back :
    (level : LogLevel) (c : SpeckitLogLevel)
    → to_c_log_level level ≡ some c
    → level ≡ to_cpp_log_level c
unfolding to_c_log_level to_cpp_log_level of_int of_int8
converts_back LogLevel.debug c e = ap to_cpp_log_level (level-inj e)
converts_back LogLevel.info c e = ap to_cpp_log_level (level-inj e)
converts_back LogLevel.warning c e = ap to_cpp_log_level (level-inj e)
converts_back LogLevel.error c e = ap to_cpp_log_level (level-inj e)
converts_back (LogLevel.other v) c e = cc

c-cpp : (c : SpeckitLogLevel) → to_c_log_level (to_cpp_log_level c) ≡ some c
unfolding to_c_log_level to_cpp_log_level of_int of_int8
c-cpp debug = refl
c-cpp info = refl
c-cpp warning = refl
c-cpp error = refl

int8-cpp : (c : SpeckitLogLevel) → to_int8 (to_cpp_log_level c) ≡ value c
unfolding to_cpp_log_level of_int of_int8
int8-cpp debug = refl
int8-cpp info = refl
int8-cpp warning = refl
int8-cpp error = refl

-- The two conversions are inverse to each other: a level converts to a C level exactly if it is
-- what that C level converts to, so that no level without an enumerator does. A converted level
-- passes exactly the minima whose value is not above the C value, also those that a cast gave.
c_levels_lem :
    (level minimum : LogLevel) (c : SpeckitLogLevel)
    → ((to_c_log_level level ≡ some c) ↔ (level ≡ to_cpp_log_level c))
      × ((should_log (to_cpp_log_level c) minimum ≡ true) ↔ (to_int8 minimum ≤ℤ value c))
c_levels_lem level minimum c = (
  (converts_back level c, λ e. ap to_c_log_level e ∙ c-cpp c),
  rw (← int8-cpp c) (should_log_iff (to_cpp_log_level c) minimum),
)

-- ===== src/Level.antt =====
-- Log levels: src/include/speckit/log/log_level.h.
mod Tests
use app_simple_log.Prelude.{
  ◌≡◌, ◌↔◌, refl, Bool, true, not, ℕ, zero, suc, ◌≤◌, Bytes, codes, ℤ, pos, negsuc, ltb_ℤ, ◌≤ℤ◌,
  signed, pattern_of, arith,
}

-- `enum class LogLevel : int8_t`. A cast can give a value that no enumerator names.
pub data LogLevel : Type 0 where
  debug info warning error : LogLevel
  other : ℤ → LogLevel

-- `static_cast<int8_t>(level)`
abbrev pub to_int8 : LogLevel → ℤ
to_int8 debug = pos 0
to_int8 info = pos 1
to_int8 warning = pos 2
to_int8 error = pos 3
to_int8 (other v) = v

unfoldable pub should_log : LogLevel → LogLevel → Bool
should_log level minimum = not (ltb_ℤ (to_int8 level) (to_int8 minimum))

unfoldable pub level_to_string : LogLevel → Bytes
level_to_string debug = codes "DEBUG"
level_to_string info = codes "INFO"
level_to_string warning = codes "WARNING"
level_to_string error = codes "ERROR"
level_to_string (other v) = codes "UNKNOWN"

-- The value of the underlying type, with its enumerator where it has one.
unfoldable pub of_int8 : ℤ → LogLevel
of_int8 (pos zero) = debug
of_int8 (pos (suc zero)) = info
of_int8 (pos (suc (suc zero))) = warning
of_int8 (pos (suc (suc (suc zero)))) = error
of_int8 v = other v

-- `static_cast<LogLevel>(level)` of an `int`: the low eight bits, in two's complement.
unfoldable pub of_int : ℤ → LogLevel
unfolding of_int8
of_int v = of_int8 (signed 128 (pattern_of 256 v))

-- A level passes exactly the minima whose value is not above its own, for all values that a cast
-- can give, not only the enumerators.
pub should_log_iff :
    (level minimum : LogLevel)
    → (should_log level minimum ≡ true) ↔ (to_int8 minimum ≤ℤ to_int8 level)
unfolding should_log
should_log_iff level minimum = ground arith

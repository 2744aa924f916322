-- ===== src/Bridge.antt =====
-- The C bridge: cbridge/speckit_logger.h and cbridge/speckit_logger.cpp. A null pointer is `none`; the
-- text of a C string is without its NUL.
pub mod Levels
pub mod Laws
pub mod Sessions
mod Tests
use app_simple_log.Prelude.{
  ℕ, Bool, true, false, not, List, Option, none, some, Bytes, [], ◌∷◌, ◌++◌, ℤ, pos, negsuc, ltb_ℤ,
  if◌then◌else◌,
}
use app_simple_log.Level.{LogLevel, to_int8, of_int}
use app_simple_log.Disk.{Disk}
use app_simple_log.FileManager.Ownership.{Platform, Hash}
use app_simple_log.FileManager.State
use app_simple_log.FileManager.State.{FileManager, needs_rotation}
use app_simple_log.FileManager.Rotation.{rotate}
use app_simple_log.Archive.{Answers, ZipCall, create_archive}
use app_simple_log.TagFilter as Filter
use app_simple_log.TagFilter.{TagFilter, is_tag_enabled, get_tag_level}

pub data SpeckitErrorCode : Type 0 where
  success invalid_argument null_pointer already_initialized not_initialized : SpeckitErrorCode
  file_io memory thread : SpeckitErrorCode

-- `SpeckitLoggerImpl`
pub record SpeckitLogger : Type 0 where
  pub fm : FileManager
  pub tag_filter : TagFilter
  pub level : LogLevel
  pub base_name : Bytes
  pub process_id : ℕ

-- The result of `Initialize` is ignored.
unfoldable pub speckit_logger_create :
    Platform → Hash → ℕ → Option Bytes → Disk → Option SpeckitLogger × Disk
speckit_logger_create platform hash process_id none d = (none, d)
speckit_logger_create platform hash process_id (some config) d =
    let (ok, fm, d') = State.initialize platform hash process_id (State.create config) d in
    (
      some (record {
        fm = fm;
        tag_filter = Filter.create;
        level = LogLevel.debug;
        base_name = config;
        process_id = process_id;
      }),
      d',
    )

abbrev pub tag_text : Option Bytes → Bytes
tag_text none = []
tag_text (some tag) = tag

-- The message and a line feed go to the file; the result of `Rotate` is ignored.
unfoldable pub write_line :
    Platform → Bytes → SpeckitLogger → Disk → Option (SpeckitErrorCode × SpeckitLogger × Disk)
unfolding needs_rotation
write_line platform message logger d =
    let (ok, fm₁, d₁) = State.write (message ++ b'\n' ∷ []) logger.fm d in
    if not ok
    then some (file_io, record logger { fm = fm₁ }, d₁)
    else if needs_rotation fm₁
    then elim (rotate platform fm₁ d₁) [
      | none ↦ none
      | some (rotated, fm₂, d₂) ↦ some (success, record logger { fm = fm₂ }, d₂)
    ]
    else some (success, record logger { fm = fm₁ }, d₁)

-- `none`: the call never returns.
unfoldable pub speckit_logger_log :
    Platform
    → Option SpeckitLogger
    → ℤ
    → Option Bytes
    → Option Bytes
    → Disk
    → Option (SpeckitErrorCode × Option SpeckitLogger × Disk)
unfolding write_line
speckit_logger_log platform none level tag message d = some (null_pointer, none, d)
speckit_logger_log platform (some logger) level tag none d = some (null_pointer, some logger, d)
speckit_logger_log platform (some logger) level tag (some message) d =
    if not (is_tag_enabled (tag_text tag) logger.tag_filter)
    then some (success, some logger, d)
    else if ltb_ℤ (to_int8 (of_int level))
        (to_int8 (get_tag_level (tag_text tag) logger.tag_filter))
    then some (success, some logger, d)
    else elim (write_line platform message logger d) [
      | none ↦ none
      | some (code, logger', d') ↦ some (code, some logger', d')
    ]

unfoldable pub speckit_logger_set_log_level :
    Option SpeckitLogger → ℤ → SpeckitErrorCode × Option SpeckitLogger
speckit_logger_set_log_level none level = (null_pointer, none)
speckit_logger_set_log_level (some logger) level =
    (success, some (record logger { level = of_int level }))

unfoldable pub speckit_logger_destroy :
    Platform → Option SpeckitLogger → Disk → SpeckitErrorCode × Disk
speckit_logger_destroy platform none d = (null_pointer, d)
speckit_logger_destroy platform (some logger) d = (success, (State.destroy platform logger.fm d).1)

-- 0, or -1 where there is no archive; `timestamp` is the local time, formatted.
unfoldable pub speckit_logger_archive : Answers → Option Bytes → ℕ → Bytes → Disk → ℤ × List ZipCall
speckit_logger_archive answers none process_id timestamp d = (negsuc 0, [])
speckit_logger_archive answers (some base_name) process_id timestamp d =
    let (ok, calls) = create_archive answers base_name process_id timestamp d in
    (if ok then pos 0 else negsuc 0, calls)

-- The setters without a logger are stubs: what they leave of the loggers and of the disk.
unfoldable pub speckit_logger_set_max_file_size : {W : Type 0} → ℕ → W → W
speckit_logger_set_max_file_size bytes w = w

unfoldable pub speckit_logger_set_retention_count : {W : Type 0} → ℤ → W → W
speckit_logger_set_retention_count count w = w

unfoldable pub speckit_logger_set_tag_enabled : {W : Type 0} → Option Bytes → ℤ → W → W
speckit_logger_set_tag_enabled tag enabled w = w

unfoldable pub speckit_logger_set_tag_level : {W : Type 0} → Option Bytes → ℤ → W → W
speckit_logger_set_tag_level tag level w = w

unfoldable pub speckit_logger_set_auto_archive_config : {W : Type 0} → ℤ → W → W
speckit_logger_set_auto_archive_config enabled w = w

-- ===== src/Bridge/Laws.antt =====
-- What the C bridge answers, and what its settings do.
use app_simple_log.Prelude.{
  ◌≡◌, refl, not, Bool, if◌then◌else◌, true, false, Option, none, some, Bytes, ◌++◌, ◌∷◌, [], ℤ,
  ltb_ℤ,
}
use app_simple_log.Level.{to_int8, of_int}
use app_simple_log.Disk.{Disk}
use app_simple_log.FileManager.Ownership.{Platform}
use app_simple_log.FileManager.State
use app_simple_log.FileManager.State.{FileManager}
use app_simple_log.FileManager.Rotation.{rotate}
use app_simple_log.FileManager.Rotating.{write-after-failed-rotate}
use app_simple_log.TagFilter.{is_tag_enabled, get_tag_level}
use app_simple_log.Bridge.{
  SpeckitErrorCode, success, null_pointer, file_io, SpeckitLogger, tag_text, write_line,
  speckit_logger_log,
}

-- A level passes the filter of its tag.
abbrev pub Passes : SpeckitLogger → ℤ → Option Bytes → Type 0
Passes logger level tag =
    (is_tag_enabled (tag_text tag) logger.tag_filter ≡ true)
    × (ltb_ℤ (to_int8 (of_int level)) (to_int8 (get_tag_level (tag_text tag) logger.tag_filter))
        ≡ false)

-- Whether a message goes to the file, and whether the file takes it whole.
abbrev pub passes : SpeckitLogger → ℤ → Option Bytes → Bool
passes logger level tag =
    if is_tag_enabled (tag_text tag) logger.tag_filter
    then not
        (ltb_ℤ (to_int8 (of_int level)) (to_int8 (get_tag_level (tag_text tag) logger.tag_filter)))
    else false

abbrev pub takes_line : SpeckitLogger → Bytes → Disk → Bool
takes_line logger message d = (State.write (message ++ b'\n' ∷ []) logger.fm d).0

-- The code of `speckit_logger_log` for a logger that is there.
abbrev pub expected : SpeckitLogger → ℤ → Option Bytes → Option Bytes → Disk → SpeckitErrorCode
expected logger level tag none d = null_pointer
expected logger level tag (some message) d =
    if passes logger level tag
    then if takes_line logger message d then success else file_io
    else success

-- Without a message, or with one that does not pass, nothing changes.
abbrev pub idles : SpeckitLogger → ℤ → Option Bytes → Option Bytes → Bool
idles logger level tag none = true
idles logger level tag (some message) = not (passes logger level tag)

-- A message that passes its filter, sent after a rotation failed, is lost with the file error, and the
-- disk stays as it is.
pub log-after-failed-rotate :
    (platform : Platform) (logger : SpeckitLogger) (fm : FileManager) (d d' later : Disk)
    (level : ℤ) (tag : Option Bytes) (message : Bytes)
    → rotate platform fm d ≡ some (false, logger.fm, d')
    → Passes logger level tag
    → speckit_logger_log platform (some logger) level tag (some message) later
      ≡ some (file_io, some logger, later)
unfolding speckit_logger_log write_line
log-after-failed-rotate platform logger fm d d' later level tag message failed passes =
    let lost =
      write-after-failed-rotate platform fm logger.fm d d' later (message ++ b'\n' ∷ []) failed in
    rw (passes.0, passes.1, lost) refl

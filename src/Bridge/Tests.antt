-- ===== src/Bridge/Tests.antt =====
-- The C bridge at a concrete logger, whose file refuses to be renamed.
use app_simple_log.Prelude.{
  ◌≡◌, refl, true, false, false, Option, none, some, length, Bytes, codes, List, [], ◌∷◌, pos,
  bytes_eq,
}
use app_simple_log.Level.{LogLevel, of_int}
use app_simple_log.Disk.{Disk, rename, lookup}
use app_simple_log.FileManager.Ownership.{macos}
use app_simple_log.FileManager.State.{FileManager, close_current_file}
use app_simple_log.FileManager.Rotation.{rotate, rename_with_sequence}
use app_simple_log.TagFilter as Filter
use app_simple_log.TagFilter.{is_tag_enabled, get_tag_level}
use app_simple_log.Bridge.{file_io, SpeckitLogger, speckit_logger_log}
use app_simple_log.Bridge.Laws.{Passes, log-after-failed-rotate}
use app_simple_log.Bridge.Sessions.{
  Call, log, set_log_level, set_retention_count, run, only_logs, seen, settings_ignored,
}

abbrev disk : Disk
disk = record {
  files = (codes "/w/app.log", codes "now") ∷ [];
  directories = codes "/w" ∷ [];
  current_path = codes "/w";
  named_objects = [];
  faults = record {
    open_fails = λ path. false;
    rename_fails = λ from to. true;
    remove_fails = λ path. false;
    mkdir_fails = λ path. false;
    accepted = length;
    flush_fails = false;
    named_object_fails = λ name. false;
    reopen_fails = λ name. false;
    unit_taken = λ name. false;
    conversion_fails = λ text. false;
  };
}

abbrev manager : Option Bytes → FileManager
manager handle = record {
  base_name = codes "/w/app";
  process_id = 4;
  current_file_name = codes "/w/app.log";
  max_size = 10;
  retention_count = 1;
  current_file_size = 3;
  initialized = true;
  file_handle = handle;
  mutex_handle = none;
}

abbrev logger : Option Bytes → SpeckitLogger
logger handle = record {
  fm = manager handle;
  tag_filter = Filter.create;
  level = LogLevel.debug;
  base_name = codes "app";
  process_id = 4;
}

abbrev opened : SpeckitLogger
opened = logger (some (codes "/w/app.log"))

abbrev settings : List Call
settings =
    set_log_level (pos 3) ∷ set_retention_count (pos 2) ∷ log (pos 0) none (some (codes "x")) ∷ []

settings_ignored_example :
    seen (run macos settings (some opened) disk)
    ≡ seen (run macos (only_logs settings) (some opened) disk)
settings_ignored_example = settings_ignored macos settings (some opened) disk

failed_rotation :
    rotate macos (manager (some (codes "/w/app.log"))) disk ≡ some (false, (logger none).fm, disk)
unfolding rotate close_current_file rename_with_sequence rename lookup bytes_eq
failed_rotation = refl

error-Passes : Passes (logger none) (pos 3) none
unfolding is_tag_enabled get_tag_level of_int lookup
error-Passes = (refl, refl)

log-after-failed-rotate_example :
    speckit_logger_log macos (some (logger none)) (pos 3) none (some (codes "x")) disk
    ≡ some (file_io, some (logger none), disk)
log-after-failed-rotate_example =
    log-after-failed-rotate macos (logger none) (manager (some (codes "/w/app.log"))) disk disk disk
      (pos 3) none (codes "x") failed_rotation error-Passes

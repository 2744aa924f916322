-- ===== src/FileManager/Tests.antt =====
-- The file manager at concrete names and disks.
use app_simple_log.Prelude.{
  ℕ, ◌+◌, ◌-◌, ◌<◌, ◌≡◌, ◌∷◌, ◌++◌, refl, sym, min, Bool, true, false, List, [], none, some, Bytes,
  codes, length, starts_with, bytes_eq, find_last_of, stoi, All, pos, ◌≤ℤ◌, int_max, find_from,
  arith,
}
use app_simple_log.Disk.{rename, Disk, Faults, has_slash, lookup, file_size, append}
use app_simple_log.FileManager.Ownership.{is_another_process_logging, cleanup_mutex, macos}
use app_simple_log.FileManager.Names.{
  rotated_name, extract_sequence_number, is_historical_log_file, calculate_next_sequence_number,
}
use app_simple_log.FileManager.State.{close_current_file, FileManager, create, initialize, write}
use app_simple_log.FileManager.Rotation.{
  rename_with_sequence, get_historical_files, delete_oldest_files, rotate,
}
use app_simple_log.FileManager.Retention.{removed, IsOldest, delete_oldest_files_lem}
use app_simple_log.FileManager.NameLaws.{extract_sequence_number-rotated_name}
use app_simple_log.FileManager.Matching.{is_historical_log_file-rotated_name}
use app_simple_log.FileManager.Sequence.{sequence, calculate_next_sequence_number_above}
use app_simple_log.FileManager.Writing.{IsTracked, write_short}
use app_simple_log.FileManager.Rotating.{Rotated, rotate_ends, rotate_overwrites}
use mathlib.Core.Path.{subst}
use mathlib.Core.List.{Perm}
use app_simple_log.FileManager.Restart.{restart_not_first}
use app_simple_log.FileManager.Opening.{initialize_lem}

abbrev no_faults : Faults
no_faults = record {
  open_fails = λ path. false;
  rename_fails = λ from to. false;
  remove_fails = λ path. false;
  mkdir_fails = λ path. false;
  accepted = length;
  flush_fails = false;
  named_object_fails = λ name. false;
  reopen_fails = λ name. false;
  unit_taken = λ name. false;
  conversion_fails = λ text. false;
}

-- A directory with the current file and two historical ones.
abbrev disk : Disk
disk = record {
  files =
      (codes "/w/app.log", codes "now")
      ∷ (codes "/w/app.1.log", codes "one")
      ∷ (codes "/w/app.2.log", codes "two")
      ∷ [];
  directories = codes "/w" ∷ [];
  current_path = codes "/w";
  named_objects = [];
  faults = no_faults;
}

-- A disk that takes two bytes of a text at most.
abbrev short_disk : Disk
short_disk = record disk { faults = record no_faults { accepted = λ text. 2 } }

abbrev no_rename_disk : Disk
no_rename_disk = record disk { faults = record no_faults { rename_fails = λ from to. true } }

-- A manager of this base name with its file open.
abbrev manager : Bytes → FileManager
manager base_name = record {
  base_name = base_name;
  process_id = 4;
  current_file_name = codes "/w/app.log";
  max_size = 10;
  retention_count = 1;
  current_file_size = 3;
  initialized = true;
  file_handle = some (codes "/w/app.log");
  mutex_handle = none;
}

tracked :
    (d : Disk)
    → lookup (codes "/w/app.log") d.files ≡ some (codes "now")
    → IsTracked (manager (codes "/w/app")) d (codes "/w/app.log")
tracked d there = record { opened = refl; exact = ground (arith, there) }

delete_oldest_files_lem_example :
    (gone : List Bytes) × (left : List Bytes) × (delete_oldest_files (manager (codes "app")) disk
      ≡ some (removed gone disk))
    × Perm (gone ++ left) (get_historical_files (manager (codes "app")) disk)
    × (length left ≡ min 1 (length (get_historical_files (manager (codes "app")) disk)))
    × All (λ g. IsOldest (sequence g) left) gone
delete_oldest_files_lem_example = delete_oldest_files_lem (manager (codes "app")) disk

rotate_ends_example :
    (ok : Bool) × (fm' : FileManager) × (d' : Disk) × (rotate macos (manager (codes "app")) disk
      ≡ some (ok, fm', d'))
    × Rotated macos (manager (codes "app")) disk ok fm'
rotate_ends_example = rotate_ends macos (manager (codes "app")) disk

abbrev closed_manager : FileManager
closed_manager = record (manager (codes "/w/app")) { file_handle = none }

failed_rotation :
    rotate macos (manager (codes "/w/app")) no_rename_disk
    ≡ some (false, closed_manager, no_rename_disk)
unfolding rotate close_current_file rename_with_sequence rename lookup bytes_eq
failed_rotation = refl

write_short_example :
    ((write (codes "abc") (manager (codes "/w/app")) short_disk).0 ≡ false)
    × (file_size (codes "/w/app.log") (write (codes "abc") (manager (codes "/w/app")) short_disk).2
        ≡ (write (codes "abc") (manager (codes "/w/app")) short_disk).1.current_file_size
          + (append (codes "/w/app.log") (codes "abc") short_disk).0)
unfolding lookup bytes_eq
write_short_example =
    write_short (codes "abc") (manager (codes "/w/app")) short_disk (codes "/w/app.log")
      (tracked short_disk refl) (unfold append lookup in omega arith)

is_historical_log_file-rotated_name_example :
    is_historical_log_file (rotated_name (codes "app") (pos 12)) (codes "app" ++ codes ".") ≡ true
unfolding starts_with
is_historical_log_file-rotated_name_example =
    is_historical_log_file-rotated_name (codes "app") 12 (unfold find_from in refl)
      (unfold rotated_name in omega arith)

extract_sequence_number-rotated_name_example :
    extract_sequence_number (rotated_name (codes "/w/a.p") (pos 12)) ≡ pos 12
extract_sequence_number-rotated_name_example =
    extract_sequence_number-rotated_name (codes "/w/a.p") 12 (omega arith)
      (unfold rotated_name in omega arith)

sequences : (sequence (codes "a.1.log") ≡ pos 1) × (sequence (codes "a.7.log") ≡ pos 7)
unfolding extract_sequence_number find_last_of stoi
sequences = (refl, refl)

calculate_next_sequence_number_above_example :
    (k : ℕ) × (calculate_next_sequence_number (codes "a.1.log" ∷ codes "a.7.log" ∷ [])
      ≡ pos (k + 1))
    × (k < int_max)
    × All (λ f. sequence f ≤ℤ pos k) (codes "a.1.log" ∷ codes "a.7.log" ∷ [])
calculate_next_sequence_number_above_example =
    calculate_next_sequence_number_above (codes "a.1.log" ∷ codes "a.7.log" ∷ []) (
      subst (λ v. v ≤ℤ pos (int_max - 1)) (sym sequences.0) (omega arith),
      (subst (λ v. v ≤ℤ pos (int_max - 1)) (sym sequences.1) (omega arith), tt),
    )

initialize_lem_example :
    (path : Bytes) × IsTracked
      (initialize macos length 4 (create (codes "app")) disk).1
      (initialize macos length 4 (create (codes "app")) disk).2
      path
    × ((later : Disk)
        → get_historical_files (initialize macos length 4 (create (codes "app")) disk).1 later ≡ [])
unfolding create find_last_of bytes_eq
initialize_lem_example =
    initialize_lem macos length 4 (create (codes "app")) disk (unfold create in refl)
      (unfold initialize in refl)

abbrev rotated :
    (ok : Bool) × (fm' : FileManager) × (d' : Disk) × (rotate macos (manager (codes "/w/app")) disk
      ≡ some (ok, fm', d'))
    × Rotated macos (manager (codes "/w/app")) disk ok fm'
rotated = rotate_ends macos (manager (codes "/w/app")) disk

rotate_overwrites_example :
    (lookup (rotated_name (codes "/w/app") (pos 1)) rotated.2.files ≡ some (codes "now"))
    × (lookup (codes "/w/app.2.log") rotated.2.files ≡ lookup (codes "/w/app.2.log") disk.files)
unfolding has_slash lookup bytes_eq rotated_name
rotate_overwrites_example =
    rotate_overwrites macos (manager (codes "/w/app")) disk (codes "/w/app.log") (codes "now") refl
      refl refl refl rotated.0 rotated.1 rotated.2 rotated.3 (codes "/w/app.2.log")
      (λ e. absurd (ground (arith, e))) (λ e. absurd (ground (arith, e)))
      (λ e. absurd (ground (arith, e)))

restart_not_first_example :
    let (another, handle, d₁) = is_another_process_logging macos length (codes "/w/app") disk in
    (is_another_process_logging macos length
      (codes "/w/app")
      (record (cleanup_mutex macos handle d₁).1 { faults = no_faults })).0
    ≡ true
unfolding is_another_process_logging
restart_not_first_example = restart_not_first length (codes "/w/app") disk no_faults refl

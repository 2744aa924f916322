-- ===== src/FileManager/State.antt =====
-- The file manager's state: opening the log file, writing and flushing.
use app_simple_log.Prelude.{
  ℕ, ◌*◌, ◌%◌, Bool, true, false, ◌&&◌, not, [], Option, none, some, Bytes, length, add_size, leb,
  ◌==◌, if◌then◌else◌,
}
use app_simple_log.Disk.{
  Disk, exists, file_size, open_append, append, create_directories, is_absolute, parent_path,
  joined, lookup,
}
use app_simple_log.FileManager.Names.{generate_file_name}
use app_simple_log.FileManager.Ownership.{
  Platform, windows, macos, elsewhere, Hash, is_another_process_logging, cleanup_mutex,
  utf8_to_wide_string,
}

-- `file_handle` is the path of the open file; `mutex_handle` the name of the object held.
pub record FileManager : Type 0 where
  pub base_name : Bytes
  pub process_id : ℕ
  pub current_file_name : Bytes
  pub max_size : ℕ
  pub retention_count : ℕ
  pub current_file_size : ℕ
  pub initialized : Bool
  pub file_handle : Option Bytes
  pub mutex_handle : Option Bytes

unfoldable pub create : Bytes → FileManager
create base_name = record {
  base_name = base_name;
  process_id = 0;
  current_file_name = [];
  max_size = 10 * 1024 * 1024;
  retention_count = 3;
  current_file_size = 0;
  initialized = false;
  file_handle = none;
  mutex_handle = none;
}

unfoldable pub close_current_file : FileManager → FileManager
close_current_file fm = record fm { file_handle = none }

-- The destructor.
unfoldable pub destroy : Platform → FileManager → Disk → FileManager × Disk
unfolding close_current_file cleanup_mutex
destroy platform fm d =
    let closed = close_current_file fm in
    let (handle, d₁) = cleanup_mutex platform closed.mutex_handle d in
    (record closed { mutex_handle = handle }, d₁)

unfoldable pub ensure_parent_directory_exists : Bytes → Disk → Bool × Disk
unfolding exists parent_path create_directories
ensure_parent_directory_exists base_path d =
    let parent_dir = parent_path base_path in
    if not (length parent_dir == 0) && not (exists parent_dir d)
    then create_directories parent_dir d
    else (true, d)

-- A handle for the current name, or none.
unfoldable pub open_handle : FileManager → Disk → Bool × FileManager × Disk
unfolding open_append
open_handle fm d =
    let (opened, d₁) = open_append fm.current_file_name d in
    (opened, record fm { file_handle = if opened then some fm.current_file_name else none }, d₁)

-- On Windows the name is converted first.
unfoldable pub open_log_file : Platform → FileManager → Disk → Bool × FileManager × Disk
unfolding open_handle
open_log_file windows fm d = elim (utf8_to_wide_string fm.current_file_name d) [
  | none ↦ (false, record fm { file_handle = none }, d)
  | some wide_path ↦ open_handle fm d
]
open_log_file macos fm d = open_handle fm d
open_log_file elsewhere fm d = open_handle fm d

unfoldable pub update_current_file_size : FileManager → Disk → FileManager
unfolding exists lookup
update_current_file_size fm d =
    if exists fm.current_file_name d
    then record fm { current_file_size = file_size fm.current_file_name d }
    else fm

unfoldable pub initialize : Platform → Hash → ℕ → FileManager → Disk → Bool × FileManager × Disk
unfolding ensure_parent_directory_exists is_another_process_logging generate_file_name open_log_file
    update_current_file_size is_absolute
initialize platform hash process_id fm d =
    if fm.initialized
    then (true, fm, d)
    else (let base_path =
          if is_absolute fm.base_name then fm.base_name else joined d.current_path fm.base_name in
        let fm₁ = record fm { process_id = process_id; base_name = base_path } in
        let (parent_there, d₁) = ensure_parent_directory_exists base_path d in
        if not parent_there
        then (false, fm₁, d₁)
        else (let (another, handle, d₂) =
              is_another_process_logging platform hash fm₁.base_name d₁ in
            let first_process = not another in
            let fm₂ = record fm₁ {
              mutex_handle = elim handle [ none ↦ fm₁.mutex_handle | some h ↦ some h ];
              current_file_name = generate_file_name base_path process_id first_process;
            } in
            let (opened, fm₃, d₃) = open_log_file platform fm₂ d₂ in
            if not opened
            then (false, fm₃, d₃)
            else (true, record (update_current_file_size fm₃ d₃) { initialized = true }, d₃)))

unfoldable pub should_flush_to_file : FileManager → Bool
should_flush_to_file fm = fm.current_file_size % (1024 * 1024) == 0

-- `fflush`, and on other systems than Windows `fsync`: whether the bytes got to the disk.
unfoldable pub flush_to_file : FileManager → Disk → Bool
flush_to_file fm d = not d.faults.flush_fails

unfoldable pub write : Bytes → FileManager → Disk → Bool × FileManager × Disk
unfolding append should_flush_to_file flush_to_file
write text fm d = elim fm.file_handle [
  | none ↦ (false, fm, d)
  | some path ↦
      let (written, d₁) = append path text d in
      if not (written == length text)
      then (false, fm, d₁)
      else (let fm₁ = record fm {
        current_file_size = add_size fm.current_file_size (length text);
      } in
          if should_flush_to_file fm₁ then (flush_to_file fm₁ d₁, fm₁, d₁) else (true, fm₁, d₁))
]

unfoldable pub flush : FileManager → Disk → Bool
unfolding flush_to_file
flush fm d = elim fm.file_handle [ none ↦ false | some path ↦ flush_to_file fm d ]

unfoldable pub set_max_file_size : ℕ → FileManager → FileManager
set_max_file_size max_size fm = record fm { max_size = max_size }

unfoldable pub set_retention_count : ℕ → FileManager → FileManager
set_retention_count count fm = record fm { retention_count = count }

abbrev pub get_log_file_name : FileManager → Bytes
get_log_file_name fm = fm.current_file_name

unfoldable pub needs_rotation : FileManager → Bool
needs_rotation fm = leb fm.max_size fm.current_file_size

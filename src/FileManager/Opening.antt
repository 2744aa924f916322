-- ===== src/FileManager/Opening.antt =====
-- What a successful `Initialize` leaves: an open file whose size the manager tracks.
use mathlib.Core.Bool.{false≢true}
use mathlib.Core.Path.{subst}
use app_simple_log.Prelude.{
  not, ℕ, ◌≡◌, refl, ap, ◌∙◌, sym, true, false, Bytes, none, some, [], ◌∷◌, Bool-cases, inl, inr,
  Option-cases, if◌then◌else◌, arith,
}
use app_simple_log.Disk.{Disk, contents_of, exists, open_append, has_slash, is_absolute, joined}
use app_simple_log.Disk.Laws.{lookup-put, bytes_eq_refl}
use app_simple_log.FileManager.Names.{generate_file_name}
use app_simple_log.FileManager.Ownership.{
  Platform, windows, macos, elsewhere, Hash, utf8_to_wide_string, is_another_process_logging,
}
use app_simple_log.FileManager.State.{
  FileManager, open_handle, open_log_file, update_current_file_size, initialize,
  ensure_parent_directory_exists,
}
use app_simple_log.FileManager.Rotation.{get_historical_files}
use app_simple_log.FileManager.Unmatched.{get_historical_files-nil}
use app_simple_log.FileManager.Writing.{IsTracked}

-- The base name, once it is made absolute.
abbrev absolute_base : FileManager → Disk → Bytes
absolute_base fm d =
    if is_absolute fm.base_name then fm.base_name else joined d.current_path fm.base_name

has_slash-joined : (directory name : Bytes) → has_slash (joined directory name) ≡ true
unfolding has_slash
has_slash-joined [] name = ground arith
has_slash-joined (c ∷ directory) name = ground (arith, has_slash-joined directory name)

has_slash-is_absolute : (s : Bytes) → is_absolute s ≡ true → has_slash s ≡ true
unfolding has_slash is_absolute
has_slash-is_absolute [] e = ground arith
has_slash-is_absolute (c ∷ s) e = ground arith

has_slash-absolute_base : (fm : FileManager) (d : Disk) → has_slash (absolute_base fm d) ≡ true
has_slash-absolute_base fm d = elim (Bool-cases (is_absolute fm.base_name)) [
  | inl e ↦ ground (arith, has_slash-is_absolute fm.base_name e)
  | inr e ↦ ground (arith, has_slash-joined d.current_path fm.base_name)
]

-- A file that is open under the manager's current name and exists.
record IsOpen (base : Bytes) (fm : FileManager) (d : Disk) : Type 0 where
  pub handle : fm.file_handle ≡ some fm.current_file_name
  there : exists fm.current_file_name d ≡ true
  based : fm.base_name ≡ base

open_handle_lem :
    (fm : FileManager) (d : Disk)
    → (open_handle fm d).0 ≡ true
    → IsOpen fm.base_name (open_handle fm d).1 (open_handle fm d).2
unfolding open_handle open_append
open_handle_lem fm d e =
    let there =
      lookup-put fm.current_file_name fm.current_file_name (contents_of fm.current_file_name d)
        d.files in
    let same = bytes_eq_refl fm.current_file_name in
    record {
      handle = ground (arith, e);
      there = unfold exists in ground (arith, e, there, same);
      based = refl;
    }

open_log_file_lem :
    (platform : Platform) (fm : FileManager) (d : Disk)
    → (open_log_file platform fm d).0 ≡ true
    → IsOpen fm.base_name (open_log_file platform fm d).1 (open_log_file platform fm d).2
unfolding open_log_file
open_log_file_lem windows fm d e =
    elim (Option-cases (utf8_to_wide_string fm.current_file_name d)) [
      | inl refused ↦ absurd (ground (arith, e, refused))
      | inr (wide, converted) ↦
          let same : open_log_file windows fm d ≡ open_handle fm d = ground (arith, converted) in
          subst (λ r. IsOpen fm.base_name r.1 r.2) (sym same)
            (open_handle_lem fm d (sym (ap (λ r. r.0) same) ∙ e))
    ]
open_log_file_lem macos fm d e = open_handle_lem fm d e
open_log_file_lem elsewhere fm d e = open_handle_lem fm d e

-- What is left of the opened file's state once its size is read.
update_current_file_size-IsOpen :
    (base : Bytes) (fm : FileManager) (d : Disk)
    → IsOpen base fm d
    → IsTracked (update_current_file_size fm d) d fm.current_file_name
unfolding update_current_file_size
update_current_file_size-IsOpen base fm d o = record {
  opened = ground (arith, o.handle, o.there);
  exact = ground (arith, o.there);
}

-- The manager when it opens its file.
abbrev named : Platform → Hash → ℕ → FileManager → Disk → FileManager
named platform hash process_id fm d =
    let base_path = absolute_base fm d in
    let owner =
      is_another_process_logging platform hash base_path
        (ensure_parent_directory_exists base_path d).1 in
    record fm {
      process_id = process_id;
      base_name = base_path;
      mutex_handle = elim owner.1 [ none ↦ fm.mutex_handle | some h ↦ some h ];
      current_file_name = generate_file_name base_path process_id (not owner.0);
    }

abbrev disk_named : Platform → Hash → FileManager → Disk → Disk
disk_named platform hash fm d =
    (is_another_process_logging platform hash (absolute_base fm d)
      (ensure_parent_directory_exists (absolute_base fm d) d).1).2

initialize_steps :
    (platform : Platform) (hash : Hash) (process_id : ℕ) (fm : FileManager) (d : Disk)
    → fm.initialized ≡ false
    → (ensure_parent_directory_exists (absolute_base fm d) d).0 ≡ true
    → initialize platform hash process_id fm d ≡ (
        let (opened, fm₃, d₃) =
          open_log_file platform
            (named platform hash process_id fm d)
            (disk_named platform hash fm d) in
        if not opened
        then (false, fm₃, d₃)
        else (true, record (update_current_file_size fm₃ d₃) { initialized = true }, d₃))
unfolding initialize
initialize_steps platform hash process_id fm d fresh there = rw (fresh, there) refl

initialize_no_parent :
    (platform : Platform) (hash : Hash) (process_id : ℕ) (fm : FileManager) (d : Disk)
    → fm.initialized ≡ false
    → (ensure_parent_directory_exists (absolute_base fm d) d).0 ≡ false
    → (initialize platform hash process_id fm d).0 ≡ false
unfolding initialize
initialize_no_parent platform hash process_id fm d fresh there = rw (fresh, there) refl

based_on_success :
    (platform : Platform) (hash : Hash) (process_id : ℕ) (fm : FileManager) (d : Disk)
    → fm.initialized ≡ false
    → (initialize platform hash process_id fm d).0 ≡ true
    → (fm₃ : FileManager) × (d₃ : Disk) × (initialize platform hash process_id fm d
        ≡ (true, record (update_current_file_size fm₃ d₃) { initialized = true }, d₃))
      × IsOpen (absolute_base fm d) fm₃ d₃
based_on_success platform hash process_id fm d fresh e =
    let fm₂ = named platform hash process_id fm d in
    let d₂ = disk_named platform hash fm d in
    elim (Bool-cases (ensure_parent_directory_exists (absolute_base fm d) d).0) [
      | inl there ↦
          let steps = initialize_steps platform hash process_id fm d fresh there in
          elim (Bool-cases (open_log_file platform fm₂ d₂).0) [
            | inl ok ↦ (
              (open_log_file platform fm₂ d₂).1,
              (open_log_file platform fm₂ d₂).2,
              steps ∙ rw ok refl,
              open_log_file_lem platform fm₂ d₂ ok,
            )
            | inr failed ↦ absurd (false≢true (sym (ap (λ r. r.0) steps ∙ rw failed refl) ∙ e))
          ]
      | inr missing ↦
          absurd (
            false≢true (sym (initialize_no_parent platform hash process_id fm d fresh missing) ∙ e))
    ]

update-base :
    (base : Bytes) (fm : FileManager) (d : Disk)
    → IsOpen base fm d
    → (update_current_file_size fm d).base_name ≡ base
unfolding update_current_file_size
update-base base fm d o = ground (arith, o.based)

-- A first `Initialize` that succeeds leaves the log file open with its size tracked; the manager that
-- it leaves finds no file on any disk to be historical, whatever the base name was.
pub initialize_lem :
    (platform : Platform) (hash : Hash) (process_id : ℕ) (fm : FileManager) (d : Disk)
    → fm.initialized ≡ false
    → (initialize platform hash process_id fm d).0 ≡ true
    → (path : Bytes) × IsTracked
        (initialize platform hash process_id fm d).1
        (initialize platform hash process_id fm d).2
        path
      × ((later : Disk)
          → get_historical_files (initialize platform hash process_id fm d).1 later ≡ [])
initialize_lem platform hash process_id fm d fresh e =
    let (fm₃, d₃, run, is_open) = based_on_success platform hash process_id fm d fresh e in
    let tracked = update_current_file_size-IsOpen (absolute_base fm d) fm₃ d₃ is_open in
    (
      fm₃.current_file_name,
      record { opened = rw run tracked.opened; exact = rw run tracked.exact },
      λ later.
          (get_historical_files-nil (initialize platform hash process_id fm d).1 later (
            rw run (
              ap has_slash (update-base (absolute_base fm d) fm₃ d₃ is_open)
              ∙ has_slash-absolute_base fm d))).0,
    )

-- ===== src/FileManager/Rotation.antt =====
-- `Rotate` and what it calls: the historical files, their retention, and the renaming.
use app_simple_log.Prelude.{
  ℕ, zero, suc, Bool, true, false, not, List, [], ◌∷◌, ◌++◌, Option, none, some, Bytes, codes,
  length, ℤ, ltb, if◌then◌else◌,
}
use app_simple_log.Disk.{Disk, names_in, rename, remove, joined}
use app_simple_log.FileManager.Names.{
  is_historical_log_file, calculate_next_sequence_number, find_oldest_historical_file, rotated_name,
  generate_file_name,
}
use app_simple_log.FileManager.Ownership.{Platform}
use app_simple_log.FileManager.State.{FileManager, close_current_file, open_log_file}

-- The loop of `GetHistoricalFiles`, over the names in the current directory.
unfoldable pub historical_among : Bytes → Bytes → List Bytes → List Bytes
unfolding is_historical_log_file
historical_among directory base_pattern [] = []
historical_among directory base_pattern (name ∷ names) =
    let rest = historical_among directory base_pattern names in
    if is_historical_log_file name base_pattern then joined directory name ∷ rest else rest

unfoldable pub get_historical_files : FileManager → Disk → List Bytes
unfolding historical_among names_in
get_historical_files fm d =
    historical_among d.current_path (fm.base_name ++ codes ".") (names_in d.current_path d.files)

-- `vector::erase` at an index, and the element there.
abbrev pub erase_at : List Bytes → ℕ → List Bytes
erase_at [] i = []
erase_at (x ∷ xs) zero = xs
erase_at (x ∷ xs) (suc i) = x ∷ erase_at xs i

abbrev pub element_at : List Bytes → ℕ → Bytes
element_at [] i = []
element_at (x ∷ xs) zero = x
element_at (x ∷ xs) (suc i) = element_at xs i

-- The loop of `DeleteOldestFiles`: the files left in the list, and the disk. `none`: the rounds ran
-- out.
unfoldable pub delete_rounds : ℕ → ℕ → List Bytes → Disk → Option (List Bytes × Disk)
delete_rounds zero retention_count files d = none
delete_rounds (suc fuel) retention_count files d =
    let oldest = find_oldest_historical_file files in
    let round : Option (List Bytes × Disk) = elim (ltb oldest (length files)) [
      | true ↦
          delete_rounds fuel retention_count (erase_at files oldest)
            (remove (element_at files oldest) d)
      | false ↦ delete_rounds fuel retention_count files d
    ] in
    if ltb retention_count (length files) then round else some (files, d)

-- One round more than there are files is enough.
unfoldable pub delete_oldest_files : FileManager → Disk → Option Disk
delete_oldest_files fm d =
    let files = get_historical_files fm d in
    elim (delete_rounds (suc (length files)) fm.retention_count files d) [
      | none ↦ none
      | some (left, d₁) ↦ some d₁
    ]

unfoldable pub rename_with_sequence : ℤ → FileManager → Disk → Bool × Disk
rename_with_sequence sequence fm d =
    rename fm.current_file_name (rotated_name fm.base_name sequence) d

-- `none`: the deletion never ends.
unfoldable pub rotate : Platform → FileManager → Disk → Option (Bool × FileManager × Disk)
unfolding close_current_file
rotate platform fm d = elim fm.file_handle [
  | none ↦ some (false, fm, d)
  | some path ↦
      let fm₁ = close_current_file fm in
      let historical_files = get_historical_files fm₁ d in
      let next_sequence = calculate_next_sequence_number historical_files in
      let (renamed, d₁) = rename_with_sequence next_sequence fm₁ d in
      if not renamed then some (false, fm₁, d₁) else elim (delete_oldest_files fm₁ d₁) [
        | none ↦ none
        | some d₂ ↦
            let fm₂ = record fm₁ {
              current_file_name = generate_file_name fm₁.base_name fm₁.process_id true;
            } in
            let (opened, fm₃, d₃) = open_log_file platform fm₂ d₂ in
            if not opened
            then some (false, fm₃, d₃)
            else some (true, record fm₃ { current_file_size = 0 }, d₃)
      ]
]

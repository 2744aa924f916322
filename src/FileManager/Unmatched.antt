-- ===== src/FileManager/Unmatched.antt =====
-- A base name with a directory in it has no historical files: its pattern is held against bare file
-- names. `Initialize` makes every base name absolute, so this is every initialized manager.
use app_simple_log.Prelude.{
  ◌+◌, pos, ◌≡◌, refl, ap, Bool, true, false, List, [], ◌∷◌, ◌++◌, Bytes, codes, All, drop, length,
  find-eq-zero, starts_with, if◌then◌else◌, arith,
}
use app_simple_log.Disk.{Disk, has_slash, names_in}
use app_simple_log.FileManager.Names.{is_historical_log_file, calculate_next_sequence_number}
use app_simple_log.FileManager.State.{FileManager}
use app_simple_log.FileManager.Rotation.{historical_among, get_historical_files}

starts_with-has_slash :
    (p s : Bytes) → has_slash p ≡ true → starts_with p s ≡ true → has_slash s ≡ true
unfolding has_slash starts_with
starts_with-has_slash [] s h k = cc
starts_with-has_slash (c ∷ p) [] h k = cc
starts_with-has_slash (c ∷ p) (d ∷ s) h k = ground (arith, starts_with-has_slash p s)

has_slash-append : (p s : Bytes) → has_slash p ≡ true → has_slash (p ++ s) ≡ true
unfolding has_slash
has_slash-append [] s h = cc
has_slash-append (c ∷ p) s h = ground (arith, has_slash-append p s)

not-is_historical_log_file :
    (name base_pattern : Bytes)
    → has_slash base_pattern ≡ true
    → has_slash name ≡ false
    → is_historical_log_file name base_pattern ≡ false
unfolding is_historical_log_file
not-is_historical_log_file name base_pattern h k =
    ground (arith, find-eq-zero base_pattern name, starts_with-has_slash base_pattern name h)

All-if :
    (P : Bytes → Type 0) (b : Bool) (x : Bytes) (xs : List Bytes)
    → (b ≡ true → P x)
    → All P xs
    → All P (if b then x ∷ xs else xs)
All-if P true x xs h all = (h refl, all)
All-if P false x xs h all = all

names_in-bare :
    (directory : Bytes) (m : List (Bytes × Bytes))
    → All (λ n. has_slash n ≡ false) (names_in directory m)
unfolding names_in
names_in-bare directory [] = tt
names_in-bare directory ((path, text) ∷ m) =
    All-if (λ n. has_slash n ≡ false) _ (drop (length directory + 1) path) (names_in directory m)
      (λ b. ground arith) (names_in-bare directory m)

historical_among-nil :
    (directory base_pattern : Bytes) (names : List Bytes)
    → has_slash base_pattern ≡ true
    → All (λ n. has_slash n ≡ false) names
    → historical_among directory base_pattern names ≡ []
unfolding historical_among
historical_among-nil directory base_pattern [] h all = refl
historical_among-nil directory base_pattern (name ∷ names) h all = ground (
  arith,
  not-is_historical_log_file name base_pattern h all.0,
  historical_among-nil directory base_pattern names h all.1,
)

-- With a base name that holds a directory separator, no file is ever found to be historical, and the
-- next sequence number is always 1, whatever the disk holds.
pub get_historical_files-nil :
    (fm : FileManager) (d : Disk)
    → has_slash fm.base_name ≡ true
    → (get_historical_files fm d ≡ [])
      × (calculate_next_sequence_number (get_historical_files fm d) ≡ pos 1)
unfolding get_historical_files calculate_next_sequence_number
get_historical_files-nil fm d h =
    let nothing =
      historical_among-nil d.current_path (fm.base_name ++ codes ".")
        (names_in d.current_path d.files) (has_slash-append fm.base_name (codes ".") h)
        (names_in-bare d.current_path d.files) in
    (nothing, ap calculate_next_sequence_number nothing)

-- ===== src/FileManager/Rotating.antt =====
-- What `Rotate` does: it ends, it leaves a manager that either writes to the base name's file or
-- writes no more, and with a base name that holds a directory it keeps one old file.
use mathlib.Core.Path.{subst}
use app_simple_log.Prelude.{
  Bool-cases, inr, inl, ℕ, suc, ◌≡◌, ◌≢◌, refl, sym, ap, ◌∙◌, Bool, true, false, List, [], ◌∷◌,
  ◌++◌, none, some, Option-cases, Bytes, codes, length, length-append, pos, if◌then◌else◌, arith,
}
use app_simple_log.Disk.{Disk, lookup, put, erase, contents_of, has_slash, rename, open_append}
use app_simple_log.Disk.Laws.{lookup-put, lookup-erase, bytes_eq_iff, bytes_eq_refl}
use app_simple_log.FileManager.Names.{
  rotated_name, generate_file_name, calculate_next_sequence_number,
}
use app_simple_log.FileManager.NameLaws.{length-name}
use app_simple_log.FileManager.Ownership.{Platform, windows, macos, elsewhere}
use app_simple_log.FileManager.State.{FileManager, close_current_file, open_log_file, write}
use app_simple_log.FileManager.Rotation.{
  get_historical_files, delete_oldest_files, delete_rounds, rename_with_sequence, rotate,
}
use app_simple_log.FileManager.Retention.{removed, delete_oldest_files_lem}
use app_simple_log.FileManager.Unmatched.{get_historical_files-nil}

-- A handle is given for the current name, or there is none; nothing else of the manager changes.
open_log_file_lem :
    (platform : Platform) (fm : FileManager) (d : Disk)
    → (open_log_file platform fm d).1 ≡ record fm {
      file_handle = if (open_log_file platform fm d).0 then some fm.current_file_name else none;
    }
unfolding open_log_file
open_log_file_lem windows fm d = ground arith
open_log_file_lem macos fm d = ground arith
open_log_file_lem elsewhere fm d = ground arith

module _ (platform : Platform) (fm : FileManager) (d : Disk) where
  -- What the caller finds after a rotation that returned.
  abbrev pub Rotated : Bool → FileManager → Type 0
  Rotated false fm' = fm'.file_handle ≡ none
  Rotated true fm' =
      (fm'.file_handle ≡ some (fm.base_name ++ codes ".log"))
      × (fm'.current_file_name ≡ fm.base_name ++ codes ".log")
      × (fm'.current_file_size ≡ 0)

  -- `Rotate` always ends, on every platform, manager and disk. Where it fails, on any branch, the
  -- manager has no open file; where it succeeds, the open file is the one named by the base name
  -- alone, also if it was named by the process before, and the manager's size is 0.
  pub rotate_ends :
      (ok : Bool) × (fm' : FileManager) × (d' : Disk) × (rotate platform fm d ≡ some (ok, fm', d'))
      × Rotated ok fm'
  unfolding rotate generate_file_name
  rotate_ends = elim (Option-cases fm.file_handle) [
    | inl closed ↦ (false, fm, d, ground arith, closed)
    | inr (path, opened) ↦
        let fm₁ : FileManager = close_current_file fm in
        let next = calculate_next_sequence_number (get_historical_files fm₁ d) in
        let ren = rename_with_sequence next fm₁ d in
        elim (Bool-cases ren.0) [
          | inr failed ↦
              (false, fm₁, ren.1, ground (arith, opened, failed), unfold close_current_file in refl)
          | inl renamed ↦
              let (gone, left, run, parts, kept, oldest) = delete_oldest_files_lem fm₁ ren.1 in
              let fm₂ : FileManager = record fm₁ {
                current_file_name = fm.base_name ++ codes ".log";
              } in
              let op = open_log_file platform fm₂ (removed gone ren.1) in
              let shape = open_log_file_lem platform fm₂ (removed gone ren.1) in
              elim (Bool-cases op.0) [
                | inl there ↦ (
                  true,
                  record op.1 { current_file_size = 0 },
                  op.2,
                  ground (arith, opened, renamed, run, there),
                  ground (arith, shape, there),
                )
                | inr missing ↦ (
                  false,
                  op.1,
                  op.2,
                  ground (arith, opened, renamed, run, missing),
                  ground (arith, shape, missing),
                )
              ]
        ]
  ]

-- After a rotation that failed, a write of any text on any disk fails and changes neither the
-- manager nor the disk.
pub write-after-failed-rotate :
    (platform : Platform) (fm fm' : FileManager) (d d' later : Disk) (text : Bytes)
    → rotate platform fm d ≡ some (false, fm', d')
    → write text fm' later ≡ (false, fm', later)
unfolding write
write-after-failed-rotate platform fm fm' d d' later text failed =
    let (ok, fm₁, d₁, result, shape) = rotate_ends platform fm d in
    let is_false : ok ≡ false = cc in
    let same : fm₁ ≡ fm' = cc in
    let closed : fm'.file_handle ≡ none =
      ap (λ (m : FileManager). m.file_handle) (sym same)
      ∙ subst (λ b. Rotated platform fm d b fm₁) is_false shape in
    ground (arith, closed)

delete_rounds-nil :
    (retention_count : ℕ) (files : List Bytes) (d : Disk)
    → files ≡ []
    → delete_rounds (suc (length files)) retention_count files d ≡ some (files, d)
unfolding delete_rounds
delete_rounds-nil r [] d h = ground arith
delete_rounds-nil r (f ∷ fs) d h = cc

delete_oldest_files-nil :
    (fm : FileManager) (d : Disk)
    → get_historical_files fm d ≡ []
    → delete_oldest_files fm d ≡ some d
unfolding delete_oldest_files
delete_oldest_files-nil fm d h =
    ground (arith, delete_rounds-nil fm.retention_count (get_historical_files fm d) d h)

-- Opening the log file changes no other file.
open_log_file_elsewhere :
    (platform : Platform) (fm : FileManager) (d : Disk) (other : Bytes)
    → fm.current_file_name ≢ other
    → lookup other (open_log_file platform fm d).2.files ≡ lookup other d.files
unfolding open_log_file open_append
open_log_file_elsewhere windows fm d other ne = ground (
  arith,
  lookup-put fm.current_file_name other (contents_of fm.current_file_name d) d.files,
  bytes_eq_iff fm.current_file_name other,
)
open_log_file_elsewhere macos fm d other ne = ground (
  arith,
  lookup-put fm.current_file_name other (contents_of fm.current_file_name d) d.files,
  bytes_eq_iff fm.current_file_name other,
)
open_log_file_elsewhere elsewhere fm d other ne = ground (
  arith,
  lookup-put fm.current_file_name other (contents_of fm.current_file_name d) d.files,
  bytes_eq_iff fm.current_file_name other,
)

module _ (platform : Platform) (fm : FileManager) (d : Disk) (path text : Bytes) where
  abbrev archive : Bytes
  archive = rotated_name fm.base_name (pos 1)

  abbrev renamed_disk : Disk
  renamed_disk = record d { files = put archive text (erase fm.current_file_name d.files) }

  -- Where no historical file is found, the old file gets the number 1 and nothing is deleted.
  rotate_unmatched :
      has_slash fm.base_name ≡ true
      → fm.file_handle ≡ some path
      → lookup fm.current_file_name d.files ≡ some text
      → d.faults.rename_fails fm.current_file_name archive ≡ false
      → (fm₂ : FileManager) × (fm₂.current_file_name ≡ fm.base_name ++ codes ".log")
        × ((ok : Bool)
            → (fm' : FileManager) → (d' : Disk) → rotate platform fm d ≡ some (ok, fm', d')
            → d' ≡ (open_log_file platform fm₂ renamed_disk).2)
  unfolding rotate close_current_file generate_file_name rename_with_sequence rename
  rotate_unmatched slashed opened there allowed =
      let (none_found, first) = get_historical_files-nil (close_current_file fm) d slashed in
      let (none_left, again) =
        get_historical_files-nil (close_current_file fm) renamed_disk slashed in
      (
        record fm { file_handle = none; current_file_name = fm.base_name ++ codes ".log" },
        refl,
        λ ok fm' d' e. ground (
          arith,
          opened,
          there,
          allowed,
          first,
          delete_oldest_files-nil (close_current_file fm) renamed_disk none_left,
          e,
        ),
      )

  archive-ne : fm.base_name ++ codes ".log" ≢ archive
  archive-ne e = absurd (
      omega (
        arith,
        ap length e,
        length-name fm.base_name 1,
        length-append {0} fm.base_name (codes ".log"),
      ))

  -- With a base name that holds a directory separator and an open file that is there, a rotation
  -- whose renaming is not refused puts the current file's text at the base name's number 1, whatever
  -- stood there before, and leaves any file but that one and the old and the new current one as it
  -- was, whatever the retention count.
  pub rotate_overwrites :
      has_slash fm.base_name ≡ true
      → fm.file_handle ≡ some path
      → lookup fm.current_file_name d.files ≡ some text
      → d.faults.rename_fails fm.current_file_name archive ≡ false
      → (ok : Bool) (fm' : FileManager) (d' : Disk) → rotate platform fm d ≡ some (ok, fm', d')
      → (other : Bytes) → fm.current_file_name ≢ other
      → archive ≢ other
      → fm.base_name ++ codes ".log" ≢ other
      → (lookup archive d'.files ≡ some text) × (lookup other d'.files ≡ lookup other d.files)
  rotate_overwrites slashed opened there allowed ok fm' d' e other ne₁ ne₂ ne₃ =
      let (fm₂, named, run) = rotate_unmatched slashed opened there allowed in
      let untouched : (other : Bytes)
          → fm.base_name ++ codes ".log" ≢ other
          → lookup other d'.files ≡ lookup other renamed_disk.files =
        λ other ne.
          ap (λ (x : Disk). lookup other x.files) (run ok fm' d' e)
          ∙ open_log_file_elsewhere platform fm₂ renamed_disk other
              (λ same. ne (sym named ∙ same)) in
      (
        untouched archive archive-ne
            ∙ ground (
              arith,
              lookup-put archive archive text (erase fm.current_file_name d.files),
              bytes_eq_refl archive,
            ),
        untouched other ne₃
            ∙ ground (
              arith,
              lookup-put archive other text (erase fm.current_file_name d.files),
              lookup-erase fm.current_file_name other d.files,
              bytes_eq_iff archive other,
              bytes_eq_iff fm.current_file_name other,
            ),
      )

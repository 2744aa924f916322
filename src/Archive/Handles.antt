-- ===== src/Archive/Handles.antt =====
-- The archive handle and the sources of `createArchive`: each is used only while it is there, and
-- released exactly once.
use app_simple_log.Prelude.{
  ◌≡◌, refl, ℕ, zero, suc, Bool, true, false, not, List, [], ◌∷◌, ◌++◌, Option, none, some, Bytes,
  Bool-cases, Option-cases, inl, inr, if◌then◌else◌, ◌==◌, length, arith,
}
use app_simple_log.Disk.{Disk}
use app_simple_log.Archive.{
  Answers, ZipCall, zip_open, zip_source_file, zip_file_add, zip_source_free, zip_close,
  zip_discard, add_files, finish_archive, create_archive, archive_name, collect_log_files,
}

-- What libzip holds: whether an archive is open, and how many sources are not yet owned by it.
pub record Held : Type 0 where
  pub archive_open : Bool
  pub sources : ℕ

abbrev pub nothing_held : Held
nothing_held = record { archive_open = false; sources = 0 }

abbrev one_open : Held
one_open = record { archive_open = true; sources = 0 }

abbrev release : ℕ → Held → Option Held
release zero held = none
release (suc n) held = some (record held { sources = n })

-- One call: `none` where it uses an archive or a source that is not there, or closes an archive with
-- a source left over.
unfoldable pub use_call : Answers → ZipCall → Held → Option Held
use_call answers (zip_open name) held =
    if held.archive_open
    then none
    else some (if answers.opens name then record held { archive_open = true } else held)
use_call answers (zip_source_file f) held =
    if not held.archive_open
    then none
    else some (if answers.has_source f then record held { sources = suc held.sources } else held)
use_call answers (zip_file_add f) held =
    if not held.archive_open
    then none
    else if answers.adds f
    then release held.sources held
    else elim held.sources [ zero ↦ none | suc n ↦ some held ]
use_call answers (zip_source_free f) held = release held.sources held
use_call answers zip_close held =
    if not held.archive_open
    then none
    else if not (held.sources == 0)
    then none
    else some (if answers.closes then record held { archive_open = false } else held)
use_call answers zip_discard held =
    if not held.archive_open then none else some (record held { archive_open = false })

unfoldable pub use_calls : Answers → List ZipCall → Held → Option Held
use_calls answers [] held = some held
use_calls answers (call ∷ calls) held = elim (use_call answers call held) [
  | none ↦ none
  | some held' ↦ use_calls answers calls held'
]

use_calls-append :
    (answers : Answers) (calls more : List ZipCall) (held held' : Held)
    → use_calls answers calls held ≡ some held'
    → use_calls answers (calls ++ more) held ≡ use_calls answers more held'
unfolding use_calls
use_calls-append answers [] more held held' e = ground (arith, e)
use_calls-append answers (call ∷ calls) more held held' e =
    elim (Option-cases (use_call answers call held)) [
      | inl stuck ↦ absurd (ground (arith, e, stuck))
      | inr (next, used) ↦
          ground
            (arith, used, use_calls-append answers calls more next held' (ground (arith, e, used)))
    ]

add_files_lem :
    (answers : Answers) (d : Disk) (candidates : List Bytes) (any : Bool)
    → use_calls answers (add_files answers d candidates any).2 one_open ≡ some one_open
unfolding add_files use_calls use_call
add_files_lem answers d [] any = refl
add_files_lem answers d (f ∷ candidates) any =
    ground (arith, add_files_lem answers d candidates any, add_files_lem answers d candidates true)

finish_archive_lem :
    (answers : Answers) (d : Disk) (candidates : List Bytes)
    → use_calls answers (finish_archive answers d candidates).1 one_open ≡ some nothing_held
unfolding finish_archive use_calls use_call
finish_archive_lem answers d candidates =
    let added = add_files answers d candidates false in
    let then_more = λ (more : List ZipCall).
      use_calls-append answers added.2 more one_open one_open
        (add_files_lem answers d candidates false) in
    let discarded = then_more (zip_discard ∷ []) in
    elim (Bool-cases added.0) [
      | inr broken ↦ rw broken discarded
      | inl ended ↦ elim (Bool-cases added.1) [
        | inr none_added ↦ rw (ended, none_added) discarded
        | inl some_added ↦ elim (Bool-cases answers.closes) [
          | inr failed ↦
              ground (arith, ended, some_added, failed, then_more (zip_close ∷ zip_discard ∷ []))
          | inl closed ↦ ground (arith, ended, some_added, closed, then_more (zip_close ∷ []))
        ]
      ]
    ]

-- On every path of `createArchive`, errors included, no archive or source is used before it is there
-- or after it was released, and none is left at the end: the archive is closed or discarded exactly
-- once, and every source that was made is owned by the archive or freed.
pub create_archive_lem :
    (answers : Answers) (base_name : Bytes) (process_id : ℕ) (timestamp : Bytes) (d : Disk)
    → use_calls answers (create_archive answers base_name process_id timestamp d).1 nothing_held
      ≡ some nothing_held
unfolding create_archive use_calls use_call
create_archive_lem answers base_name process_id timestamp d =
    let name = archive_name base_name process_id timestamp in
    let candidates = collect_log_files answers d.current_path base_name d in
    elim (Bool-cases (length timestamp == 0)) [
      | inl empty ↦ rw empty refl
      | inr stamped ↦ elim (Bool-cases (length base_name == 0)) [
        | inl empty ↦ rw (stamped, empty) refl
        | inr based ↦ elim (Bool-cases (length candidates == 0)) [
          | inl empty ↦ rw (stamped, based, empty) refl
          | inr found ↦ elim (Bool-cases (answers.opens name)) [
            | inr refused ↦ rw (stamped, based, found, refused) (rw refused refl)
            | inl opened ↦
                ground
                  (arith, stamped, based, found, opened, finish_archive_lem answers d candidates)
          ]
        ]
      ]
    ]

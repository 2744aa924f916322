-- ===== src/Archive.antt =====
-- createArchive: src/include/speckit/log/archive.h and src/src/archive.cpp. What libzip and the
-- file system answer is a parameter; the calls of libzip are recorded in their order.
pub mod Handles
mod Tests
use app_simple_log.Prelude.{
  ℕ, Bool, true, false, ◌&&◌, not, List, [], ◌∷◌, ◌++◌, Bytes, codes, bytes_eq, length, ◌==◌,
  starts_with, substr, find_last_of, npos, decimal, if◌then◌else◌,
}
use app_simple_log.Disk.{Disk, filename, names_in, file_size, joined}
use app_simple_log.FileManager.Names.{dot}

-- What the calls answer, each for the path that it is given.
pub record Answers : Type 0 where
  pub lists : Bytes → Bool  -- the iteration of the directory reaches this name
  pub opens : Bytes → Bool  -- `zip_open` gives an archive
  pub has_size : Bytes → Bool  -- `file_size` reports no error
  pub has_source : Bytes → Bool  -- `zip_source_file` gives a source
  pub adds : Bytes → Bool  -- `zip_file_add` gives an index
  pub closes : Bool  -- `zip_close` returns 0

pub data ZipCall : Type 0 where
  zip_open zip_source_file zip_file_add zip_source_free : Bytes → ZipCall
  zip_close zip_discard : ZipCall

-- `path.extension()` of a file name
unfoldable pub extension : Bytes → Bytes
extension name =
    let i = find_last_of name dot npos in
    if i == npos then [] else if i == 0 then [] else substr name i npos

-- The loop of `CollectLogFiles`. An error of the iteration ends it.
unfoldable pub collect_among : Answers → Bytes → Bytes → List Bytes → List Bytes
unfolding extension
collect_among answers dir base_fname [] = []
collect_among answers dir base_fname (fname ∷ names) =
    let rest = collect_among answers dir base_fname names in
    if not (answers.lists fname)
    then []
    else if bytes_eq (extension fname) (codes ".log") && starts_with base_fname fname
    then joined dir fname ∷ rest
    else rest

unfoldable pub collect_log_files : Answers → Bytes → Bytes → Disk → List Bytes
unfolding collect_among filename names_in
collect_log_files answers dir base_name d =
    collect_among answers dir (filename base_name) (names_in dir d.files)

-- The loop over the candidates: whether it reached its end, whether a file was added, and the calls.
unfoldable pub add_files : Answers → Disk → List Bytes → Bool → Bool × Bool × List ZipCall
add_files answers d [] had_nonempty = (true, had_nonempty, [])
add_files answers d (f ∷ candidates) had_nonempty =
    let (skipped_end, skipped_any, skipped_calls) = add_files answers d candidates had_nonempty in
    let (ended, any, calls) = add_files answers d candidates true in
    if not (answers.has_size f)
    then (skipped_end, skipped_any, skipped_calls)
    else if file_size f d == 0
    then (skipped_end, skipped_any, skipped_calls)
    else if not (answers.has_source f)
    then (false, had_nonempty, zip_source_file f ∷ [])
    else if not (answers.adds f)
    then (false, had_nonempty, zip_source_file f ∷ zip_file_add f ∷ zip_source_free f ∷ [])
    else (ended, any, zip_source_file f ∷ zip_file_add f ∷ calls)

abbrev pub archive_name : Bytes → ℕ → Bytes → Bytes
archive_name base_name process_id timestamp =
    base_name ++ codes "_" ++ decimal process_id ++ codes "_" ++ timestamp ++ codes ".zip"

-- The end of `createArchive` with the archive open, the guard's destructor included.
unfoldable pub finish_archive : Answers → Disk → List Bytes → Bool × List ZipCall
unfolding add_files
finish_archive answers d candidates =
    let (ended, had_nonempty, calls) = add_files answers d candidates false in
    if not ended
    then (false, calls ++ zip_discard ∷ [])
    else if not had_nonempty
    then (false, calls ++ zip_discard ∷ [])
    else if not answers.closes
    then (false, calls ++ zip_close ∷ zip_discard ∷ [])
    else (true, calls ++ zip_close ∷ [])

unfoldable pub create_archive : Answers → Bytes → ℕ → Bytes → Disk → Bool × List ZipCall
unfolding finish_archive collect_log_files
create_archive answers base_name process_id timestamp d =
    let name = archive_name base_name process_id timestamp in
    let candidates = collect_log_files answers d.current_path base_name d in
    if length timestamp == 0
    then (false, [])
    else if length base_name == 0
    then (false, [])
    else if length candidates == 0
    then (false, [])
    else if not (answers.opens name)
    then (false, zip_open name ∷ [])
    else (let (ok, calls) = finish_archive answers d candidates in (ok, zip_open name ∷ calls))

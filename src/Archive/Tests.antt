-- ===== src/Archive/Tests.antt =====
-- An archive of two files of which the second cannot be added.
use app_simple_log.Prelude.{
  ◌≡◌, refl, true, false, not, [], ◌∷◌, some, codes, bytes_eq, decimal, starts_with, find_last_of,
}
use app_simple_log.Disk.{Disk, lookup}
use app_simple_log.Archive.{
  Answers, create_archive, zip_open, zip_source_file, zip_file_add, zip_source_free, zip_discard,
}
use app_simple_log.Archive.Handles.{use_calls, nothing_held, create_archive_lem}

abbrev answers : Answers
answers = record {
  lists = λ name. true;
  opens = λ name. true;
  has_size = λ path. true;
  has_source = λ path. true;
  adds = λ path. not (bytes_eq path (codes "/w/app.1.log"));
  closes = true;
}

abbrev disk : Disk
disk = record {
  files =
      (codes "/w/app.log", codes "now")
      ∷ (codes "/w/app.1.log", codes "one")
      ∷ (codes "/w/app.txt", codes "two")
      ∷ [];
  directories = codes "/w" ∷ [];
  current_path = codes "/w";
  named_objects = [];
  faults = record {
    open_fails = λ path. false;
    rename_fails = λ from to. false;
    remove_fails = λ path. false;
    mkdir_fails = λ path. false;
    accepted = λ text. 0;
    flush_fails = false;
    named_object_fails = λ name. false;
    reopen_fails = λ name. false;
    unit_taken = λ name. false;
    conversion_fails = λ text. false;
  };
}

create_archive_lem_example :
    use_calls answers (create_archive answers (codes "app") 4 (codes "2025") disk).1 nothing_held
    ≡ some nothing_held
create_archive_lem_example = create_archive_lem answers (codes "app") 4 (codes "2025") disk

second_refused : create_archive answers (codes "app") 4 (codes "2025") disk ≡ (
  false,
  zip_open (codes "app_4_2025.zip")
      ∷ zip_source_file (codes "/w/app.log")
      ∷ zip_file_add (codes "/w/app.log")
      ∷ zip_source_file (codes "/w/app.1.log")
      ∷ zip_file_add (codes "/w/app.1.log")
      ∷ zip_source_free (codes "/w/app.1.log")
      ∷ zip_discard
      ∷ [],
)
unfolding create_archive starts_with bytes_eq find_last_of lookup decimal
second_refused = refl

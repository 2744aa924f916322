-- ===== src/Disk.antt =====
-- What the file manager uses of the system: named files with their bytes, directories, and the named
-- semaphores and mutexes that survive a process. Paths are POSIX paths, with `/` between components.
-- Which calls fail is left open: `Faults` says it for the state at hand, in any way.
pub mod Laws
use app_simple_log.Prelude.{
  ℕ, ◌+◌, ◌-◌, Bool, true, false, ◌&&◌, ◌||◌, not, List, [], ◌∷◌, ◌++◌, Option, none, some, Bytes,
  codes, bytes_eq, starts_with, length, drop, substr, find_last_of, npos, min, take, ◌==◌,
  if◌then◌else◌,
}

pub record Faults : Type 0 where
  pub open_fails : Bytes → Bool
  pub rename_fails : Bytes → Bytes → Bool
  pub remove_fails : Bytes → Bool
  pub mkdir_fails : Bytes → Bool
  pub accepted : Bytes → ℕ  -- how many bytes of a text `fwrite` takes at most
  pub flush_fails : Bool
  pub named_object_fails : Bytes → Bool  -- a mutex or semaphore cannot be made
  pub reopen_fails : Bytes → Bool  -- a semaphore that is there cannot be opened
  pub unit_taken : Bytes → Bool  -- `sem_trywait` finds the semaphore at 0
  pub conversion_fails : Bytes → Bool  -- `MultiByteToWideChar` refuses a text

-- `files` holds each path once: `put` replaces.
pub record Disk : Type 0 where
  pub files : List (Bytes × Bytes)
  pub directories : List Bytes
  pub current_path : Bytes
  pub named_objects : List Bytes
  pub faults : Faults

abbrev pub slash : ℕ
slash = b'/'

module _ {V : Type 0} where
  unfoldable pub lookup : Bytes → List (Bytes × V) → Option V
  lookup k [] = none
  lookup k ((j, v) ∷ m) = if bytes_eq j k then some v else lookup k m

  unfoldable pub put : Bytes → V → List (Bytes × V) → List (Bytes × V)
  put k v [] = (k, v) ∷ []
  put k v ((j, w) ∷ m) = if bytes_eq j k then (k, v) ∷ m else (j, w) ∷ put k v m

  unfoldable pub erase : Bytes → List (Bytes × V) → List (Bytes × V)
  erase k [] = []
  erase k ((j, w) ∷ m) = if bytes_eq j k then erase k m else (j, w) ∷ erase k m

unfoldable pub member : Bytes → List Bytes → Bool
member k [] = false
member k (j ∷ m) = bytes_eq j k || member k m

unfoldable pub without : Bytes → List Bytes → List Bytes
without k [] = []
without k (j ∷ m) = if bytes_eq j k then without k m else j ∷ without k m

abbrev pub is_some : {A : Type 0} → Option A → Bool
is_some none = false
is_some (some a) = true

-- `fs::exists`
unfoldable pub exists : Bytes → Disk → Bool
unfolding member
exists path d = is_some (lookup path d.files) || member path d.directories

abbrev pub contents_of : Bytes → Disk → Bytes
contents_of path d = elim (lookup path d.files) [ none ↦ [] | some text ↦ text ]

-- `fs::file_size`, of a file that is there
abbrev pub file_size : Bytes → Disk → ℕ
file_size path d = length (contents_of path d)

-- `fopen(path, "a")`: whether a handle is given, and the disk, where the file is made if it is not
-- there.
unfoldable pub open_append : Bytes → Disk → Bool × Disk
open_append path d =
    if d.faults.open_fails path
    then (false, d)
    else (true, record d { files = put path (contents_of path d) d.files })

-- `fwrite` at the end of an open file: how many bytes were taken, and the disk.
unfoldable pub append : Bytes → Bytes → Disk → ℕ × Disk
append path text d =
    let n = min (d.faults.accepted text) (length text) in
    (n, record d { files = put path (contents_of path d ++ take n text) d.files })

-- `fs::rename`: it replaces the file of the new name.
unfoldable pub rename : Bytes → Bytes → Disk → Bool × Disk
rename from to d = elim (lookup from d.files) [
  | none ↦ (false, d)
  | some text ↦
      if d.faults.rename_fails from to
      then (false, d)
      else (true, record d { files = put to text (erase from d.files) })
]

-- `fs::remove`; its result is not read.
unfoldable pub remove : Bytes → Disk → Disk
remove path d = if d.faults.remove_fails path then d else record d { files = erase path d.files }

-- `fs::create_directories`
unfoldable pub create_directories : Bytes → Disk → Bool × Disk
create_directories path d =
    if d.faults.mkdir_fails path
    then (false, d)
    else (true, record d { directories = path ∷ d.directories })

unfoldable pub has_slash : Bytes → Bool
has_slash [] = false
has_slash (c ∷ s) = c == slash || has_slash s

-- The file names of a directory, of the paths that stand directly below it.
unfoldable pub names_in : Bytes → List (Bytes × Bytes) → List Bytes
unfolding has_slash
names_in directory [] = []
names_in directory ((path, text) ∷ m) =
    let name = drop (length directory + 1) path in
    if starts_with (directory ++ slash ∷ []) path && not (has_slash name)
    then name ∷ names_in directory m
    else names_in directory m

-- `path.is_absolute()`, `path.filename()` and `path.parent_path()`
unfoldable pub is_absolute : Bytes → Bool
is_absolute [] = false
is_absolute (c ∷ s) = c == slash

unfoldable pub filename_from : Bytes → Bytes → Bytes
filename_from [] name = name
filename_from (c ∷ s) name = filename_from s (if c == slash then [] else name ++ c ∷ [])

unfoldable pub filename : Bytes → Bytes
unfolding filename_from
filename path = filename_from path []

unfoldable pub parent_path : Bytes → Bytes
parent_path path =
    let i = find_last_of path slash npos in
    if i == npos then [] else if i == 0 then slash ∷ [] else substr path 0 i

-- `directory / name`
abbrev pub joined : Bytes → Bytes → Bytes
joined directory name = directory ++ slash ∷ name

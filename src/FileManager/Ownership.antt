-- ===== src/FileManager/Ownership.antt =====
-- Whether another process logs to the same base name: a named mutex on Windows, a named semaphore on
-- macOS, and the file itself elsewhere.
use app_simple_log.Prelude.{
  [], ℕ, ◌%◌, Bool, true, false, ◌∷◌, ◌++◌, Option, none, some, Bytes, codes, length, substr,
  decimal, ltb, if◌then◌else◌,
}
use app_simple_log.Disk.{Disk, member, without, exists, filename}

pub data Platform : Type 0 where
  windows macos elsewhere : Platform

-- `std::hash<std::string>`, which the standard leaves to the library.
abbrev pub Hash : Type 0
Hash = Bytes → ℕ

-- An exclusive creation succeeds if the name is free.
pub data Creation : Type 0 where
  created already_exists failed : Creation

unfoldable pub create_named : Bytes → Disk → Creation × Disk
unfolding member
create_named name d =
    if d.faults.named_object_fails name
    then (failed, d)
    else if member name d.named_objects
    then (already_exists, d)
    else (created, record d { named_objects = name ∷ d.named_objects })

unfoldable pub semaphore_name : Hash → Bytes → Bytes
unfolding decimal
semaphore_name hash filename =
    let name = codes "/SLM_" ++ filename in
    if ltb 30 (length name)
    then codes "/SLM_" ++ (substr filename 0 15 ++ (codes "_" ++ decimal (hash filename % 100000)))
    else name

-- `Utf8ToWideString`: the text again, or `none` for its exception.
unfoldable pub utf8_to_wide_string : Bytes → Disk → Option Bytes
utf8_to_wide_string [] d = some []
utf8_to_wide_string (c ∷ s) d = if d.faults.conversion_fails (c ∷ s) then none else some (c ∷ s)

-- The end of `IsAnotherProcessLoggingPOSIX`: the name was there, was opened, and its unit was taken
-- and given back; the creation is tried once more.
unfoldable pub create_again : Bytes → Disk → Bool × Option Bytes × Disk
unfolding create_named
create_again name d =
    let (outcome, d₁) = create_named name d in
    elim outcome [
      | created ↦ (false, some name, d₁)
      | already_exists ↦ (true, none, d₁)
      | failed ↦ (true, none, d₁)
    ]

-- `IsAnotherProcessLoggingPOSIX`, on macOS: the result, and the handle to keep.
unfoldable pub is_another_process_logging_posix : Hash → Bytes → Disk → Bool × Option Bytes × Disk
unfolding create_named semaphore_name create_again
is_another_process_logging_posix hash filename d =
    let name = semaphore_name hash filename in
    let (outcome, d₁) = create_named name d in
    elim outcome [
      | created ↦ (false, some name, d₁)
      | already_exists ↦
          if d₁.faults.reopen_fails name
          then (true, none, d₁)
          else if d₁.faults.unit_taken name
          then (true, none, d₁)
          else create_again name d₁
      | failed ↦ (true, none, d₁)
    ]

unfoldable pub mutex_name : Bytes → Bytes
mutex_name filename = codes "Global\\SpeckitLogMutex_" ++ filename

-- The Windows branch of `IsAnotherProcessLogging`.
unfoldable pub is_another_process_logging_windows : Bytes → Disk → Bool × Option Bytes × Disk
unfolding mutex_name create_named utf8_to_wide_string
is_another_process_logging_windows filename d = elim (utf8_to_wide_string (mutex_name filename) d) [
  | none ↦ (true, none, d)
  | some wide_mutex_name ↦
      let (outcome, d₁) = create_named wide_mutex_name d in
      elim outcome [
        | created ↦ (false, some wide_mutex_name, d₁)
        | already_exists ↦ (true, none, d₁)
        | failed ↦ (true, none, d₁)
      ]
]

-- `IsAnotherProcessLogging`
unfoldable pub is_another_process_logging :
    Platform → Hash → Bytes → Disk → Bool × Option Bytes × Disk
unfolding is_another_process_logging_posix is_another_process_logging_windows exists filename
is_another_process_logging windows hash base_name d =
    is_another_process_logging_windows (filename base_name) d
is_another_process_logging macos hash base_name d =
    is_another_process_logging_posix hash (filename base_name) d
is_another_process_logging elsewhere hash base_name d =
    (exists (base_name ++ codes ".log") d, none, d)

-- `CleanupMutex`: the last handle of a mutex takes its name away, a semaphore keeps its name, and
-- elsewhere there is no handle. The handle that is left, and the disk.
unfoldable pub cleanup_mutex : Platform → Option Bytes → Disk → Option Bytes × Disk
unfolding without
cleanup_mutex platform none d = (none, d)
cleanup_mutex windows (some name) d =
    (none, record d { named_objects = without name d.named_objects })
cleanup_mutex macos (some name) d = (none, d)
cleanup_mutex elsewhere (some name) d = (some name, d)

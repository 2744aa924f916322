-- ===== src/FileManager/Restart.antt =====
-- The ownership of a log name across a restart of the process that held it.
use app_simple_log.Prelude.{
  ◌⊎◌, ◌≡◌, refl, ap, ◌⊎◌, ◌∙◌, true, false, List, ◌∷◌, Option, none, some, Bytes, Bool-cases, inl,
  inr, arith,
}
use app_simple_log.Disk.{Disk, Faults, member, filename}
use app_simple_log.Disk.Laws.{bytes_eq_refl}
use app_simple_log.FileManager.Ownership.{
  macos, Hash, already_exists, failed, create_named, create_again, semaphore_name,
  is_another_process_logging_posix, is_another_process_logging, cleanup_mutex,
}

member_head : (name : Bytes) (names : List Bytes) → member name (name ∷ names) ≡ true
unfolding member
member_head name names = ground (arith, bytes_eq_refl name)

create_named_taken :
    (name : Bytes) (d : Disk)
    → member name d.named_objects ≡ true
    → (create_named name d ≡ (failed, d)) ⊎ (create_named name d ≡ (already_exists, d))
unfolding create_named
create_named_taken name d taken = elim (Bool-cases (d.faults.named_object_fails name)) [
  | inl refused ↦ inl (ground (arith, refused))
  | inr allowed ↦ inr (ground (arith, allowed, taken))
]

-- While the semaphore's name is there, no process is the first, whatever fails.
taken-posix :
    (hash : Hash) (name : Bytes) (d : Disk)
    → member (semaphore_name hash name) d.named_objects ≡ true
    → (is_another_process_logging_posix hash name d).0 ≡ true
unfolding is_another_process_logging_posix create_again
taken-posix hash name d taken = elim (create_named_taken (semaphore_name hash name) d taken) [
  | inl e ↦ ground (arith, e)
  | inr e ↦ ground (arith, e)
]

-- A first process has made the semaphore's name.
first-posix :
    (hash : Hash) (name : Bytes) (d : Disk)
    → (is_another_process_logging_posix hash name d).0 ≡ false
    → member
        (semaphore_name hash name)
        (is_another_process_logging_posix hash name d).2.named_objects
      ≡ true
unfolding is_another_process_logging_posix create_again create_named
first-posix hash name d first =
    elim (Bool-cases (member (semaphore_name hash name) d.named_objects)) [
      | inl taken ↦ absurd (ground (arith, first, taken-posix hash name d taken))
      | inr free ↦
          ground (arith, first, free, member_head (semaphore_name hash name) d.named_objects)
    ]

cleanup_keeps :
    (handle : Option Bytes) (d : Disk)
    → (cleanup_mutex macos handle d).1.named_objects ≡ d.named_objects
unfolding cleanup_mutex
cleanup_keeps none d = refl
cleanup_keeps (some name) d = refl

-- On macOS, a process that was the first and has cleaned up leaves the name taken: if nothing else
-- changes the names, the next process to ask for the same base name is told that another one is
-- logging, whatever fails then.
pub restart_not_first :
    (hash : Hash) (base_name : Bytes) (d : Disk) (faults : Faults)
    → (is_another_process_logging macos hash base_name d).0 ≡ false
    → let (another, handle, d₁) = is_another_process_logging macos hash base_name d in
      (is_another_process_logging macos hash base_name
        (record (cleanup_mutex macos handle d₁).1 { faults = faults })).0
      ≡ true
unfolding is_another_process_logging
restart_not_first hash base_name d faults first =
    let asked = is_another_process_logging_posix hash (filename base_name) d in
    taken-posix hash (filename base_name)
      (record (cleanup_mutex macos asked.1 asked.2).1 { faults = faults })
      (ap (member (semaphore_name hash (filename base_name))) (cleanup_keeps asked.1 asked.2)
        ∙ first-posix hash (filename base_name) d first)

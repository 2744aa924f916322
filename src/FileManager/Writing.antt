-- ===== src/FileManager/Writing.antt =====
-- What `Write` does on every branch, and the size that the manager keeps.
use app_simple_log.Prelude.{
  ◌==◌, bytes_eq, ℕ, zero, suc, ◌+◌, ◌*◌, ◌%◌, ◌≤◌, ◌<◌, ◌≡◌, ◌≢◌, refl, ap, ◌∙◌, true, false, [],
  ◌∷◌, ◌++◌, some, Bytes, length, length-append, take, add_size, size_mod, min, if◌then◌else◌,
  arith,
}
use app_simple_log.Disk.{Disk, contents_of, file_size, append}
use app_simple_log.Disk.Laws.{lookup-put, bytes_eq_iff, bytes_eq_refl}
use app_simple_log.FileManager.State.{FileManager, write}

length-take : (n : ℕ) (t : Bytes) → n ≤ length t → length (take n t) ≡ n
length-take zero t h = refl
length-take (suc n) [] h = absurd (omega arith)
length-take (suc n) (c ∷ t) h = ap suc (length-take n t (omega arith))

take_all : (s : Bytes) → take (length s) s ≡ s
take_all [] = refl
take_all (c ∷ s) = ap (λ t. c ∷ t) (take_all s)

length-take-append : (n : ℕ) (s t : Bytes) → n ≤ length t → length (s ++ take n t) ≡ length s + n
length-take-append n s t h = omega (arith, length-append {0} s (take n t), length-take n t h)

-- The open file ends with the part of the text that `fwrite` took, and no other path changes.
pub append_lem :
    (path text : Bytes) (d : Disk) (other : Bytes)
    → contents_of other (append path text d).1 ≡ (
        if bytes_eq path other
        then contents_of path d ++ take (append path text d).0 text
        else contents_of other d)
unfolding append
append_lem path text d other = ground (
  arith,
  lookup-put path other
      (contents_of path d ++ take (min (d.faults.accepted text) (length text)) text) d.files,
)

append-le : (path text : Bytes) (d : Disk) → (append path text d).0 ≤ length text
unfolding append
append-le path text d = omega arith

-- The size that the manager keeps is that of its open file.
pub record IsTracked (fm : FileManager) (d : Disk) (path : Bytes) : Type 0 where
  pub opened : fm.file_handle ≡ some path
  pub exact : fm.current_file_size ≡ file_size path d

module _ (text : Bytes) (fm : FileManager) (d : Disk) (path : Bytes) where
  abbrev taken : ℕ
  taken = (append path text d).0

  -- The disk after a write is the disk after `fwrite`, on every branch.
  disk-write : fm.file_handle ≡ some path → (write text fm d).2 ≡ (append path text d).1
  unfolding write
  disk-write h = ground arith

  handle-write : (write text fm d).1.file_handle ≡ fm.file_handle
  unfolding write
  handle-write = ground arith

  size-write :
      fm.file_handle ≡ some path
      → (write text fm d).1.current_file_size ≡ (
          if taken == length text
          then add_size fm.current_file_size (length text)
          else fm.current_file_size)
  unfolding write
  size-write h = ground arith

  result-write : fm.file_handle ≡ some path → (write text fm d).0 ≡ true → taken ≡ length text
  unfolding write
  result-write h e = ground arith

  -- The file ends with what was taken.
  grows :
      fm.file_handle ≡ some path
      → contents_of path (write text fm d).2 ≡ contents_of path d ++ take taken text
  grows h =
      ap (contents_of path) (disk-write h)
      ∙ append_lem path text d path
      ∙ ground (arith, bytes_eq_refl path)

  same_elsewhere :
      fm.file_handle ≡ some path
      → (other : Bytes) → path ≢ other
      → contents_of other (write text fm d).2 ≡ contents_of other d
  same_elsewhere h other ne =
      ap (contents_of other) (disk-write h)
      ∙ append_lem path text d other
      ∙ ground (arith, bytes_eq_iff path other)

  faults-write : (write text fm d).2.faults ≡ d.faults
  unfolding write append
  faults-write = ground arith

  -- On a disk that takes the whole text, the file ends with it and stays open, whatever the result.
  pub written_whole :
      fm.file_handle ≡ some path
      → length text ≤ d.faults.accepted text
      → ((write text fm d).1.file_handle ≡ some path)
        × ((write text fm d).2.faults ≡ d.faults)
        × (contents_of path (write text fm d).2 ≡ contents_of path d ++ text)
  written_whole h enough = (
    handle-write ∙ h,
    faults-write,
    grows h
        ∙ ap (λ k. contents_of path d ++ take k text) {y = length text}
            (unfold append in omega arith)
        ∙ ap (λ s. contents_of path d ++ s) (take_all text),
  )

  -- If the manager's size is that of its open file and the file with the text is below 2^64 bytes, a
  -- write that succeeds has put the whole text at the end of the open file, has left any other file
  -- as it was, and the manager's size is again that of the file.
  write_success :
      IsTracked fm d path
      → file_size path d + length text < size_mod
      → (write text fm d).0 ≡ true
      → (other : Bytes) → path ≢ other
      → (contents_of path (write text fm d).2 ≡ contents_of path d ++ text)
        × (contents_of other (write text fm d).2 ≡ contents_of other d)
        × IsTracked (write text fm d).1 (write text fm d).2 path
  write_success t fits e other elsewhere_path =
      let whole : taken ≡ length text = result-write t.opened e in
      let grown : contents_of path (write text fm d).2 ≡ contents_of path d ++ text =
        grows t.opened
        ∙ ap (λ k. contents_of path d ++ take k text) whole
        ∙ ap (λ s. contents_of path d ++ s) (take_all text) in
      (
        grown,
        same_elsewhere t.opened other elsewhere_path,
        record {
          opened = handle-write ∙ t.opened;
          exact = ground (
            arith,
            size-write t.opened,
            whole,
            t.exact,
            ap length grown,
            length-append (contents_of path d) text,
          );
        },
      )

  -- If the manager's size is that of its open file, a write of which `fwrite` takes only a part fails,
  -- but the part stays in the file, and the manager's size does not count it.
  pub write_short :
      IsTracked fm d path
      → taken < length text
      → ((write text fm d).0 ≡ false)
        × (file_size path (write text fm d).2 ≡ (write text fm d).1.current_file_size + taken)
  write_short t less = (
    unfold write in ground (arith, t.opened),
    ap length (grows t.opened)
        ∙ length-take-append taken (contents_of path d) text (omega arith)
        ∙ ground (arith, size-write t.opened, t.exact),
  )

-- A write to an open file, of which `fwrite` takes all bytes, succeeds whenever the size after it is no multiple of
-- 1 MiB, on every disk: one that goes past such a multiple without stopping at it is not flushed,
-- and succeeds also where every flush fails.
write_past_boundary :
    (text : Bytes) (fm : FileManager) (d : Disk) (path : Bytes)
    → fm.file_handle ≡ some path
    → (append path text d).0 ≡ length text
    → add_size fm.current_file_size (length text) % (1024 * 1024) ≢ 0
    → (write text fm d).0 ≡ true
unfolding write
write_past_boundary text fm d path h whole off = ground arith

-- ===== src/FileManager/Retention.antt =====
-- Which files `DeleteOldestFiles` deletes: the ones with the lowest sequence numbers, as many as are
-- beyond the retention count; and that its loop ends.
use mathlib.Core.Path.{subst}
use native.Mathlib.Decide.{dec_lt}
use app_simple_log.FileManager.State.{FileManager}
use mathlib.Core.List.{Perm}
use mathlib.Core.List.Perm
use app_simple_log.Prelude.{
  ℕ, zero, suc, ◌+◌, ◌≤◌, ◌<◌, ◌≡◌, refl, sym, ◌∙◌, ◌⊎◌, inl, inr, Bool-cases, List, [], ◌∷◌, ◌++◌,
  some, min, Bytes, All, length, ℤ, ◌≤ℤ◌, ltb_ℤ, arith,
}
use app_simple_log.Disk.{Disk, remove}
use app_simple_log.FileManager.Names.{find_oldest_historical_file, min_element_from}
use app_simple_log.FileManager.Sequence.{sequence}
use app_simple_log.FileManager.Rotation.{
  get_historical_files, delete_oldest_files, delete_rounds, erase_at, element_at,
}

-- No file of the list has a lower sequence number.
abbrev pub IsOldest : ℤ → List Bytes → Type 0
IsOldest v = All (λ f. v ≤ℤ sequence f)

IsOldest-le : (v w : ℤ) (files : List Bytes) → v ≤ℤ w → IsOldest w files → IsOldest v files
IsOldest-le v w [] h all = tt
IsOldest-le v w (f ∷ fs) h all = (omega arith, IsOldest-le v w fs h all.1)

-- The search ends at its first candidate, or at a place of the list.
Found : Bytes → ℕ → ℕ → List Bytes → ℕ → Type 0
Found best at i files k =
    ((k ≡ at) × IsOldest (sequence best) files)
    ⊎ ((j : ℕ) × (k ≡ i + j)
        × (j < length files)
        × (sequence (element_at files j) ≤ℤ sequence best)
        × IsOldest (sequence (element_at files j)) files)

min_element_from-Found :
    (best : Bytes) (at i : ℕ) (files : List Bytes)
    → Found best at i files (min_element_from best at i files)
unfolding min_element_from Found
min_element_from-Found best at i [] = inl (refl, tt)
min_element_from-Found best at i (f ∷ fs) = elim (Bool-cases (ltb_ℤ (sequence f) (sequence best))) [
  | inl lower ↦ rw lower (elim (min_element_from-Found f i (i + 1) fs) [
    | inl (at_f, all) ↦ inr (0, omega (arith, at_f), omega arith, ground arith, (ground arith, all))
    | inr (j, there, inside, le, all) ↦
        inr (suc j, omega arith, omega arith, ground arith, (le, all))
  ])
  | inr kept ↦ rw kept (elim (min_element_from-Found best at (i + 1) fs) [
    | inl (at_best, all) ↦ inl (at_best, (ground arith, all))
    | inr (j, there, inside, le, all) ↦
        inr (suc j, omega arith, omega arith, le, (ground arith, all))
  ])
]

-- `FindOldestHistoricalFile` gives a place of a list that is not empty, and no file there has a lower
-- number.
pub find_oldest_historical_file_lem :
    (files : List Bytes)
    → 0 < length files
    → (find_oldest_historical_file files < length files)
      × IsOldest (sequence (element_at files (find_oldest_historical_file files))) files
unfolding find_oldest_historical_file Found
find_oldest_historical_file_lem [] h = absurd (omega arith)
find_oldest_historical_file_lem (f ∷ fs) h = elim (min_element_from-Found f 0 1 fs) [
  | inl (at_f, all) ↦ subst Place (sym at_f) (omega arith, (omega arith, all))
  | inr (j, there, inside, le, all) ↦
      subst Place (sym (there ∙ suc_form j)) (omega arith, (le, all))
]
  where
    Place : ℕ → Type 0
    Place k = (k < length (f ∷ fs)) × IsOldest (sequence (element_at (f ∷ fs) k)) (f ∷ fs)

    suc_form : (j : ℕ) → 1 + j ≡ suc j
    suc_form j = omega arith

erase_at-Perm :
    (files : List Bytes) (k : ℕ)
    → k < length files
    → Perm (element_at files k ∷ erase_at files k) files
erase_at-Perm [] k h = absurd (omega arith)
erase_at-Perm (f ∷ fs) zero h = Perm.refl (f ∷ fs)
erase_at-Perm (f ∷ fs) (suc k) h =
    Perm.trans (Perm.swap f (element_at fs k) (erase_at fs k))
      (Perm.cons f (erase_at-Perm fs k (omega arith)))

length-erase_at :
    (files : List Bytes) (k : ℕ) → k < length files → length (erase_at files k) + 1 ≡ length files
length-erase_at [] k h = absurd (omega arith)
length-erase_at (f ∷ fs) zero h = omega arith
length-erase_at (f ∷ fs) (suc k) h = omega (arith, length-erase_at fs k)

erase_at-All :
    (P : Bytes → Type 0) (files : List Bytes) (k : ℕ) → All P files → All P (erase_at files k)
erase_at-All P [] k all = tt
erase_at-All P (f ∷ fs) zero all = all.1
erase_at-All P (f ∷ fs) (suc k) all = (all.0, erase_at-All P fs k all.1)

-- The disk after the removal of each file of a list.
pub removed : List Bytes → Disk → Disk
removed [] d = d
removed (f ∷ fs) d = removed fs (remove f d)

-- What a run of the loop did.
pub record Deleted (retention_count : ℕ) (files : List Bytes) (d : Disk) (gone left : List Bytes)
    : Type 1 where
  pub parts : Perm (gone ++ left) files
  pub kept : length left ≡ min retention_count (length files)
  pub oldest : All (λ g. IsOldest (sequence g) left) gone
  pub only : (P : Bytes → Type 0) → All P files → All P left

delete_rounds_lem :
    (n retention_count : ℕ) (files : List Bytes) (d : Disk)
    → length files ≤ n
    → (gone : List Bytes) × (left : List Bytes) × (delete_rounds (suc n) retention_count files d
        ≡ some (left, removed gone d))
      × Deleted retention_count files d gone left
unfolding delete_rounds removed
delete_rounds_lem zero r files d enough = (
  [],
  files,
  ground arith,
  record { parts = Perm.refl files; kept = omega arith; oldest = tt; only = λ P all. all },
)
delete_rounds_lem (suc n) r files d enough = elim (dec_lt r (length files)) [
  | yes beyond ↦
      let k : ℕ = find_oldest_historical_file files in
      let (inside, lowest) = find_oldest_historical_file_lem files (omega arith) in
      let (gone, left, run, s) =
        delete_rounds_lem n r (erase_at files k) (remove (element_at files k) d)
          (omega (arith, length-erase_at files k inside)) in
      (
        element_at files k ∷ gone,
        left,
        ground (arith, run),
        record {
          parts =
              Perm.trans (Perm.cons (element_at files k) s.parts) (erase_at-Perm files k inside);
          kept = omega (arith, s.kept, length-erase_at files k inside);
          oldest = (s.only _ (erase_at-All _ files k lowest), s.oldest);
          only = λ P all. s.only P (erase_at-All P files k all);
        },
      )
  | no within ↦ (
    [],
    files,
    ground arith,
    record { parts = Perm.refl files; kept = omega arith; oldest = tt; only = λ P all. all },
  )
]

-- `DeleteOldestFiles` ends. It removes some of the historical files and leaves the others, at most
-- the retention count of them and no fewer than it must; no file that it removes has a higher
-- sequence number than one that it leaves.
pub delete_oldest_files_lem :
    (fm : FileManager) (d : Disk)
    → (gone : List Bytes) × (left : List Bytes) × (delete_oldest_files fm d ≡ some (removed gone d))
      × Perm (gone ++ left) (get_historical_files fm d)
      × (length left ≡ min fm.retention_count (length (get_historical_files fm d)))
      × All (λ g. IsOldest (sequence g) left) gone
unfolding delete_oldest_files
delete_oldest_files_lem fm d =
    let files : List Bytes = get_historical_files fm d in
    let (gone, left, run, s) =
      delete_rounds_lem (length files) fm.retention_count files d (omega arith) in
    (gone, left, ground (arith, run), s.parts, s.kept, s.oldest)

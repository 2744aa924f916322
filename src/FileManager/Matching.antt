-- ===== src/FileManager/Matching.antt =====
-- Which names `IsHistoricalLogFile` takes: the rotated names of a base name with no ".log" in it, and
-- no name at all once the base name has a directory in it.
use app_simple_log.Prelude.{
  find_from_miss, find_from-none, ℕ, ◌+◌, ◌<◌, ◌≡◌, refl, sym, ap, ◌∙◌, true, false, [], ◌∷◌, ◌++◌,
  none, some, Bytes, codes, length, length-append, drop, drop-append, take-append, append_assoc,
  find, find_from, starts_with, find_byte, find-front, npos, sub_size, decimal, decimal_int,
  decimal-AllDigits, decimal_pos, AllDigits, pos, arith,
}
use native.Mathlib.Nat.{add-zero}
use app_simple_log.FileManager.Names.{dot, rotated_name, is_historical_log_file, all_digits}
use app_simple_log.FileManager.NameLaws.{digits-Lacks, length-name}

abbrev dot_log : Bytes
dot_log = codes ".log"

-- A ".log" does not start in a text and end behind its dot.
no_crossing :
    (c : ℕ) (s r : Bytes)
    → starts_with dot_log (c ∷ s) ≡ false
    → starts_with dot_log (c ∷ (s ++ dot ∷ r)) ≡ false
unfolding starts_with
no_crossing c [] r h = ground arith
no_crossing c (d ∷ []) r h = ground arith
no_crossing c (d ∷ e ∷ []) r h = ground arith
no_crossing c (d ∷ e ∷ f ∷ s) r h = ground arith

-- The search passes over a base name that holds no ".log".
find_from-base :
    (s r : Bytes) (i : ℕ)
    → find_from dot_log s i ≡ none
    → find_from dot_log (s ++ dot ∷ r) i ≡ find_from dot_log (dot ∷ r) (i + length s)
find_from-base [] r i h = ap (find_from dot_log (dot ∷ r)) (sym (add-zero i))
find_from-base (c ∷ s) r i h =
    let (miss, none_after) = find_from-none dot_log c s i h in
    find_from_miss dot_log c (s ++ dot ∷ r) i (no_crossing c s r miss)
    ∙ find_from-base s r (i + 1) none_after
    ∙ ap (find_from dot_log (dot ∷ r)) (omega arith)

find_from-digits :
    (s : Bytes) (i : ℕ) → AllDigits s → find_from dot_log (s ++ dot_log) i ≡ some (i + length s)
unfolding find_from starts_with
find_from-digits [] i h = ground (arith, add-zero i)
find_from-digits (c ∷ s) i h = ground (arith, find_from-digits s (i + 1))

-- A digit does not continue a ".log".
find_from-dot :
    (s : Bytes) (i : ℕ)
    → AllDigits s
    → 0 < length s
    → find_from dot_log (dot ∷ (s ++ dot_log)) i ≡ some (i + 1 + length s)
unfolding find_from starts_with
find_from-dot [] i h k = absurd (omega arith)
find_from-dot (c ∷ s) i h k = ground (arith, find_from-digits (c ∷ s) (i + 1))

all_digits-AllDigits : (s : Bytes) → AllDigits s → all_digits s ≡ true
unfolding all_digits
all_digits-AllDigits [] h = refl
all_digits-AllDigits (c ∷ s) h = ground (arith, all_digits-AllDigits s)

module _ (base : Bytes) (n : ℕ) where
  -- The first ".log" of a rotated name is the one at its end.
  find-rotated_name :
      find_from dot_log base 0 ≡ none
      → length (rotated_name base (pos n)) < npos
      → find (rotated_name base (pos n)) dot_log ≡ sub_size (length (rotated_name base (pos n))) 4
  unfolding rotated_name decimal_int find
  find-rotated_name clean short = ground (
    arith,
    find_from-base base (decimal n ++ dot_log) 0 clean,
    find_from-dot (decimal n) (0 + length base) (decimal-AllDigits n) (decimal_pos n),
    length-name base n,
  )

  rotated_name-split : rotated_name base (pos n) ≡ (base ++ dot ∷ []) ++ (decimal n ++ dot_log)
  unfolding rotated_name decimal_int
  rotated_name-split = sym (append_assoc base (dot ∷ []) (decimal n ++ dot_log))

  behind : drop (length (base ++ dot ∷ [])) (rotated_name base (pos n)) ≡ decimal n ++ dot_log
  behind =
      ap (drop (length (base ++ dot ∷ []))) rotated_name-split
      ∙ drop-append (base ++ dot ∷ []) (decimal n ++ dot_log)

  -- The name that `RenameWithSequence` makes is that of a historical file of the same base name, for
  -- every number, if the base name holds no ".log" and the name is shorter than 2^64 - 1.
  pub is_historical_log_file-rotated_name :
      find_from dot_log base 0 ≡ none
      → length (rotated_name base (pos n)) < npos
      → is_historical_log_file (rotated_name base (pos n)) (base ++ dot ∷ []) ≡ true
  unfolding is_historical_log_file
  is_historical_log_file-rotated_name clean short = ground (
    arith,
    find-rotated_name clean short,
    find-front (base ++ dot ∷ []) (decimal n ++ dot_log),
    rotated_name-split,
    behind,
    find_byte dot (decimal n) (codes "log") (digits-Lacks (decimal n) (decimal-AllDigits n)),
    take-append (decimal n) dot_log,
    length-name base n,
    length-append (decimal n) dot_log,
    decimal_pos n,
    all_digits-AllDigits (decimal n) (decimal-AllDigits n),
    length-append base (dot ∷ []),
  )

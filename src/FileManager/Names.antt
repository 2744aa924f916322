-- ===== src/FileManager/Names.antt =====
-- The names of log files: the current one, the rotated ones, and their sequence numbers.
use app_simple_log.Prelude.{
  ℕ, ◌+◌, ◌^◌, Bool, true, false, ◌||◌, not, List, [], ◌∷◌, ◌++◌, Option, none, some, Bytes, codes,
  length, drop, substr, find, find_last_of, npos, add_size, sub_size, stoi, decimal, decimal_int,
  is_digit, ℤ, pos, negsuc, ◌+ℤ◌, ltb_ℤ, signed, pattern_of, ◌==◌, if◌then◌else◌,
}

abbrev pub dot : ℕ
dot = b'.'

abbrev pub int_or : ℤ → Option ℤ → ℤ
int_or d none = d
int_or d (some v) = v

-- `base_name.N.log` gives N; -1 stands for a name of another form. With no byte before the first dot,
-- `last_dot_pos - 1` wraps, and the second search finds the same dot again.
unfoldable pub extract_sequence_number : Bytes → ℤ
extract_sequence_number filename =
    let last_dot_pos = find_last_of filename dot npos in
    if last_dot_pos == npos
    then negsuc 0
    else (let second_last_dot_pos = find_last_of filename dot (sub_size last_dot_pos 1) in
        if second_last_dot_pos == npos
        then negsuc 0
        else (let sequence_str =
              substr filename (add_size second_last_dot_pos 1)
                (sub_size (sub_size last_dot_pos second_last_dot_pos) 1) in
            int_or (negsuc 0) (stoi sequence_str)))

-- `for (char c : sequence_str) if (!isdigit(c)) return false`
unfoldable pub all_digits : Bytes → Bool
all_digits [] = true
all_digits (c ∷ s) = if not (is_digit c) then false else all_digits s

-- In a name of three bytes with no ".log" both sides of the second test are `npos`.
unfoldable pub is_historical_log_file : Bytes → Bytes → Bool
unfolding find all_digits
is_historical_log_file filename base_pattern =
    if not (find filename base_pattern == 0)
      || not (find filename (codes ".log") == sub_size (length filename) 4)
    then false
    else (let remaining = drop (length base_pattern) filename in
        let dot_pos = find remaining (dot ∷ []) in
        if dot_pos == npos
        then false
        else (let sequence_str = substr remaining 0 dot_pos in
            if length sequence_str == 0 then false else all_digits sequence_str))

-- `GenerateFileName`
unfoldable pub generate_file_name : Bytes → ℕ → Bool → Bytes
unfolding decimal
generate_file_name base_name process_id first_process =
    if first_process
    then base_name ++ codes ".log"
    else base_name ++ (codes "_" ++ (decimal process_id ++ codes ".log"))

-- The new name in `RenameWithSequence`.
unfoldable pub rotated_name : Bytes → ℤ → Bytes
unfolding decimal_int
rotated_name base_name sequence = base_name ++ (codes "." ++ (decimal_int sequence ++ codes ".log"))

-- `int` addition, as the processor does it: an overflow wraps (C++ leaves it undefined).
abbrev pub add_int : ℤ → ℤ → ℤ
add_int a b = signed (2 ^ 31) (pattern_of (2 ^ 32) (a +ℤ b))

-- The loop of `CalculateNextSequenceNumber`.
unfoldable pub max_sequence_from : ℤ → List Bytes → ℤ
unfolding extract_sequence_number
max_sequence_from max_sequence [] = max_sequence
max_sequence_from max_sequence (file ∷ files) =
    let sequence = extract_sequence_number file in
    max_sequence_from (if ltb_ℤ max_sequence sequence then sequence else max_sequence) files

unfoldable pub calculate_next_sequence_number : List Bytes → ℤ
unfolding max_sequence_from
calculate_next_sequence_number [] = pos 1
calculate_next_sequence_number (file ∷ files) =
    add_int (max_sequence_from (pos 0) (file ∷ files)) (pos 1)

-- `std::min_element`: the first of the least sequence numbers, from the candidate `best` at index
-- `at` on; `i` is the index of the next file.
unfoldable pub min_element_from : Bytes → ℕ → ℕ → List Bytes → ℕ
unfolding extract_sequence_number
min_element_from best at i [] = at
min_element_from best at i (file ∷ files) =
    let smaller = ltb_ℤ (extract_sequence_number file) (extract_sequence_number best) in
    min_element_from (if smaller then file else best) (if smaller then i else at) (i + 1) files

-- `FindOldestHistoricalFile`: the index of the oldest file; in an empty list, the index of the end.
unfoldable pub find_oldest_historical_file : List Bytes → ℕ
unfolding min_element_from
find_oldest_historical_file [] = 0
find_oldest_historical_file (file ∷ files) = min_element_from file 0 1 files

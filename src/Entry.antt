-- ===== src/Entry.antt =====
-- Log entries and their print: src/include/speckit/log/log_entry.h and src/src/log_entry.cpp.
pub mod Timestamp
mod Tests
use app_simple_log.Prelude.{
  ℕ, Bytes, codes, ℤ, pos, ◌+ℤ◌, List, [], ◌∷◌, ◌++◌, Option, none, some, take, drop, decimal,
  padded, quotient, remainder, ◌==◌, if◌then◌else◌,
}
use app_simple_log.Level.{LogLevel, level_to_string}

-- `std::string_view`: a part of a text that somebody else owns.
pub record StringView : Type 0 where
  pub buffer : ℕ
  pub start : ℕ
  pub count : ℕ

-- The texts that are alive, by address; a zero byte stands behind each, as behind a `std::string`.
abbrev pub Memory : Type 0
Memory = ℕ → Option Bytes

-- The bytes before the first zero byte.
abbrev pub until_nul : Bytes → Bytes
until_nul [] = []
until_nul (c ∷ s) = if c == 0 then [] else c ∷ until_nul s

-- `view.data()` read as a C string: from the view's start up to the zero byte, whatever the view's
-- length. `none` is a read of a text that is gone.
unfoldable pub c_string : Memory → StringView → Option Bytes
c_string memory view = elim (memory view.buffer) [
  | none ↦ none
  | some text ↦ some (until_nul (drop view.start text))
]

-- `struct LogEntry`
pub record LogEntry : Type 0 where
  pub level : LogLevel
  pub timestamp_ms : ℤ
  pub process_id : ℕ
  pub thread_id : ℕ
  pub tag : StringView
  pub message : StringView

-- `std::tm`, as far as it is printed.
pub record Tm : Type 0 where
  pub tm_year : ℤ
  pub tm_mon : ℤ
  pub tm_mday : ℤ
  pub tm_hour : ℤ
  pub tm_min : ℤ
  pub tm_sec : ℤ

-- What the print takes from the system: the local time of a number of seconds, and the text of a
-- thread id (decimal digits on Windows); and by how much std::counting_semaphore<1>::max() passes the
-- 1 that the standard guarantees.
pub record Runtime : Type 0 where
  pub localtime : ℤ → Tm
  pub thread_text : ℕ → Bytes
  pub semaphore_spare : ℕ

-- "{:04d}-{:02d}-{:02d} {:02d}:{:02d}:{:02d}.{:03d}"
unfoldable pub timestamp_text : Tm → ℤ → Bytes
timestamp_text tm milliseconds =
    padded 4 (tm.tm_year +ℤ pos 1900)
    ++ (codes "-"
        ++ (padded 2 (tm.tm_mon +ℤ pos 1)
            ++ (codes "-"
                ++ (padded 2 tm.tm_mday
                    ++ (codes " "
                        ++ (padded 2 tm.tm_hour
                            ++ (codes ":"
                                ++ (padded 2 tm.tm_min
                                    ++ (codes ":"
                                        ++ (padded 2 tm.tm_sec
                                            ++ (codes "." ++ padded 3 milliseconds)))))))))))

-- "[{}] {} [{}, {}] [{}]: {}\n"
unfoldable pub entry_text : Bytes → Bytes → Bytes → Bytes → Bytes → Bytes → Bytes
entry_text level timestamp process thread tag message =
    codes "["
    ++ (level
        ++ (codes "] "
            ++ (timestamp
                ++ (codes " ["
                    ++ (process
                        ++ (codes ", "
                            ++ (thread
                                ++ (codes "] ["
                                    ++ (tag ++ (codes "]: " ++ (message ++ 10 ∷ [])))))))))))

unfoldable pub format_log_entry : Runtime → Memory → LogEntry → Option Bytes
unfolding entry_text timestamp_text c_string
format_log_entry runtime memory entry =
    let seconds = quotient entry.timestamp_ms 1000 in
    let milliseconds = remainder entry.timestamp_ms 1000 in
    let tm_value = runtime.localtime seconds in
    let timestamp = timestamp_text tm_value milliseconds in
    let thread_id_str = runtime.thread_text entry.thread_id in
    elim (c_string memory entry.tag) [
      | none ↦ none
      | some tag ↦ elim (c_string memory entry.message) [
        | none ↦ none
        | some message ↦ some (
            entry_text (level_to_string entry.level) timestamp (decimal entry.process_id)
              thread_id_str tag message)
      ]
    ]

-- ===== src/Bridge/Sessions.antt =====
-- Sequences of calls of the C bridge on one logger: cbridge/speckit_logger.cpp.
use app_simple_log.Prelude.{
  ℕ, ◌≡◌, refl, sym, ap, ◌∙◌, Option, none, some, Bytes, List, [], ◌∷◌, ◌++◌, ℤ, Bool-cases, inl,
  inr, ltb_ℤ,
}
use app_simple_log.Level.{LogLevel, to_int8, of_int}
use app_simple_log.Disk.{Disk}
use app_simple_log.FileManager.Ownership.{Platform}
use app_simple_log.FileManager.State
use app_simple_log.FileManager.State.{needs_rotation}
use app_simple_log.FileManager.Rotating.{rotate_ends}
use app_simple_log.TagFilter.{is_tag_enabled, get_tag_level}
use app_simple_log.Bridge.{
  SpeckitErrorCode, SpeckitLogger, tag_text, write_line, speckit_logger_log,
  speckit_logger_set_log_level, speckit_logger_set_max_file_size,
  speckit_logger_set_retention_count, speckit_logger_set_tag_enabled, speckit_logger_set_tag_level,
  speckit_logger_set_auto_archive_config,
}

-- The calls between the creation of a logger and its end.
pub data Call : Type 0 where
  log : ℤ → Option Bytes → Option Bytes → Call
  set_log_level : ℤ → Call
  set_max_file_size : ℕ → Call
  set_retention_count : ℤ → Call
  set_tag_enabled : Option Bytes → ℤ → Call
  set_tag_level : Option Bytes → ℤ → Call
  set_auto_archive_config : ℤ → Call

-- The codes that the calls of `speckit_logger_log` return, the logger and the disk.
abbrev pub Outcome : Type 0
Outcome = List SpeckitErrorCode × Option SpeckitLogger × Disk

abbrev pub answered : SpeckitErrorCode → Option Outcome → Option Outcome
answered code none = none
answered code (some (codes, h, d)) = some (code ∷ codes, h, d)

-- The calls one after another; `none`: one of them never returns.
abbrev pub run : Platform → List Call → Option SpeckitLogger → Disk → Option Outcome
run platform [] h d = some ([], h, d)
run platform (log level tag message ∷ calls) h d =
    elim (speckit_logger_log platform h level tag message d) [
      | none ↦ none
      | some (code, h', d') ↦ answered code (run platform calls h' d')
    ]
run platform (set_log_level level ∷ calls) h d =
    run platform calls (speckit_logger_set_log_level h level).1 d
run platform (set_max_file_size bytes ∷ calls) h d =
    let (h', d') = speckit_logger_set_max_file_size bytes (h, d) in run platform calls h' d'
run platform (set_retention_count count ∷ calls) h d =
    let (h', d') = speckit_logger_set_retention_count count (h, d) in run platform calls h' d'
run platform (set_tag_enabled tag enabled ∷ calls) h d =
    let (h', d') = speckit_logger_set_tag_enabled tag enabled (h, d) in run platform calls h' d'
run platform (set_tag_level tag level ∷ calls) h d =
    let (h', d') = speckit_logger_set_tag_level tag level (h, d) in run platform calls h' d'
run platform (set_auto_archive_config enabled ∷ calls) h d =
    let (h', d') = speckit_logger_set_auto_archive_config enabled (h, d) in run platform calls h' d'

abbrev pub only_logs : List Call → List Call
only_logs [] = []
only_logs (log level tag message ∷ calls) = log level tag message ∷ only_logs calls
only_logs (call ∷ calls) = only_logs calls

-- A logger up to the level that `speckit_logger_set_log_level` stores.
abbrev pub without_level : Option SpeckitLogger → Option SpeckitLogger
without_level none = none
without_level (some logger) = some (record logger { level = LogLevel.debug })

abbrev pub seen :
    {A : Type 0}
    → Option (A × Option SpeckitLogger × Disk)
    → Option (A × Option SpeckitLogger × Disk)
seen none = none
seen (some (answer, h, d)) = some (answer, without_level h, d)

-- `speckit_logger_log` does not read the level.
log-without_level :
    (platform : Platform) (h : Option SpeckitLogger) (level : ℤ) (tag message : Option Bytes)
    (d : Disk)
    → seen (speckit_logger_log platform h level tag message d)
      ≡ seen (speckit_logger_log platform (without_level h) level tag message d)
unfolding speckit_logger_log write_line
log-without_level platform none level tag message d = refl
log-without_level platform (some logger) level tag none d = refl
log-without_level platform (some logger) level tag (some message) d =
    let written = State.write (message ++ b'\n' ∷ []) logger.fm d in
    let low =
      ltb_ℤ (to_int8 (of_int level)) (to_int8 (get_tag_level (tag_text tag) logger.tag_filter)) in
    elim (Bool-cases (is_tag_enabled (tag_text tag) logger.tag_filter)) [
      | inr off ↦ rw off refl
      | inl on ↦ elim (Bool-cases low) [
        | inl is_low ↦ rw (on, is_low) refl
        | inr passes ↦ elim (Bool-cases written.0) [
          | inr failed ↦ rw (on, passes, failed) refl
          | inl ok ↦ elim (Bool-cases (needs_rotation written.1)) [
            | inr stays ↦ rw (on, passes, ok, stays) refl
            | inl full ↦
                let (rotated, fm₂, d₂, ran, shape) = rotate_ends platform written.1 written.2 in
                rw (on, passes, ok, full, ran) refl
          ]
        ]
      ]
    ]

log-level_free :
    (platform : Platform) (h h' : Option SpeckitLogger) (level : ℤ) (tag message : Option Bytes)
    (d : Disk)
    → without_level h ≡ without_level h'
    → seen (speckit_logger_log platform h level tag message d)
      ≡ seen (speckit_logger_log platform h' level tag message d)
log-level_free platform h h' level tag message d same =
    log-without_level platform h level tag message d
    ∙ ap (λ x. seen (speckit_logger_log platform x level tag message d)) same
    ∙ sym (log-without_level platform h' level tag message d)

set_log_level-without_level :
    (h : Option SpeckitLogger) (level : ℤ)
    → without_level (speckit_logger_set_log_level h level).1 ≡ without_level h
unfolding speckit_logger_set_log_level
set_log_level-without_level none level = refl
set_log_level-without_level (some logger) level = refl

seen-answered :
    (code : SpeckitErrorCode) (r r' : Option Outcome)
    → seen r ≡ seen r'
    → seen (answered code r) ≡ seen (answered code r')
seen-answered code none none same = refl
seen-answered code none (some r) same = absurd cc
seen-answered code (some r) none same = absurd cc
seen-answered code (some (codes, h, d)) (some (codes', h', d')) same = cc

-- One call of `speckit_logger_log` before two runs that look the same.
after_log :
    (before before' : Option (SpeckitErrorCode × Option SpeckitLogger × Disk))
    (rest rest' : Option SpeckitLogger → Disk → Option Outcome)
    → ((h h' : Option SpeckitLogger) (d : Disk)
        → without_level h ≡ without_level h'
        → seen (rest h d) ≡ seen (rest' h' d))
    → seen before ≡ seen before'
    → seen (elim before [ none ↦ none | some (code, h, d) ↦ answered code (rest h d) ])
      ≡ seen (elim before' [ none ↦ none | some (code, h, d) ↦ answered code (rest' h d) ])
after_log none none rest rest' agree same = refl
after_log none (some r) rest rest' agree same = absurd cc
after_log (some r) none rest rest' agree same = absurd cc
after_log (some (code, h, d)) (some (code', h', d')) rest rest' agree same =
    let same_code : code ≡ code' = cc in
    let same_disk : d ≡ d' = cc in
    let same_logger : without_level h ≡ without_level h' = cc in
    seen-answered code (rest h d) (rest' h' d) (agree h h' d same_logger)
    ∙ ap (λ x. seen (answered x (rest' h' d))) same_code
    ∙ ap (λ x. seen (answered code' (rest' h' x))) same_disk

run-only_logs :
    (platform : Platform) (calls : List Call) (h h' : Option SpeckitLogger) (d : Disk)
    → without_level h ≡ without_level h'
    → seen (run platform calls h d) ≡ seen (run platform (only_logs calls) h' d)
unfolding speckit_logger_set_max_file_size speckit_logger_set_retention_count
    speckit_logger_set_tag_enabled speckit_logger_set_tag_level
    speckit_logger_set_auto_archive_config
run-only_logs platform [] h h' d same = ap (λ x. some ([], x, d)) same
run-only_logs platform (log level tag message ∷ calls) h h' d same =
    after_log (speckit_logger_log platform h level tag message d)
      (speckit_logger_log platform h' level tag message d) (run platform calls)
      (run platform (only_logs calls)) (run-only_logs platform calls)
      (log-level_free platform h h' level tag message d same)
run-only_logs platform (set_log_level level ∷ calls) h h' d same =
    run-only_logs platform calls (speckit_logger_set_log_level h level).1 h' d
      (set_log_level-without_level h level ∙ same)
run-only_logs platform (set_max_file_size bytes ∷ calls) h h' d same =
    run-only_logs platform calls h h' d same
run-only_logs platform (set_retention_count count ∷ calls) h h' d same =
    run-only_logs platform calls h h' d same
run-only_logs platform (set_tag_enabled tag enabled ∷ calls) h h' d same =
    run-only_logs platform calls h h' d same
run-only_logs platform (set_tag_level tag level ∷ calls) h h' d same =
    run-only_logs platform calls h h' d same
run-only_logs platform (set_auto_archive_config enabled ∷ calls) h h' d same =
    run-only_logs platform calls h h' d same

-- The settings of the C interface have no effect: a sequence of calls with any logger, null or not,
-- and the same sequence without the calls that set the minimum level, the maximum file size, the
-- retention count, the tags or the archiving give the same codes of `speckit_logger_log`, the same
-- disk, and the same logger but for the level that is stored in it.
pub settings_ignored :
    (platform : Platform) (calls : List Call) (h : Option SpeckitLogger) (d : Disk)
    → seen (run platform calls h d) ≡ seen (run platform (only_logs calls) h d)
settings_ignored platform calls h d = run-only_logs platform calls h h d refl

-- ===== src/Entry/Timestamp.antt =====
-- The timestamp of a printed entry has a fixed width, and its fields can be read back.
use app_simple_log.Prelude.{
  ℕ, suc, ◌≤◌, ◌<◌, ◌≡◌, sym, ap, ◌∙◌, Bytes, pos, ◌+ℤ◌, List, [], ◌∷◌, ◌++◌, take, drop,
  take-append, drop_past, append-nil, pow10, read_digits, padded, length, length-padded,
  read_digits-padded, arith,
}
use mathlib.Core.Path.{ap₂}
use app_simple_log.Entry.{Tm, timestamp_text}

-- Numbers of the given widths, each with one byte behind it.
pub read_fields : List ℕ → Bytes → List ℕ
read_fields [] s = []
read_fields (w ∷ ws) s = read_digits 0 (take w s) ∷ read_fields ws (drop (suc w) s)

take_whole : (w : ℕ) (s rest : Bytes) → length s ≡ w → take w (s ++ rest) ≡ s
take_whole w s rest e = ap (λ k. take k (s ++ rest)) (sym e) ∙ take-append s rest

drop_one_more :
    (w : ℕ) (s : Bytes) (c : ℕ) (rest : Bytes) → length s ≡ w → drop (suc w) (s ++ c ∷ rest) ≡ rest
drop_one_more w s c rest e = ap (λ k. drop (suc k) (s ++ c ∷ rest)) (sym e) ∙ drop_past s c rest

read_field :
    (w n c : ℕ) (ws : List ℕ) (rest : Bytes)
    → n < pow10 (suc w)
    → read_fields (suc w ∷ ws) (padded (suc w) (pos n) ++ c ∷ rest) ≡ n ∷ read_fields ws rest
unfolding read_fields
read_field w n c ws rest h =
    let wide = length-padded w n h in
    ap₂ ◌∷◌
      (ap (read_digits 0) (take_whole (suc w) (padded (suc w) (pos n)) (c ∷ rest) wide)
        ∙ read_digits-padded (suc w) n)
      (ap (read_fields ws) (drop_one_more (suc w) (padded (suc w) (pos n)) c rest wide))

-- The last field ends the text.
read_last :
    (w n : ℕ) → n < pow10 (suc w) → read_fields (suc w ∷ []) (padded (suc w) (pos n)) ≡ n ∷ []
unfolding read_fields
read_last w n h =
    ap (λ k. k ∷ [])
      (ap (read_digits 0) (
          ap (take (suc w)) (sym (append-nil (padded (suc w) (pos n))))
          ∙ take_whole (suc w) (padded (suc w) (pos n)) [] (length-padded w n h))
        ∙ read_digits-padded (suc w) n)

-- What `localtime` documents of its result, for the years 0 to 9999: the month counts from 0, the
-- year from 1900, and a leap second is allowed.
pub record IsCalendar (tm : Tm) (year month day hour minute second : ℕ) : Type 0 where
  pub year_is : tm.tm_year +ℤ pos 1900 ≡ pos year
  pub month_is : tm.tm_mon +ℤ pos 1 ≡ pos month
  pub day_is : tm.tm_mday ≡ pos day
  pub hour_is : tm.tm_hour ≡ pos hour
  pub minute_is : tm.tm_min ≡ pos minute
  pub second_is : tm.tm_sec ≡ pos second
  pub year_fits : year ≤ 9999
  pub month_fits : month ≤ 12
  pub day_fits : day ≤ 31
  pub hour_fits : hour ≤ 23
  pub minute_fits : minute ≤ 59
  pub second_fits : second ≤ 60

abbrev pub widths : List ℕ
widths = 4 ∷ 2 ∷ 2 ∷ 2 ∷ 2 ∷ 2 ∷ 3 ∷ []

-- The seven fields of a printed timestamp stand at fixed columns and read back as the calendar
-- fields and the milliseconds, for a `localtime` result in its documented range and a time not
-- before the epoch.
pub read_fields-timestamp_text :
    (tm : Tm) (year month day hour minute second ms : ℕ)
    → IsCalendar tm year month day hour minute second
    → ms < 1000
    → read_fields widths (timestamp_text tm (pos ms))
      ≡ year ∷ month ∷ day ∷ hour ∷ minute ∷ second ∷ ms ∷ []
unfolding timestamp_text
read_fields-timestamp_text tm year month day hour minute second ms c fits =
    rw (c.year_is, c.month_is, c.day_is, c.hour_is, c.minute_is, c.second_is)
      (read_field 3 year b'-' _ _ (omega (arith, c.year_fits))
        ∙ ap (λ l. year ∷ l)
            (read_field 1 month b'-' _ _ (omega (arith, c.month_fits))
              ∙ ap (λ l. month ∷ l)
                  (read_field 1 day 32 _ _ (omega (arith, c.day_fits))
                    ∙ ap (λ l. day ∷ l)
                        (read_field 1 hour b':' _ _ (omega (arith, c.hour_fits))
                          ∙ ap (λ l. hour ∷ l)
                              (read_field 1 minute b':' _ _ (omega (arith, c.minute_fits))
                                ∙ ap (λ l. minute ∷ l)
                                    (read_field 1 second b'.' _ _ (omega (arith, c.second_fits))
                                      ∙ ap (λ l. second ∷ l) (read_last 2 ms (omega arith))))))))

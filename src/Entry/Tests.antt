-- ===== src/Entry/Tests.antt =====
-- A timestamp at concrete values.
use app_simple_log.Prelude.{◌≡◌, refl, [], ◌∷◌, codes, padded, ◌+ℤ◌, pos, arith}
use app_simple_log.Entry.{Tm, timestamp_text}
use app_simple_log.Entry.Timestamp.{read_fields, widths, IsCalendar, read_fields-timestamp_text}

abbrev new_year : Tm
new_year = record {
  tm_year = pos 125;
  tm_mon = pos 0;
  tm_mday = pos 1;
  tm_hour = pos 9;
  tm_min = pos 5;
  tm_sec = pos 30;
}

new_year_fields : IsCalendar new_year 2025 1 1 9 5 30
unfolding ◌+ℤ◌
new_year_fields = record {
  year_is = refl;
  month_is = refl;
  day_is = refl;
  hour_is = refl;
  minute_is = refl;
  second_is = refl;
  year_fits = omega arith;
  month_fits = omega arith;
  day_fits = omega arith;
  hour_fits = omega arith;
  minute_fits = omega arith;
  second_fits = omega arith;
}

read_fields-timestamp_text_example :
    read_fields widths (timestamp_text new_year (pos 42)) ≡ 2025 ∷ 1 ∷ 1 ∷ 9 ∷ 5 ∷ 30 ∷ 42 ∷ []
read_fields-timestamp_text_example =
    read_fields-timestamp_text new_year 2025 1 1 9 5 30 42 new_year_fields (omega arith)

printed : timestamp_text new_year (pos 42) ≡ codes "2025-01-01 09:05:30.042"
unfolding timestamp_text padded ◌+ℤ◌
printed = refl

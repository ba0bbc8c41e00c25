-- ===== src/Examples/Models.antt =====
-- Calendar, payload buffer, timestamps and message types of rust/src/models.rs at small inputs.
use mie_decoder.Common.{◌+◌, ◌≡◌, refl, false, some, arith, replicate}
use mie_decoder.Models.Calendar.{is_leap_year, day_of_year_to_month_day}
use mie_decoder.Models.Calendar.Laws.{
  month_length, days_before, IsDate, month_day_sound, month_day_complete,
}
use mie_decoder.Models.DataWords.{from_slice, from_iter_capped, as_slice}
use mie_decoder.Models.DataWords.Laws.{IsValid, from_iter_capped-from_slice}
use mie_decoder.Models.Timestamp.{IrigTimestamp}

-- Day 60 of a leap year is 29 February, and of another year 1 March.
leap_day : day_of_year_to_month_day 2024 60 ≡ some (2, 29)
unfolding day_of_year_to_month_day is_leap_year
leap_day = refl

month_day_sound_example : IsDate 2024 60 2 29
month_day_sound_example = month_day_sound 2024 60 2 29 leap_day

month_day_complete_example :
    day_of_year_to_month_day 2023 (days_before (is_leap_year 2023) 12 + 31) ≡ some (12, 31)
unfolding month_length is_leap_year
month_day_complete_example =
    month_day_complete 2023 12 31 (omega arith) (omega arith) (omega arith) (omega arith)

from_iter_capped-from_slice_example :
    IsValid (from_iter_capped (replicate 40 9))
    × (as_slice (from_iter_capped (replicate 40 9)) ≡ as_slice (from_slice (replicate 40 9)))
from_iter_capped-from_slice_example = from_iter_capped-from_slice (replicate 40 9)

abbrev morning : IrigTimestamp
morning = record { day = 192; hour = 8; minute = 30; second = 0; microsecond = 12; freerun = false }

abbrev noon : IrigTimestamp
noon = record { day = 192; hour = 12; minute = 0; second = 0; microsecond = 0; freerun = false }

-- ===== src/Models/Text/Plain.antt =====
-- The renderings of rust/src/models.rs need no quotes in a row.
use mie_decoder.Common.{
  ℕ, zero, suc, ◌+◌, ◌-◌, ◌/◌, ◌%◌, ◌≤◌, ◌≢◌, ◌⊎◌, inl, inr, Option, none, some, List, [], ◌∷◌,
  ◌++◌, arith, ltb, if_intro, length, replicate, All, All-append,
}
use mie_decoder.Models.Timestamp.{IrigTimestamp, Timestamp}
use mie_decoder.Models.Calendar.{day_of_year_to_month_day}
use mie_decoder.Models.Text.{
  decimal_loop, decimal, hex_digit, hex4, padded, OutputTimeFormat, iso, doy, dom, ℤ, pos, negsuc,
  TimeRender, CalendarError, needs_calendar, offset_text, format_utc_offset, clock, irig_format,
  date_text, in_year, on_date, format_with,
}

-- A text that needs no quotes.
abbrev pub IsPlain : List ℕ → Type 0
IsPlain = All (λ (c : ℕ). (c ≢ b',') × (c ≢ b'"') × (c ≢ b'\n') × (c ≢ b'\r'))

decimal_loop-IsPlain : (fuel n : ℕ) → IsPlain (decimal_loop fuel n)
unfolding decimal_loop
decimal_loop-IsPlain zero n = tt
decimal_loop-IsPlain (suc fuel) n =
    if_intro IsPlain (ltb n 10) _ _
      (λ small. ((omega arith, omega arith, omega arith, omega arith), tt))
      (λ large.
        All-append _ (decimal_loop fuel (n / 10)) _ (decimal_loop-IsPlain fuel (n / 10))
          ((omega arith, omega arith, omega arith, omega arith), tt))

pub decimal-IsPlain : (n : ℕ) → IsPlain (decimal n)
unfolding decimal
decimal-IsPlain n = decimal_loop-IsPlain (n + 1) n

hex_digit_plain :
    (n : ℕ)
    → (hex_digit n ≢ b',') × (hex_digit n ≢ b'"') × (hex_digit n ≢ b'\n') × (hex_digit n ≢ b'\r')
hex_digit_plain n =
    if_intro (λ (c : ℕ). (c ≢ b',') × (c ≢ b'"') × (c ≢ b'\n') × (c ≢ b'\r')) (ltb n 10) _ _
      (λ small. (omega arith, omega arith, omega arith, omega arith))
      (λ large. (omega arith, omega arith, omega arith, omega arith))

pub hex4-IsPlain : (w : ℕ) → IsPlain (hex4 w)
unfolding hex4
hex4-IsPlain w = (
  hex_digit_plain (w / 4096 % 16),
  (hex_digit_plain (w / 256 % 16), (hex_digit_plain (w / 16 % 16), (hex_digit_plain (w % 16), tt))),
)

append-IsPlain : (xs ys : List ℕ) → IsPlain xs → IsPlain ys → IsPlain (xs ++ ys)
append-IsPlain xs ys =
    All-append (λ (c : ℕ). (c ≢ b',') × (c ≢ b'"') × (c ≢ b'\n') × (c ≢ b'\r')) xs ys

mark_then : (c : ℕ) (xs : List ℕ) → 45 ≤ c → IsPlain xs → IsPlain (c ∷ xs)
mark_then c xs h p = ((omega arith, omega arith, omega arith, omega arith), p)

zeros-IsPlain : (n : ℕ) → IsPlain (replicate n b'0')
zeros-IsPlain zero = tt
zeros-IsPlain (suc n) = ((omega arith, omega arith, omega arith, omega arith), zeros-IsPlain n)

padded-IsPlain : (width n : ℕ) → IsPlain (padded width n)
unfolding padded
padded-IsPlain width n =
    append-IsPlain (replicate (width - length (decimal n)) b'0') (decimal n)
      (zeros-IsPlain (width - length (decimal n))) (decimal-IsPlain n)

clock-IsPlain : (t : IrigTimestamp) → IsPlain (clock t)
clock-IsPlain t =
    append-IsPlain _ (b'.' ∷ padded 6 (t.microsecond % 1_000_000))
      (append-IsPlain _ (b':' ∷ padded 2 t.second)
        (append-IsPlain (padded 2 t.hour) (b':' ∷ padded 2 t.minute) (padded-IsPlain 2 t.hour)
          (mark_then b':' (padded 2 t.minute) (omega arith) (padded-IsPlain 2 t.minute)))
        (mark_then b':' (padded 2 t.second) (omega arith) (padded-IsPlain 2 t.second)))
      (mark_then b'.' (padded 6 (t.microsecond % 1_000_000)) (omega arith)
        (padded-IsPlain 6 (t.microsecond % 1_000_000)))

offset_text-IsPlain : (sign minutes : ℕ) → IsPlain (sign ∷ []) → IsPlain (offset_text sign minutes)
offset_text-IsPlain sign minutes h =
    append-IsPlain (sign ∷ padded 2 (minutes / 60)) (b':' ∷ padded 2 (minutes % 60))
      (h.0, padded-IsPlain 2 (minutes / 60))
      (mark_then b':' (padded 2 (minutes % 60)) (omega arith) (padded-IsPlain 2 (minutes % 60)))

format_utc_offset-IsPlain : (m : ℤ) → IsPlain (format_utc_offset m)
unfolding format_utc_offset
format_utc_offset-IsPlain (pos zero) = ((omega arith, omega arith, omega arith, omega arith), tt)
format_utc_offset-IsPlain (pos (suc n)) =
    offset_text-IsPlain b'+' (suc n) ((omega arith, omega arith, omega arith, omega arith), tt)
format_utc_offset-IsPlain (negsuc n) =
    offset_text-IsPlain b'-' (n + 1) ((omega arith, omega arith, omega arith, omega arith), tt)

short_date-IsPlain : (t : IrigTimestamp) (day : ℕ) → IsPlain (padded 2 day ++ b':' ∷ clock t)
short_date-IsPlain t day =
    append-IsPlain (padded 2 day) (b':' ∷ clock t) (padded-IsPlain 2 day)
      (mark_then b':' (clock t) (omega arith) (clock-IsPlain t))

date_text-IsPlain :
    (f : OutputTimeFormat) (t : IrigTimestamp) (year month day : ℕ) (offset : ℤ)
    → IsPlain (date_text f t year month day offset)
date_text-IsPlain iso t year month day offset =
    append-IsPlain _ (format_utc_offset offset)
      (append-IsPlain _ (b'T' ∷ clock t)
        (append-IsPlain _ (b'-' ∷ padded 2 day)
          (append-IsPlain (padded 4 year) (b'-' ∷ padded 2 month) (padded-IsPlain 4 year)
            (mark_then b'-' (padded 2 month) (omega arith) (padded-IsPlain 2 month)))
          (mark_then b'-' (padded 2 day) (omega arith) (padded-IsPlain 2 day)))
        (mark_then b'T' (clock t) (omega arith) (clock-IsPlain t)))
      (format_utc_offset-IsPlain offset)
date_text-IsPlain doy t year month day offset = short_date-IsPlain t day
date_text-IsPlain dom t year month day offset = short_date-IsPlain t day

-- A rendering, where there is one, is plain.
abbrev pub Rendered : CalendarError ⊎ List ℕ → Type 0
Rendered (inl e) = Unit {0}
Rendered (inr text) = IsPlain text

on_date-Rendered :
    (t : IrigTimestamp) (render : TimeRender) (year : ℕ) (date : Option (ℕ × ℕ))
    → Rendered (on_date t render year date)
on_date-Rendered t render year none = tt
on_date-Rendered t render year (some (month, day)) =
    date_text-IsPlain render.format t year month day render.utc_offset_minutes

in_year-Rendered :
    (t : IrigTimestamp) (render : TimeRender) (year : Option ℕ) → Rendered (in_year t render year)
in_year-Rendered t render none = tt
in_year-Rendered t render (some year) =
    on_date-Rendered t render year (day_of_year_to_month_day year t.day)

pub format_with-Rendered : (t : Timestamp) (render : TimeRender) → Rendered (format_with t render)
unfolding format_with irig_format
format_with-Rendered (Timestamp.irig t) render =
    if_intro Rendered (needs_calendar render.format) _ _
      (λ calendar.
        if_intro Rendered t.freerun _ _ (λ free. tt)
          (λ locked. in_year-Rendered t render render.year))
      (λ plain.
        append-IsPlain (decimal t.day) (b':' ∷ clock t) (decimal-IsPlain t.day)
          (mark_then b':' (clock t) (omega arith) (clock-IsPlain t)))
format_with-Rendered (Timestamp.standard t) render =
    if_intro Rendered (needs_calendar render.format) _ _ (λ calendar. tt)
      (λ plain.
        let digits = hex4 (t.raw_value / 65536 % 65536) ++ hex4 (t.raw_value % 65536) in
        mark_then b'0' (b'x' ∷ digits) (omega arith) (
          mark_then b'x' digits (omega arith) (
            append-IsPlain (hex4 (t.raw_value / 65536 % 65536)) (hex4 (t.raw_value % 65536))
              (hex4-IsPlain (t.raw_value / 65536 % 65536)) (hex4-IsPlain (t.raw_value % 65536)))))

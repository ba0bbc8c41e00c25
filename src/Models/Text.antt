-- ===== src/Models/Text.antt =====
-- rust/src/models.rs: the renderings of a timestamp, as lists of character codes.
pub mod Plain
use Prim.Native.Char.{code}
use Prim.Native.String.{String}
use mie_decoder.Common.{
  ℕ, zero, suc, ◌+◌, ◌-◌, ◌/◌, ◌%◌, ◌⊎◌, inl, inr, Bool, true, false, Option, none, some, List, [],
  ◌∷◌, ◌++◌, ltb, if◌then◌else◌, length, replicate,
}
use mie_decoder.Models.Calendar.{day_of_year_to_month_day}
use mie_decoder.Models.Timestamp.{IrigTimestamp, StandardTimestamp, Timestamp}

-- The characters of a text.
abbrev pub codes : String → List ℕ
codes String.[] = []
codes (String.◌∷◌ c s) = code c ∷ codes s

abbrev pub digit : ℕ → ℕ
digit n = b'0' + n

-- `{}` of a number, on fuel: a digit for each round.
unfoldable pub decimal_loop : ℕ → ℕ → List ℕ
decimal_loop zero n = []
decimal_loop (suc fuel) n =
    let front = decimal_loop fuel (n / 10) in
    if ltb n 10 then digit n ∷ [] else front ++ digit (n % 10) ∷ []

unfoldable pub decimal : ℕ → List ℕ
unfolding decimal_loop
decimal n = decimal_loop (n + 1) n

abbrev pub hex_digit : ℕ → ℕ
hex_digit n = if ltb n 10 then b'0' + n else b'A' + (n - 10)

-- `{:04X}` of a 16-bit word.
unfoldable pub hex4 : ℕ → List ℕ
hex4 w =
    hex_digit (w / 4096 % 16)
    ∷ hex_digit (w / 256 % 16)
    ∷ hex_digit (w / 16 % 16)
    ∷ hex_digit (w % 16)
    ∷ []

-- A number in `width` places at least, with zeros in front: `{:02}`, `{:04}` and `{:06}`.
unfoldable pub padded : ℕ → ℕ → List ℕ
unfolding decimal
padded width n = replicate (width - length (decimal n)) b'0' ++ decimal n

pub data OutputTimeFormat : Type 0 where
  doy iso dom : OutputTimeFormat

-- Integers: `negsuc n` is `-(n + 1)`.
pub data ℤ : Type 0 where
  pos negsuc : ℕ → ℤ

pub record TimeRender : Type 0 where
  pub format : OutputTimeFormat
  pub year : Option ℕ
  pub utc_offset_minutes : ℤ

pub data CalendarError : Type 0 where
  missing_year : CalendarError
  no_such_day : (day year : ℕ) → CalendarError
  not_calendar_locked freerun_not_anchored : CalendarError

abbrev pub needs_calendar : OutputTimeFormat → Bool
needs_calendar doy = false
needs_calendar iso = true
needs_calendar dom = true

abbrev pub offset_text : ℕ → ℕ → List ℕ
offset_text sign minutes = (sign ∷ padded 2 (minutes / 60)) ++ b':' ∷ padded 2 (minutes % 60)

unfoldable pub format_utc_offset : ℤ → List ℕ
unfolding padded
format_utc_offset (pos zero) = b'Z' ∷ []
format_utc_offset (pos (suc n)) = offset_text b'+' (suc n)
format_utc_offset (negsuc n) = offset_text b'-' (n + 1)

-- `{h:02}:{m:02}:{s:02}.{u:06}`.
abbrev pub clock : IrigTimestamp → List ℕ
clock t =
    padded 2 t.hour
    ++ (b':' ∷ padded 2 t.minute)
    ++ (b':' ∷ padded 2 t.second)
    ++ b'.' ∷ padded 6 (t.microsecond % 1_000_000)

unfoldable pub irig_format : IrigTimestamp → List ℕ
unfolding decimal padded
irig_format t = decimal t.day ++ b':' ∷ clock t

-- The calendar renderings of a resolved date.
abbrev pub date_text : OutputTimeFormat → IrigTimestamp → ℕ → ℕ → ℕ → ℤ → List ℕ
date_text iso t year month day offset =
    padded 4 year
    ++ (b'-' ∷ padded 2 month)
    ++ (b'-' ∷ padded 2 day)
    ++ (b'T' ∷ clock t)
    ++ format_utc_offset offset
date_text _ t year month day offset = padded 2 day ++ b':' ∷ clock t

-- `.ok_or(NoSuchDay)` of the date, and its text.
abbrev pub on_date : IrigTimestamp → TimeRender → ℕ → Option (ℕ × ℕ) → CalendarError ⊎ List ℕ
on_date t render year none = inl (no_such_day t.day year)
on_date t render year (some (month, day)) =
    inr (date_text render.format t year month day render.utc_offset_minutes)

-- `render.year.ok_or(MissingYear)`, and the day in that year.
abbrev pub in_year : IrigTimestamp → TimeRender → Option ℕ → CalendarError ⊎ List ℕ
in_year t render none = inl missing_year
in_year t render (some year) = on_date t render year (day_of_year_to_month_day year t.day)

unfoldable pub irig_format_with : IrigTimestamp → TimeRender → CalendarError ⊎ List ℕ
unfolding irig_format day_of_year_to_month_day padded format_utc_offset
irig_format_with t render =
    if needs_calendar render.format
    then if t.freerun then inl freerun_not_anchored else in_year t render render.year
    else inr (irig_format t)

-- `0x{:08X}`.
unfoldable pub standard_format : StandardTimestamp → List ℕ
unfolding hex4
standard_format t = b'0' ∷ b'x' ∷ (hex4 (t.raw_value / 65536 % 65536) ++ hex4 (t.raw_value % 65536))

unfoldable pub standard_format_with : StandardTimestamp → TimeRender → CalendarError ⊎ List ℕ
unfolding standard_format
standard_format_with t render =
    if needs_calendar render.format then inl not_calendar_locked else inr (standard_format t)

unfoldable pub format_with : Timestamp → TimeRender → CalendarError ⊎ List ℕ
unfolding irig_format_with standard_format_with
format_with (Timestamp.irig t) render = irig_format_with t render
format_with (Timestamp.standard t) render = standard_format_with t render

-- ===== src/Models/Calendar.antt =====
-- rust/src/models.rs: the proleptic Gregorian calendar behind the `iso` and `dom` renderings.
pub mod Laws
use mie_decoder.Common.{
  ℕ, ◌+◌, ◌-◌, ◌%◌, Bool, ◌&&◌, ◌||◌, not, Option, none, some, List, [], ◌∷◌, ltb, leb, ◌==◌,
  if◌then◌else◌,
}

abbrev pub year_min : ℕ
year_min = 1

abbrev pub year_max : ℕ
year_max = 9999

abbrev pub common_year_month_lengths : List ℕ
common_year_month_lengths = 31 ∷ 28 ∷ 31 ∷ 30 ∷ 31 ∷ 30 ∷ 31 ∷ 31 ∷ 30 ∷ 31 ∷ 30 ∷ 31 ∷ []

unfoldable pub is_leap_year : ℕ → Bool
is_leap_year year = year % 4 == 0 && (not (year % 100 == 0) || year % 400 == 0)

-- The `for` over the month lengths: `index` and `remaining` are its variables.
unfoldable pub find_month : Bool → List ℕ → ℕ → ℕ → Option (ℕ × ℕ)
find_month leap [] index remaining = none
find_month leap (base_length ∷ rest) index remaining =
    let length : ℕ = if index == 1 && leap then base_length + 1 else base_length in
    let later = find_month leap rest (index + 1) (remaining - length) in
    if leb remaining length then some (index + 1, remaining) else later

unfoldable pub day_of_year_to_month_day : ℕ → ℕ → Option (ℕ × ℕ)
unfolding find_month
day_of_year_to_month_day year day_of_year =
    let leap = is_leap_year year in
    let year_length : ℕ = if leap then 366 else 365 in
    if day_of_year == 0 || ltb year_length day_of_year
    then none
    else find_month leap common_year_month_lengths 0 day_of_year

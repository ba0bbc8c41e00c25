-- ===== src/Models/Calendar/Laws.antt =====
-- The calendar of rust/src/models.rs against the month lengths of the year.
use mie_decoder.Common.{
  ℕ, zero, suc, ◌+◌, ◌≤◌, ◌<◌, ◌≡◌, ◌≢◌, ◌↔◌, ◌⊎◌, ◌%◌, refl, ◌∙◌, inl, inr, Bool, true, false,
  ◌||◌, none, some, arith, leb, ◌==◌, if◌then◌else◌, Option-cases,
}
use mathlib.Core.Path.{ap₂}
use mie_decoder.Models.Calendar.{is_leap_year, day_of_year_to_month_day}

-- The length of month `m`, counted from 1, and 0 for what is no month.
unfoldable pub month_length : Bool → ℕ → ℕ
month_length leap zero = 0
month_length leap (suc zero) = 31
month_length leap (suc (suc zero)) = if leap then 29 else 28
month_length leap m =
    if m == 4 || m == 6 || m == 9 || m == 11 then 30 else if leb m 12 then 31 else 0

-- The days of the year that lie before month `m`.
unfoldable pub days_before : Bool → ℕ → ℕ
days_before leap zero = 0
days_before leap (suc zero) = 0
days_before leap (suc (suc m)) = days_before leap (suc m) + month_length leap (suc m)

abbrev pub year_length : ℕ → ℕ
year_length year = if is_leap_year year then 366 else 365

-- The Gregorian leap years: those that 4 divides, of the full centuries only those that 400 divides.
abbrev pub IsLeap : ℕ → Type 0
IsLeap year = ((year % 4 ≡ 0) × (year % 100 ≢ 0)) ⊎ (year % 400 ≡ 0)

IsLeap-iff : (year : ℕ) → (is_leap_year year ≡ true) ↔ IsLeap year
unfolding is_leap_year
IsLeap-iff year = (λ h. ground arith, λ h. ground arith)

month_day_bounds :
    (year day m d : ℕ)
    → day_of_year_to_month_day year day ≡ some (m, d)
    → (1 ≤ m)
      × (m ≤ 12)
      × (1 ≤ d)
      × (d ≤ month_length (is_leap_year year) m)
      × (days_before (is_leap_year year) m + d ≡ day)
unfolding day_of_year_to_month_day month_length days_before
month_day_bounds year day m d h = ground arith

-- A date of a year: February has its 29th day exactly in the leap years.
pub record IsDate (year day m d : ℕ) : Type 0 where
  pub leap : Bool
  pub gregorian : (leap ≡ true) ↔ IsLeap year
  pub month_in : (1 ≤ m) × (m ≤ 12)
  pub day_in : (1 ≤ d) × (d ≤ month_length leap m)
  pub counted : days_before leap m + d ≡ day

-- A month and day that the calendar returns exist in that year, whose February has 29 days exactly
-- where 4 divides it and 100 does not, or 400 does, and they count up to the day of the year.
pub month_day_sound :
    (year day m d : ℕ) → day_of_year_to_month_day year day ≡ some (m, d) → IsDate year day m d
month_day_sound year day m d h =
    let (a, b, c, e, f) = month_day_bounds year day m d h in
    record {
      leap = is_leap_year year;
      gregorian = IsLeap-iff year;
      month_in = (a, b);
      day_in = (c, e);
      counted = f;
    }

month_day_total :
    (year day : ℕ)
    → 1 ≤ day
    → day ≤ year_length year
    → (p : ℕ × ℕ) × (day_of_year_to_month_day year day ≡ some p)
month_day_total year day lo hi = elim (Option-cases (day_of_year_to_month_day year day)) [
  | inl e ↦ absurd (missing e)
  | inr found ↦ found
]
  where
    missing : ¬ (day_of_year_to_month_day year day ≡ none)
    missing e = unfold day_of_year_to_month_day in ground arith

days_before_later :
    (leap : Bool) (m n : ℕ) → m < n → days_before leap m + month_length leap m ≤ days_before leap n
unfolding days_before
days_before_later leap m zero h = absurd (omega arith)
days_before_later leap m (suc zero) h =
    let e : m ≡ 0 = omega arith in rw e (unfold month_length in omega arith)
days_before_later leap m (suc (suc n)) h = ground (arith, days_before_later leap m (suc n))

days_before_end : (leap : Bool) → days_before leap 13 ≡ (if leap then 366 else 365)
unfolding days_before month_length
days_before_end true = refl
days_before_end false = refl

-- No two dates of a year share their day of the year.
date_unique :
    (leap : Bool) (m d m' d' : ℕ)
    → 1 ≤ m
    → 1 ≤ m'
    → 1 ≤ d
    → 1 ≤ d'
    → d ≤ month_length leap m
    → d' ≤ month_length leap m'
    → days_before leap m + d ≡ days_before leap m' + d'
    → (m ≡ m') × (d ≡ d')
date_unique leap m d m' d' a b c e f g h =
    ground (arith, days_before_later leap m m', days_before_later leap m' m)

month_day_same :
    (year m d : ℕ) (p : ℕ × ℕ)
    → 1 ≤ m
    → 1 ≤ d
    → d ≤ month_length (is_leap_year year) m
    → day_of_year_to_month_day year (days_before (is_leap_year year) m + d) ≡ some p
    → day_of_year_to_month_day year (days_before (is_leap_year year) m + d) ≡ some (m, d)
month_day_same year m d (m', d') a c e found =
    let (lo, _, lo', hi', count) = month_day_bounds year _ m' d' found in
    let same = date_unique (is_leap_year year) m' d' m d lo a lo' c hi' e count in
    found ∙ ap₂ (λ x y. some (x, y)) same.0 same.1

day_in_year :
    (leap : Bool) (m d : ℕ)
    → m ≤ 12
    → d ≤ month_length leap m
    → days_before leap m + d ≤ (if leap then 366 else 365)
day_in_year leap m d b h =
    omega (arith, days_before_later leap m 13 (omega arith), days_before_end leap)

-- Every date of the year is the result at its own day of the year.
pub month_day_complete :
    (year m d : ℕ)
    → 1 ≤ m
    → m ≤ 12
    → 1 ≤ d
    → d ≤ month_length (is_leap_year year) m
    → day_of_year_to_month_day year (days_before (is_leap_year year) m + d) ≡ some (m, d)
month_day_complete year m d a b c e =
    let total =
      month_day_total year (days_before (is_leap_year year) m + d) (omega arith)
        (day_in_year (is_leap_year year) m d b e) in
    month_day_same year m d total.0 a c e total.1

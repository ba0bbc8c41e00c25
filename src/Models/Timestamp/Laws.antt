-- ===== src/Models/Timestamp/Laws.antt =====
-- IRIG timestamps of rust/src/models.rs as a mixed-radix number of microseconds.
use mie_decoder.Common.{◌^◌, ◌≤◌, ◌<◌, ◌≡◌, ◌↔◌, ◌⊎◌, arith}
use mie_decoder.Models.Timestamp.{IrigTimestamp, to_total_microseconds}

-- The ranges that record validation checks for a calendar-locked record.
pub record InRange (t : IrigTimestamp) : Type 0 where
  pub day : t.day ≤ 366
  pub hour : t.hour < 24
  pub minute : t.minute < 60
  pub second : t.second < 60
  pub microsecond : t.microsecond < 1_000_000

-- Lexicographic order of the fields.
abbrev pub Earlier : IrigTimestamp → IrigTimestamp → Type 0
Earlier a b =
    (a.day < b.day)
    ⊎ (a.day ≡ b.day)
      × ((a.hour < b.hour)
          ⊎ (a.hour ≡ b.hour)
            × ((a.minute < b.minute)
                ⊎ (a.minute ≡ b.minute)
                  × ((a.second < b.second)
                      ⊎ (a.second ≡ b.second) × (a.microsecond < b.microsecond))))

-- In range, the order of the totals is the calendar order of the fields.
pub total-lt_iff :
    (a b : IrigTimestamp)
    → InRange a
    → InRange b
    → (to_total_microseconds a < to_total_microseconds b) ↔ Earlier a b
unfolding to_total_microseconds
total-lt_iff a b ra rb = (λ h. grind arith, λ h. grind arith)

-- With the field widths of the wire the total fits a `u64` with room to spare.
pub total_fits :
    (t : IrigTimestamp)
    → t.day < 512
    → t.hour < 32
    → t.minute < 64
    → t.second < 64
    → t.microsecond < 2 ^ 20
    → to_total_microseconds t < 2 ^ 64
unfolding to_total_microseconds
total_fits t a b c d e = omega arith

-- ===== src/Models/Timestamp.antt =====
-- rust/src/models.rs: the two timestamp kinds, and their value in microseconds.
pub mod Laws
use mie_decoder.Common.{ℕ, ◌+◌, ◌*◌, Bool, ◌||◌, not, Option, none, some, if◌then◌else◌}

pub record IrigTimestamp : Type 0 where
  pub day : ℕ
  pub hour : ℕ
  pub minute : ℕ
  pub second : ℕ
  pub microsecond : ℕ
  pub freerun : Bool

pub record StandardTimestamp : Type 0 where
  pub raw_value : ℕ
  pub upper_word : ℕ
  pub lower_word : ℕ

pub data Timestamp : Type 0 where
  irig : IrigTimestamp → Timestamp
  standard : StandardTimestamp → Timestamp

-- The `f64` operations that the crate takes from the platform. `in_u64` is
-- `(0.0..TWO_POW_64).contains`, and `to_u64` the cast `as u64`.
pub record Floats : Type 1 where
  pub F : Type 0
  pub zero_seconds : F
  pub million : F
  pub of_u64 : ℕ → F
  pub mul : F → F → F
  pub div : F → F → F
  pub round : F → F
  pub is_finite : F → Bool
  pub le_zero : F → Bool
  pub in_u64 : F → Bool
  pub to_u64 : F → ℕ

-- The source computes in `u64`; `total_fits` of `Laws` shows that nothing wraps.
unfoldable pub to_total_microseconds : IrigTimestamp → ℕ
to_total_microseconds t =
    (t.day * 86_400 + t.hour * 3_600 + t.minute * 60 + t.second) * 1_000_000 + t.microsecond

module _ (fl : Floats) where
  open fl use {F, million, of_u64, mul, div, round, is_finite, le_zero, in_u64, to_u64}

  -- `StandardTimestamp::to_microseconds`.
  unfoldable pub standard_to_microseconds : StandardTimestamp → F → Option ℕ
  standard_to_microseconds t hz =
      let micros = div (mul (of_u64 t.raw_value) million) hz in
      let rounded = round micros in
      if not (is_finite hz) || le_zero hz
      then none
      else if not (is_finite rounded) || not (in_u64 rounded)
      then none
      else some (to_u64 rounded)

  -- `Timestamp::to_microseconds`.
  unfoldable pub to_microseconds : Timestamp → Option F → Option ℕ
  unfolding standard_to_microseconds to_total_microseconds
  to_microseconds (irig t) hz = some (to_total_microseconds t)
  to_microseconds (standard t) none = none
  to_microseconds (standard t) (some hz) = standard_to_microseconds t hz

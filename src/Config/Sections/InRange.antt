-- ===== src/Config/Sections/InRange.antt =====
-- The settings that a configuration file in rust/src/config.rs gives are in their ranges.
use mie_decoder.Config.Toml.Value.{Std}
use mie_decoder.Config.Text.{text_eq, lower, negative}
use mie_decoder.Config.Names.{
  Level, parse_level, parse_utc_offset, or_invalid, offset_shape, signed, in_day, two_digits,
  offset_of,
}
use mie_decoder.Config.Settings.{DecoderConfig}
use mie_decoder.Config.Schema.{require_int_range}
use mie_decoder.Models.Text.{codes, ℤ, pos, negsuc}
use mie_decoder.Common.{
  ℕ, zero, suc, ◌+◌, ◌*◌, ◌≤◌, ◌<◌, ◌≡◌, ◌≢◌, inr, Bool, true, false, ◌&&◌, ◌||◌, Option, none,
  some, List, [], ◌∷◌, arith, ltb, leb, ◌==◌, if_intro, Right, All,
}

-- Minutes of an offset of less than a day.
abbrev pub WithinDay : ℤ → Type 0
WithinDay (pos n) = n < 1440
WithinDay (negsuc n) = n + 1 < 1440

abbrev pub OptionAll : {A : Type 0} → (A → Type 0) → Option A → Type 0
OptionAll P none = Unit
OptionAll P (some a) = P a

module _ {F : Type 0} (std : Std F) where
  abbrev pub LoggingOk : DecoderConfig F → Type 0
  LoggingOk c = (l : Level) × (parse_level c.log_level ≡ some l)

  abbrev pub TickRate : F → Type 0
  TickRate hz = (std.is_finite hz ≡ true) × (std.le_zero hz ≡ false)

  abbrev pub DecodeOk : DecoderConfig F → Type 0
  DecodeOk c =
      ((1 ≤ c.detect_records) × (c.detect_records ≤ 32))
      × ((1 ≤ c.lookahead_records) × (c.lookahead_records ≤ 32))
      × OptionAll TickRate c.standard_tick_rate_hz

  abbrev pub OutputOk : DecoderConfig F → Type 0
  OutputOk c =
      OptionAll (λ (y : ℕ). (1 ≤ y) × (y ≤ 9999)) c.year
      × WithinDay c.utc_offset_minutes
      × ((1 ≤ c.max_sort_group) × (c.max_sort_group ≤ 1_048_576))

  abbrev pub MergeOk : DecoderConfig F → Type 0
  MergeOk c = (1 ≤ c.max_collapse_survivors) × (c.max_collapse_survivors ≤ 1_048_576)

  abbrev pub FiltersOk : DecoderConfig F → Type 0
  FiltersOk c =
      All (λ (n : ℕ). n ≤ 255) c.filters.exclude_types
      × All (λ (n : ℕ). n ≤ 31) c.filters.exclude_rts
      × All (λ (n : ℕ). n ≤ 31) c.filters.exclude_subaddresses

  -- The ranges of the settings but for the filters.
  abbrev pub RunOk : DecoderConfig F → Type 0
  RunOk c = LoggingOk c × DecodeOk c × OutputOk c × (c.mux_delimiter ≢ []) × MergeOk c

  -- The ranges of the settings.
  abbrev pub InRange : DecoderConfig F → Type 0
  InRange c =
      LoggingOk c × DecodeOk c × OutputOk c × (c.mux_delimiter ≢ []) × MergeOk c × FiltersOk c

pub require_int_range-bounds :
    (n : ℤ) (lo hi : ℕ) → Right (λ (v : ℕ). (lo ≤ v) × (v ≤ hi)) (require_int_range n lo hi)
unfolding require_int_range
require_int_range-bounds (pos n) lo hi =
    if_intro (Right (λ (v : ℕ). (lo ≤ v) × (v ≤ hi))) (leb lo n && leb n hi) _ _
      (λ h. (ground arith, ground arith)) (λ h. tt)
require_int_range-bounds (negsuc n) lo hi = tt

offset_within : (minus : Bool) (h m : ℕ) → h ≤ 23 → m ≤ 59 → WithinDay (offset_of minus h m)
offset_within false h m p q = omega arith
offset_within true h m p q = within (h * 60 + m) (omega arith)
  where
    within : (n : ℕ) → n < 1440 → WithinDay (negative n)
    within zero h = omega arith
    within (suc n) h = omega arith

in_day-WithinDay : (minus : Bool) (h m : Option ℕ) → OptionAll WithinDay (in_day minus h m)
in_day-WithinDay minus none m = tt
in_day-WithinDay minus (some h) none = tt
in_day-WithinDay minus (some h) (some m) =
    if_intro (OptionAll WithinDay) (ltb 23 h || ltb 59 m) _ _ (λ p. tt)
      (λ p. offset_within minus h m (ground arith) (ground arith))

signed-WithinDay : (sign : ℕ) (h m : Option ℕ) → OptionAll WithinDay (signed sign h m)
signed-WithinDay sign h m =
    if_intro (OptionAll WithinDay) (sign == b'+') _ _ (λ p. in_day-WithinDay false h m)
      (λ p.
        if_intro (OptionAll WithinDay) (sign == b'-') _ _ (λ q. in_day-WithinDay true h m)
          (λ q. tt))

offset_shape-WithinDay : (s : List ℕ) → OptionAll WithinDay (offset_shape s)
offset_shape-WithinDay (sign ∷ h ∷ g ∷ colon ∷ m ∷ n ∷ []) =
    if_intro (OptionAll WithinDay) (colon == b':') _ _
      (λ p. signed-WithinDay sign (two_digits h g) (two_digits m n)) (λ p. tt)
offset_shape-WithinDay [] = tt
offset_shape-WithinDay (a ∷ []) = tt
offset_shape-WithinDay (a ∷ b ∷ []) = tt
offset_shape-WithinDay (a ∷ b ∷ c ∷ []) = tt
offset_shape-WithinDay (a ∷ b ∷ c ∷ d ∷ []) = tt
offset_shape-WithinDay (a ∷ b ∷ c ∷ d ∷ e ∷ []) = tt
offset_shape-WithinDay (a ∷ b ∷ c ∷ d ∷ e ∷ f ∷ g ∷ s) = tt

pub or_invalid-Right :
    {A : Type 0} (P : A → Type 0) (o : Option A) → OptionAll P o → Right P (or_invalid o)
or_invalid-Right P none h = tt
or_invalid-Right P (some a) h = h

-- An accepted offset is of less than a day.
pub parse_utc_offset-WithinDay : (s : List ℕ) → Right WithinDay (parse_utc_offset s)
unfolding parse_utc_offset
parse_utc_offset-WithinDay s =
    if_intro (Right WithinDay) (text_eq (lower s) (codes "z")) (inr (pos 0))
      (or_invalid (offset_shape s)) (λ z. omega arith)
      (λ z. or_invalid-Right WithinDay (offset_shape s) (offset_shape-WithinDay s))

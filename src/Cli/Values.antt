-- ===== src/Cli/Values.antt =====
-- The values of single options in rust/src/cli.rs. A message is its case.
use mie_decoder.Config.Text.{
  text_eq, is_digit, trim, has_char, parse_unsigned, parse_i64, decimal_digit, hex_value, split_at,
}
use mie_decoder.Config.Toml.Value.{Std}
use mie_decoder.Config.Names.{
  timestamp_format_from_name_ci, output_time_format_from_name_ci, delta_scope_from_name_ci,
  parse_utc_offset, parse_type_name, parse_bus_name,
}
use mie_decoder.Config.Settings.{
  detect_records_min, detect_records_max, lookahead_records_min, lookahead_records_max,
}
use mie_decoder.Config.Toml.Get.{ConfigProblem}
use mie_decoder.Models.{Bus, TimestampFormat}
use mie_decoder.Models.Calendar.{year_min, year_max}
use mie_decoder.Models.Text.{codes, ℤ, pos, negsuc, OutputTimeFormat}
use mie_decoder.Merge.State.{DeltaScope}
use mie_decoder.Merge.Dedup.{max_collapse_survivors_min, max_collapse_survivors_max}
use mie_decoder.Order.{max_sort_group_min, max_sort_group_max}
use mie_decoder.Common.{
  ℕ, ◌⊎◌, inl, inr, Bool, false, ◌&&◌, ◌||◌, not, Option, none, some, List, [], ◌∷◌, ◌++◌, ltb, leb,
  ◌==◌, if◌then◌else◌, length, is_empty, ◌>>=◌,
}

-- `ParseError`: a request for help, or a message.
pub data ParseError : Type 0 where
  help_requested : ParseError
  missing_value option_as_value invalid_value unknown_option retired_option : ParseError
  no_input several_inputs : ParseError

abbrev pub usize_max : ℕ
usize_max = 18446744073709551615

-- `ok_or_else` and `map_err`.
abbrev pub or_refuse : {A : Type 0} → Option A → ParseError ⊎ A
or_refuse none = inl invalid_value
or_refuse (some a) = inr a

abbrev pub from_config : {A : Type 0} → ConfigProblem ⊎ A → ParseError ⊎ A
from_config (inl e) = inl invalid_value
from_config (inr a) = inr a

-- `strip_prefix('.')`, and a digit behind it.
abbrev pub digit_first : List ℕ → Bool
digit_first [] = false
digit_first (c ∷ s) = is_digit c

abbrev pub point_then_digit : List ℕ → Bool
point_then_digit [] = false
point_then_digit (c ∷ s) = if c == b'.' then digit_first s else is_digit c

unfoldable pub starts_like_a_number : List ℕ → Bool
starts_like_a_number [] = false
starts_like_a_number (c ∷ s) = c == b'-' && point_then_digit s

abbrev pub starts_with_dash : List ℕ → Bool
starts_with_dash [] = false
starts_with_dash (c ∷ s) = c == b'-'

unfoldable pub looks_like_option : List ℕ → Bool
unfolding starts_like_a_number has_char
looks_like_option token =
    if not (starts_with_dash token) || ltb (length token) 2 || has_char b' ' token
    then false
    else not (starts_like_a_number token)

-- One argument token; `inline` is what stands behind the first `=`.
pub record Arg : Type 0 where
  pub raw : List ℕ
  pub name : List ℕ
  pub inline : Option (List ℕ)

abbrev pub split_found : List ℕ → Option (List ℕ × List ℕ) → Arg
split_found raw none = record { raw = raw; name = raw; inline = none }
split_found raw (some (name, value)) = record { raw = raw; name = name; inline = some value }

abbrev pub is_long : List ℕ → Bool
is_long (c ∷ d ∷ s) = c == b'-' && d == b'-'
is_long s = false

unfoldable pub split_arg : List ℕ → Arg
unfolding split_at
split_arg raw = split_found raw (if is_long raw then split_at b'=' raw else none)

abbrev pub within : ℕ → ℕ → ℕ → ParseError ⊎ ℕ
within lo hi n = if leb lo n && leb n hi then inr n else inl invalid_value

-- `0x` or `0X`, and what stands behind it.
abbrev pub strip_hex : List ℕ → Option (List ℕ)
strip_hex (z ∷ x ∷ s) = if z == b'0' && (x == b'x' || x == b'X') then some s else none
strip_hex s = none

unfoldable pub parse_int_value : List ℕ → ParseError ⊎ ℕ
unfolding trim parse_unsigned
parse_int_value s = elim (strip_hex (trim s)) [
  | none ↦ or_refuse (parse_unsigned 10 decimal_digit usize_max (trim s))
  | some hex ↦ or_refuse (parse_unsigned 16 hex_value usize_max hex)
]

unfoldable pub parse_u8_value : List ℕ → ParseError ⊎ ℕ
unfolding parse_int_value
parse_u8_value s = parse_int_value s >>= within 0 255

-- `split(',')`.
unfoldable pub split_commas : List ℕ → List ℕ → List (List ℕ)
split_commas cur [] = cur ∷ []
split_commas cur (c ∷ s) =
    let cut = split_commas [] s in
    let on = split_commas (cur ++ c ∷ []) s in if c == b',' then cur ∷ cut else on

abbrev pub keep_full : List (List ℕ) → List (List ℕ)
keep_full [] = []
keep_full (t ∷ ts) = let rest = keep_full ts in if is_empty (trim t) then rest else trim t ∷ rest

unfoldable pub split_csv : List ℕ → List (List ℕ)
unfolding split_commas trim
split_csv s = keep_full (split_commas [] s)

-- The loop of `push_filter`.
unfoldable pub push_values :
    {A : Type 0} → (List ℕ → ParseError ⊎ A) → List A → List (List ℕ) → ParseError ⊎ List A
push_values parse target [] = inr target
push_values parse target (v ∷ vs) = parse v >>= (λ a. push_values parse (target ++ a ∷ []) vs)

unfoldable pub push_filter :
    {A : Type 0} → (List ℕ → ParseError ⊎ A) → List A → List ℕ → ParseError ⊎ List A
unfolding push_values split_csv
push_filter parse target csv = push_values parse target (split_csv csv)

unfoldable pub parse_bus_filter : List ℕ → ParseError ⊎ Bus
unfolding parse_bus_name
parse_bus_filter v = from_config (parse_bus_name v)

unfoldable pub parse_input_time_format_arg : List ℕ → ParseError ⊎ TimestampFormat
unfolding timestamp_format_from_name_ci
parse_input_time_format_arg s = or_refuse (timestamp_format_from_name_ci s)

unfoldable pub parse_output_time_format_arg : List ℕ → ParseError ⊎ OutputTimeFormat
unfolding output_time_format_from_name_ci
parse_output_time_format_arg s = or_refuse (output_time_format_from_name_ci s)

unfoldable pub parse_year_arg : List ℕ → ParseError ⊎ ℕ
unfolding parse_unsigned
parse_year_arg s =
    or_refuse (parse_unsigned 10 decimal_digit 4294967295 s) >>= within year_min year_max

unfoldable pub parse_utc_offset_arg : List ℕ → ParseError ⊎ ℤ
unfolding parse_utc_offset
parse_utc_offset_arg s = from_config (parse_utc_offset s)

unfoldable pub parse_output_format_arg : List ℕ → ParseError ⊎ List ℕ
unfolding text_eq
parse_output_format_arg s = if text_eq s (codes "csv") then inr s else inl invalid_value

-- `s.trim().parse::<usize>()` and the range of the option.
unfoldable pub parse_in_range : ℕ → ℕ → List ℕ → ParseError ⊎ ℕ
unfolding trim parse_unsigned
parse_in_range lo hi s =
    or_refuse (parse_unsigned 10 decimal_digit usize_max (trim s)) >>= within lo hi

abbrev pub parse_detect_records : List ℕ → ParseError ⊎ ℕ
parse_detect_records = parse_in_range detect_records_min detect_records_max

abbrev pub parse_lookahead_records : List ℕ → ParseError ⊎ ℕ
parse_lookahead_records = parse_in_range lookahead_records_min lookahead_records_max

abbrev pub parse_max_sort_group : List ℕ → ParseError ⊎ ℕ
parse_max_sort_group = parse_in_range max_sort_group_min max_sort_group_max

abbrev pub parse_max_collapse_survivors : List ℕ → ParseError ⊎ ℕ
parse_max_collapse_survivors = parse_in_range max_collapse_survivors_min max_collapse_survivors_max

abbrev pub parse_mux_delimiter : List ℕ → ParseError ⊎ List ℕ
parse_mux_delimiter [] = inl invalid_value
parse_mux_delimiter (c ∷ s) = inr (c ∷ s)

unfoldable pub parse_mux_field : List ℕ → ParseError ⊎ ℤ
unfolding trim parse_i64
parse_mux_field s = or_refuse (parse_i64 (trim s))

unfoldable pub parse_delta_scope : List ℕ → ParseError ⊎ DeltaScope
unfolding trim delta_scope_from_name_ci
parse_delta_scope s = or_refuse (delta_scope_from_name_ci (trim s))

abbrev pub not_negative : Option ℤ → ParseError ⊎ ℤ
not_negative none = inl invalid_value
not_negative (some (pos n)) = inr (pos n)
not_negative (some (negsuc n)) = inl invalid_value

unfoldable pub parse_collapse_window_us : List ℕ → ParseError ⊎ ℤ
unfolding trim parse_i64
parse_collapse_window_us s = not_negative (parse_i64 (trim s))

module _ {F : Type 0} (std : Std F) where
  unfoldable pub parse_type_filter : List ℕ → ParseError ⊎ ℕ
  unfolding parse_type_name
  parse_type_filter v = from_config (parse_type_name std v)

  unfoldable pub parse_standard_tick_rate_hz : List ℕ → ParseError ⊎ F
  unfolding trim
  parse_standard_tick_rate_hz s =
      or_refuse (std.parse_f64 (trim s))
      >>= (λ hz. if not (std.is_finite hz) || std.le_zero hz then inl invalid_value else inr hz)

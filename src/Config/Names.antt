-- ===== src/Config/Names.antt =====
-- How rust/src/config.rs, and `from_name_ci` and `Level::parse` of rust/src/models.rs and
-- rust/src/log.rs, read the text of one setting.
pub mod Offset
use mie_decoder.Config.Text.{
  text_eq, lower, upper, is_digit, trim, hex_value, decimal_digit, parse_unsigned, digits_value,
  negative,
}
use mie_decoder.Config.Toml.Value.{Std, TomlValue, string, int, float, bool, array}
use mie_decoder.Config.Toml.Get.{ConfigProblem, invalid_value}
use mie_decoder.Models.{
  Bus, bus_a, bus_b, MessageType, mode_command, bc_to_rt, rt_to_bc, rt_to_rt, broadcast_bc_to_rt,
  broadcast_rt_to_rt, spurious_data, type_code, TimestampFormat, auto, irig, standard,
}
use mie_decoder.Models.Text.{codes, ℤ, pos, negsuc, OutputTimeFormat, doy, iso, dom}
use mie_decoder.Merge.State.{DeltaScope, per_file, global}
use mie_decoder.Common.{
  ℕ, zero, suc, ◌+◌, ◌-◌, ◌*◌, ◌/◌, ◌%◌, ◌^◌, ◌≤◌, ◌<◌, min, max, ◌≡◌, refl, sym, ap, ◌∙◌, ◌≢◌, ◌↔◌,
  ◌⊎◌, inl, inr, Bool, true, false, ◌&&◌, ◌||◌, not, Option, none, some, List, [], ◌∷◌, ◌++◌, map,
  arith, ltb, leb, ◌==◌, if◌then◌else◌, ltb→lt, lt→ltb, leb→le, ==_iff, Bool-cases, Option-cases,
  if_intro, length, get_elem?, set, get_or, take, drop, replicate, is_empty, slice, ◌>>=◌, bind_inr,
  length-append, length-take, length-drop, length-replicate, length-set, length-map,
  take-append-drop, take-append, take_all, take-min, take-set, take-take, get_elem?-take,
  append-nil, append_assoc, shr, low_bits, usize_mod, checked_add, saturating_add, abs_diff,
  insert_sorted, IsSorted, insert_sorted-All, insert_sorted-IsSorted, insert_sorted-perm, All,
  All-append, All-implies, All-set, All-get_elem?, select,
}

pub data ErrorMode : Type 0 where
  separate inline : ErrorMode

pub data Level : Type 0 where
  debug info warn error off : Level

-- `match` over texts: the first row whose text it is.
unfoldable pub by_name : {A : Type 0} → List (List ℕ × A) → List ℕ → Option A
unfolding text_eq
by_name [] s = none
by_name ((name, a) ∷ rows) s = let rest = by_name rows s in if text_eq s name then some a else rest

abbrev pub timestamp_formats : List (List ℕ × TimestampFormat)
timestamp_formats = (codes "auto", auto) ∷ (codes "irig", irig) ∷ (codes "standard", standard) ∷ []

abbrev pub output_time_formats : List (List ℕ × OutputTimeFormat)
output_time_formats = (codes "doy", doy) ∷ (codes "iso", iso) ∷ (codes "dom", dom) ∷ []

abbrev pub delta_scopes : List (List ℕ × DeltaScope)
delta_scopes = (codes "per-file", per_file) ∷ (codes "global", global) ∷ []

abbrev pub error_modes : List (List ℕ × ErrorMode)
error_modes = (codes "separate", separate) ∷ (codes "inline", inline) ∷ []

abbrev pub levels : List (List ℕ × Level)
levels =
    (codes "DEBUG", debug)
    ∷ (codes "INFO", info)
    ∷ (codes "WARNING", warn)
    ∷ (codes "WARN", warn)
    ∷ (codes "ERROR", error)
    ∷ (codes "CRITICAL", off)
    ∷ (codes "OFF", off)
    ∷ []

abbrev pub message_types : List (List ℕ × MessageType)
message_types =
    (codes "MODE_COMMAND", mode_command)
    ∷ (codes "BC_TO_RT", bc_to_rt)
    ∷ (codes "RT_TO_BC", rt_to_bc)
    ∷ (codes "RT_TO_RT", rt_to_rt)
    ∷ (codes "BROADCAST_BC_TO_RT", broadcast_bc_to_rt)
    ∷ (codes "BROADCAST_RT_TO_RT", broadcast_rt_to_rt)
    ∷ (codes "SPURIOUS_DATA", spurious_data)
    ∷ []

abbrev pub buses : List (List ℕ × Bus)
buses = (codes "A", bus_a) ∷ (codes "B", bus_b) ∷ []

unfoldable pub timestamp_format_from_name_ci : List ℕ → Option TimestampFormat
unfolding by_name
timestamp_format_from_name_ci name = by_name timestamp_formats (lower name)

unfoldable pub output_time_format_from_name_ci : List ℕ → Option OutputTimeFormat
unfolding by_name
output_time_format_from_name_ci name = by_name output_time_formats (lower name)

unfoldable pub delta_scope_from_name_ci : List ℕ → Option DeltaScope
unfolding by_name
delta_scope_from_name_ci name = by_name delta_scopes (lower name)

unfoldable pub parse_level : List ℕ → Option Level
unfolding by_name
parse_level name = by_name levels (upper name)

-- `ok_or_else`.
abbrev pub or_invalid : {A : Type 0} → Option A → ConfigProblem ⊎ A
or_invalid none = inl invalid_value
or_invalid (some a) = inr a

unfoldable pub parse_time_format : List ℕ → ConfigProblem ⊎ TimestampFormat
unfolding timestamp_format_from_name_ci
parse_time_format s = or_invalid (timestamp_format_from_name_ci s)

unfoldable pub parse_output_time_format : List ℕ → ConfigProblem ⊎ OutputTimeFormat
unfolding output_time_format_from_name_ci
parse_output_time_format s = or_invalid (output_time_format_from_name_ci s)

unfoldable pub parse_error_mode : List ℕ → ConfigProblem ⊎ ErrorMode
unfolding by_name
parse_error_mode s = or_invalid (by_name error_modes (lower s))

-- The closure `two_digits` of `parse_utc_offset`, on the two bytes of its range.
abbrev pub two_digits : ℕ → ℕ → Option ℕ
two_digits c d = if is_digit c && is_digit d then some ((c - b'0') * 10 + (d - b'0')) else none

-- `sign * (hours * 60 + minutes)`, where `minus` is the sign -1.
abbrev pub offset_of : Bool → ℕ → ℕ → ℤ
offset_of false hours minutes = pos (hours * 60 + minutes)
offset_of true hours minutes = negative (hours * 60 + minutes)

abbrev pub in_day : Bool → Option ℕ → Option ℕ → Option ℤ
in_day minus none m = none
in_day minus (some h) none = none
in_day minus (some h) (some m) = if ltb 23 h || ltb 59 m then none else some (offset_of minus h m)

-- The match on `bytes[0]`.
abbrev pub signed : ℕ → Option ℕ → Option ℕ → Option ℤ
signed sign h m =
    if sign == b'+' then in_day false h m else if sign == b'-' then in_day true h m else none

-- Six bytes with a colon at 3; minutes east of UTC.
abbrev pub offset_shape : List ℕ → Option ℤ
offset_shape (sign ∷ h ∷ g ∷ colon ∷ m ∷ n ∷ []) =
    if colon == b':' then signed sign (two_digits h g) (two_digits m n) else none
offset_shape s = none

unfoldable pub parse_utc_offset : List ℕ → ConfigProblem ⊎ ℤ
unfolding text_eq
parse_utc_offset s =
    if text_eq (lower s) (codes "z") then inr (pos 0) else or_invalid (offset_shape s)

-- `u8::from_str_radix(rest, 16)` behind the prefix `0X`.
abbrev pub hex_code : List ℕ → Option ℕ
hex_code (z ∷ x ∷ rest) =
    if z == b'0' && x == b'X' then parse_unsigned 16 hex_value 255 rest else none
hex_code s = none

abbrev pub type_named : Option MessageType → Option ℕ → ConfigProblem ⊎ ℕ
type_named (some t) hex = inr (type_code t)
type_named none hex = or_invalid hex

unfoldable pub parse_bus_name : List ℕ → ConfigProblem ⊎ Bus
unfolding by_name trim
parse_bus_name s = or_invalid (by_name buses (upper (trim s)))

-- `u8::try_from`.
abbrev pub as_u8 : ℤ → Option ℕ
as_u8 (pos n) = if leb n 255 then some n else none
as_u8 (negsuc n) = none

abbrev pub below_32 : ℕ → ConfigProblem ⊎ ℕ
below_32 v = if leb v 31 then inr v else inl invalid_value

module _ {F : Type 0} (std : Std F) where
  unfoldable pub parse_type_name : List ℕ → ConfigProblem ⊎ ℕ
  unfolding by_name trim parse_unsigned
  parse_type_name s =
      type_named (by_name message_types (std.to_uppercase (trim s)))
        (hex_code (std.to_uppercase (trim s)))

  unfoldable pub parse_type_value : TomlValue F → ConfigProblem ⊎ ℕ
  unfolding parse_type_name
  parse_type_value (string s) = parse_type_name s
  parse_type_value (int i) = or_invalid (as_u8 i)
  parse_type_value v = inl invalid_value

module _ {F : Type 0} where
  unfoldable pub parse_bus_value : TomlValue F → ConfigProblem ⊎ Bus
  unfolding parse_bus_name
  parse_bus_value (string s) = parse_bus_name s
  parse_bus_value v = inl invalid_value

  unfoldable pub parse_int_rt_sa : TomlValue F → ConfigProblem ⊎ ℕ
  parse_int_rt_sa (int i) = or_invalid (as_u8 i) >>= below_32
  parse_int_rt_sa v = inl invalid_value

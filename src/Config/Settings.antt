-- ===== src/Config/Settings.antt =====
-- The settings of rust/src/config.rs, their defaults, and the overrides of the command line.
pub mod Merge
use mie_decoder.Models.{Bus, bus_eq, TimestampFormat, auto}
use mie_decoder.Models.Text.{codes, ℤ, pos, negsuc, OutputTimeFormat, doy}
use mie_decoder.Merge.State.{DeltaScope, per_file}
use mie_decoder.Merge.Dedup.{default_max_collapse_survivors}
use mie_decoder.Order.{default_max_sort_group}
use mie_decoder.Decode.Probe.{default_detect_records}
use mie_decoder.Filter.{FilterConfig, contains, contains_bus}
use mie_decoder.Config.Names.{ErrorMode, inline}
use mie_decoder.Common.{
  ℕ, zero, suc, ◌+◌, ◌-◌, ◌*◌, ◌/◌, ◌%◌, ◌^◌, ◌≤◌, ◌<◌, min, max, ◌≡◌, refl, sym, ap, ◌∙◌, ◌≢◌, ◌↔◌,
  ◌⊎◌, inl, inr, Bool, true, false, ◌&&◌, ◌||◌, not, Option, none, some, List, [], ◌∷◌, ◌++◌, map,
  arith, ltb, leb, ◌==◌, if◌then◌else◌, ltb→lt, lt→ltb, leb→le, ==_iff, Bool-cases, Option-cases,
  if_intro, length, get_elem?, set, get_or, take, drop, replicate, is_empty, slice, ◌>>=◌, bind_inr,
  length-append, length-take, length-drop, length-replicate, length-set, length-map,
  take-append-drop, take-append, take_all, take-min, take-set, take-take, get_elem?-take,
  append-nil, append_assoc, shr, low_bits, usize_mod, checked_add, saturating_add, abs_diff,
  insert_sorted, IsSorted, insert_sorted-All, insert_sorted-IsSorted, insert_sorted-perm, All,
  All-append, All-implies, All-set, All-get_elem?, select,
}

abbrev pub detect_records_min : ℕ
detect_records_min = 1

abbrev pub detect_records_max : ℕ
detect_records_max = 32

abbrev pub lookahead_records_min : ℕ
lookahead_records_min = 1

abbrev pub lookahead_records_max : ℕ
lookahead_records_max = 32

abbrev pub default_lookahead_records : ℕ
default_lookahead_records = 2

pub record DecoderConfig (F : Type 0) : Type 0 where
  pub log_level : List ℕ
  pub irig_day_advisory : Bool
  pub input_time_format : TimestampFormat
  pub strict : Bool
  pub error_mode : ErrorMode
  pub filters : FilterConfig
  pub output_format : List ℕ
  pub no_clobber : Bool
  pub output_time_format : OutputTimeFormat
  pub year : Option ℕ
  pub utc_offset_minutes : ℤ
  pub allow_partial : Bool
  pub detect_records : ℕ
  pub lookahead_records : ℕ
  pub standard_tick_rate_hz : Option F
  pub mux_enabled : Bool
  pub mux_delimiter : List ℕ
  pub mux_field : ℤ
  pub collapse_duplicates : Bool
  pub collapse_window_us : ℕ
  pub delta_scope : DeltaScope
  pub max_sort_group : ℕ
  pub max_collapse_survivors : ℕ

abbrev pub no_filters : FilterConfig
no_filters = record {
  exclude_types = [];
  exclude_rts = [];
  exclude_buses = [];
  exclude_subaddresses = [];
  include_types = [];
  include_rts = [];
  include_buses = [];
  include_subaddresses = [];
}

unfoldable pub default : {F : Type 0} → DecoderConfig F
default = record {
  log_level = codes "WARNING";
  irig_day_advisory = true;
  input_time_format = auto;
  strict = false;
  error_mode = inline;
  filters = no_filters;
  output_format = codes "csv";
  no_clobber = false;
  output_time_format = doy;
  year = none;
  utc_offset_minutes = pos 0;
  allow_partial = false;
  detect_records = default_detect_records;
  lookahead_records = default_lookahead_records;
  standard_tick_rate_hz = none;
  mux_enabled = true;
  mux_delimiter = codes ".";
  mux_field = pos 4;
  collapse_duplicates = false;
  collapse_window_us = 0;
  delta_scope = per_file;
  max_sort_group = default_max_sort_group;
  max_collapse_survivors = default_max_collapse_survivors;
}

pub record ConfigOverrides (F : Type 0) : Type 0 where
  pub log_level : Option (List ℕ)
  pub irig_day_advisory : Option Bool
  pub input_time_format : Option TimestampFormat
  pub strict : Option Bool
  pub error_mode : Option ErrorMode
  pub output_format : Option (List ℕ)
  pub no_clobber : Option Bool
  pub output_time_format : Option OutputTimeFormat
  pub year : Option ℕ
  pub utc_offset_minutes : Option ℤ
  pub allow_partial : Option Bool
  pub detect_records : Option ℕ
  pub lookahead_records : Option ℕ
  pub standard_tick_rate_hz : Option F
  pub mux_enabled : Option Bool
  pub mux_delimiter : Option (List ℕ)
  pub mux_field : Option ℤ
  pub collapse_duplicates : Option Bool
  pub collapse_window_us : Option ℤ
  pub delta_scope : Option DeltaScope
  pub max_sort_group : Option ℕ
  pub max_collapse_survivors : Option ℕ
  pub exclude_types : List ℕ
  pub exclude_rts : List ℕ
  pub exclude_buses : List Bus
  pub exclude_subaddresses : List ℕ
  pub include_types : List ℕ
  pub include_rts : List ℕ
  pub include_buses : List Bus
  pub include_subaddresses : List ℕ

-- `if let Some(v) = ov.field { cfg.field = v; }`.
abbrev pub override : {A : Type 0} → A → Option A → A
override current none = current
override current (some v) = v

-- behind an option that the configuration has itself.
abbrev pub override_some : {A : Type 0} → Option A → Option A → Option A
override_some current none = current
override_some current (some v) = some v

-- `u64::try_from(v.max(0)).unwrap_or(0)`.
abbrev pub clamped : ℤ → ℕ
clamped (pos n) = n
clamped (negsuc n) = 0

abbrev pub override_window : ℕ → Option ℤ → ℕ
override_window current none = current
override_window current (some v) = clamped v

unfoldable pub merge_unique : {A : Type 0} → (List A → A → Bool) → List A → List A → List A
merge_unique has target [] = target
merge_unique has target (v ∷ source) =
    merge_unique has (if has target v then target else target ++ v ∷ []) source

module _ {F : Type 0} where
  abbrev pub merge_filters : FilterConfig → ConfigOverrides F → FilterConfig
  merge_filters f ov = record {
    exclude_types = merge_unique contains f.exclude_types ov.exclude_types;
    exclude_rts = merge_unique contains f.exclude_rts ov.exclude_rts;
    exclude_buses = merge_unique contains_bus f.exclude_buses ov.exclude_buses;
    exclude_subaddresses = merge_unique contains f.exclude_subaddresses ov.exclude_subaddresses;
    include_types = merge_unique contains f.include_types ov.include_types;
    include_rts = merge_unique contains f.include_rts ov.include_rts;
    include_buses = merge_unique contains_bus f.include_buses ov.include_buses;
    include_subaddresses = merge_unique contains f.include_subaddresses ov.include_subaddresses;
  }

  unfoldable pub with_overrides : DecoderConfig F → ConfigOverrides F → DecoderConfig F
  unfolding merge_unique
  with_overrides c ov = record {
    log_level = override c.log_level ov.log_level;
    irig_day_advisory = override c.irig_day_advisory ov.irig_day_advisory;
    input_time_format = override c.input_time_format ov.input_time_format;
    strict = override c.strict ov.strict;
    error_mode = override c.error_mode ov.error_mode;
    filters = merge_filters c.filters ov;
    output_format = override c.output_format ov.output_format;
    no_clobber = override c.no_clobber ov.no_clobber;
    output_time_format = override c.output_time_format ov.output_time_format;
    year = override_some c.year ov.year;
    utc_offset_minutes = override c.utc_offset_minutes ov.utc_offset_minutes;
    allow_partial = override c.allow_partial ov.allow_partial;
    detect_records = override c.detect_records ov.detect_records;
    lookahead_records = override c.lookahead_records ov.lookahead_records;
    standard_tick_rate_hz = override_some c.standard_tick_rate_hz ov.standard_tick_rate_hz;
    mux_enabled = override c.mux_enabled ov.mux_enabled;
    mux_delimiter = override c.mux_delimiter ov.mux_delimiter;
    mux_field = override c.mux_field ov.mux_field;
    collapse_duplicates = override c.collapse_duplicates ov.collapse_duplicates;
    collapse_window_us = override_window c.collapse_window_us ov.collapse_window_us;
    delta_scope = override c.delta_scope ov.delta_scope;
    max_sort_group = override c.max_sort_group ov.max_sort_group;
    max_collapse_survivors = override c.max_collapse_survivors ov.max_collapse_survivors;
  }

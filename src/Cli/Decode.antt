-- ===== src/Cli/Decode.antt =====
-- `parse_decode` of rust/src/cli.rs, the loop over the tokens behind `decode`, and the overrides
-- that it gives. The arms of its `match` on a flag's name are the rows of a table.
use mie_decoder.Cli.Values.{
  ParseError, help_requested, missing_value, option_as_value, unknown_option, retired_option,
  no_input, several_inputs, looks_like_option, starts_with_dash, Arg, split_arg, parse_u8_value,
  push_filter, parse_bus_filter, parse_input_time_format_arg, parse_output_time_format_arg,
  parse_year_arg, parse_utc_offset_arg, parse_output_format_arg, parse_detect_records,
  parse_lookahead_records, parse_max_sort_group, parse_max_collapse_survivors, parse_mux_delimiter,
  parse_mux_field, parse_delta_scope, parse_collapse_window_us, parse_type_filter,
  parse_standard_tick_rate_hz,
}
use mie_decoder.Config.Text.{text_eq}
use mie_decoder.Config.Toml.Value.{Std}
use mie_decoder.Config.Names.{by_name, separate}
use mie_decoder.Config.Settings.{ConfigOverrides}
use mie_decoder.Models.{Bus, TimestampFormat}
use mie_decoder.Models.Text.{codes, ℤ, OutputTimeFormat}
use mie_decoder.Merge.State.{DeltaScope}
use mie_decoder.Common.{
  ℕ, ◌+◌, ◌⊎◌, inl, inr, Bool, true, false, Option, none, some, List, [], ◌∷◌, ◌++◌, ltb, ◌==◌,
  if◌then◌else◌, set, is_empty, ◌>>=◌,
}

pub record DecodeArgs (F : Type 0) : Type 0 where
  pub inputs : List (List ℕ)
  pub manifest : Option (List ℕ)
  pub glob : Option (List ℕ)
  pub output : Option (List ℕ)
  pub separate_errors : Bool
  pub no_clobber : Bool
  pub allow_partial : Bool
  pub input_time_format : Option TimestampFormat
  pub output_time_format : Option OutputTimeFormat
  pub year : Option ℕ
  pub utc_offset_minutes : Option ℤ
  pub detect_records : Option ℕ
  pub lookahead_records : Option ℕ
  pub standard_tick_rate_hz : Option F
  pub strict : Option Bool
  pub output_format : Option (List ℕ)
  pub no_mux : Bool
  pub mux_delimiter : Option (List ℕ)
  pub mux_field : Option ℤ
  pub collapse_duplicates : Bool
  pub collapse_window_us : Option ℤ
  pub delta_scope : Option DeltaScope
  pub max_sort_group : Option ℕ
  pub max_collapse_survivors : Option ℕ
  pub exclude_types : List ℕ
  pub exclude_rts : List ℕ
  pub exclude_buses : List Bus
  pub exclude_subaddresses : List ℕ
  pub include_types : List ℕ
  pub include_rts : List ℕ
  pub include_buses : List Bus
  pub include_subaddresses : List ℕ

abbrev pub no_args : {F : Type 0} → DecodeArgs F
no_args = record {
  inputs = [];
  manifest = none;
  glob = none;
  output = none;
  separate_errors = false;
  no_clobber = false;
  allow_partial = false;
  input_time_format = none;
  output_time_format = none;
  year = none;
  utc_offset_minutes = none;
  detect_records = none;
  lookahead_records = none;
  standard_tick_rate_hz = none;
  strict = none;
  output_format = none;
  no_mux = false;
  mux_delimiter = none;
  mux_field = none;
  collapse_duplicates = false;
  collapse_window_us = none;
  delta_scope = none;
  max_sort_group = none;
  max_collapse_survivors = none;
  exclude_types = [];
  exclude_rts = [];
  exclude_buses = [];
  exclude_subaddresses = [];
  include_types = [];
  include_rts = [];
  include_buses = [];
  include_subaddresses = [];
}

-- An arm: a flag with a value, one without (`if a.bare()`), the retired one, and the help.
pub data Flag (F : Type 0) : Type 0 where
  valued : (DecodeArgs F → List ℕ → ParseError ⊎ DecodeArgs F) → Flag F
  switch : (DecodeArgs F → DecodeArgs F) → Flag F
  retired help : Flag F

abbrev pub add_input : {F : Type 0} → DecodeArgs F → List ℕ → DecodeArgs F
add_input a path = record a { inputs = a.inputs ++ path ∷ [] }

-- What a token asks for: a change of the arguments that may fail, or the next token as a value.
pub data Demand (F : Type 0) : Type 0 where
  change : (DecodeArgs F → ParseError ⊎ DecodeArgs F) → Demand F
  value : (DecodeArgs F → List ℕ → ParseError ⊎ DecodeArgs F) → Demand F

-- The last two arms.
abbrev pub path_or_unknown : {F : Type 0} → Arg → Demand F
path_or_unknown a =
    if starts_with_dash a.name
    then change (λ args. inl unknown_option)
    else change (λ args. inr (add_input args a.raw))

abbrev pub demand_of : {F : Type 0} → Arg → Option (List ℕ) → Option (Flag F) → Demand F
demand_of a inline none = path_or_unknown a
demand_of a none (some (valued set)) = value set
demand_of a (some v) (some (valued set)) = change (λ args. set args v)
demand_of a none (some (switch set)) = change (λ args. inr (set args))
demand_of a (some v) (some (switch set)) = path_or_unknown a
demand_of a inline (some retired) = change (λ args. inl retired_option)
demand_of a none (some help) = change (λ args. inl help_requested)
demand_of a (some v) (some help) = path_or_unknown a

module _ {F : Type 0} (std : Std F) where
  unfoldable pub flags : List (List ℕ × Flag F)
  flags =
      (codes "-o", valued (λ a v. inr (record a { output = some v })))
      ∷ (codes "--output", valued (λ a v. inr (record a { output = some v })))
      ∷ (codes "--separate-errors", switch (λ a. record a { separate_errors = true }))
      ∷ (codes "--no-clobber", switch (λ a. record a { no_clobber = true }))
      ∷ (codes "--allow-partial", switch (λ a. record a { allow_partial = true }))
      ∷ (codes "--strict", switch (λ a. record a { strict = some true }))
      ∷ (codes "--no-mux", switch (λ a. record a { no_mux = true }))
      ∷ (codes "--collapse-duplicates", switch (λ a. record a { collapse_duplicates = true }))
      ∷ (
        codes "--input-time-format",
        valued (λ a v.
            parse_input_time_format_arg v >>= (λ x. inr (record a { input_time_format = some x }))),
      )
      ∷ (
        codes "--output-time-format",
        valued (λ a v.
            parse_output_time_format_arg v
            >>= (λ x. inr (record a { output_time_format = some x }))),
      )
      ∷ (
        codes "--year",
        valued (λ a v. parse_year_arg v >>= (λ x. inr (record a { year = some x }))),
      )
      ∷ (
        codes "--utc-offset",
        valued (λ a v.
            parse_utc_offset_arg v >>= (λ x. inr (record a { utc_offset_minutes = some x }))),
      )
      ∷ (codes "--time-format", retired)
      ∷ (
        codes "--detect-records",
        valued
            (λ a v. parse_detect_records v >>= (λ x. inr (record a { detect_records = some x }))),
      )
      ∷ (
        codes "--lookahead-records",
        valued (λ a v.
            parse_lookahead_records v >>= (λ x. inr (record a { lookahead_records = some x }))),
      )
      ∷ (
        codes "--standard-tick-rate-hz",
        valued (λ a v.
            parse_standard_tick_rate_hz std v
            >>= (λ x. inr (record a { standard_tick_rate_hz = some x }))),
      )
      ∷ (
        codes "--format",
        valued
            (λ a v. parse_output_format_arg v >>= (λ x. inr (record a { output_format = some x }))),
      )
      ∷ (
        codes "--mux-delimiter",
        valued (λ a v. parse_mux_delimiter v >>= (λ x. inr (record a { mux_delimiter = some x }))),
      )
      ∷ (
        codes "--mux-field",
        valued (λ a v. parse_mux_field v >>= (λ x. inr (record a { mux_field = some x }))),
      )
      ∷ (
        codes "--max-sort-group",
        valued
            (λ a v. parse_max_sort_group v >>= (λ x. inr (record a { max_sort_group = some x }))),
      )
      ∷ (
        codes "--delta-scope",
        valued (λ a v. parse_delta_scope v >>= (λ x. inr (record a { delta_scope = some x }))),
      )
      ∷ (
        codes "--collapse-window-us",
        valued (λ a v.
            parse_collapse_window_us v >>= (λ x. inr (record a { collapse_window_us = some x }))),
      )
      ∷ (
        codes "--max-collapse-survivors",
        valued (λ a v.
            parse_max_collapse_survivors v
            >>= (λ x. inr (record a { max_collapse_survivors = some x }))),
      )
      ∷ (codes "--manifest", valued (λ a v. inr (record a { manifest = some v })))
      ∷ (codes "--glob", valued (λ a v. inr (record a { glob = some v })))
      ∷ (
        codes "--exclude-types",
        valued (λ a v.
            push_filter (parse_type_filter std) a.exclude_types v
            >>= (λ l. inr (record a { exclude_types = l }))),
      )
      ∷ (
        codes "--include-types",
        valued (λ a v.
            push_filter (parse_type_filter std) a.include_types v
            >>= (λ l. inr (record a { include_types = l }))),
      )
      ∷ (
        codes "--exclude-rts",
        valued (λ a v.
            push_filter parse_u8_value a.exclude_rts v
            >>= (λ l. inr (record a { exclude_rts = l }))),
      )
      ∷ (
        codes "--include-rts",
        valued (λ a v.
            push_filter parse_u8_value a.include_rts v
            >>= (λ l. inr (record a { include_rts = l }))),
      )
      ∷ (
        codes "--exclude-buses",
        valued (λ a v.
            push_filter parse_bus_filter a.exclude_buses v
            >>= (λ l. inr (record a { exclude_buses = l }))),
      )
      ∷ (
        codes "--include-buses",
        valued (λ a v.
            push_filter parse_bus_filter a.include_buses v
            >>= (λ l. inr (record a { include_buses = l }))),
      )
      ∷ (
        codes "--exclude-subaddresses",
        valued (λ a v.
            push_filter parse_u8_value a.exclude_subaddresses v
            >>= (λ l. inr (record a { exclude_subaddresses = l }))),
      )
      ∷ (
        codes "--include-subaddresses",
        valued (λ a v.
            push_filter parse_u8_value a.include_subaddresses v
            >>= (λ l. inr (record a { include_subaddresses = l }))),
      )
      ∷ (codes "-h", help)
      ∷ (codes "--help", help)
      ∷ []

  unfoldable pub demand : List ℕ → Demand F
  unfolding flags by_name split_arg
  demand token =
      demand_of (split_arg token) (split_arg token).inline (by_name flags (split_arg token).name)

  -- The loop, with `end_of_options` as its first argument; a token that is asked for is `next_value`.
  unfoldable pub decode_loop : Bool → DecodeArgs F → List (List ℕ) → ParseError ⊎ DecodeArgs F
  unfolding demand looks_like_option text_eq
  decode_loop ended args [] = inr args
  decode_loop true args (token ∷ rest) = decode_loop true (add_input args token) rest
  decode_loop false args (token ∷ []) =
      if text_eq token (codes "--")
      then inr args
      else elim (demand token) [ change set ↦ set args | value set ↦ inl missing_value ]
  decode_loop false args (token ∷ next ∷ rest) =
      if text_eq token (codes "--")
      then decode_loop true args (next ∷ rest)
      else elim (demand token) [
        | change set ↦ set args >>= (λ a. decode_loop false a (next ∷ rest))
        | value set ↦
            if looks_like_option next
            then inl option_as_value
            else set args next >>= (λ a. decode_loop false a rest)
      ]

  abbrev pub count_some : {A : Type 0} → Option A → ℕ
  count_some none = 0
  count_some (some a) = 1

  -- How many input methods there are.
  abbrev pub methods : DecodeArgs F → ℕ
  methods args =
      (if is_empty args.inputs then 0 else 1) + count_some args.manifest + count_some args.glob

  abbrev pub one_method : DecodeArgs F → ParseError ⊎ DecodeArgs F
  one_method args =
      if methods args == 0
      then inl no_input
      else if ltb 1 (methods args)
      then inl several_inputs
      else inr args

  unfoldable pub parse_decode : List (List ℕ) → ParseError ⊎ DecodeArgs F
  unfolding decode_loop
  parse_decode tokens = decode_loop false no_args tokens >>= one_method

module _ {F : Type 0} where
  unfoldable pub build_config_overrides :
      DecodeArgs F → Option (List ℕ) → Option Bool → ConfigOverrides F
  build_config_overrides args log_level irig_day_advisory = record {
    log_level = log_level;
    irig_day_advisory = irig_day_advisory;
    input_time_format = args.input_time_format;
    strict = args.strict;
    error_mode = if args.separate_errors then some separate else none;
    output_format = args.output_format;
    no_clobber = if args.no_clobber then some true else none;
    output_time_format = args.output_time_format;
    year = args.year;
    utc_offset_minutes = args.utc_offset_minutes;
    allow_partial = if args.allow_partial then some true else none;
    detect_records = args.detect_records;
    lookahead_records = args.lookahead_records;
    standard_tick_rate_hz = args.standard_tick_rate_hz;
    mux_enabled = if args.no_mux then some false else none;
    mux_delimiter = args.mux_delimiter;
    mux_field = args.mux_field;
    collapse_duplicates = if args.collapse_duplicates then some true else none;
    collapse_window_us = args.collapse_window_us;
    delta_scope = args.delta_scope;
    max_sort_group = args.max_sort_group;
    max_collapse_survivors = args.max_collapse_survivors;
    exclude_types = args.exclude_types;
    exclude_rts = args.exclude_rts;
    exclude_buses = args.exclude_buses;
    exclude_subaddresses = args.exclude_subaddresses;
    include_types = args.include_types;
    include_rts = args.include_rts;
    include_buses = args.include_buses;
    include_subaddresses = args.include_subaddresses;
  }

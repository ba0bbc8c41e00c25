-- ===== src/Config/Sections.antt =====
-- The sections of the configuration file in rust/src/config.rs, applied to the settings in turn.
pub mod InRange
pub mod Bounds
pub mod Keeps
pub mod Loaded
use mie_decoder.Config.Toml.Value.{Std, TomlValue, TomlError}
use mie_decoder.Config.Toml.Doc.{Entry, parse_toml}
use mie_decoder.Config.Toml.Get.{
  ConfigProblem, renamed_key, invalid_value, get, get_string, get_bool, get_array, get_int,
  get_float,
}
use mie_decoder.Config.Names.{
  parse_level, parse_time_format, parse_output_time_format, parse_error_mode, parse_utc_offset,
  delta_scope_from_name_ci, parse_type_value, parse_bus_value, parse_int_rt_sa, or_invalid,
}
use mie_decoder.Config.Settings.{
  DecoderConfig, default, detect_records_min, detect_records_max, lookahead_records_min,
  lookahead_records_max,
}
use mie_decoder.Config.Schema.{
  require_int_range, reject_section_used_as_scalar, push_parsed, is_csv,
}
use mie_decoder.Config.Steps.{LoadStep, setting, require, run}
use mie_decoder.Models.Text.{codes, ℤ, pos, negsuc}
use mie_decoder.Models.Calendar.{year_min, year_max}
use mie_decoder.Filter.{FilterConfig}
use mie_decoder.Merge.Dedup.{max_collapse_survivors_min, max_collapse_survivors_max}
use mie_decoder.Order.{max_sort_group_min, max_sort_group_max}
use mie_decoder.Common.{
  ℕ, zero, suc, ◌+◌, ◌-◌, ◌*◌, ◌/◌, ◌%◌, ◌^◌, ◌≤◌, ◌<◌, min, max, ◌≡◌, refl, sym, ap, ◌∙◌, ◌≢◌, ◌↔◌,
  ◌⊎◌, inl, inr, Bool, true, false, ◌&&◌, ◌||◌, not, Option, none, some, List, [], ◌∷◌, ◌++◌, map,
  arith, ltb, leb, ◌==◌, if◌then◌else◌, ltb→lt, lt→ltb, leb→le, ==_iff, Bool-cases, Option-cases,
  if_intro, length, get_elem?, set, get_or, take, drop, replicate, is_empty, slice, ◌>>=◌, bind_inr,
  length-append, length-take, length-drop, length-replicate, length-set, length-map,
  take-append-drop, take-append, take_all, take-min, take-set, take-take, get_elem?-take,
  append-nil, append_assoc, shr, low_bits, usize_mod, checked_add, saturating_add, abs_diff,
  insert_sorted, IsSorted, insert_sorted-All, insert_sorted-IsSorted, insert_sorted-perm, All,
  All-append, All-implies, All-set, All-get_elem?, select,
}

-- What `parse_into_config` refuses a text for.
pub data ConfigError : Type 0 where
  syntax : TomlError → ConfigError
  schema : ConfigProblem → ConfigError

abbrev pub with_syntax : {A : Type 0} → TomlError ⊎ A → ConfigError ⊎ A
with_syntax (inl e) = inl (syntax e)
with_syntax (inr a) = inr a

abbrev pub with_schema : {A : Type 0} → ConfigProblem ⊎ A → ConfigError ⊎ A
with_schema (inl e) = inl (schema e)
with_schema (inr a) = inr a

module _ {F : Type 0} (std : Std F) where
  unfoldable pub require_positive_finite : F → ConfigProblem ⊎ F
  require_positive_finite hz =
      if not (std.is_finite hz) || std.le_zero hz then inl invalid_value else inr hz

  abbrev pub set_level : DecoderConfig F → List ℕ → ConfigProblem ⊎ DecoderConfig F
  set_level c level =
      or_invalid (parse_level (std.to_uppercase level))
      >>= (λ l. inr (record c { log_level = std.to_uppercase level }))

  abbrev pub logging_steps : List (Entry F) → List (LoadStep (DecoderConfig F))
  logging_steps toml =
      setting (get_string toml (codes "logging") (codes "level")) set_level
      ∷ setting (get_bool toml (codes "logging") (codes "irig_day_advisory"))
          (λ c b. inr (record c { irig_day_advisory = b }))
      ∷ []

  unfoldable pub apply_logging_section :
      List (Entry F) → DecoderConfig F → ConfigProblem ⊎ DecoderConfig F
  unfolding parse_level get_string get_bool run
  apply_logging_section toml = run (logging_steps toml)

  -- `toml.get("decode", "time_format").is_some()`.
  abbrev pub reject_renamed : List (Entry F) → ConfigProblem ⊎ Unit {0}
  reject_renamed toml = elim (get toml (codes "decode") (codes "time_format")) [
    | none ↦ inr tt
    | some v ↦ inl renamed_key
  ]

  abbrev pub decode_steps : List (Entry F) → List (LoadStep (DecoderConfig F))
  decode_steps toml =
      require (reject_renamed toml)
      ∷ setting (get_string toml (codes "decode") (codes "input_time_format"))
          (λ c s. parse_time_format s >>= (λ f. inr (record c { input_time_format = f })))
      ∷ setting (get_bool toml (codes "decode") (codes "strict"))
          (λ c b. inr (record c { strict = b }))
      ∷ setting (get_string toml (codes "decode") (codes "error_mode"))
          (λ c s. parse_error_mode s >>= (λ m. inr (record c { error_mode = m })))
      ∷ setting (get_bool toml (codes "decode") (codes "allow_partial"))
          (λ c b. inr (record c { allow_partial = b }))
      ∷ setting (get_int toml (codes "decode") (codes "detect_records")) (λ c n.
        require_int_range n detect_records_min detect_records_max
        >>= (λ v. inr (record c { detect_records = v })))
      ∷ setting (get_int toml (codes "decode") (codes "lookahead_records")) (λ c n.
        require_int_range n lookahead_records_min lookahead_records_max
        >>= (λ v. inr (record c { lookahead_records = v })))
      ∷ setting (get_float std toml (codes "decode") (codes "standard_tick_rate_hz")) (λ c hz.
        require_positive_finite hz >>= (λ v. inr (record c { standard_tick_rate_hz = some v })))
      ∷ []

  unfoldable pub apply_decode_section :
      List (Entry F) → DecoderConfig F → ConfigProblem ⊎ DecoderConfig F
  unfolding get get_string get_bool get_int get_float parse_time_format parse_error_mode
      require_int_range require_positive_finite run
  apply_decode_section toml = run (decode_steps toml)

  abbrev pub output_steps : List (Entry F) → List (LoadStep (DecoderConfig F))
  output_steps toml =
      setting (get_string toml (codes "output") (codes "format"))
        (λ c s. if is_csv s then inr (record c { output_format = s }) else inl invalid_value)
      ∷ setting (get_bool toml (codes "output") (codes "no_clobber"))
          (λ c b. inr (record c { no_clobber = b }))
      ∷ setting (get_string toml (codes "output") (codes "output_time_format"))
          (λ c s. parse_output_time_format s >>= (λ f. inr (record c { output_time_format = f })))
      ∷ setting (get_int toml (codes "output") (codes "year"))
          (λ c n. require_int_range n year_min year_max >>= (λ v. inr (record c { year = some v })))
      ∷ setting (get_string toml (codes "output") (codes "utc_offset"))
          (λ c s. parse_utc_offset s >>= (λ m. inr (record c { utc_offset_minutes = m })))
      ∷ setting (get_int toml (codes "output") (codes "max_sort_group")) (λ c n.
        require_int_range n max_sort_group_min max_sort_group_max
        >>= (λ v. inr (record c { max_sort_group = v })))
      ∷ []

  unfoldable pub apply_output_section :
      List (Entry F) → DecoderConfig F → ConfigProblem ⊎ DecoderConfig F
  unfolding get_string get_bool get_int parse_output_time_format parse_utc_offset require_int_range
      run
  apply_output_section toml = run (output_steps toml)

  abbrev pub mux_steps : List (Entry F) → List (LoadStep (DecoderConfig F))
  mux_steps toml =
      setting (get_bool toml (codes "mux") (codes "enabled"))
        (λ c b. inr (record c { mux_enabled = b }))
      ∷ setting (get_string toml (codes "mux") (codes "delimiter"))
          (λ c d. if is_empty d then inl invalid_value else inr (record c { mux_delimiter = d }))
      ∷ setting (get_int toml (codes "mux") (codes "field"))
          (λ c n. inr (record c { mux_field = n }))
      ∷ []

  unfoldable pub apply_mux_section :
      List (Entry F) → DecoderConfig F → ConfigProblem ⊎ DecoderConfig F
  unfolding get_string get_bool get_int run
  apply_mux_section toml = run (mux_steps toml)

  -- `n < 0`, and `u64::try_from`.
  abbrev pub non_negative : ℤ → ConfigProblem ⊎ ℕ
  non_negative (pos n) = inr n
  non_negative (negsuc n) = inl invalid_value

  abbrev pub merge_steps : List (Entry F) → List (LoadStep (DecoderConfig F))
  merge_steps toml =
      setting (get_bool toml (codes "merge") (codes "collapse_duplicates"))
        (λ c b. inr (record c { collapse_duplicates = b }))
      ∷ setting (get_string toml (codes "merge") (codes "delta_scope")) (λ c s.
        or_invalid (delta_scope_from_name_ci s)
        >>= (λ scope. inr (record c { delta_scope = scope })))
      ∷ setting (get_int toml (codes "merge") (codes "collapse_window_us"))
          (λ c n. non_negative n >>= (λ v. inr (record c { collapse_window_us = v })))
      ∷ setting (get_int toml (codes "merge") (codes "max_collapse_survivors")) (λ c n.
        require_int_range n max_collapse_survivors_min max_collapse_survivors_max
        >>= (λ v. inr (record c { max_collapse_survivors = v })))
      ∷ []

  unfoldable pub apply_merge_section :
      List (Entry F) → DecoderConfig F → ConfigProblem ⊎ DecoderConfig F
  unfolding get_string get_bool get_int delta_scope_from_name_ci require_int_range run
  apply_merge_section toml = run (merge_steps toml)

  abbrev pub filter_steps : List (Entry F) → List (LoadStep (DecoderConfig F))
  filter_steps toml =
      setting (get_array toml (codes "filter") (codes "exclude_types")) (λ c types.
        push_parsed (parse_type_value std) c.filters.exclude_types types
        >>= (λ l. inr (record c { filters = record c.filters { exclude_types = l } })))
      ∷ setting (get_array toml (codes "filter") (codes "exclude_rts")) (λ c rts.
        push_parsed parse_int_rt_sa c.filters.exclude_rts rts
        >>= (λ l. inr (record c { filters = record c.filters { exclude_rts = l } })))
      ∷ setting (get_array toml (codes "filter") (codes "exclude_buses")) (λ c buses.
        push_parsed parse_bus_value c.filters.exclude_buses buses
        >>= (λ l. inr (record c { filters = record c.filters { exclude_buses = l } })))
      ∷ setting (get_array toml (codes "filter") (codes "exclude_subaddresses")) (λ c sas.
        push_parsed parse_int_rt_sa c.filters.exclude_subaddresses sas
        >>= (λ l. inr (record c { filters = record c.filters { exclude_subaddresses = l } })))
      ∷ []

  unfoldable pub apply_filter_sections :
      List (Entry F) → DecoderConfig F → ConfigProblem ⊎ DecoderConfig F
  unfolding get_array push_parsed parse_type_value parse_int_rt_sa parse_bus_value run
  apply_filter_sections toml = run (filter_steps toml)

  -- The check and the sections in turn.
  unfoldable pub apply_sections : List (Entry F) → DecoderConfig F → ConfigProblem ⊎ DecoderConfig F
  unfolding reject_section_used_as_scalar apply_logging_section apply_decode_section
      apply_output_section apply_mux_section apply_merge_section apply_filter_sections
  apply_sections toml c = reject_section_used_as_scalar toml >>= (λ u.
      apply_logging_section toml c >>= (λ c1. apply_decode_section toml c1 >>= (λ c2.
        apply_output_section toml c2 >>= (λ c3.
          apply_mux_section toml c3
          >>= (λ c4. apply_merge_section toml c4 >>= apply_filter_sections toml)))))

  unfoldable pub parse_into_config : List ℕ → ConfigError ⊎ DecoderConfig F
  unfolding parse_toml apply_sections default
  parse_into_config text =
      with_syntax (parse_toml std text) >>= (λ toml. with_schema (apply_sections toml default))

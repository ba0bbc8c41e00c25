-- ===== src/Config/Schema.antt =====
-- The sections of the configuration file in rust/src/config.rs: what a document makes of the
-- default settings. Opening the file is left out; the warnings are the list of their keys.
use mie_decoder.Config.Text.{text_eq}
use mie_decoder.Config.Toml.Value.{TomlValue, TomlValues, end, item}
use mie_decoder.Config.Toml.Doc.{Entry}
use mie_decoder.Config.Toml.Get.{ConfigProblem, section_as_scalar, invalid_value}
use mie_decoder.Models.Text.{codes, ℤ, pos, negsuc}
use mie_decoder.Common.{
  ℕ, ◌⊎◌, inl, inr, Bool, false, ◌&&◌, ◌||◌, List, [], ◌∷◌, ◌++◌, leb, if◌then◌else◌, is_empty,
  ◌>>=◌,
}

abbrev pub in_range : ℕ → ℕ → ℤ → ConfigProblem ⊎ ℕ
in_range lo hi (pos n) = if leb lo n && leb n hi then inr n else inl invalid_value
in_range lo hi (negsuc n) = inl invalid_value

unfoldable pub require_int_range : ℤ → ℕ → ℕ → ConfigProblem ⊎ ℕ
require_int_range n lo hi = in_range lo hi n

abbrev pub section_names : List (List ℕ)
section_names =
    codes "logging"
    ∷ codes "decode"
    ∷ codes "output"
    ∷ codes "mux"
    ∷ codes "merge"
    ∷ codes "filter"
    ∷ []

unfoldable pub is_one_of : List (List ℕ) → List ℕ → Bool
unfolding text_eq
is_one_of [] name = false
is_one_of (x ∷ xs) name = text_eq name x || is_one_of xs name

unfoldable pub is_known_section : List ℕ → Bool
unfolding is_one_of
is_known_section name = is_one_of section_names name

-- The keys of each section in `is_known_shared_key`.
abbrev pub known_keys : List (List ℕ × List (List ℕ))
known_keys =
    (codes "logging", codes "level" ∷ codes "irig_day_advisory" ∷ [])
    ∷ (
      codes "decode",
      codes "input_time_format"
          ∷ codes "strict"
          ∷ codes "error_mode"
          ∷ codes "allow_partial"
          ∷ codes "detect_records"
          ∷ codes "lookahead_records"
          ∷ codes "standard_tick_rate_hz"
          ∷ [],
    )
    ∷ (
      codes "output",
      codes "format"
          ∷ codes "no_clobber"
          ∷ codes "output_time_format"
          ∷ codes "year"
          ∷ codes "utc_offset"
          ∷ codes "max_sort_group"
          ∷ [],
    )
    ∷ (codes "mux", codes "enabled" ∷ codes "delimiter" ∷ codes "field" ∷ [])
    ∷ (
      codes "merge",
      codes "collapse_duplicates"
          ∷ codes "collapse_window_us"
          ∷ codes "max_collapse_survivors"
          ∷ codes "delta_scope"
          ∷ [],
    )
    ∷ (
      codes "filter",
      codes "exclude_types"
          ∷ codes "exclude_rts"
          ∷ codes "exclude_buses"
          ∷ codes "exclude_subaddresses"
          ∷ [],
    )
    ∷ []

unfoldable pub is_listed : List (List ℕ × List (List ℕ)) → List ℕ → List ℕ → Bool
unfolding text_eq is_one_of
is_listed [] section key = false
is_listed ((name, keys) ∷ rows) section key =
    text_eq section name && is_one_of keys key || is_listed rows section key

unfoldable pub is_known_shared_key : List ℕ → List ℕ → Bool
unfolding is_listed
is_known_shared_key section key = is_listed known_keys section key

abbrev pub is_csv : List ℕ → Bool
is_csv name = is_one_of (codes "csv" ∷ []) name

module _ {F : Type 0} where
  unfoldable pub reject_section_used_as_scalar : List (Entry F) → ConfigProblem ⊎ Unit {0}
  unfolding is_known_section
  reject_section_used_as_scalar [] = inr tt
  reject_section_used_as_scalar (e ∷ es) =
      let rest = reject_section_used_as_scalar es in
      if is_empty e.section && is_known_section e.key then inl section_as_scalar else rest

  -- The keys that the warnings name.
  unfoldable pub warn_unknown_keys : List (Entry F) → List (List ℕ × List ℕ)
  unfolding is_known_shared_key
  warn_unknown_keys [] = []
  warn_unknown_keys (e ∷ es) =
      let rest = warn_unknown_keys es in
      if is_known_shared_key e.section e.key then rest else (e.section, e.key) ∷ rest

  -- The loops of `apply_filter_sections`, which push what `parse` gives.
  unfoldable pub push_parsed :
      {A : Type 0}
      → (TomlValue F → ConfigProblem ⊎ A)
      → List A
      → TomlValues F
      → ConfigProblem ⊎ List A
  push_parsed parse out end = inr out
  push_parsed parse out (item v vs) = parse v >>= (λ a. push_parsed parse (out ++ a ∷ []) vs)

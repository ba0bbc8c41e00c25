-- ===== src/Config/Sections/Loaded.antt =====
-- A configuration that rust/src/config.rs loads is in its ranges.
use mie_decoder.Config.Toml.Value.{Std}
use mie_decoder.Config.Toml.Doc.{Entry, parse_toml}
use mie_decoder.Config.Toml.Get.{ConfigProblem}
use mie_decoder.Config.Names.{warn, parse_level}
use mie_decoder.Config.Settings.{DecoderConfig, default}
use mie_decoder.Config.Schema.{reject_section_used_as_scalar}
use mie_decoder.Config.Sections.{
  with_schema, apply_logging_section, apply_decode_section, apply_output_section, apply_mux_section,
  apply_merge_section, apply_sections, with_syntax, parse_into_config,
}
use mie_decoder.Config.Sections.InRange.{InRange}
use mie_decoder.Common.{
  ℕ, ◌≡◌, refl, ◌⊎◌, inl, inr, List, arith, ◌>>=◌, Right, Right-bind, Right-then, Right-eq,
}
use mie_decoder.Config.Sections.Keeps.{
  logging-InRange, decode-InRange, output-InRange, mux-InRange, merge-InRange, filter-InRange,
}

module _ {F : Type 0} (std : Std F) where
  pub default-InRange : InRange std default
  unfolding default parse_level
  default-InRange = (
    (warn, refl),
    ((ground arith, ground arith), (ground arith, ground arith), tt),
    (tt, ground arith, (ground arith, ground arith)),
    (λ e. cc),
    (ground arith, ground arith),
    (tt, tt, tt),
  )

  sections-InRange : (toml : List (Entry F)) → Right (InRange std) (apply_sections std toml default)
  unfolding apply_sections
  sections-InRange toml = Right-then (InRange std) (reject_section_used_as_scalar toml) _ (λ u.
      Right-bind _ (InRange std) (apply_logging_section std toml default) _
        (logging-InRange std toml default default-InRange)
        (λ c1 h1.
          Right-bind _ (InRange std) (apply_decode_section std toml c1) _
            (decode-InRange std toml c1 h1)
            (λ c2 h2.
              Right-bind _ (InRange std) (apply_output_section std toml c2) _
                (output-InRange std toml c2 h2)
                (λ c3 h3.
                  Right-bind _ (InRange std) (apply_mux_section std toml c3) _
                    (mux-InRange std toml c3 h3)
                    (λ c4 h4.
                      Right-bind _ (InRange std) (apply_merge_section std toml c4) _
                        (merge-InRange std toml c4 h4) (filter-InRange std toml))))))

  -- A configuration that is read from a text has a log level that is known, counts of records from
  -- 1 to 32, a tick rate that is finite and positive if there is one, a year from 1 to 9999 if there
  -- is one, an offset of less than a day, caps from 1 to 1,048,576, a delimiter that is not empty,
  -- excluded types of at most 255, and excluded addresses and subaddresses of at most 31.
  pub parse_into_config-InRange :
      (text : List ℕ) (c : DecoderConfig F) → parse_into_config std text ≡ inr c → InRange std c
  unfolding parse_into_config
  parse_into_config-InRange text c e =
      Right-eq (InRange std)
        (with_syntax (parse_toml std text)
          >>= (λ toml. with_schema (apply_sections std toml default)))
        c
        (Right-then (InRange std) (with_syntax (parse_toml std text)) _
          (λ toml. schema_right (apply_sections std toml default) (sections-InRange toml)))
        e
    where
      schema_right :
          (m : ConfigProblem ⊎ DecoderConfig F)
          → Right (InRange std) m
          → Right (InRange std) (with_schema m)
      schema_right (inl p) h = tt
      schema_right (inr d) h = h

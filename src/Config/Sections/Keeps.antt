-- ===== src/Config/Sections/Keeps.antt =====
-- Every section of rust/src/config.rs keeps the settings in their ranges.
use mie_decoder.Config.Toml.Value.{Std}
use mie_decoder.Config.Toml.Doc.{Entry}
use mie_decoder.Config.Toml.Get.{invalid_value}
use mie_decoder.Config.Names.{
  Level, parse_level, parse_utc_offset, or_invalid, parse_type_value, parse_int_rt_sa,
  parse_time_format, parse_error_mode, parse_output_time_format, parse_bus_value,
  delta_scope_from_name_ci,
}
use mie_decoder.Config.Settings.{DecoderConfig}
use mie_decoder.Config.Schema.{require_int_range, push_parsed, is_csv}
use mie_decoder.Config.Sections.{
  require_positive_finite, apply_logging_section, apply_decode_section, apply_output_section,
  apply_mux_section, apply_merge_section, apply_filter_sections, non_negative, logging_steps,
  decode_steps, output_steps, mux_steps, merge_steps, filter_steps,
}
use mie_decoder.Config.Sections.InRange.{
  TickRate, InRange, require_int_range-bounds, parse_utc_offset-WithinDay,
}
use mie_decoder.Config.Steps.{run_keeps}
use mie_decoder.Common.{
  ℕ, ◌≡◌, refl, inl, inr, ◌||◌, not, Option, none, some, List, [], ◌∷◌, arith, if◌then◌else◌,
  if_intro, is_empty, ◌>>=◌, Right, Right-bind, Right-then, All,
}
use mie_decoder.Config.Sections.Bounds.{
  Below, parse_int_rt_sa-Below, push_parsed-All, parse_type_value-Below,
}

module _ {F : Type 0} (std : Std F) where
  pub tick_rate : (hz : F) → Right (TickRate std) (require_positive_finite std hz)
  unfolding require_positive_finite
  tick_rate hz =
      if_intro (Right (TickRate std)) (not (std.is_finite hz) || std.le_zero hz) _ _ (λ h. tt)
        (λ h. ground arith)

  pub logging-InRange :
      (toml : List (Entry F)) (c : DecoderConfig F)
      → InRange std c
      → Right (InRange std) (apply_logging_section std toml c)
  unfolding apply_logging_section
  logging-InRange toml c0 =
      run_keeps (InRange std) (logging_steps std toml) c0
        ((λ c s h. level c s h (parse_level (std.to_uppercase s)) refl), ((λ c b h. h), tt))
    where
      level :
          (c : DecoderConfig F) (s : List ℕ)
          → InRange std c
          → (l : Option Level) → parse_level (std.to_uppercase s) ≡ l
          → Right
              (InRange std)
              (or_invalid l >>= (λ l. inr (record c { log_level = std.to_uppercase s })))
      level c s h none e = tt
      level c s h (some l) e = ((l, e), h.1, h.2, h.3, h.4, h.5)

  pub decode-InRange :
      (toml : List (Entry F)) (c : DecoderConfig F)
      → InRange std c
      → Right (InRange std) (apply_decode_section std toml c)
  unfolding apply_decode_section
  decode-InRange toml c0 = run_keeps (InRange std) (decode_steps std toml) c0 (
    tt,
    (
      (λ c s h. Right-then (InRange std) (parse_time_format s) _ (λ f. h)),
      (
        (λ c b h. h),
        (
          (λ c s h. Right-then (InRange std) (parse_error_mode s) _ (λ m. h)),
          (
            (λ c b h. h),
            (
              (λ c n h.
                  Right-bind _ (InRange std) (require_int_range n 1 32) _
                    (require_int_range-bounds n 1 32)
                    (λ v b. (h.0, (b, h.1.1, h.1.2), h.2, h.3, h.4, h.5))),
              (
                (λ c n h.
                    Right-bind _ (InRange std) (require_int_range n 1 32) _
                      (require_int_range-bounds n 1 32)
                      (λ v b. (h.0, (h.1.0, b, h.1.2), h.2, h.3, h.4, h.5))),
                (
                  (λ c hz h.
                      Right-bind (TickRate std) (InRange std) (require_positive_finite std hz) _
                        (tick_rate hz) (λ v t. (h.0, (h.1.0, h.1.1, t), h.2, h.3, h.4, h.5))),
                  tt,
                ),
              ),
            ),
          ),
        ),
      ),
    ),
  )

  pub output-InRange :
      (toml : List (Entry F)) (c : DecoderConfig F)
      → InRange std c
      → Right (InRange std) (apply_output_section std toml c)
  unfolding apply_output_section
  output-InRange toml c0 = run_keeps (InRange std) (output_steps std toml) c0 (
    (λ c s h. if_intro (Right (InRange std)) (is_csv s) _ _ (λ p. h) (λ p. tt)),
    (
      (λ c b h. h),
      (
        (λ c s h. Right-then (InRange std) (parse_output_time_format s) _ (λ f. h)),
        (
          (λ c n h.
              Right-bind _ (InRange std) (require_int_range n 1 9999) _
                (require_int_range-bounds n 1 9999)
                (λ v b. (h.0, h.1, (b, h.2.1, h.2.2), h.3, h.4, h.5))),
          (
            (λ c s h.
                Right-bind _ (InRange std) (parse_utc_offset s) _ (parse_utc_offset-WithinDay s)
                  (λ v b. (h.0, h.1, (h.2.0, b, h.2.2), h.3, h.4, h.5))),
            (
              (λ c n h.
                  Right-bind _ (InRange std) (require_int_range n 1 1_048_576) _
                    (require_int_range-bounds n 1 1_048_576)
                    (λ v b. (h.0, h.1, (h.2.0, h.2.1, b), h.3, h.4, h.5))),
              tt,
            ),
          ),
        ),
      ),
    ),
  )

  pub mux-InRange :
      (toml : List (Entry F)) (c : DecoderConfig F)
      → InRange std c
      → Right (InRange std) (apply_mux_section std toml c)
  unfolding apply_mux_section
  mux-InRange toml c0 =
      run_keeps (InRange std) (mux_steps std toml) c0
        ((λ c b h. h), ((λ c d h. delimiter c d h), ((λ c n h. h), tt)))
    where
      delimiter :
          (c : DecoderConfig F) (d : List ℕ)
          → InRange std c
          → Right
              (InRange std)
              (if is_empty d then inl invalid_value else inr (record c { mux_delimiter = d }))
      delimiter c [] h = tt
      delimiter c (x ∷ d) h = (h.0, h.1, h.2, (λ e. cc), h.4, h.5)

  pub merge-InRange :
      (toml : List (Entry F)) (c : DecoderConfig F)
      → InRange std c
      → Right (InRange std) (apply_merge_section std toml c)
  unfolding apply_merge_section
  merge-InRange toml c0 = run_keeps (InRange std) (merge_steps std toml) c0 (
    (λ c b h. h),
    (
      (λ c s h. Right-then (InRange std) (or_invalid (delta_scope_from_name_ci s)) _ (λ d. h)),
      (
        (λ c n h. Right-then (InRange std) (non_negative std n) _ (λ v. h)),
        (
          (λ c n h.
              Right-bind _ (InRange std) (require_int_range n 1 1_048_576) _
                (require_int_range-bounds n 1 1_048_576) (λ v b. (h.0, h.1, h.2, h.3, b, h.5))),
          tt,
        ),
      ),
    ),
  )

  pub filter-InRange :
      (toml : List (Entry F)) (c : DecoderConfig F)
      → InRange std c
      → Right (InRange std) (apply_filter_sections std toml c)
  unfolding apply_filter_sections
  filter-InRange toml c0 = run_keeps (InRange std) (filter_steps std toml) c0 (
    (λ c vs h.
        Right-bind (All (Below 255)) (InRange std)
          (push_parsed (parse_type_value std) c.filters.exclude_types vs) _
          (push_parsed-All (Below 255) (parse_type_value std) c.filters.exclude_types vs
            (parse_type_value-Below std) h.5.0)
          (λ l p. (h.0, h.1, h.2, h.3, h.4, (p, h.5.1, h.5.2)))),
    (
      (λ c vs h.
          Right-bind (All (Below 31)) (InRange std)
            (push_parsed parse_int_rt_sa c.filters.exclude_rts vs) _
            (push_parsed-All (Below 31) parse_int_rt_sa c.filters.exclude_rts vs
              parse_int_rt_sa-Below h.5.1)
            (λ l p. (h.0, h.1, h.2, h.3, h.4, (h.5.0, p, h.5.2)))),
      (
        (λ c vs h.
            Right-then (InRange std) (push_parsed parse_bus_value c.filters.exclude_buses vs) _
              (λ l. h)),
        (
          (λ c vs h.
              Right-bind (All (Below 31)) (InRange std)
                (push_parsed parse_int_rt_sa c.filters.exclude_subaddresses vs) _
                (push_parsed-All (Below 31) parse_int_rt_sa c.filters.exclude_subaddresses vs
                  parse_int_rt_sa-Below h.5.2)
                (λ l p. (h.0, h.1, h.2, h.3, h.4, (h.5.0, h.5.1, p)))),
          tt,
        ),
      ),
    ),
  )

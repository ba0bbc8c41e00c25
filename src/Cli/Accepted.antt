-- ===== src/Cli/Accepted.antt =====
-- What `parse_decode` of rust/src/cli.rs accepts is in the ranges of the settings.
use mie_decoder.Cli.Values.{
  ParseError, looks_like_option, Arg, split_arg, within, or_refuse, from_config, push_filter,
  parse_u8_value, parse_bus_filter, parse_input_time_format_arg, parse_output_time_format_arg,
  parse_year_arg, parse_utc_offset_arg, parse_output_format_arg, parse_in_range,
  parse_detect_records, parse_lookahead_records, parse_max_sort_group, parse_max_collapse_survivors,
  parse_mux_delimiter, parse_mux_field, parse_delta_scope, parse_collapse_window_us,
  parse_type_filter, parse_standard_tick_rate_hz, usize_max, starts_with_dash,
}
use mie_decoder.Cli.Decode.{
  DecodeArgs, no_args, Flag, valued, switch, retired, help, Demand, change, value, add_input,
  path_or_unknown, demand_of, flags, demand, decode_loop, methods, one_method, parse_decode,
}
use mie_decoder.Config.Text.{text_eq, trim, parse_unsigned, decimal_digit}
use mie_decoder.Config.Toml.Value.{Std}
use mie_decoder.Config.Toml.Get.{ConfigProblem}
use mie_decoder.Config.Names.{by_name, parse_utc_offset}
use mie_decoder.Config.Settings.Merge.{Between}
use mie_decoder.Config.Sections.InRange.{OptionAll, WithinDay, TickRate, parse_utc_offset-WithinDay}
use mie_decoder.Models.Text.{codes}
use mie_decoder.Common.{
  ℕ, ◌≡◌, ◌≢◌, ◌⊎◌, inl, inr, Bool, true, false, ◌&&◌, ◌||◌, not, Option, none, some, List, [], ◌∷◌,
  arith, ltb, leb, ◌==◌, if◌then◌else◌, if_intro, set, ◌>>=◌, Right, Right-bind, Right-then, All,
}

within-Between : (lo hi n : ℕ) → Right (Between lo hi) (within lo hi n)
within-Between lo hi n =
    if_intro (Right (Between lo hi)) (leb lo n && leb n hi) _ _ (λ h. (ground arith, ground arith))
      (λ h. tt)

parse_in_range-Between : (lo hi : ℕ) (s : List ℕ) → Right (Between lo hi) (parse_in_range lo hi s)
unfolding parse_in_range
parse_in_range-Between lo hi s =
    Right-then (Between lo hi) (or_refuse (parse_unsigned 10 decimal_digit usize_max (trim s))) _
      (within-Between lo hi)

parse_year_arg-Between : (s : List ℕ) → Right (Between 1 9999) (parse_year_arg s)
unfolding parse_year_arg
parse_year_arg-Between s =
    Right-then (Between 1 9999) (or_refuse (parse_unsigned 10 decimal_digit 4294967295 s)) _
      (within-Between 1 9999)

from_config-Right :
    {A : Type 0} (P : A → Type 0) (m : ConfigProblem ⊎ A) → Right P m → Right P (from_config m)
from_config-Right P (inl e) h = tt
from_config-Right P (inr a) h = h

parse_utc_offset_arg-WithinDay : (s : List ℕ) → Right WithinDay (parse_utc_offset_arg s)
unfolding parse_utc_offset_arg
parse_utc_offset_arg-WithinDay s =
    from_config-Right WithinDay (parse_utc_offset s) (parse_utc_offset-WithinDay s)

by_name-All :
    {A : Type 0} (P : A → Type 0) (rows : List (List ℕ × A)) (s : List ℕ)
    → All (λ row. P row.1) rows
    → OptionAll P (by_name rows s)
unfolding by_name
by_name-All P [] s h = tt
by_name-All P ((name, a) ∷ rows) s h =
    if_intro (OptionAll P) (text_eq s name) _ _ (λ e. h.0) (λ e. by_name-All P rows s h.1)

module _ {F : Type 0} (std : Std F) where
  parse_standard_tick_rate_hz-TickRate :
      (s : List ℕ) → Right (TickRate std) (parse_standard_tick_rate_hz std s)
  unfolding parse_standard_tick_rate_hz
  parse_standard_tick_rate_hz-TickRate s =
      Right-then (TickRate std) (or_refuse (std.parse_f64 (trim s))) _ (λ hz.
        if_intro (Right (TickRate std)) (not (std.is_finite hz) || std.le_zero hz) _ _ (λ h. tt)
          (λ h. ground arith))

  -- The ranges of the arguments that are given.
  abbrev pub ArgsOk : DecodeArgs F → Type 0
  ArgsOk a =
      OptionAll (Between 1 32) a.detect_records
      × OptionAll (Between 1 32) a.lookahead_records
      × OptionAll (TickRate std) a.standard_tick_rate_hz
      × OptionAll (Between 1 9999) a.year
      × OptionAll WithinDay a.utc_offset_minutes
      × OptionAll (Between 1 1_048_576) a.max_sort_group
      × OptionAll (λ d. d ≢ []) a.mux_delimiter
      × OptionAll (Between 1 1_048_576) a.max_collapse_survivors

  abbrev FlagOk : Flag F → Type 0
  FlagOk (valued set) = (a : DecodeArgs F) (v : List ℕ) → ArgsOk a → Right ArgsOk (set a v)
  FlagOk (switch set) = (a : DecodeArgs F) → ArgsOk a → ArgsOk (set a)
  FlagOk retired = Unit
  FlagOk help = Unit

  abbrev DemandOk : Demand F → Type 0
  DemandOk (change set) = (a : DecodeArgs F) → ArgsOk a → Right ArgsOk (set a)
  DemandOk (value set) = (a : DecodeArgs F) (v : List ℕ) → ArgsOk a → Right ArgsOk (set a v)

  path_or_unknown-DemandOk : (arg : Arg) → DemandOk (path_or_unknown arg)
  path_or_unknown-DemandOk arg =
      if_intro DemandOk (starts_with_dash arg.name) _ _ (λ p. λ a h. tt) (λ p. λ a h. h)

  demand_of-DemandOk :
      (arg : Arg) (inline : Option (List ℕ)) (flag : Option (Flag F))
      → OptionAll FlagOk flag
      → DemandOk (demand_of arg inline flag)
  demand_of-DemandOk arg none none k = path_or_unknown-DemandOk arg
  demand_of-DemandOk arg (some v) none k = path_or_unknown-DemandOk arg
  demand_of-DemandOk arg none (some (valued set)) k = k
  demand_of-DemandOk arg (some v) (some (valued set)) k = λ a h. k a v h
  demand_of-DemandOk arg none (some (switch set)) k = k
  demand_of-DemandOk arg (some v) (some (switch set)) k = path_or_unknown-DemandOk arg
  demand_of-DemandOk arg none (some retired) k = λ a h. tt
  demand_of-DemandOk arg (some v) (some retired) k = λ a h. tt
  demand_of-DemandOk arg none (some help) k = λ a h. tt
  demand_of-DemandOk arg (some v) (some help) k = path_or_unknown-DemandOk arg

  delimiter-ok :
      (a : DecodeArgs F) (v : List ℕ)
      → ArgsOk a
      → Right ArgsOk (parse_mux_delimiter v >>= (λ x. inr (record a { mux_delimiter = some x })))
  delimiter-ok a [] h = tt
  delimiter-ok a (c ∷ s) h = (h.0, h.1, h.2, h.3, h.4, h.5, (λ e. cc), h.7)

  flags-FlagOk : All (λ row. FlagOk row.1) (flags std)
  unfolding flags
  flags-FlagOk = (
    (λ a v h. h),
    (
      (λ a v h. h),
      (
        (λ a h. h),
        (
          (λ a h. h),
          (
            (λ a h. h),
            (
              (λ a h. h),
              (
                (λ a h. h),
                (
                  (λ a h. h),
                  (
                    (λ a v h. Right-then ArgsOk (parse_input_time_format_arg v) _ (λ x. h)),
                    (
                      (λ a v h. Right-then ArgsOk (parse_output_time_format_arg v) _ (λ x. h)),
                      (
                        (λ a v h.
                            Right-bind (Between 1 9999) ArgsOk (parse_year_arg v) _
                              (parse_year_arg-Between v)
                              (λ x b. (h.0, h.1, h.2, b, h.4, h.5, h.6, h.7))),
                        (
                          (λ a v h.
                              Right-bind (WithinDay) ArgsOk (parse_utc_offset_arg v) _
                                (parse_utc_offset_arg-WithinDay v)
                                (λ x b. (h.0, h.1, h.2, h.3, b, h.5, h.6, h.7))),
                          (
                            tt,
                            (
                              (λ a v h.
                                  Right-bind (Between 1 32) ArgsOk (parse_detect_records v) _
                                    (parse_in_range-Between 1 32 v)
                                    (λ x b. (b, h.1, h.2, h.3, h.4, h.5, h.6, h.7))),
                              (
                                (λ a v h.
                                    Right-bind (Between 1 32) ArgsOk (parse_lookahead_records v) _
                                      (parse_in_range-Between 1 32 v)
                                      (λ x b. (h.0, b, h.2, h.3, h.4, h.5, h.6, h.7))),
                                (
                                  (λ a v h.
                                      Right-bind (TickRate std) ArgsOk
                                        (parse_standard_tick_rate_hz std v) _
                                        (parse_standard_tick_rate_hz-TickRate v)
                                        (λ x b. (h.0, h.1, b, h.3, h.4, h.5, h.6, h.7))),
                                  (
                                    (λ a v h.
                                        Right-then ArgsOk (parse_output_format_arg v) _ (λ x. h)),
                                    (
                                      delimiter-ok,
                                      (
                                        (λ a v h. Right-then ArgsOk (parse_mux_field v) _ (λ x. h)),
                                        (
                                          (λ a v h.
                                              Right-bind (Between 1 1_048_576) ArgsOk
                                                (parse_max_sort_group v) _
                                                (parse_in_range-Between 1 1_048_576 v)
                                                (λ x b. (h.0, h.1, h.2, h.3, h.4, b, h.6, h.7))),
                                          (
                                            (λ a v h.
                                                Right-then ArgsOk (parse_delta_scope v) _ (λ x. h)),
                                            (
                                              (λ a v h.
                                                  Right-then ArgsOk (parse_collapse_window_us v) _
                                                    (λ x. h)),
                                              (
                                                (λ a v h.
                                                    Right-bind (Between 1 1_048_576) ArgsOk
                                                      (parse_max_collapse_survivors v) _
                                                      (parse_in_range-Between 1 1_048_576 v)
                                                      (λ x b.
                                                        (h.0, h.1, h.2, h.3, h.4, h.5, h.6, b))),
                                                (
                                                  (λ a v h. h),
                                                  (
                                                    (λ a v h. h),
                                                    (
                                                      (λ a v h.
                                                          Right-then ArgsOk
                                                            (push_filter (parse_type_filter std)
                                                            a.exclude_types v)
                                                            _ (λ l. h)),
                                                      (
                                                        (λ a v h.
                                                            Right-then ArgsOk
                                                            (push_filter (parse_type_filter std)
                                                            a.include_types v)
                                                            _ (λ l. h)),
                                                        (
                                                          (λ a v h.
                                                            Right-then ArgsOk
                                                            (push_filter parse_u8_value
                                                            a.exclude_rts v)
                                                            _ (λ l. h)),
                                                          (
                                                            (λ a v h.
                                                            Right-then ArgsOk
                                                            (push_filter parse_u8_value
                                                            a.include_rts v)
                                                            _ (λ l. h)),
                                                            (
                                                            (λ a v h.
                                                            Right-then ArgsOk
                                                            (push_filter parse_bus_filter
                                                            a.exclude_buses v)
                                                            _ (λ l. h)),
                                                            (
                                                            (λ a v h.
                                                            Right-then ArgsOk
                                                            (push_filter parse_bus_filter
                                                            a.include_buses v)
                                                            _ (λ l. h)),
                                                            (
                                                            (λ a v h.
                                                            Right-then ArgsOk
                                                            (push_filter parse_u8_value
                                                            a.exclude_subaddresses v)
                                                            _ (λ l. h)),
                                                            (
                                                            (λ a v h.
                                                            Right-then ArgsOk
                                                            (push_filter parse_u8_value
                                                            a.include_subaddresses v)
                                                            _ (λ l. h)),
                                                            (tt, (tt, tt)),
                                                            ),
                                                            ),
                                                            ),
                                                            ),
                                                          ),
                                                        ),
                                                      ),
                                                    ),
                                                  ),
                                                ),
                                              ),
                                            ),
                                          ),
                                        ),
                                      ),
                                    ),
                                  ),
                                ),
                              ),
                            ),
                          ),
                        ),
                      ),
                    ),
                  ),
                ),
              ),
            ),
          ),
        ),
      ),
    ),
  )

  demand-DemandOk : (token : List ℕ) → DemandOk (demand std token)
  unfolding demand
  demand-DemandOk token =
      demand_of-DemandOk (split_arg token) (split_arg token).inline
        (by_name (flags std) (split_arg token).name)
        (by_name-All FlagOk (flags std) (split_arg token).name flags-FlagOk)

  loop-ArgsOk :
      (ended : Bool) (args : DecodeArgs F) (tokens : List (List ℕ))
      → ArgsOk args
      → Right ArgsOk (decode_loop std ended args tokens)
  unfolding decode_loop
  loop-ArgsOk ended args [] h = h
  loop-ArgsOk true args (token ∷ rest) h = loop-ArgsOk true (add_input args token) rest h
  loop-ArgsOk false args (token ∷ []) h =
      if_intro (Right ArgsOk) (text_eq token (codes "--")) _ _ (λ p. h)
        (λ p. last (demand std token) (demand-DemandOk token))
    where
      last :
          (d : Demand F)
          → DemandOk d
          → Right ArgsOk
              (elim d [ change set ↦ set args | value set ↦ inl ParseError.missing_value ])
      last (change set) k = k args h
      last (value set) k = tt
  loop-ArgsOk false args (token ∷ next ∷ rest) h =
      if_intro (Right ArgsOk) (text_eq token (codes "--")) _ _
        (λ p. loop-ArgsOk true args (next ∷ rest) h)
        (λ p.
          act (demand std token) (demand-DemandOk token)
            (λ a k. loop-ArgsOk false a (next ∷ rest) k) (λ a k. loop-ArgsOk false a rest k))
    where
      act :
          (d : Demand F)
          → DemandOk d
          → ((a : DecodeArgs F) → ArgsOk a → Right ArgsOk (decode_loop std false a (next ∷ rest)))
          → ((a : DecodeArgs F) → ArgsOk a → Right ArgsOk (decode_loop std false a rest))
          → Right ArgsOk (elim d [
            | change set ↦ set args >>= (λ a. decode_loop std false a (next ∷ rest))
            | value set ↦
                if looks_like_option next
                then inl ParseError.option_as_value
                else set args next >>= (λ a. decode_loop std false a rest)
          ])
      act (change set) k on past = Right-bind ArgsOk ArgsOk (set args) _ (k args h) on
      act (value set) k on past =
          if_intro (Right ArgsOk) (looks_like_option next) _ _ (λ p. tt)
            (λ p. Right-bind ArgsOk ArgsOk (set args next) _ (k args next h) past)

  -- Accepted arguments have one input method, and are in the ranges.
  abbrev pub Accepted : DecodeArgs F → Type 0
  Accepted a = (methods std a ≡ 1) × ArgsOk a

  pub parse_decode-Accepted : (tokens : List (List ℕ)) → Right Accepted (parse_decode std tokens)
  unfolding parse_decode
  parse_decode-Accepted tokens =
      Right-bind ArgsOk Accepted (decode_loop std false no_args tokens) (one_method std)
        (loop-ArgsOk false no_args tokens (tt, tt, tt, tt, tt, tt, tt, tt))
        (λ a h.
          if_intro (Right Accepted) (methods std a == 0) _ _ (λ p. tt)
            (λ p.
              if_intro (Right Accepted) (ltb 1 (methods std a)) _ _ (λ q. tt)
                (λ q. (ground arith, h))))

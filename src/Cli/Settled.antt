-- ===== src/Cli/Settled.antt =====
-- The settings that a run of rust/src/cli.rs starts with, and the exit codes of its commands.
use mie_decoder.Error.{MieError, MieErrorKind, kind, is_broken_pipe}
use mie_decoder.Cli.Decode.{DecodeArgs, build_config_overrides, parse_decode, methods}
use mie_decoder.Cli.Accepted.{ArgsOk, Accepted, parse_decode-Accepted}
use mie_decoder.Cli.Run.{
  GlobalArgs, or_exit, known_level, apply_log_level, apply_given_level, load_text, resolve_config,
  time_render, is_none, class_of_error, code_of_kind, resolve_time_render, run_settings,
  classify_decode_exit, from_decode_error, exit_config, exit_usage,
}
use mie_decoder.Config.Toml.Value.{Std}
use mie_decoder.Config.Names.{Level, parse_level}
use mie_decoder.Config.Settings.{DecoderConfig, with_overrides}
use mie_decoder.Config.Settings.Merge.{Between, OverridesOk, with_overrides-RunOk}
use mie_decoder.Config.Sections.{ConfigError, parse_into_config}
use mie_decoder.Config.Sections.InRange.{OptionAll, WithinDay, RunOk}
use mie_decoder.Config.Sections.Loaded.{default-InRange, parse_into_config-InRange}
use mie_decoder.Models.Text.{TimeRender, needs_calendar}
use mie_decoder.Common.{
  ℕ, ◌≤◌, ◌≡◌, refl, ◌≢◌, ◌⊎◌, inl, inr, Bool, true, false, ◌&&◌, Option, none, some, List, arith,
  if_intro, Right, Right-bind, Right-then, Right-eq,
}

abbrev LevelOk : List ℕ → Type 0
LevelOk s = (l : Level) × (parse_level s ≡ some l)

-- A calendar rendering has a year of four digits at most.
abbrev pub RenderOk : TimeRender → Type 0
RenderOk render =
    WithinDay render.utc_offset_minutes
    × (needs_calendar render.format ≡ true
        → (y : ℕ) × ((render.year ≡ some y) × (1 ≤ y) × (y ≤ 9999)))

level_known : (code : ℕ) (s : List ℕ) → Right (λ (u : Unit {0}). LevelOk s) (apply_log_level code s)
unfolding apply_log_level
level_known code s = known (parse_level s) refl
  where
    known :
        (l : Option Level)
        → parse_level s ≡ l
        → Right (λ (u : Unit {0}). LevelOk s) (known_level code l)
    known none e = tt
    known (some l) e = (l, e)

given_known :
    (level : Option (List ℕ))
    → Right (λ (u : Unit {0}). OptionAll LevelOk level) (apply_given_level level)
given_known none = tt
given_known (some s) = level_known exit_usage s

module _ {F : Type 0} (std : Std F) where
  load_text-RunOk :
      (text : Option (List ℕ)) → Right (RunOk std) (or_exit exit_config (load_text std text))
  load_text-RunOk none = let h = default-InRange std in (h.0, h.1, h.2, h.3, h.4)
  load_text-RunOk (some text) = parsed (parse_into_config std text) refl
    where
      parsed :
          (m : ConfigError ⊎ DecoderConfig F)
          → parse_into_config std text ≡ m
          → Right (RunOk std) (or_exit exit_config m)
      parsed (inl e) h = tt
      parsed (inr c) h = let r = parse_into_config-InRange std text c h in (r.0, r.1, r.2, r.3, r.4)

  abbrev Resolved : GlobalArgs → DecoderConfig F → Type 0
  Resolved globals c = RunOk std c × OptionAll LevelOk globals.log_level

  resolve_config-Resolved :
      (globals : GlobalArgs) → Right (Resolved globals) (resolve_config std globals)
  unfolding resolve_config
  resolve_config-Resolved globals =
      Right-bind (RunOk std) (Resolved globals) (or_exit exit_config (load_text std globals.config))
        _ (load_text-RunOk globals.config)
        (λ cfg r. Right-then (Resolved globals) (apply_log_level exit_config cfg.log_level) _ (λ u.
          Right-bind _ (Resolved globals) (apply_given_level globals.log_level) _
            (given_known globals.log_level) (λ v k. (r, k))))

  overrides-OverridesOk :
      (args : DecodeArgs F) (level : Option (List ℕ)) (advisory : Option Bool)
      → ArgsOk std args
      → OptionAll LevelOk level
      → OverridesOk std (build_config_overrides args level advisory)
  unfolding build_config_overrides
  overrides-OverridesOk args level advisory h k = record {
    level = k;
    detect = h.0;
    lookahead = h.1;
    tick_rate = h.2;
    in_years = h.3;
    offset = h.4;
    sort_group = h.5;
    delimiter = h.6;
    survivors = h.7;
  }

  abbrev pub Settled : DecoderConfig F × TimeRender → Type 0
  Settled (c, render) = RunOk std c × RenderOk render

  time_render-RenderOk :
      (c : DecoderConfig F)
      → RunOk std c
      → (needs_calendar c.output_time_format && is_none c.year) ≡ false
      → RenderOk (time_render c)
  time_render-RenderOk c r h = (r.2.1, dated c.year h r.2.0)
    where
      dated :
          (year : Option ℕ)
          → (needs_calendar c.output_time_format && is_none year) ≡ false
          → OptionAll (Between 1 9999) year
          → needs_calendar c.output_time_format ≡ true
          → (y : ℕ) × ((year ≡ some y) × (1 ≤ y) × (y ≤ 9999))
      dated none h b n = absurd (ground arith)
      dated (some y) h b n = (y, (refl, b.0, b.1))

  resolve_time_render-RenderOk :
      (c : DecoderConfig F) → RunOk std c → Right RenderOk (resolve_time_render c)
  unfolding resolve_time_render
  resolve_time_render-RenderOk c r =
      if_intro (Right RenderOk) (needs_calendar c.output_time_format && is_none c.year) _ _
        (λ p. tt) (time_render-RenderOk c r)

  run_settings-Right :
      (globals : GlobalArgs) (args : DecodeArgs F)
      → ArgsOk std args
      → Right Settled (run_settings std globals args)
  unfolding run_settings
  run_settings-Right globals args h =
      Right-bind (Resolved globals) Settled (resolve_config std globals) _
        (resolve_config-Resolved globals)
        (λ cfg (r, k).
          let ov = build_config_overrides args globals.log_level globals.irig_day_advisory in
          let ok =
            with_overrides-RunOk std cfg ov r
              (overrides-OverridesOk args globals.log_level globals.irig_day_advisory h k) in
          Right-bind RenderOk Settled (resolve_time_render (with_overrides cfg ov)) _
            (resolve_time_render-RenderOk (with_overrides cfg ov) ok) (λ render p. (ok, p)))

  -- Where the command line is accepted and the run comes to its settings, out of the configuration
  -- file and the command line, there is one input method; the log level is known, the counts of
  -- records are from 1 to 32, a tick rate is finite and positive, a year is from 1 to 9999, the
  -- offset is of less than a day, the caps are from 1 to 1,048,576 and the delimiter is not empty;
  -- and a calendar rendering has a year.
  pub run_settings-Settled :
      (tokens : List (List ℕ)) (args : DecodeArgs F) (globals : GlobalArgs)
      (settings : DecoderConfig F × TimeRender)
      → parse_decode std tokens ≡ inr args
      → run_settings std globals args ≡ inr settings
      → (methods std args ≡ 1) × Settled settings
  run_settings-Settled tokens args globals settings p e =
      let a =
        Right-eq (Accepted std) (parse_decode std tokens) args (parse_decode-Accepted std tokens)
          p in
      (
        a.0,
        Right-eq Settled (run_settings std globals args) settings
            (run_settings-Right globals args a.1) e,
      )

-- But for a broken pipe, a loss of sync without partial output and files that cannot be merged, a
-- decode ends with the exit code that the commands that only read give for the same error.
pub classify_decode_exit-from_decode_error :
    (e : MieError) (sync_losses : ℕ) (empty : Bool)
    → is_broken_pipe e ≡ false
    → kind e ≢ MieErrorKind.unrecoverable_sync_loss
    → kind e ≢ MieErrorKind.incompatible_merge_inputs
    → (classify_decode_exit (inl e) sync_losses empty).0 ≡ from_decode_error e
unfolding classify_decode_exit from_decode_error
classify_decode_exit-from_decode_error e sync_losses empty b s m = rw b (agree (kind e) s m)
  where
    agree :
        (k : MieErrorKind)
        → k ≢ MieErrorKind.unrecoverable_sync_loss
        → k ≢ MieErrorKind.incompatible_merge_inputs
        → (class_of_error k).0 ≡ code_of_kind k
    agree MieErrorKind.unrecoverable_sync_loss s m = absurd (s refl)
    agree MieErrorKind.incompatible_merge_inputs s m = absurd (m refl)
    agree MieErrorKind.no_valid_records s m = refl
    agree _ s m = ground arith

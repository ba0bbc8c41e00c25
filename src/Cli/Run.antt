-- ===== src/Cli/Run.antt =====
-- The settings of a run and its exit code in rust/src/cli.rs. Log lines and messages are left out;
-- the text of the configuration file is an argument.
use mie_decoder.Error.{MieError, MieErrorKind, kind, is_broken_pipe}
use mie_decoder.Cli.Decode.{DecodeArgs, build_config_overrides}
use mie_decoder.Config.Toml.Value.{Std}
use mie_decoder.Config.Names.{Level, parse_level}
use mie_decoder.Config.Settings.{DecoderConfig, default, with_overrides}
use mie_decoder.Config.Sections.{ConfigError, parse_into_config}
use mie_decoder.Models.Text.{TimeRender, needs_calendar}
use mie_decoder.Common.{
  ℕ, ◌⊎◌, inl, inr, Bool, true, false, ◌&&◌, Option, none, some, List, ltb, ◌==◌, if◌then◌else◌,
  ◌>>=◌,
}

-- The module `exit_code`.
abbrev pub exit_success : ℕ
exit_success = 0

abbrev pub exit_runtime : ℕ
exit_runtime = 1

abbrev pub exit_no_records : ℕ
exit_no_records = 2

abbrev pub exit_sync_loss : ℕ
exit_sync_loss = 3

abbrev pub exit_usage : ℕ
exit_usage = 4

abbrev pub exit_config : ℕ
exit_config = 5

abbrev pub exit_merge_incompatible : ℕ
exit_merge_incompatible = 6

-- Of the global arguments, those that `resolve_config` reads, with the text of the file that
-- `config` names.
pub record GlobalArgs : Type 0 where
  pub config : Option (List ℕ)
  pub log_level : Option (List ℕ)
  pub irig_day_advisory : Option Bool

abbrev pub or_exit : {A : Type 0} → ℕ → ConfigError ⊎ A → ℕ ⊎ A
or_exit code (inl e) = inl code
or_exit code (inr a) = inr a

-- `map_err` over the level.
abbrev pub known_level : ℕ → Option Level → ℕ ⊎ Unit {0}
known_level code none = inl code
known_level code (some l) = inr tt

unfoldable pub apply_log_level : ℕ → List ℕ → ℕ ⊎ Unit {0}
unfolding parse_level
apply_log_level code value = known_level code (parse_level value)

abbrev pub apply_given_level : Option (List ℕ) → ℕ ⊎ Unit {0}
apply_given_level none = inr tt
apply_given_level (some s) = apply_log_level exit_usage s

module _ {F : Type 0} (std : Std F) where
  -- A file that is not given leaves the defaults.
  abbrev pub load_text : Option (List ℕ) → ConfigError ⊎ DecoderConfig F
  load_text none = inr default
  load_text (some text) = parse_into_config std text

  unfoldable pub resolve_config : GlobalArgs → ℕ ⊎ DecoderConfig F
  unfolding apply_log_level parse_into_config default
  resolve_config globals = or_exit exit_config (load_text globals.config) >>= (λ cfg.
      apply_log_level exit_config cfg.log_level
      >>= (λ u. apply_given_level globals.log_level >>= (λ v. inr cfg)))

abbrev pub is_none : {A : Type 0} → Option A → Bool
is_none none = true
is_none (some a) = false

module _ {F : Type 0} where
  abbrev pub time_render : DecoderConfig F → TimeRender
  time_render cfg = record {
    format = cfg.output_time_format;
    year = cfg.year;
    utc_offset_minutes = cfg.utc_offset_minutes;
  }

  unfoldable pub resolve_time_render : DecoderConfig F → ℕ ⊎ TimeRender
  resolve_time_render cfg =
      if needs_calendar cfg.output_time_format && is_none cfg.year
      then inl exit_usage
      else inr (time_render cfg)

module _ {F : Type 0} (std : Std F) where
  -- What `run_decode` makes of its arguments before the output is opened; finding and opening the
  -- inputs is left out.
  unfoldable pub run_settings : GlobalArgs → DecodeArgs F → ℕ ⊎ (DecoderConfig F × TimeRender)
  unfolding resolve_config resolve_time_render build_config_overrides with_overrides
  run_settings globals args = resolve_config std globals >>= (λ cfg.
      let c =
        with_overrides cfg
          (build_config_overrides args globals.log_level globals.irig_day_advisory) in
      resolve_time_render c >>= (λ render. inr (c, render)))

-- `WriteOutcome`, with the test whether its output is partial.
pub record WriteOutcome : Type 0 where
  pub normal_count : ℕ
  pub error_count : ℕ
  pub partial : Bool

pub data ExitClass : Type 0 where
  partial_unrecoverable empty_recording partial_recovered complete broken_pipe : ExitClass
  no_records merge_incompatible non_monotonic other_error : ExitClass

abbrev pub class_of_outcome : WriteOutcome → ℕ → Bool → ExitClass
class_of_outcome o sync_losses empty =
    if o.partial
    then partial_unrecoverable
    else if empty && o.normal_count == 0 && o.error_count == 0
    then empty_recording
    else if ltb 0 sync_losses
    then partial_recovered
    else complete

abbrev pub class_of_error : MieErrorKind → ℕ × ExitClass
class_of_error MieErrorKind.no_valid_records = (exit_no_records, no_records)
class_of_error MieErrorKind.homogeneous_payload = (exit_no_records, no_records)
class_of_error MieErrorKind.timestamp_format_mismatch = (exit_no_records, no_records)
class_of_error MieErrorKind.calendar_unavailable = (exit_no_records, no_records)
class_of_error MieErrorKind.unrecoverable_sync_loss = (exit_sync_loss, partial_unrecoverable)
class_of_error MieErrorKind.incompatible_merge_inputs =
    (exit_merge_incompatible, merge_incompatible)
class_of_error MieErrorKind.non_monotonic_input = (exit_runtime, non_monotonic)
class_of_error _ = (exit_runtime, other_error)

-- The exit code, and the class that the log line names.
unfoldable pub classify_decode_exit : MieError ⊎ WriteOutcome → ℕ → Bool → ℕ × ExitClass
unfolding kind is_broken_pipe
classify_decode_exit (inr outcome) sync_losses empty =
    (exit_success, class_of_outcome outcome sync_losses empty)
classify_decode_exit (inl e) sync_losses empty =
    if is_broken_pipe e then (exit_success, broken_pipe) else class_of_error (kind e)

abbrev pub code_of_kind : MieErrorKind → ℕ
code_of_kind MieErrorKind.no_valid_records = exit_no_records
code_of_kind MieErrorKind.homogeneous_payload = exit_no_records
code_of_kind MieErrorKind.timestamp_format_mismatch = exit_no_records
code_of_kind MieErrorKind.calendar_unavailable = exit_no_records
code_of_kind _ = exit_runtime

-- The exit code of the commands that only read.
unfoldable pub from_decode_error : MieError → ℕ
unfolding kind
from_decode_error e = code_of_kind (kind e)

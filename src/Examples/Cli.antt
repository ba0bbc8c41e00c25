-- ===== src/Examples/Cli.antt =====
-- Command lines for rust/src/cli.rs.
use mie_decoder.Error.{MieError, kind, is_broken_pipe}
use mie_decoder.Config.Text.{trim}
use mie_decoder.Decode.Mux.{mux_from_filename, not_empty}
use mie_decoder.Decode.Mux.Fields.{join_all, mux_from_filename-join_all}
use mie_decoder.Cli.Values.{looks_like_option, parse_year_arg, parse_output_time_format_arg}
use mie_decoder.Cli.Decode.{DecodeArgs, no_args, flags, decode_loop, parse_decode, methods}
use mie_decoder.Cli.Run.{GlobalArgs, run_settings, classify_decode_exit, from_decode_error}
use mie_decoder.Cli.Settled.{Settled, run_settings-Settled, classify_decode_exit-from_decode_error}
use mie_decoder.Cli.Joined.{decode_loop-joined}
use mie_decoder.Config.Names.{by_name}
use mie_decoder.Config.Settings.{DecoderConfig, default}
use mie_decoder.Models.Text.{TimeRender, iso, pos, negsuc, codes}
use mie_decoder.Examples.Config.{std}
use mie_decoder.Common.{ℕ, ◌≡◌, refl, inl, inr, false, none, some, List, [], ◌∷◌, arith, ◌>>=◌}

abbrev tokens : List (List ℕ)
tokens = codes "a.mie" ∷ codes "--year" ∷ codes "2024" ∷ codes "--output-time-format=iso" ∷ []

abbrev args : DecodeArgs ℕ
args = record no_args {
  inputs = codes "a.mie" ∷ [];
  year = some 2024;
  output_time_format = some iso;
}

abbrev globals : GlobalArgs
globals = record { config = none; log_level = some (codes "INFO"); irig_day_advisory = none }

abbrev settings : DecoderConfig ℕ × TimeRender
settings = (
  record default { log_level = codes "INFO"; year = some 2024; output_time_format = iso },
  record { format = iso; year = some 2024; utc_offset_minutes = pos 0 },
)

run_settings-Settled_example : (methods std args ≡ 1) × Settled std settings
unfolding parse_decode run_settings default parse_year_arg parse_output_time_format_arg
run_settings-Settled_example = run_settings-Settled std tokens args globals settings refl refl

decode_loop-joined_example :
    decode_loop std false no_args (codes "--year=1999" ∷ codes "a.mie" ∷ [])
    ≡ decode_loop std false no_args (codes "--year" ∷ codes "1999" ∷ codes "a.mie" ∷ [])
unfolding flags looks_like_option by_name
decode_loop-joined_example =
    decode_loop-joined std (codes "--year") (codes "1999")
      (λ a v. parse_year_arg v >>= (λ x. inr (record a { year = some x }))) no_args
      (codes "a.mie" ∷ [])
      (
        refl,
        refl,
        ((λ e. omega arith), ((λ e. omega arith), ((λ e. omega arith), ((λ e. omega arith), tt)))),
      )
      refl refl

classify_decode_exit-from_decode_error_example :
    (classify_decode_exit (inl (MieError.homogeneous_payload "a.mie" 0 8)) 0 false).0
    ≡ from_decode_error (MieError.homogeneous_payload "a.mie" 0 8)
unfolding is_broken_pipe kind
classify_decode_exit-from_decode_error_example =
    classify_decode_exit-from_decode_error (MieError.homogeneous_payload "a.mie" 0 8) 0 false refl
      (λ e. cc) (λ e. cc)

-- The name `run. A1 .mie`.
abbrev fields : List (List ℕ)
fields = codes "run" ∷ codes " A1 " ∷ codes "mie" ∷ []

mux_from_filename-join_all_example :
    (mux_from_filename (join_all b'.' fields) (b'.' ∷ []) (pos 1) ≡ not_empty (trim (codes " A1 ")))
    × (mux_from_filename (join_all b'.' fields) (b'.' ∷ []) (negsuc 1)
        ≡ not_empty (trim (codes " A1 ")))
mux_from_filename-join_all_example =
    mux_from_filename-join_all b'.' (codes "run" ∷ []) (codes " A1 ") (codes "mie" ∷ []) (
      ((λ e. omega arith), ((λ e. omega arith), ((λ e. omega arith), tt))),
      (
        ((λ e. omega arith), ((λ e. omega arith), ((λ e. omega arith), ((λ e. omega arith), tt)))),
        (((λ e. omega arith), ((λ e. omega arith), ((λ e. omega arith), tt))), tt),
      ),
    )

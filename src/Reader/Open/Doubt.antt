-- ===== src/Reader/Open/Doubt.antt =====
-- When the probe of rust/src/reader.rs, `resolve_format_for_hit`, refuses a first record.
use mie_decoder.Common.{
  ℕ, ◌^◌, min, ◌≡◌, refl, ◌≢◌, ◌⊎◌, inl, inr, ◌&&◌, not, ◌-◌, ◌↔◌, if◌then◌else◌, if_intro, Bool,
  true, false, Option, none, some, arith,
}
use mie_decoder.Models.{TimestampFormat, format_eq}
use mie_decoder.Error.{MieError}
use mie_decoder.Decode.Probe.{DetectionConfidence, DetectionOutcome}
use mie_decoder.Reader.Open.{auto_error, is_decisive}

-- A strict decode refuses a first record whose probe contradicts the format.
abbrev pub IsMismatch : Option MieError → ℕ → Type 0
IsMismatch pending offset =
    (irig standard probed : ℕ) × (pending
      ≡ some (MieError.timestamp_format_mismatch offset irig standard probed))

-- The probe of the first record leaves the format open, or contradicts the one that was asked for.
abbrev pub IsDoubted : TimestampFormat → DetectionOutcome → Type 0
IsDoubted asked o =
    (asked ≡ TimestampFormat.auto) × (o.confidence ≡ DetectionConfidence.ambiguous)
    ⊎ (asked ≢ TimestampFormat.auto)
      × (o.confidence ≡ DetectionConfidence.decisive)
      × (o.format ≢ asked)

-- The error of a first record that is no pad: strict mode refuses a doubted format.
abbrev pub IsProbed : Bool → TimestampFormat → DetectionOutcome → ℕ → Option MieError → Type 0
IsProbed strict asked o offset pending =
    (pending ≡ none) × ¬ ((strict ≡ true) × IsDoubted asked o)
    ⊎ (strict ≡ true) × IsDoubted asked o × IsMismatch pending offset

IsProbed-auto :
    (strict : Bool) (o : DetectionOutcome) (offset : ℕ) (c : DetectionConfidence)
    → o.confidence ≡ c
    → IsProbed strict TimestampFormat.auto o offset (auto_error c strict offset o)
IsProbed-auto strict o offset DetectionConfidence.decisive e = inl (refl, λ d. ground (arith, d, e))
IsProbed-auto strict o offset DetectionConfidence.marginal e = inl (refl, λ d. ground (arith, d, e))
IsProbed-auto false o offset DetectionConfidence.ambiguous e = inl (refl, λ d. cc)
IsProbed-auto true o offset DetectionConfidence.ambiguous e =
    inr (refl, inl (refl, e), (_, _, _, refl))

format_eq_iff : (f g : TimestampFormat) → (format_eq f g ≡ true) ↔ (f ≡ g)
format_eq_iff f g = (λ h. ground arith, λ e. ground arith)

contradicts_iff :
    (asked : TimestampFormat) (o : DetectionOutcome)
    → ((is_decisive o.confidence && not (format_eq o.format asked)) ≡ true)
      ↔ (o.confidence ≡ DetectionConfidence.decisive) × (o.format ≢ asked)
contradicts_iff asked o =
    let same = format_eq_iff o.format asked in
    (λ h. ground (arith, same), λ h. ground (arith, same))

IsProbed-forced :
    (strict : Bool) (asked : TimestampFormat) (o : DetectionOutcome) (offset : ℕ)
    → asked ≢ TimestampFormat.auto
    → IsProbed strict asked o offset (
        if (is_decisive o.confidence && not (format_eq o.format asked)) && strict
        then some (
            MieError.timestamp_format_mismatch offset o.irig_score o.std_score
              (min o.records_probed (2 ^ 32 - 1)))
        else none)
IsProbed-forced strict asked o offset told_one =
    let k = contradicts_iff asked o in
    if_intro (IsProbed strict asked o offset)
      ((is_decisive o.confidence && not (format_eq o.format asked)) && strict) _ _
      (λ h.
        let strict_on : strict ≡ true = ground (arith, h) in
        let against = k.0 (ground (arith, h)) in
        inr (strict_on, inr (told_one, against.0, against.1), (_, _, _, refl)))
      (λ h. inl (
        refl,
        λ (on, doubt). elim doubt [
          | inl (is_auto, open_one) ↦ told_one is_auto
          | inr (not_auto, sure, other) ↦ absurd (ground (arith, h, on, k.1 (sure, other)))
        ],
      ))

abbrev pub probe_error :
    TimestampFormat → Bool → DetectionOutcome → ℕ → TimestampFormat × Option MieError
probe_error asked strict o offset =
    if format_eq asked TimestampFormat.auto
    then (o.format, auto_error o.confidence strict offset o)
    else (
      asked,
      if (is_decisive o.confidence && not (format_eq o.format asked)) && strict
          then some (
              MieError.timestamp_format_mismatch offset o.irig_score o.std_score
                (min o.records_probed (2 ^ 32 - 1)))
          else none,
    )

pub IsProbed-probe_error :
    (asked : TimestampFormat) (strict : Bool) (o : DetectionOutcome) (offset : ℕ)
    → IsProbed strict asked o offset (probe_error asked strict o offset).1
IsProbed-probe_error TimestampFormat.auto strict o offset =
    IsProbed-auto strict o offset o.confidence refl
IsProbed-probe_error TimestampFormat.irig strict o offset =
    IsProbed-forced strict TimestampFormat.irig o offset (λ e. cc)
IsProbed-probe_error TimestampFormat.standard strict o offset =
    IsProbed-forced strict TimestampFormat.standard o offset (λ e. cc)

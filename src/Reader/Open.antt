-- ===== src/Reader/Open.antt =====
-- rust/src/reader.rs, `MieFileReader`: from the bytes of a file to the iterator over its records. The
-- memory map is the list of the file's bytes.
pub mod Laws
pub mod Doubt
pub mod Begin
use Prim.Native.String.{String}
use mie_decoder.Common.{
  ℕ, ◌+◌, ◌-◌, ◌*◌, ◌^◌, min, Bool, true, false, ◌&&◌, not, Option, none, some, List, [], ◌∷◌,
  length, if◌then◌else◌,
}
use mie_decoder.Models.{TimestampFormat, format_eq}
use mie_decoder.Error.{MieError}
use mie_decoder.Delta.{new_tracker}
use mie_decoder.Decode.Read.{read_u16, is_terminator_type_word}
use mie_decoder.Decode.Fields.{decode_type_word}
use mie_decoder.Decode.Probe.{DetectionConfidence, DetectionOutcome, probe_timestamp_format}
use mie_decoder.Sync.Validate.{max_scan_bytes}
use mie_decoder.Sync.Scan.{ScanHit, find_first_record, diagnose_header_scan_failure}
use mie_decoder.Sync.Scan.Homogeneous.{is_homogeneous_payload, homogeneity_sample_records}
use mie_decoder.Reader.State.{RecordIter}
use mie_decoder.Reader.Payload.{or_zero}

pub record MieFileReader (F : Type 0) : Type 0 where
  pub path : String
  pub mmap : List ℕ
  pub file_size : ℕ
  pub strict : Bool
  pub input_time_format : TimestampFormat
  pub detect_records : ℕ
  pub lookahead_records : ℕ
  pub standard_tick_rate_hz : Option F
  pub mux : Option String
  pub sync_losses : ℕ
  pub empty_recording : Bool
  pub calendar_year : Option ℕ

abbrev explicit_or_irig : TimestampFormat → TimestampFormat
explicit_or_irig TimestampFormat.auto = TimestampFormat.irig
explicit_or_irig f = f

-- What a probe leads to under `Auto`; `offset` is the first record's.
abbrev pub auto_error : DetectionConfidence → Bool → ℕ → DetectionOutcome → Option MieError
auto_error DetectionConfidence.decisive strict offset o = none
auto_error DetectionConfidence.marginal strict offset o = none
auto_error DetectionConfidence.ambiguous strict offset o =
    if strict
    then some (
        MieError.timestamp_format_mismatch offset o.irig_score o.std_score
          (min o.records_probed (2 ^ 32 - 1)))
    else none

-- The record of a hit is long enough for `is_homogeneous_payload` not to panic (`hit-Sampled` of
-- Reader/Open/Begin.antt).
abbrev pub is_pad : Option Bool → Bool
is_pad none = false
is_pad (some b) = b

abbrev pub is_decisive : DetectionConfidence → Bool
is_decisive DetectionConfidence.decisive = true
is_decisive _ = false

-- `Some(FirstRecordTruncated)` in strict mode, a clean end in lenient mode.
abbrev pub truncated_first : Bool → ℕ × ℕ × ℕ → Bool × Option MieError
truncated_first strict (offset, record_bytes, available) =
    if strict
    then (false, some (MieError.first_record_truncated offset record_bytes available))
    else (true, none)

-- `Some(raw)` that is the terminator.
abbrev pub opens_on_terminator : Option ℕ → Bool
opens_on_terminator none = false
opens_on_terminator (some raw) = is_terminator_type_word raw

-- How a decode begins: the format, the offset, the flag of an empty recording, `early_done` and
-- the pending error.
pub record Start : Type 0 where
  pub format : TimestampFormat
  pub offset : ℕ
  pub empty : Bool
  pub early_done : Bool
  pub pending : Option MieError

module _ {F : Type 0} where
  unfoldable pub default_resolved_format : MieFileReader F → TimestampFormat
  default_resolved_format r = explicit_or_irig r.input_time_format

  unfoldable pub resolve_auto_format :
      MieFileReader F → List ℕ → ScanHit → TimestampFormat × Option MieError
  resolve_auto_format r buf hit =
      let outcome = probe_timestamp_format buf hit.offset r.detect_records in
      (outcome.format, auto_error outcome.confidence r.strict hit.offset outcome)

  unfoldable pub check_forced_format :
      MieFileReader F → List ℕ → ScanHit → TimestampFormat × Option MieError
  check_forced_format r buf hit =
      let outcome = probe_timestamp_format buf hit.offset r.detect_records in
      let contradicts =
        is_decisive outcome.confidence && not (format_eq outcome.format r.input_time_format) in
      (
        r.input_time_format,
        if contradicts && r.strict
            then some (
                MieError.timestamp_format_mismatch hit.offset outcome.irig_score outcome.std_score
                  (min outcome.records_probed (2 ^ 32 - 1)))
            else none,
      )

  unfoldable pub resolve_format_for_hit :
      MieFileReader F → List ℕ → ScanHit → TimestampFormat × Option MieError
  unfolding default_resolved_format resolve_auto_format check_forced_format
  resolve_format_for_hit r buf hit =
      let candidate_tw = decode_type_word (or_zero (read_u16 buf hit.offset)) in
      let candidate_record_bytes = candidate_tw.word_count * 2 in
      if is_pad (is_homogeneous_payload buf hit.offset candidate_record_bytes)
      then (
        default_resolved_format r,
        some (MieError.homogeneous_payload r.path hit.offset homogeneity_sample_records),
      )
      else if format_eq r.input_time_format TimestampFormat.auto
      then resolve_auto_format r buf hit
      else check_forced_format r buf hit

  abbrev pub failure_outcome : MieFileReader F → ℕ → Option (ℕ × ℕ × ℕ) → Bool × Option MieError
  failure_outcome r file_len none =
      (false, some (MieError.no_valid_records r.path (min file_len max_scan_bytes)))
  failure_outcome r file_len (some found) = truncated_first r.strict found

  -- The flag `empty_recording`, `early_done` and the pending error.
  unfoldable pub diagnose_no_records :
      MieFileReader F → List ℕ → ℕ → Option TimestampFormat → Bool × Bool × Option MieError
  diagnose_no_records r buf file_len format_hint =
      let failure = diagnose_header_scan_failure buf file_len format_hint max_scan_bytes in
      let (early, error) = failure_outcome r file_len failure in
      if opens_on_terminator (read_u16 buf 0) then (true, true, none) else (false, early, error)

  abbrev pub start_at : MieFileReader F → Option TimestampFormat → Option ScanHit → Start
  start_at r hint (some hit) =
      let (format, error) = resolve_format_for_hit r r.mmap hit in
      record {
        format = format;
        offset = hit.offset;
        empty = false;
        early_done = false;
        pending = error;
      }
  start_at r hint none =
      let (empty, early, error) = diagnose_no_records r r.mmap (length r.mmap) hint in
      record {
        format = default_resolved_format r;
        offset = length r.mmap;
        empty = empty;
        early_done = early;
        pending = error;
      }

  -- `Auto` gives no hint.
  abbrev pub format_hint : MieFileReader F → Option TimestampFormat
  format_hint r =
      if format_eq r.input_time_format TimestampFormat.auto then none else some r.input_time_format

  unfoldable pub find_start : MieFileReader F → Start
  unfolding default_resolved_format resolve_format_for_hit diagnose_no_records
  find_start r =
      start_at r (format_hint r) (
        find_first_record r.mmap (length r.mmap) (format_hint r) max_scan_bytes r.lookahead_records)

  -- The reader with its counters reset, and the iterator.
  unfoldable pub iter : MieFileReader F → MieFileReader F × RecordIter F
  unfolding find_start
  iter r =
      let start = find_start r in
      (
        record r { sync_losses = 0; empty_recording = start.empty },
        record {
          bytes = r.mmap;
          file_len = length r.mmap;
          offset = start.offset;
          done = start.early_done;
          pending_error = start.pending;
          pending_unrecoverable = none;
          strict = r.strict;
          resolved_format = start.format;
          lookahead_records = r.lookahead_records;
          prev_was_error = false;
          delta_tracker = new_tracker r.standard_tick_rate_hz;
          warned_irig_day = false;
          msg_count = 0;
          sync_losses = 0;
          sync_losses_atomic = 0;
          mux = r.mux;
          calendar_year = r.calendar_year;
          last_irig_day = none;
          warned_day_rollover = false;
        },
      )

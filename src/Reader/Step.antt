-- ===== src/Reader/Step.antt =====
-- rust/src/reader.rs: one step of the iterator, `decode_one`, and the branches that it ends in.
use mie_decoder.Common.{
  ℕ, ◌+◌, ◌-◌, ◌*◌, Bool, true, false, ◌&&◌, ◌||◌, not, Option, none, some, ltb, if◌then◌else◌,
  take,
}
use mie_decoder.Models.{
  MessageFormat, TimestampFormat, TypeWord, CommandWord, is_known_ddc_error_code,
  error_spurious_continuation, error_spurious_standalone,
}
use mie_decoder.Models.DataWords
use mie_decoder.Models.DataWords.{DataWords}
use mie_decoder.Models.Timestamp.{Timestamp}
use mie_decoder.Models.Message.{MieMessage, Item, ok, err}
use mie_decoder.Error.{MieError}
use mie_decoder.Decode.Read.{read_u16}
use mie_decoder.Decode.Fields.{decode_irig_timestamp, decode_standard_timestamp}
use mie_decoder.Decode.Classify.{classify_message_format}
use mie_decoder.Sync.Validate.{ValidationFailure, max_scan_bytes}
use mie_decoder.Sync.Scan.{recover_sync}
use mie_decoder.Reader.State.{RecordIter, Step, continue, yield, stop}
use mie_decoder.Reader.Payload.{read_n}

-- The error of strict mode for a record that fails validation.
unfoldable pub strict_error : ValidationFailure → ℕ → ℕ → TypeWord → ℕ → ℕ → MieError
strict_error ValidationFailure.unknown_message_type offset type_raw tw record_bytes file_len =
    MieError.unknown_type_word offset type_raw tw.message_type
strict_error ValidationFailure.invalid_word_count offset type_raw tw record_bytes file_len =
    MieError.invalid_type_word offset type_raw tw.word_count
strict_error ValidationFailure.record_truncated offset type_raw tw record_bytes file_len =
    MieError.record_truncated offset record_bytes (file_len - offset)
strict_error _ offset type_raw tw record_bytes file_len = MieError.payload_error offset

-- The day tracking of `decode_timestamp_at`, which only warnings depend on.
abbrev steps_day_back : Option ℕ → ℕ → Bool
steps_day_back none day = false
steps_day_back (some previous) day = ltb day previous

abbrev is_some_year : Option ℕ → Bool
is_some_year none = false
is_some_year (some y) = true

abbrev format_or_receive : Option MessageFormat → MessageFormat
format_or_receive none = MessageFormat.receive
format_or_receive (some f) = f

module _ {F : Type 0} where
  unfoldable pub handle_sync_loss :
      RecordIter F → ValidationFailure → ℕ → TypeWord → ℕ → RecordIter F × Step F
  unfolding strict_error
  handle_sync_loss s failure type_raw tw record_bytes =
      let s' = record s {
        sync_losses = s.sync_losses + 1;
        sync_losses_atomic = s.sync_losses_atomic + 1;
      } in
      let recovery =
        recover_sync s.bytes s.offset s.file_len (some s.resolved_format) max_scan_bytes
          s.lookahead_records in
      if s.strict
      then (
        record s' { done = true },
        yield (err (strict_error failure s.offset type_raw tw record_bytes s.file_len)),
      )
      else elim recovery [
        | some hit ↦ (record s' { offset = hit.offset; prev_was_error = false }, continue)
        | none ↦
            if ltb (s.file_len - s.offset) max_scan_bytes
            then (record s' { done = true }, stop)
            else (
              record s' { done = true },
              yield (err (MieError.unrecoverable_sync_loss s.offset (s.sync_losses + 1))),
            )
      ]

  -- `advisory` is the global switch `crate::log::irig_day_advisory()`.
  unfoldable pub note_irig_day : Bool → RecordIter F → ℕ → Bool → RecordIter F
  note_irig_day advisory s day freerun =
      let tracked = is_some_year s.calendar_year && not freerun in
      record s {
        warned_day_rollover =
            s.warned_day_rollover || tracked && steps_day_back s.last_irig_day day;
        last_irig_day = if tracked then some day else s.last_irig_day;
        warned_irig_day = s.warned_irig_day || not freerun && advisory;
      }

  -- The three words of an IRIG timestamp, each read only if the one before it is there.
  abbrev irig_at :
      Bool → RecordIter F → Option ℕ → Option ℕ → Option ℕ → RecordIter F × Option Timestamp
  irig_at advisory s none middle lower = (s, none)
  irig_at advisory s (some upper) none lower = (s, none)
  irig_at advisory s (some upper) (some middle) none = (s, none)
  irig_at advisory s (some upper) (some middle) (some lower) =
      let t = decode_irig_timestamp upper middle lower in
      (note_irig_day advisory s t.day t.freerun, some (Timestamp.irig t))

  abbrev standard_at : RecordIter F → Option ℕ → Option ℕ → RecordIter F × Option Timestamp
  standard_at s none lower = (s, none)
  standard_at s (some upper) none = (s, none)
  standard_at s (some upper) (some lower) =
      (s, some (Timestamp.standard (decode_standard_timestamp upper lower)))

  abbrev irig_read : Bool → RecordIter F → RecordIter F × Option Timestamp
  irig_read advisory s =
      irig_at advisory s (read_u16 s.bytes (s.offset + 2)) (read_u16 s.bytes (s.offset + 4))
        (read_u16 s.bytes (s.offset + 6))

  unfoldable pub decode_timestamp_at :
      Bool → RecordIter F → TimestampFormat → RecordIter F × Option Timestamp
  unfolding note_irig_day
  decode_timestamp_at advisory s TimestampFormat.standard =
      standard_at s (read_u16 s.bytes (s.offset + 2)) (read_u16 s.bytes (s.offset + 4))
  decode_timestamp_at advisory s TimestampFormat.irig = irig_read advisory s
  decode_timestamp_at advisory s TimestampFormat.auto = irig_read advisory s

  unfoldable pub advance_after_yield : RecordIter F → ℕ → RecordIter F
  advance_after_yield s record_bytes = record s {
    offset = s.offset + record_bytes;
    msg_count = s.msg_count + 1;
  }

  -- `raw_word_count` is an `i32`, and tested for `> 0`: at 0, as below it, no word is read.
  unfoldable pub spurious_message :
      RecordIter F → TypeWord → Timestamp → ℕ → ℕ → ℕ → RecordIter F × MieMessage F
  unfolding advance_after_yield
  spurious_message s tw timestamp ts_words cmd_byte_offset record_bytes =
      let raw_word_count = tw.word_count - 1 - ts_words in
      let record_data = take (s.offset + record_bytes) s.bytes in
      (
        record (advance_after_yield s record_bytes) { prev_was_error = false },
        record {
          timestamp = timestamp;
          type_word = tw;
          message_format = MessageFormat.spurious_data;
          command_word = none;
          command_word_2 = none;
          status_word = none;
          status_word_2 = none;
          data_words =
              if ltb 0 raw_word_count
              then read_n record_data cmd_byte_offset raw_word_count
              else DataWords.new;
          error_word =
              some (
                if s.prev_was_error
                then error_spurious_continuation
                else error_spurious_standalone);
          delta = none;
          file_offset = s.offset;
          mux = s.mux;
        },
      )

  unfoldable pub decode_error_record :
      RecordIter F → TypeWord → Timestamp → CommandWord → ℕ → ℕ → Option F → Item F MieError
  decode_error_record s tw timestamp cmd cmd_byte_offset ts_words delta =
      let payload_words = tw.word_count - 1 - ts_words - 1 - 1 in
      let record_data = take (s.offset + tw.word_count * 2) s.bytes in
      elim (read_u16 s.bytes (s.offset + (tw.word_count - 1) * 2)) [
        | none ↦ err (MieError.payload_error s.offset)
        | some error_code ↦
            if not (is_known_ddc_error_code error_code) && s.strict
            then err (MieError.unknown_error_code s.offset error_code)
            else ok (record {
              timestamp = timestamp;
              type_word = tw;
              message_format =
                  format_or_receive
                    (classify_message_format tw.message_type cmd tw.word_count ts_words);
              command_word = some cmd;
              command_word_2 = none;
              status_word = none;
              status_word_2 = none;
              data_words =
                  if ltb 0 payload_words
                  then read_n record_data (cmd_byte_offset + 2) payload_words
                  else DataWords.new;
              error_word = some error_code;
              delta = delta;
              file_offset = s.offset;
              mux = s.mux;
            })
      ]

  -- A record that is left out in lenient mode, and ends the decode in strict mode.
  abbrev pub reject : RecordIter F → ℕ → RecordIter F × Step F
  reject s record_bytes =
      if s.strict
      then (record s { done = true }, yield (err (MieError.payload_error s.offset)))
      else (record s { offset = s.offset + record_bytes; prev_was_error = false }, continue)

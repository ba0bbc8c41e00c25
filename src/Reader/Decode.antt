-- ===== src/Reader/Decode.antt =====
-- rust/src/reader.rs: `decode_one`, and the loop of `next` around it.
use mie_decoder.Common.{
  ℕ, zero, suc, ◌+◌, ◌*◌, Bool, true, false, Option, none, some, ltb, ◌==◌, if◌then◌else◌, take,
}
use mie_decoder.Models.{
  MessageType, type_code, MessageFormat, timestamp_word_count, TypeWord, CommandWord,
}
use mie_decoder.Models.Timestamp.{Timestamp, Floats}
use mie_decoder.Models.Message.{Item, ok, err}
use mie_decoder.Error.{MieError}
use mie_decoder.Delta.{observe, value}
use mie_decoder.Decode.Read.{read_u16, is_terminator_type_word, min_record_bytes_standard}
use mie_decoder.Decode.Fields.{decode_type_word, decode_command_word}
use mie_decoder.Decode.Classify.{classify_message_format}
use mie_decoder.Decode.Invariants.{
  InvariantViolation, validate_structural_invariants, validate_post_extract_invariants,
}
use mie_decoder.Sync.Validate.{validate_record_detailed}
use mie_decoder.Reader.State.{RecordIter, Step, continue, yield, stop}
use mie_decoder.Reader.Payload.{extract_payload, Payload}
use mie_decoder.Reader.Step.{
  handle_sync_loss, decode_timestamp_at, advance_after_yield, spurious_message, decode_error_record,
  reject,
}

-- What a call of `next` returns; `exhausted` is no value of the source: the fuel ran out.
pub data Answer (F : Type 0) : Type 0 where
  item : Item F MieError → Answer F
  end exhausted : Answer F

module _ (fl : Floats) where
  open fl use {F}

  -- The tracker sees every errored record and every record that is emitted.
  unfoldable pub delta_for : RecordIter F → CommandWord → Timestamp → RecordIter F × Option F
  delta_for s cmd timestamp =
      let (tracker, outcome) = observe fl s.delta_tracker (some cmd) timestamp in
      (record s { delta_tracker = tracker }, value fl outcome)

  -- The last part of `decode_normal_record`: the record passed every check.
  unfoldable pub emit_normal :
      RecordIter F
      → TypeWord
      → CommandWord
      → Timestamp
      → MessageFormat
      → Payload
      → ℕ
      → RecordIter F × Step F
  unfolding delta_for advance_after_yield
  emit_normal s tw cmd timestamp msg_fmt payload record_bytes =
      let (s', delta) = delta_for s cmd timestamp in
      (
        record (advance_after_yield s' record_bytes) { prev_was_error = false },
        yield (
            ok (record {
              timestamp = timestamp;
              type_word = tw;
              message_format = msg_fmt;
              command_word = some cmd;
              command_word_2 = payload.command_word_2;
              status_word = payload.status_word;
              status_word_2 = payload.status_word_2;
              data_words = payload.data_words;
              error_word = none;
              delta = delta;
              file_offset = s.offset;
              mux = s.mux;
            })),
      )

  -- The two checks, before and after extraction, and what follows them.
  abbrev pub check_and_emit :
      RecordIter F
      → TypeWord
      → CommandWord
      → Timestamp
      → MessageFormat
      → Payload
      → ℕ
      → Option InvariantViolation
      → Option InvariantViolation
      → RecordIter F × Step F
  check_and_emit s tw cmd timestamp msg_fmt payload record_bytes (some v) w = reject s record_bytes
  check_and_emit s tw cmd timestamp msg_fmt payload record_bytes none (some w) =
      reject s record_bytes
  check_and_emit s tw cmd timestamp msg_fmt payload record_bytes none none =
      emit_normal s tw cmd timestamp msg_fmt payload record_bytes

  unfoldable pub decode_normal_record :
      RecordIter F → TypeWord → CommandWord → Timestamp → ℕ → ℕ → ℕ → RecordIter F × Step F
  unfolding emit_normal
  decode_normal_record s tw cmd timestamp ts_words cmd_byte_offset record_bytes =
      elim (classify_message_format tw.message_type cmd tw.word_count ts_words) [
        | none ↦ (record s { offset = s.offset + record_bytes; prev_was_error = false }, continue)
        | some msg_fmt ↦
            let record_data = take (s.offset + record_bytes) s.bytes in
            let payload = extract_payload record_data (cmd_byte_offset + 2) msg_fmt cmd in
            check_and_emit s tw cmd timestamp msg_fmt payload record_bytes
              (validate_structural_invariants tw cmd msg_fmt ts_words)
              (validate_post_extract_invariants msg_fmt cmd payload.command_word_2)
      ]

  -- A failure ends the decode.
  unfoldable pub settle_error_record : RecordIter F → Item F MieError → ℕ → RecordIter F × Step F
  unfolding advance_after_yield
  settle_error_record s (err e) record_bytes = (record s { done = true }, yield (err e))
  settle_error_record s (ok msg) record_bytes =
      (record (advance_after_yield s record_bytes) { prev_was_error = true }, yield (ok msg))

  -- A record with a Command Word.
  unfoldable pub decode_command_record :
      RecordIter F → TypeWord → CommandWord → Timestamp → ℕ → ℕ → ℕ → RecordIter F × Step F
  unfolding decode_normal_record settle_error_record delta_for
  decode_command_record s tw cmd timestamp ts_words cmd_byte_offset record_bytes =
      let (s', delta) = delta_for s cmd timestamp in
      if tw.error
      then settle_error_record s'
          (decode_error_record s' tw timestamp cmd cmd_byte_offset ts_words delta) record_bytes
      else decode_normal_record s tw cmd timestamp ts_words cmd_byte_offset record_bytes

  -- What follows the timestamp.
  unfoldable pub decode_body : RecordIter F → TypeWord → Timestamp → RecordIter F × Step F
  unfolding decode_command_record
  decode_body s tw timestamp =
      let ts_words = timestamp_word_count s.resolved_format in
      let record_bytes = tw.word_count * 2 in
      let cmd_byte_offset = s.offset + 2 + ts_words * 2 in
      let (spurious, msg) = spurious_message s tw timestamp ts_words cmd_byte_offset record_bytes in
      if tw.message_type == type_code MessageType.spurious_data
      then (spurious, yield (ok msg))
      else elim (read_u16 s.bytes cmd_byte_offset) [
        | none ↦ (record s { done = true }, stop)
        | some cmd_raw ↦
            decode_command_record s tw (decode_command_word cmd_raw) timestamp ts_words
              cmd_byte_offset record_bytes
      ]

  -- An unreadable timestamp stops without setting `done`.
  unfoldable pub decode_timed : RecordIter F → TypeWord → Option Timestamp → RecordIter F × Step F
  unfolding decode_body
  decode_timed s tw none = (s, stop)
  decode_timed s tw (some timestamp) = decode_body s tw timestamp

  -- A record that passed validation.
  unfoldable pub decode_validated : Bool → RecordIter F → TypeWord → RecordIter F × Step F
  unfolding decode_timed
  decode_validated advisory s tw =
      let (s', timestamp) = decode_timestamp_at advisory s s.resolved_format in
      decode_timed s' tw timestamp

  -- From the Type Word on.
  unfoldable pub decode_typed : Bool → RecordIter F → ℕ → RecordIter F × Step F
  unfolding decode_validated
  decode_typed advisory s type_raw =
      let tw = decode_type_word type_raw in
      let checked =
        validate_record_detailed s.bytes s.offset s.file_len (some s.resolved_format) 1 in
      if is_terminator_type_word type_raw then (record s { done = true }, stop) else elim checked [
        | some failure ↦ handle_sync_loss s failure type_raw tw (tw.word_count * 2)
        | none ↦ decode_validated advisory s tw
      ]

  unfoldable pub decode_one : Bool → RecordIter F → RecordIter F × Step F
  unfolding decode_typed
  decode_one advisory s =
      if ltb s.file_len (s.offset + min_record_bytes_standard)
      then (record s { done = true }, stop)
      else elim (read_u16 s.bytes s.offset) [
        | none ↦ (record s { done = true }, stop)
        | some type_raw ↦ decode_typed advisory s type_raw
      ]

  -- The `match` on a step, `more` being the next round.
  abbrev pub follow :
      (RecordIter F → RecordIter F × Answer F) → RecordIter F × Step F → RecordIter F × Answer F
  follow more (s, continue) = more s
  follow more (s, yield i) = (s, item i)
  follow more (s, stop) = (s, end)

  -- The `loop` of `next`.
  unfoldable pub next_loop : ℕ → Bool → RecordIter F → RecordIter F × Answer F
  next_loop zero advisory s = (s, exhausted)
  next_loop (suc fuel) advisory s = follow (next_loop fuel advisory) (decode_one advisory s)

  -- Every round that continues moves the offset forward, so that `file_len + 1` rounds are enough.
  unfoldable pub next : Bool → RecordIter F → RecordIter F × Answer F
  unfolding next_loop
  next advisory s =
      let run = next_loop (s.file_len + 1) advisory s in
      if s.done then (s, end) else elim (s.pending_error) [
        | some e ↦ (record s { done = true; pending_error = none }, item (err e))
        | none ↦ elim (s.pending_unrecoverable) [
          | some e ↦ (record s { done = true; pending_unrecoverable = none }, item (err e))
          | none ↦ run
        ]
      ]

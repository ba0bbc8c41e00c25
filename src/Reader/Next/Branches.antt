-- ===== src/Reader/Next/Branches.antt =====
-- The branches of `decode_one` in rust/src/reader.rs make progress.
use mie_decoder.Common.{
  ℕ, ◌+◌, ◌-◌, ◌*◌, ◌≤◌, ◌<◌, ◌≡◌, refl, inl, inr, true, false, Option, none, some, arith,
  Option-cases, if_intro, take, length-take,
}
use mie_decoder.Decode.Classify.Laws.{classify-is_valid}
use mie_decoder.Models.{
  is_valid_message_type, MessageFormat, timestamp_word_count, TypeWord, CommandWord,
}
use mie_decoder.Models.Timestamp.{Timestamp, Floats}
use mie_decoder.Models.Message.{MieMessage, Item, ok, err}
use mie_decoder.Error.{MieError, is_record_error}
use mie_decoder.Decode.Read.{read_u16}
use mie_decoder.Decode.Fields.{decode_command_word}
use mie_decoder.Decode.Classify.{classify_message_format}
use mie_decoder.Sync.Validate.{min_word_count}
use mie_decoder.Reader.State.{RecordIter, yield}
use mie_decoder.Reader.Payload.{extract_payload, Payload}
use mie_decoder.Reader.Step.{spurious_message, decode_error_record}
use mie_decoder.Reader.Decode.{
  delta_for, emit_normal, check_and_emit, decode_normal_record, settle_error_record,
  decode_command_record, decode_body,
}
use mie_decoder.Decode.Invariants.{
  InvariantViolation, validate_structural_invariants, validate_post_extract_invariants,
}
use mie_decoder.Decode.Invariants.Laws.{validate_structural_iff}
use mie_decoder.Reader.Payload.Complete.{IsComplete, extract_payload-IsComplete}
use mie_decoder.Reader.Next.{IsOpen, Progress, is_spurious_type}
use mie_decoder.Reader.Next.Resync.{SamePlace}

module _ (fl : Floats) where
  open fl use {F}

  -- What validation has established of the record at the offset.
  pub record Fits (s : RecordIter F) (tw : TypeWord) : Type 0 where
    pub inside : s.offset + tw.word_count * 2 ≤ s.file_len
    pub least : min_word_count (some s.resolved_format) ≤ tw.word_count
    pub known : is_valid_message_type tw.message_type ≡ true

  pub emit_normal-Progress :
      (s : RecordIter F) (tw : TypeWord) (cmd : CommandWord) (t : Timestamp) (fmt : MessageFormat)
      (p : Payload)
      → Fits s tw
      → 0 < tw.word_count
      → tw.error ≡ false
      → IsComplete fmt cmd p
      → Progress s (emit_normal fl s tw cmd t fmt p (tw.word_count * 2))
  unfolding emit_normal
  emit_normal-Progress s tw cmd t fmt p fits pos clean complete = (
    ground arith,
    (omega arith, refl, refl, ground arith, fits.inside, refl, refl, λ e n. complete),
  )

  -- The checks leave room for the whole payload.
  accepted-IsComplete :
      (s : RecordIter F) (tw : TypeWord) (cmd : CommandWord) (fmt : MessageFormat) (ts : ℕ)
      → IsOpen s
      → Fits s tw
      → cmd.data_word_count ≤ 32
      → let p =
          extract_payload
            (take (s.offset + tw.word_count * 2) s.bytes)
            (s.offset + 2 + ts * 2 + 2)
            fmt
            cmd in
        validate_structural_invariants tw cmd fmt ts ≡ none
        → validate_post_extract_invariants fmt cmd p.command_word_2 ≡ none
        → IsComplete fmt cmd p
  accepted-IsComplete s tw cmd fmt ts open_ fits small structural post =
      let room = ((validate_structural_iff tw cmd fmt ts).0 structural).capacity in
      extract_payload-IsComplete (take (s.offset + tw.word_count * 2) s.bytes)
        (s.offset + 2 + ts * 2 + 2) fmt cmd small
        (omega (
          arith,
          room,
          fits.inside,
          open_.whole,
          length-take (s.offset + tw.word_count * 2) s.bytes,
        ))
        post

  -- The two checks of a classified record.
  checked-Progress :
      (s : RecordIter F) (tw : TypeWord) (cmd : CommandWord) (t : Timestamp) (fmt : MessageFormat)
      (p : Payload) (v w : Option InvariantViolation)
      → Fits s tw
      → 0 < tw.word_count
      → tw.error ≡ false
      → (v ≡ none → w ≡ none → IsComplete fmt cmd p)
      → Progress s (check_and_emit fl s tw cmd t fmt p (tw.word_count * 2) v w)
  unfolding is_record_error
  checked-Progress s tw cmd t fmt p (some v) w fits pos clean c = ground arith
  checked-Progress s tw cmd t fmt p none (some w) fits pos clean c = ground arith
  checked-Progress s tw cmd t fmt p none none fits pos clean c =
      emit_normal-Progress s tw cmd t fmt p fits pos clean (c refl refl)

  pub decode_normal-Progress :
      (s : RecordIter F) (tw : TypeWord) (cmd : CommandWord) (t : Timestamp) (ts : ℕ)
      → IsOpen s
      → Fits s tw
      → 0 < tw.word_count
      → tw.error ≡ false
      → cmd.data_word_count ≤ 32
      → Progress s
          (decode_normal_record fl s tw cmd t ts (s.offset + 2 + ts * 2) (tw.word_count * 2))
  unfolding decode_normal_record
  decode_normal-Progress s tw cmd t ts open_ fits pos clean small =
      elim (Option-cases (classify_message_format tw.message_type cmd tw.word_count ts)) [
        | inl unknown ↦ absurd (
            ground (
              arith,
              fits.known,
              (classify-is_valid tw.message_type cmd tw.word_count ts).1 unknown,
            ))
        | inr (fmt, known) ↦
            let p =
              extract_payload (take (s.offset + tw.word_count * 2) s.bytes)
                (s.offset + 2 + ts * 2 + 2) fmt cmd in
            rw (decode_normal_record, known)
              (checked-Progress s tw cmd t fmt p (validate_structural_invariants tw cmd fmt ts)
                (validate_post_extract_invariants fmt cmd p.command_word_2) fits pos clean
                (accepted-IsComplete s tw cmd fmt ts open_ fits small))
      ]

  -- The items of an errored record.
  error_item :
      (s : RecordIter F) (tw : TypeWord) (t : Timestamp) (cmd : CommandWord) (off ts : ℕ)
      (delta : Option F) (msg : MieMessage F)
      → decode_error_record s tw t cmd off ts delta ≡ ok msg
      → (msg.file_offset ≡ s.offset) × (msg.type_word ≡ tw)
  unfolding decode_error_record
  error_item s tw t cmd off ts delta msg e =
      elim (Option-cases (read_u16 s.bytes (s.offset + (tw.word_count - 1) * 2))) [
        | inl unread ↦ ground (arith, unread)
        | inr (code, read) ↦ ground (arith, read)
      ]

  error_failure :
      (s : RecordIter F) (tw : TypeWord) (t : Timestamp) (cmd : CommandWord) (off ts : ℕ)
      (delta : Option F) (e : MieError)
      → decode_error_record s tw t cmd off ts delta ≡ err e
      → is_record_error e ≡ true
  unfolding decode_error_record is_record_error
  error_failure s tw t cmd off ts delta e h =
      elim (Option-cases (read_u16 s.bytes (s.offset + (tw.word_count - 1) * 2))) [
        | inl unread ↦ ground (arith, unread)
        | inr (code, read) ↦ ground (arith, read)
      ]

  pub settle-Progress :
      (s s' : RecordIter F) (tw : TypeWord) (i : Item F MieError)
      → Fits s tw
      → 0 < tw.word_count
      → tw.error ≡ true
      → is_spurious_type tw ≡ false
      → SamePlace s s'
      → ((msg : MieMessage F) → i ≡ ok msg → (msg.file_offset ≡ s'.offset) × (msg.type_word ≡ tw))
      → ((e : MieError) → i ≡ err e → is_record_error e ≡ true)
      → Progress s (settle_error_record fl s' i (tw.word_count * 2))
  unfolding settle_error_record
  settle-Progress s s' tw (err e) fits pos errored plain same shape failure =
      ground (arith, failure e refl)
  settle-Progress s s' tw (ok msg) fits pos errored plain same shape failure =
      let (at, word) = shape msg refl in ground arith

  pub delta_for-SamePlace :
      (s : RecordIter F) (cmd : CommandWord) (t : Timestamp) → SamePlace s (delta_for fl s cmd t).0
  unfolding delta_for
  delta_for-SamePlace s cmd t = ground arith

  pub decode_command-Progress :
      (s : RecordIter F) (tw : TypeWord) (cmd : CommandWord) (t : Timestamp) (ts : ℕ)
      → IsOpen s
      → Fits s tw
      → 0 < tw.word_count
      → is_spurious_type tw ≡ false
      → cmd.data_word_count ≤ 32
      → Progress s
          (decode_command_record fl s tw cmd t ts (s.offset + 2 + ts * 2) (tw.word_count * 2))
  unfolding decode_command_record
  decode_command-Progress s tw cmd t ts open_ fits pos plain small =
      let off = s.offset + 2 + ts * 2 in
      let s' = (delta_for fl s cmd t).0 in
      let delta = (delta_for fl s cmd t).1 in
      if_intro (Progress s) tw.error _ _
        (λ errored.
          settle-Progress s s' tw (decode_error_record s' tw t cmd off ts delta) fits pos errored
            plain (delta_for-SamePlace s cmd t) (error_item s' tw t cmd off ts delta)
            (error_failure s' tw t cmd off ts delta))
        (λ clean. decode_normal-Progress s tw cmd t ts open_ fits pos clean small)

  pub spurious-Progress :
      (s : RecordIter F) (tw : TypeWord) (t : Timestamp) (ts off : ℕ)
      → Fits s tw
      → 0 < tw.word_count
      → is_spurious_type tw ≡ true
      → let (s', msg) = spurious_message s tw t ts off (tw.word_count * 2) in
        Progress s (s', yield (ok msg))
  unfolding spurious_message
  spurious-Progress s tw t ts off fits pos spurious = ground arith

  data_word_count-le : (raw : ℕ) → (decode_command_word raw).data_word_count ≤ 32
  unfolding decode_command_word
  data_word_count-le raw = ground arith

  pub decode_body-Progress :
      (s : RecordIter F) (tw : TypeWord) (t : Timestamp)
      → IsOpen s
      → Fits s tw
      → 0 < tw.word_count
      → Progress s (decode_body fl s tw t)
  unfolding decode_body
  decode_body-Progress s tw t open_ fits pos =
      let ts = timestamp_word_count s.resolved_format in
      let off = s.offset + 2 + ts * 2 in
      if_intro (Progress s) (is_spurious_type tw) _ _ (spurious-Progress s tw t ts off fits pos)
        (λ plain. elim (Option-cases (read_u16 s.bytes off)) [
          | inl unread ↦ ground (arith, unread)
          | inr (raw, read) ↦ rw read (
              decode_command-Progress s tw (decode_command_word raw) t ts open_ fits pos plain
                (data_word_count-le raw))
        ])

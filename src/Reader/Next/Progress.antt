-- ===== src/Reader/Next/Progress.antt =====
-- `decode_one` of rust/src/reader.rs makes progress.
use mie_decoder.Common.{
  ℕ, ◌+◌, ◌*◌, ◌≤◌, ◌<◌, ◌≡◌, inl, inr, Bool, true, Option, none, some, arith, ltb, Option-cases,
  if_intro,
}
use mie_decoder.Models.{TimestampFormat, TypeWord}
use mie_decoder.Models.Timestamp.{Timestamp, Floats}
use mie_decoder.Models.Message.{ok, err}
use mie_decoder.Decode.Read.{read_u16, is_terminator_type_word}
use mie_decoder.Decode.Fields.{decode_type_word}
use mie_decoder.Sync.Validate.{validate_record_detailed, min_word_count}
use mie_decoder.Sync.Validate.Accept.{accepted-IsFramed}
use mie_decoder.Reader.State.{RecordIter, Step, continue, yield, stop}
use mie_decoder.Reader.Step.{decode_timestamp_at}
use mie_decoder.Reader.Decode.{decode_timed, decode_validated, decode_typed, decode_one}
use mie_decoder.Reader.Next.Resync.{
  handle_sync_loss-Progress, SamePlace, decode_timestamp_at-SamePlace,
}
use mie_decoder.Reader.Next.Branches.{Fits, decode_body-Progress}
use mie_decoder.Models.{is_valid_message_type}
use mie_decoder.Reader.Next.{IsOpen, Progress}

module _ (fl : Floats) where
  open fl use {F}

  -- The state that reading the timestamp leaves makes the same progress.
  SamePlace-Progress :
      (s s' : RecordIter F) (r : RecordIter F × Step F)
      → SamePlace s s'
      → Progress s' r
      → Progress s r
  SamePlace-Progress s s' (r, continue) same p = ground arith
  SamePlace-Progress s s' (r, yield (ok msg)) same p = ground arith
  SamePlace-Progress s s' (r, yield (err e)) same p = ground arith
  SamePlace-Progress s s' (r, stop) same p = ground arith

  decode_timed-Progress :
      (s s' : RecordIter F) (tw : TypeWord) (o : Option Timestamp) (t : Timestamp)
      → SamePlace s s'
      → IsOpen s'
      → Fits fl s' tw
      → 0 < tw.word_count
      → o ≡ some t
      → Progress s (decode_timed fl s' tw o)
  unfolding decode_timed
  decode_timed-Progress s s' tw none t same open_ fits pos e = absurd (ground arith)
  decode_timed-Progress s s' tw (some ts) t same open_ fits pos e =
      SamePlace-Progress s s' _ same (decode_body-Progress fl s' tw ts open_ fits pos)

  min_word_count-ge : (fmt : TimestampFormat) → 4 ≤ min_word_count (some fmt)
  min_word_count-ge TimestampFormat.auto = omega arith
  min_word_count-ge TimestampFormat.irig = omega arith
  min_word_count-ge TimestampFormat.standard = omega arith

  SamePlace-Fits :
      (s s' : RecordIter F) (tw : TypeWord) → SamePlace s s' → Fits fl s tw → Fits fl s' tw
  SamePlace-Fits s s' tw same fits = ground arith

  SamePlace-IsOpen : (s s' : RecordIter F) → SamePlace s s' → IsOpen s → IsOpen s'
  SamePlace-IsOpen s s' same whole = ground arith

  decode_validated-Progress :
      (advisory : Bool) (s : RecordIter F) (tw : TypeWord)
      → IsOpen s
      → Fits fl s tw
      → Progress s (decode_validated fl advisory s tw)
  unfolding decode_validated
  decode_validated-Progress advisory s tw whole fits =
      let least = min_word_count-ge s.resolved_format in
      let timed =
        decode_timestamp_at-SamePlace advisory s s.resolved_format (omega (arith, fits, whole)) in
      decode_timed-Progress s (decode_timestamp_at advisory s s.resolved_format).0 tw
        (decode_timestamp_at advisory s s.resolved_format).1 timed.1.0 timed.0
        (SamePlace-IsOpen s _ timed.0 whole) (SamePlace-Fits s _ tw timed.0 fits)
        (omega (arith, fits, least)) timed.1.1

  validated-Fits :
      (s : RecordIter F) (raw : ℕ)
      → read_u16 s.bytes s.offset ≡ some raw
      → validate_record_detailed s.bytes s.offset s.file_len (some s.resolved_format) 1 ≡ none
      → Fits fl s (decode_type_word raw)
  unfolding validate_record_detailed
  validated-Fits s raw read valid =
      let (raw', framed) =
        accepted-IsFramed s.bytes s.offset s.file_len (some s.resolved_format) 1 true valid in
      let same : raw ≡ raw' = cc (read, framed.read) in
      let inside : s.offset + (decode_type_word raw).word_count * 2 ≤ s.file_len =
        rw same framed.fits in
      let least : min_word_count (some s.resolved_format) ≤ (decode_type_word raw).word_count =
        rw same framed.least in
      let known : is_valid_message_type (decode_type_word raw).message_type ≡ true =
        rw same framed.known in
      record { inside = inside; least = least; known = known }

  decode_typed-Progress :
      (advisory : Bool) (s : RecordIter F) (raw : ℕ)
      → IsOpen s
      → s.offset + 8 ≤ s.file_len
      → read_u16 s.bytes s.offset ≡ some raw
      → Progress s (decode_typed fl advisory s raw)
  unfolding decode_typed
  decode_typed-Progress advisory s raw whole room read =
      if_intro (Progress s) (is_terminator_type_word raw) _ _ (λ last. ground arith)
        (λ more.
          elim (Option-cases
            (validate_record_detailed s.bytes s.offset s.file_len (some s.resolved_format) 1)) [
              | inl valid ↦ rw valid (
                  decode_validated-Progress advisory s (decode_type_word raw) whole
                    (validated-Fits s raw read valid))
              | inr (failure, invalid) ↦ rw invalid (
                  handle_sync_loss-Progress s failure raw ((decode_type_word raw).word_count * 2)
                    (decode_type_word raw) (omega (arith, whole)))
            ])

  -- On an open file every step of the decoder goes on further into the file without emitting, which
  -- only a lenient decode does, or emits the record at its offset, with its whole payload unless it is
  -- errored or spurious, and goes on behind it, or ends the decode, with a record error if with any;
  -- the file, the mode and the format stay.
  pub decode_one-Progress :
      (advisory : Bool) (s : RecordIter F) → IsOpen s → Progress s (decode_one fl advisory s)
  unfolding decode_one
  decode_one-Progress advisory s whole =
      if_intro (Progress s) (ltb s.file_len (s.offset + 8)) _ _ (λ short. ground arith)
        (λ room. elim (Option-cases (read_u16 s.bytes s.offset)) [
          | inl unread ↦ ground (arith, unread)
          | inr (raw, read) ↦
              rw read (decode_typed-Progress advisory s raw whole (ground arith) read)
        ])

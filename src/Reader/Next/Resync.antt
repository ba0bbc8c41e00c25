-- ===== src/Reader/Next/Resync.antt =====
-- Sync loss and the reading of the timestamp, in rust/src/reader.rs, make progress.
use mie_decoder.Common.{
  true, ℕ, ◌+◌, ◌*◌, ◌^◌, ◌≤◌, ◌<◌, ◌≡◌, inl, inr, Bool, none, some, arith, Option-cases, length,
}
use mie_decoder.Models.{TimestampFormat, TypeWord}
use mie_decoder.Models.Timestamp.{Timestamp}
use mie_decoder.Decode.Read.{read_u16-some}
use mie_decoder.Decode.Fields.{decode_standard_timestamp, decode_irig_timestamp}
use mie_decoder.Sync.Validate.{ValidationFailure, max_scan_bytes, min_word_count}
use mie_decoder.Sync.Scan.{recover_sync, ScanHit}
use mie_decoder.Sync.Scan.Find.{recover_sync-Recovers}
use mie_decoder.Reader.State.{RecordIter}
use mie_decoder.Error.{is_record_error}
use mie_decoder.Reader.Step.{strict_error, handle_sync_loss, decode_timestamp_at}
use mie_decoder.Reader.Next.{Frame, Progress}

strict_error-record :
    (failure : ValidationFailure) (o raw : ℕ) (tw : TypeWord) (n len : ℕ)
    → is_record_error (strict_error failure o raw tw n len) ≡ true
unfolding is_record_error strict_error
strict_error-record failure o raw tw n len = ground arith

module _ {F : Type 0} where
  pub recovered-Progress :
      (s : RecordIter F) (failure : ValidationFailure) (raw bytes : ℕ) (tw : TypeWord)
      (hit : ScanHit)
      → s.offset < hit.offset
      → hit.offset ≤ s.file_len
      → recover_sync s.bytes s.offset s.file_len
          (some s.resolved_format)
          max_scan_bytes
          s.lookahead_records
        ≡ some hit
      → Progress s (handle_sync_loss s failure raw tw bytes)
  unfolding handle_sync_loss
  recovered-Progress s failure raw bytes tw hit forward inside e =
      ground (arith, strict_error-record failure s.offset raw tw bytes s.file_len)

  pub unrecovered-Progress :
      (s : RecordIter F) (failure : ValidationFailure) (raw bytes : ℕ) (tw : TypeWord)
      → recover_sync s.bytes s.offset s.file_len
          (some s.resolved_format)
          max_scan_bytes
          s.lookahead_records
        ≡ none
      → Progress s (handle_sync_loss s failure raw tw bytes)
  unfolding handle_sync_loss is_record_error
  unrecovered-Progress s failure raw bytes tw e =
      ground (arith, strict_error-record failure s.offset raw tw bytes s.file_len)

  pub handle_sync_loss-Progress :
      (s : RecordIter F) (failure : ValidationFailure) (raw bytes : ℕ) (tw : TypeWord)
      → s.offset + 2 < 2 ^ 64
      → Progress s (handle_sync_loss s failure raw tw bytes)
  handle_sync_loss-Progress s failure raw bytes tw small =
      elim (Option-cases (
        recover_sync s.bytes s.offset s.file_len (some s.resolved_format) max_scan_bytes
          s.lookahead_records)) [
            | inl lost ↦ unrecovered-Progress s failure raw bytes tw lost
            | inr (hit, found) ↦
                let to =
                  recover_sync-Recovers s.bytes s.offset s.file_len (some s.resolved_format)
                    max_scan_bytes s.lookahead_records hit small found in
                recovered-Progress s failure raw bytes tw hit (omega (arith, to.forward))
                  (omega (arith, to.in_window)) found
          ]

  -- The timestamp of a record that lies in the file can be read, and reading it moves nothing.
  pub record SamePlace (s s' : RecordIter F) : Type 0 where
    pub frame : Frame s s'
    pub offset : s'.offset ≡ s.offset
    pub done : s'.done ≡ s.done
    pub msg_count : s'.msg_count ≡ s.msg_count

  pub decode_timestamp_at-SamePlace :
      (advisory : Bool) (s : RecordIter F) (fmt : TimestampFormat)
      → s.offset + 2 * min_word_count (some fmt) ≤ length s.bytes
      → SamePlace s (decode_timestamp_at advisory s fmt).0
        × ((t : Timestamp) × ((decode_timestamp_at advisory s fmt).1 ≡ some t))
  unfolding decode_timestamp_at
  decode_timestamp_at-SamePlace advisory s TimestampFormat.standard h =
      let (upper, u) = read_u16-some s.bytes (s.offset + 2) (omega arith) in
      let (lower, l) = read_u16-some s.bytes (s.offset + 4) (omega arith) in
      (
        ground (arith, u, l),
        (Timestamp.standard (decode_standard_timestamp upper lower), ground (arith, u, l)),
      )
  decode_timestamp_at-SamePlace advisory s TimestampFormat.irig h =
      let (upper, u) = read_u16-some s.bytes (s.offset + 2) (omega arith) in
      let (middle, m) = read_u16-some s.bytes (s.offset + 4) (omega arith) in
      let (lower, l) = read_u16-some s.bytes (s.offset + 6) (omega arith) in
      (
        ground (arith, u, m, l),
        (Timestamp.irig (decode_irig_timestamp upper middle lower), ground (arith, u, m, l)),
      )
  decode_timestamp_at-SamePlace advisory s TimestampFormat.auto h =
      let (upper, u) = read_u16-some s.bytes (s.offset + 2) (omega arith) in
      let (middle, m) = read_u16-some s.bytes (s.offset + 4) (omega arith) in
      let (lower, l) = read_u16-some s.bytes (s.offset + 6) (omega arith) in
      (
        ground (arith, u, m, l),
        (Timestamp.irig (decode_irig_timestamp upper middle lower), ground (arith, u, m, l)),
      )

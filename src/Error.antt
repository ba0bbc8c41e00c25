-- ===== src/Error.antt =====
-- rust/src/error.rs: the crate's errors. Free text is left out; of an `io::Error` the model keeps
-- whether its kind is `BrokenPipe`, the only part that the crate tests.
use Prim.Native.String.{String}
use mie_decoder.Common.{ℕ, Bool, true, false}

pub data MieError : Type 0 where
  file_not_found : (path : String) → MieError
  file_empty : (path : String) → MieError
  file_io : (path : String) (source_broken_pipe : Bool) → MieError
  invalid_type_word : (offset raw_type_word word_count : ℕ) → MieError
  unknown_type_word : (offset raw_type_word message_type : ℕ) → MieError
  record_truncated : (offset record_bytes available_bytes : ℕ) → MieError
  first_record_truncated : (offset record_bytes available_bytes : ℕ) → MieError
  payload_error : (offset : ℕ) → MieError
  unknown_error_code : (offset error_code : ℕ) → MieError
  no_valid_records : (path : String) (scan_bytes : ℕ) → MieError
  homogeneous_payload : (path : String) (offset sample_records : ℕ) → MieError
  writer_error : (destination : String) (source_broken_pipe : Bool) → MieError
  input_output_collision : (path : String) → MieError
  clobber_refused : (path : String) → MieError
  unrecoverable_sync_loss : (offset sync_losses : ℕ) → MieError
  timestamp_format_mismatch : (offset irig_score std_score records_probed : ℕ) → MieError
  calendar_unavailable : MieError
  incompatible_merge_inputs : (file_index : ℕ) (path : String) → MieError
  non_monotonic_input : (file_index : ℕ) (path : String) (prev_us curr_us : ℕ) → MieError

pub data MieErrorKind : Type 0 where
  file_not_found file_empty file_io invalid_type_word unknown_type_word record_truncated
        first_record_truncated payload_error unknown_error_code no_valid_records homogeneous_payload
        writer_error input_output_collision clobber_refused unrecoverable_sync_loss
        timestamp_format_mismatch calendar_unavailable incompatible_merge_inputs
        non_monotonic_input :
      MieErrorKind

unfoldable pub kind : MieError → MieErrorKind
kind (MieError.file_not_found p) = MieErrorKind.file_not_found
kind (MieError.file_empty p) = MieErrorKind.file_empty
kind (MieError.file_io p b) = MieErrorKind.file_io
kind (MieError.invalid_type_word o r w) = MieErrorKind.invalid_type_word
kind (MieError.unknown_type_word o r m) = MieErrorKind.unknown_type_word
kind (MieError.record_truncated o r a) = MieErrorKind.record_truncated
kind (MieError.first_record_truncated o r a) = MieErrorKind.first_record_truncated
kind (MieError.payload_error o) = MieErrorKind.payload_error
kind (MieError.unknown_error_code o c) = MieErrorKind.unknown_error_code
kind (MieError.no_valid_records p s) = MieErrorKind.no_valid_records
kind (MieError.homogeneous_payload p o s) = MieErrorKind.homogeneous_payload
kind (MieError.writer_error d b) = MieErrorKind.writer_error
kind (MieError.input_output_collision p) = MieErrorKind.input_output_collision
kind (MieError.clobber_refused p) = MieErrorKind.clobber_refused
kind (MieError.unrecoverable_sync_loss o s) = MieErrorKind.unrecoverable_sync_loss
kind (MieError.timestamp_format_mismatch o i s r) = MieErrorKind.timestamp_format_mismatch
kind MieError.calendar_unavailable = MieErrorKind.calendar_unavailable
kind (MieError.incompatible_merge_inputs i p) = MieErrorKind.incompatible_merge_inputs
kind (MieError.non_monotonic_input i p a b) = MieErrorKind.non_monotonic_input

unfoldable pub is_broken_pipe : MieError → Bool
is_broken_pipe (MieError.writer_error d broken_pipe) = broken_pipe
is_broken_pipe _ = false

abbrev file_kind : MieErrorKind → Bool
file_kind MieErrorKind.file_not_found = true
file_kind MieErrorKind.file_empty = true
file_kind MieErrorKind.file_io = true
file_kind _ = false

unfoldable pub is_file_error : MieError → Bool
unfolding kind
is_file_error e = file_kind (kind e)

abbrev record_kind : MieErrorKind → Bool
record_kind MieErrorKind.invalid_type_word = true
record_kind MieErrorKind.unknown_type_word = true
record_kind MieErrorKind.record_truncated = true
record_kind MieErrorKind.first_record_truncated = true
record_kind MieErrorKind.payload_error = true
record_kind MieErrorKind.unknown_error_code = true
record_kind MieErrorKind.unrecoverable_sync_loss = true
record_kind _ = false

unfoldable pub is_record_error : MieError → Bool
unfolding kind
is_record_error e = record_kind (kind e)

-- ===== src/Reader/State.antt =====
-- rust/src/reader.rs: the state of `RecordIter`, and what one step of it gives.
use Prim.Native.String.{String}
use mie_decoder.Common.{ℕ, Bool, Option, List}
use mie_decoder.Models.{TimestampFormat}
use mie_decoder.Models.Message.{Item}
use mie_decoder.Error.{MieError}
use mie_decoder.Delta.{DeltaTracker}

-- `bytes` is the source's `data`, and `sync_losses_atomic` the counter that it shares with the
-- reader.
pub record RecordIter (F : Type 0) : Type 0 where
  pub bytes : List ℕ
  pub file_len : ℕ
  pub offset : ℕ
  pub done : Bool
  pub pending_error : Option MieError
  pub pending_unrecoverable : Option MieError
  pub strict : Bool
  pub resolved_format : TimestampFormat
  pub lookahead_records : ℕ
  pub prev_was_error : Bool
  pub delta_tracker : DeltaTracker F
  pub warned_irig_day : Bool
  pub msg_count : ℕ
  pub sync_losses : ℕ
  pub sync_losses_atomic : ℕ
  pub mux : Option String
  pub calendar_year : Option ℕ
  pub last_irig_day : Option ℕ
  pub warned_day_rollover : Bool

-- The outcome of `decode_one`.
pub data Step (F : Type 0) : Type 0 where
  continue : Step F
  yield : Item F MieError → Step F
  stop : Step F

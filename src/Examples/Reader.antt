-- ===== src/Examples/Reader.antt =====
-- The record iterator of rust/src/reader.rs on one small file.
use mie_decoder.Common.{ℕ, true, false, none, arith}
use mie_decoder.Models.TimestampFormat.{irig}
use mie_decoder.Delta.{new_tracker}
use mie_decoder.Reader.State.{RecordIter}
use mie_decoder.Reader.Decode.{decode_one, next}
use mie_decoder.Reader.Next.{IsOpen, Frame, Progress}
use mie_decoder.Reader.Next.Progress.{decode_one-Progress}
use mie_decoder.Reader.Next.Run.{Answered, next-Answered}
use mie_decoder.Reader.Next.Order.{collect, IsDecoded, collect-IsDecoded}
use mie_decoder.Examples.Sync.{shifted}
use mie_decoder.Examples.Stream.{micros}

-- A lenient decode of the file from its start.
abbrev start : RecordIter ℕ
start = record {
  bytes = shifted;
  file_len = 16;
  offset = 0;
  done = false;
  pending_error = none;
  pending_unrecoverable = none;
  strict = false;
  resolved_format = irig;
  lookahead_records = 2;
  prev_was_error = false;
  delta_tracker = new_tracker none;
  warned_irig_day = false;
  msg_count = 0;
  sync_losses = 0;
  sync_losses_atomic = 0;
  mux = none;
  calendar_year = none;
  last_irig_day = none;
  warned_day_rollover = false;
}

start-IsOpen : IsOpen start
start-IsOpen = omega arith

decode_one-Progress_example : Progress start (decode_one micros true start)
decode_one-Progress_example = decode_one-Progress micros true start start-IsOpen

next-Answered_example :
    Frame start (next micros true start).0 × Answered micros start (next micros true start)
next-Answered_example = next-Answered micros true start start-IsOpen

collect-IsDecoded_example : IsDecoded micros start (collect micros 17 true start)
collect-IsDecoded_example =
    collect-IsDecoded micros 17 true start start-IsOpen (omega arith) (omega arith)

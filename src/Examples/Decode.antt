-- ===== src/Examples/Decode.antt =====
-- Field decoders, invariants and probe of rust/src/decode.rs at small inputs.
use mie_decoder.Common.{ℕ, ◌≢◌, true, false, List, [], ◌∷◌}
use mie_decoder.Models.{Direction, TypeWord, CommandWord}
use mie_decoder.Models.Bus.{bus_b}
use mie_decoder.Models.Timestamp.{IrigTimestamp}
use mie_decoder.Decode.Read.{read_u16}
use mie_decoder.Decode.Fields.{decode_type_word, decode_command_word}
use mie_decoder.Decode.Invariants.{InvariantViolation, reject, word_count_capacity}
use mie_decoder.Decode.Probe.{
  ambiguous, probe_timestamp_format, score_irig_candidate, score_standard_candidate, next_probe,
}

-- One IRIG record: BC to RT, one data word for subaddress 3 of terminal 5.
abbrev pub irig_record : List ℕ
irig_record =
    0x02 ∷ 0x07 ∷ 0x20 ∷ 0x00 ∷ 0x00 ∷ 0x00 ∷ 0x00 ∷ 0x00 ∷ 0x61 ∷ 0x28 ∷ 0xCD ∷ 0xAB ∷ 0x00 ∷ 0x28
    ∷ []

abbrev evening : IrigTimestamp
evening = record {
  day = 366;
  hour = 23;
  minute = 59;
  second = 58;
  microsecond = 999_999;
  freerun = true;
}

abbrev tw : TypeWord
tw = record { message_type = 0x02; bus = bus_b; word_count = 7; error = false; raw = 0x0782 }

abbrev cmd : CommandWord
cmd = record {
  rt = 5;
  direction = Direction.receive;
  subaddress = 3;
  data_word_count = 1;
  raw = 0x2861;
}

abbrev too_short : InvariantViolation
too_short = record { kind = word_count_capacity; severity = reject }

-- A single record scores 5 to 0: a verdict, though not a decisive one.
probe_run : (probe_timestamp_format irig_record 0 8).confidence ≢ ambiguous
unfolding probe_timestamp_format read_u16 decode_type_word decode_command_word score_irig_candidate
    score_standard_candidate next_probe
probe_run = λ h. cc h

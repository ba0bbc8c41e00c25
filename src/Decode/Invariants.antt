-- ===== src/Decode/Invariants.antt =====
-- rust/src/decode.rs: the structural invariants of a record. The `detail` text of a violation,
-- which only a message shows, is left out.
pub mod Laws
use mie_decoder.Common.{
  ℕ, ◌+◌, Bool, true, false, ◌&&◌, not, Option, none, some, List, [], ◌∷◌, ◌++◌, ltb, ◌==◌,
  if◌then◌else◌, shr, low_bits,
}
use mie_decoder.Models.{
  Direction, direction_eq, MessageType, type_code, MessageFormat, TypeWord, CommandWord,
}

pub data WhichInvariant : Type 0 where
  direction_bc_to_rt direction_rt_to_bc word_count_capacity direction_rt_to_rt_cmd2
        status_rt_mismatch type_word_reserved_bit data_word_count_mismatch :
      WhichInvariant

pub data InvariantSeverity : Type 0 where
  reject anomaly_warn : InvariantSeverity

pub record InvariantViolation : Type 0 where
  pub kind : WhichInvariant
  pub severity : InvariantSeverity

abbrev rejected : WhichInvariant → Option InvariantViolation
rejected k = some (record { kind = k; severity = reject })

abbrev pub min_payload_words : MessageFormat → CommandWord → ℕ
min_payload_words MessageFormat.receive cmd = cmd.data_word_count + 1
min_payload_words MessageFormat.transmit cmd = cmd.data_word_count + 1
min_payload_words MessageFormat.rt_to_rt cmd = cmd.data_word_count + 3
min_payload_words MessageFormat.receive_broadcast cmd = cmd.data_word_count
min_payload_words MessageFormat.rt_to_rt_broadcast cmd = cmd.data_word_count + 2
min_payload_words MessageFormat.mode_code_tx_data cmd = 2
min_payload_words MessageFormat.mode_code_rx_data cmd = 2
min_payload_words MessageFormat.mode_code_no_data cmd = 1
min_payload_words MessageFormat.mode_code_bcast_no_data cmd = 0
min_payload_words MessageFormat.mode_code_bcast_data cmd = 1
min_payload_words MessageFormat.spurious_data cmd = 0

-- `none` is `Ok(())`.
unfoldable pub validate_structural_invariants :
    TypeWord → CommandWord → MessageFormat → ℕ → Option InvariantViolation
validate_structural_invariants tw cmd msg_fmt ts_words =
    if tw.message_type == type_code MessageType.bc_to_rt
      && not (direction_eq cmd.direction Direction.receive)
    then rejected direction_bc_to_rt
    else if tw.message_type == type_code MessageType.rt_to_bc
        && not (direction_eq cmd.direction Direction.transmit)
    then rejected direction_rt_to_bc
    else if ltb tw.word_count (1 + ts_words + 1 + min_payload_words msg_fmt cmd)
    then rejected word_count_capacity
    else none

abbrev pub is_rt_to_rt : MessageFormat → Bool
is_rt_to_rt MessageFormat.rt_to_rt = true
is_rt_to_rt MessageFormat.rt_to_rt_broadcast = true
is_rt_to_rt _ = false

abbrev check_cmd2 : CommandWord → CommandWord → Option InvariantViolation
check_cmd2 cmd c2 =
    if not (direction_eq c2.direction Direction.receive)
    then rejected direction_rt_to_rt_cmd2
    else if not (cmd.data_word_count == c2.data_word_count)
    then rejected data_word_count_mismatch
    else none

unfoldable pub validate_post_extract_invariants :
    MessageFormat → CommandWord → Option CommandWord → Option InvariantViolation
validate_post_extract_invariants msg_fmt cmd cmd2 =
    if not (is_rt_to_rt msg_fmt)
    then none
    else elim cmd2 [ none ↦ none | some c2 ↦ check_cmd2 cmd c2 ]

abbrev anomaly : WhichInvariant → List InvariantViolation
anomaly k = record { kind = k; severity = anomaly_warn } ∷ []

-- The anomalies are appended in the order of the checks.
unfoldable pub detect_record_anomalies : TypeWord → CommandWord → Option ℕ → List InvariantViolation
detect_record_anomalies tw cmd status_word =
    elim status_word [
      | none ↦ []
      | some status_raw ↦
          if low_bits (shr status_raw 11) 5 == cmd.rt then [] else anomaly status_rt_mismatch
    ]
    ++ (if low_bits (shr tw.raw 15) 1 == 0 then [] else anomaly type_word_reserved_bit)

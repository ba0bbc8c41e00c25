-- ===== src/Decode/Classify.antt =====
-- rust/src/decode.rs: the message format of a record from its Type Word and Command Word.
pub mod Laws
use mie_decoder.Common.{ℕ, ◌+◌, Option, none, some, leb, ◌==◌, if◌then◌else◌}
use mie_decoder.Models.{Direction, direction_eq, MessageType, from_code, MessageFormat, CommandWord}

unfoldable pub classify_mode_code : CommandWord → ℕ → ℕ → MessageFormat
classify_mode_code cmd word_count timestamp_words =
    if cmd.rt == 31
    then (if leb (timestamp_words + 3) word_count
        then MessageFormat.mode_code_bcast_data
        else MessageFormat.mode_code_bcast_no_data)
    else if leb (timestamp_words + 4) word_count
    then (if direction_eq cmd.direction Direction.transmit
        then MessageFormat.mode_code_tx_data
        else MessageFormat.mode_code_rx_data)
    else MessageFormat.mode_code_no_data

-- The format of a known message type.
abbrev pub format_of : MessageType → CommandWord → ℕ → ℕ → MessageFormat
format_of MessageType.bc_to_rt cmd wc ts = MessageFormat.receive
format_of MessageType.rt_to_bc cmd wc ts = MessageFormat.transmit
format_of MessageType.rt_to_rt cmd wc ts = MessageFormat.rt_to_rt
format_of MessageType.broadcast_bc_to_rt cmd wc ts = MessageFormat.receive_broadcast
format_of MessageType.broadcast_rt_to_rt cmd wc ts = MessageFormat.rt_to_rt_broadcast
format_of MessageType.mode_command cmd wc ts = classify_mode_code cmd wc ts
format_of MessageType.spurious_data cmd wc ts = MessageFormat.spurious_data

-- `none` is the error `UnknownTypeWord`.
unfoldable pub classify_message_format : ℕ → CommandWord → ℕ → ℕ → Option MessageFormat
unfolding classify_mode_code from_code
classify_message_format message_type command_word word_count timestamp_words =
    elim (from_code message_type) [
      | none ↦ none
      | some t ↦ some (format_of t command_word word_count timestamp_words)
    ]

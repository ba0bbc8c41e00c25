-- ===== src/Decode/Fields.antt =====
-- rust/src/decode.rs: the bit layout of the Type Word, the timestamps and the Command Word.
pub mod Layout
use mie_decoder.Common.{ℕ, ◌+◌, ◌*◌, ◌^◌, not, ◌==◌, if◌then◌else◌, shr, low_bits}
use mie_decoder.Models.{Direction, TypeWord, CommandWord}
use mie_decoder.Models.Bus.{bus_a, bus_b}
use mie_decoder.Models.Timestamp.{IrigTimestamp, StandardTimestamp}

unfoldable pub decode_type_word : ℕ → TypeWord
decode_type_word raw = record {
  message_type = low_bits raw 7;
  bus = if low_bits (shr raw 7) 1 == 0 then bus_a else bus_b;
  word_count = low_bits (shr raw 8) 6;
  error = not (low_bits (shr raw 14) 1 == 0);
  raw = raw;
}

-- `(us_hi << 16) | us_lo`, whose halves share no bit: `lower` is a `u16`.
unfoldable pub decode_irig_timestamp : ℕ → ℕ → ℕ → IrigTimestamp
decode_irig_timestamp upper middle lower = record {
  day = low_bits (shr upper 5) 9;
  hour = low_bits upper 5;
  minute = low_bits (shr middle 10) 6;
  second = low_bits (shr middle 4) 6;
  microsecond = low_bits middle 4 * 2 ^ 16 + lower;
  freerun = not (low_bits (shr upper 15) 1 == 0);
}

unfoldable pub decode_standard_timestamp : ℕ → ℕ → StandardTimestamp
decode_standard_timestamp upper lower = record {
  raw_value = upper * 2 ^ 16 + lower;
  upper_word = upper;
  lower_word = lower;
}

-- A word count of 0 stands for 32.
unfoldable pub decode_command_word : ℕ → CommandWord
decode_command_word raw =
    let data_word_count = low_bits raw 5 in
    record {
      rt = low_bits (shr raw 11) 5;
      direction = if low_bits (shr raw 10) 1 == 0 then Direction.receive else Direction.transmit;
      subaddress = low_bits (shr raw 5) 5;
      data_word_count = if data_word_count == 0 then 32 else data_word_count;
      raw = raw;
    }

-- ===== src/Decode/Fields/Layout.antt =====
-- The words of a record, written back from the fields that rust/src/decode.rs reads.
use mie_decoder.Common.{
  ℕ, ◌+◌, ◌*◌, ◌/◌, ◌%◌, ◌^◌, ◌≤◌, ◌<◌, ◌≡◌, Bool, true, false, arith, ◌==◌, if◌then◌else◌,
}
use mie_decoder.Models.{Bus, Direction}
use mie_decoder.Models.Bus.{bus_a, bus_b}
use mie_decoder.Models.Timestamp.{IrigTimestamp}
use mie_decoder.Decode.Fields.{decode_type_word, decode_irig_timestamp, decode_command_word}

pub bit : Bool → ℕ
bit true = 1
bit false = 0

bus_bit : Bus → ℕ
bus_bit bus_a = 0
bus_bit bus_b = 1

direction_bit : Direction → ℕ
direction_bit Direction.receive = 0
direction_bit Direction.transmit = 1

-- A Type Word with its reserved top bit.
pub type_word_of : ℕ → Bus → ℕ → Bool → Bool → ℕ
unfolding bit bus_bit
type_word_of code b count error reserved =
    code + bus_bit b * 2 ^ 7 + count * 2 ^ 8 + bit error * 2 ^ 14 + bit reserved * 2 ^ 15

-- Each Type Word decodes to the fields that it was put together from, whatever its reserved bit.
pub decode_type_word-type_word_of :
    (code count : ℕ) (b : Bus) (error reserved : Bool)
    → code < 2 ^ 7
    → count < 2 ^ 6
    → decode_type_word (type_word_of code b count error reserved) ≡ record {
      message_type = code;
      bus = b;
      word_count = count;
      error = error;
      raw = type_word_of code b count error reserved;
    }
unfolding decode_type_word type_word_of
decode_type_word-type_word_of code count b error reserved c d = ground arith

-- A Command Word; a count of 32 is written as 0.
pub command_word_of : ℕ → Direction → ℕ → ℕ → ℕ
unfolding direction_bit
command_word_of rt dir sa count =
    rt * 2 ^ 11 + direction_bit dir * 2 ^ 10 + sa * 2 ^ 5 + (if count == 32 then 0 else count)

-- Each Command Word with 1 to 32 data words decodes to the fields that it was put together from.
pub decode_command_word-command_word_of :
    (rt sa count : ℕ) (dir : Direction)
    → rt < 32
    → sa < 32
    → 1 ≤ count
    → count ≤ 32
    → decode_command_word (command_word_of rt dir sa count) ≡ record {
      rt = rt;
      direction = dir;
      subaddress = sa;
      data_word_count = count;
      raw = command_word_of rt dir sa count;
    }
unfolding decode_command_word command_word_of
decode_command_word-command_word_of rt sa count dir a b c d = ground arith

-- The three words of an IRIG timestamp.
pub irig_upper : ℕ → ℕ → Bool → ℕ
unfolding bit
irig_upper day hour freerun = hour + day * 2 ^ 5 + bit freerun * 2 ^ 15

pub irig_middle : ℕ → ℕ → ℕ → ℕ
irig_middle minute second us_hi = us_hi + second * 2 ^ 4 + minute * 2 ^ 10

-- Every IRIG timestamp of the wire's field widths is read back from its three words.
pub decode_irig_timestamp_words :
    (t : IrigTimestamp)
    → t.day < 2 ^ 9
    → t.hour < 2 ^ 5
    → t.minute < 2 ^ 6
    → t.second < 2 ^ 6
    → t.microsecond < 2 ^ 20
    → (bit14 : Bool)
    → decode_irig_timestamp
        (irig_upper t.day t.hour t.freerun + bit bit14 * 2 ^ 14)
        (irig_middle t.minute t.second (t.microsecond / 2 ^ 16))
        (t.microsecond % 2 ^ 16)
      ≡ t
unfolding decode_irig_timestamp irig_upper irig_middle
decode_irig_timestamp_words t a b c d e bit14 = ground arith

-- Whatever the words are, the decoded fields keep the widths of the wire.
pub decode_irig_timestamp_widths :
    (upper middle lower : ℕ)
    → lower < 2 ^ 16
    → let t = decode_irig_timestamp upper middle lower in
      (t.day < 512) × (t.hour < 32) × (t.minute < 64) × (t.second < 64) × (t.microsecond < 2 ^ 20)
unfolding decode_irig_timestamp
decode_irig_timestamp_widths upper middle lower h = omega arith

pub command_word_widths :
    (raw : ℕ)
    → let cmd = decode_command_word raw in
      (cmd.rt < 32) × (cmd.subaddress < 32) × (1 ≤ cmd.data_word_count) × (cmd.data_word_count ≤ 32)
unfolding decode_command_word
command_word_widths raw = ground arith

pub type_word_widths :
    (raw : ℕ)
    → ((decode_type_word raw).message_type < 128) × ((decode_type_word raw).word_count ≤ 63)
unfolding decode_type_word
type_word_widths raw = omega arith

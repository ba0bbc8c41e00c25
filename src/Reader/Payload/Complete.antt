-- ===== src/Reader/Payload/Complete.antt =====
-- The payload of a record that passes the checks of rust/src/decode.rs is read completely.
use mie_decoder.Common.{
  ℕ, ◌+◌, ◌*◌, ◌≤◌, ◌≡◌, refl, sym, ◌∙◌, List, [], ◌∷◌, Bool, true, false, Option, none, some,
  arith, length,
}
use mie_decoder.Models.{MessageFormat, CommandWord}
use mie_decoder.Models.DataWords.{as_slice}
use mie_decoder.Models.DataWords.Laws.{as_slice-from_slice, as_slice-new}
use mie_decoder.Decode.Read.{read_u16, read_u16-some}
use mie_decoder.Decode.Fields.{decode_command_word}
use mie_decoder.Decode.Invariants.{min_payload_words, is_rt_to_rt, validate_post_extract_invariants}
use mie_decoder.Decode.Invariants.Laws.{validate_post_extract_iff}
use mie_decoder.Reader.Payload.{one_word, or_zero, Payload, extract_payload}
use mie_decoder.Reader.Payload.Words.{length-read_n}

-- The words of each format on the bus, behind the first Command Word.
abbrev pub has_status : MessageFormat → Bool
has_status MessageFormat.receive_broadcast = false
has_status MessageFormat.mode_code_bcast_no_data = false
has_status MessageFormat.mode_code_bcast_data = false
has_status MessageFormat.spurious_data = false
has_status _ = true

abbrev pub has_second_status : MessageFormat → Bool
has_second_status MessageFormat.rt_to_rt = true
has_second_status _ = false

abbrev pub data_words_of : MessageFormat → CommandWord → ℕ
data_words_of MessageFormat.mode_code_tx_data cmd = 1
data_words_of MessageFormat.mode_code_rx_data cmd = 1
data_words_of MessageFormat.mode_code_bcast_data cmd = 1
data_words_of MessageFormat.mode_code_no_data cmd = 0
data_words_of MessageFormat.mode_code_bcast_no_data cmd = 0
data_words_of MessageFormat.spurious_data cmd = 0
data_words_of _ cmd = cmd.data_word_count

abbrev pub is_present : {A : Type 0} → Option A → Bool
is_present none = false
is_present (some a) = true

-- Exactly the words that the format has are there.
pub record IsComplete (fmt : MessageFormat) (cmd : CommandWord) (p : Payload) : Type 0 where
  pub status : is_present p.status_word ≡ has_status fmt
  pub second_status : is_present p.status_word_2 ≡ has_second_status fmt
  pub second_command : is_present p.command_word_2 ≡ is_rt_to_rt fmt
  pub words : length (as_slice p.data_words) ≡ data_words_of fmt cmd

is_present-read_u16 :
    (buf : List ℕ) (o : ℕ) → o + 2 ≤ length buf → is_present (read_u16 buf o) ≡ true
is_present-read_u16 buf o h = let (w, e) = read_u16-some buf o h in ground (arith, e)

length-one_word :
    (buf : List ℕ) (o : ℕ) → o + 2 ≤ length buf → length (as_slice (one_word (read_u16 buf o))) ≡ 1
length-one_word buf o h =
    let (w, e) = read_u16-some buf o h in rw (e, as_slice-from_slice (w ∷ [])) refl

-- The second Command Word of an RT-to-RT record that is accepted announces the same count.
pub same_count :
    (fmt : MessageFormat) (cmd c2 : CommandWord)
    → is_rt_to_rt fmt ≡ true
    → validate_post_extract_invariants fmt cmd (some c2) ≡ none
    → c2.data_word_count ≡ cmd.data_word_count
same_count fmt cmd c2 two valid = sym ((validate_post_extract_iff fmt cmd c2).0 valid two).1

-- Where a record has room for the payload of its format, of up to 32 data words, and the check after
-- extraction passes, every word of the payload is read, and none that the format has not.
pub extract_payload-IsComplete :
    (buf : List ℕ) (p : ℕ) (fmt : MessageFormat) (cmd : CommandWord)
    → cmd.data_word_count ≤ 32
    → p + 2 * min_payload_words fmt cmd ≤ length buf
    → validate_post_extract_invariants fmt cmd (extract_payload buf p fmt cmd).command_word_2 ≡ none
    → IsComplete fmt cmd (extract_payload buf p fmt cmd)
unfolding extract_payload
extract_payload-IsComplete buf p MessageFormat.receive cmd small room valid = record {
  status = is_present-read_u16 buf (p + cmd.data_word_count * 2) (omega arith);
  second_status = refl;
  second_command = refl;
  words = length-read_n buf p cmd.data_word_count small (omega arith);
}
extract_payload-IsComplete buf p MessageFormat.transmit cmd small room valid = record {
  status = is_present-read_u16 buf p (omega arith);
  second_status = refl;
  second_command = refl;
  words = length-read_n buf (p + 2) cmd.data_word_count small (omega arith);
}
extract_payload-IsComplete buf p MessageFormat.rt_to_rt cmd small room valid =
    let c2 = decode_command_word (or_zero (read_u16 buf p)) in
    let same = same_count MessageFormat.rt_to_rt cmd c2 refl valid in
    record {
      status = is_present-read_u16 buf (p + 2) (omega arith);
      second_status =
          is_present-read_u16 buf (p + 4 + c2.data_word_count * 2) (omega (arith, same));
      second_command = refl;
      words =
          length-read_n buf (p + 4) c2.data_word_count (omega (arith, same)) (omega (arith, same))
          ∙ same;
    }
extract_payload-IsComplete buf p MessageFormat.receive_broadcast cmd small room valid = record {
  status = refl;
  second_status = refl;
  second_command = refl;
  words = length-read_n buf p cmd.data_word_count small (omega arith);
}
extract_payload-IsComplete buf p MessageFormat.rt_to_rt_broadcast cmd small room valid =
    let c2 = decode_command_word (or_zero (read_u16 buf p)) in
    let same = same_count MessageFormat.rt_to_rt_broadcast cmd c2 refl valid in
    record {
      status = is_present-read_u16 buf (p + 2) (omega arith);
      second_status = refl;
      second_command = refl;
      words =
          length-read_n buf (p + 4) c2.data_word_count (omega (arith, same)) (omega (arith, same))
          ∙ same;
    }
extract_payload-IsComplete buf p MessageFormat.mode_code_tx_data cmd small room valid = record {
  status = is_present-read_u16 buf p (omega arith);
  second_status = refl;
  second_command = refl;
  words = length-one_word buf (p + 2) (omega arith);
}
extract_payload-IsComplete buf p MessageFormat.mode_code_rx_data cmd small room valid = record {
  status = is_present-read_u16 buf (p + 2) (omega arith);
  second_status = refl;
  second_command = refl;
  words = length-one_word buf p (omega arith);
}
extract_payload-IsComplete buf p MessageFormat.mode_code_no_data cmd small room valid = record {
  status = is_present-read_u16 buf p (omega arith);
  second_status = refl;
  second_command = refl;
  words = rw as_slice-new refl;
}
extract_payload-IsComplete buf p MessageFormat.mode_code_bcast_no_data cmd small room valid =
    record {
      status = refl;
      second_status = refl;
      second_command = refl;
      words = rw as_slice-new refl;
    }
extract_payload-IsComplete buf p MessageFormat.mode_code_bcast_data cmd small room valid = record {
  status = refl;
  second_status = refl;
  second_command = refl;
  words = length-one_word buf p (omega arith);
}
extract_payload-IsComplete buf p MessageFormat.spurious_data cmd small room valid = record {
  status = refl;
  second_status = refl;
  second_command = refl;
  words = rw as_slice-new refl;
}

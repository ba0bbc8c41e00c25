-- ===== src/Reader/Payload.antt =====
-- rust/src/reader.rs: the words of a record behind its Command Word.
pub mod Words
pub mod Complete
pub mod Layout
use mie_decoder.Common.{ℕ, ◌+◌, ◌*◌, min, Option, none, some, List, [], ◌∷◌}
use mie_decoder.Models.{MessageFormat, CommandWord}
use mie_decoder.Models.DataWords
use mie_decoder.Models.DataWords.{DataWords, max_data_words}
use mie_decoder.Decode.Read.{read_u16, read_u16_array}
use mie_decoder.Decode.Fields.{decode_command_word}

-- The closure `read_n`, and the same reads in the other two decoders: at most 32 words, or none at
-- all where the bytes run out.
unfoldable pub read_n : List ℕ → ℕ → ℕ → DataWords
read_n buf start n = elim (read_u16_array buf start (min n max_data_words)) [
  | none ↦ DataWords.new
  | some words ↦ DataWords.from_slice words
]

abbrev pub one_word : Option ℕ → DataWords
one_word none = DataWords.new
one_word (some w) = DataWords.from_slice (w ∷ [])

abbrev pub or_zero : Option ℕ → ℕ
or_zero none = 0
or_zero (some w) = w

-- The second Command Word, both status words and the data words.
pub record Payload : Type 0 where
  pub command_word_2 : Option CommandWord
  pub status_word : Option ℕ
  pub status_word_2 : Option ℕ
  pub data_words : DataWords

unfoldable pub extract_payload : List ℕ → ℕ → MessageFormat → CommandWord → Payload
extract_payload buf p MessageFormat.receive cmd =
    let n = cmd.data_word_count in
    record {
      command_word_2 = none;
      status_word = read_u16 buf (p + n * 2);
      status_word_2 = none;
      data_words = read_n buf p n;
    }
extract_payload buf p MessageFormat.transmit cmd = record {
  command_word_2 = none;
  status_word = read_u16 buf p;
  status_word_2 = none;
  data_words = read_n buf (p + 2) cmd.data_word_count;
}
extract_payload buf p MessageFormat.rt_to_rt cmd =
    let cmd2 = decode_command_word (or_zero (read_u16 buf p)) in
    let n = cmd2.data_word_count in
    record {
      command_word_2 = some cmd2;
      status_word = read_u16 buf (p + 2);
      status_word_2 = read_u16 buf (p + 4 + n * 2);
      data_words = read_n buf (p + 4) n;
    }
extract_payload buf p MessageFormat.receive_broadcast cmd = record {
  command_word_2 = none;
  status_word = none;
  status_word_2 = none;
  data_words = read_n buf p cmd.data_word_count;
}
extract_payload buf p MessageFormat.rt_to_rt_broadcast cmd =
    let cmd2 = decode_command_word (or_zero (read_u16 buf p)) in
    record {
      command_word_2 = some cmd2;
      status_word = read_u16 buf (p + 2);
      status_word_2 = none;
      data_words = read_n buf (p + 4) cmd2.data_word_count;
    }
extract_payload buf p MessageFormat.mode_code_tx_data cmd = record {
  command_word_2 = none;
  status_word = read_u16 buf p;
  status_word_2 = none;
  data_words = one_word (read_u16 buf (p + 2));
}
extract_payload buf p MessageFormat.mode_code_rx_data cmd = record {
  command_word_2 = none;
  status_word = read_u16 buf (p + 2);
  status_word_2 = none;
  data_words = one_word (read_u16 buf p);
}
extract_payload buf p MessageFormat.mode_code_no_data cmd = record {
  command_word_2 = none;
  status_word = read_u16 buf p;
  status_word_2 = none;
  data_words = DataWords.new;
}
extract_payload buf p MessageFormat.mode_code_bcast_no_data cmd = record {
  command_word_2 = none;
  status_word = none;
  status_word_2 = none;
  data_words = DataWords.new;
}
extract_payload buf p MessageFormat.mode_code_bcast_data cmd = record {
  command_word_2 = none;
  status_word = none;
  status_word_2 = none;
  data_words = one_word (read_u16 buf p);
}
extract_payload buf p MessageFormat.spurious_data cmd = record {
  command_word_2 = none;
  status_word = none;
  status_word_2 = none;
  data_words = DataWords.new;
}

-- ===== src/Examples/Open.antt =====
-- Files that rust/src/reader.rs opens: one record behind a word, no record at all, and an empty one.
use mie_decoder.Common.{
  ℕ, ◌+◌, ◌*◌, ◌≤◌, ◌≡◌, refl, ◌↔◌, true, false, none, some, List, [], ◌∷◌, arith, length,
  replicate,
}
use mie_decoder.Models.TimestampFormat.{auto}
use mie_decoder.Decode.Read.{read_u16, is_terminator_type_word}
use mie_decoder.Decode.Fields.{decode_type_word}
use mie_decoder.Models.{is_valid_message_type}
use mie_decoder.Sync.Validate.{
  max_scan_bytes, validate_record, validate_record_detailed_impl, check_record,
}
use mie_decoder.Sync.Scan.{find_first_record}
use mie_decoder.Sync.Scan.Homogeneous.{
  is_homogeneous_payload, SameAround, chunk, is_homogeneous_iff,
}
use mie_decoder.Reader.Next.Order.{IsDecoded, collect}
use mie_decoder.Reader.Open.{MieFileReader, iter, opens_on_terminator}
use mie_decoder.Reader.Open.Begin.{Begins, iter-IsOpened}
use mie_decoder.Examples.Sync.{shifted}
use mie_decoder.Examples.Stream.{micros}

abbrev file_of : List ℕ → MieFileReader ℕ
file_of bytes = record {
  path = "input.mie";
  mmap = bytes;
  file_size = length bytes;
  strict = true;
  input_time_format = auto;
  detect_records = 8;
  lookahead_records = 2;
  standard_tick_rate_hz = none;
  mux = none;
  sync_losses = 3;
  empty_recording = false;
  calendar_year = none;
}

iter-IsOpened_example :
    Begins (file_of shifted) (iter (file_of shifted)).1
    × IsDecoded micros
        (iter (file_of shifted)).1
        (collect micros (length shifted + 1) false (iter (file_of shifted)).1)
iter-IsOpened_example = iter-IsOpened micros false (file_of shifted) (omega arith)

-- Two words of which none is a Type Word.
abbrev garbage : List ℕ
garbage = 0xFF ∷ 0xFF ∷ 0xFF ∷ 0xFF ∷ []

nothing_found : find_first_record garbage 4 none max_scan_bytes 2 ≡ none
unfolding find_first_record validate_record validate_record_detailed_impl check_record read_u16
    decode_type_word is_valid_message_type
nothing_found = refl

no_terminator : opens_on_terminator (read_u16 garbage 0) ≡ false
unfolding read_u16 is_terminator_type_word
no_terminator = refl

abbrev terminator_only : List ℕ
terminator_only = 0 ∷ 0 ∷ []

-- Four records of one spurious word and a pad.
abbrev pad : List ℕ
pad = replicate 32 0x20

is_homogeneous_iff_example :
    (is_homogeneous_payload pad 0 8 ≡ some true)
    ↔ (0 + 4 * 8 ≤ length pad)
      × SameAround 8 (chunk pad 0 8 0) (chunk pad 0 8 1)
      × SameAround 8 (chunk pad 0 8 0) (chunk pad 0 8 2)
      × SameAround 8 (chunk pad 0 8 0) (chunk pad 0 8 3)
is_homogeneous_iff_example = is_homogeneous_iff pad 0 8 (omega arith) (omega arith) (omega arith)

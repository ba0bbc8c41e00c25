-- ===== src/Examples/Sync.antt =====
-- Validation and scans of rust/src/sync.rs at one small file.
use mie_decoder.Common.{
  ℕ, ◌≤◌, ◌<◌, min, ◌≡◌, refl, ◌↔◌, ◌⊎◌, true, false, none, some, List, ◌∷◌, arith,
}
use mie_decoder.Models.{is_valid_message_type}
use mie_decoder.Models.TimestampFormat.{irig}
use mie_decoder.Decode.Read.{read_u16}
use mie_decoder.Decode.Fields.{decode_type_word, decode_irig_timestamp}
use mie_decoder.Sync.Validate.{
  min_word_count, check_irig_words, validate_record, validate_record_detailed,
  validate_record_detailed_impl, check_record, lookahead_loop, validate_lookahead_records,
  validate_irig_fields,
}
use mie_decoder.Sync.Validate.Accept.{
  IsFramed, accepted-IsFramed, check_irig_words_iff, recovery_accepts_less,
}
use mie_decoder.Sync.Scan.{ScanHit, find_first_record, recover_sync}
use mie_decoder.Sync.Scan.Search.{IsEarliest}
use mie_decoder.Sync.Scan.Find.{find_first-IsEarliest, Recovers, recover_sync-Recovers}
use mie_decoder.Examples.Decode.{irig_record}

-- A word that starts no record, and then one record.
abbrev pub shifted : List ℕ
shifted = 0xFF ∷ 0xFF ∷ irig_record

accepted : validate_record_detailed_impl shifted 2 16 (some irig) 2 false ≡ none
unfolding validate_record_detailed_impl check_record validate_lookahead_records lookahead_loop
    validate_irig_fields read_u16 decode_type_word is_valid_message_type
accepted = refl

accepted-IsFramed_example : (raw : ℕ) × IsFramed shifted 2 16 (min_word_count (some irig)) raw
accepted-IsFramed_example = accepted-IsFramed shifted 2 16 (some irig) 2 false accepted

recovery_accepts_less_example : validate_record_detailed shifted 2 16 (some irig) 1 ≡ none
recovery_accepts_less_example =
    recovery_accepts_less 2 1 shifted 2 16 (some irig) (omega arith) accepted

irig_words_iff_example :
    let t = decode_irig_timestamp 0x0020 0 0 in
    (check_irig_words 0x0020 0 0 ≡ none)
    ↔ (t.hour < 24)
      × (t.minute < 60)
      × (t.second < 60)
      × (t.microsecond < 1_000_000)
      × ((t.freerun ≡ true) ⊎ ((1 ≤ t.day) × (t.day ≤ 366)))
irig_words_iff_example = check_irig_words_iff 0x0020 0 0

abbrev at_two : ScanHit
at_two = record { offset = 2; skipped = 2 }

found : find_first_record shifted 16 (some irig) 65_536 2 ≡ some at_two
unfolding find_first_record validate_record validate_record_detailed_impl check_record
    validate_lookahead_records lookahead_loop validate_irig_fields read_u16 decode_type_word
    is_valid_message_type
found = refl

find_first-IsEarliest_example :
    IsEarliest (λ o. validate_record shifted o 16 (some irig) 2) 0 (min 16 65_536) at_two.offset
    × (at_two.skipped ≡ at_two.offset)
find_first-IsEarliest_example = find_first-IsEarliest shifted 16 (some irig) 65_536 2 at_two found

missed : find_first_record shifted 2 (some irig) 65_536 2 ≡ none
unfolding find_first_record validate_record validate_record_detailed_impl check_record read_u16
    decode_type_word is_valid_message_type
missed = refl

recovered : recover_sync shifted 0 16 (some irig) 65_536 2 ≡ some at_two
unfolding recover_sync validate_record_detailed_impl check_record validate_lookahead_records
    lookahead_loop validate_irig_fields read_u16 decode_type_word is_valid_message_type
recovered = refl

recover_sync-Recovers_example : Recovers shifted 0 16 (some irig) 65_536 at_two
recover_sync-Recovers_example =
    recover_sync-Recovers shifted 0 16 (some irig) 65_536 2 at_two (omega arith) recovered

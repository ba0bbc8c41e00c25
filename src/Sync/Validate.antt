-- ===== src/Sync/Validate.antt =====
-- rust/src/sync.rs: whether a record starts at an offset. `none` is `Ok(())`.
pub mod Accept
use mie_decoder.Common.{
  ℕ, zero, suc, ◌+◌, ◌-◌, ◌*◌, ◌^◌, max, Bool, true, false, ◌&&◌, ◌||◌, not, Option, none, some,
  List, ltb, leb, ◌==◌, if◌then◌else◌, shr, low_bits, checked_add,
}
use mie_decoder.Models.{
  TimestampFormat, format_eq, timestamp_word_count, is_valid_message_type, TypeWord,
}
use mie_decoder.Models.TimestampFormat.{irig, standard, auto}
use mie_decoder.Decode.Read.{read_u16, is_terminator_type_word, min_record_words_standard}
use mie_decoder.Decode.Fields.{decode_type_word}

abbrev pub max_scan_bytes : ℕ
max_scan_bytes = 65_536

pub data ValidationFailure : Type 0 where
  type_word_unreadable unknown_message_type invalid_word_count record_truncated
        irig_hour_out_of_range irig_minute_out_of_range irig_second_out_of_range
        irig_microsecond_out_of_range irig_day_out_of_range lookahead_unknown_message_type
        lookahead_invalid_word_count :
      ValidationFailure

abbrev pub min_word_count : Option TimestampFormat → ℕ
min_word_count (some irig) = 1 + timestamp_word_count irig + 1
min_word_count (some standard) = 1 + timestamp_word_count standard + 1
min_word_count (some auto) = min_record_words_standard
min_word_count none = min_record_words_standard

-- `offset.checked_add(n).is_none_or(|end| end > file_len)`.
abbrev pub runs_past : ℕ → ℕ → ℕ → Bool
runs_past offset n file_len = elim (checked_add offset n) [
  | none ↦ true
  | some end ↦ ltb file_len end
]

-- The range tests on the three words of an IRIG timestamp.
unfoldable pub check_irig_words : ℕ → ℕ → ℕ → Option ValidationFailure
check_irig_words ts_upper ts_middle ts_lower =
    let freerun = low_bits (shr ts_upper 15) 1 == 1 in
    let day = low_bits (shr ts_upper 5) 9 in
    let microsecond = low_bits ts_middle 4 * 2 ^ 16 + ts_lower in
    if leb 24 (low_bits ts_upper 5)
    then some irig_hour_out_of_range
    else if leb 60 (low_bits (shr ts_middle 10) 6)
    then some irig_minute_out_of_range
    else if leb 60 (low_bits (shr ts_middle 4) 6)
    then some irig_second_out_of_range
    else if ltb 999_999 microsecond
    then some irig_microsecond_out_of_range
    else if not freerun && not (leb 1 day && leb day 366)
    then some irig_day_out_of_range
    else none

abbrev check_irig_read : Option ℕ → Option ℕ → Option ℕ → Option ValidationFailure
check_irig_read none middle lower = none
check_irig_read (some upper) none lower = none
check_irig_read (some upper) (some middle) none = none
check_irig_read (some upper) (some middle) (some lower) = check_irig_words upper middle lower

unfoldable pub validate_irig_fields : List ℕ → ℕ → ℕ → Option ValidationFailure
unfolding check_irig_words
validate_irig_fields buf offset file_len =
    if runs_past offset 8 file_len
    then none
    else check_irig_read (read_u16 buf (offset + 2)) (read_u16 buf (offset + 4))
        (read_u16 buf (offset + 6))

-- The rounds of `for _ in 1..n` that are left.
unfoldable pub lookahead_loop : ℕ → List ℕ → ℕ → ℕ → ℕ → Bool → Option ValidationFailure
lookahead_loop zero buf next_offset file_len min_wc honor_terminator = none
lookahead_loop (suc n) buf next_offset file_len min_wc honor_terminator =
    if ltb file_len (next_offset + 2) then none else elim (read_u16 buf next_offset) [
      | none ↦ none
      | some next_raw ↦
          let next_tw = decode_type_word next_raw in
          let next_record_bytes = next_tw.word_count * 2 in
          let rest =
            elim (checked_add next_offset next_record_bytes) as (λ _. Option ValidationFailure) [
              | none ↦ none
              | some advance ↦ lookahead_loop n buf advance file_len min_wc honor_terminator
            ] in
          if honor_terminator && is_terminator_type_word next_raw
          then none
          else if not (is_valid_message_type next_tw.message_type)
          then some lookahead_unknown_message_type
          else if ltb next_tw.word_count min_wc || ltb 63 next_tw.word_count
          then some lookahead_invalid_word_count
          else if next_record_bytes == 0
          then none
          else rest
    ]

unfoldable pub validate_lookahead_records :
    List ℕ → ℕ → ℕ → ℕ → ℕ → ℕ → Bool → Option ValidationFailure
unfolding lookahead_loop
validate_lookahead_records buf offset record_bytes file_len min_wc lookahead_records honor =
    elim (checked_add offset record_bytes) [
      | none ↦ some record_truncated
      | some next_offset ↦
          lookahead_loop (max lookahead_records 1 - 1) buf next_offset file_len min_wc honor
    ]

-- `ts_format == Some(TimestampFormat::Irig)`.
abbrev is_irig : Option TimestampFormat → Bool
is_irig none = false
is_irig (some f) = format_eq f irig

-- Checks 2 to 6, once the Type Word is read.
unfoldable pub check_record :
    List ℕ → ℕ → ℕ → Option TimestampFormat → ℕ → Bool → TypeWord → Option ValidationFailure
check_record buf offset file_len ts_format lookahead_records honor_terminator tw =
    let min_wc = min_word_count ts_format in
    let record_bytes = tw.word_count * 2 in
    let irig_check = if is_irig ts_format then validate_irig_fields buf offset file_len else none in
    if not (is_valid_message_type tw.message_type)
    then some unknown_message_type
    else if ltb tw.word_count min_wc || ltb 63 tw.word_count
    then some invalid_word_count
    else if runs_past offset record_bytes file_len
    then some record_truncated
    else elim irig_check [
      | some failure ↦ some failure
      | none ↦
          validate_lookahead_records buf offset record_bytes file_len min_wc lookahead_records
            honor_terminator
    ]

unfoldable pub validate_record_detailed_impl :
    List ℕ → ℕ → ℕ → Option TimestampFormat → ℕ → Bool → Option ValidationFailure
validate_record_detailed_impl buf offset file_len ts_format lookahead_records honor_terminator =
    elim (read_u16 buf offset) [
      | none ↦ some type_word_unreadable
      | some type_raw ↦
          if runs_past offset 2 file_len
          then some type_word_unreadable
          else check_record buf offset file_len ts_format lookahead_records honor_terminator
              (decode_type_word type_raw)
    ]

unfoldable pub validate_record_detailed :
    List ℕ → ℕ → ℕ → Option TimestampFormat → ℕ → Option ValidationFailure
validate_record_detailed buf offset file_len ts_format lookahead_records =
    validate_record_detailed_impl buf offset file_len ts_format lookahead_records true

abbrev pub is_ok : Option ValidationFailure → Bool
is_ok none = true
is_ok (some failure) = false

unfoldable pub validate_record : List ℕ → ℕ → ℕ → Option TimestampFormat → ℕ → Bool
unfolding validate_record_detailed
validate_record buf offset file_len ts_format lookahead_records =
    is_ok (validate_record_detailed buf offset file_len ts_format lookahead_records)

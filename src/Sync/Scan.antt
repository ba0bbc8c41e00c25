-- ===== src/Sync/Scan.antt =====
-- rust/src/sync.rs: the scans over the 2-byte grid of a file.
pub mod Search
pub mod Homogeneous
pub mod Find
use mie_decoder.Common.{
  ℕ, zero, suc, ◌+◌, ◌-◌, ◌*◌, min, Bool, false, ◌&&◌, ◌||◌, not, Option, none, some, List, ltb,
  leb, if◌then◌else◌, saturating_add,
}
use mie_decoder.Models.{TimestampFormat, timestamp_word_count, is_valid_message_type}
use mie_decoder.Models.TimestampFormat.{irig}
use mie_decoder.Decode.Read.{read_u16}
use mie_decoder.Decode.Fields.{decode_type_word}
use mie_decoder.Sync.Validate.{validate_record, validate_record_detailed_impl, is_ok}

pub record ScanHit : Type 0 where
  pub offset : ℕ
  pub skipped : ℕ

-- `while offset < scan_end { if test { return } offset += 2 }`, on fuel; `scan_end` rounds are
-- enough.
unfoldable pub scan_grid : ℕ → (ℕ → Bool) → ℕ → ℕ → Option ℕ
scan_grid zero test offset scan_end = none
scan_grid (suc fuel) test offset scan_end =
    let rest = scan_grid fuel test (offset + 2) scan_end in
    if ltb offset scan_end then (if test offset then some offset else rest) else none

unfoldable pub find_first_record : List ℕ → ℕ → Option TimestampFormat → ℕ → ℕ → Option ScanHit
unfolding scan_grid
find_first_record buf file_len ts_format max_scan lookahead_records =
    let scan_end = min file_len max_scan in
    let test = λ (offset : ℕ). validate_record buf offset file_len ts_format lookahead_records in
    elim (scan_grid scan_end test 0 scan_end) [
      | none ↦ none
      | some offset ↦ some (record { offset = offset; skipped = offset })
    ]

unfoldable pub recover_sync : List ℕ → ℕ → ℕ → Option TimestampFormat → ℕ → ℕ → Option ScanHit
unfolding scan_grid
recover_sync buf offset file_len ts_format max_scan lookahead_records =
    let scan_start = saturating_add offset 2 in
    let scan_end = min file_len (saturating_add offset max_scan) in
    let test = λ (candidate : ℕ).
      is_ok
        (validate_record_detailed_impl buf candidate file_len ts_format lookahead_records false) in
    elim (scan_grid scan_end test scan_start scan_end) [
      | none ↦ none
      | some candidate ↦ some (record { offset = candidate; skipped = candidate - offset })
    ]

-- The candidate is a known Type Word of a possible length whose record runs past the file.
unfoldable pub is_cut_off : List ℕ → ℕ → ℕ → ℕ → Bool
is_cut_off buf file_len min_wc offset = elim (read_u16 buf offset) [
  | none ↦ false
  | some type_raw ↦
      let tw = decode_type_word type_raw in
      is_valid_message_type tw.message_type
      && not (ltb tw.word_count min_wc || ltb 63 tw.word_count)
      && ltb file_len (offset + tw.word_count * 2)
]

abbrev pub resolved_or_irig : Option TimestampFormat → TimestampFormat
resolved_or_irig none = irig
resolved_or_irig (some f) = f

-- `while offset + 2 <= scan_end`; an unreadable word ends the loop.
unfoldable pub diagnose_loop : ℕ → List ℕ → ℕ → ℕ → ℕ → ℕ → Option (ℕ × ℕ × ℕ)
unfolding is_cut_off
diagnose_loop zero buf file_len min_wc offset scan_end = none
diagnose_loop (suc fuel) buf file_len min_wc offset scan_end =
    let rest = diagnose_loop fuel buf file_len min_wc (offset + 2) scan_end in
    if leb (offset + 2) scan_end
    then elim (read_u16 buf offset) [
      | none ↦ none
      | some type_raw ↦
          let record_bytes = (decode_type_word type_raw).word_count * 2 in
          if is_cut_off buf file_len min_wc offset
          then some (offset, record_bytes, file_len - offset)
          else rest
    ]
    else none

unfoldable pub diagnose_header_scan_failure :
    List ℕ → ℕ → Option TimestampFormat → ℕ → Option (ℕ × ℕ × ℕ)
unfolding diagnose_loop
diagnose_header_scan_failure buf file_len ts_format max_scan =
    let scan_end = min file_len max_scan in
    let min_wc = 1 + timestamp_word_count (resolved_or_irig ts_format) + 1 in
    diagnose_loop scan_end buf file_len min_wc 0 scan_end

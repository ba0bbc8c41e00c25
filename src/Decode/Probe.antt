-- ===== src/Decode/Probe.antt =====
-- rust/src/decode.rs: the probe that tells IRIG from Standard timestamps over several records.
-- Scores are `i32` in the source; `Bounds` shows how far they get.
pub mod Bounds
use mie_decoder.Common.{
  ℕ, zero, suc, ◌+◌, ◌*◌, max, Bool, ◌&&◌, ◌||◌, Option, none, some, List, ltb, leb, ◌==◌,
  if◌then◌else◌, length, shr, low_bits, checked_add, abs_diff,
}
use mie_decoder.Models.{
  Direction, direction_eq, MessageType, type_code, TimestampFormat, TypeWord, CommandWord,
}
use mie_decoder.Models.TimestampFormat.{irig, standard}
use mie_decoder.Decode.Read.{read_u16, min_record_bytes_standard, min_record_words_standard}
use mie_decoder.Decode.Fields.{decode_type_word, decode_command_word}

pub data DetectionConfidence : Type 0 where
  decisive marginal ambiguous : DetectionConfidence

pub record DetectionOutcome : Type 0 where
  pub format : TimestampFormat
  pub irig_score : ℕ
  pub std_score : ℕ
  pub records_probed : ℕ
  pub confidence : DetectionConfidence

abbrev pub confidence_floor : ℕ
confidence_floor = 4

abbrev pub min_margin : ℕ
min_margin = 3

abbrev pub decisive_floor : ℕ
decisive_floor = 8

abbrev pub decisive_margin : ℕ
decisive_margin = 6

abbrev pub default_detect_records : ℕ
default_detect_records = 8

unfoldable pub tr_direction_matches : TypeWord → CommandWord → Bool
tr_direction_matches tw cmd =
    tw.message_type == type_code MessageType.bc_to_rt
      && direction_eq cmd.direction Direction.receive
    || tw.message_type == type_code MessageType.rt_to_bc
      && direction_eq cmd.direction Direction.transmit

-- `score += n` under a test.
abbrev points : Bool → ℕ → ℕ
points test n = if test then n else 0

abbrev irig_range_points : Option ℕ → Option ℕ → ℕ
irig_range_points none middle = 0
irig_range_points (some upper) none = 0
irig_range_points (some upper) (some middle) =
    points
      (ltb (low_bits upper 5) 24
        && ltb (low_bits (shr middle 10) 6) 60
        && ltb (low_bits (shr middle 4) 6) 60)
      1

-- `word_count - 6 == data_word_count` is tested in `i32`, where nothing is cut off at 0.
unfoldable pub score_irig_candidate : List ℕ → ℕ → TypeWord → ℕ
unfolding tr_direction_matches
score_irig_candidate buf offset tw = elim (read_u16 buf (offset + 8)) [
  | none ↦ 0
  | some cmd_raw ↦
      let cmd = decode_command_word cmd_raw in
      points (tr_direction_matches tw cmd) 2
      + points (tw.word_count == cmd.data_word_count + 6) 2
      + irig_range_points (read_u16 buf (offset + 2)) (read_u16 buf (offset + 4))
]

unfoldable pub score_standard_candidate : List ℕ → ℕ → TypeWord → ℕ
unfolding tr_direction_matches
score_standard_candidate buf offset tw = elim (read_u16 buf (offset + 6)) [
  | none ↦ 0
  | some cmd_raw ↦
      let cmd = decode_command_word cmd_raw in
      points (tr_direction_matches tw cmd) 2 + points (tw.word_count == cmd.data_word_count + 5) 2
]

-- The variables of the loop: both scores and the number of records probed.
pub record Scores : Type 0 where
  pub irig_score : ℕ
  pub std_score : ℕ
  pub records_probed : ℕ

abbrev pub add_scores : List ℕ → ℕ → TypeWord → Scores → Scores
add_scores buf offset tw s = record {
  irig_score = s.irig_score + score_irig_candidate buf offset tw;
  std_score = s.std_score + score_standard_candidate buf offset tw;
  records_probed = s.records_probed + 1;
}

-- Whether the walk goes on, and from where.
unfoldable pub next_probe : List ℕ → ℕ → TypeWord → Option ℕ
next_probe buf offset tw =
    let record_bytes = tw.word_count * 2 in
    if record_bytes == 0 then none else elim (checked_add offset record_bytes) [
      | none ↦ none
      | some next_offset ↦
          if leb next_offset offset || ltb (length buf) next_offset then none else some next_offset
    ]

-- The rounds of `for _ in 0..n` that are left.
unfoldable pub probe_loop : ℕ → List ℕ → ℕ → Scores → Scores
probe_loop zero buf offset s = s
probe_loop (suc n) buf offset s =
    if ltb (length buf) (offset + min_record_bytes_standard)
    then s
    else elim (read_u16 buf offset) [
      | none ↦ s
      | some tw_raw ↦
          let tw = decode_type_word tw_raw in
          let s' = add_scores buf offset tw s in
          let rest = elim (next_probe buf offset tw) as (λ _. Scores) [
            | none ↦ s'
            | some next_offset ↦ probe_loop n buf next_offset s'
          ] in
          if ltb tw.word_count min_record_words_standard then s else rest
    ]

unfoldable pub accumulate_probe_scores : List ℕ → ℕ → ℕ → Scores
unfolding probe_loop
accumulate_probe_scores buf first_offset max_records =
    probe_loop (max max_records 1) buf first_offset
      (record { irig_score = 0; std_score = 0; records_probed = 0 })

unfoldable pub classify_confidence : ℕ → ℕ → DetectionConfidence
classify_confidence max_score margin =
    if ltb max_score confidence_floor || ltb margin min_margin
    then ambiguous
    else if leb decisive_floor max_score && leb decisive_margin margin
    then decisive
    else marginal

-- The outcome for given totals; IRIG wins a tie.
unfoldable pub outcome_of : Scores → DetectionOutcome
unfolding classify_confidence
outcome_of s = record {
  format = if leb s.std_score s.irig_score then irig else standard;
  irig_score = s.irig_score;
  std_score = s.std_score;
  records_probed = s.records_probed;
  confidence =
      classify_confidence (max s.irig_score s.std_score) (abs_diff s.irig_score s.std_score);
}

unfoldable pub probe_timestamp_format : List ℕ → ℕ → ℕ → DetectionOutcome
unfolding accumulate_probe_scores outcome_of
probe_timestamp_format buf first_offset max_records =
    outcome_of (accumulate_probe_scores buf first_offset max_records)

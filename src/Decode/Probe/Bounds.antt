-- ===== src/Decode/Probe/Bounds.antt =====
-- What the probe of rust/src/decode.rs can score, and when its verdict is trusted.
use mie_decoder.Common.{
  ℕ, zero, suc, ◌+◌, ◌*◌, ◌≤◌, max, ◌≡◌, ◌≢◌, ◌⊎◌, inl, inr, List, arith, Option-cases,
}
use mie_decoder.Models.{TypeWord}
use mie_decoder.Models.TimestampFormat.{irig, standard}
use mie_decoder.Decode.Read.{read_u16}
use mie_decoder.Decode.Fields.{decode_type_word}
use mie_decoder.Decode.Probe.{
  decisive, ambiguous, Scores, add_scores, score_irig_candidate, score_standard_candidate,
  next_probe, probe_loop, accumulate_probe_scores, probe_timestamp_format,
}

pub score_irig-le : (buf : List ℕ) (o : ℕ) (tw : TypeWord) → score_irig_candidate buf o tw ≤ 5
unfolding score_irig_candidate
score_irig-le buf o tw = ground arith

pub score_standard-le :
    (buf : List ℕ) (o : ℕ) (tw : TypeWord) → score_standard_candidate buf o tw ≤ 4
unfolding score_standard_candidate
score_standard-le buf o tw = ground arith

record Within (rounds : ℕ) (before after : Scores) : Type 0 where
  irig : after.irig_score + 5 * before.records_probed ≤ before.irig_score + 5 * after.records_probed
  std : after.std_score + 4 * before.records_probed ≤ before.std_score + 4 * after.records_probed
  few : after.records_probed ≤ before.records_probed + rounds
  more : before.records_probed ≤ after.records_probed

probe_loop-Within : (n : ℕ) (buf : List ℕ) (o : ℕ) (s : Scores) → Within n s (probe_loop n buf o s)
unfolding probe_loop
probe_loop-Within zero buf o s = omega arith
probe_loop-Within (suc n) buf o s = elim (Option-cases (read_u16 buf o)) [
  | inl unread ↦ ground (arith, unread)
  | inr (raw, read) ↦
      let tw = decode_type_word raw in
      let irig_le = score_irig-le buf o tw in
      let std_le = score_standard-le buf o tw in
      elim (Option-cases (next_probe buf o tw)) [
        | inl last ↦ ground (arith, read, last, irig_le, std_le)
        | inr (next, onward) ↦ ground (
          arith,
          read,
          onward,
          irig_le,
          std_le,
          probe_loop-Within n buf next (add_scores buf o tw s),
        )
      ]
]

-- A probe looks at as many records as it was asked for at most, and one record adds at most 5 points
-- to the IRIG score and 4 to the Standard score.
pub probe_bounds :
    (buf : List ℕ) (o n : ℕ)
    → let r = probe_timestamp_format buf o n in
      (r.irig_score ≤ 5 * r.records_probed)
      × (r.std_score ≤ 4 * r.records_probed)
      × (r.records_probed ≤ max n 1)
unfolding probe_timestamp_format accumulate_probe_scores
probe_bounds buf o n = omega (
  arith,
  probe_loop-Within (max n 1) buf o (record { irig_score = 0; std_score = 0; records_probed = 0 }),
)

-- Unless the verdict is ambiguous, the chosen format leads by at least 3 points and has 4 itself, so
-- that the rule for ties decides nothing.
pub verdict_margin :
    (buf : List ℕ) (o n : ℕ)
    → let r = probe_timestamp_format buf o n in
      r.confidence ≢ ambiguous
      → ((r.format ≡ irig) × (r.std_score + 3 ≤ r.irig_score) × (4 ≤ r.irig_score))
        ⊎ ((r.format ≡ standard) × (r.irig_score + 3 ≤ r.std_score) × (4 ≤ r.std_score))
unfolding probe_timestamp_format
verdict_margin buf o n h = ground arith

-- One record is never decisive.
pub one_record_not_decisive :
    (buf : List ℕ) (o : ℕ) → (probe_timestamp_format buf o 1).confidence ≢ decisive
unfolding probe_timestamp_format
one_record_not_decisive buf o h = ground (arith, probe_bounds buf o 1)

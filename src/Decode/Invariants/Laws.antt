-- ===== src/Decode/Invariants/Laws.antt =====
-- The structural invariants of rust/src/decode.rs, stated without the order of the checks.
use mie_decoder.Common.{
  ℕ, ◌+◌, ◌≤◌, ◌≡◌, refl, ◌↔◌, ◌⊎◌, inl, inr, true, Option, none, some, List, [], ◌∷◌, arith,
}
use mie_decoder.Models.{Direction, MessageType, type_code, MessageFormat, TypeWord, CommandWord}
use mie_decoder.Decode.Invariants.{
  InvariantSeverity, InvariantViolation, reject, anomaly_warn, min_payload_words,
  validate_structural_invariants, is_rt_to_rt, validate_post_extract_invariants,
  detect_record_anomalies,
}

pub record IsConsistent (tw : TypeWord) (cmd : CommandWord) (fmt : MessageFormat) (ts : ℕ)
    : Type 0 where
  pub bc_to_rt :
      tw.message_type ≡ type_code MessageType.bc_to_rt → cmd.direction ≡ Direction.receive
  pub rt_to_bc :
      tw.message_type ≡ type_code MessageType.rt_to_bc → cmd.direction ≡ Direction.transmit
  pub capacity : 1 + ts + 1 + min_payload_words fmt cmd ≤ tw.word_count

Direction-cases : (d : Direction) → (d ≡ Direction.receive) ⊎ (d ≡ Direction.transmit)
Direction-cases Direction.receive = inl refl
Direction-cases Direction.transmit = inr refl

-- A record passes the checks before extraction exactly when it is consistent.
pub validate_structural_iff :
    (tw : TypeWord) (cmd : CommandWord) (fmt : MessageFormat) (ts : ℕ)
    → (validate_structural_invariants tw cmd fmt ts ≡ none) ↔ IsConsistent tw cmd fmt ts
unfolding validate_structural_invariants
validate_structural_iff tw cmd fmt ts = (
  λ h. record {
    bc_to_rt = λ e. ground arith;
    rt_to_bc = λ e. ground arith;
    capacity = ground arith;
  },
  λ c. ground (arith, c.bc_to_rt, c.rt_to_bc),
)

-- The second Command Word of an RT-to-RT record passes exactly when it receives as many words as
-- the first one sends.
pub validate_post_extract_iff :
    (fmt : MessageFormat) (cmd c2 : CommandWord)
    → (validate_post_extract_invariants fmt cmd (some c2) ≡ none) ↔ (
        is_rt_to_rt fmt ≡ true
        → (c2.direction ≡ Direction.receive) × (cmd.data_word_count ≡ c2.data_word_count))
unfolding validate_post_extract_invariants
validate_post_extract_iff fmt cmd c2 = (λ h r. ground arith, λ g. ground (arith, g))

abbrev pub AllSeverity : InvariantSeverity → List InvariantViolation → Type 0
AllSeverity s [] = Unit {0}
AllSeverity s (v ∷ vs) = (v.severity ≡ s) × AllSeverity s vs

-- The severity classes are kept apart: the two validators only reject, the detector only warns.
pub severity_classes :
    (tw : TypeWord) (cmd : CommandWord) (fmt : MessageFormat) (ts : ℕ) (cmd2 : Option CommandWord)
    (status : Option ℕ) (v : InvariantViolation)
    → (validate_structural_invariants tw cmd fmt ts ≡ some v → v.severity ≡ reject)
      × (validate_post_extract_invariants fmt cmd cmd2 ≡ some v → v.severity ≡ reject)
      × AllSeverity anomaly_warn (detect_record_anomalies tw cmd status)
unfolding validate_structural_invariants validate_post_extract_invariants detect_record_anomalies
severity_classes tw cmd fmt ts cmd2 status v = (λ h. ground arith, λ h. ground arith, ground arith)

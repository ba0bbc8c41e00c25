-- ===== src/Decode/Classify/Laws.antt =====
-- Which records classify_message_format of rust/src/decode.rs classifies, and how mode codes fit.
use mie_decoder.Common.{ℕ, ◌+◌, ◌≤◌, ◌<◌, ◌≡◌, ◌≢◌, ◌↔◌, false, none, arith}
use mie_decoder.Models.{is_valid_message_type, CommandWord}
use mie_decoder.Decode.Classify.{classify_mode_code, classify_message_format}
use mie_decoder.Decode.Invariants.{min_payload_words}

-- A record is classified exactly when its message type passes the validity test.
pub classify-is_valid :
    (code : ℕ) (cmd : CommandWord) (wc ts : ℕ)
    → (is_valid_message_type code ≡ false) ↔ (classify_message_format code cmd wc ts ≡ none)
unfolding classify_message_format is_valid_message_type
classify-is_valid code cmd wc ts = (λ h. ground arith, λ h. ground arith)

-- A mode code that holds the framing minimum has room for its payload, but for one shape: a
-- record that is addressed to one terminal and has no room for the status word.
pub classify_mode_code_capacity :
    (cmd : CommandWord) (wc ts : ℕ)
    → ts + 2 ≤ wc
    → (wc < 1 + ts + 1 + min_payload_words (classify_mode_code cmd wc ts) cmd)
      ↔ (cmd.rt ≢ 31) × (wc ≡ ts + 2)
unfolding classify_mode_code
classify_mode_code_capacity cmd wc ts h = (λ g. ground arith, λ g. ground arith)

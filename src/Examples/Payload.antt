-- ===== src/Examples/Payload.antt =====
-- The payload of rust/src/reader.rs on a record of two data words and its status word.
use mie_decoder.Common.{ℕ, ◌≡◌, refl, none, List, [], ◌∷◌, arith}
use mie_decoder.Models.{MessageFormat, CommandWord}
use mie_decoder.Decode.Fields.{decode_command_word}
use mie_decoder.Decode.Invariants.{validate_post_extract_invariants}
use mie_decoder.Reader.Payload.{extract_payload}
use mie_decoder.Reader.Payload.Layout.{IsLaidOut, extract_payload-IsLaidOut}

abbrev two_and_status : List ℕ
two_and_status = 0x34 ∷ 0x12 ∷ 0x78 ∷ 0x56 ∷ 0x00 ∷ 0x28 ∷ []

-- Terminal 5 receives two words at subaddress 3.
abbrev receive_two : CommandWord
receive_two = decode_command_word 0x2862

receive_two_small : receive_two.data_word_count ≡ 2
unfolding decode_command_word
receive_two_small = refl

two_accepted :
    validate_post_extract_invariants MessageFormat.receive receive_two
      (extract_payload two_and_status 0 MessageFormat.receive receive_two).command_word_2
    ≡ none
unfolding validate_post_extract_invariants extract_payload
two_accepted = refl

extract_payload-IsLaidOut_example :
    IsLaidOut two_and_status 0 MessageFormat.receive receive_two
      (extract_payload two_and_status 0 MessageFormat.receive receive_two)
extract_payload-IsLaidOut_example =
    extract_payload-IsLaidOut two_and_status 0 MessageFormat.receive receive_two
      (omega (arith, receive_two_small)) (omega (arith, receive_two_small)) two_accepted

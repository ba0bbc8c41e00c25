-- ===== src/Sync/Validate/Accept.antt =====
-- What an accepted record of rust/src/sync.rs is known to be, and how acceptance depends on the
-- look-ahead.
use mie_decoder.Common.{
  ℕ, zero, suc, ◌+◌, ◌-◌, ◌*◌, ◌≤◌, ◌<◌, max, ◌≡◌, refl, ◌↔◌, ◌⊎◌, inl, inr, Bool, true, false,
  Option, none, some, List, arith, Option-cases,
}
use mie_decoder.Models.{TimestampFormat, is_valid_message_type, TypeWord}
use mie_decoder.Decode.Read.{read_u16}
use mie_decoder.Decode.Fields.{decode_type_word, decode_irig_timestamp}
use mie_decoder.Sync.Validate.{
  min_word_count, check_irig_words, lookahead_loop, validate_lookahead_records, check_record,
  validate_record_detailed_impl, validate_record_detailed,
}

-- The framing of a record with the Type Word `tw`.
pub record IsFramed (buf : List ℕ) (offset file_len min_wc raw : ℕ) : Type 0 where
  pub read : read_u16 buf offset ≡ some raw
  pub known : is_valid_message_type (decode_type_word raw).message_type ≡ true
  pub least : min_wc ≤ (decode_type_word raw).word_count
  pub fits : offset + (decode_type_word raw).word_count * 2 ≤ file_len

check_record_framed :
    (buf : List ℕ) (offset file_len : ℕ) (ts : Option TimestampFormat) (depth : ℕ) (honor : Bool)
    (tw : TypeWord)
    → check_record buf offset file_len ts depth honor tw ≡ none
    → (is_valid_message_type tw.message_type ≡ true)
      × (min_word_count ts ≤ tw.word_count)
      × (offset + tw.word_count * 2 ≤ file_len)
unfolding check_record
check_record_framed buf offset file_len ts depth honor tw h = ground arith

-- An accepted record has a readable Type Word of a known type, the least length of its timestamp
-- format, and lies whole within the file.
pub accepted-IsFramed :
    (buf : List ℕ) (offset file_len : ℕ) (ts : Option TimestampFormat) (depth : ℕ) (honor : Bool)
    → validate_record_detailed_impl buf offset file_len ts depth honor ≡ none
    → (raw : ℕ) × IsFramed buf offset file_len (min_word_count ts) raw
unfolding validate_record_detailed_impl
accepted-IsFramed buf offset file_len ts depth honor h = elim (Option-cases (read_u16 buf offset)) [
  | inl unread ↦ absurd (ground (arith, unread))
  | inr (raw, read) ↦
      let checked : check_record buf offset file_len ts depth honor (decode_type_word raw) ≡ none =
        ground (arith, read) in
      let (known, least, fits) = check_record_framed buf offset file_len ts depth honor _ checked in
      (raw, record { read = read; known = known; least = least; fits = fits })
]

-- The tests on the words of an IRIG timestamp pass exactly when the timestamp that they decode to
-- has its hour, minute, second and microsecond in range, and its day too unless it runs free.
pub check_irig_words_iff :
    (upper middle lower : ℕ)
    → let t = decode_irig_timestamp upper middle lower in
      (check_irig_words upper middle lower ≡ none)
      ↔ (t.hour < 24)
        × (t.minute < 60)
        × (t.second < 60)
        × (t.microsecond < 1_000_000)
        × ((t.freerun ≡ true) ⊎ ((1 ≤ t.day) × (t.day ≤ 366)))
unfolding check_irig_words decode_irig_timestamp
check_irig_words_iff upper middle lower = (λ h. ground arith, λ h. ground arith)

-- A deeper look-ahead accepts no walk that a shallower one rejects.
lookahead_antitone :
    (n k : ℕ) (buf : List ℕ) (o file_len min_wc : ℕ) (honor : Bool)
    → k ≤ n
    → lookahead_loop n buf o file_len min_wc honor ≡ none
    → lookahead_loop k buf o file_len min_wc honor ≡ none
unfolding lookahead_loop
lookahead_antitone n zero buf o file_len min_wc honor h e = refl
lookahead_antitone zero (suc k) buf o file_len min_wc honor h e = absurd (omega arith)
lookahead_antitone (suc n) (suc k) buf o file_len min_wc honor h e =
    grind (arith, λ (next : ℕ). lookahead_antitone n k buf next file_len min_wc honor (omega arith))

-- A walk that takes no terminator for an end accepts less.
lookahead_strict :
    (n : ℕ) (buf : List ℕ) (o file_len min_wc : ℕ)
    → lookahead_loop n buf o file_len min_wc false ≡ none
    → lookahead_loop n buf o file_len min_wc true ≡ none
unfolding lookahead_loop
lookahead_strict zero buf o file_len min_wc e = refl
lookahead_strict (suc n) buf o file_len min_wc e =
    grind (arith, λ (next : ℕ). lookahead_strict n buf next file_len min_wc)

check_record_antitone :
    (n k : ℕ) (buf : List ℕ) (o file_len : ℕ) (ts : Option TimestampFormat) (honor : Bool)
    (tw : TypeWord)
    → k ≤ n
    → check_record buf o file_len ts n honor tw ≡ none
    → check_record buf o file_len ts k honor tw ≡ none
unfolding check_record validate_lookahead_records
check_record_antitone n k buf o file_len ts honor tw h e = ground (
  arith,
  lookahead_antitone (max n 1 - 1) (max k 1 - 1) buf (o + tw.word_count * 2) file_len
      (min_word_count ts) honor (omega arith),
)

check_record_strict :
    (n : ℕ) (buf : List ℕ) (o file_len : ℕ) (ts : Option TimestampFormat) (tw : TypeWord)
    → check_record buf o file_len ts n false tw ≡ none
    → check_record buf o file_len ts n true tw ≡ none
unfolding check_record validate_lookahead_records
check_record_strict n buf o file_len ts tw e =
    ground (
      arith,
      lookahead_strict (max n 1 - 1) buf (o + tw.word_count * 2) file_len (min_word_count ts),
    )

-- Acceptance can only be lost by looking further ahead.
pub accept_antitone :
    (n k : ℕ) (buf : List ℕ) (o file_len : ℕ) (ts : Option TimestampFormat) (honor : Bool)
    → k ≤ n
    → validate_record_detailed_impl buf o file_len ts n honor ≡ none
    → validate_record_detailed_impl buf o file_len ts k honor ≡ none
unfolding validate_record_detailed_impl
accept_antitone n k buf o file_len ts honor h e = elim (Option-cases (read_u16 buf o)) [
  | inl unread ↦ ground (arith, unread)
  | inr (raw, read) ↦
      ground
        (arith, read, check_record_antitone n k buf o file_len ts honor (decode_type_word raw) h)
]

-- What sync recovery accepts, which takes no null word for the end of the records, forward
-- validation accepts too, at the same depth and at every smaller one.
pub recovery_accepts_less :
    (n k : ℕ) (buf : List ℕ) (o file_len : ℕ) (ts : Option TimestampFormat)
    → k ≤ n
    → validate_record_detailed_impl buf o file_len ts n false ≡ none
    → validate_record_detailed buf o file_len ts k ≡ none
unfolding validate_record_detailed validate_record_detailed_impl
recovery_accepts_less n k buf o file_len ts h e =
    accept_antitone n k buf o file_len ts true h (elim (Option-cases (read_u16 buf o)) [
      | inl unread ↦ ground (arith, unread)
      | inr (raw, read) ↦
          ground (arith, read, check_record_strict n buf o file_len ts (decode_type_word raw))
    ])

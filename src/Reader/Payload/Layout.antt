-- ===== src/Reader/Payload/Layout.antt =====
-- Where rust/src/reader.rs finds the words of a payload, by the layout of each format.
use mie_decoder.Common.{
  ℕ, zero, suc, ◌+◌, ◌*◌, ◌≤◌, ◌<◌, ◌≡◌, refl, sym, ◌∙◌, ap, List, [], ◌∷◌, Option, none, some,
  arith, length, get_elem?,
}
use mie_decoder.Models.{MessageFormat, CommandWord}
use mie_decoder.Models.DataWords.{as_slice}
use mie_decoder.Models.DataWords.Laws.{as_slice-from_slice}
use mie_decoder.Decode.Read.{read_u16, read_u16-some}
use mie_decoder.Decode.Fields.{decode_command_word}
use mie_decoder.Decode.Invariants.{min_payload_words, validate_post_extract_invariants}
use mie_decoder.Reader.Payload.{one_word, or_zero, Payload, read_n, extract_payload}
use mie_decoder.Reader.Payload.Words.{read_n-read_u16}
use mie_decoder.Reader.Payload.Complete.{data_words_of, same_count, extract_payload-IsComplete}

-- The places of the words on the bus, counted in words behind the first Command Word, for a format
-- of `n` data words.
abbrev pub second_command_at : MessageFormat → Option ℕ
second_command_at MessageFormat.rt_to_rt = some 0
second_command_at MessageFormat.rt_to_rt_broadcast = some 0
second_command_at _ = none

abbrev pub status_at : MessageFormat → ℕ → Option ℕ
status_at MessageFormat.receive n = some n
status_at MessageFormat.transmit n = some 0
status_at MessageFormat.rt_to_rt n = some 1
status_at MessageFormat.rt_to_rt_broadcast n = some 1
status_at MessageFormat.mode_code_no_data n = some 0
status_at MessageFormat.mode_code_tx_data n = some 0
status_at MessageFormat.mode_code_rx_data n = some 1
status_at _ n = none

abbrev pub second_status_at : MessageFormat → ℕ → Option ℕ
second_status_at MessageFormat.rt_to_rt n = some (2 + n)
second_status_at _ n = none

-- The place of the first data word.
abbrev pub data_at : MessageFormat → ℕ
data_at MessageFormat.transmit = 1
data_at MessageFormat.rt_to_rt = 2
data_at MessageFormat.rt_to_rt_broadcast = 2
data_at MessageFormat.mode_code_tx_data = 1
data_at _ = 0

-- The word of a place, behind the offset `p`.
abbrev pub word_at : List ℕ → ℕ → ℕ → Option ℕ
word_at buf p i = read_u16 buf (p + 2 * i)

-- The word at the place if there is one, and nothing else.
abbrev pub IsAt : List ℕ → ℕ → Option ℕ → Option ℕ → Type 0
IsAt buf p none w = w ≡ none
IsAt buf p (some i) w = (v : ℕ) × (word_at buf p i ≡ some v) × (w ≡ some v)

abbrev pub IsCommandAt : List ℕ → ℕ → Option ℕ → Option CommandWord → Type 0
IsCommandAt buf p none c = c ≡ none
IsCommandAt buf p (some i) c =
    (v : ℕ) × (word_at buf p i ≡ some v) × (c ≡ some (decode_command_word v))

-- Every word of the payload is the one at its place, and there is no other.
pub record IsLaidOut (buf : List ℕ) (p : ℕ) (fmt : MessageFormat) (cmd : CommandWord)
    (payload : Payload) : Type 0 where
  pub second_command : IsCommandAt buf p (second_command_at fmt) payload.command_word_2
  pub status : IsAt buf p (status_at fmt cmd.data_word_count) payload.status_word
  pub second_status : IsAt buf p (second_status_at fmt cmd.data_word_count) payload.status_word_2
  pub count : length (as_slice payload.data_words) ≡ data_words_of fmt cmd
  pub words :
      (i : ℕ)
      → i < data_words_of fmt cmd
      → get_elem? (as_slice payload.data_words) i ≡ word_at buf p (data_at fmt + i)

word_there :
    (buf : List ℕ) (p i o : ℕ)
    → o ≡ p + 2 * i
    → o + 2 ≤ length buf
    → IsAt buf p (some i) (read_u16 buf o)
word_there buf p i o e room =
    let (v, found) = read_u16-some buf o room in (v, ap (read_u16 buf) (sym e) ∙ found, found)

command_there :
    (buf : List ℕ) (p : ℕ)
    → p + 2 ≤ length buf
    → IsCommandAt buf p (some 0) (some (decode_command_word (or_zero (read_u16 buf p))))
command_there buf p room =
    let (v, found) = read_u16-some buf p room in
    let here : p + 2 * 0 ≡ p = omega arith in
    (
      v,
      ap (read_u16 buf) here ∙ found,
      ap (λ (o : Option ℕ). some (decode_command_word (or_zero o))) found,
    )

words_there :
    (buf : List ℕ) (p k start n i : ℕ)
    → start ≡ p + 2 * k
    → n ≤ 32
    → start + n * 2 ≤ length buf
    → i < n
    → get_elem? (as_slice (read_n buf start n)) i ≡ word_at buf p (k + i)
words_there buf p k start n i e small room below =
    let same : start + i * 2 ≡ p + 2 * (k + i) = omega (arith, e) in
    read_n-read_u16 buf start n i small room below ∙ ap (read_u16 buf) same

one_there :
    (buf : List ℕ) (p k start i : ℕ)
    → start ≡ p + 2 * k
    → start + 2 ≤ length buf
    → i < 1
    → get_elem? (as_slice (one_word (read_u16 buf start))) i ≡ word_at buf p (k + i)
one_there buf p k start (suc i) e room below = absurd (omega arith)
one_there buf p k start zero e room below =
    let (w, found) = read_u16-some buf start room in
    let same : start ≡ p + 2 * (k + 0) = omega (arith, e) in
    ap (λ (o : Option ℕ). get_elem? (as_slice (one_word o)) 0) found
    ∙ ap (λ (ws : List ℕ). get_elem? ws 0) (as_slice-from_slice (w ∷ []))
    ∙ sym found
    ∙ ap (read_u16 buf) same

-- Where a record has room for the payload of its format, of up to 32 data words, and the check after
-- extraction passes, the second Command Word, both status words and each data word are the words at
-- their places in the layout of the format, and there is none that the format has not.
pub extract_payload-IsLaidOut :
    (buf : List ℕ) (p : ℕ) (fmt : MessageFormat) (cmd : CommandWord)
    → cmd.data_word_count ≤ 32
    → p + 2 * min_payload_words fmt cmd ≤ length buf
    → validate_post_extract_invariants fmt cmd (extract_payload buf p fmt cmd).command_word_2 ≡ none
    → IsLaidOut buf p fmt cmd (extract_payload buf p fmt cmd)
unfolding extract_payload
extract_payload-IsLaidOut buf p MessageFormat.receive cmd small room valid = record {
  second_command = refl;
  status =
      word_there buf p cmd.data_word_count (p + cmd.data_word_count * 2) (omega arith)
        (omega arith);
  second_status = refl;
  count = (extract_payload-IsComplete buf p MessageFormat.receive cmd small room valid).words;
  words = λ i h. words_there buf p 0 p cmd.data_word_count i (omega arith) small (omega arith) h;
}
extract_payload-IsLaidOut buf p MessageFormat.transmit cmd small room valid = record {
  second_command = refl;
  status = word_there buf p 0 p (omega arith) (omega arith);
  second_status = refl;
  count = (extract_payload-IsComplete buf p MessageFormat.transmit cmd small room valid).words;
  words =
      λ i h. words_there buf p 1 (p + 2) cmd.data_word_count i (omega arith) small (omega arith) h;
}
extract_payload-IsLaidOut buf p MessageFormat.rt_to_rt cmd small room valid =
    let c2 = decode_command_word (or_zero (read_u16 buf p)) in
    let same = same_count MessageFormat.rt_to_rt cmd c2 refl valid in
    record {
      second_command = command_there buf p (omega arith);
      status = word_there buf p 1 (p + 2) (omega arith) (omega arith);
      second_status =
          word_there buf p (2 + cmd.data_word_count) (p + 4 + c2.data_word_count * 2)
            (omega (arith, same)) (omega (arith, same));
      count = (extract_payload-IsComplete buf p MessageFormat.rt_to_rt cmd small room valid).words;
      words = λ i h.
          words_there buf p 2 (p + 4) c2.data_word_count i (omega arith) (omega (arith, same))
            (omega (arith, same)) (omega (arith, same));
    }
extract_payload-IsLaidOut buf p MessageFormat.receive_broadcast cmd small room valid = record {
  second_command = refl;
  status = refl;
  second_status = refl;
  count =
      (extract_payload-IsComplete buf p MessageFormat.receive_broadcast cmd small room valid).words;
  words = λ i h. words_there buf p 0 p cmd.data_word_count i (omega arith) small (omega arith) h;
}
extract_payload-IsLaidOut buf p MessageFormat.rt_to_rt_broadcast cmd small room valid =
    let c2 = decode_command_word (or_zero (read_u16 buf p)) in
    let same = same_count MessageFormat.rt_to_rt_broadcast cmd c2 refl valid in
    record {
      second_command = command_there buf p (omega arith);
      status = word_there buf p 1 (p + 2) (omega arith) (omega arith);
      second_status = refl;
      count =
          (extract_payload-IsComplete buf p MessageFormat.rt_to_rt_broadcast cmd small room
            valid).words;
      words = λ i h.
          words_there buf p 2 (p + 4) c2.data_word_count i (omega arith) (omega (arith, same))
            (omega (arith, same)) (omega (arith, same));
    }
extract_payload-IsLaidOut buf p MessageFormat.mode_code_tx_data cmd small room valid = record {
  second_command = refl;
  status = word_there buf p 0 p (omega arith) (omega arith);
  second_status = refl;
  count =
      (extract_payload-IsComplete buf p MessageFormat.mode_code_tx_data cmd small room valid).words;
  words = λ i h. one_there buf p 1 (p + 2) i (omega arith) (omega arith) h;
}
extract_payload-IsLaidOut buf p MessageFormat.mode_code_rx_data cmd small room valid = record {
  second_command = refl;
  status = word_there buf p 1 (p + 2) (omega arith) (omega arith);
  second_status = refl;
  count =
      (extract_payload-IsComplete buf p MessageFormat.mode_code_rx_data cmd small room valid).words;
  words = λ i h. one_there buf p 0 p i (omega arith) (omega arith) h;
}
extract_payload-IsLaidOut buf p MessageFormat.mode_code_no_data cmd small room valid = record {
  second_command = refl;
  status = word_there buf p 0 p (omega arith) (omega arith);
  second_status = refl;
  count =
      (extract_payload-IsComplete buf p MessageFormat.mode_code_no_data cmd small room valid).words;
  words = λ i h. absurd (omega arith);
}
extract_payload-IsLaidOut buf p MessageFormat.mode_code_bcast_no_data cmd small room valid =
    record {
      second_command = refl;
      status = refl;
      second_status = refl;
      count =
          (extract_payload-IsComplete buf p MessageFormat.mode_code_bcast_no_data cmd small room
            valid).words;
      words = λ i h. absurd (omega arith);
    }
extract_payload-IsLaidOut buf p MessageFormat.mode_code_bcast_data cmd small room valid = record {
  second_command = refl;
  status = refl;
  second_status = refl;
  count =
      (extract_payload-IsComplete buf p MessageFormat.mode_code_bcast_data cmd small room
        valid).words;
  words = λ i h. one_there buf p 0 p i (omega arith) (omega arith) h;
}
extract_payload-IsLaidOut buf p MessageFormat.spurious_data cmd small room valid = record {
  second_command = refl;
  status = refl;
  second_status = refl;
  count = (extract_payload-IsComplete buf p MessageFormat.spurious_data cmd small room valid).words;
  words = λ i h. absurd (omega arith);
}

-- ===== src/Reader/Next.antt =====
-- The steps of rust/src/reader.rs as progress through the file.
pub mod Resync
pub mod Branches
pub mod Progress
pub mod Run
pub mod Order
use mie_decoder.Common.{
  Option, none, some, ◌+◌, ◌*◌, ◌^◌, ◌≤◌, ◌<◌, ◌≡◌, Bool, true, false, ◌&&◌, not, ◌==◌, length,
}
use mie_decoder.Reader.Payload.{Payload}
use mie_decoder.Reader.Payload.Complete.{IsComplete}
use mie_decoder.Models.{MessageFormat, CommandWord, TypeWord, MessageType, type_code}
use mie_decoder.Models.Message.{MieMessage, ok, err}
use mie_decoder.Error.{is_record_error}
use mie_decoder.Reader.State.{RecordIter, Step, continue, yield, stop}

abbrev pub is_spurious_type : TypeWord → Bool
is_spurious_type tw = tw.message_type == type_code MessageType.spurious_data

-- A message with its Command Word and every word that its format has.
abbrev pub HasPayload : Option CommandWord → MessageFormat → Payload → Type 0
HasPayload none fmt p = ⊥
HasPayload (some cmd) fmt p = IsComplete fmt cmd p

module _ {F : Type 0} where
  abbrev pub IsWhole : MieMessage F → Type 0
  IsWhole msg = HasPayload msg.command_word msg.message_format (record {
    command_word_2 = msg.command_word_2;
    status_word = msg.status_word;
    status_word_2 = msg.status_word_2;
    data_words = msg.data_words;
  })

  -- The file that is decoded, and its size within the address space.
  pub record IsOpen (s : RecordIter F) : Type 0 where
    pub whole : s.file_len ≡ length s.bytes
    pub small : s.file_len < 2 ^ 63

  -- What no step changes.
  pub record Frame (s s' : RecordIter F) : Type 0 where
    pub bytes : s'.bytes ≡ s.bytes
    pub file_len : s'.file_len ≡ s.file_len
    pub strict : s'.strict ≡ s.strict
    pub resolved_format : s'.resolved_format ≡ s.resolved_format

  -- A step goes on further into the file, which only a lenient decode does, or emits the record at
  -- its offset and goes on behind it, or is the last one. A record that is neither errored nor
  -- spurious has its whole payload.
  abbrev pub Outcome : RecordIter F → RecordIter F → Step F → Type 0
  Outcome s s' continue =
      (s.offset < s'.offset)
      × (s'.done ≡ s.done)
      × (s'.msg_count ≡ s.msg_count)
      × (s'.prev_was_error ≡ false)
      × (s'.offset ≤ s.file_len)
      × (s.strict ≡ false)
  Outcome s s' (yield (ok msg)) =
      (s.offset < s'.offset)
      × (s'.done ≡ s.done)
      × (s'.msg_count ≡ s.msg_count + 1)
      × (s'.prev_was_error ≡ (msg.type_word.error && not (is_spurious_type msg.type_word)))
      × (s'.offset ≤ s.file_len)
      × (msg.file_offset ≡ s.offset)
      × (s'.offset ≡ s.offset + msg.type_word.word_count * 2)
      × (msg.type_word.error ≡ false → is_spurious_type msg.type_word ≡ false → IsWhole msg)
  Outcome s s' (yield (err e)) =
      (s'.done ≡ true) × (s'.msg_count ≡ s.msg_count) × (is_record_error e ≡ true)
  Outcome s s' stop = (s'.done ≡ true) × (s'.msg_count ≡ s.msg_count)

  abbrev pub Progress : RecordIter F → RecordIter F × Step F → Type 0
  Progress s r = Frame s r.0 × Outcome s r.0 r.1

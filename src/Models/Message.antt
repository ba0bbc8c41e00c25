-- ===== src/Models/Message.antt =====
-- rust/src/models.rs, `MieMessage`: one decoded record.
pub mod Drain
use Prim.Native.String.{String}
use mie_decoder.Common.{ℕ, Bool, true, false, Option, none, some, if◌then◌else◌}
use mie_decoder.Models.{Bus, MessageFormat, TypeWord, CommandWord}
use mie_decoder.Models.DataWords.{DataWords}
use mie_decoder.Models.Timestamp.{Timestamp}

-- `F` is the type of `DELTA`, an `f64` in the source.
pub record MieMessage (F : Type 0) : Type 0 where
  pub timestamp : Timestamp
  pub type_word : TypeWord
  pub message_format : MessageFormat
  pub command_word : Option CommandWord
  pub command_word_2 : Option CommandWord
  pub status_word : Option ℕ
  pub status_word_2 : Option ℕ
  pub data_words : DataWords
  pub error_word : Option ℕ
  pub delta : Option F
  pub file_offset : ℕ
  pub mux : Option String

-- `Result<MieMessage, E>`, what the iterators of the pipeline yield.
pub data Item (F E : Type 0) : Type 0 where
  ok : MieMessage F → Item F E
  err : E → Item F E

-- What a call of an iterator's `next` gives; `exhausted` is no value of the source: the fuel of the
-- model ran out.
pub data Row (F E : Type 0) : Type 0 where
  row : Item F E → Row F E
  end exhausted : Row F E

module _ {F : Type 0} where
  unfoldable pub rt : MieMessage F → Option ℕ
  rt msg = elim (msg.command_word) [ none ↦ none | some cw ↦ some cw.rt ]

  unfoldable pub subaddress : MieMessage F → Option ℕ
  subaddress msg = elim (msg.command_word) [ none ↦ none | some cw ↦ some cw.subaddress ]

  unfoldable pub bus : MieMessage F → Bus
  bus msg = msg.type_word.bus

  unfoldable pub is_error : MieMessage F → Bool
  is_error msg = msg.type_word.error

  unfoldable pub is_spurious : MieMessage F → Bool
  is_spurious msg = elim (msg.message_format) [
    | MessageFormat.receive ↦ false
    | MessageFormat.spurious_data ↦ true
    | _ ↦ false
  ]

  unfoldable pub error_label : MieMessage F → String
  error_label msg =
      if msg.type_word.error then "ERROR" else if is_spurious msg then "SPURIOUS" else ""

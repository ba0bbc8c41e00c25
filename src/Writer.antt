-- ===== src/Writer.antt =====
-- rust/src/writer.rs: the text of a CSV row, as a list of character codes.
pub mod Rows
pub mod Cells
pub mod Written
pub mod Stream
pub mod Split
use mie_decoder.Common.{
  ℕ, zero, suc, ◌⊎◌, inl, inr, Bool, false, ◌||◌, Option, none, some, List, [], ◌∷◌, ◌++◌, ◌==◌,
  if◌then◌else◌,
}
use mie_decoder.Models.{Bus, Direction}
use mie_decoder.Models.Text.{codes, decimal, hex4, format_with, TimeRender}
use mie_decoder.Error.{MieError}
use mie_decoder.Models.DataWords.{max_data_words, as_slice}
use mie_decoder.Models.Message.{MieMessage, rt, bus, error_label}

abbrev pub vendor_column_count : ℕ
vendor_column_count = 44

-- `value.contains([',', '"', '\n', '\r'])`.
abbrev is_special : ℕ → Bool
is_special c = c == b',' || (c == b'"' || (c == b'\n' || c == b'\r'))

abbrev pub has_special : List ℕ → Bool
has_special [] = false
has_special (c ∷ cs) = is_special c || has_special cs

-- Every quote twice.
abbrev pub double_quotes : List ℕ → List ℕ
double_quotes [] = []
double_quotes (c ∷ cs) =
    let more = double_quotes cs in if c == b'"' then b'"' ∷ b'"' ∷ more else c ∷ more

unfoldable pub write_csv_field : List ℕ → List ℕ
write_csv_field value =
    if has_special value then b'"' ∷ (double_quotes value ++ b'"' ∷ []) else value

abbrev pub as_str : Bus → List ℕ
as_str Bus.bus_a = b'A' ∷ []
as_str Bus.bus_b = b'B' ∷ []

abbrev suffix : Direction → ℕ
suffix Direction.transmit = b'T'
suffix Direction.receive = b'R'

-- `if let Some(x) = o { write!(...) }`.
abbrev pub cell_of {ℓ} : {A : Type ℓ} → (A → List ℕ) → Option A → List ℕ
cell_of show none = []
cell_of show (some x) = show x

-- One write behind the other.
infixr 60 ◌▸◌
abbrev pub ◌▸◌ : List ℕ → List ℕ → List ℕ
text ▸ more = text ++ more

abbrev pub comma : List ℕ
comma = b',' ∷ []

-- The cells of the words from some place on, `n` of them, each with its comma.
unfoldable pub word_cells : ℕ → List ℕ → List ℕ
unfolding hex4
word_cells zero words = []
word_cells (suc n) [] = comma ▸ word_cells n []
word_cells (suc n) (w ∷ words) = hex4 w ▸ comma ▸ word_cells n words

module _ {F : Type 0} where
  unfoldable pub msg_label : MieMessage F → List ℕ
  unfolding decimal
  msg_label msg = cell_of (λ cw. decimal cw.subaddress ++ suffix cw.direction ∷ []) msg.command_word

  -- `fixed6` is `{:.6}` of the `f64`.
  unfoldable pub write_row : (F → List ℕ) → MieMessage F → List ℕ → List ℕ
  unfolding decimal msg_label word_cells hex4 write_csv_field rt bus error_label
  write_row fixed6 msg timestamp =
      timestamp
      ▸ comma
      ▸ cell_of decimal (rt msg)
      ▸ comma
      ▸ msg_label msg
      ▸ comma
      ▸ word_cells max_data_words (as_slice msg.data_words)
      ▸ cell_of hex4 msg.status_word
      ▸ comma
      ▸ cell_of (λ cw. hex4 cw.raw) msg.command_word
      ▸ comma
      ▸ cell_of (λ mux. write_csv_field (codes mux)) msg.mux
      ▸ comma
      ▸ comma
      ▸ as_str (bus msg)
      ▸ comma
      ▸ cell_of fixed6 msg.delta
      ▸ comma
      ▸ comma
      ▸ comma
      ▸ comma
      ▸ codes (error_label msg)
      ▸ comma
      ▸ cell_of hex4 msg.error_word
      ▸ b'\n' ∷ []

  -- `write_message`, whose writes are one text here: the row, or the error before any of it.
  unfoldable pub write_message : (F → List ℕ) → TimeRender → MieMessage F → MieError ⊎ List ℕ
  unfolding format_with write_row
  write_message fixed6 render msg = elim (format_with msg.timestamp render) [
    | inl e ↦ inl MieError.calendar_unavailable
    | inr timestamp ↦ inr (write_row fixed6 msg timestamp)
  ]

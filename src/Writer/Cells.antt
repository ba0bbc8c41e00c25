-- ===== src/Writer/Cells.antt =====
-- The cells of a row of rust/src/writer.rs, and that the row is read back as them.
use Prim.Native.String.{String}
use mie_decoder.Common.{
  ℕ, zero, suc, ◌≡◌, refl, inr, Option, none, some, List, [], ◌∷◌, ◌++◌, arith, if_intro, length,
  length-append, append_assoc, All-append,
}
use mie_decoder.Models.{CommandWord}
use mie_decoder.Models.Text.{codes, decimal, hex4}
use mie_decoder.Models.Text.Plain.{IsPlain, decimal-IsPlain, hex4-IsPlain}
use mie_decoder.Models.DataWords.{max_data_words, as_slice}
use mie_decoder.Models.Message.{MieMessage, rt, bus, error_label, is_spurious}
use mie_decoder.Writer.{
  write_csv_field, as_str, cell_of, comma, ◌▸◌, word_cells, msg_label, suffix, write_row,
}
use mie_decoder.Writer.Rows.{
  read_row, Reads, plain-Reads, write_csv_field-Reads, cell_of-IsPlain, bus-IsPlain, suffix-IsPlain,
  IsRow, cell_then, plain_then,
}

-- The cells of `n` words, empty where there are no more.
abbrev pub word_values : ℕ → List ℕ → List (List ℕ)
word_values zero words = []
word_values (suc n) [] = [] ∷ word_values n []
word_values (suc n) (w ∷ words) = hex4 w ∷ word_values n words

length-word_values : (n : ℕ) (words : List ℕ) → length (word_values n words) ≡ n
length-word_values zero words = refl
length-word_values (suc n) [] = omega (arith, length-word_values n [])
length-word_values (suc n) (w ∷ words) = omega (arith, length-word_values n words)

words_then :
    (n : ℕ) (words : List ℕ) {rest : List ℕ} {values : List (List ℕ)}
    → IsRow rest values
    → IsRow (word_cells n words ++ rest) (word_values n words ++ values)
unfolding word_cells
words_then zero words e = e
words_then (suc n) [] e = plain_then [] tt (words_then n [] e)
words_then (suc n) (w ∷ words) {rest} e =
    rw (append_assoc (hex4 w) (comma ++ word_cells n words) rest)
      (plain_then (hex4 w) (hex4-IsPlain w) (words_then n words e))

mux-Reads :
    (mux : Option String)
    → Reads (cell_of (λ mux. write_csv_field (codes mux)) mux) (cell_of codes mux)
mux-Reads none = plain-Reads [] tt
mux-Reads (some mux) = write_csv_field-Reads (codes mux)

codes-IsPlain : IsPlain (codes "ERROR") × (IsPlain (codes "SPURIOUS") × IsPlain (codes ""))
codes-IsPlain = (
  (
    (omega arith, omega arith, omega arith, omega arith),
    (
      (omega arith, omega arith, omega arith, omega arith),
      (
        (omega arith, omega arith, omega arith, omega arith),
        (
          (omega arith, omega arith, omega arith, omega arith),
          ((omega arith, omega arith, omega arith, omega arith), tt),
        ),
      ),
    ),
  ),
  (
    (
      (omega arith, omega arith, omega arith, omega arith),
      (
        (omega arith, omega arith, omega arith, omega arith),
        (
          (omega arith, omega arith, omega arith, omega arith),
          (
            (omega arith, omega arith, omega arith, omega arith),
            (
              (omega arith, omega arith, omega arith, omega arith),
              (
                (omega arith, omega arith, omega arith, omega arith),
                (
                  (omega arith, omega arith, omega arith, omega arith),
                  ((omega arith, omega arith, omega arith, omega arith), tt),
                ),
              ),
            ),
          ),
        ),
      ),
    ),
    tt,
  ),
)

module _ {F : Type 0} where
  msg_label-IsPlain : (msg : MieMessage F) → IsPlain (msg_label msg)
  unfolding msg_label
  msg_label-IsPlain msg = cell_of-IsPlain _ msg.command_word (λ cw.
      All-append _ (decimal cw.subaddress) (suffix cw.direction ∷ [])
        (decimal-IsPlain cw.subaddress) (suffix-IsPlain cw.direction))

  error_label-IsPlain : (msg : MieMessage F) → IsPlain (codes (error_label msg))
  unfolding error_label
  error_label-IsPlain msg =
      if_intro (λ t. IsPlain (codes t)) msg.type_word.error _ _ (λ e. codes-IsPlain.0)
        (λ n.
          if_intro (λ t. IsPlain (codes t)) (is_spurious msg) _ _ (λ e. codes-IsPlain.1.0)
            (λ m. codes-IsPlain.1.1))

  -- The cells of a message: the 44 columns of the vendor's table, then ERROR and ERROR_CODE.
  abbrev pub cells : (F → List ℕ) → MieMessage F → List ℕ → List (List ℕ)
  cells fixed6 msg timestamp =
      timestamp
        ∷ cell_of decimal (rt msg)
        ∷ msg_label msg
        ∷ word_values max_data_words (as_slice msg.data_words)
      ++ cell_of hex4 msg.status_word
        ∷ cell_of (λ cw. hex4 cw.raw) msg.command_word
        ∷ cell_of codes msg.mux
        ∷ []
        ∷ as_str (bus msg)
        ∷ cell_of fixed6 msg.delta
        ∷ []
        ∷ []
        ∷ []
        ∷ codes (error_label msg)
        ∷ cell_of hex4 msg.error_word
        ∷ []

  pub length-cells :
      (fixed6 : F → List ℕ) (msg : MieMessage F) (timestamp : List ℕ)
      → length (cells fixed6 msg timestamp) ≡ 46
  length-cells fixed6 msg timestamp = omega (
    arith,
    length-append (word_values max_data_words (as_slice msg.data_words)) _,
    length-word_values max_data_words (as_slice msg.data_words),
  )

  -- What a row has behind the data words.
  behind_words :
      (fixed6 : F → List ℕ) (msg : MieMessage F)
      → ((d : F) → IsPlain (fixed6 d))
      → IsRow
          (cell_of hex4 msg.status_word
            ▸ comma
            ▸ cell_of (λ cw. hex4 cw.raw) msg.command_word
            ▸ comma
            ▸ cell_of (λ mux. write_csv_field (codes mux)) msg.mux
            ▸ comma
            ▸ comma
            ▸ as_str (bus msg)
            ▸ comma
            ▸ cell_of fixed6 msg.delta
            ▸ comma
            ▸ comma
            ▸ comma
            ▸ comma
            ▸ codes (error_label msg)
            ▸ comma
            ▸ cell_of hex4 msg.error_word
            ▸ b'\n' ∷ [])
          (cell_of hex4 msg.status_word
            ∷ cell_of (λ cw. hex4 cw.raw) msg.command_word
            ∷ cell_of codes msg.mux
            ∷ []
            ∷ as_str (bus msg)
            ∷ cell_of fixed6 msg.delta
            ∷ []
            ∷ []
            ∷ []
            ∷ codes (error_label msg)
            ∷ cell_of hex4 msg.error_word
            ∷ [])
  behind_words fixed6 msg f =
      let raw = cell_of (λ (cw : CommandWord). hex4 cw.raw) msg.command_word in
      let code = cell_of hex4 msg.error_word in
      plain_then (cell_of hex4 msg.status_word) (cell_of-IsPlain hex4 msg.status_word hex4-IsPlain)
        (plain_then raw
          (cell_of-IsPlain (λ cw. hex4 cw.raw) msg.command_word (λ cw. hex4-IsPlain cw.raw))
          (cell_then _ (cell_of codes msg.mux) (mux-Reads msg.mux) (
            plain_then [] tt (
              plain_then (as_str (bus msg)) (bus-IsPlain (bus msg)) (
                plain_then (cell_of fixed6 msg.delta) (cell_of-IsPlain fixed6 msg.delta f) (
                  plain_then [] tt (
                    plain_then [] tt (
                      plain_then [] tt (
                        plain_then (codes (error_label msg)) (error_label-IsPlain msg) (record {
                          reads =
                              plain-Reads code (cell_of-IsPlain hex4 msg.error_word hex4-IsPlain)
                                b'\n' [] (inr refl);
                        }))))))))))

  pub write_row-cells :
      (fixed6 : F → List ℕ) (msg : MieMessage F) (timestamp : List ℕ)
      → IsPlain timestamp
      → ((d : F) → IsPlain (fixed6 d))
      → read_row (write_row fixed6 msg timestamp) ≡ cells fixed6 msg timestamp
  unfolding write_row
  write_row-cells fixed6 msg ts h f =
      (plain_then ts h (
        plain_then (cell_of decimal (rt msg)) (cell_of-IsPlain decimal (rt msg) decimal-IsPlain) (
          plain_then (msg_label msg) (msg_label-IsPlain msg) (
            words_then max_data_words (as_slice msg.data_words)
              (behind_words fixed6 msg f))))).reads

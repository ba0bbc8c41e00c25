-- ===== src/Writer/Written.antt =====
-- What `write_message` of rust/src/writer.rs writes for a message.
use mie_decoder.Common.{ℕ, ◌+◌, ◌≡◌, refl, ap, ◌∙◌, ◌⊎◌, inl, inr, List, length}
use mie_decoder.Models.Message.{MieMessage}
use mie_decoder.Models.Text.{TimeRender, CalendarError, format_with}
use mie_decoder.Models.Text.Plain.{IsPlain, Rendered, format_with-Rendered}
use mie_decoder.Error.{MieError}
use mie_decoder.Writer.{write_message, write_row, vendor_column_count}
use mie_decoder.Writer.Rows.{read_row}
use mie_decoder.Writer.Cells.{cells, length-cells, write_row-cells}

module _ {F : Type 0} where
  -- The row is read back as the cells of the message, as many as the vendor's columns and two more; without a
  -- rendering of the timestamp nothing is written.
  abbrev pub Written :
      (F → List ℕ) → MieMessage F → CalendarError ⊎ List ℕ → MieError ⊎ List ℕ → Type 0
  Written fixed6 msg (inl e) (inl failed) = failed ≡ MieError.calendar_unavailable
  Written fixed6 msg (inr timestamp) (inr row) =
      (read_row row ≡ cells fixed6 msg timestamp)
      × (length (read_row row) ≡ vendor_column_count + 2)
  Written fixed6 msg (inl e) (inr row) = ⊥
  Written fixed6 msg (inr timestamp) (inl failed) = ⊥

  Rendered-Written :
      (fixed6 : F → List ℕ) (msg : MieMessage F) (r : CalendarError ⊎ List ℕ)
      → ((d : F) → IsPlain (fixed6 d))
      → Rendered r
      → Written fixed6 msg r (elim r as (λ r. MieError ⊎ List ℕ) [
        | inl e ↦ inl MieError.calendar_unavailable
        | inr timestamp ↦ inr (write_row fixed6 msg timestamp)
      ])
  Rendered-Written fixed6 msg (inl e) f p = refl
  Rendered-Written fixed6 msg (inr ts) f p =
      let e = write_row-cells fixed6 msg ts p f in (e, ap length e ∙ length-cells fixed6 msg ts)

  -- Where the texts of DELTA have no comma, quote, line feed or carriage return, a message whose
  -- timestamp can be rendered is written as a row that a reader of RFC 4180, for which a bare carriage
  -- return ends an unquoted field, reads back as the cells of the message, whatever the characters of
  -- its MUX value, and the row has the vendor's 44 columns and two more. Where it cannot, the call fails
  -- and writes nothing.
  pub write_message-Written :
      (fixed6 : F → List ℕ) (render : TimeRender) (msg : MieMessage F)
      → ((d : F) → IsPlain (fixed6 d))
      → Written fixed6 msg (format_with msg.timestamp render) (write_message fixed6 render msg)
  unfolding write_message
  write_message-Written fixed6 render msg f =
      Rendered-Written fixed6 msg (format_with msg.timestamp render) f
        (format_with-Rendered msg.timestamp render)

-- ===== src/Writer/Stream.antt =====
-- rust/src/writer.rs: the loops that write a stream to one table or to two.
use Prim.Native.String.{String}
use mie_decoder.Common.{
  ℕ, ◌+◌, ◌⊎◌, inl, inr, Bool, Option, none, some, List, [], ◌∷◌, if◌then◌else◌, is_empty,
}
use mie_decoder.Models.Message.{MieMessage, Item, ok, err, error_label}
use mie_decoder.Models.Text.{TimeRender}
use mie_decoder.Error.{MieError}
use mie_decoder.Models.Text.{codes}
use mie_decoder.Writer.{◌▸◌, write_message}

-- `std::io::Write`: a write gives the sink behind it, or fails, perhaps on a broken pipe.
pub record Sink : Type 1 where
  pub W : Type 0
  pub write_all : W → List ℕ → Bool ⊎ W

abbrev pub csv_header : List ℕ
csv_header =
    codes "TIME_STAMP,RT,MSG,"
    ▸ codes "WD01,WD02,WD03,WD04,WD05,WD06,WD07,WD08,WD09,WD10,"
    ▸ codes "WD11,WD12,WD13,WD14,WD15,WD16,WD17,WD18,WD19,WD20,"
    ▸ codes "WD21,WD22,WD23,WD24,WD25,WD26,WD27,WD28,WD29,WD30,"
    ▸ codes "WD31,WD32,"
    ▸ codes "STAT,CMD,MUX,TERM_NAME,BUS,DELTA,IM_GAP,RCV_GAP,XMT_GAP,ERROR,ERROR_CODE"
    ▸ b'\n' ∷ []

pub record CsvWriter (W : Type 0) : Type 0 where
  pub out : W
  pub rows_written : ℕ
  pub destination : String
  pub time_render : TimeRender

-- `?`.
abbrev pub and_then : {A B : Type 0} → MieError ⊎ A → (A → MieError ⊎ B) → MieError ⊎ B
and_then (inl e) f = inl e
and_then (inr a) f = f a

-- The offset and the number of losses of an error at which partial output stops.
abbrev pub partial_stop : Bool → MieError → Option (ℕ × ℕ)
partial_stop allow_partial (MieError.unrecoverable_sync_loss offset sync_losses) =
    if allow_partial then some (offset, sync_losses) else none
partial_stop allow_partial _ = none

-- The `Err` arms of the loops.
abbrev pub stop_with :
    {A : Type 0} → MieError → A → Option (ℕ × ℕ) → MieError ⊎ (A × Option (ℕ × ℕ))
stop_with e a none = inl e
stop_with e a (some stop) = inr (a, some stop)

-- `msg.error_label().is_empty()`.
unfoldable pub is_normal : {F : Type 0} → MieMessage F → Bool
unfolding error_label
is_normal msg = is_empty (codes (error_label msg))

module _ (sink : Sink) where
  open sink use {W, write_all}

  abbrev written : CsvWriter W → ℕ → Bool ⊎ W → MieError ⊎ CsvWriter W
  written w rows (inl broken_pipe) = inl (MieError.writer_error w.destination broken_pipe)
  written w rows (inr out) = inr (record w { out = out; rows_written = w.rows_written + rows })

  -- `CsvWriter::new` and `with_time_render`.
  unfoldable pub new_writer : W → String → TimeRender → MieError ⊎ CsvWriter W
  new_writer out destination render =
      written
        (record { out = out; rows_written = 0; destination = destination; time_render = render }) 0
        (write_all out csv_header)

  module _ {F : Type 0} (fixed6 : F → List ℕ) where
    -- `CsvWriter::write_message`.
    unfoldable pub put : CsvWriter W → MieMessage F → MieError ⊎ CsvWriter W
    unfolding write_message
    put w msg =
        and_then (write_message fixed6 w.time_render msg) (λ row. written w 1 (write_all w.out row))

    -- The loop of `write_csv`.
    unfoldable pub csv_loop :
        Bool → List (Item F MieError) → CsvWriter W → MieError ⊎ (CsvWriter W × Option (ℕ × ℕ))
    unfolding put
    csv_loop allow_partial [] w = inr (w, none)
    csv_loop allow_partial (ok msg ∷ items) w =
        and_then (put w msg) (λ w'. csv_loop allow_partial items w')
    csv_loop allow_partial (err e ∷ items) w = stop_with e w (partial_stop allow_partial e)

    -- The writer of the errors, which is made with the first of them. `created` is what
    -- `AtomicCsvFile::create` and `CsvWriter::new` give for its path.
    module _ (created : MieError ⊎ CsvWriter W) where
      abbrev pub error_writer : Option (CsvWriter W) → MieError ⊎ CsvWriter W
      error_writer none = created
      error_writer (some w) = inr w

      -- The loop of `write_csv_split`.
      unfoldable pub split_loop :
          Bool
          → List (Item F MieError)
          → CsvWriter W
          → Option (CsvWriter W)
          → MieError ⊎ (CsvWriter W × Option (CsvWriter W) × Option (ℕ × ℕ))
      unfolding put is_normal
      split_loop allow_partial [] main errors = inr (main, errors, none)
      split_loop allow_partial (ok msg ∷ items) main errors =
          if is_normal msg
          then and_then (put main msg) (λ main'. split_loop allow_partial items main' errors)
          else and_then (and_then (error_writer errors) (λ w. put w msg))
              (λ w. split_loop allow_partial items main (some w))
      split_loop allow_partial (err e ∷ items) main errors =
          and_then (stop_with e main (partial_stop allow_partial e))
            (λ (main', p). inr (main', errors, p))

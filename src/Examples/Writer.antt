-- ===== src/Examples/Writer.antt =====
-- Rows and tables of rust/src/writer.rs.
use Prim.Native.String.{String}
use mie_decoder.Common.{ℕ, ◌++◌, true, inr, none, some, List, [], ◌∷◌}
use mie_decoder.Models.Message.{MieMessage, Item, ok, err}
use mie_decoder.Error.{MieError}
use mie_decoder.Models.Text.{TimeRender, iso, negsuc, format_with, decimal}
use mie_decoder.Models.Text.Plain.{decimal-IsPlain}
use mie_decoder.Writer.{write_message}
use mie_decoder.Writer.Written.{Written, write_message-Written}
use mie_decoder.Writer.Stream.{Sink, CsvWriter, split_loop}
use mie_decoder.Writer.Split.Parts.{IsParted, split_loop-IsParted}
use mie_decoder.Examples.Stream.{cmd, at_second, message}

-- A MUX value that needs quotes.
abbrev tagged : MieMessage ℕ
tagged = record (message (at_second 5) (some cmd)) { mux = some "a,b"; delta = some 7 }

abbrev render : TimeRender
render = record { format = iso; year = some 2024; utc_offset_minutes = negsuc 89 }

write_message-Written_example :
    Written decimal tagged
      (format_with tagged.timestamp render)
      (write_message decimal render tagged)
write_message-Written_example = write_message-Written decimal render tagged decimal-IsPlain

-- A sink that keeps what it gets.
abbrev keeper : Sink
keeper = record { W = List ℕ; write_all = λ out text. inr (out ++ text) }

abbrev table : String → CsvWriter (List ℕ)
table name = record { out = []; rows_written = 0; destination = name; time_render = render }

-- A record, one with an error, and a loss of sync.
abbrev recording : List (Item ℕ MieError)
recording =
    ok tagged
    ∷ ok (record tagged { type_word = record tagged.type_word { error = true } })
    ∷ err (MieError.unrecoverable_sync_loss 80 2)
    ∷ ok tagged
    ∷ []

split_loop-IsParted_example :
    IsParted keeper decimal
      (inr (table "e.csv"))
      true
      recording
      (table "m.csv")
      none
      (split_loop keeper decimal (inr (table "e.csv")) true recording (table "m.csv") none)
split_loop-IsParted_example =
    split_loop-IsParted keeper decimal (inr (table "e.csv")) true recording (table "m.csv") none

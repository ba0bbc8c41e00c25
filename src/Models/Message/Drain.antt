-- ===== src/Models/Message/Drain.antt =====
-- The calls of an iterator's `next` one after the other.
use mie_decoder.Common.{List, [], ◌∷◌}
use mie_decoder.Models.Message.{MieMessage, Item, ok, err, Row, row, end, exhausted}

-- The item of a call, and those of the calls behind it.
abbrev pub gather_rows : {S F E : Type 0} → (S → List (Item F E)) → S × Row F E → List (Item F E)
gather_rows more (s, row i) = i ∷ more s
gather_rows more (s, end) = []
gather_rows more (s, exhausted) = []

-- The records before the first error.
abbrev pub until_error : {F E : Type 0} → List (Item F E) → List (MieMessage F)
until_error [] = []
until_error (ok m ∷ items) = m ∷ until_error items
until_error (err e ∷ items) = []

-- ===== src/Writer/Rows.antt =====
-- A row that rust/src/writer.rs writes is read back, as RFC 4180 has it, as the cells of its message.
use mie_decoder.Common.{
  ℕ, ◌≡◌, refl, ap, ◌∙◌, ◌⊎◌, inl, inr, false, Option, none, some, List, [], ◌∷◌, ◌++◌, arith, ◌==◌,
  if◌then◌else◌, ◌||◌, Bool-cases, append-nil, append_assoc,
}
use mie_decoder.Models.{Bus, Direction}
use mie_decoder.Models.Text.Plain.{IsPlain}
use mie_decoder.Writer.{
  has_special, double_quotes, write_csv_field, as_str, cell_of, comma, ◌▸◌, suffix,
}

-- Where the reader stands: before a field, in a plain one, in a quoted one, behind a quote in it.
pub data Place : Type 0 where
  before plain quoted behind : Place

-- The fields of one line, `field` being what the current one has so far. Outside of quotes a line
-- feed ends the line, and so does a carriage return, which RFC 4180 has in quoted fields only.
abbrev pub read_fields : Place → List ℕ → List ℕ → List (List ℕ)
read_fields place field [] = field ∷ []
read_fields before field (c ∷ cs) =
    if c == b'"'
    then read_fields quoted field cs
    else if c == b','
    then field ∷ read_fields before [] cs
    else if c == b'\n' || c == b'\r'
    then field ∷ []
    else read_fields plain (field ++ c ∷ []) cs
read_fields plain field (c ∷ cs) =
    if c == b','
    then field ∷ read_fields before [] cs
    else if c == b'\n' || c == b'\r'
    then field ∷ []
    else read_fields plain (field ++ c ∷ []) cs
read_fields quoted field (c ∷ cs) =
    if c == b'"' then read_fields behind field cs else read_fields quoted (field ++ c ∷ []) cs
read_fields behind field (c ∷ cs) =
    if c == b'"'
    then read_fields quoted (field ++ c ∷ []) cs
    else if c == b','
    then field ∷ read_fields before [] cs
    else field ∷ []

abbrev pub read_row : List ℕ → List (List ℕ)
read_row row = read_fields before [] row

-- What ends a cell, and what is read behind it.
abbrev pub IsEnd : ℕ → Type 0
IsEnd c = (c ≡ b',') ⊎ (c ≡ b'\n')

abbrev pub after : ℕ → List ℕ → List (List ℕ)
after c rest = if c == b',' then read_row rest else []

-- A text that is written as a cell is read back as the value.
abbrev pub Reads : List ℕ → List ℕ → Type 0
Reads cell value =
    (c : ℕ) (rest : List ℕ) → IsEnd c → read_row (cell ++ c ∷ rest) ≡ value ∷ after c rest

pub plain_ends :
    (field text : List ℕ) (c : ℕ) (rest : List ℕ)
    → IsPlain text
    → IsEnd c
    → read_fields plain field (text ++ c ∷ rest) ≡ (field ++ text) ∷ after c rest
plain_ends field [] c rest h (inl e) = rw (e, append-nil field) refl
plain_ends field [] c rest h (inr e) = rw (e, append-nil field) refl
plain_ends field (x ∷ text) c rest h e =
    let later = plain_ends (field ++ x ∷ []) text c rest h.1 e in
    let assoc = append_assoc field (x ∷ []) text in ground (arith, later, assoc)

pub plain-Reads : (text : List ℕ) → IsPlain text → Reads text text
plain-Reads [] h c rest (inl e) = rw e refl
plain-Reads [] h c rest (inr e) = rw e refl
plain-Reads (x ∷ text) h c rest e =
    let later = plain_ends (x ∷ []) text c rest h.1 e in ground (arith, later)

pub quoted_ends :
    (field text : List ℕ) (c : ℕ) (rest : List ℕ)
    → IsEnd c
    → read_fields quoted field ((double_quotes text ++ b'"' ∷ []) ++ c ∷ rest)
      ≡ (field ++ text) ∷ after c rest
quoted_ends field [] c rest (inl e) = rw (e, append-nil field) refl
quoted_ends field [] c rest (inr e) = rw (e, append-nil field) refl
quoted_ends field (x ∷ text) c rest e =
    let later = quoted_ends (field ++ x ∷ []) text c rest e in
    let assoc = append_assoc field (x ∷ []) text in ground (arith, later, assoc)

pub unspecial-IsPlain : (text : List ℕ) → has_special text ≡ false → IsPlain text
unspecial-IsPlain [] h = tt
unspecial-IsPlain (x ∷ text) h = (
  (ground arith, ground arith, ground arith, ground arith),
  unspecial-IsPlain text (ground arith),
)

-- The quoting keeps every value, whatever characters it has.
pub write_csv_field-Reads : (value : List ℕ) → Reads (write_csv_field value) value
unfolding write_csv_field
write_csv_field-Reads value c rest e = elim (Bool-cases (has_special value)) [
  | inl y ↦ rw y (quoted_ends [] value c rest e)
  | inr n ↦ rw n (plain-Reads value (unspecial-IsPlain value n) c rest e)
]

pub cell_of-IsPlain {ℓ} :
    {A : Type ℓ} (show : A → List ℕ) (o : Option A)
    → ((x : A) → IsPlain (show x))
    → IsPlain (cell_of show o)
cell_of-IsPlain show none h = tt
cell_of-IsPlain show (some x) h = h x

pub bus-IsPlain : (b : Bus) → IsPlain (as_str b)
bus-IsPlain Bus.bus_a = ((omega arith, omega arith, omega arith, omega arith), tt)
bus-IsPlain Bus.bus_b = ((omega arith, omega arith, omega arith, omega arith), tt)

pub suffix-IsPlain : (d : Direction) → IsPlain (suffix d ∷ [])
suffix-IsPlain Direction.transmit = ((omega arith, omega arith, omega arith, omega arith), tt)
suffix-IsPlain Direction.receive = ((omega arith, omega arith, omega arith, omega arith), tt)

-- A row that is read as these values.
pub record IsRow (row : List ℕ) (values : List (List ℕ)) : Type 0 where
  pub reads : read_row row ≡ values

pub cell_then :
    (cell value : List ℕ) {rest : List ℕ} {values : List (List ℕ)}
    → Reads cell value
    → IsRow rest values
    → IsRow (cell ▸ comma ▸ rest) (value ∷ values)
cell_then cell value {rest} r e = record {
  reads = r b',' rest (inl refl) ∙ ap (λ l. value ∷ l) e.reads;
}

pub plain_then :
    (text : List ℕ) {rest : List ℕ} {values : List (List ℕ)}
    → IsPlain text
    → IsRow rest values
    → IsRow (text ▸ comma ▸ rest) (text ∷ values)
plain_then text h e = cell_then text text (plain-Reads text h) e

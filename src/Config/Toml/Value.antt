-- ===== src/Config/Toml/Value.antt =====
-- The values of the subset of TOML in rust/src/config.rs. The arithmetic of `f64` is a parameter,
-- and the message of an error is its case.
use mie_decoder.Config.Text.{text_eq, trim, has_char, strip_last, parse_i64}
use mie_decoder.Config.Number.{is_toml_number_literal}
use mie_decoder.Models.Text.{codes, ℤ}
use mie_decoder.Common.{
  ℕ, zero, suc, ◌+◌, ◌⊎◌, inl, inr, Bool, true, false, ◌&&◌, ◌||◌, not, Option, none, some, List,
  [], ◌∷◌, ◌++◌, ◌>>=◌, leb, ◌==◌, if◌then◌else◌, is_empty,
}

-- What the source uses of `f64` and of the Unicode tables: `parse`, `as f64`, `is_finite`,
-- `<= 0.0` and `to_uppercase`; and how many calls of `parse_value` the stack holds inside of the
-- first one.
pub record Std (F : Type 0) : Type 0 where
  pub parse_f64 : List ℕ → Option F
  pub i64_as_f64 : ℤ → F
  pub is_finite : F → Bool
  pub le_zero : F → Bool
  pub to_uppercase : List ℕ → List ℕ
  pub stack_depth : ℕ

mutual
  pub data TomlValue (F : Type 0) : Type 0 where
    string : List ℕ → TomlValue F
    int : ℤ → TomlValue F
    float : F → TomlValue F
    bool : Bool → TomlValue F
    array : TomlValues F → TomlValue F

  -- The values of an array.
  pub data TomlValues (F : Type 0) : Type 0 where
    end : TomlValues F
    item : TomlValue F → TomlValues F → TomlValues F

pub data Problem : Type 0 where
  array_of_tables unterminated_header empty_section dotted_section unsupported_section : Problem
  section_twice missing_equals empty_key dotted_key unsupported_key duplicate_key : Problem
  empty_value malformed_string bad_escape trailing_backslash unescaped_quote : Problem
  expected_boolean invalid_number unknown_value invalid_integer invalid_float : Problem
  malformed_array nested_array stack_overflow : Problem

-- An error of the parser is its line and what is wrong there. `stack_overflow` is no error of the
-- source: the process aborts there.
pub record TomlError : Type 0 where
  pub line : ℕ
  pub problem : Problem

abbrev pub fail : {A : Type 0} → ℕ → Problem → TomlError ⊎ A
fail lineno problem = inl (record { line = lineno; problem = problem })

-- `map_err` over `parse`.
abbrev pub or_fail : {A : Type 0} → ℕ → Problem → Option A → TomlError ⊎ A
or_fail lineno problem none = fail lineno problem
or_fail lineno problem (some a) = inr a

abbrev pub push_out : ℕ → TomlError ⊎ List ℕ → TomlError ⊎ List ℕ
push_out c rest = rest >>= (λ out. inr (c ∷ out))

-- The loop of `parse_string` over the characters between the quotes.
unfoldable pub unescape : ℕ → List ℕ → TomlError ⊎ List ℕ
unescape lineno [] = inr []
unescape lineno (c ∷ []) =
    if c == b'\\'
    then fail lineno trailing_backslash
    else if c == b'"'
    then fail lineno unescaped_quote
    else inr (c ∷ [])
unescape lineno (c ∷ d ∷ s) =
    let escaped = unescape lineno s in
    let plain = unescape lineno (d ∷ s) in
    if c == b'\\'
    then if d == b'"'
      then push_out b'"' escaped
      else if d == b'\\'
      then push_out b'\\' escaped
      else if d == b'n'
      then push_out b'\n' escaped
      else if d == b't'
      then push_out b'\t' escaped
      else fail lineno bad_escape
    else if c == b'"'
    then fail lineno unescaped_quote
    else push_out c plain

-- `s` opens and ends with `open` and `close`, which are two characters: what is between.
unfoldable pub between : ℕ → ℕ → List ℕ → Option (List ℕ)
unfolding strip_last
between first last [] = none
between first last (c ∷ s) = if c == first then strip_last last s else none

unfoldable pub parse_string : List ℕ → ℕ → TomlError ⊎ List ℕ
unfolding unescape between
parse_string s lineno = or_fail lineno malformed_string (between b'"' b'"' s) >>= unescape lineno

unfoldable pub parse_bool : List ℕ → ℕ → TomlError ⊎ Bool
unfolding text_eq
parse_bool s lineno =
    if text_eq s (codes "true")
    then inr true
    else if text_eq s (codes "false")
    then inr false
    else fail lineno expected_boolean

unfoldable pub parse_int : List ℕ → ℕ → TomlError ⊎ ℤ
unfolding parse_i64
parse_int s lineno = or_fail lineno invalid_integer (parse_i64 s)

-- The states of `push_quoted_char`: in a quoted string, and behind a backslash there.
pub record QuoteState : Type 0 where
  pub in_quote : Bool
  pub prev_backslash : Bool

unfoldable pub push_quoted_char : ℕ → Bool → QuoteState
push_quoted_char c prev_backslash =
    if c == b'\\' && not prev_backslash
    then record { in_quote = true; prev_backslash = true }
    else record { in_quote = not (c == b'"' && not prev_backslash); prev_backslash = false }

-- `if !cur.trim().is_empty()`, behind the loop.
abbrev pub last_item : List ℕ → List (List ℕ)
last_item cur = if is_empty cur then [] else cur ∷ []

-- The loop of `split_array_items`: `cur` is what was pushed since the last comma.
unfoldable pub split_items_loop : QuoteState → List ℕ → List ℕ → List (List ℕ)
unfolding push_quoted_char trim
split_items_loop q cur [] = last_item (trim cur)
split_items_loop q cur (c ∷ s) =
    let quoted = split_items_loop (push_quoted_char c q.prev_backslash) (cur ++ c ∷ []) s in
    let opened =
      split_items_loop (record { in_quote = c == b'"'; prev_backslash = q.prev_backslash })
        (cur ++ c ∷ []) s in
    let next = split_items_loop q [] s in
    if q.in_quote then quoted else if c == b',' then trim cur ∷ next else opened

unfoldable pub split_array_items : List ℕ → List (List ℕ)
unfolding split_items_loop
split_array_items s = split_items_loop (record { in_quote = false; prev_backslash = false }) [] s

module _ {F : Type 0} (std : Std F) where
  unfoldable pub parse_float : List ℕ → ℕ → TomlError ⊎ F
  parse_float s lineno = or_fail lineno invalid_float (std.parse_f64 s)

  -- `nested arrays not supported`.
  unfoldable pub not_nested : ℕ → TomlValue F → TomlError ⊎ TomlValue F
  not_nested lineno (array items) = fail lineno nested_array
  not_nested lineno value = inr value

  -- The loop of `parse_array`; `parse` reads an item.
  unfoldable pub parse_items :
      (List ℕ → TomlError ⊎ TomlValue F) → ℕ → List (List ℕ) → TomlError ⊎ TomlValues F
  unfolding not_nested trim
  parse_items parse lineno [] = inr end
  parse_items parse lineno (piece ∷ pieces) =
      let rest = parse_items parse lineno pieces in
      parse (trim piece) >>= not_nested lineno >>= (λ v. rest >>= (λ vs. inr (item v vs)))

  unfoldable pub parse_array :
      (List ℕ → TomlError ⊎ TomlValue F) → List ℕ → ℕ → TomlError ⊎ TomlValue F
  unfolding between parse_items split_array_items trim
  parse_array parse s lineno = or_fail lineno malformed_array (between b'[' b']' s) >>= (λ inner.
      if is_empty (trim inner)
      then inr (array end)
      else parse_items parse lineno (split_array_items (trim inner))
        >>= (λ items. inr (array items)))

  unfoldable pub parse_number : List ℕ → ℕ → TomlError ⊎ TomlValue F
  unfolding is_toml_number_literal has_char parse_float parse_int
  parse_number s lineno =
      if not (is_toml_number_literal s)
      then fail lineno invalid_number
      else if has_char b'.' s || has_char b'e' s || has_char b'E' s
      then parse_float s lineno >>= (λ f. inr (float f))
      else parse_int s lineno >>= (λ i. inr (int i))

  -- The `match` on the first byte.
  unfoldable pub parse_trimmed :
      (List ℕ → TomlError ⊎ TomlValue F) → List ℕ → ℕ → TomlError ⊎ TomlValue F
  unfolding parse_string parse_array parse_bool parse_number
  parse_trimmed parse [] lineno = fail lineno empty_value
  parse_trimmed parse (c ∷ s) lineno =
      if c == b'"'
      then parse_string (c ∷ s) lineno >>= (λ t. inr (string t))
      else if c == b'['
      then parse_array parse (c ∷ s) lineno
      else if c == b't' || c == b'f'
      then parse_bool (c ∷ s) lineno >>= (λ b. inr (bool b))
      else if c == b'-' || c == b'+' || leb b'0' c && leb c b'9'
      then parse_number (c ∷ s) lineno
      else fail lineno unknown_value

  -- `parse_value` and `parse_array` call one another for each level of nesting, without a limit of
  -- their own: `depth` is how many calls the stack still holds.
  unfoldable pub parse_value_loop : ℕ → List ℕ → ℕ → TomlError ⊎ TomlValue F
  unfolding trim parse_trimmed
  parse_value_loop zero s lineno = fail lineno stack_overflow
  parse_value_loop (suc depth) s lineno =
      parse_trimmed (λ piece. parse_value_loop depth piece lineno) (trim s) lineno

  unfoldable pub parse_value : List ℕ → ℕ → TomlError ⊎ TomlValue F
  unfolding parse_value_loop
  parse_value s lineno = parse_value_loop (std.stack_depth + 1) s lineno

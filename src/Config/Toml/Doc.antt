-- ===== src/Config/Toml/Doc.antt =====
-- The lines of the subset of TOML in rust/src/config.rs: section headers, keys and the document.
-- An entry is its section, its key and its value, in the order of the lines.
use mie_decoder.Config.Text.{
  text_eq, is_digit, is_upper, is_lower, trim, has_char, strip_last, split_at, lines,
}
use mie_decoder.Config.Toml.Value.{
  Std, TomlValue, TomlError, fail, array_of_tables, unterminated_header, empty_section,
  dotted_section, unsupported_section, section_twice, missing_equals, empty_key, dotted_key,
  unsupported_key, duplicate_key, or_fail, parse_value,
}
use mie_decoder.Common.{
  ℕ, ◌+◌, ◌⊎◌, inr, Bool, true, false, ◌&&◌, ◌||◌, not, List, [], ◌∷◌, ◌++◌, ◌==◌, if◌then◌else◌,
  is_empty, ◌>>=◌,
}

-- The state of the loop of `strip_comment`, and the text in front of the comment.
unfoldable pub strip_comment_loop : (in_quote prev_backslash : Bool) → List ℕ → List ℕ
strip_comment_loop in_quote prev_backslash [] = []
strip_comment_loop true prev_backslash (b ∷ s) =
    let escaping = strip_comment_loop true true s in
    let closed = strip_comment_loop false false s in
    let inside = strip_comment_loop true false s in
    if b == b'\\' && not prev_backslash
    then b ∷ escaping
    else if b == b'"' && not prev_backslash
    then b ∷ closed
    else b ∷ inside
strip_comment_loop false prev_backslash (b ∷ s) =
    let opened = strip_comment_loop true prev_backslash s in
    let outside = strip_comment_loop false prev_backslash s in
    if b == b'"' then b ∷ opened else if b == b'#' then [] else b ∷ outside

unfoldable pub strip_comment : List ℕ → List ℕ
unfolding strip_comment_loop
strip_comment line = strip_comment_loop false false line

abbrev pub is_identifier_char : ℕ → Bool
is_identifier_char c = is_digit c || is_upper c || is_lower c || c == b'_'

unfoldable pub is_plain_identifier : List ℕ → Bool
is_plain_identifier [] = true
is_plain_identifier (c ∷ s) = is_identifier_char c && is_plain_identifier s

abbrev pub contains_text : List (List ℕ) → List ℕ → Bool
contains_text [] s = false
contains_text (x ∷ xs) s = text_eq x s || contains_text xs s

abbrev pub starts_with : ℕ → List ℕ → Bool
starts_with c [] = false
starts_with c (x ∷ s) = x == c

-- What is left of the checks of a header is the section's name.
unfoldable pub check_section : List ℕ → ℕ → List (List ℕ) → TomlError ⊎ List ℕ
unfolding has_char is_plain_identifier
check_section section lineno seen_sections =
    if is_empty section
    then fail lineno empty_section
    else if has_char b'.' section
    then fail lineno dotted_section
    else if not (is_plain_identifier section)
    then fail lineno unsupported_section
    else if contains_text seen_sections section
    then fail lineno section_twice
    else inr section

-- `stripped` is what stands behind the opening bracket. The caller puts the name into
-- `seen_sections`.
unfoldable pub parse_section_header : List ℕ → ℕ → List (List ℕ) → TomlError ⊎ List ℕ
unfolding check_section strip_last trim
parse_section_header stripped lineno seen_sections =
    if starts_with b'[' stripped
    then fail lineno array_of_tables
    else or_fail lineno unterminated_header (strip_last b']' stripped)
      >>= (λ inner. check_section (trim inner) lineno seen_sections)

unfoldable pub check_key : List ℕ → ℕ → TomlError ⊎ List ℕ
unfolding has_char is_plain_identifier
check_key key lineno =
    if is_empty key
    then fail lineno empty_key
    else if not (starts_with b'"' key) && has_char b'.' key
    then fail lineno dotted_key
    else if not (is_plain_identifier key)
    then fail lineno unsupported_key
    else inr key

pub record Entry (F : Type 0) : Type 0 where
  pub section : List ℕ
  pub key : List ℕ
  pub value : TomlValue F

abbrev pub is_entry_of : {F : Type 0} → List ℕ → List ℕ → Entry F → Bool
is_entry_of section key e = text_eq e.section section && text_eq e.key key

abbrev pub has_entry : {F : Type 0} → List (Entry F) → List ℕ → List ℕ → Bool
has_entry [] section key = false
has_entry (e ∷ es) section key = is_entry_of section key e || has_entry es section key

-- The variables of the loop of `parse_toml`.
pub record ParseState (F : Type 0) : Type 0 where
  pub entries : List (Entry F)
  pub section : List ℕ
  pub seen_sections : List (List ℕ)

abbrev pub initial : {F : Type 0} → ParseState F
initial = record { entries = []; section = []; seen_sections = [] }

abbrev pub enter_section : {F : Type 0} → ParseState F → List ℕ → ParseState F
enter_section st section = record {
  entries = st.entries;
  section = section;
  seen_sections = st.seen_sections ++ section ∷ [];
}

abbrev pub add_entry : {F : Type 0} → ParseState F → List ℕ → TomlValue F → ParseState F
add_entry st key value = record {
  entries = st.entries ++ (record { section = st.section; key = key; value = value }) ∷ [];
  section = st.section;
  seen_sections = st.seen_sections;
}

module _ {F : Type 0} (std : Std F) where
  unfoldable pub parse_key_value : List ℕ → ℕ → TomlError ⊎ (List ℕ × TomlValue F)
  unfolding split_at trim check_key parse_value
  parse_key_value line lineno =
      or_fail lineno missing_equals (split_at b'=' line) >>= (λ (before, behind).
        check_key (trim before) lineno
        >>= (λ key. parse_value std (trim behind) lineno >>= (λ value. inr (key, value))))

  -- The body of the loop for a line that has no comment and is trimmed.
  unfoldable pub parse_line : ParseState F → List ℕ → ℕ → TomlError ⊎ ParseState F
  unfolding parse_section_header parse_key_value
  parse_line st [] lineno = inr st
  parse_line st (c ∷ s) lineno =
      if c == b'['
      then parse_section_header s lineno st.seen_sections
        >>= (λ section. inr (enter_section st section))
      else parse_key_value (c ∷ s) lineno >>= (λ (key, value).
        if has_entry st.entries st.section key
        then fail lineno duplicate_key
        else inr (add_entry st key value))

  -- `index` counts the lines from zero.
  unfoldable pub parse_lines : ParseState F → ℕ → List (List ℕ) → TomlError ⊎ ParseState F
  unfolding parse_line strip_comment trim
  parse_lines st index [] = inr st
  parse_lines st index (raw ∷ raws) =
      parse_line st (trim (strip_comment raw)) (index + 1)
      >>= (λ next. parse_lines next (index + 1) raws)

  unfoldable pub parse_toml : List ℕ → TomlError ⊎ List (Entry F)
  unfolding parse_lines lines
  parse_toml text = parse_lines initial 0 (lines text) >>= (λ st. inr st.entries)

-- ===== src/Config/Toml/Unique.antt =====
-- A document of rust/src/config.rs has no key twice, and its keys are plain identifiers.
use mie_decoder.Config.Text.{text_eq, trim, lines, split_at, has_char, strip_last}
use mie_decoder.Config.Toml.Value.{
  Std, TomlValue, or_fail, parse_value, missing_equals, unterminated_header,
}
use mie_decoder.Config.Toml.Doc.{
  Entry, ParseState, initial, add_entry, has_entry, is_plain_identifier, check_section, check_key,
  parse_section_header, parse_key_value, parse_line, parse_lines, parse_toml, strip_comment,
  starts_with, contains_text,
}
use mie_decoder.Config.Toml.Get.{get}
use mie_decoder.Common.{
  ℕ, ◌+◌, ◌≡◌, refl, inr, true, false, ◌&&◌, not, none, some, List, [], ◌∷◌, ◌++◌, arith, ◌==◌,
  if_intro, is_empty, ◌>>=◌, Right, Right-bind, Right-then, Right-eq, All, All-append, All-implies,
}

text_eq_refl : (s : List ℕ) → text_eq s s ≡ true
unfolding text_eq
text_eq_refl [] = refl
text_eq_refl (c ∷ s) = ground (arith, text_eq_refl s)

-- A key is an identifier, and so is a section but for the part in front of the first header.
abbrev pub IsKey : List ℕ → Type 0
IsKey key = (is_empty key ≡ false) × (is_plain_identifier key ≡ true)

module _ {F : Type 0} where
  abbrev pub Named : Entry F → Type 0
  Named e = IsKey e.key × (is_plain_identifier e.section ≡ true)

  -- A lookup by the section and the key of an entry finds its value, and not another one's.
  abbrev pub Found : List (Entry F) → Entry F → Type 0
  Found doc e = get doc e.section e.key ≡ some e.value

  abbrev Good : ParseState F → Type 0
  Good st =
      All Named st.entries
      × All (Found st.entries) st.entries
      × (is_plain_identifier st.section ≡ true)

  get_fresh :
      (es : List (Entry F)) (section key : List ℕ)
      → has_entry es section key ≡ false
      → get es section key ≡ none
  unfolding get
  get_fresh [] section key h = refl
  get_fresh (e ∷ es) section key h = ground (arith, get_fresh es section key)

  get_old :
      (es : List (Entry F)) (e : Entry F) (section key : List ℕ) (v : TomlValue F)
      → get es section key ≡ some v
      → get (es ++ e ∷ []) section key ≡ some v
  unfolding get
  get_old [] e section key v h = cc
  get_old (d ∷ es) e section key v h = ground (arith, get_old es e section key v)

  get_new :
      (es : List (Entry F)) (e : Entry F)
      → get es e.section e.key ≡ none
      → get (es ++ e ∷ []) e.section e.key ≡ some e.value
  unfolding get
  get_new [] e h = rw (text_eq_refl e.section, text_eq_refl e.key) refl
  get_new (d ∷ es) e h = ground (arith, get_new es e)

  push-Good :
      (st : ParseState F) (key : List ℕ) (v : TomlValue F)
      → Good st
      → IsKey key
      → has_entry st.entries st.section key ≡ false
      → Good (add_entry st key v)
  push-Good st key v g k h =
      let e : Entry F = record { section = st.section; key = key; value = v } in
      (
        All-append Named st.entries (e ∷ []) g.0 ((k, g.2), tt),
        All-append (Found (st.entries ++ e ∷ [])) st.entries (e ∷ [])
            (All-implies _ _ st.entries (λ d f. get_old st.entries e d.section d.key d.value f) g.1)
            (get_new st.entries e (get_fresh st.entries st.section key h), tt),
        g.2,
      )

abbrev Plain : List ℕ → Type 0
Plain s = is_plain_identifier s ≡ true

check_section-Plain :
    (section : List ℕ) (lineno : ℕ) (seen : List (List ℕ))
    → Right Plain (check_section section lineno seen)
unfolding check_section
check_section-Plain section lineno seen =
    if_intro (Right Plain) (is_empty section) _ _ (λ h. tt)
      (λ h.
        if_intro (Right Plain) (has_char b'.' section) _ _ (λ p. tt)
          (λ p.
            if_intro (Right Plain) (not (is_plain_identifier section)) _ _ (λ q. tt)
              (λ q.
                if_intro (Right Plain) (contains_text seen section) _ _ (λ r. tt)
                  (λ r. ground arith))))

header-Plain :
    (stripped : List ℕ) (lineno : ℕ) (seen : List (List ℕ))
    → Right Plain (parse_section_header stripped lineno seen)
unfolding parse_section_header
header-Plain stripped lineno seen =
    if_intro (Right Plain) (starts_with b'[' stripped) _ _ (λ h. tt)
      (λ h.
        Right-then Plain (or_fail lineno unterminated_header (strip_last b']' stripped)) _
          (λ inner. check_section-Plain (trim inner) lineno seen))

check_key-IsKey : (key : List ℕ) (lineno : ℕ) → Right IsKey (check_key key lineno)
unfolding check_key
check_key-IsKey key lineno =
    if_intro (Right IsKey) (is_empty key) _ _ (λ h. tt)
      (λ h.
        if_intro (Right IsKey) (not (starts_with b'"' key) && has_char b'.' key) _ _ (λ p. tt)
          (λ p.
            if_intro (Right IsKey) (not (is_plain_identifier key)) _ _ (λ q. tt)
              (λ q. (h, ground arith))))

module _ {F : Type 0} (std : Std F) where
  abbrev Keyed : List ℕ × TomlValue F → Type 0
  Keyed kv = IsKey kv.0

  key_value-IsKey : (line : List ℕ) (lineno : ℕ) → Right Keyed (parse_key_value std line lineno)
  unfolding parse_key_value
  key_value-IsKey line lineno =
      Right-then Keyed (or_fail lineno missing_equals (split_at b'=' line)) _ (λ (before, behind).
        Right-bind IsKey Keyed (check_key (trim before) lineno) _
          (check_key-IsKey (trim before) lineno)
          (λ key k. Right-then Keyed (parse_value std (trim behind) lineno) _ (λ value. k)))

  line-Good :
      (st : ParseState F) (line : List ℕ) (lineno : ℕ)
      → Good st
      → Right Good (parse_line std st line lineno)
  unfolding parse_line
  line-Good st [] lineno g = g
  line-Good st (c ∷ s) lineno g =
      if_intro (Right Good) (c == b'[') _ _
        (λ h.
          Right-bind Plain Good (parse_section_header s lineno st.seen_sections) _
            (header-Plain s lineno st.seen_sections) (λ section p. (g.0, g.1, p)))
        (λ h.
          Right-bind Keyed Good (parse_key_value std (c ∷ s) lineno) _
            (key_value-IsKey (c ∷ s) lineno)
            (λ (key, value) k.
              if_intro (Right Good) (has_entry st.entries st.section key) _ _ (λ p. tt)
                (λ p. push-Good st key value g k p)))

  lines-Good :
      (st : ParseState F) (index : ℕ) (raws : List (List ℕ))
      → Good st
      → Right Good (parse_lines std st index raws)
  unfolding parse_lines
  lines-Good st index [] g = g
  lines-Good st index (raw ∷ raws) g =
      Right-bind Good Good (parse_line std st (trim (strip_comment raw)) (index + 1)) _
        (line-Good st (trim (strip_comment raw)) (index + 1) g)
        (λ next n. lines-Good next (index + 1) raws n)

  abbrev GoodDoc : List (Entry F) → Type 0
  GoodDoc doc = All Named doc × All (Found doc) doc

  -- In a document that is read from a text, each key is a plain identifier that is not empty, each
  -- section is a plain identifier or empty, and a lookup by the section and the key of any entry
  -- finds the value of that entry: no later line is hidden by an earlier one.
  pub parse_toml-Found :
      (text : List ℕ) (doc : List (Entry F))
      → parse_toml std text ≡ inr doc
      → All Named doc × All (Found doc) doc
  unfolding parse_toml
  parse_toml-Found text doc =
      Right-eq GoodDoc (parse_lines std initial 0 (lines text) >>= (λ st. inr st.entries)) doc (
        Right-bind Good GoodDoc (parse_lines std initial 0 (lines text)) _
          (lines-Good initial 0 (lines text) (tt, tt, refl)) (λ st g. (g.0, g.1)))

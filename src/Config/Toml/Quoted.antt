-- ===== src/Config/Toml/Quoted.antt =====
-- A string that is quoted is read back by rust/src/config.rs, with a comment behind it.
use mie_decoder.Config.Text.{map_option, trim_front, trim_back, trim, strip_last}
use mie_decoder.Config.Toml.Value.{
  Std, string, push_out, unescape, between, parse_string, parse_trimmed, parse_value_loop,
  parse_value,
}
use mie_decoder.Config.Toml.Doc.{strip_comment_loop, strip_comment}
use mie_decoder.Common.{
  ℕ, zero, suc, ◌+◌, ◌≤◌, ◌≡◌, refl, sym, ap, ◌∙◌, inr, true, false, some, List, [], ◌∷◌, ◌++◌,
  arith, ◌==◌, if◌then◌else◌, ==_iff, if_intro, is_empty, ◌>>=◌, append_assoc,
}

-- A character in quotes.
abbrev pub escape_char : ℕ → List ℕ
escape_char c =
    if c == b'"'
    then b'\\' ∷ b'"' ∷ []
    else if c == b'\\'
    then b'\\' ∷ b'\\' ∷ []
    else if c == b'\n'
    then b'\\' ∷ b'n' ∷ []
    else if c == b'\t'
    then b'\\' ∷ b't' ∷ []
    else c ∷ []

abbrev pub escape : List ℕ → List ℕ
escape [] = []
escape (c ∷ s) = escape_char c ++ escape s

abbrev pub quote : List ℕ → List ℕ
quote s = b'"' ∷ (escape s ++ b'"' ∷ [])

-- The comment's scan passes a character that is quoted.
strip_char :
    (c : ℕ) (t : List ℕ)
    → strip_comment_loop true false (escape_char c ++ t)
      ≡ escape_char c ++ strip_comment_loop true false t
unfolding strip_comment_loop
strip_char c t =
    if_intro (λ e. strip_comment_loop true false (e ++ t) ≡ e ++ strip_comment_loop true false t)
      (c == b'"') _ _ (λ h. refl)
      (λ h.
        if_intro
          (λ e. strip_comment_loop true false (e ++ t) ≡ e ++ strip_comment_loop true false t)
          (c == b'\\') _ _ (λ k. refl)
          (λ k.
            if_intro
              (λ e. strip_comment_loop true false (e ++ t) ≡ e ++ strip_comment_loop true false t)
              (c == b'\n') _ _ (λ l. refl)
              (λ l.
                if_intro
                  (λ e.
                    strip_comment_loop true false (e ++ t) ≡ e ++ strip_comment_loop true false t)
                  (c == b'\t') _ _ (λ m. refl) (λ m. rw (h, k) refl))))

strip_escaped :
    (s rest : List ℕ)
    → strip_comment_loop true false (escape s ++ b'"' ∷ rest)
      ≡ escape s ++ b'"' ∷ strip_comment_loop false false rest
unfolding strip_comment_loop
strip_escaped [] rest = refl
strip_escaped (c ∷ s) rest =
    ap (strip_comment_loop true false) (append_assoc (escape_char c) (escape s) (b'"' ∷ rest))
    ∙ strip_char c (escape s ++ b'"' ∷ rest)
    ∙ ap (λ t. escape_char c ++ t) (strip_escaped s rest)
    ∙ sym (append_assoc (escape_char c) (escape s) (b'"' ∷ strip_comment_loop false false rest))

strip_comment-quote :
    (s comment : List ℕ) → strip_comment (quote s ++ b' ' ∷ b'#' ∷ comment) ≡ quote s ++ b' ' ∷ []
unfolding strip_comment strip_comment_loop
strip_comment-quote s comment =
    ap (λ t. b'"' ∷ t)
      (ap (strip_comment_loop true false)
          (append_assoc (escape s) (b'"' ∷ []) (b' ' ∷ b'#' ∷ comment))
        ∙ strip_escaped s (b' ' ∷ b'#' ∷ comment)
        ∙ sym (append_assoc (escape s) (b'"' ∷ []) (b' ' ∷ [])))

not_empty_end : (xs : List ℕ) (c : ℕ) → is_empty (xs ++ c ∷ []) ≡ false
not_empty_end [] c = refl
not_empty_end (x ∷ xs) c = refl

trim_back_end : (xs : List ℕ) → trim_back (xs ++ b'"' ∷ b' ' ∷ []) ≡ xs ++ b'"' ∷ []
unfolding trim_back
trim_back_end [] = refl
trim_back_end (x ∷ xs) = ground (arith, trim_back_end xs, not_empty_end xs b'"')

trim-quote : (s : List ℕ) → trim (quote s ++ b' ' ∷ []) ≡ quote s
unfolding trim trim_front
trim-quote s =
    ap (λ t. trim_back (b'"' ∷ t)) (append_assoc (escape s) (b'"' ∷ []) (b' ' ∷ []))
    ∙ trim_back_end (b'"' ∷ escape s)

strip_last-end : (xs : List ℕ) (c : ℕ) → strip_last c (xs ++ c ∷ []) ≡ some xs
unfolding strip_last
strip_last-end [] c = ground arith
strip_last-end (x ∷ []) c = ground (arith, strip_last-end [] c)
strip_last-end (x ∷ y ∷ xs) c = ap (map_option (λ rest. x ∷ rest)) (strip_last-end (y ∷ xs) c)

unescape_plain :
    (n c : ℕ) (t : List ℕ)
    → (c == b'\\') ≡ false
    → (c == b'"') ≡ false
    → unescape n (c ∷ t) ≡ push_out c (unescape n t)
unfolding unescape
unescape_plain n c [] h k = rw (h, k) refl
unescape_plain n c (d ∷ t) h k = rw (h, k) refl

unescape_char : (n c : ℕ) (t : List ℕ) → unescape n (escape_char c ++ t) ≡ push_out c (unescape n t)
unfolding unescape
unescape_char n c t =
    if_intro (λ e. unescape n (e ++ t) ≡ push_out c (unescape n t)) (c == b'"') _ _ (becomes b'"')
      (λ h.
        if_intro (λ e. unescape n (e ++ t) ≡ push_out c (unescape n t)) (c == b'\\') _ _
          (becomes b'\\')
          (λ k.
            if_intro (λ e. unescape n (e ++ t) ≡ push_out c (unescape n t)) (c == b'\n') _ _
              (becomes b'\n')
              (λ l.
                if_intro (λ e. unescape n (e ++ t) ≡ push_out c (unescape n t)) (c == b'\t') _ _
                  (becomes b'\t') (λ m. unescape_plain n c t k h))))
  where
    becomes : (d : ℕ) → (c == d) ≡ true → push_out d (unescape n t) ≡ push_out c (unescape n t)
    becomes d e = ap (λ x. push_out x (unescape n t)) (sym ((==_iff c d).0 e))

unescape-escape : (n : ℕ) (s : List ℕ) → unescape n (escape s) ≡ inr s
unfolding unescape
unescape-escape n [] = refl
unescape-escape n (c ∷ s) = unescape_char n c (escape s) ∙ ap (push_out c) (unescape-escape n s)

module _ {F : Type 0} (std : Std F) where
  parse_string-quote : (s : List ℕ) (lineno : ℕ) → parse_string (quote s) lineno ≡ inr s
  unfolding parse_string between
  parse_string-quote s lineno = rw (strip_last-end (escape s) b'"') (unescape-escape lineno s)

  loop-quote :
      (depth : ℕ) (t s : List ℕ) (lineno : ℕ)
      → 1 ≤ depth
      → trim t ≡ quote s
      → parse_value_loop std depth t lineno ≡ inr (string s)
  unfolding parse_value_loop parse_trimmed
  loop-quote zero t s lineno h e = absurd (omega arith)
  loop-quote (suc depth) t s lineno h e =
      rw e (ap (λ m. m >>= (λ x. inr (string x))) (parse_string-quote s lineno))

  -- A string is read back from its quoted text with a comment behind it, whatever characters the
  -- two hold.
  pub parse_value-quote :
      (s comment : List ℕ) (lineno : ℕ)
      → parse_value std (strip_comment (quote s ++ b' ' ∷ b'#' ∷ comment)) lineno ≡ inr (string s)
  unfolding parse_value
  parse_value-quote s comment lineno =
      ap (λ t. parse_value std t lineno) (strip_comment-quote s comment)
      ∙ loop-quote (std.stack_depth + 1) (quote s ++ b' ' ∷ []) s lineno (omega arith)
          (trim-quote s)

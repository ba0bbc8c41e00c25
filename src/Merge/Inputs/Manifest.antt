-- ===== src/Merge/Inputs/Manifest.antt =====
-- `read_manifest` of rust/src/merge.rs reads back the paths of a manifest.
use mie_decoder.Common.{
  ℕ, ◌≡◌, ◌≢◌, refl, sym, ap, ◌∙◌, Bool, true, false, List, [], ◌∷◌, ◌++◌, arith, All, append_assoc,
  append-nil,
}
use mie_decoder.Merge.Inputs.{
  split_lines, strip_cr, is_blank, trim_start, trim_end, trim_line, is_skipped, keep_paths,
  read_manifest,
}

abbrev pub AllBlank : List ℕ → Type 0
AllBlank = All (λ (c : ℕ). is_blank c ≡ true)

abbrev pub OneLine : List ℕ → Type 0
OneLine = All (λ (c : ℕ). c ≢ b'\n')

-- The last character is neither a blank nor a carriage return.
abbrev pub EndsPlain : List ℕ → Type 0
EndsPlain [] = ⊥
EndsPlain (c ∷ []) = (is_blank c ≡ false) × (c ≢ b'\r')
EndsPlain (c ∷ d ∷ line) = EndsPlain (d ∷ line)

abbrev pub BeginsPlain : List ℕ → Type 0
BeginsPlain [] = ⊥
BeginsPlain (c ∷ line) = (is_blank c ≡ false) × (c ≢ b'#')

-- A line: blanks, then a path and blanks, or a comment, or nothing.
pub data Content : Type 0 where
  path : (text right : List ℕ) → Content
  comment : (text : List ℕ) → Content
  nothing : Content

pub record Line : Type 0 where
  pub left : List ℕ
  pub content : Content
  pub with_cr : Bool

abbrev pub content_text : Content → List ℕ
content_text (path text right) = text ++ right
content_text (comment text) = b'#' ∷ text
content_text nothing = []

abbrev pub cr_text : Bool → List ℕ
cr_text true = b'\r' ∷ []
cr_text false = []

abbrev pub line_text : Line → List ℕ
line_text l = l.left ++ (content_text l.content ++ cr_text l.with_cr)

abbrev pub render : List Line → List ℕ
render [] = []
render (l ∷ ls) = line_text l ++ b'\n' ∷ render ls

abbrev pub add_path : Content → List (List ℕ) → List (List ℕ)
add_path (path text right) ps = text ∷ ps
add_path (comment text) ps = ps
add_path nothing ps = ps

abbrev pub paths_of : List Line → List (List ℕ)
paths_of [] = []
paths_of (l ∷ ls) = add_path l.content (paths_of ls)

abbrev pub IsContent : Content → Type 0
IsContent (path text right) = BeginsPlain text × EndsPlain text × OneLine text × AllBlank right
IsContent (comment text) = OneLine text
IsContent nothing = Unit {0}

pub record IsLine (l : Line) : Type 0 where
  pub blanks : AllBlank l.left
  pub content : IsContent l.content

split_at_newline :
    (line rest : List ℕ)
    → OneLine line
    → split_lines (line ++ b'\n' ∷ rest) ≡ line ∷ split_lines rest
unfolding split_lines
split_at_newline [] rest h = refl
split_at_newline (c ∷ line) rest h = ground (arith, split_at_newline line rest h.1)

strip-append :
    (xs : List ℕ) (c : ℕ) (ys : List ℕ) → strip_cr (xs ++ c ∷ ys) ≡ xs ++ strip_cr (c ∷ ys)
unfolding strip_cr
strip-append [] c ys = refl
strip-append (x ∷ []) c ys = refl
strip-append (x ∷ y ∷ xs) c ys = ap (λ l. x ∷ l) (strip-append (y ∷ xs) c ys)

strip_end : (xs : List ℕ) → strip_cr (xs ++ b'\r' ∷ []) ≡ xs
unfolding strip_cr
strip_end xs = strip-append xs b'\r' [] ∙ append-nil xs

strip_plain : (xs : List ℕ) → EndsPlain xs → strip_cr xs ≡ xs
unfolding strip_cr
strip_plain [] h = refl
strip_plain (c ∷ []) h = ground arith
strip_plain (c ∷ d ∷ xs) h = ap (λ l. c ∷ l) (strip_plain (d ∷ xs) h)

strip_blank : (xs : List ℕ) → AllBlank xs → strip_cr xs ≡ xs
unfolding strip_cr
strip_blank [] h = refl
strip_blank (c ∷ []) h = ground arith
strip_blank (c ∷ d ∷ xs) h = ap (λ l. c ∷ l) (strip_blank (d ∷ xs) h.1)

trim_start-append : (bs xs : List ℕ) → AllBlank bs → trim_start (bs ++ xs) ≡ trim_start xs
unfolding trim_start
trim_start-append [] xs h = refl
trim_start-append (b ∷ bs) xs h = ground (arith, trim_start-append bs xs h.1)

trim_end_blank : (bs : List ℕ) → AllBlank bs → trim_end bs ≡ []
unfolding trim_end
trim_end_blank [] h = refl
trim_end_blank (b ∷ bs) h = ground (arith, trim_end_blank bs h.1)

trim_end_plain : (xs bs : List ℕ) → EndsPlain xs → AllBlank bs → trim_end (xs ++ bs) ≡ xs
unfolding trim_end
trim_end_plain [] bs h b = absurd h
trim_end_plain (c ∷ []) bs h b = ground (arith, trim_end_blank bs b)
trim_end_plain (c ∷ d ∷ xs) bs h b = ground (arith, trim_end_plain (d ∷ xs) bs h b)

strip_tail : (xs bs : List ℕ) → EndsPlain xs → AllBlank bs → strip_cr (xs ++ bs) ≡ xs ++ bs
unfolding strip_cr
strip_tail [] bs h b = absurd h
strip_tail (c ∷ []) [] h b = strip_plain (c ∷ []) h
strip_tail (c ∷ []) (b ∷ bs) h bl = ap (λ l. c ∷ l) (strip_blank (b ∷ bs) bl)
strip_tail (c ∷ d ∷ xs) bs h b = ap (λ l. c ∷ l) (strip_tail (d ∷ xs) bs h b)

-- What is left of a path's line, without the carriage return, is the path.
trim_path :
    (left text right : List ℕ)
    → AllBlank left
    → BeginsPlain text
    → EndsPlain text
    → AllBlank right
    → trim_end (trim_start (left ++ (text ++ right))) ≡ text
unfolding trim_start
trim_path left [] right l b e r = absurd b
trim_path left (c ∷ text) right l b e r =
    ap trim_end (trim_start-append left (c ∷ text ++ right) l)
    ∙ ground (arith, b, trim_end_plain (c ∷ text) right e r)

path_line :
    (left text right : List ℕ) (cr : Bool)
    → AllBlank left
    → BeginsPlain text
    → EndsPlain text
    → AllBlank right
    → trim_line (left ++ ((text ++ right) ++ cr_text cr)) ≡ text
unfolding trim_line
path_line left text right true l b e r =
    ap (λ x. trim_end (trim_start (strip_cr x)))
      (sym (append_assoc left (text ++ right) (b'\r' ∷ [])))
    ∙ ap (λ x. trim_end (trim_start x)) (strip_end (left ++ (text ++ right)))
    ∙ trim_path left text right l b e r
path_line left [] right false l b e r = absurd b
path_line left (c ∷ text) right false l b e r =
    ap (λ x. trim_end (trim_start (strip_cr (left ++ x)))) (append-nil ((c ∷ text) ++ right))
    ∙ ap (λ x. trim_end (trim_start x)) (strip-append left c (text ++ right))
    ∙ ap (λ x. trim_end (trim_start (left ++ x))) (strip_tail (c ∷ text) right e r)
    ∙ trim_path left (c ∷ text) right l b e r

blank_line : (left : List ℕ) (cr : Bool) → AllBlank left → trim_line (left ++ cr_text cr) ≡ []
unfolding trim_line trim_start trim_end
blank_line left true l =
    ap (λ x. trim_end (trim_start x)) (strip_end left)
    ∙ ap (λ x. trim_end (trim_start x)) (sym (append-nil left))
    ∙ ap trim_end (trim_start-append left [] l)
blank_line left false l =
    ap (λ x. trim_end (trim_start (strip_cr x))) (append-nil left)
    ∙ ap (λ x. trim_end (trim_start x)) (strip_blank left l)
    ∙ ap (λ x. trim_end (trim_start x)) (sym (append-nil left))
    ∙ ap trim_end (trim_start-append left [] l)

trim_comment : (xs : List ℕ) → is_skipped (trim_end (trim_start (b'#' ∷ xs))) ≡ true
unfolding trim_start trim_end
trim_comment xs = refl

strip_comment : (xs : List ℕ) → is_skipped (trim_end (trim_start (strip_cr (b'#' ∷ xs)))) ≡ true
unfolding strip_cr
strip_comment [] = trim_comment []
strip_comment (c ∷ xs) = trim_comment (strip_cr (c ∷ xs))

comment_line :
    (left xs : List ℕ) → AllBlank left → is_skipped (trim_line (left ++ b'#' ∷ xs)) ≡ true
unfolding trim_line
comment_line left xs l =
    ap (λ x. is_skipped (trim_end (trim_start x))) (strip-append left b'#' xs)
    ∙ ap (λ x. is_skipped (trim_end x)) (trim_start-append left (strip_cr (b'#' ∷ xs)) l)
    ∙ strip_comment xs

path_kept :
    (line text : List ℕ) (lines : List (List ℕ))
    → trim_line line ≡ text
    → BeginsPlain text
    → keep_paths (line ∷ lines) ≡ text ∷ keep_paths lines
unfolding keep_paths
path_kept line [] lines e b = absurd b
path_kept line (c ∷ text) lines e b = rw (keep_paths, e) (ground (arith, b))

line_dropped :
    (line : List ℕ) (lines : List (List ℕ))
    → is_skipped (trim_line line) ≡ true
    → keep_paths (line ∷ lines) ≡ keep_paths lines
unfolding keep_paths
line_dropped line lines e = rw (keep_paths, e) refl

line_read :
    (left : List ℕ) (content : Content) (cr : Bool) (lines : List (List ℕ))
    → AllBlank left
    → IsContent content
    → keep_paths ((left ++ (content_text content ++ cr_text cr)) ∷ lines)
      ≡ add_path content (keep_paths lines)
line_read left (path text right) cr lines l (b, e, o, r) =
    path_kept (left ++ ((text ++ right) ++ cr_text cr)) text lines
      (path_line left text right cr l b e r) b
line_read left (comment text) cr lines l o =
    line_dropped (left ++ b'#' ∷ (text ++ cr_text cr)) lines
      (comment_line left (text ++ cr_text cr) l)
line_read left nothing cr lines l o =
    line_dropped (left ++ cr_text cr) lines (ap is_skipped (blank_line left cr l))

OneLine-append : (xs ys : List ℕ) → OneLine xs → OneLine ys → OneLine (xs ++ ys)
OneLine-append [] ys h g = g
OneLine-append (x ∷ xs) ys h g = (h.0, OneLine-append xs ys h.1 g)

blank-OneLine : (bs : List ℕ) → AllBlank bs → OneLine bs
blank-OneLine [] h = tt
blank-OneLine (b ∷ bs) h = (λ e. ground arith, blank-OneLine bs h.1)

cr-OneLine : (cr : Bool) → OneLine (cr_text cr)
cr-OneLine true = (omega arith, tt)
cr-OneLine false = tt

content-OneLine : (c : Content) → IsContent c → OneLine (content_text c)
content-OneLine (path text right) (b, e, o, r) = OneLine-append text right o (blank-OneLine right r)
content-OneLine (comment text) o = (omega arith, o)
content-OneLine nothing o = tt

line-OneLine : (l : Line) → IsLine l → OneLine (line_text l)
line-OneLine l h =
    OneLine-append l.left (content_text l.content ++ cr_text l.with_cr)
      (blank-OneLine l.left h.blanks)
      (OneLine-append (content_text l.content) (cr_text l.with_cr)
        (content-OneLine l.content h.content) (cr-OneLine l.with_cr))

split_last : (line : List ℕ) → OneLine line → split_lines line ≡ line ∷ []
unfolding split_lines
split_last [] h = refl
split_last (c ∷ line) h = ground (arith, split_last line h.1)

-- A manifest of lines that each hold a path between blanks, a comment or nothing, with or without a
-- carriage return at the end, is read back as its paths in their order. The last line, which may be
-- empty, ends without a line feed.
pub read_manifest-render :
    (lines : List Line) (unterminated : Line)
    → All IsLine lines
    → IsLine unterminated
    → read_manifest (render lines ++ line_text unterminated) ≡ paths_of (lines ++ unterminated ∷ [])
unfolding read_manifest
read_manifest-render [] u h e =
    ap keep_paths (split_last (line_text u) (line-OneLine u e))
    ∙ line_read u.left u.content u.with_cr [] e.blanks e.content
read_manifest-render (l ∷ ls) u h e =
    ap (λ t. keep_paths (split_lines t))
      (append_assoc (line_text l) (b'\n' ∷ render ls) (line_text u))
    ∙ ap keep_paths (split_at_newline (line_text l) (render ls ++ line_text u) (line-OneLine l h.0))
    ∙ line_read l.left l.content l.with_cr (split_lines (render ls ++ line_text u)) h.0.blanks
        h.0.content
    ∙ ap (add_path l.content) (read_manifest-render ls u h.1 e)

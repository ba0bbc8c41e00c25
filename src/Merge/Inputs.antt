-- ===== src/Merge/Inputs.antt =====
-- rust/src/merge.rs: the manifest's lines and the wildcard match. A text is the list of its
-- characters; reading the file and listing the directory are left out.
pub mod Manifest
pub mod Glob
use mie_decoder.Common.{
  ℕ, zero, suc, ◌+◌, ◌*◌, Bool, true, false, ◌&&◌, ◌||◌, Option, none, some, List, [], ◌∷◌, ◌==◌,
  length, is_empty, if◌then◌else◌,
}

-- `split('\n')`: the first line and those behind it.
abbrev pub add_to_first : ℕ → List (List ℕ) → List (List ℕ)
add_to_first c [] = (c ∷ []) ∷ []
add_to_first c (line ∷ lines) = (c ∷ line) ∷ lines

unfoldable pub split_lines : List ℕ → List (List ℕ)
split_lines [] = [] ∷ []
split_lines (c ∷ text) =
    let lines = split_lines text in if c == b'\n' then [] ∷ lines else add_to_first c lines

-- `strip_suffix('\r')`: one carriage return at the end.
unfoldable pub strip_cr : List ℕ → List ℕ
strip_cr [] = []
strip_cr (c ∷ []) = if c == b'\r' then [] else c ∷ []
strip_cr (c ∷ d ∷ line) = c ∷ strip_cr (d ∷ line)

abbrev pub is_blank : ℕ → Bool
is_blank c = c == b' ' || c == b'\t'

unfoldable pub trim_start : List ℕ → List ℕ
trim_start [] = []
trim_start (c ∷ line) = let rest = trim_start line in if is_blank c then rest else c ∷ line

unfoldable pub trim_end : List ℕ → List ℕ
trim_end [] = []
trim_end (c ∷ line) =
    let rest = trim_end line in if is_blank c && is_empty rest then [] else c ∷ rest

-- `trim_matches([' ', '\t'])`.
unfoldable pub trim_line : List ℕ → List ℕ
unfolding strip_cr trim_start trim_end
trim_line raw = trim_end (trim_start (strip_cr raw))

-- A line that is empty or opens with `#` names no path.
abbrev pub is_skipped : List ℕ → Bool
is_skipped [] = true
is_skipped (c ∷ line) = c == b'#'

unfoldable pub keep_paths : List (List ℕ) → List (List ℕ)
unfolding trim_line
keep_paths [] = []
keep_paths (raw ∷ lines) =
    let rest = keep_paths lines in if is_skipped (trim_line raw) then rest else trim_line raw ∷ rest

unfoldable pub read_manifest : List ℕ → List (List ℕ)
unfolding split_lines keep_paths
read_manifest text = keep_paths (split_lines text)

-- `while p < pat.len() && pat[p] == '*'`, and the test behind it.
unfoldable pub only_stars_left : List ℕ → Bool
only_stars_left [] = true
only_stars_left (c ∷ pat) = c == b'*' && only_stars_left pat

-- `star` and `mark`: the pattern behind the last star, and where the text was taken up there. An
-- index is the suffix that begins at it.
abbrev pub Star : Type 0
Star = Option (List ℕ × List ℕ)

-- The third and the fourth branch: `mark` moves on by a character.
abbrev pub back_to_star : Star → (List ℕ → List ℕ → Star → Option Bool) → Option Bool
back_to_star none round = some false
back_to_star (some (behind, [])) round = some false
back_to_star (some (behind, c ∷ mark)) round = round behind mark (some (behind, mark))

-- The loop over `p`, `t`, `star` and `mark`; `none` means that the fuel ran out.
unfoldable pub glob_loop : ℕ → List ℕ → List ℕ → Star → Option Bool
unfolding only_stars_left
glob_loop zero pat txt star = none
glob_loop (suc fuel) pat [] star = some (only_stars_left pat)
glob_loop (suc fuel) [] (t ∷ txt) star = back_to_star star (glob_loop fuel)
glob_loop (suc fuel) (p ∷ pat) (t ∷ txt) star =
    let taken = glob_loop fuel pat txt star in
    let starred = glob_loop fuel pat (t ∷ txt) (some (pat, t ∷ txt)) in
    let back = back_to_star star (glob_loop fuel) in
    if p == b'?' || p == t then taken else if p == b'*' then starred else back

unfoldable pub glob_match : List ℕ → List ℕ → Option Bool
unfolding glob_loop
glob_match pat txt = glob_loop ((length txt + 1) * (length pat + 1)) pat txt none

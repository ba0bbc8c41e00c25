-- ===== src/Config/Number.antt =====
-- The number literals of rust/src/config.rs: a scan over the bytes `b` from an index.
pub mod Count
pub mod Grammar
pub mod Accepted
pub mod Literal
use mie_decoder.Config.Text.{is_digit}
use mie_decoder.Common.{
  ℕ, zero, suc, ◌+◌, ◌-◌, ◌*◌, ◌/◌, ◌%◌, ◌^◌, ◌≤◌, ◌<◌, min, max, ◌≡◌, refl, sym, ap, ◌∙◌, ◌≢◌, ◌↔◌,
  ◌⊎◌, inl, inr, Bool, true, false, ◌&&◌, ◌||◌, not, Option, none, some, List, [], ◌∷◌, ◌++◌, map,
  arith, ltb, leb, ◌==◌, if◌then◌else◌, ltb→lt, lt→ltb, leb→le, ==_iff, Bool-cases, Option-cases,
  if_intro, length, get_elem?, set, get_or, take, drop, replicate, is_empty, slice, length-append,
  length-take, length-drop, length-replicate, length-set, length-map, take-append-drop, take-append,
  take_all, take-min, take-set, take-take, get_elem?-take, append-nil, append_assoc, shr, low_bits,
  usize_mod, checked_add, saturating_add, abs_diff, insert_sorted, IsSorted, insert_sorted-All,
  insert_sorted-IsSorted, insert_sorted-perm, All, All-append, All-implies, All-set, All-get_elem?,
  select,
}

-- The `while` loop of `scan_digits`, on fuel: a byte for each round.
unfoldable pub scan_digits_loop : ℕ → List ℕ → ℕ → ℕ
scan_digits_loop zero b i = i
scan_digits_loop (suc fuel) b i =
    let rest = scan_digits_loop fuel b (i + 1) in
    elim (get_elem? b i) [ none ↦ i | some c ↦ if is_digit c then rest else i ]

unfoldable pub scan_digits : List ℕ → ℕ → ℕ
unfolding scan_digits_loop
scan_digits b i = scan_digits_loop (length b) b i

unfoldable pub scan_sign : List ℕ → ℕ → ℕ
scan_sign b i = elim (get_elem? b i) [
  | none ↦ i
  | some c ↦ if c == b'+' || c == b'-' then i + 1 else i
]

unfoldable pub scan_integer_part : List ℕ → ℕ → Option ℕ
unfolding scan_digits
scan_integer_part b i = elim (get_elem? b i) [
  | none ↦ none
  | some c ↦ if c == b'0' then some (i + 1) else if is_digit c then some (scan_digits b i) else none
]

-- `(end > start).then_some(end)`.
abbrev pub past : ℕ → ℕ → Option ℕ
past start end = if ltb start end then some end else none

unfoldable pub scan_fraction : List ℕ → ℕ → Option ℕ
unfolding scan_digits
scan_fraction b i = elim (get_elem? b i) [
  | none ↦ some i
  | some c ↦ if c == b'.' then past (i + 1) (scan_digits b (i + 1)) else some i
]

unfoldable pub scan_exponent : List ℕ → ℕ → Option ℕ
unfolding scan_digits scan_sign
scan_exponent b i = elim (get_elem? b i) [
  | none ↦ some i
  | some c ↦
      if c == b'e' || c == b'E'
      then past (scan_sign b (i + 1)) (scan_digits b (scan_sign b (i + 1)))
      else some i
]

-- `let Some(i) = ... else { return false; }`.
abbrev pub or_false : Option ℕ → (ℕ → Bool) → Bool
or_false none f = false
or_false (some i) f = f i

unfoldable pub is_toml_number_literal : List ℕ → Bool
unfolding scan_sign scan_integer_part scan_fraction scan_exponent
is_toml_number_literal b =
    or_false (scan_integer_part b (scan_sign b 0))
      (λ i. or_false (scan_fraction b i) (λ j. or_false (scan_exponent b j) (λ k. k == length b)))

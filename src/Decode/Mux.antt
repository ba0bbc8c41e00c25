-- ===== src/Decode/Mux.antt =====
-- rust/src/decode.rs, `mux_from_filename`: a field of a file's name. Names are lists of character
-- codes.
pub mod Fields
use mie_decoder.Config.Text.{trim}
use mie_decoder.Models.Text.{ℤ, pos, negsuc}
use mie_decoder.Common.{
  ℕ, zero, suc, ◌+◌, ◌-◌, ◌*◌, ◌/◌, ◌%◌, ◌^◌, ◌≤◌, ◌<◌, min, max, ◌≡◌, refl, sym, ap, ◌∙◌, ◌≢◌, ◌↔◌,
  ◌⊎◌, inl, inr, Bool, true, false, ◌&&◌, ◌||◌, not, Option, none, some, List, [], ◌∷◌, ◌++◌, map,
  arith, ltb, leb, ◌==◌, if◌then◌else◌, ltb→lt, lt→ltb, leb→le, ==_iff, Bool-cases, Option-cases,
  if_intro, length, get_elem?, set, get_or, take, drop, replicate, is_empty, slice, ◌>>=◌, bind_inr,
  Right, Right-bind, Right-then, Right-eq, length-append, length-take, length-drop,
  length-replicate, length-set, length-map, take-append-drop, take-append, take_all, take-min,
  take-set, take-take, get_elem?-take, append-nil, append_assoc, shr, low_bits, usize_mod,
  checked_add, saturating_add, abs_diff, insert_sorted, IsSorted, insert_sorted-All,
  insert_sorted-IsSorted, insert_sorted-perm, All, All-append, All-implies, All-set, All-get_elem?,
  select,
}

-- `text` behind `prefix`, if it begins so.
unfoldable pub strip_prefix : List ℕ → List ℕ → Option (List ℕ)
strip_prefix [] text = some text
strip_prefix (p ∷ prefix) [] = none
strip_prefix (p ∷ prefix) (c ∷ text) = if p == c then strip_prefix prefix text else none

-- `split(delimiter)` from the left; `skip` characters of a delimiter are still to pass.
unfoldable pub split_parts : List ℕ → ℕ → List ℕ → List ℕ → List (List ℕ)
unfolding strip_prefix
split_parts delimiter skip cur [] = cur ∷ []
split_parts delimiter (suc skip) cur (c ∷ text) = split_parts delimiter skip cur text
split_parts delimiter zero cur (c ∷ text) =
    let cut = split_parts delimiter (length delimiter - 1) [] text in
    let on = split_parts delimiter 0 (cur ++ c ∷ []) text in
    elim (strip_prefix delimiter (c ∷ text)) [ none ↦ on | some rest ↦ cur ∷ cut ]

-- The index of a field among `len` parts; a negative one counts from the end.
abbrev pub resolve_index : ℕ → ℤ → Option ℕ
resolve_index len (pos n) = some n
resolve_index len (negsuc n) = if leb (n + 1) len then some (len - (n + 1)) else none

abbrev pub not_empty : List ℕ → Option (List ℕ)
not_empty [] = none
not_empty (c ∷ s) = some (c ∷ s)

abbrev pub and_then_some : {A B : Type 0} → Option A → (A → Option B) → Option B
and_then_some none f = none
and_then_some (some a) f = f a

unfoldable pub mux_from_filename : List ℕ → List ℕ → ℤ → Option (List ℕ)
unfolding split_parts trim
mux_from_filename file_name delimiter field =
    let parts = split_parts delimiter 0 [] file_name in
    if is_empty delimiter
    then none
    else and_then_some (resolve_index (length parts) field)
        (λ i. and_then_some (get_elem? parts i) (λ part. not_empty (trim part)))

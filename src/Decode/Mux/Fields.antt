-- ===== src/Decode/Mux/Fields.antt =====
-- `mux_from_filename` of rust/src/decode.rs finds the fields of a name.
use mie_decoder.Config.Text.{trim}
use mie_decoder.Models.Text.{pos, negsuc}
use mie_decoder.Decode.Mux.{strip_prefix, split_parts, resolve_index, not_empty, mux_from_filename}
use mie_decoder.Common.{
  ℕ, ◌+◌, ◌≡◌, refl, sym, ap, ◌∙◌, ◌≢◌, none, some, List, [], ◌∷◌, ◌++◌, arith, leb, if_intro,
  length, get_elem?, length-append, append-nil, append_assoc, All,
}

abbrev pub Without : ℕ → List ℕ → Type 0
Without d = All (λ (c : ℕ). c ≢ d)

-- Fields with a delimiter between them: the first one, and those behind it.
abbrev pub join : ℕ → List ℕ → List (List ℕ) → List ℕ
join d f [] = f
join d f (g ∷ fs) = f ++ d ∷ join d g fs

pass_char :
    (d : ℕ) (cur : List ℕ) (c : ℕ) (text : List ℕ)
    → d ≢ c
    → split_parts (d ∷ []) 0 cur (c ∷ text) ≡ split_parts (d ∷ []) 0 (cur ++ c ∷ []) text
unfolding split_parts strip_prefix
pass_char d cur c text n = ground arith

split_field :
    (d : ℕ) (cur f rest : List ℕ)
    → Without d f
    → split_parts (d ∷ []) 0 cur (f ++ rest) ≡ split_parts (d ∷ []) 0 (cur ++ f) rest
split_field d cur [] rest h = ap (λ c. split_parts (d ∷ []) 0 c rest) (sym (append-nil cur))
split_field d cur (c ∷ f) rest h =
    pass_char d cur c (f ++ rest) (λ e. h.0 (sym e))
    ∙ split_field d (cur ++ c ∷ []) f rest h.1
    ∙ ap (λ s. split_parts (d ∷ []) 0 s rest) (append_assoc cur (c ∷ []) f)

split_delimiter :
    (d : ℕ) (cur rest : List ℕ)
    → split_parts (d ∷ []) 0 cur (d ∷ rest) ≡ cur ∷ split_parts (d ∷ []) 0 [] rest
unfolding split_parts strip_prefix
split_delimiter d cur rest = ground arith

split_join :
    (d : ℕ) (f : List ℕ) (fs : List (List ℕ))
    → Without d f
    → All (Without d) fs
    → split_parts (d ∷ []) 0 [] (join d f fs) ≡ f ∷ fs
unfolding split_parts
split_join d f [] h k =
    ap (λ s. split_parts (d ∷ []) 0 [] s) (sym (append-nil f)) ∙ split_field d [] f [] h
split_join d f (g ∷ fs) h k =
    split_field d [] f (d ∷ join d g fs) h
    ∙ split_delimiter d f (join d g fs)
    ∙ ap (λ ps. f ∷ ps) (split_join d g fs k.0 k.1)

abbrev pub join_all : ℕ → List (List ℕ) → List ℕ
join_all d [] = []
join_all d (f ∷ fs) = join d f fs

split_join_all :
    (d : ℕ) (before : List (List ℕ)) (p : List ℕ) (after : List (List ℕ))
    → All (Without d) (before ++ p ∷ after)
    → split_parts (d ∷ []) 0 [] (join_all d (before ++ p ∷ after)) ≡ before ++ p ∷ after
split_join_all d [] p after h = split_join d p after h.0 h.1
split_join_all d (b ∷ bs) p after h = split_join d b (bs ++ p ∷ after) h.0 h.1

get_elem?-middle :
    (before : List (List ℕ)) (p : List ℕ) (after : List (List ℕ))
    → get_elem? (before ++ p ∷ after) (length before) ≡ some p
get_elem?-middle [] p after = refl
get_elem?-middle (b ∷ bs) p after = get_elem?-middle bs p after

from_end :
    (before : List (List ℕ)) (p : List ℕ) (after : List (List ℕ))
    → resolve_index (length (before ++ p ∷ after)) (negsuc (length after)) ≡ some (length before)
from_end before p after =
    if_intro (λ o. o ≡ some (length before)) (leb (length after + 1) (length (before ++ p ∷ after)))
      _ none (λ h. ap some (omega (arith, length-append before (p ∷ after))))
      (λ h. absurd (ground (arith, length-append before (p ∷ after))))

-- In a name that is made of fields, with a delimiter of one character between them that is in none
-- of them, the index of a field from the front and the one from the end, which is negative, both
-- give that field, trimmed, or nothing where it is empty then.
pub mux_from_filename-join_all :
    (d : ℕ) (before : List (List ℕ)) (p : List ℕ) (after : List (List ℕ))
    → All (Without d) (before ++ p ∷ after)
    → (mux_from_filename (join_all d (before ++ p ∷ after)) (d ∷ []) (pos (length before))
        ≡ not_empty (trim p))
      × (mux_from_filename (join_all d (before ++ p ∷ after)) (d ∷ []) (negsuc (length after))
          ≡ not_empty (trim p))
unfolding mux_from_filename
mux_from_filename-join_all d before p after h = (
  rw (split_join_all d before p after h, get_elem?-middle before p after) refl,
  rw (split_join_all d before p after h, from_end before p after, get_elem?-middle before p after)
      refl,
)

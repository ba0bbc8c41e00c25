-- ===== src/Models/DataWords/Laws.antt =====
-- The inline buffer of rust/src/models.rs refines a list of at most 32 words.
use mie_decoder.Common.{
  ℕ, suc, ◌+◌, ◌%◌, ◌≤◌, min, ◌≡◌, refl, sym, ◌∙◌, inl, inr, true, false, List, [], ◌∷◌, ◌++◌,
  arith, ltb, leb, Bool-cases, length, take, drop, replicate, length-append, length-take,
  length-drop, length-set, take-append, take_all, take-min, take-set, append-nil, append_assoc,
}
use mie_decoder.Models.DataWords.{
  max_data_words, DataWords, new, from_slice, try_push, push_all, from_iter_capped, as_slice,
}

-- The buffer keeps its 32 cells, of which `len` are in use.
pub record IsValid (dw : DataWords) : Type 0 where
  pub cells : length dw.buf ≡ max_data_words
  pub in_use : dw.len ≤ max_data_words

pub new-IsValid : IsValid new
unfolding new
new-IsValid = record { cells = refl; in_use = omega arith }

pub as_slice-new : as_slice new ≡ []
unfolding new as_slice
as_slice-new = refl

pub from_slice-IsValid : (ws : List ℕ) → IsValid (from_slice ws)
unfolding from_slice
from_slice-IsValid ws =
    let n = min (length ws) max_data_words in
    let cleared : List ℕ = replicate max_data_words 0 in
    record {
      cells = omega (
        arith,
        length-append (take n ws) (drop n cleared),
        length-take n ws,
        length-drop n cleared,
      );
      in_use = omega arith;
    }

-- What `from_slice` holds is the first 32 words of the slice.
pub as_slice-from_slice : (ws : List ℕ) → as_slice (from_slice ws) ≡ take max_data_words ws
unfolding as_slice from_slice
as_slice-from_slice ws =
    let n : ℕ = min (length ws) max_data_words in
    let small : n % 256 ≡ n = omega arith in
    rw small
      (take-append n (take n ws) _ (omega (arith, length-take n ws)) ∙ take-min max_data_words ws)

length-as_slice : (dw : DataWords) → IsValid dw → length (as_slice dw) ≡ dw.len
unfolding as_slice
length-as_slice dw v = omega (arith, length-take dw.len dw.buf, v)

push_full :
    (dw : DataWords) (w : ℕ)
    → IsValid dw
    → leb max_data_words dw.len ≡ true
    → try_push dw w ≡ (dw, false)
unfolding try_push
push_full dw w v h = rw h

push_room :
    (dw : DataWords) (w : ℕ)
    → IsValid dw
    → leb max_data_words dw.len ≡ false
    → IsValid (try_push dw w).0
      × ((try_push dw w).1 ≡ true)
      × (as_slice (try_push dw w).0 ≡ as_slice dw ++ (w ∷ []))
unfolding try_push as_slice
push_room dw w v h =
    let len_suc : dw.len + 1 ≡ suc dw.len = omega arith in
    rw (h, len_suc)
      (
        record { cells = omega (arith, v, length-set dw.buf dw.len w); in_use = ground arith },
        refl,
        take-set dw.len dw.buf w (ground arith),
      )

-- A push keeps the buffer valid, is accepted exactly while there is room, and then appends the word.
pub try_push_refines :
    (dw : DataWords) (w : ℕ)
    → IsValid dw
    → IsValid (try_push dw w).0
      × ((try_push dw w).1 ≡ ltb (length (as_slice dw)) max_data_words)
      × (as_slice (try_push dw w).0 ≡ take max_data_words (as_slice dw ++ (w ∷ [])))
try_push_refines dw w v = elim (Bool-cases (leb max_data_words dw.len)) [
  | inl full ↦ rw (push_full dw w v full) (
    v,
    ground (arith, length-as_slice dw v),
    sym (take-append max_data_words (as_slice dw) (w ∷ []) (ground (arith, length-as_slice dw v))),
  )
  | inr room ↦
      let (valid, taken, words) = push_room dw w v room in
      (
        valid,
        taken ∙ ground (arith, length-as_slice dw v),
        words
            ∙ sym (
                take_all max_data_words _
                  (ground (arith, length-as_slice dw v, length-append (as_slice dw) (w ∷ [])))),
      )
]

push_all_refines :
    (dw : DataWords) (ws : List ℕ)
    → IsValid dw
    → IsValid (push_all dw ws)
      × (as_slice (push_all dw ws) ≡ take max_data_words (as_slice dw ++ ws))
unfolding push_all
push_all_refines dw [] v =
    (v, rw append-nil (sym (take_all max_data_words _ (omega (arith, length-as_slice dw v, v)))))
push_all_refines dw (w ∷ ws) v = elim (Bool-cases (leb max_data_words dw.len)) [
  | inl full ↦ rw (push_full dw w v full) (
    v,
    sym (take-append max_data_words (as_slice dw) (w ∷ ws) (ground (arith, length-as_slice dw v))),
  )
  | inr room ↦
      let (valid, taken, words) = push_room dw w v room in
      let (valid', words') = push_all_refines (try_push dw w).0 ws valid in
      rw taken (valid', words' ∙ rw (words, append_assoc))
]

-- A buffer filled word by word is valid, and holds the words that `from_slice` holds.
pub from_iter_capped-from_slice :
    (ws : List ℕ)
    → IsValid (from_iter_capped ws) × (as_slice (from_iter_capped ws) ≡ as_slice (from_slice ws))
unfolding from_iter_capped
from_iter_capped-from_slice ws =
    let (valid, words) = push_all_refines new ws new-IsValid in
    (valid, words ∙ rw (as_slice-new, as_slice-from_slice))

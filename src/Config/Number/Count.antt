-- ===== src/Config/Number/Count.antt =====
-- The scans of rust/src/config.rs by index, as counts of what stands at the head of a text.
use mie_decoder.Config.Text.{map_option, is_digit}
use mie_decoder.Config.Number.{
  scan_digits_loop, scan_digits, scan_sign, scan_integer_part, past, scan_fraction, scan_exponent,
}
use mie_decoder.Common.{
  ℕ, zero, suc, ◌+◌, ◌≤◌, ◌≡◌, refl, sym, ap, ◌∙◌, ◌||◌, Option, none, some, List, [], ◌∷◌, arith,
  ◌==◌, if◌then◌else◌, length, get_elem?, drop, length-drop, drop-drop,
}

abbrev pub count_digits : List ℕ → ℕ
count_digits [] = 0
count_digits (c ∷ s) = let n = count_digits s in if is_digit c then suc n else 0

abbrev pub sign_count : List ℕ → ℕ
sign_count [] = 0
sign_count (c ∷ s) = if c == b'+' || c == b'-' then 1 else 0

abbrev pub integer_count : List ℕ → Option ℕ
integer_count [] = none
integer_count (c ∷ s) =
    if c == b'0' then some 1 else if is_digit c then some (suc (count_digits s)) else none

-- A mark with `n` digits behind it, of which there is one at least.
abbrev pub marked : ℕ → ℕ → Option ℕ
marked before zero = none
marked before (suc n) = some (before + suc n)

abbrev pub fraction_count : List ℕ → Option ℕ
fraction_count [] = some 0
fraction_count (c ∷ s) = if c == b'.' then marked 1 (count_digits s) else some 0

abbrev pub exponent_count : List ℕ → Option ℕ
exponent_count [] = some 0
exponent_count (c ∷ s) =
    if c == b'e' || c == b'E'
    then marked (1 + sign_count s) (count_digits (drop (sign_count s) s))
    else some 0

-- `some k` is `k` places behind `i`.
abbrev pub behind : ℕ → Option ℕ → Option ℕ
behind i = map_option (λ k. i + k)

at_suc :
    (b : List ℕ) (i c : ℕ) (s : List ℕ)
    → drop i b ≡ c ∷ s
    → (get_elem? b i ≡ some c) × (drop (suc i) b ≡ s)
at_suc [] zero c s h = absurd (ground arith)
at_suc [] (suc i) c s h = absurd (ground arith)
at_suc (x ∷ b) zero c s h = (ground arith, ground arith)
at_suc (x ∷ b) (suc i) c s h = at_suc b i c s h

-- What stands at `i` and behind it.
at_head : (b : List ℕ) (i c : ℕ) (s : List ℕ) → drop i b ≡ c ∷ s → get_elem? b i ≡ some c
at_head b i c s h = (at_suc b i c s h).0

at_tail : (b : List ℕ) (i c : ℕ) (s : List ℕ) → drop i b ≡ c ∷ s → drop (i + 1) b ≡ s
at_tail b i c s h =
    let e : (i + 1 ≡ suc i) = omega arith in ap (λ k. drop k b) e ∙ (at_suc b i c s h).1

at_nil : (b : List ℕ) (i : ℕ) → drop i b ≡ [] → get_elem? b i ≡ none
at_nil [] i h = refl
at_nil (x ∷ b) zero h = absurd (ground arith)
at_nil (x ∷ b) (suc i) h = at_nil b i h

digits_lem :
    (fuel : ℕ) (b : List ℕ) (i : ℕ) (s : List ℕ)
    → drop i b ≡ s
    → length s ≤ fuel
    → scan_digits_loop fuel b i ≡ i + count_digits s
unfolding scan_digits_loop
digits_lem zero b i [] h l = omega arith
digits_lem zero b i (c ∷ s) h l = absurd (omega arith)
digits_lem (suc fuel) b i [] h l = rw (scan_digits_loop, at_nil b i h) (omega arith)
digits_lem (suc fuel) b i (c ∷ s) h l =
    rw (scan_digits_loop, at_head b i c s h)
      (ground (arith, digits_lem fuel b (i + 1) s (at_tail b i c s h) (omega arith)))

scan_digits_lem :
    (b : List ℕ) (i : ℕ) (s : List ℕ) → drop i b ≡ s → scan_digits b i ≡ i + count_digits s
unfolding scan_digits
scan_digits_lem b i s h =
    digits_lem (length b) b i s h (omega (arith, length-drop i b, ap length h))

pub scan_sign_lem :
    (b : List ℕ) (i : ℕ) (s : List ℕ) → drop i b ≡ s → scan_sign b i ≡ i + sign_count s
unfolding scan_sign
scan_sign_lem b i [] h = rw (scan_sign, at_nil b i h) (omega arith)
scan_sign_lem b i (c ∷ s) h = rw (scan_sign, at_head b i c s h) (ground arith)

pub scan_integer_part_lem :
    (b : List ℕ) (i : ℕ) (s : List ℕ)
    → drop i b ≡ s
    → scan_integer_part b i ≡ behind i (integer_count s)
unfolding scan_integer_part
scan_integer_part_lem b i [] h = rw (scan_integer_part, at_nil b i h) refl
scan_integer_part_lem b i (c ∷ s) h =
    rw (scan_integer_part, at_head b i c s h) (ground (arith, scan_digits_lem b i (c ∷ s) h))

past-marked : (i before n : ℕ) → past (i + before) (i + before + n) ≡ behind i (marked before n)
past-marked i before zero = ground arith
past-marked i before (suc n) = ground arith

pub scan_fraction_lem :
    (b : List ℕ) (i : ℕ) (s : List ℕ)
    → drop i b ≡ s
    → scan_fraction b i ≡ behind i (fraction_count s)
unfolding scan_fraction
scan_fraction_lem b i [] h = rw (scan_fraction, at_nil b i h) (ground arith)
scan_fraction_lem b i (c ∷ s) h =
    rw (scan_fraction, at_head b i c s h, scan_digits_lem b (i + 1) s (at_tail b i c s h))
      (ground (arith, past-marked i 1 (count_digits s)))

pub drop_behind : (b : List ℕ) (i k : ℕ) (s : List ℕ) → drop i b ≡ s → drop (i + k) b ≡ drop k s
drop_behind b i k s h = sym (drop-drop i k b) ∙ ap (drop k) h

pub scan_exponent_lem :
    (b : List ℕ) (i : ℕ) (s : List ℕ)
    → drop i b ≡ s
    → scan_exponent b i ≡ behind i (exponent_count s)
unfolding scan_exponent
scan_exponent_lem b i [] h = rw (scan_exponent, at_nil b i h) (ground arith)
scan_exponent_lem b i (c ∷ s) h =
    let e : (i + 1 + sign_count s ≡ i + (1 + sign_count s)) = omega arith in
    rw
      (
        scan_exponent,
        at_head b i c s h,
        scan_sign_lem b (i + 1) s (at_tail b i c s h),
        scan_digits_lem b (i + 1 + sign_count s) (drop (sign_count s) s)
            (drop_behind b (i + 1) (sign_count s) s (at_tail b i c s h)),
        e,
      )
      (ground (arith, past-marked i (1 + sign_count s) (count_digits (drop (sign_count s) s))))

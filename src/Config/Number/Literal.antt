-- ===== src/Config/Number/Literal.antt =====
-- `is_toml_number_literal` of rust/src/config.rs accepts the numbers of TOML and nothing else.
use mathlib.Core.Path.{subst}
use mathlib.Core.Option.{some-injective}
use mie_decoder.Config.Number.{scan_sign, or_false, is_toml_number_literal}
use mie_decoder.Config.Number.Count.{
  sign_count, integer_count, fraction_count, exponent_count, behind, scan_sign_lem,
  scan_integer_part_lem, scan_fraction_lem, scan_exponent_lem, drop_behind,
}
use mie_decoder.Config.Number.Accepted.{
  HeadDigit-integer, NoDigit-fraction, sign_counted, integer_counted, fraction_counted,
  exponent_counted, drop_all,
}
use mie_decoder.Config.Number.Grammar.{
  IsSign, IsInteger, IsFraction, IsExponent, IsNumber, Taken, IsSign-taken, IsInteger-Taken,
  IsFraction-Taken, IsExponent-Taken,
}
use mie_decoder.Common.{
  ℕ, ◌+◌, ◌≡◌, refl, sym, ap, ◌∙◌, ◌↔◌, Bool, true, Option, none, some, List, ◌++◌, arith, ◌==◌,
  ==_iff, length, take, drop, length-append, length-drop, take-append-drop, take_all,
}

or_false_ext :
    (o p : Option ℕ) (f g : ℕ → Bool) → o ≡ p → ((i : ℕ) → f i ≡ g i) → or_false o f ≡ or_false p g
or_false_ext none none f g e h = refl
or_false_ext none (some j) f g e h = cc
or_false_ext (some i) none f g e h = cc
or_false_ext (some i) (some j) f g e h = h i ∙ ap g (some-injective i j e)

-- The scans, with the counts in the place of the positions.
literal_counts :
    (b : List ℕ)
    → is_toml_number_literal b
      ≡ or_false (behind (scan_sign b 0) (integer_count (drop (scan_sign b 0) b))) (λ i.
        or_false
          (behind i (fraction_count (drop i b)))
          (λ j. or_false (behind j (exponent_count (drop j b))) (λ k. k == length b)))
unfolding is_toml_number_literal
literal_counts b = or_false_ext _ _ _ _ (scan_integer_part_lem b (scan_sign b 0) _ refl) (λ i.
    or_false_ext _ _ _ _ (scan_fraction_lem b i _ refl)
      (λ j. or_false_ext _ _ _ _ (scan_exponent_lem b j _ refl) (λ k. refl)))

counted :
    (i : ℕ) (o : Option ℕ) (f : ℕ → Bool)
    → or_false (behind i o) f ≡ true
    → (k : ℕ) × ((o ≡ some k) × (f (i + k) ≡ true))
counted i none f h = cc
counted i (some k) f h = (k, (refl, h))

taken :
    (P : List ℕ → Type 0) (s : List ℕ) (o : Option ℕ) (k : ℕ)
    → Taken P s o
    → o ≡ some k
    → P (take k s)
taken P s none k t e = cc
taken P s (some j) k t e = subst (λ n. P (take n s)) (some-injective j k e) t

piece : (b : List ℕ) (i k : ℕ) → drop i b ≡ take k (drop i b) ++ drop (i + k) b
piece b i k =
    sym (take-append-drop k (drop i b))
    ∙ ap (λ t. take k (drop i b) ++ t) (sym (drop_behind b i k (drop i b) refl))

parts :
    (b : List ℕ) (i n m : ℕ)
    → b ≡ take i b ++ (take n (drop i b) ++ (take m (drop (i + n) b) ++ drop (i + n + m) b))
parts b i n m =
    sym (take-append-drop i b)
    ∙ ap (λ t. take i b ++ t) (piece b i n ∙ ap (λ t. take n (drop i b) ++ t) (piece b (i + n) m))

whole :
    (P : List ℕ → Type 0) (b : List ℕ) (i l : ℕ)
    → P (take l (drop i b))
    → (i + l == length b) ≡ true
    → P (drop i b)
whole P b i l p h =
    let e : (i + l ≡ length b) = (==_iff (i + l) (length b)).0 h in
    subst P (take_all l (drop i b) (omega (arith, length-drop i b))) p

-- A text that the scans take to its end is a number.
is_toml_number_literal_sound : (b : List ℕ) → is_toml_number_literal b ≡ true → IsNumber b
is_toml_number_literal_sound b h =
    let i = scan_sign b 0 in
    let (n, (en, hn)) = counted i (integer_count (drop i b)) _ (sym (literal_counts b) ∙ h) in
    let (m, (em, hm)) = counted (i + n) (fraction_count (drop (i + n) b)) _ hn in
    let (l, (el, hl)) = counted (i + n + m) (exponent_count (drop (i + n + m) b)) _ hm in
    record {
      sign = take i b;
      integer = take n (drop i b);
      fraction = take m (drop (i + n) b);
      exponent = drop (i + n + m) b;
      text = parts b i n m;
      sign_ok =
          (let e : (sign_count b ≡ i) = omega (arith, scan_sign_lem b 0 b refl) in
            subst (λ k. IsSign (take k b)) e (IsSign-taken b));
      integer_ok = taken IsInteger (drop i b) _ n (IsInteger-Taken (drop i b)) en;
      fraction_ok = taken IsFraction (drop (i + n) b) _ m (IsFraction-Taken (drop (i + n) b)) em;
      exponent_ok =
          whole IsExponent b (i + n + m) l
            (taken IsExponent (drop (i + n + m) b) _ l (IsExponent-Taken (drop (i + n + m) b)) el)
            hl;
    }

-- The other way: the scans take a number to its end.
or_false-some :
    (i : ℕ) (o : Option ℕ) (k : ℕ) (f : ℕ → Bool)
    → o ≡ some k
    → f (i + k) ≡ true
    → or_false (behind i o) f ≡ true
or_false-some i none k f e h = cc
or_false-some i (some j) k f e h = subst (λ n. f (i + n) ≡ true) (sym (some-injective j k e)) h

is_toml_number_literal_complete : (b : List ℕ) → IsNumber b → is_toml_number_literal b ≡ true
is_toml_number_literal_complete b p =
    let s1 = p.integer ++ (p.fraction ++ p.exponent) in
    let sign : (scan_sign b 0 ≡ length p.sign) =
      scan_sign_lem b 0 b refl
      ∙ ap (λ t. 0 + sign_count t) p.text
      ∙ omega (
        arith,
        sign_counted p.sign s1 p.sign_ok
            (HeadDigit-integer p.integer (p.fraction ++ p.exponent) p.integer_ok),
      ) in
    let at1 : (drop (scan_sign b 0) b ≡ s1) =
      ap (λ n. drop n b) sign ∙ ap (drop (length p.sign)) p.text ∙ drop_all p.sign s1 in
    let at2 : (drop (scan_sign b 0 + length p.integer) b ≡ p.fraction ++ p.exponent) =
      drop_behind b (scan_sign b 0) (length p.integer) s1 at1
      ∙ drop_all p.integer (p.fraction ++ p.exponent) in
    let at3 : (drop (scan_sign b 0 + length p.integer + length p.fraction) b ≡ p.exponent) =
      drop_behind b (scan_sign b 0 + length p.integer) (length p.fraction)
        (p.fraction ++ p.exponent) at2
      ∙ drop_all p.fraction p.exponent in
    literal_counts b
    ∙ or_false-some (scan_sign b 0) _ (length p.integer) _
        (ap integer_count at1
          ∙ integer_counted p.integer (p.fraction ++ p.exponent) p.integer_ok
              (NoDigit-fraction p.fraction p.exponent p.fraction_ok p.exponent_ok))
        (or_false-some (scan_sign b 0 + length p.integer) _ (length p.fraction) _
          (ap fraction_count at2
            ∙ fraction_counted p.fraction p.exponent p.fraction_ok p.exponent_ok)
          (or_false-some (scan_sign b 0 + length p.integer + length p.fraction) _
            (length p.exponent) _
            (ap exponent_count at3 ∙ exponent_counted p.exponent p.exponent_ok) (total b p sign)))
  where
    total :
        (b : List ℕ) (p : IsNumber b)
        → scan_sign b 0 ≡ length p.sign
        → (scan_sign b 0 + length p.integer + length p.fraction + length p.exponent == length b)
          ≡ true
    total b p sign = (==_iff _ (length b)).1 (
        omega (
          arith,
          ap length p.text,
          length-append p.sign (p.integer ++ (p.fraction ++ p.exponent)),
          length-append p.integer (p.fraction ++ p.exponent),
          length-append p.fraction p.exponent,
        ))

-- A text is taken for a number exactly where the grammar of TOML has it: a sign or none, `0` or
-- digits that do not begin with `0`, then a point with digits or nothing, then an exponent with
-- digits or nothing.
pub is_toml_number_literal_iff : (b : List ℕ) → (is_toml_number_literal b ≡ true) ↔ IsNumber b
is_toml_number_literal_iff b = (is_toml_number_literal_sound b, is_toml_number_literal_complete b)

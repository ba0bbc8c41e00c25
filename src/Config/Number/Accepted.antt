-- ===== src/Config/Number/Accepted.antt =====
-- The scans of rust/src/config.rs take a number of TOML to its end.
use mie_decoder.Config.Text.{is_digit}
use mie_decoder.Config.Number.Count.{
  count_digits, sign_count, integer_count, marked, fraction_count, exponent_count,
}
use mie_decoder.Config.Number.Grammar.{IsDigit, IsSign, IsDigits, IsInteger, IsFraction, IsExponent}
use mie_decoder.Common.{
  ℕ, suc, ◌+◌, ◌≡◌, refl, sym, ap, ◌∙◌, inl, inr, false, some, List, [], ◌∷◌, ◌++◌, arith, length,
  drop, length-append, append-nil, All,
}

-- What stands behind digits.
abbrev pub NoDigit : List ℕ → Type 0
NoDigit [] = Unit
NoDigit (c ∷ s) = is_digit c ≡ false

digits_counted :
    (ds rest : List ℕ) → All IsDigit ds → NoDigit rest → count_digits (ds ++ rest) ≡ length ds
digits_counted [] [] a n = refl
digits_counted [] (c ∷ rest) a n = ground arith
digits_counted (d ∷ ds) rest a n = ground (arith, digits_counted ds rest a.1 n)

abbrev pub HeadDigit : List ℕ → Type 0
HeadDigit [] = ⊥
HeadDigit (c ∷ s) = IsDigit c

pub HeadDigit-integer : (int rest : List ℕ) → IsInteger int → HeadDigit (int ++ rest)
HeadDigit-integer [] rest i = absurd i
HeadDigit-integer (c ∷ s) rest i = ground (arith, i)

pub sign_counted :
    (sg rest : List ℕ) → IsSign sg → HeadDigit rest → sign_count (sg ++ rest) ≡ length sg
sign_counted [] [] g h = absurd h
sign_counted [] (c ∷ rest) g h = ground (arith, h)
sign_counted (c ∷ []) rest g h = ground (arith, g)
sign_counted (c ∷ d ∷ s) rest g h = absurd g

pub integer_counted :
    (int rest : List ℕ)
    → IsInteger int
    → NoDigit rest
    → integer_count (int ++ rest) ≡ some (length int)
integer_counted [] rest i n = absurd i
integer_counted (c ∷ s) rest (inl (z, e)) n = rw e (ground arith)
integer_counted (c ∷ s) rest (inr (l, h, a)) n = ground (arith, digits_counted s rest a n)

NoDigit-exponent : (ex : List ℕ) → IsExponent ex → NoDigit ex
NoDigit-exponent [] x = tt
NoDigit-exponent (c ∷ s) x = ground (arith, x.0)

pub NoDigit-fraction : (fr ex : List ℕ) → IsFraction fr → IsExponent ex → NoDigit (fr ++ ex)
NoDigit-fraction [] ex f x = NoDigit-exponent ex x
NoDigit-fraction (c ∷ s) ex f x = ground (arith, f.0)

-- Digits behind a mark are counted to their end.
marked_digits :
    (before : ℕ) (ds rest : List ℕ)
    → IsDigits ds
    → NoDigit rest
    → marked before (count_digits (ds ++ rest)) ≡ some (before + length ds)
marked_digits before [] rest d n = absurd d
marked_digits before (c ∷ ds) rest d n = ap (marked before) (digits_counted (c ∷ ds) rest d n)

pub fraction_counted :
    (fr ex : List ℕ) → IsFraction fr → IsExponent ex → fraction_count (fr ++ ex) ≡ some (length fr)
fraction_counted [] [] f x = refl
fraction_counted [] (c ∷ s) f x = ground (arith, x.0)
fraction_counted (c ∷ s) ex f x =
    ground (arith, f.0, marked_digits 1 s ex f.1 (NoDigit-exponent ex x))

pub drop_all : (xs ys : List ℕ) → drop (length xs) (xs ++ ys) ≡ ys
drop_all [] ys = refl
drop_all (x ∷ xs) ys = drop_all xs ys

HeadDigit-digits : (ds : List ℕ) → IsDigits ds → HeadDigit ds
HeadDigit-digits [] d = absurd d
HeadDigit-digits (c ∷ s) d = d.0

marked_behind :
    (s g d : List ℕ)
    → s ≡ g ++ d
    → IsSign g
    → IsDigits d
    → marked (1 + sign_count s) (count_digits (drop (sign_count s) s)) ≡ some (suc (length s))
marked_behind s g d e g_ok d_ok =
    rw (e, sign_counted g d g_ok (HeadDigit-digits d d_ok), drop_all g d)
      (ap (λ t. marked (1 + length g) (count_digits t)) (sym (append-nil d))
        ∙ marked_digits (1 + length g) d [] d_ok tt
        ∙ ap some (omega (arith, length-append g d)))

pub exponent_counted : (ex : List ℕ) → IsExponent ex → exponent_count ex ≡ some (length ex)
exponent_counted [] x = refl
exponent_counted (c ∷ s) x =
    let (g, (d, (e, g_ok, d_ok))) = x.1 in ground (arith, x.0, marked_behind s g d e g_ok d_ok)

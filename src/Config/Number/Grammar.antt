-- ===== src/Config/Number/Grammar.antt =====
-- The grammar of a number in TOML, and the texts that rust/src/config.rs takes for one.
use mie_decoder.Config.Text.{is_digit}
use mathlib.Core.Path.{subst}
use mie_decoder.Config.Number.Count.{
  count_digits, sign_count, integer_count, marked, fraction_count, exponent_count,
}
use mie_decoder.Common.{
  ℕ, zero, suc, ◌+◌, ◌≤◌, ◌≡◌, refl, sym, ap, ◌∙◌, ◌⊎◌, inl, inr, true, ◌||◌, Option, none, some,
  List, [], ◌∷◌, ◌++◌, arith, ◌==◌, ==_iff, if_intro, take, drop, All,
}

abbrev pub IsDigit : ℕ → Type 0
IsDigit c = (b'0' ≤ c) × (c ≤ b'9')

abbrev pub IsSign : List ℕ → Type 0
IsSign [] = Unit
IsSign (c ∷ []) = (c ≡ b'+') ⊎ (c ≡ b'-')
IsSign (c ∷ d ∷ s) = ⊥

-- One digit at least.
abbrev pub IsDigits : List ℕ → Type 0
IsDigits [] = ⊥
IsDigits (c ∷ s) = IsDigit c × All IsDigit s

-- `0`, or digits of which the first is not `0`.
abbrev pub IsInteger : List ℕ → Type 0
IsInteger [] = ⊥
IsInteger (c ∷ s) = ((c ≡ b'0') × (s ≡ [])) ⊎ ((b'1' ≤ c) × (c ≤ b'9') × All IsDigit s)

abbrev pub IsFraction : List ℕ → Type 0
IsFraction [] = Unit
IsFraction (c ∷ s) = (c ≡ b'.') × IsDigits s

abbrev pub IsExponent : List ℕ → Type 0
IsExponent [] = Unit
IsExponent (c ∷ s) =
    ((c ≡ b'e') ⊎ (c ≡ b'E'))
    × ((sign : List ℕ) × ((digits : List ℕ) × ((s ≡ sign ++ digits)
            × IsSign sign
            × IsDigits digits)))

-- `[+-]? ( 0 | [1-9][0-9]* ) ( . [0-9]+ )? ( [eE] [+-]? [0-9]+ )?`.
pub record IsNumber (s : List ℕ) : Type 0 where
  pub sign : List ℕ
  pub integer : List ℕ
  pub fraction : List ℕ
  pub exponent : List ℕ
  pub text : s ≡ sign ++ (integer ++ (fraction ++ exponent))
  pub sign_ok : IsSign sign
  pub integer_ok : IsInteger integer
  pub fraction_ok : IsFraction fraction
  pub exponent_ok : IsExponent exponent

digits_taken : (s : List ℕ) → All IsDigit (take (count_digits s) s)
digits_taken [] = tt
digits_taken (c ∷ s) =
    if_intro (λ (n : ℕ). All IsDigit (take n (c ∷ s))) (is_digit c) (suc (count_digits s)) 0
      (λ h. ((ground arith, ground arith), digits_taken s)) (λ h. tt)

pub IsSign-taken : (s : List ℕ) → IsSign (take (sign_count s) s)
IsSign-taken [] = tt
IsSign-taken (c ∷ s) =
    if_intro (λ (n : ℕ). IsSign (take n (c ∷ s))) (c == b'+' || c == b'-') 1 0 (λ h. ground arith)
      (λ h. tt)

-- What a count that is found takes.
abbrev pub Taken : (List ℕ → Type 0) → List ℕ → Option ℕ → Type 0
Taken P s none = Unit
Taken P s (some k) = P (take k s)

pub IsInteger-Taken : (s : List ℕ) → Taken IsInteger s (integer_count s)
IsInteger-Taken [] = tt
IsInteger-Taken (c ∷ s) =
    if_intro (Taken IsInteger (c ∷ s)) (c == b'0') _ _ (λ h. inl (ground arith, refl))
      (λ h.
        if_intro (Taken IsInteger (c ∷ s)) (is_digit c) _ _
          (λ p. inr (ground arith, ground arith, digits_taken s)) (λ p. tt))

-- The digits that `marked` counts.
some-IsDigits : (n : ℕ) (s : List ℕ) → count_digits s ≡ suc n → IsDigits (take (suc n) s)
some-IsDigits n [] h = absurd (omega arith)
some-IsDigits n (c ∷ s) h =
    let p : All IsDigit (take (suc n) (c ∷ s)) =
      subst (λ k. All IsDigit (take k (c ∷ s))) h (digits_taken (c ∷ s)) in
    p

pub IsFraction-Taken : (s : List ℕ) → Taken IsFraction s (fraction_count s)
IsFraction-Taken [] = tt
IsFraction-Taken (c ∷ s) =
    if_intro (Taken IsFraction (c ∷ s)) (c == b'.') _ _ (λ h. mark h (count_digits s) refl)
      (λ h. tt)
  where
    mark : (c == b'.') ≡ true → (n : ℕ) → count_digits s ≡ n → Taken IsFraction (c ∷ s) (marked 1 n)
    mark h zero e = tt
    mark h (suc n) e =
        let k : (1 + suc n ≡ suc (suc n)) = omega arith in
        subst (λ j. IsFraction (take j (c ∷ s))) (sym k) ((==_iff c b'.').0 h, some-IsDigits n s e)

take_nil : (j : ℕ) → take {A = ℕ} j [] ≡ []
take_nil zero = refl
take_nil (suc j) = refl

take-add : (i j : ℕ) (s : List ℕ) → take (i + j) s ≡ take i s ++ take j (drop i s)
take-add zero j s = let e : (0 + j ≡ j) = omega arith in ap (λ n. take n s) e
take-add (suc i) j [] =
    let e : (suc i + j ≡ suc (i + j)) = omega arith in ap (λ n. take n []) e ∙ sym (take_nil j)
take-add (suc i) j (x ∷ s) =
    let e : (suc i + j ≡ suc (i + j)) = omega arith in
    ap (λ n. take n (x ∷ s)) e ∙ ap (λ t. x ∷ t) (take-add i j s)

pub IsExponent-Taken : (s : List ℕ) → Taken IsExponent s (exponent_count s)
IsExponent-Taken [] = tt
IsExponent-Taken (c ∷ s) =
    if_intro (Taken IsExponent (c ∷ s)) (c == b'e' || c == b'E') _ _
      (λ h. mark h (count_digits (drop (sign_count s) s)) refl) (λ h. tt)
  where
    mark :
        (c == b'e' || c == b'E') ≡ true
        → (n : ℕ) → count_digits (drop (sign_count s) s) ≡ n
        → Taken IsExponent (c ∷ s) (marked (1 + sign_count s) n)
    mark h zero e = tt
    mark h (suc n) e =
        let k : (1 + sign_count s + suc n ≡ suc (sign_count s + suc n)) = omega arith in
        subst (λ j. IsExponent (take j (c ∷ s))) (sym k)
          (
            ground arith,
            (
              take (sign_count s) s,
              (
                take (suc n) (drop (sign_count s) s),
                (
                  take-add (sign_count s) (suc n) s,
                  IsSign-taken s,
                  some-IsDigits n (drop (sign_count s) s) e,
                ),
              ),
            ),
          )

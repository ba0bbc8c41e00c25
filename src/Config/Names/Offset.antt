-- ===== src/Config/Names/Offset.antt =====
-- `parse_utc_offset` of rust/src/config.rs reads back what `format_utc_offset` of
-- rust/src/models.rs writes.
use mie_decoder.Config.Text.{text_eq, is_digit, negative}
use mie_decoder.Config.Names.{
  two_digits, in_day, signed, offset_shape, or_invalid, parse_utc_offset,
}
use mie_decoder.Config.Sections.InRange.{WithinDay}
use mie_decoder.Models.Text.{
  digit, decimal_loop, decimal, padded, ℤ, pos, negsuc, offset_text, format_utc_offset,
}
use mie_decoder.Common.{
  ℕ, zero, suc, ◌+◌, ◌-◌, ◌*◌, ◌/◌, ◌%◌, ◌≤◌, ◌<◌, ◌≡◌, refl, ap, ◌∙◌, inl, inr, Bool, true, false,
  ◌&&◌, ◌||◌, none, some, [], ◌∷◌, arith, ltb, if◌then◌else◌, ltb→lt, Bool-cases, if_intro,
}

one_digit : (fuel n : ℕ) → 1 ≤ fuel → n < 10 → decimal_loop fuel n ≡ digit n ∷ []
unfolding decimal_loop
one_digit zero n f h = absurd (omega arith)
one_digit (suc fuel) n f h = ground arith

two_places :
    (fuel n : ℕ)
    → 2 ≤ fuel
    → 10 ≤ n
    → n < 100
    → decimal_loop fuel n ≡ digit (n / 10) ∷ digit (n % 10) ∷ []
unfolding decimal_loop
two_places zero n f l h = absurd (omega arith)
two_places (suc fuel) n f l h = ground (arith, one_digit fuel (n / 10) (omega arith) (omega arith))

padded-two : (n : ℕ) → n < 100 → padded 2 n ≡ digit (n / 10) ∷ digit (n % 10) ∷ []
unfolding padded decimal
padded-two n h = elim (Bool-cases (ltb n 10)) [
  | inl y ↦ small (ltb→lt n 10 y)
  | inr k ↦ large (ground arith)
]
  where
    small : n < 10 → padded 2 n ≡ digit (n / 10) ∷ digit (n % 10) ∷ []
    small l = rw (one_digit (n + 1) n (omega arith) l) (ground arith)

    large : 10 ≤ n → padded 2 n ≡ digit (n / 10) ∷ digit (n % 10) ∷ []
    large l = rw (two_places (n + 1) n (omega arith) l h) refl

two_digits-digit : (n : ℕ) → n < 100 → two_digits (digit (n / 10)) (digit (n % 10)) ≡ some n
two_digits-digit n h =
    if_intro (λ o. o ≡ some n) (is_digit (digit (n / 10)) && is_digit (digit (n % 10)))
      (some ((digit (n / 10) - b'0') * 10 + (digit (n % 10) - b'0'))) none
      (λ p. ap some (omega arith)) (λ p. absurd (ground arith))

shape :
    (sign n : ℕ)
    → n < 1440
    → offset_shape (offset_text sign n) ≡ signed sign (some (n / 60)) (some (n % 60))
shape sign n h =
    rw (padded-two (n / 60) (omega arith), padded-two (n % 60) (omega arith))
      (rw (two_digits-digit (n / 60) (omega arith), two_digits-digit (n % 60) (omega arith)) refl)

in_day-some :
    (minus : Bool) (n : ℕ)
    → n < 1440
    → in_day minus (some (n / 60)) (some (n % 60)) ≡ some (if minus then negative n else pos n)
in_day-some false n h =
    if_intro (λ o. o ≡ some (pos n)) (ltb 23 (n / 60) || ltb 59 (n % 60)) none
      (some (pos (n / 60 * 60 + n % 60))) (λ p. absurd (ground arith))
      (λ p. ap (λ k. some (pos k)) (omega arith))
in_day-some true n h =
    if_intro (λ o. o ≡ some (negative n)) (ltb 23 (n / 60) || ltb 59 (n % 60)) none
      (some (negative (n / 60 * 60 + n % 60))) (λ p. absurd (ground arith))
      (λ p. ap (λ k. some (negative k)) (omega arith))

negative_succ : (n : ℕ) → negative (n + 1) ≡ negsuc n
negative_succ n = let e : (n + 1 ≡ suc n) = omega arith in ap negative e

-- An offset of less than a day is read back from its text.
pub parse_utc_offset-format_utc_offset :
    (minutes : ℤ) → WithinDay minutes → parse_utc_offset (format_utc_offset minutes) ≡ inr minutes
unfolding parse_utc_offset format_utc_offset text_eq
parse_utc_offset-format_utc_offset (pos zero) h = refl
parse_utc_offset-format_utc_offset (pos (suc n)) h =
    rw (shape b'+' (suc n) h) (ap or_invalid (in_day-some false (suc n) h))
parse_utc_offset-format_utc_offset (negsuc n) h =
    rw (shape b'-' (n + 1) h)
      (ap or_invalid (in_day-some true (n + 1) h) ∙ ap (λ z. inr z) (negative_succ n))

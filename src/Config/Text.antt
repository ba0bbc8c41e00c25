-- ===== src/Config/Text.antt =====
-- What rust/src/config.rs takes from the standard library of a text, the list of its characters.
use mie_decoder.Common.{
  ℕ, zero, suc, ◌+◌, ◌-◌, ◌*◌, max, Bool, true, false, ◌&&◌, ◌||◌, Option, none, some, List, [],
  ◌∷◌, map, leb, ◌==◌, if◌then◌else◌, is_empty,
}
use mie_decoder.Merge.Inputs.{split_lines, strip_cr}
use mie_decoder.Models.Text.{ℤ, pos, negsuc}

-- `Option::map`.
abbrev pub map_option : {A B : Type 0} → (A → B) → Option A → Option B
map_option f none = none
map_option f (some a) = some (f a)

unfoldable pub text_eq : List ℕ → List ℕ → Bool
text_eq [] [] = true
text_eq [] (y ∷ ys) = false
text_eq (x ∷ xs) [] = false
text_eq (x ∷ xs) (y ∷ ys) = x == y && text_eq xs ys

abbrev pub is_digit : ℕ → Bool
is_digit c = leb b'0' c && leb c b'9'

abbrev pub is_upper : ℕ → Bool
is_upper c = leb b'A' c && leb c b'Z'

abbrev pub is_lower : ℕ → Bool
is_lower c = leb b'a' c && leb c b'z'

-- `to_ascii_lowercase` and `to_ascii_uppercase`.
abbrev pub lower : List ℕ → List ℕ
lower = map (λ (c : ℕ). if is_upper c then c + 32 else c)

abbrev pub upper : List ℕ → List ℕ
upper = map (λ (c : ℕ). if is_lower c then c - 32 else c)

-- `char::is_whitespace`: the property White_Space.
abbrev pub is_whitespace : ℕ → Bool
is_whitespace c =
    leb 9 c && leb c 13
    || c == 32
    || c == 0x85
    || c == 0xA0
    || c == 0x1680
    || leb 0x2000 c && leb c 0x200A
    || c == 0x2028
    || c == 0x2029
    || c == 0x202F
    || c == 0x205F
    || c == 0x3000

unfoldable pub trim_front : List ℕ → List ℕ
trim_front [] = []
trim_front (c ∷ s) = let rest = trim_front s in if is_whitespace c then rest else c ∷ s

unfoldable pub trim_back : List ℕ → List ℕ
trim_back [] = []
trim_back (c ∷ s) =
    let rest = trim_back s in if is_whitespace c && is_empty rest then [] else c ∷ rest

unfoldable pub trim : List ℕ → List ℕ
unfolding trim_front trim_back
trim s = trim_back (trim_front s)

unfoldable pub has_char : ℕ → List ℕ → Bool
has_char c [] = false
has_char c (x ∷ xs) = x == c || has_char c xs

-- `strip_suffix` of one character: what is in front of it.
unfoldable pub strip_last : ℕ → List ℕ → Option (List ℕ)
strip_last c [] = none
strip_last c (x ∷ []) = if x == c then some [] else none
strip_last c (x ∷ y ∷ s) = map_option (λ rest. x ∷ rest) (strip_last c (y ∷ s))

-- `find`, and the text on both sides of what it finds.
unfoldable pub split_at : ℕ → List ℕ → Option (List ℕ × List ℕ)
split_at c [] = none
split_at c (x ∷ s) =
    let rest = map_option (λ (f, b). (x ∷ f, b)) (split_at c s) in
    if x == c then some ([], s) else rest

-- `lines()`: without the line ends, and with no line behind the last of them.
unfoldable pub lines_of : List (List ℕ) → List (List ℕ)
unfolding strip_cr
lines_of [] = []
lines_of (last ∷ []) = if is_empty last then [] else last ∷ []
lines_of (line ∷ next ∷ lines) = strip_cr line ∷ lines_of (next ∷ lines)

unfoldable pub lines : List ℕ → List (List ℕ)
unfolding split_lines lines_of
lines text = lines_of (split_lines text)

-- The value of a text of digits in a base, the first digit the highest.
unfoldable pub digits_value : ℕ → (ℕ → Option ℕ) → ℕ → List ℕ → Option ℕ
digits_value base digit_of acc [] = some acc
digits_value base digit_of acc (c ∷ s) = elim (digit_of c) [
  | none ↦ none
  | some d ↦ digits_value base digit_of (acc * base + d) s
]

abbrev pub decimal_digit : ℕ → Option ℕ
decimal_digit c = if is_digit c then some (c - b'0') else none

abbrev pub hex_value : ℕ → Option ℕ
hex_value c =
    if is_digit c
    then some (c - b'0')
    else if leb b'A' c && leb c b'F'
    then some (c - b'A' + 10)
    else if leb b'a' c && leb c b'f'
    then some (c - b'a' + 10)
    else none

-- A number needs a digit.
abbrev pub unsigned : ℕ → (ℕ → Option ℕ) → List ℕ → Option ℕ
unsigned base digit_of s = if is_empty s then none else digits_value base digit_of 0 s

-- `from_str_radix` of an unsigned type: a `+` may stand in front.
unfoldable pub parse_unsigned : ℕ → (ℕ → Option ℕ) → ℕ → List ℕ → Option ℕ
unfolding digits_value
parse_unsigned base digit_of max [] = none
parse_unsigned base digit_of max (c ∷ s) =
    let plain = unsigned base digit_of (c ∷ s) in
    let number = if c == b'+' then unsigned base digit_of s else plain in
    elim number [ none ↦ none | some n ↦ if leb n max then some n else none ]

-- `parse::<i64>`: a sign and digits, with the value in the type.
abbrev pub i64_max : ℕ
i64_max = 9223372036854775807

abbrev pub negative : ℕ → ℤ
negative zero = pos zero
negative (suc n) = negsuc n

abbrev pub in_i64 : Bool → Option ℕ → Option ℤ
in_i64 minus none = none
in_i64 false (some n) = if leb n i64_max then some (pos n) else none
in_i64 true (some n) = if leb n (i64_max + 1) then some (negative n) else none

unfoldable pub parse_i64 : List ℕ → Option ℤ
unfolding digits_value
parse_i64 [] = none
parse_i64 (c ∷ s) =
    if c == b'+'
    then in_i64 false (unsigned 10 decimal_digit s)
    else if c == b'-'
    then in_i64 true (unsigned 10 decimal_digit s)
    else in_i64 false (unsigned 10 decimal_digit (c ∷ s))

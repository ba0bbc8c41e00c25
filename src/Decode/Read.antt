-- ===== src/Decode/Read.antt =====
-- rust/src/decode.rs: the primitive readers. A byte slice is a list of numbers below 256.
use mie_decoder.Common.{
  ℕ, zero, suc, ◌+◌, ◌-◌, ◌*◌, ◌^◌, ◌≤◌, ◌<◌, ◌≡◌, refl, ap, Bool, Option, none, some, List, [],
  ◌∷◌, arith, leb, ◌==◌, if◌then◌else◌, length, get_or, take, drop, slice, length-take, take-take,
}

abbrev pub min_record_bytes_standard : ℕ
min_record_bytes_standard = 8

abbrev pub min_record_words_standard : ℕ
min_record_words_standard = 4

-- A null Type Word ends the record stream.
unfoldable pub is_terminator_type_word : ℕ → Bool
is_terminator_type_word raw = raw == 0x0000

-- `u16::from_le_bytes` on the first two bytes of a slice.
abbrev pub from_le_bytes : List ℕ → ℕ
from_le_bytes bytes = get_or bytes 0 0 + 256 * get_or bytes 1 0

unfoldable pub read_u16 : List ℕ → ℕ → Option ℕ
read_u16 buf offset = elim (slice buf offset (offset + 2)) [
  | none ↦ none
  | some bytes ↦ some (from_le_bytes bytes)
]

-- The chunks of two bytes of a slice.
unfoldable pub u16_chunks : List ℕ → List ℕ
u16_chunks [] = []
u16_chunks (a ∷ []) = []
u16_chunks (a ∷ b ∷ rest) = (a + 256 * b) ∷ u16_chunks rest

-- `none` is the flag `false`; the words are what `out[..count]` holds on `true`.
unfoldable pub read_u16_array : List ℕ → ℕ → ℕ → Option (List ℕ)
unfolding u16_chunks
read_u16_array buf offset count = elim (slice buf offset (offset + count * 2)) [
  | none ↦ none
  | some bytes ↦ some (u16_chunks bytes)
]

-- A file's contents.
abbrev pub AllBytes : List ℕ → Type 0
AllBytes [] = Unit {0}
AllBytes (b ∷ bs) = (b < 256) × AllBytes bs

pub read_u16-some :
    (buf : List ℕ) (o : ℕ) → o + 2 ≤ length buf → (w : ℕ) × (read_u16 buf o ≡ some w)
unfolding read_u16
read_u16-some buf o h = (from_le_bytes (take (o + 2 - o) (drop o buf)), ground arith)

pub read_u16-none : (buf : List ℕ) (o : ℕ) → length buf < o + 2 → read_u16 buf o ≡ none
unfolding read_u16
read_u16-none buf o h = ground arith

pub read_u16_fits : (buf : List ℕ) (o : ℕ) {w : ℕ} → read_u16 buf o ≡ some w → o + 2 ≤ length buf
unfolding read_u16
read_u16_fits buf o h = ground arith

AllBytes-drop : (n : ℕ) (bs : List ℕ) → AllBytes bs → AllBytes (drop n bs)
AllBytes-drop zero bs h = h
AllBytes-drop (suc n) [] h = tt
AllBytes-drop (suc n) (b ∷ bs) h = AllBytes-drop n bs h.1

from_le_bytes-lt : (bs : List ℕ) → AllBytes bs → from_le_bytes (take 2 bs) < 2 ^ 16
from_le_bytes-lt [] h = omega arith
from_le_bytes-lt (a ∷ []) h = omega arith
from_le_bytes-lt (a ∷ b ∷ bs) h = omega arith

-- What is read from bytes is a `u16`.
pub read_u16-lt :
    (buf : List ℕ) (o : ℕ) {w : ℕ} → AllBytes buf → read_u16 buf o ≡ some w → w < 2 ^ 16
unfolding read_u16
read_u16-lt buf o h e =
    let two : o + 2 - o ≡ 2 = omega arith in
    ground (arith, two, from_le_bytes-lt (drop o buf) (AllBytes-drop o buf h))

drop-take :
    (o n : ℕ) (buf : List ℕ) → o + 2 ≤ n → take 2 (drop o (take n buf)) ≡ take 2 (drop o buf)
drop-take zero n buf h = take-take 2 n buf (omega arith)
drop-take (suc o) zero buf h = absurd (omega arith)
drop-take (suc o) (suc n) [] h = refl
drop-take (suc o) (suc n) (b ∷ bs) h = drop-take o n bs (omega arith)

pub read_u16_lem :
    (buf : List ℕ) (o : ℕ)
    → read_u16 buf o
      ≡ (if leb (o + 2) (length buf) then some (from_le_bytes (take 2 (drop o buf))) else none)
unfolding read_u16
read_u16_lem buf o =
    let two : o + 2 - o ≡ 2 = omega arith in ground (arith, ap (λ (n : ℕ). take n (drop o buf)) two)

-- A read that is bounded to the first `n` bytes sees what lies within them, and nothing else.
pub read_u16-take :
    (buf : List ℕ) (n o : ℕ)
    → n ≤ length buf
    → read_u16 (take n buf) o ≡ (if leb (o + 2) n then read_u16 buf o else none)
read_u16-take buf n o h =
    ground
      (arith, read_u16_lem buf o, read_u16_lem (take n buf) o, length-take n buf, drop-take o n buf)

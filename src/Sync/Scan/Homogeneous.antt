-- ===== src/Sync/Scan/Homogeneous.antt =====
-- rust/src/sync.rs, `is_homogeneous_payload`: a pad of one repeated record is no recording.
use mie_decoder.Common.{
  ℕ, zero, suc, ◌+◌, ◌-◌, ◌*◌, ◌^◌, ◌≤◌, ◌<◌, ◌≡◌, ◌≢◌, ◌↔◌, Option, none, some, refl, Bool, true,
  false, ◌&&◌, ◌||◌, List, [], ◌∷◌, arith, min, leb, ltb, ◌==◌, if◌then◌else◌, length, take, drop,
  saturating_add,
}

abbrev pub homogeneity_sample_records : ℕ
homogeneity_sample_records = 4

-- `==` of two slices.
unfoldable pub slice_eq : List ℕ → List ℕ → Bool
slice_eq [] [] = true
slice_eq [] (y ∷ ys) = false
slice_eq (x ∷ xs) [] = false
slice_eq (x ∷ xs) (y ∷ ys) = x == y && slice_eq xs ys

-- The record of a number behind the offset.
abbrev pub chunk : List ℕ → ℕ → ℕ → ℕ → List ℕ
chunk buf offset record_bytes i = take record_bytes (drop (offset + i * record_bytes) buf)

-- The bytes before and behind the timestamp.
abbrev pub same_record : ℕ → List ℕ → List ℕ → Bool
same_record record_bytes first other =
    slice_eq (take 2 first) (take 2 other)
    && (leb record_bytes 8 || slice_eq (drop 8 first) (drop 8 other))

-- `n` rounds of `for i in 1..HOMOGENEITY_SAMPLE_RECORDS` are left.
unfoldable pub homogeneity_loop : ℕ → ℕ → List ℕ → ℕ → ℕ → Bool
unfolding slice_eq
homogeneity_loop zero i buf offset record_bytes = true
homogeneity_loop (suc n) i buf offset record_bytes =
    same_record record_bytes (chunk buf offset record_bytes 0) (chunk buf offset record_bytes i)
    && homogeneity_loop n (i + 1) buf offset record_bytes

-- `none` is the panic of the source: below two bytes `first[..2]` is out of range, once the test for
-- the room has passed.
unfoldable pub is_homogeneous_payload : List ℕ → ℕ → ℕ → Option Bool
unfolding homogeneity_loop
is_homogeneous_payload buf offset record_bytes =
    let total = min (homogeneity_sample_records * record_bytes) (2 ^ 64 - 1) in
    if ltb (length buf) (saturating_add offset total)
    then some false
    else if ltb record_bytes 2
    then none
    else some (homogeneity_loop (homogeneity_sample_records - 1) 1 buf offset record_bytes)

slice_eq_refl : (xs : List ℕ) → slice_eq xs xs ≡ true
unfolding slice_eq
slice_eq_refl [] = refl
slice_eq_refl (x ∷ xs) = ground (arith, slice_eq_refl xs)

slice_eq_sound : (xs ys : List ℕ) → slice_eq xs ys ≡ true → xs ≡ ys
unfolding slice_eq
slice_eq_sound [] [] h = refl
slice_eq_sound [] (y ∷ ys) h = absurd (ground arith)
slice_eq_sound (x ∷ xs) [] h = absurd (ground arith)
slice_eq_sound (x ∷ xs) (y ∷ ys) h = ground (arith, slice_eq_sound xs ys)

pub slice_eq_iff : (xs ys : List ℕ) → (slice_eq xs ys ≡ true) ↔ (xs ≡ ys)
slice_eq_iff xs ys = (slice_eq_sound xs ys, λ e. rw e (slice_eq_refl ys))

-- Two records agree in their first two bytes and from the ninth one on.
abbrev pub SameAround : ℕ → List ℕ → List ℕ → Type 0
SameAround record_bytes first other =
    (take 2 first ≡ take 2 other) × (8 < record_bytes → drop 8 first ≡ drop 8 other)

same_record_iff :
    (n : ℕ) (first other : List ℕ) → (same_record n first other ≡ true) ↔ SameAround n first other
same_record_iff n first other =
    let head = slice_eq_iff (take 2 first) (take 2 other) in
    let tail = slice_eq_iff (drop 8 first) (drop 8 other) in
    (λ h. ground (arith, head, tail), λ h. ground (arith, head, tail))

all_three : (a b c : Bool) → (a && (b && (c && true)) ≡ true) ↔ (a ≡ true) × (b ≡ true) × (c ≡ true)
all_three a b c = (λ h. ground arith, λ h. ground arith)

in_room :
    (buf : List ℕ) (offset n : ℕ) (same : Bool)
    → offset < 2 ^ 63
    → 2 ≤ n
    → n < 128
    → let total = min (homogeneity_sample_records * n) (2 ^ 64 - 1) in
      ((if ltb (length buf) (saturating_add offset total)
          then some false
          else if ltb n 2
          then none
          else some same)
        ≡ some true)
      ↔ (offset + 4 * n ≤ length buf) × (same ≡ true)
in_room buf offset n same small long short = (λ h. ground arith, λ h. ground arith)

-- For a record of two bytes at least the source does not panic.
pub is_homogeneous_total :
    (buf : List ℕ) (offset n : ℕ) → 2 ≤ n → is_homogeneous_payload buf offset n ≢ none
unfolding is_homogeneous_payload
is_homogeneous_total buf offset n long e = ground arith

-- At an offset in a file of less than 2^63 bytes and for a record of 2 to 127 bytes, an input is
-- homogeneous exactly when it has room for four records and the three behind the first agree with it
-- in the first two bytes and from the ninth byte on.
pub is_homogeneous_iff :
    (buf : List ℕ) (offset n : ℕ)
    → offset < 2 ^ 63
    → 2 ≤ n
    → n < 128
    → (is_homogeneous_payload buf offset n ≡ some true)
      ↔ (offset + 4 * n ≤ length buf)
        × SameAround n (chunk buf offset n 0) (chunk buf offset n 1)
        × SameAround n (chunk buf offset n 0) (chunk buf offset n 2)
        × SameAround n (chunk buf offset n 0) (chunk buf offset n 3)
unfolding is_homogeneous_payload homogeneity_loop
is_homogeneous_iff buf offset n small long short =
    let first = chunk buf offset n 0 in
    let room = in_room buf offset n (homogeneity_loop 3 1 buf offset n) small long short in
    let all =
      all_three (same_record n first (chunk buf offset n 1))
        (same_record n first (chunk buf offset n 2)) (same_record n first (chunk buf offset n 3)) in
    let one = same_record_iff n first (chunk buf offset n 1) in
    let two = same_record_iff n first (chunk buf offset n 2) in
    let three = same_record_iff n first (chunk buf offset n 3) in
    (
      λ h.
          let (fits, same) = room.0 h in
          let (a, b, c) = all.0 same in (fits, one.0 a, two.0 b, three.0 c),
      λ (fits, a, b, c). room.1 (fits, all.1 (one.1 a, two.1 b, three.1 c)),
    )

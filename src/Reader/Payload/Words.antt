-- ===== src/Reader/Payload/Words.antt =====
-- The data words that rust/src/reader.rs reads are the words of the file, in their order.
use mie_decoder.Common.{
  ℕ, zero, suc, ◌+◌, ◌-◌, ◌*◌, ◌≤◌, ◌<◌, ◌≡◌, refl, ◌∙◌, ap, some, List, [], ◌∷◌, arith, min,
  length, drop-drop, get_elem?, take, drop, length-drop, take_all,
}
use mie_decoder.Models.DataWords.{max_data_words, as_slice}
use mie_decoder.Models.DataWords.Laws.{as_slice-from_slice}
use mie_decoder.Decode.Read.{read_u16, read_u16_array, u16_chunks, from_le_bytes, read_u16_lem}
use mie_decoder.Reader.Payload.{read_n}

length-u16_chunks :
    (n : ℕ) (xs : List ℕ) → n * 2 ≤ length xs → length (u16_chunks (take (n * 2) xs)) ≡ n
unfolding u16_chunks
length-u16_chunks zero xs h = refl
length-u16_chunks (suc n) [] h = absurd (omega arith)
length-u16_chunks (suc n) (a ∷ []) h = absurd (omega arith)
length-u16_chunks (suc n) (a ∷ b ∷ xs) h =
    let step : suc n * 2 ≡ suc (suc (n * 2)) = omega arith in
    rw step (ap suc (length-u16_chunks n xs (omega arith)))

u16_chunks_at :
    (n i : ℕ) (xs : List ℕ)
    → n * 2 ≤ length xs
    → i < n
    → get_elem? (u16_chunks (take (n * 2) xs)) i ≡ some (from_le_bytes (take 2 (drop (i * 2) xs)))
unfolding u16_chunks
u16_chunks_at zero i xs h p = absurd (omega arith)
u16_chunks_at (suc n) i [] h p = absurd (omega arith)
u16_chunks_at (suc n) i (a ∷ []) h p = absurd (omega arith)
u16_chunks_at (suc n) zero (a ∷ b ∷ xs) h p =
    let step : suc n * 2 ≡ suc (suc (n * 2)) = omega arith in rw step refl
u16_chunks_at (suc n) (suc i) (a ∷ b ∷ xs) h p =
    let step : suc n * 2 ≡ suc (suc (n * 2)) = omega arith in
    let next : suc i * 2 ≡ suc (suc (i * 2)) = omega arith in
    rw (step, next) (u16_chunks_at n i xs (omega arith) (omega arith))

read_u16_array-some :
    (buf : List ℕ) (start n : ℕ)
    → start + n * 2 ≤ length buf
    → read_u16_array buf start n ≡ some (u16_chunks (take (n * 2) (drop start buf)))
unfolding read_u16_array
read_u16_array-some buf start n inside =
    let size : start + n * 2 - start ≡ n * 2 = omega arith in
    ground (arith, ap (λ (k : ℕ). u16_chunks (take k (drop start buf))) size)

-- What is read when the range lies in the buffer.
read_n-u16_chunks :
    (buf : List ℕ) (start n : ℕ)
    → n ≤ 32
    → start + n * 2 ≤ length buf
    → as_slice (read_n buf start n) ≡ u16_chunks (take (n * 2) (drop start buf))
unfolding read_n
read_n-u16_chunks buf start n small inside =
    let words = u16_chunks (take (n * 2) (drop start buf)) in
    let count = length-u16_chunks n (drop start buf) (omega (arith, length-drop start buf)) in
    let least : min n max_data_words ≡ n = omega arith in
    let read : read_u16_array buf start (min n max_data_words) ≡ some words =
      ap (λ (k : ℕ). read_u16_array buf start k) least ∙ read_u16_array-some buf start n inside in
    rw (read_n, read) (as_slice-from_slice words ∙ take_all 32 words (omega (arith, count)))

-- As many data words are read as were asked for, where the buffer has them.
pub length-read_n :
    (buf : List ℕ) (start n : ℕ)
    → n ≤ 32
    → start + n * 2 ≤ length buf
    → length (as_slice (read_n buf start n)) ≡ n
length-read_n buf start n small inside =
    ap length (read_n-u16_chunks buf start n small inside)
    ∙ length-u16_chunks n (drop start buf) (omega (arith, length-drop start buf))

-- Where the range of at most 32 words lies in the buffer, the word at each place of the result is
-- the word of the buffer at that place.
pub read_n-read_u16 :
    (buf : List ℕ) (start n i : ℕ)
    → n ≤ 32
    → start + n * 2 ≤ length buf
    → i < n
    → get_elem? (as_slice (read_n buf start n)) i ≡ read_u16 buf (start + i * 2)
read_n-read_u16 buf start n i small inside below =
    ap (λ (ws : List ℕ). get_elem? ws i) (read_n-u16_chunks buf start n small inside)
    ∙ u16_chunks_at n i (drop start buf) (omega (arith, length-drop start buf)) below
    ∙ ground (arith, read_u16_lem buf (start + i * 2), drop-drop start (i * 2) buf)

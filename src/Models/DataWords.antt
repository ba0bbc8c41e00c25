-- ===== src/Models/DataWords.antt =====
-- rust/src/models.rs, `DataWords`: up to 32 payload words in an inline buffer.
pub mod Laws
use mie_decoder.Common.{
  ℕ, ◌+◌, ◌%◌, min, Bool, true, false, List, [], ◌∷◌, ◌++◌, leb, ◌==◌, if◌then◌else◌, length, set,
  take, drop, replicate, slice,
}

abbrev pub max_data_words : ℕ
max_data_words = 32

-- `buf` is `[u16; 32]`, and `len` is a `u8`.
pub record DataWords : Type 0 where
  pub buf : List ℕ
  pub len : ℕ

unfoldable pub new : DataWords
new = record { buf = replicate max_data_words 0; len = 0 }

-- `buf[..n].copy_from_slice(&slice[..n])`: the head of `buf` is overwritten.
unfoldable pub from_slice : List ℕ → DataWords
from_slice slice =
    let n = min (length slice) max_data_words in
    let buf = replicate max_data_words 0 in
    record { buf = take n slice ++ drop n buf; len = n % 256 }

-- The flag says whether the word was taken; a full buffer drops it.
unfoldable pub try_push : DataWords → ℕ → DataWords × Bool
try_push dw word =
    if leb max_data_words dw.len
    then (dw, false)
    else (record { buf = set dw.buf dw.len word; len = dw.len + 1 }, true)

-- The loop of `from_iter_capped` stops at the first word that is not taken.
unfoldable pub push_all : DataWords → List ℕ → DataWords
push_all out [] = out
push_all out (w ∷ ws) =
    let (out', taken) = try_push out w in
    let rest = push_all out' ws in if taken then rest else out'

unfoldable pub from_iter_capped : List ℕ → DataWords
unfolding new push_all
from_iter_capped iter = push_all new iter

unfoldable pub as_slice : DataWords → List ℕ
as_slice dw = take dw.len dw.buf

unfoldable pub is_empty_words : DataWords → Bool
is_empty_words dw = dw.len == 0

-- ===== src/Common/Words.antt =====
-- Machine words as native numbers: shifts and masks as `/` and `%`, and checked addition on `usize`.
use Prim.Native.Nat.{ℕ, ◌+◌, ◌-◌, ◌/◌, ◌%◌, ◌^◌}
use mathlib.Core.Option.{Option, none, some}
use mie_decoder.Common.Tests.{ltb, if◌then◌else◌}

-- `x >> k`, and `x & (2^k - 1)`.
abbrev pub shr : ℕ → ℕ → ℕ
shr x k = x / 2 ^ k

abbrev pub low_bits : ℕ → ℕ → ℕ
low_bits x k = x % 2 ^ k

-- A 64-bit `usize`.
abbrev pub usize_mod : ℕ
usize_mod = 2 ^ 64

-- `a.checked_add(b)` and `a.saturating_add(b)` on `usize`.
abbrev pub checked_add : ℕ → ℕ → Option ℕ
checked_add a b = if ltb (a + b) usize_mod then some (a + b) else none

abbrev pub saturating_add : ℕ → ℕ → ℕ
saturating_add a b = if ltb (a + b) usize_mod then a + b else usize_mod - 1

abbrev pub abs_diff : ℕ → ℕ → ℕ
abs_diff a b = (a - b) + (b - a)

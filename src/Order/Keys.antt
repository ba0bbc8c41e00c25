-- ===== src/Order/Keys.antt =====
-- The sort key of rust/src/order.rs is a linear order, with the records that have no key first.
use mie_decoder.Common.{ℕ, ◌≡◌, ◌↔◌, true, false, Option, none, some, arith, refl}
use mie_decoder.Models.Timestamp.{Timestamp, to_total_microseconds}
use mie_decoder.Order.{SortKey, key_le, Chunk, chunk_le, same_group}

pub key_le_total : (k k' : Option SortKey) → key_le k k' ≡ false → key_le k' k ≡ true
unfolding key_le
key_le_total none k h = ground arith
key_le_total (some (a, b, c)) none h = refl
key_le_total (some (a, b, c)) (some (a', b', c')) h = ground arith

pub key_le_trans :
    (k k' k'' : Option SortKey) → key_le k k' ≡ true → key_le k' k'' ≡ true → key_le k k'' ≡ true
unfolding key_le
key_le_trans none k k' h g = refl
key_le_trans (some (a, b, c)) none k h g = ground arith
key_le_trans (some (a, b, c)) (some (a', b', c')) none h g = ground arith
key_le_trans (some (a, b, c)) (some (a', b', c')) (some (a'', b'', c'')) h g = ground arith

pub key_le_antisymm : (k k' : Option SortKey) → key_le k k' ≡ true → key_le k' k ≡ true → k ≡ k'
unfolding key_le
key_le_antisymm none none h g = refl
key_le_antisymm none (some (a, b, c)) h g = ground arith
key_le_antisymm (some (a, b, c)) none h g = ground arith
key_le_antisymm (some (a, b, c)) (some (a', b', c')) h g = ground arith

pub key_le_refl : (k : Option SortKey) → key_le k k ≡ true
unfolding key_le
key_le_refl none = refl
key_le_refl (some (a, b, c)) = ground arith

module _ {F : Type 0} where
  pub chunk_le_total : (c d : Chunk F) → chunk_le c d ≡ false → chunk_le d c ≡ true
  chunk_le_total (k, g) (k', g') = key_le_total k k'

  pub chunk_le_trans :
      (c d e : Chunk F) → chunk_le c d ≡ true → chunk_le d e ≡ true → chunk_le c e ≡ true
  chunk_le_trans (k, g) (k', g') (k'', g'') = key_le_trans k k' k''

-- What the row order goes by: the kind of the timestamp and its value.
pub data Stamp : Type 0 where
  at_microsecond at_tick : ℕ → Stamp

unfoldable pub stamp_of : Timestamp → Stamp
unfolding to_total_microseconds
stamp_of (Timestamp.irig t) = at_microsecond (to_total_microseconds t)
stamp_of (Timestamp.standard t) = at_tick t.raw_value

pub same_group_iff : (a b : Timestamp) → (same_group a b ≡ true) ↔ (stamp_of a ≡ stamp_of b)
unfolding same_group stamp_of to_total_microseconds
same_group_iff (Timestamp.irig x) (Timestamp.irig y) = (λ h. ground arith, λ h. ground arith)
same_group_iff (Timestamp.irig x) (Timestamp.standard y) = (λ h. ground arith, λ h. ground arith)
same_group_iff (Timestamp.standard x) (Timestamp.irig y) = (λ h. ground arith, λ h. ground arith)
same_group_iff (Timestamp.standard x) (Timestamp.standard y) =
    (λ h. ground arith, λ h. ground arith)

-- ===== src/Order/Chunks.antt =====
-- The chunks into which `sort_run` of rust/src/order.rs cuts a run.

use mie_decoder.Common.{
  ◌≡◌, refl, ◌⊎◌, inl, inr, Option, none, some, List, [], ◌∷◌, ◌++◌, All, All-append,
}
use mie_decoder.Models.Message.{MieMessage}
use mie_decoder.Order.{SortKey, sort_key, Chunk, pin, push_keyed, split_from}

module _ {F : Type 0} where
  abbrev pub IsPinned : MieMessage F → Type 0
  IsPinned msg = sort_key msg ≡ none

  -- A record with a key and the pinned ones behind it.
  abbrev pub IsAnchored : Chunk F → Type 0
  IsAnchored (none, group) = ⊥
  IsAnchored (some k, []) = ⊥
  IsAnchored (some k, msg ∷ pins) = (sort_key msg ≡ some k) × All IsPinned pins

  -- Pinned records with which a run begins.
  abbrev pub IsLeading : Chunk F → Type 0
  IsLeading (none, []) = ⊥
  IsLeading (none, msg ∷ pins) = IsPinned msg × All IsPinned pins
  IsLeading (some k, group) = ⊥

  abbrev pub IsSplit : List (Chunk F) → Type 0
  IsSplit [] = Unit {0}
  IsSplit (c ∷ cs) = (IsAnchored c ⊎ IsLeading c) × All IsAnchored cs

  All-IsPinned :
      (pins : List (MieMessage F)) (msg : MieMessage F)
      → All IsPinned pins
      → IsPinned msg
      → All IsPinned (pins ++ msg ∷ [])
  All-IsPinned pins msg h p = All-append IsPinned pins (msg ∷ []) h (p, tt)

  pin-IsAnchored :
      (c : Chunk F) (cs : List (Chunk F)) (msg : MieMessage F)
      → IsPinned msg
      → All IsAnchored (c ∷ cs)
      → All IsAnchored (pin (c ∷ cs) msg)
  unfolding pin
  pin-IsAnchored (none, g) [] msg p h = absurd h.0
  pin-IsAnchored (some k, []) [] msg p h = absurd h.0
  pin-IsAnchored (some k, m ∷ pins) [] msg p h = ((h.0.0, All-IsPinned pins msg h.0.1 p), tt)
  pin-IsAnchored c (d ∷ cs) msg p h = (h.0, pin-IsAnchored d cs msg p h.1)

  pin-IsSplit :
      (cs : List (Chunk F)) (msg : MieMessage F) → IsPinned msg → IsSplit cs → IsSplit (pin cs msg)
  unfolding pin
  pin-IsSplit [] msg p h = (inr (p, tt), tt)
  pin-IsSplit (c ∷ []) msg p (inl anchored, h) =
      let kept = pin-IsAnchored c [] msg p (anchored, tt) in (inl kept.0, kept.1)
  pin-IsSplit ((some k, g) ∷ []) msg p (inr leading, h) = absurd leading
  pin-IsSplit ((none, []) ∷ []) msg p (inr leading, h) = absurd leading
  pin-IsSplit ((none, m ∷ pins) ∷ []) msg p (inr leading, h) =
      (inr (leading.0, All-IsPinned pins msg leading.1 p), tt)
  pin-IsSplit (c ∷ d ∷ cs) msg p h = (h.0, pin-IsAnchored d cs msg p h.1)

  push-IsSplit :
      (cs : List (Chunk F)) (msg : MieMessage F) (o : Option SortKey)
      → sort_key msg ≡ o
      → IsSplit cs
      → IsSplit (push_keyed cs msg o)
  push-IsSplit cs msg none e h = pin-IsSplit cs msg e h
  push-IsSplit [] msg (some k) e h = (inl (e, tt), tt)
  push-IsSplit (c ∷ cs) msg (some k) e h =
      (h.0, All-append IsAnchored cs ((some k, msg ∷ []) ∷ []) h.1 ((e, tt), tt))

  pub split_from-IsSplit :
      (cs : List (Chunk F)) (buf : List (MieMessage F)) → IsSplit cs → IsSplit (split_from cs buf)
  unfolding split_from
  split_from-IsSplit cs [] h = h
  split_from-IsSplit cs (msg ∷ buf) h =
      split_from-IsSplit (push_keyed cs msg (sort_key msg)) buf
        (push-IsSplit cs msg (sort_key msg) refl h)

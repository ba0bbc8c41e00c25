-- ===== src/Order/Groups.antt =====
-- A run of rust/src/order.rs by its records alone: the ones at its head that have no Command Word, and
-- the groups of one record with a Command Word and those without one that follow it.
use mathlib.Core.List.{Perm, map}
use mathlib.Core.List.Perm
use mie_decoder.Common.{
  ◌≡◌, ◌<◌, refl, sym, ap, ◌↔◌, ◌≤◌, ◌∙◌, ◌⊎◌, inl, inr, Bool, true, false, ◌&&◌, ◌==◌, Option,
  none, some, List, [], ◌∷◌, ◌++◌, arith, All, select, Bool-cases, IsSorted,
}
use mie_decoder.Models.{Direction, CommandWord}
use mie_decoder.Models.Message.{MieMessage}
use mie_decoder.Order.{SortKey, direction_rank, key_le, sort_key, Chunk, chunk_le, flatten}
use mie_decoder.Order.Chunks.{IsPinned, IsAnchored}

-- The order of two Command Words: by RT, then by subaddress, a receive before a transmit.
abbrev pub DirectionLe : Direction → Direction → Type 0
DirectionLe Direction.transmit Direction.receive = ⊥
DirectionLe _ _ = Unit {0}

abbrev pub WordLe : CommandWord → CommandWord → Type 0
WordLe a b =
    (a.rt < b.rt)
    ⊎ (a.rt ≡ b.rt)
      × ((a.subaddress < b.subaddress)
          ⊎ (a.subaddress ≡ b.subaddress) × DirectionLe a.direction b.direction)

abbrev pub same_direction : Direction → Direction → Bool
same_direction Direction.receive Direction.receive = true
same_direction Direction.transmit Direction.transmit = true
same_direction _ _ = false

abbrev pub same_words : CommandWord → CommandWord → Bool
same_words a b =
    a.rt == b.rt && (a.subaddress == b.subaddress && same_direction a.direction b.direction)

abbrev word_is : CommandWord → Option CommandWord → Bool
word_is w none = false
word_is w (some v) = same_words w v

dir_le : (d d' : Direction) → direction_rank d ≤ direction_rank d' → DirectionLe d d'
dir_le Direction.receive d h = tt
dir_le Direction.transmit Direction.transmit h = tt
dir_le Direction.transmit Direction.receive h = absurd (omega arith)

dir_same :
    (d d' : Direction) → (same_direction d d' ≡ true) ↔ (direction_rank d ≡ direction_rank d')
dir_same Direction.receive Direction.receive = (λ h. refl, λ h. refl)
dir_same Direction.receive Direction.transmit = (λ h. cc, λ h. absurd (omega arith))
dir_same Direction.transmit Direction.receive = (λ h. cc, λ h. absurd (omega arith))
dir_same Direction.transmit Direction.transmit = (λ h. refl, λ h. refl)

abbrev key_of_word : CommandWord → SortKey
key_of_word w = (w.rt, w.subaddress, direction_rank w.direction)

word_le :
    (v w : CommandWord) → key_le (some (key_of_word v)) (some (key_of_word w)) ≡ true → WordLe v w
unfolding key_le
word_le v w h = ground (arith, dir_le v.direction w.direction)

same_words_iff :
    (w v : CommandWord)
    → (same_words w v ≡ true) ↔ (
        (key_le (some (key_of_word w)) (some (key_of_word v))
          && key_le (some (key_of_word v)) (some (key_of_word w)))
        ≡ true)
unfolding key_le
same_words_iff w v =
    let d = dir_same w.direction v.direction in (λ h. ground (arith, d), λ h. ground (arith, d))

same_tests : (a b : Bool) → (a ≡ true) ↔ (b ≡ true) → a ≡ b
same_tests a b h = ground (arith, h)

word_lem :
    (w : CommandWord) (o : Option CommandWord) (v : CommandWord) (k : SortKey)
    → o ≡ some v
    → k ≡ key_of_word v
    → word_is w o
      ≡ (key_le (some (key_of_word w)) (some k) && key_le (some k) (some (key_of_word w)))
word_lem w o v k e p = rw (e, p) (same_tests _ _ (same_words_iff w v))

module _ {F : Type 0} where
  abbrev pub HasNoCommand : MieMessage F → Type 0
  HasNoCommand msg = msg.command_word ≡ none

  -- A record with a Command Word, and the ones without that follow it.
  abbrev pub IsGroup : List (MieMessage F) → Type 0
  IsGroup [] = ⊥
  IsGroup (msg ∷ pins) = ((w : CommandWord) × (msg.command_word ≡ some w)) × All HasNoCommand pins

  -- Groups one behind the other.
  abbrev pub laid_out : List (List (MieMessage F)) → List (MieMessage F)
  laid_out [] = []
  laid_out (g ∷ gs) = g ++ laid_out gs

  abbrev pub GroupLe : List (MieMessage F) → List (MieMessage F) → Type 0
  GroupLe (a ∷ pins) (b ∷ pins') =
      (v w : CommandWord) → a.command_word ≡ some v → b.command_word ≡ some w → WordLe v w
  GroupLe _ _ = ⊥

  -- Every group is at most every later one.
  abbrev pub Ascending : List (List (MieMessage F)) → Type 0
  Ascending [] = Unit {0}
  Ascending (g ∷ gs) = All (GroupLe g) gs × Ascending gs

  -- The group begins with a record of this RT, subaddress and direction.
  abbrev pub begins_with : CommandWord → List (MieMessage F) → Bool
  begins_with w [] = false
  begins_with w (msg ∷ pins) = word_is w msg.command_word

  abbrev pub groups_of : List (Chunk F) → List (List (MieMessage F))
  groups_of cs = map (λ (c : Chunk F). c.1) cs

  pub laid_out-groups_of : (cs : List (Chunk F)) → laid_out (groups_of cs) ≡ flatten cs
  unfolding flatten
  laid_out-groups_of [] = refl
  laid_out-groups_of ((k, g) ∷ cs) = ap (λ l. g ++ l) (laid_out-groups_of cs)

  pub pinned_lem : (msg : MieMessage F) → IsPinned msg → HasNoCommand msg
  unfolding sort_key
  pinned_lem msg h = ground arith

  pub pins_lem : (pins : List (MieMessage F)) → All IsPinned pins → All HasNoCommand pins
  pins_lem [] h = tt
  pins_lem (m ∷ pins) h = (pinned_lem m h.0, pins_lem pins h.1)

  key_word :
      (msg : MieMessage F) (k : SortKey)
      → sort_key msg ≡ some k
      → (w : CommandWord) × (msg.command_word ≡ some w)
        × (k ≡ (w.rt, w.subaddress, direction_rank w.direction))
  unfolding sort_key
  key_word msg k h = of_word msg.command_word refl
    where
      of_word :
          (o : Option CommandWord)
          → msg.command_word ≡ o
          → (w : CommandWord) × (msg.command_word ≡ some w)
            × (k ≡ (w.rt, w.subaddress, direction_rank w.direction))
      of_word none e = absurd (ground (arith, e))
      of_word (some w) e = (w, e, ground (arith, e))

  pub groups_lem : (cs : List (Chunk F)) → All IsAnchored cs → All IsGroup (groups_of cs)
  groups_lem [] h = tt
  groups_lem ((none, g) ∷ cs) h = absurd h.0
  groups_lem ((some k, []) ∷ cs) h = absurd h.0
  groups_lem ((some k, msg ∷ pins) ∷ cs) h =
      let (w, e, same) = key_word msg k h.0.0 in (((w, e), pins_lem pins h.0.1), groups_lem cs h.1)

  pub groups-perm : {cs ds : List (Chunk F)} → Perm cs ds → Perm (groups_of cs) (groups_of ds)
  groups-perm p = Perm.map (λ (c : Chunk F). c.1) p

  -- The chunks with one key, the test being the order both ways.
  abbrev pub has_key : Option SortKey → Chunk F → Bool
  has_key k (k', group) = key_le k k' && key_le k' k

  chunk_le_lem :
      (c d : Chunk F) → IsAnchored c → IsAnchored d → chunk_le c d ≡ true → GroupLe c.1 d.1
  chunk_le_lem (none, g) d a b h = absurd a
  chunk_le_lem (some k, []) d a b h = absurd a
  chunk_le_lem (some k, m ∷ pins) (none, g) a b h = absurd b
  chunk_le_lem (some k, m ∷ pins) (some k', []) a b h = absurd b
  chunk_le_lem (some k, m ∷ pins) (some k', m' ∷ pins') a b h = λ v w e f.
      let (v', e', p) = key_word m k a.0 in
      let (w', f', q) = key_word m' k' b.0 in
      let same_v : v' ≡ v = ground (arith, e, e') in
      let same_w : w' ≡ w = ground (arith, f, f') in
      word_le v w (
        ap (λ x. key_le (some (key_of_word x)) (some (key_of_word w))) (sym same_v)
        ∙ ap (λ x. key_le (some (key_of_word v')) (some (key_of_word x))) (sym same_w)
        ∙ ap (λ x. key_le (some x) (some (key_of_word w'))) (sym p)
        ∙ ap (λ x. key_le (some k) (some x)) (sym q)
        ∙ h)

  at_most_lem :
      (c : Chunk F) (cs : List (Chunk F))
      → IsAnchored c
      → All IsAnchored cs
      → All (λ d. chunk_le c d ≡ true) cs
      → All (GroupLe c.1) (groups_of cs)
  at_most_lem c [] a h l = tt
  at_most_lem c (d ∷ cs) a h l = (chunk_le_lem c d a h.0 l.0, at_most_lem c cs a h.1 l.1)

  pub sorted-Ascending :
      (cs : List (Chunk F)) → All IsAnchored cs → IsSorted chunk_le cs → Ascending (groups_of cs)
  sorted-Ascending [] h s = tt
  sorted-Ascending (c ∷ cs) h s = (at_most_lem c cs h.0 h.1 s.0, sorted-Ascending cs h.1 s.1)

  begins_lem :
      (w : CommandWord) (c : Chunk F)
      → IsAnchored c
      → begins_with w c.1 ≡ has_key (some (key_of_word w)) c
  begins_lem w (none, g) a = absurd a
  begins_lem w (some k, []) a = absurd a
  begins_lem w (some k, m ∷ pins) a =
      let (v, e, p) = key_word m k a.0 in word_lem w m.command_word v k e p

  -- The groups of one RT, subaddress and direction are those of the chunks with its key.
  pub select-groups :
      (w : CommandWord) (cs : List (Chunk F))
      → All IsAnchored cs
      → select (begins_with w) (groups_of cs)
        ≡ groups_of (select (has_key (some (w.rt, w.subaddress, direction_rank w.direction))) cs)
  select-groups w [] h = refl
  select-groups w (c ∷ cs) h =
      let same = begins_lem w c h.0 in
      let rest = select-groups w cs h.1 in
      elim (Bool-cases (has_key (some (key_of_word w)) c)) [
        | inl y ↦ rw (same, y) (ap (λ l. c.1 ∷ l) rest)
        | inr n ↦ rw (same, n) rest
      ]

-- ===== src/Order/Laws.antt =====
-- The rows that rust/src/order.rs gives are the items again, rearranged within one timestamp only.
use native.Mathlib.Nat.{ℕ_set}
use mathlib.Core.List
use mathlib.Core.List.{Perm, perm-replicate, map-append}
use mathlib.Core.List.Perm
use mie_decoder.Common.{
  ℕ, zero, ◌≡◌, ◌≤◌, ◌<◌, refl, sym, ap, ◌∙◌, true, false, List, [], ◌∷◌, ◌++◌, map, leb, arith,
  length, length-append, length-map, Bool-cases, inl, inr, All, All-append,
}
use mie_decoder.Models.Message.{MieMessage, Item, ok, err}
use mie_decoder.Order.{same_group, sort_run, opens_new_run}
use mie_decoder.Order.Keys.{Stamp, stamp_of, same_group_iff}
use mie_decoder.Order.Sorted.{sort_run-perm}
use mie_decoder.Order.Rows.{Block, run, capped, failed, grown, blocks}

-- A rearrangement of values that are all one looks like the values themselves.
pub same_images :
    {A B : Type 0} (f : A → B) (t : B) (xs : List A)
    → All (λ x. f x ≡ t) xs
    → map f xs ≡ List.replicate (List.length xs) t
same_images f t [] h = refl
same_images f t (x ∷ xs) h = cc (h.0, same_images f t xs h.1)

pub perm-same_images :
    {A B : Type 0} (Bset : IsSet B) (f : A → B) (t : B) {ys : List A} (xs : List A)
    → Perm ys xs
    → All (λ x. f x ≡ t) xs
    → map f ys ≡ map f xs
perm-same_images Bset f t xs p h =
    let e = same_images f t xs h in
    (perm-replicate Bset (List.length xs) t).0 (rw e at (Perm.map f p)) ∙ sym e

pub All-zero : {A : Type 0} (xs : List A) → All (λ x. ◌≡◌ {A = ℕ} 0 0) xs
All-zero [] = tt
All-zero (x ∷ xs) = (refl, All-zero xs)

pub perm-length : {A : Type 0} {ys : List A} (xs : List A) → Perm ys xs → length ys ≡ length xs
perm-length {A} {ys} xs p =
    let zeros = perm-same_images ℕ_set (λ (x : A). zero) zero xs p (All-zero xs) in
    sym (length-map ys (λ (x : A). zero)) ∙ ap length zeros ∙ length-map xs (λ (x : A). zero)

pub Stamp-set : IsSet Stamp
Stamp-set = hlevel

module _ {F : Type 0} where
  abbrev pub msg_stamp : MieMessage F → Stamp
  msg_stamp msg = stamp_of msg.timestamp

  -- All records of a run have one stamp, the first record's.
  abbrev pub OneStamp : List (MieMessage F) → Type 0
  OneStamp [] = Unit {0}
  OneStamp (m ∷ ms) = All (λ m'. msg_stamp m' ≡ msg_stamp m) ms

  pub OneStamp-append :
      (buf : List (MieMessage F)) (m : MieMessage F)
      → OneStamp buf
      → opens_new_run buf m ≡ false
      → OneStamp (buf ++ m ∷ [])
  OneStamp-append [] m h e = tt
  OneStamp-append (a ∷ buf) m h e =
      let same : same_group a.timestamp m.timestamp ≡ true = ground (arith, e) in
      All-append (λ m'. msg_stamp m' ≡ msg_stamp a) buf (m ∷ []) h
        (sym ((same_group_iff a.timestamp m.timestamp).0 same), tt)

  pub sort_run-stamps :
      (buf : List (MieMessage F)) → OneStamp buf → map msg_stamp (sort_run buf) ≡ map msg_stamp buf
  unfolding sort_run
  sort_run-stamps [] h = refl
  sort_run-stamps (m ∷ buf) h =
      perm-same_images Stamp-set msg_stamp (msg_stamp m) (m ∷ buf) (sort_run-perm (m ∷ buf))
        (refl, h)

-- What of an item stays in its place: the stamp of a record, or the error.
pub data Place (E : Type 0) : Type 0 where
  at_stamp : Stamp → Place E
  at_failure : E → Place E

module _ {F E : Type 0} where
  abbrev pub place_of : Item F E → Place E
  place_of (ok msg) = at_stamp (stamp_of msg.timestamp)
  place_of (err e) = at_failure e

  -- A run has one stamp and at most as many records as the cap allows; the cap is met exactly by the
  -- runs that are given as they came.
  abbrev pub IsRun : ℕ → Block F E → Type 0
  IsRun cap (run buf) = OneStamp buf × (length buf < cap)
  IsRun cap (capped buf) = OneStamp buf × (length buf ≡ cap)
  IsRun cap (failed e) = Unit {0}

  pub grown-All :
      (cap : ℕ) (buf : List (MieMessage F)) (more : List (MieMessage F) → List (Block F E))
      → OneStamp buf
      → length buf ≤ cap
      → ((b : List (MieMessage F)) → OneStamp b → length b < cap → All (IsRun cap) (more b))
      → 1 ≤ cap
      → All (IsRun cap) (grown cap buf more)
  grown-All cap buf more one small h pos = elim (Bool-cases (leb cap (length buf))) [
    | inl full ↦ rw full ((one, ground (arith, full)), h [] tt pos)
    | inr room ↦ rw room (h buf one (ground (arith, room)))
  ]

  -- The items are cut at the right places.
  pub blocks-IsRun :
      (cap : ℕ) (items : List (Item F E)) (buf : List (MieMessage F))
      → OneStamp buf
      → length buf < cap
      → All (IsRun cap) (blocks cap items buf)
  unfolding blocks
  blocks-IsRun cap [] buf one below = ((one, below), tt)
  blocks-IsRun cap (err e ∷ items) buf one below =
      ((one, below), (tt, blocks-IsRun cap items [] tt (omega arith)))
  blocks-IsRun cap (ok m ∷ items) buf one below = elim (Bool-cases (opens_new_run buf m)) [
    | inl fresh ↦ rw fresh (
      (one, below),
      grown-All cap (m ∷ []) (blocks cap items) tt (omega arith) (blocks-IsRun cap items)
          (omega arith),
    )
    | inr same ↦ rw same (
        grown-All cap (buf ++ m ∷ []) (blocks cap items) (OneStamp-append buf m one same)
          (omega (arith, length-append buf (m ∷ []))) (blocks-IsRun cap items) (omega arith))
  ]

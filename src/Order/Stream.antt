-- ===== src/Order/Stream.antt =====
-- The rows that rust/src/order.rs gives are the items again, rearranged within one timestamp only.

use mathlib.Core.List.{Perm, map-append}
use mathlib.Core.List.Perm
use mie_decoder.Common.{
  ℕ, ◌≡◌, ◌≤◌, ◌<◌, refl, sym, ap, ◌∙◌, max, List, [], ◌∷◌, ◌++◌, map, leb, arith, length,
  Bool-cases, inl, inr, All,
}
use mie_decoder.Models.Message.{MieMessage, Item, ok, err}
use mie_decoder.Order.{sort_run, opens_new_run, order_rows}
use mie_decoder.Order.Sorted.{sort_run-perm}
use mie_decoder.Order.Rows.{
  Block, run, capped, failed, oks, grown, blocks, emit, drain, rest, IsValid,
}
use mie_decoder.Order.Served.{drain-rest}
use mie_decoder.Order.Laws.{
  perm-length, msg_stamp, sort_run-stamps, at_stamp, place_of, IsRun, blocks-IsRun,
}

module _ {F E : Type 0} where
  -- The items as they came, run after run.
  abbrev arrived : List (Block F E) → List (Item F E)
  arrived [] = []
  arrived (run buf ∷ bs) = oks buf ++ arrived bs
  arrived (capped buf ∷ bs) = oks buf ++ arrived bs
  arrived (failed e ∷ bs) = err e ∷ arrived bs

  oks-snoc :
      (buf : List (MieMessage F)) (m : MieMessage F) (items : List (Item F E))
      → oks (buf ++ m ∷ []) ++ items ≡ oks buf ++ ok m ∷ items
  oks-snoc [] m items = refl
  oks-snoc (a ∷ buf) m items = ap (λ l. ok a ∷ l) (oks-snoc buf m items)

  arrived-grown :
      (cap : ℕ) (items : List (Item F E)) (buf : List (MieMessage F))
      (more : List (MieMessage F) → List (Block F E))
      → ((b : List (MieMessage F)) → arrived (more b) ≡ oks b ++ items)
      → arrived (grown cap buf more) ≡ oks buf ++ items
  arrived-grown cap items buf more h = elim (Bool-cases (leb cap (length buf))) [
    | inl full ↦ rw full (ap (λ l. oks buf ++ l) (h []))
    | inr room ↦ rw room (h buf)
  ]

  arrived-blocks :
      (cap : ℕ) (items : List (Item F E)) (buf : List (MieMessage F))
      → arrived (blocks cap items buf) ≡ oks buf ++ items
  unfolding blocks
  arrived-blocks cap [] buf = refl
  arrived-blocks cap (err e ∷ items) buf =
      ap (λ l. oks buf ++ err e ∷ l) (arrived-blocks cap items [])
  arrived-blocks cap (ok m ∷ items) buf = elim (Bool-cases (opens_new_run buf m)) [
    | inl fresh ↦ rw fresh (
        ap (λ l. oks buf ++ l)
          (arrived-grown cap items (m ∷ []) (blocks cap items) (arrived-blocks cap items)))
    | inr same ↦ rw same (
        arrived-grown cap items (buf ++ m ∷ []) (blocks cap items) (arrived-blocks cap items)
        ∙ oks-snoc buf m items)
  ]

  oks-map : (xs : List (MieMessage F)) → map ok xs ≡ oks {E = E} xs
  oks-map [] = refl
  oks-map (x ∷ xs) = ap (λ l. ok x ∷ l) (oks-map xs)

  places-oks :
      (xs : List (MieMessage F)) → map place_of (oks {E = E} xs) ≡ map at_stamp (map msg_stamp xs)
  places-oks [] = refl
  places-oks (x ∷ xs) = ap (λ l. at_stamp (msg_stamp x) ∷ l) (places-oks xs)

  places :
      (xs ys : List (MieMessage F))
      → map msg_stamp xs ≡ map msg_stamp ys
      → map place_of (oks {E = E} xs) ≡ map place_of (oks ys)
  places xs ys h = places-oks xs ∙ ap (map at_stamp) h ∙ sym (places-oks ys)

  -- Two lists of items hold the same items, and the stamps and errors stand at the same places.
  pub record SamePlaces (xs ys : List (Item F E)) : Type 0 where
    pub rearranged : Perm xs ys
    pub in_place : map place_of xs ≡ map place_of ys

  oks-perm :
      {xs : List (MieMessage F)} (ys : List (MieMessage F))
      → Perm xs ys
      → Perm (oks {E = E} xs) (oks ys)
  oks-perm {xs} ys p = rw (← oks-map xs, ← oks-map ys) (Perm.map ok p)

  SamePlaces-append :
      (xs ys zs ws : List (Item F E))
      → SamePlaces xs ys
      → SamePlaces zs ws
      → SamePlaces (xs ++ zs) (ys ++ ws)
  SamePlaces-append xs ys zs ws h g = record {
    rearranged = Perm.append h.rearranged g.rearranged;
    in_place = simp (map-append, h.in_place, g.in_place);
  }

  emit-SamePlaces :
      (cap : ℕ) (bs : List (Block F E)) → All (IsRun cap) bs → SamePlaces (emit bs) (arrived bs)
  emit-SamePlaces cap [] h = record { rearranged = Perm.rfl; in_place = refl }
  emit-SamePlaces cap (run buf ∷ bs) h =
      SamePlaces-append (oks (sort_run buf)) (oks buf) (emit bs) (arrived bs)
        (record {
          rearranged = oks-perm buf (sort_run-perm buf);
          in_place = places (sort_run buf) buf (sort_run-stamps buf h.0.0);
        })
        (emit-SamePlaces cap bs h.1)
  emit-SamePlaces cap (capped buf ∷ bs) h =
      SamePlaces-append (oks buf) (oks buf) (emit bs) (arrived bs)
        (record { rearranged = Perm.rfl; in_place = refl }) (emit-SamePlaces cap bs h.1)
  emit-SamePlaces cap (failed e ∷ bs) h =
      SamePlaces-append (err e ∷ []) (err e ∷ []) (emit bs) (arrived bs)
        (record { rearranged = Perm.rfl; in_place = refl }) (emit-SamePlaces cap bs h.1)

  order_rows-IsValid : (items : List (Item F E)) (cap : ℕ) → IsValid (order_rows items cap)
  unfolding order_rows
  order_rows-IsValid items cap = record {
    cap = omega arith;
    below = omega arith;
    ended = λ h. refl;
  }

  rows-SamePlaces :
      (items : List (Item F E)) (cap : ℕ) → SamePlaces (rest (order_rows items cap)) items
  unfolding order_rows
  rows-SamePlaces items cap = rw (arrived-blocks (max cap 1) items []) at (
      emit-SamePlaces (max cap 1) (blocks (max cap 1) items [])
        (blocks-IsRun (max cap 1) items [] tt (omega arith)))

  -- Draining the adapter, with more calls than items, gives its runs one after the other, each in
  -- row order unless it met the cap.
  pub drain-order_rows :
      (n : ℕ) (items : List (Item F E)) (cap : ℕ)
      → length items < n
      → drain n (order_rows items cap) ≡ emit (blocks (max cap 1) items [])
  unfolding order_rows
  drain-order_rows n items cap h =
      drain-rest n (order_rows items cap) (order_rows-IsValid items cap)
        (omega (arith, perm-length items (rows-SamePlaces items cap).rearranged))

  -- Draining the adapter, with more calls than items, gives the items again: every error in its
  -- place, and at every other place a record with the timestamp of the record that came there.
  pub drain-SamePlaces :
      (n : ℕ) (items : List (Item F E)) (cap : ℕ)
      → length items < n
      → SamePlaces (drain n (order_rows items cap)) items
  unfolding order_rows
  drain-SamePlaces n items cap h = rw (drain-order_rows n items cap h) (rows-SamePlaces items cap)

  emit_capped : (items : List (Item F E)) → emit (blocks 1 items []) ≡ items
  unfolding blocks sort_run
  emit_capped [] = refl
  emit_capped (err e ∷ items) = ap (λ l. err e ∷ l) (emit_capped items)
  emit_capped (ok m ∷ items) = ap (λ l. ok m ∷ l) (emit_capped items)

  -- A cap of one, or of none, gives the items as they came.
  pub drain_uncapped :
      (n : ℕ) (items : List (Item F E)) (cap : ℕ)
      → length items < n
      → cap ≤ 1
      → drain n (order_rows items cap) ≡ items
  drain_uncapped n items cap h small =
      let one : max cap 1 ≡ 1 = omega arith in
      drain-order_rows n items cap h
      ∙ ap (λ (c : ℕ). emit (blocks c items [])) one
      ∙ emit_capped items

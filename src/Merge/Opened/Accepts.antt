-- ===== src/Merge/Opened/Accepts.antt =====
-- Which files `new` of rust/src/merge.rs takes, and how its builders compose.
use Prim.Native.String.{String}
use mie_decoder.Common.{
  ℕ, ◌+◌, min, max, ◌≡◌, refl, ap, ◌↔◌, ◌⊎◌, inl, inr, Bool, true, false, Option, some, List, [],
  ◌∷◌, arith, Bool-cases, set, All,
}
use mie_decoder.Models.Timestamp.{Floats, Timestamp}
use mie_decoder.Models.Message.{Item, ok, err}
use mie_decoder.Error.{MieError}
use mie_decoder.Merge.State.{
  Input, MergedRecordIter, push_record, merge_micros, check_timestamp, check_mergeable,
  unless_refused, prime_round, prime, fresh_inputs, new, collapse, max_collapse_survivors,
}
use mie_decoder.Merge.Dedup.{new_window}

-- A time on the calendar.
abbrev pub IsLocked : Timestamp → Type 0
IsLocked (Timestamp.irig t) = t.freerun ≡ false
IsLocked (Timestamp.standard t) = ⊥

abbrev pub IsMade : {F : Type 0} → MieError ⊎ MergedRecordIter F → Type 0
IsMade (inl e) = ⊥
IsMade (inr s) = Unit {0}

module _ {F : Type 0} where
  -- A file that can anchor the timeline, has no record, or may be left out.
  abbrev pub CanLead : Bool → List (Item F MieError) → Type 0
  CanLead allow_partial [] = Unit {0}
  CanLead allow_partial (ok msg ∷ items) = IsLocked msg.timestamp
  CanLead allow_partial (err e ∷ items) = allow_partial ≡ true

module _ (fl : Floats) where
  open fl use {F}

  refused_iff :
      (t : Timestamp) (idx : ℕ) (path : String) (later : MieError ⊎ MergedRecordIter F) (A : Type 0)
      → IsMade later ↔ A
      → IsMade (unless_refused fl (check_timestamp t idx path) later) ↔ (IsLocked t × A)
  refused_iff (Timestamp.standard t) idx path later A h = (λ m. absurd m, λ a. absurd a.0)
  refused_iff (Timestamp.irig t) idx path later A h = elim (Bool-cases t.freerun) [
    | inl free ↦ rw free (λ m. absurd m, λ a. cc)
    | inr locked ↦ rw locked (λ m. (refl, h.0 m), λ a. h.1 a.1)
  ]

  -- The rounds behind take exactly the files that can lead.
  abbrev Takes : Bool → ℕ → List (Input F) → Type 0
  unfolding prime
  Takes partial idx walk =
      (s : MergedRecordIter F)
      → s.allow_partial ≡ partial
      → IsMade (prime fl idx walk s) ↔ All (λ (i : Input F). CanLead partial i.iter) walk

  round-CanLead :
      (partial : Bool) (idx : ℕ) (input : Input F) (walk : List (Input F)) (s : MergedRecordIter F)
      (items : List (Item F MieError))
      → Takes partial (idx + 1) walk
      → s.allow_partial ≡ partial
      → IsMade (prime_round fl (prime fl (idx + 1) walk) s idx input items)
        ↔ (CanLead partial items × All (λ (i : Input F). CanLead partial i.iter) walk)
  unfolding prime_round check_mergeable push_record Takes
  round-CanLead partial idx input walk s [] more e =
      let later = more s e in (λ m. (tt, later.0 m), λ a. later.1 a.1)
  round-CanLead partial idx input walk s (ok msg ∷ rest) more e =
      let s' = push_record s idx input (merge_micros fl msg s.tick) msg rest in
      refused_iff msg.timestamp idx input.path (prime fl (idx + 1) walk s') _ (more s' e)
  round-CanLead false idx input walk s (err failed ∷ rest) more e = rw e (λ m. absurd m, λ a. cc)
  round-CanLead true idx input walk s (err failed ∷ rest) more e =
      let later =
        more
          (record s {
            inputs = set s.inputs idx (record input { iter = rest });
            allow_partial = true;
            pending_terminal = some (MieError.unrecoverable_sync_loss 0 0);
          })
          refl in
      rw e (λ m. (refl, later.0 m), λ a. later.1 a.1)

  prime-CanLead : (partial : Bool) (idx : ℕ) (walk : List (Input F)) → Takes partial idx walk
  unfolding prime Takes
  prime-CanLead partial idx [] s e = (λ m. tt, λ a. tt)
  prime-CanLead partial idx (input ∷ walk) s e =
      round-CanLead partial idx input walk s input.iter (prime-CanLead partial (idx + 1) walk) e

  fresh_inputs-CanLead :
      (partial : Bool) (readers : List (String × List (Item F MieError)))
      → All (λ (i : Input F). CanLead partial i.iter) (fresh_inputs fl readers)
        ↔ All (λ (r : String × List (Item F MieError)). CanLead partial r.1) readers
  fresh_inputs-CanLead partial [] = (λ h. h, λ h. h)
  fresh_inputs-CanLead partial ((path, items) ∷ readers) =
      let later = fresh_inputs-CanLead partial readers in
      (λ h. (h.0, later.0 h.1), λ h. (h.0, later.1 h.1))

  -- The merge is made exactly if each file has no record, begins with a record on the calendar, or
  -- begins with an error that partial output allows.
  pub new-CanLead :
      (readers : List (String × List (Item F MieError))) (tick : Option F)
      (allow_partial strict : Bool)
      → IsMade (new fl readers tick allow_partial strict)
        ↔ All (λ (r : String × List (Item F MieError)). CanLead allow_partial r.1) readers
  unfolding new Takes
  new-CanLead readers tick partial strict =
      let made = prime-CanLead partial 0 (fresh_inputs fl readers) _ refl in
      let files = fresh_inputs-CanLead partial readers in
      (λ m. files.0 (made.0 m), λ a. made.1 (files.1 a))

module _ {F : Type 0} where
  -- The cap and the switch of the suppression may be set in either order.
  pub collapse-max_collapse_survivors :
      (s : MergedRecordIter F) (enabled : Bool) (window_us cap : ℕ)
      → collapse (max_collapse_survivors s cap) enabled window_us
        ≡ max_collapse_survivors (collapse s enabled window_us) cap
  unfolding collapse max_collapse_survivors new_window
  collapse-max_collapse_survivors s true w cap =
      let same : max (min (max cap 1) 1_048_576) 1 ≡ min (max cap 1) 1_048_576 = omega arith in
      ap
        (λ (c : ℕ). record s {
          dedup =
              some (record {
                window_us = w;
                max_survivors = c;
                survivors = [];
                capped_warned = false;
              });
          max_survivors = min (max cap 1) 1_048_576;
        })
        same
  collapse-max_collapse_survivors s false w cap = refl

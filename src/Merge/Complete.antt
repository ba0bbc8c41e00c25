-- ===== src/Merge/Complete.antt =====
-- The merge of rust/src/merge.rs gives every record once, while it suppresses none.
pub mod Drain
use mathlib.Core.List.{Perm}
use mathlib.Core.List.Perm
use mie_decoder.Common.{
  ℕ, zero, suc, ◌≡◌, refl, sym, ap, ◌≢◌, inl, inr, none, some, List, [], ◌∷◌, ◌++◌, Bool-cases,
  get_elem?, set, insert_sorted, insert_sorted-All, All, exchange,
}
use mie_decoder.Models.Message.{MieMessage, Item, ok, err}
use mie_decoder.Models.Message.Drain.{until_error}
use mie_decoder.Error.{MieError}
use mie_decoder.Merge.State.{per_file, Input, HeapEntry, MergedRecordIter, entry_le, push_entry}

module _ {F : Type 0} where
  abbrev pub records : List (Item F MieError) → List (MieMessage F)
  records [] = []
  records (ok m ∷ items) = m ∷ records items
  records (err e ∷ items) = records items

  -- The records behind the one that a file has on the heap.
  abbrev pub ahead : List (Input F) → ℕ → List (MieMessage F)
  ahead [] f = []
  ahead (input ∷ inputs) zero = until_error input.iter
  ahead (input ∷ inputs) (suc f) = ahead inputs f

  -- What a merge with this heap still reads.
  abbrev pub readable : List (Input F) → List (HeapEntry F) → List (MieMessage F)
  readable inputs [] = []
  readable inputs (e ∷ heap) = (e.msg ∷ ahead inputs e.file_index) ++ readable inputs heap

  -- The heap has one entry of a file at most.
  abbrev pub IsOther : ℕ → List (HeapEntry F) → Type 0
  IsOther f heap = All (λ (e : HeapEntry F). e.file_index ≢ f) heap

  abbrev pub IsDistinct : List (HeapEntry F) → Type 0
  IsDistinct [] = Unit {0}
  IsDistinct (e ∷ heap) = IsOther e.file_index heap × IsDistinct heap

  pub push_entry-IsDistinct :
      (e : HeapEntry F) (heap : List (HeapEntry F))
      → IsOther e.file_index heap
      → IsDistinct heap
      → IsDistinct (push_entry e heap)
  unfolding push_entry insert_sorted
  push_entry-IsDistinct e [] o d = (tt, tt)
  push_entry-IsDistinct e (x ∷ heap) o d = elim (Bool-cases (entry_le e x)) [
    | inl before ↦ rw before (o, d)
    | inr behind ↦ rw behind (
      insert_sorted-All entry_le (λ (e : HeapEntry F). e.file_index ≢ x.file_index) e heap
          (λ h. o.0 (sym h)) d.0,
      push_entry-IsDistinct e heap o.1 d.1,
    )
  ]

  readable-push_entry :
      (inputs : List (Input F)) (e : HeapEntry F) (heap : List (HeapEntry F))
      → Perm (readable inputs (push_entry e heap)) (readable inputs (e ∷ heap))
  unfolding push_entry insert_sorted
  readable-push_entry inputs e [] = Perm.rfl
  readable-push_entry inputs e (x ∷ heap) = elim (Bool-cases (entry_le e x)) [
    | inl before ↦ rw before Perm.rfl
    | inr behind ↦ rw behind (
        Perm.trans
          (Perm.append (Perm.rfl {l = x.msg ∷ ahead inputs x.file_index})
            (readable-push_entry inputs e heap))
          (exchange (x.msg ∷ ahead inputs x.file_index) (e.msg ∷ ahead inputs e.file_index)
            (readable inputs heap)))
  ]

  pub ahead_get :
      (inputs : List (Input F)) (f : ℕ) (input : Input F)
      → get_elem? inputs f ≡ some input
      → ahead inputs f ≡ until_error input.iter
  ahead_get [] f input h = cc
  ahead_get (x ∷ inputs) zero input h = cc
  ahead_get (x ∷ inputs) (suc f) input h = ahead_get inputs f input h

  ahead-none : (inputs : List (Input F)) (f : ℕ) → get_elem? inputs f ≡ none → ahead inputs f ≡ []
  ahead-none [] f h = refl
  ahead-none (x ∷ inputs) zero h = cc
  ahead-none (x ∷ inputs) (suc f) h = ahead-none inputs f h

  ahead-set_self :
      (inputs : List (Input F)) (f : ℕ) (old input : Input F)
      → get_elem? inputs f ≡ some old
      → ahead (set inputs f input) f ≡ until_error input.iter
  ahead-set_self [] f old input h = cc
  ahead-set_self (x ∷ inputs) zero old input h = refl
  ahead-set_self (x ∷ inputs) (suc f) old input h = ahead-set_self inputs f old input h

  ahead-set_ne :
      (inputs : List (Input F)) (f j : ℕ) (input : Input F)
      → j ≢ f
      → ahead (set inputs f input) j ≡ ahead inputs j
  ahead-set_ne [] f j input h = refl
  ahead-set_ne (x ∷ inputs) zero zero input h = absurd (h refl)
  ahead-set_ne (x ∷ inputs) zero (suc j) input h = refl
  ahead-set_ne (x ∷ inputs) (suc f) zero input h = refl
  ahead-set_ne (x ∷ inputs) (suc f) (suc j) input h =
      ahead-set_ne inputs f j input (λ e. h (ap suc e))

  pub readable-set :
      (inputs : List (Input F)) (f : ℕ) (input : Input F) (heap : List (HeapEntry F))
      → IsOther f heap
      → readable (set inputs f input) heap ≡ readable inputs heap
  readable-set inputs f input [] o = refl
  readable-set inputs f input (e ∷ heap) o =
      rw (ahead-set_ne inputs f e.file_index input o.0, readable-set inputs f input heap o.1) refl

  -- A state that suppresses nothing, leaves `DELTA` alone and still gives these records.
  pub record Reads (s : MergedRecordIter F) (msgs : List (MieMessage F)) : Type 0 where
    pub keeps : s.dedup ≡ none
    pub scope : s.delta_scope ≡ per_file
    pub distinct : IsDistinct s.heap
    pub all : Perm (readable s.inputs s.heap) msgs

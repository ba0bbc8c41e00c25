-- ===== src/Merge/Ascends.antt =====
-- The merge of rust/src/merge.rs gives the records of ascending files in the order of time.
use mie_decoder.Common.{
  ℕ, zero, suc, ◌+◌, ◌≤◌, ◌≡◌, refl, ap, inl, inr, true, false, ◌&&◌, ◌||◌, not, Option, none, some,
  List, [], ◌∷◌, arith, Option-cases, if_intro, get_elem?, set, IsSorted, insert_sorted-All,
  insert_sorted-IsSorted, All, All-implies, All-set, All-get_elem?,
}
use mie_decoder.Models.Timestamp.{Floats}
use mie_decoder.Models.Message.{MieMessage, Item, ok, err}
use mie_decoder.Error.{MieError, kind}
use mie_decoder.Merge.State.{
  Input, HeapEntry, MergedRecordIter, entry_le, push_entry, push_record, merge_micros,
}
use mie_decoder.Merge.Step.{is_sync_loss, is_backward, backward_error, advance_by, advance}

abbrev pub reached : Option ℕ → ℕ
reached none = 0
reached (some us) = us

module _ {F : Type 0} where
  pub entry_le_total : (x y : HeapEntry F) → entry_le x y ≡ false → entry_le y x ≡ true
  unfolding entry_le
  entry_le_total x y h = ground arith

  pub entry_le_trans :
      (x y z : HeapEntry F) → entry_le x y ≡ true → entry_le y z ≡ true → entry_le x z ≡ true
  unfolding entry_le
  entry_le_trans x y z h g = ground arith

  pub entry_le-us : (x y : HeapEntry F) → entry_le x y ≡ true → x.us ≤ y.us
  unfolding entry_le
  entry_le-us x y h = ground arith

  -- The time that a file has reached.
  abbrev pub reached_at : List (Input F) → ℕ → ℕ
  reached_at [] f = 0
  reached_at (input ∷ inputs) zero = reached input.prev_us
  reached_at (input ∷ inputs) (suc f) = reached_at inputs f

  pub reached_at_get :
      (inputs : List (Input F)) (f : ℕ) (input : Input F)
      → get_elem? inputs f ≡ some input
      → reached_at inputs f ≡ reached input.prev_us
  reached_at_get [] f input h = cc
  reached_at_get (x ∷ inputs) zero input h = cc
  reached_at_get (x ∷ inputs) (suc f) input h = reached_at_get inputs f input h

  pub reached_at-set :
      (inputs : List (Input F)) (f j : ℕ) (old input : Input F)
      → get_elem? inputs f ≡ some old
      → reached old.prev_us ≤ reached input.prev_us
      → reached_at inputs j ≤ reached_at (set inputs f input) j
  reached_at-set [] f j old input h le = omega arith
  reached_at-set (x ∷ inputs) zero zero old input h le = ground arith
  reached_at-set (x ∷ inputs) zero (suc j) old input h le = omega arith
  reached_at-set (x ∷ inputs) (suc f) zero old input h le = omega arith
  reached_at-set (x ∷ inputs) (suc f) (suc j) old input h le =
      reached_at-set inputs f j old input h le

  pub reached_at-set_self :
      (inputs : List (Input F)) (f : ℕ) (old input : Input F)
      → get_elem? inputs f ≡ some old
      → reached_at (set inputs f input) f ≡ reached input.prev_us
  reached_at-set_self [] f old input h = cc
  reached_at-set_self (x ∷ inputs) zero old input h = refl
  reached_at-set_self (x ∷ inputs) (suc f) old input h = reached_at-set_self inputs f old input h

module _ (fl : Floats) (tick : Option fl.F) where
  open fl use {F}

  -- The records ascend from `lo` on; an error between them leaves the time as it is.
  abbrev pub IsAscending : ℕ → List (Item F MieError) → Type 0
  IsAscending lo [] = Unit {0}
  IsAscending lo (ok m ∷ items) =
      (lo ≤ merge_micros fl m tick) × IsAscending (merge_micros fl m tick) items
  IsAscending lo (err e ∷ items) = IsAscending lo items

  -- A heap entry has its record's time, which its file has reached, and is not before `lo`.
  pub record IsEntry (lo : ℕ) (inputs : List (Input F)) (e : HeapEntry F) : Type 0 where
    pub timed : e.us ≡ merge_micros fl e.msg tick
    pub known : e.us ≤ reached_at inputs e.file_index
    pub above : lo ≤ e.us

  pub record IsValid (lo : ℕ) (s : MergedRecordIter F) : Type 0 where
    pub ticks : s.tick ≡ tick
    pub ascending : All (λ (i : Input F). IsAscending (reached i.prev_us) i.iter) s.inputs
    pub sorted : IsSorted entry_le s.heap
    pub entries : All (IsEntry lo s.inputs) s.heap

  pub IsEntry-set :
      (lo : ℕ) (inputs : List (Input F)) (f : ℕ) (old input : Input F) (heap : List (HeapEntry F))
      → get_elem? inputs f ≡ some old
      → reached old.prev_us ≤ reached input.prev_us
      → All (IsEntry lo inputs) heap
      → All (IsEntry lo (set inputs f input)) heap
  IsEntry-set lo inputs f old input heap h le all =
      All-implies (IsEntry lo inputs) (IsEntry lo (set inputs f input)) heap
        (λ e v. record {
          timed = v.timed;
          known = omega (arith, v.known, reached_at-set inputs f e.file_index old input h le);
          above = v.above;
        })
        all

  pub push_record-IsValid :
      (lo : ℕ) (s : MergedRecordIter F) (f : ℕ) (old input : Input F) (us : ℕ) (msg : MieMessage F)
      (rest : List (Item F MieError)) (p : Option MieError)
      → get_elem? s.inputs f ≡ some old
      → us ≡ merge_micros fl msg tick
      → reached old.prev_us ≤ us
      → lo ≤ us
      → IsAscending us rest
      → IsValid lo s
      → IsValid lo (push_record (record s { pending_error = p }) f input us msg rest)
  unfolding push_record push_entry
  push_record-IsValid lo s f old input us msg rest p h t le above ahead v =
      let newer = record input { iter = rest; next_seq = input.next_seq + 1; prev_us = some us } in
      let entry : HeapEntry F = record {
        us = us;
        file_index = f;
        seq = input.next_seq;
        msg = msg;
      } in
      record {
        ticks = v.ticks;
        ascending =
            All-set (λ (i : Input F). IsAscending (reached i.prev_us) i.iter) s.inputs f newer
              v.ascending ahead;
        sorted =
            insert_sorted-IsSorted entry_le entry_le_total entry_le_trans entry s.heap v.sorted;
        entries =
            insert_sorted-All entry_le (IsEntry lo (set s.inputs f newer)) entry s.heap
              (record {
                timed = t;
                known = omega (arith, reached_at-set_self s.inputs f old newer h);
                above = above;
              })
              (IsEntry-set lo s.inputs f old newer s.heap h le v.entries);
      }

  pub advance_by-IsValid :
      (lo : ℕ) (s : MergedRecordIter F) (f : ℕ) (input : Input F) (items : List (Item F MieError))
      → get_elem? s.inputs f ≡ some input
      → IsAscending (reached input.prev_us) items
      → lo ≤ reached input.prev_us
      → IsValid lo s
      → IsValid lo (advance_by fl s f input items)
  unfolding advance_by
  advance_by-IsValid lo s f input [] h ahead above v = v
  advance_by-IsValid lo s f input (ok msg ∷ rest) h ahead above v =
      let us = merge_micros fl msg s.tick in
      let same : us ≡ merge_micros fl msg tick = ap (merge_micros fl msg) v.ticks in
      push_record-IsValid lo s f input
        (record input {
          warned_backward = input.warned_backward || (is_backward input.prev_us us && not s.strict);
        })
        us msg rest (backward_error s.strict f input us s.pending_error) h same
        (omega (arith, same)) (omega (arith, same)) (rw same ahead.1) v
  advance_by-IsValid lo s f input (err e ∷ rest) h ahead above v =
      let shorter = record input { iter = rest } in
      let entries = IsEntry-set lo s.inputs f input shorter s.heap h (omega arith) v.entries in
      let ascending =
        All-set (λ (i : Input F). IsAscending (reached i.prev_us) i.iter) s.inputs f shorter
          v.ascending ahead in
      if_intro (IsValid lo) (s.allow_partial && is_sync_loss (kind e)) _ _
        (λ lost. record {
          ticks = v.ticks;
          ascending = ascending;
          sorted = v.sorted;
          entries = entries;
        })
        (λ fails. record {
          ticks = v.ticks;
          ascending = ascending;
          sorted = v.sorted;
          entries = entries;
        })

  pub advance-IsValid :
      (lo : ℕ) (s : MergedRecordIter F) (f : ℕ)
      → lo ≤ reached_at s.inputs f
      → IsValid lo s
      → IsValid lo (advance fl s f)
  unfolding advance
  advance-IsValid lo s f above v = elim (Option-cases (get_elem? s.inputs f)) [
    | inl e ↦ rw (advance, e) v
    | inr (input, e) ↦
        rw (advance, e)
          (advance_by-IsValid lo s f input input.iter e
            (All-get_elem? (λ (i : Input F). IsAscending (reached i.prev_us) i.iter) s.inputs f
              input v.ascending e)
            (omega (arith, reached_at_get s.inputs f input e)) v)
  ]

  pub weaken : (lo lo' : ℕ) (s : MergedRecordIter F) → lo ≤ lo' → IsValid lo' s → IsValid lo s
  weaken lo lo' s le v = record {
    ticks = v.ticks;
    ascending = v.ascending;
    sorted = v.sorted;
    entries =
        All-implies (IsEntry lo' s.inputs) (IsEntry lo s.inputs) s.heap
          (λ e w. record { timed = w.timed; known = w.known; above = omega (arith, w.above) })
          v.entries;
  }

-- ===== src/Merge/State.antt =====
-- rust/src/merge.rs: the state of the merge and how it is made.
use Prim.Native.String.{String}
use mie_decoder.Common.{
  ℕ, ◌+◌, min, max, ◌⊎◌, inl, inr, Bool, false, ◌&&◌, ◌||◌, Option, none, some, List, [], ◌∷◌, ltb,
  leb, ◌==◌, if◌then◌else◌, set, insert_sorted,
}
use mie_decoder.Models.Timestamp.{Timestamp, Floats, to_microseconds}
use mie_decoder.Models.Message.{MieMessage, Item, ok, err}
use mie_decoder.Error.{MieError}
use mie_decoder.Delta.{DeltaTracker, new_tracker}
use mie_decoder.Merge.Dedup.{
  DedupWindow, new_window, max_collapse_survivors_min, max_collapse_survivors_max,
  default_max_collapse_survivors,
}

pub data DeltaScope : Type 0 where
  per_file global : DeltaScope

module _ (F : Type 0) where
  -- What the source keeps of one file in five vectors: what its iterator still gives, the number of
  -- its next record, the time of its previous one, whether it was warned of, and its path.
  pub record Input : Type 0 where
    pub iter : List (Item F MieError)
    pub next_seq : ℕ
    pub prev_us : Option ℕ
    pub warned_backward : Bool
    pub path : String

  pub record HeapEntry : Type 0 where
    pub us : ℕ
    pub file_index : ℕ
    pub seq : ℕ
    pub msg : MieMessage F

  -- The heap is the list of its entries, the least key first.
  pub record MergedRecordIter : Type 0 where
    pub inputs : List Input
    pub heap : List HeapEntry
    pub tick : Option F
    pub allow_partial : Bool
    pub strict : Bool
    pub delta_tracker : DeltaTracker F
    pub pending_error : Option MieError
    pub pending_terminal : Option MieError
    pub dedup : Option DedupWindow
    pub max_survivors : ℕ
    pub delta_scope : DeltaScope
    pub collapsed : ℕ

-- `Ok(())` is `none`.
abbrev pub check_timestamp : Timestamp → ℕ → String → Option MieError
check_timestamp (Timestamp.standard t) file_index path =
    some (MieError.incompatible_merge_inputs file_index path)
check_timestamp (Timestamp.irig t) file_index path =
    if t.freerun then some (MieError.incompatible_merge_inputs file_index path) else none

unfoldable pub check_mergeable : {F : Type 0} → MieMessage F → ℕ → String → Option MieError
check_mergeable msg file_index path = check_timestamp msg.timestamp file_index path

-- `key() <= key()` on `(us, file_index, seq)`.
unfoldable pub entry_le : {F : Type 0} → HeapEntry F → HeapEntry F → Bool
entry_le e e' =
    ltb e.us e'.us
    || (e.us == e'.us
        && (ltb e.file_index e'.file_index || (e.file_index == e'.file_index && leb e.seq e'.seq)))

module _ {F : Type 0} where
  unfoldable pub push_entry : HeapEntry F → List (HeapEntry F) → List (HeapEntry F)
  unfolding entry_le insert_sorted
  push_entry e heap = insert_sorted entry_le e heap

  -- The record that file `file_index` gave is on the heap, and `rest` is what its iterator still gives.
  unfoldable pub push_record :
      MergedRecordIter F
      → ℕ
      → Input F
      → ℕ
      → MieMessage F
      → List (Item F MieError)
      → MergedRecordIter F
  unfolding push_entry
  push_record s file_index input us msg rest =
      let entry : HeapEntry F = record {
        us = us;
        file_index = file_index;
        seq = input.next_seq;
        msg = msg;
      } in
      record s {
        inputs =
            set s.inputs file_index
              (record input { iter = rest; next_seq = input.next_seq + 1; prev_us = some us });
        heap = push_entry entry s.heap;
      }

module _ (fl : Floats) where
  open fl use {F}

  unfoldable pub merge_micros : MieMessage F → Option F → ℕ
  unfolding to_microseconds
  merge_micros msg tick = elim (to_microseconds fl msg.timestamp tick) [ none ↦ 0 | some us ↦ us ]

  -- The file is refused, or the loop goes on.
  abbrev pub unless_refused :
      Option MieError → MieError ⊎ MergedRecordIter F → MieError ⊎ MergedRecordIter F
  unless_refused none later = later
  unless_refused (some e) later = inl e

  -- A round of the `for` of `new` for a file that gives these items; `more` are those behind it.
  unfoldable pub prime_round :
      (MergedRecordIter F → MieError ⊎ MergedRecordIter F)
      → MergedRecordIter F
      → ℕ
      → Input F
      → List (Item F MieError)
      → MieError ⊎ MergedRecordIter F
  unfolding push_record check_mergeable merge_micros
  prime_round more s idx input [] = more s
  prime_round more s idx input (ok msg ∷ rest) =
      unless_refused (check_mergeable msg idx input.path)
        (more (push_record s idx input (merge_micros msg s.tick) msg rest))
  prime_round more s idx input (err e ∷ rest) =
      if s.allow_partial
      then more (record s {
        inputs = set s.inputs idx (record input { iter = rest });
        pending_terminal = some (MieError.unrecoverable_sync_loss 0 0);
      })
      else inl e

  -- The `for` of `new`; `walk` holds the files from number `idx` on.
  unfoldable pub prime : ℕ → List (Input F) → MergedRecordIter F → MieError ⊎ MergedRecordIter F
  unfolding prime_round
  prime idx [] s = inr s
  prime idx (input ∷ walk) s = prime_round (prime (idx + 1) walk) s idx input input.iter

  -- A reader: its path, and what its iterator gives.
  abbrev pub fresh_inputs : List (String × List (Item F MieError)) → List (Input F)
  fresh_inputs [] = []
  fresh_inputs ((path, items) ∷ readers) =
      record { iter = items; next_seq = 0; prev_us = none; warned_backward = false; path = path }
      ∷ fresh_inputs readers

  unfoldable pub new :
      List (String × List (Item F MieError))
      → Option F
      → Bool
      → Bool
      → MieError ⊎ MergedRecordIter F
  unfolding prime new_tracker
  new readers tick allow_partial strict = prime 0 (fresh_inputs readers) (record {
    inputs = fresh_inputs readers;
    heap = [];
    tick = tick;
    allow_partial = allow_partial;
    strict = strict;
    delta_tracker = new_tracker tick;
    pending_error = none;
    pending_terminal = none;
    dedup = none;
    max_survivors = default_max_collapse_survivors;
    delta_scope = per_file;
    collapsed = 0;
  })

abbrev pub with_cap : Option DedupWindow → ℕ → Option DedupWindow
with_cap none cap = none
with_cap (some w) cap = some (record w { max_survivors = cap })

module _ {F : Type 0} where
  unfoldable pub collapse : MergedRecordIter F → Bool → ℕ → MergedRecordIter F
  unfolding new_window
  collapse s enabled window_us = record s {
    dedup = if enabled then some (new_window window_us s.max_survivors) else none;
  }

  unfoldable pub max_collapse_survivors : MergedRecordIter F → ℕ → MergedRecordIter F
  max_collapse_survivors s cap =
      let clamped = min (max cap max_collapse_survivors_min) max_collapse_survivors_max in
      record s { max_survivors = clamped; dedup = with_cap s.dedup clamped }

  unfoldable pub with_delta_scope : MergedRecordIter F → DeltaScope → MergedRecordIter F
  with_delta_scope s scope = record s { delta_scope = scope }

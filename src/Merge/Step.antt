-- ===== src/Merge/Step.antt =====
-- rust/src/merge.rs: what one call of the merge's `next` does.
pub mod Progress
pub mod Loop
use mie_decoder.Common.{
  ℕ, zero, suc, ◌+◌, ◌%◌, ◌^◌, Bool, true, false, ◌&&◌, ◌||◌, not, Option, none, some, List, [],
  ◌∷◌, ltb, if◌then◌else◌, length, get_elem?, set,
}
use mie_decoder.Models.Timestamp.{Floats}
use mie_decoder.Models.Message.{MieMessage, Item, ok, err, Row, row, end, exhausted}
use mie_decoder.Error.{MieError, MieErrorKind, kind}
use mie_decoder.Delta.{DeltaTracker, observe, value}
use mie_decoder.Merge.Dedup.{DedupWindow, is_duplicate}
use mie_decoder.Merge.State.{
  DeltaScope, per_file, global, Input, HeapEntry, MergedRecordIter, push_record, merge_micros,
}

abbrev pub is_sync_loss : MieErrorKind → Bool
is_sync_loss MieErrorKind.unrecoverable_sync_loss = true
is_sync_loss _ = false

-- Whether the previous record of a file was later.
abbrev pub is_backward : Option ℕ → ℕ → Bool
is_backward none us = false
is_backward (some prev) us = ltb us prev

module _ {F : Type 0} where
  -- `pending_error` behind the test for a step back.
  unfoldable pub backward_error : Bool → ℕ → Input F → ℕ → Option MieError → Option MieError
  backward_error strict file_index input us pending = elim (input.prev_us) [
    | none ↦ pending
    | some prev ↦
        if ltb us prev && strict
        then some (MieError.non_monotonic_input file_index input.path prev us)
        else pending
  ]

  -- What the iterators still give.
  unfoldable pub unread : List (Input F) → ℕ
  unread [] = 0
  unread (input ∷ inputs) = length input.iter + unread inputs

module _ (fl : Floats) where
  open fl use {F}

  unfoldable pub apply_global_delta :
      DeltaScope → DeltaTracker F → MieMessage F → DeltaTracker F × MieMessage F
  unfolding observe value
  apply_global_delta per_file tracker msg = (tracker, msg)
  apply_global_delta global tracker msg =
      let observed = observe fl tracker msg.command_word msg.timestamp in
      (observed.0, record msg { delta = value fl observed.1 })

  -- `advance` of a file that gives these items.
  unfoldable pub advance_by :
      MergedRecordIter F → ℕ → Input F → List (Item F MieError) → MergedRecordIter F
  unfolding push_record merge_micros backward_error kind
  advance_by s file_index input [] = s
  advance_by s file_index input (ok msg ∷ rest) =
      let us = merge_micros fl msg s.tick in
      let warned = input.warned_backward || (is_backward input.prev_us us && not s.strict) in
      push_record
        (record s { pending_error = backward_error s.strict file_index input us s.pending_error })
        file_index (record input { warned_backward = warned }) us msg rest
  advance_by s file_index input (err e ∷ rest) =
      let inputs = set s.inputs file_index (record input { iter = rest }) in
      if s.allow_partial && is_sync_loss (kind e)
      then record s { inputs = inputs; pending_terminal = some e }
      else record s { inputs = inputs; pending_error = some e }

  -- A file number that is out of range is no case of the source.
  unfoldable pub advance : MergedRecordIter F → ℕ → MergedRecordIter F
  unfolding advance_by
  advance s file_index = elim (get_elem? s.inputs file_index) [
    | none ↦ s
    | some input ↦ advance_by s file_index input input.iter
  ]

  -- `Some(dedup) && dedup.is_duplicate(...)`.
  unfoldable pub suppresses : Option DedupWindow → HeapEntry F → Option DedupWindow × Bool
  unfolding is_duplicate
  suppresses none entry = (none, false)
  suppresses (some w) entry =
      let tested = is_duplicate w entry.us entry.file_index entry.msg in (some tested.0, tested.1)

  -- The state behind a suppressed duplicate, and behind a record that is given.
  unfoldable pub behind_duplicate : MergedRecordIter F → HeapEntry F → MergedRecordIter F
  unfolding advance
  behind_duplicate s entry =
      advance (record s { collapsed = (s.collapsed + 1) % 2 ^ 64 }) entry.file_index

  unfoldable pub behind_record :
      MergedRecordIter F → DeltaTracker F → HeapEntry F → MergedRecordIter F
  unfolding advance
  behind_record s tracker entry = advance (record s { delta_tracker = tracker }) entry.file_index

  -- A popped entry, once it is known whether it is a duplicate.
  abbrev pub give :
      (MergedRecordIter F → MergedRecordIter F × Row F MieError)
      → MergedRecordIter F
      → HeapEntry F
      → Bool
      → MergedRecordIter F × Row F MieError
  unfolding apply_global_delta
  give more s entry true = more (behind_duplicate s entry)
  give more s entry false =
      let given = apply_global_delta s.delta_scope s.delta_tracker entry.msg in
      (behind_record s given.0 entry, row (ok given.1))

  abbrev pub finish : MergedRecordIter F → Option MieError → MergedRecordIter F × Row F MieError
  finish s none = (s, end)
  finish s (some e) = (record s { pending_terminal = none }, row (err e))

  -- A round of the `loop`, `more` being those behind it.
  unfoldable pub serve :
      (MergedRecordIter F → MergedRecordIter F × Row F MieError)
      → MergedRecordIter F
      → Option MieError
      → List (HeapEntry F)
      → MergedRecordIter F × Row F MieError
  unfolding suppresses apply_global_delta advance
  serve more s (some e) heap = (record s { pending_error = none }, row (err e))
  serve more s none [] = finish s s.pending_terminal
  serve more s none (entry ∷ heap) =
      let tested = suppresses s.dedup entry in
      give more (record s { heap = heap; dedup = tested.0 }) entry tested.1

  unfoldable pub next_merged : ℕ → MergedRecordIter F → MergedRecordIter F × Row F MieError
  unfolding suppresses apply_global_delta advance
  next_merged zero s = (s, exhausted)
  next_merged (suc fuel) s = serve (next_merged fuel) s s.pending_error s.heap

  -- Each round takes an entry off the heap, and brings one from a file at most.
  unfoldable pub next : MergedRecordIter F → MergedRecordIter F × Row F MieError
  unfolding next_merged unread
  next s = next_merged (unread s.inputs + length s.heap + 1) s

-- ===== src/Merge/InOrder.antt =====
-- The calls of `next` of rust/src/merge.rs give the records of ascending files in the order of time.
use mie_decoder.Common.{
  ℕ, zero, suc, ◌+◌, ◌%◌, ◌^◌, ◌≤◌, ◌≡◌, refl, sym, ◌∙◌, true, Option, none, some, List, [], ◌∷◌,
  All,
}
use mie_decoder.Models.Timestamp.{Floats}
use mie_decoder.Models.Message.{MieMessage, ok, err, Row, row, end, exhausted}
use mie_decoder.Models.Message.Drain.{gather_rows}
use mie_decoder.Error.{MieError}
use mie_decoder.Delta.{DeltaTracker}
use mie_decoder.Merge.Dedup.{DedupWindow}
use mie_decoder.Merge.State.{
  DeltaScope, per_file, global, Input, HeapEntry, MergedRecordIter, entry_le, merge_micros,
}
use mie_decoder.Merge.Step.{
  apply_global_delta, advance, suppresses, behind_duplicate, behind_record, finish, next,
}
use mie_decoder.Merge.Step.Loop.{popped, next-Sound}
use mie_decoder.Merge.Step.Progress.{drain}
use mie_decoder.Merge.Ascends.{entry_le-us, IsAscending, IsEntry, IsValid, advance-IsValid, weaken}

module _ (fl : Floats) (tick : Option fl.F) where
  open fl use {F}

  -- What a call says from `lo` on: the record is not before `lo`, and none before it follows.
  abbrev Outcome : ℕ → MergedRecordIter F × Row F MieError → Type 0
  Outcome lo (s, row (ok m)) =
      (lo ≤ merge_micros fl m tick) × IsValid fl tick (merge_micros fl m tick) s
  Outcome lo (s, row (err e)) = IsValid fl tick lo s
  Outcome lo (s, end) = Unit {0}
  Outcome lo (s, exhausted) = Unit {0}

  finish-Outcome :
      (lo : ℕ) (s : MergedRecordIter F) (e : Option MieError)
      → IsValid fl tick lo s
      → Outcome lo (finish fl s e)
  finish-Outcome lo s none v = tt
  finish-Outcome lo s (some e) v = record {
    ticks = v.ticks;
    ascending = v.ascending;
    sorted = v.sorted;
    entries = v.entries;
  }

  above_least :
      (lo₀ : ℕ) (inputs : List (Input F)) (entry : HeapEntry F) (heap : List (HeapEntry F))
      → All (λ e. entry_le entry e ≡ true) heap
      → All (IsEntry fl tick lo₀ inputs) heap
      → All (IsEntry fl tick entry.us inputs) heap
  above_least lo₀ inputs entry [] least all = tt
  above_least lo₀ inputs entry (e ∷ heap) least all = (
    record { timed = all.0.timed; known = all.0.known; above = entry_le-us entry e least.0 },
    above_least lo₀ inputs entry heap least.1 all.1,
  )

  -- The state with the least entry off its heap is valid from that entry's time on.
  popped-IsValid :
      (lo : ℕ) (s : MergedRecordIter F) (entry : HeapEntry F) (heap : List (HeapEntry F))
      (dedup : Option DedupWindow) (tracker : DeltaTracker F) (collapsed : ℕ)
      → s.heap ≡ entry ∷ heap
      → IsValid fl tick lo s
      → IsValid fl tick entry.us
          (record s { heap = heap; dedup = dedup; delta_tracker = tracker; collapsed = collapsed })
  popped-IsValid lo s entry heap dedup tracker collapsed h v =
      let entries = rw h at v.entries in
      let sorted = rw h at v.sorted in
      record {
        ticks = v.ticks;
        ascending = v.ascending;
        sorted = sorted.1;
        entries = above_least lo s.inputs entry heap sorted.0 entries.1;
      }

  apply_global_delta-micros :
      (scope : DeltaScope) (tracker : DeltaTracker F) (msg : MieMessage F)
      → merge_micros fl (apply_global_delta fl scope tracker msg).1 tick ≡ merge_micros fl msg tick
  unfolding apply_global_delta merge_micros
  apply_global_delta-micros per_file tracker msg = refl
  apply_global_delta-micros global tracker msg = refl

  behind-IsValid :
      (lo : ℕ) (s : MergedRecordIter F) (entry : HeapEntry F) (heap : List (HeapEntry F))
      (dedup : Option DedupWindow) (tracker : DeltaTracker F) (collapsed : ℕ)
      → s.heap ≡ entry ∷ heap
      → IsValid fl tick lo s
      → IsEntry fl tick lo s.inputs entry
        × IsValid fl tick entry.us (
            advance fl
              (record s {
                heap = heap;
                dedup = dedup;
                delta_tracker = tracker;
                collapsed = collapsed;
              })
              entry.file_index)
  behind-IsValid lo s entry heap dedup tracker collapsed h v =
      let entries = rw h at v.entries in
      (
        entries.0,
        advance-IsValid fl tick entry.us
            (record s {
              heap = heap;
              dedup = dedup;
              delta_tracker = tracker;
              collapsed = collapsed;
            })
            entry.file_index entries.0.known
            (popped-IsValid lo s entry heap dedup tracker collapsed h v),
      )

  next-Outcome : (lo : ℕ) (s : MergedRecordIter F) → IsValid fl tick lo s → Outcome lo (next fl s)
  unfolding behind_duplicate behind_record
  next-Outcome lo s₀ v₀ =
      next-Sound fl (IsValid fl tick lo) (Outcome lo)
        (λ s e v p. record {
          ticks = v.ticks;
          ascending = v.ascending;
          sorted = v.sorted;
          entries = v.entries;
        })
        (λ s v p h. finish-Outcome lo s s.pending_terminal v)
        (λ s entry heap v h y.
          let (top, behind) =
            behind-IsValid lo s entry heap (suppresses fl s.dedup entry).0 s.delta_tracker
              ((s.collapsed + 1) % 2 ^ 64) h v in
          weaken fl tick lo entry.us
            (behind_duplicate fl (popped fl s (suppresses fl s.dedup entry).0 heap) entry) top.above
            behind)
        (λ s entry heap v h n.
          let given = apply_global_delta fl s.delta_scope s.delta_tracker entry.msg in
          let (top, behind) =
            behind-IsValid lo s entry heap (suppresses fl s.dedup entry).0 given.0 s.collapsed h
              v in
          let same : entry.us ≡ merge_micros fl given.1 tick =
            top.timed ∙ sym (apply_global_delta-micros s.delta_scope s.delta_tracker entry.msg) in
          rw (← same) (top.above, behind))
        s₀ v₀

  gathered :
      (lo n : ℕ) (r : MergedRecordIter F × Row F MieError)
      → Outcome lo r
      → ((lo : ℕ) (s : MergedRecordIter F)
          → IsValid fl tick lo s
          → IsAscending fl tick lo (drain fl n s))
      → IsAscending fl tick lo (gather_rows (drain fl n) r)
  gathered lo n (s, row (ok m)) v ih = (v.0, ih (merge_micros fl m tick) s v.1)
  gathered lo n (s, row (err e)) v ih = ih lo s v
  gathered lo n (s, end) v ih = tt
  gathered lo n (s, exhausted) v ih = tt

  -- From a valid state on, the calls of `next` give records in the order of time.
  pub drain-IsAscending :
      (n lo : ℕ) (s : MergedRecordIter F)
      → IsValid fl tick lo s
      → IsAscending fl tick lo (drain fl n s)
  unfolding drain
  drain-IsAscending zero lo s v = tt
  drain-IsAscending (suc n) lo s v =
      gathered lo n (next fl s) (next-Outcome lo s v) (drain-IsAscending n)

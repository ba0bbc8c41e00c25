-- ===== src/Merge/Step/Loop.antt =====
-- The loop of the merge's `next` in rust/src/merge.rs: it returns, and how to reason of it.
use mie_decoder.Common.{
  ℕ, zero, suc, ◌+◌, ◌*◌, ◌%◌, ◌^◌, ◌≤◌, ◌<◌, ◌≡◌, refl, ap, inl, inr, Bool, true, false, ◌&&◌,
  ◌||◌, not, Option, none, some, List, [], ◌∷◌, arith, Bool-cases, Option-cases, if_intro, length,
  get_elem?, set, insert_sorted,
}
use mie_decoder.Models.Timestamp.{Floats}
use mie_decoder.Models.Message.{MieMessage, Item, ok, err, Row, row}
use mie_decoder.Error.{MieError, kind}
use mie_decoder.Merge.Dedup.{DedupWindow}
use mie_decoder.Merge.State.{
  Input, HeapEntry, MergedRecordIter, entry_le, push_entry, push_record, merge_micros,
}
use mie_decoder.Merge.Step.{
  is_backward, is_sync_loss, backward_error, apply_global_delta, advance_by, advance, suppresses,
  behind_duplicate, behind_record, finish, serve, next_merged, unread, next,
}

unread-set :
    {F : Type 0} (inputs : List (Input F)) (f : ℕ) (old input : Input F)
    → get_elem? inputs f ≡ some old
    → unread (set inputs f input) + length old.iter ≡ unread inputs + length input.iter
unfolding unread
unread-set [] f old input h = cc
unread-set (x ∷ inputs) zero old input h = ground arith
unread-set (x ∷ inputs) (suc f) old input h = omega (arith, unread-set inputs f old input h)

length-insert_sorted :
    {A : Type 0} (le : A → A → Bool) (x : A) (xs : List A)
    → length (insert_sorted le x xs) ≡ suc (length xs)
unfolding insert_sorted
length-insert_sorted le x [] = refl
length-insert_sorted le x (y ∷ ys) = ground (arith, length-insert_sorted le x ys)

abbrev pub pending : {E : Type 0} → Option E → ℕ
pending none = 0
pending (some e) = 1

pending_le : {E : Type 0} (e : Option E) → pending e ≤ 1
pending_le none = omega arith
pending_le (some e) = omega arith

module _ {F : Type 0} where
  -- The rounds that a call may take.
  abbrev pub waiting : MergedRecordIter F → ℕ
  waiting s = unread s.inputs + length s.heap

  -- At least the calls that still give something: every unread record may leave an error as well.
  abbrev pub remaining : MergedRecordIter F → ℕ
  remaining s =
      2 * unread s.inputs + length s.heap + (pending s.pending_error + pending s.pending_terminal)

  -- A step that brings no more to do.
  abbrev pub Shrinks : MergedRecordIter F → MergedRecordIter F → Type 0
  Shrinks s' s = (waiting s' ≤ waiting s) × (remaining s' ≤ remaining s)

  push_record-Shrinks :
      (s : MergedRecordIter F) (f : ℕ) (old input : Input F) (us : ℕ) (msg : MieMessage F)
      (rest : List (Item F MieError)) (p : Option MieError)
      → get_elem? s.inputs f ≡ some old
      → length old.iter ≡ suc (length rest)
      → Shrinks (push_record (record s { pending_error = p }) f input us msg rest) s
  unfolding push_record push_entry
  push_record-Shrinks s f old input us msg rest p h n =
      let entry : HeapEntry F = record {
        us = us;
        file_index = f;
        seq = input.next_seq;
        msg = msg;
      } in
      let fewer =
        unread-set s.inputs f old
          (record input { iter = rest; next_seq = input.next_seq + 1; prev_us = some us }) h in
      let grown = length-insert_sorted entry_le entry s.heap in
      (omega (arith, fewer, grown, n), omega (arith, fewer, grown, n, pending_le p))

module _ (fl : Floats) where
  open fl use {F}

  advance_by-Shrinks :
      (s : MergedRecordIter F) (f : ℕ) (input : Input F) (items : List (Item F MieError))
      → get_elem? s.inputs f ≡ some input
      → input.iter ≡ items
      → Shrinks (advance_by fl s f input items) s
  unfolding advance_by
  advance_by-Shrinks s f input [] h e = (omega arith, omega arith)
  advance_by-Shrinks s f input (ok msg ∷ rest) h e =
      let us = merge_micros fl msg s.tick in
      push_record-Shrinks s f input
        (record input {
          warned_backward = input.warned_backward || (is_backward input.prev_us us && not s.strict);
        })
        us msg rest (backward_error s.strict f input us s.pending_error) h (ap length e)
  advance_by-Shrinks s f input (err e ∷ rest) h n =
      let fewer = unread-set s.inputs f input (record input { iter = rest }) h in
      if_intro (λ s'. Shrinks s' s) (s.allow_partial && is_sync_loss (kind e)) _ _
        (λ lost. (omega (arith, fewer, ap length n), omega (arith, fewer, ap length n)))
        (λ fails. (omega (arith, fewer, ap length n), omega (arith, fewer, ap length n)))

  pub advance-Shrinks : (s : MergedRecordIter F) (f : ℕ) → Shrinks (advance fl s f) s
  unfolding advance
  advance-Shrinks s f = elim (Option-cases (get_elem? s.inputs f)) [
    | inl e ↦ rw (advance, e) (omega arith, omega arith)
    | inr (input, e) ↦ rw (advance, e) (advance_by-Shrinks s f input input.iter e refl)
  ]

  -- The state of a round once an entry is off the heap.
  abbrev pub popped :
      MergedRecordIter F → Option DedupWindow → List (HeapEntry F) → MergedRecordIter F
  popped s dedup heap = record s { heap = heap; dedup = dedup }

  -- A way to reason of a call: what the rounds keep (`P`) and what the call says in the end (`Q`).
  module _ (P : MergedRecordIter F → Type 0) (Q : MergedRecordIter F × Row F MieError → Type 0)
      (fails : (s : MergedRecordIter F) (e : MieError)
        → P s
        → s.pending_error ≡ some e
        → Q (record s { pending_error = none }, row (err e)))
      (ends : (s : MergedRecordIter F)
        → P s
        → s.pending_error ≡ none
        → s.heap ≡ []
        → Q (finish fl s s.pending_terminal))
      (skips : (s : MergedRecordIter F) (entry : HeapEntry F) (heap : List (HeapEntry F))
        → P s
        → s.heap ≡ entry ∷ heap
        → (suppresses fl s.dedup entry).1 ≡ true
        → P (behind_duplicate fl (popped s (suppresses fl s.dedup entry).0 heap) entry))
      (gives : (s : MergedRecordIter F) (entry : HeapEntry F) (heap : List (HeapEntry F))
        → P s
        → s.heap ≡ entry ∷ heap
        → (suppresses fl s.dedup entry).1 ≡ false
        → (let given = apply_global_delta fl s.delta_scope s.delta_tracker entry.msg in
            Q (
              behind_record fl (popped s (suppresses fl s.dedup entry).0 heap) given.0 entry,
              row (ok given.1),
            ))) where
    serve-Sound :
        (fuel : ℕ)
        → ((s : MergedRecordIter F) → P s → waiting s < fuel → Q (next_merged fl fuel s))
        → (s : MergedRecordIter F) (p : Option MieError) (heap : List (HeapEntry F)) → P s
        → waiting s < suc fuel
        → s.pending_error ≡ p
        → s.heap ≡ heap
        → Q (serve fl (next_merged fl fuel) s p heap)
    unfolding serve behind_duplicate
    serve-Sound fuel more s (some e) heap v w hp hh = fails s e v hp
    serve-Sound fuel more s none [] v w hp hh = ends s v hp hh
    serve-Sound fuel more s none (entry ∷ heap) v w hp hh =
        elim (Bool-cases (suppresses fl s.dedup entry).1) [
          | inl y ↦ rw y (
              more (behind_duplicate fl (popped s (suppresses fl s.dedup entry).0 heap) entry)
                (skips s entry heap v hh y)
                (omega (
                  arith,
                  ap length hh,
                  (advance-Shrinks
                      (record (popped s (suppresses fl s.dedup entry).0 heap) {
                        collapsed = (s.collapsed + 1) % 2 ^ 64;
                      })
                      entry.file_index).0,
                )))
          | inr n ↦ rw n (gives s entry heap v hh n)
        ]

    next_merged-Sound :
        (fuel : ℕ) (s : MergedRecordIter F) → P s → waiting s < fuel → Q (next_merged fl fuel s)
    unfolding next_merged
    next_merged-Sound zero s v w = absurd (omega arith)
    next_merged-Sound (suc fuel) s v w =
        serve-Sound fuel (next_merged-Sound fuel) s s.pending_error s.heap v w refl refl

    pub next-Sound : (s : MergedRecordIter F) → P s → Q (next fl s)
    unfolding next
    next-Sound s v = next_merged-Sound (unread s.inputs + length s.heap + 1) s v (omega arith)

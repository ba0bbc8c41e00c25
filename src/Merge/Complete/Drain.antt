-- ===== src/Merge/Complete/Drain.antt =====
-- The calls of the merge's `next` of rust/src/merge.rs give what the merge still reads.
use mathlib.Core.List.{Perm}
use mathlib.Core.List.Perm
use mie_decoder.Common.{
  ℕ, zero, suc, ◌+◌, ◌<◌, ◌≡◌, refl, ap, inl, inr, ◌&&◌, ◌||◌, not, Option, none, some, List, [],
  ◌∷◌, ◌++◌, arith, Option-cases, if_intro, get_elem?, set,
}
use mie_decoder.Models.Timestamp.{Floats}
use mie_decoder.Models.Message.{MieMessage, Item, ok, err, Row, row, end, exhausted}
use mie_decoder.Models.Message.Drain.{until_error, gather_rows}
use mie_decoder.Error.{MieError, kind}
use mie_decoder.Merge.State.{
  per_file, Input, HeapEntry, MergedRecordIter, push_record, merge_micros,
}
use mie_decoder.Merge.Step.{
  is_sync_loss, is_backward, backward_error, apply_global_delta, advance_by, advance, suppresses,
  behind_record, finish, next,
}
use mie_decoder.Merge.Step.Loop.{next-Sound, remaining}
use mie_decoder.Merge.Step.Progress.{drain, Outcome, next-Outcome}
use mie_decoder.Merge.Complete.{
  records, ahead, readable, IsOther, IsDistinct, push_entry-IsDistinct, readable-push_entry,
  ahead_get, ahead-none, ahead-set_self, readable-set, Reads,
}

module _ {F : Type 0} where
  -- A state behind the pop of an entry of file `f`, which still gives these records.
  pub record IsPopped (s : MergedRecordIter F) (f : ℕ) (items : List (Item F MieError))
      (msgs : List (MieMessage F)) : Type 0 where
    pub keeps : s.dedup ≡ none
    pub scope : s.delta_scope ≡ per_file
    pub others : IsOther f s.heap
    pub distinct : IsDistinct s.heap
    pub all : Perm (until_error items ++ readable s.inputs s.heap) msgs

  pub push_record-Reads :
      (s : MergedRecordIter F) (f : ℕ) (old input : Input F) (us : ℕ) (msg : MieMessage F)
      (rest : List (Item F MieError)) (p : Option MieError) (msgs : List (MieMessage F))
      → get_elem? s.inputs f ≡ some old
      → IsPopped s f (ok msg ∷ rest) msgs
      → Reads (push_record (record s { pending_error = p }) f input us msg rest) msgs
  unfolding push_record
  push_record-Reads s f old input us msg rest p msgs h v =
      let newer = record input { iter = rest; next_seq = input.next_seq + 1; prev_us = some us } in
      let entry : HeapEntry F = record {
        us = us;
        file_index = f;
        seq = input.next_seq;
        msg = msg;
      } in
      let front =
        rw (ahead-set_self s.inputs f old newer h, readable-set s.inputs f newer s.heap v.others) at
          (readable-push_entry (set s.inputs f newer) entry s.heap) in
      record {
        keeps = v.keeps;
        scope = v.scope;
        distinct = push_entry-IsDistinct entry s.heap v.others v.distinct;
        all = Perm.trans front v.all;
      }

module _ (fl : Floats) where
  open fl use {F}

  advance_by-Reads :
      (s : MergedRecordIter F) (f : ℕ) (input : Input F) (items : List (Item F MieError))
      (msgs : List (MieMessage F))
      → get_elem? s.inputs f ≡ some input
      → IsPopped s f items msgs
      → Reads (advance_by fl s f input items) msgs
  unfolding advance_by
  advance_by-Reads s f input [] msgs h v = record {
    keeps = v.keeps;
    scope = v.scope;
    distinct = v.distinct;
    all = v.all;
  }
  advance_by-Reads s f input (ok msg ∷ rest) msgs h v =
      let us = merge_micros fl msg s.tick in
      push_record-Reads s f input
        (record input {
          warned_backward = input.warned_backward || (is_backward input.prev_us us && not s.strict);
        })
        us msg rest (backward_error s.strict f input us s.pending_error) msgs h v
  advance_by-Reads s f input (err e ∷ rest) msgs h v =
      let all =
        rw (← readable-set s.inputs f (record input { iter = rest }) s.heap v.others) at v.all in
      if_intro (λ s'. Reads s' msgs) (s.allow_partial && is_sync_loss (kind e)) _ _
        (λ lost. record { keeps = v.keeps; scope = v.scope; distinct = v.distinct; all = all })
        (λ fails. record { keeps = v.keeps; scope = v.scope; distinct = v.distinct; all = all })

  advance-Reads :
      (s : MergedRecordIter F) (f : ℕ) (msgs : List (MieMessage F))
      → s.dedup ≡ none
      → s.delta_scope ≡ per_file
      → IsOther f s.heap
      → IsDistinct s.heap
      → Perm (ahead s.inputs f ++ readable s.inputs s.heap) msgs
      → Reads (advance fl s f) msgs
  unfolding advance
  advance-Reads s f msgs k c o d all = elim (Option-cases (get_elem? s.inputs f)) [
    | inl e ↦
        rw (advance, e)
          (record { keeps = k; scope = c; distinct = d; all = rw (ahead-none s.inputs f e) at all })
    | inr (input, e) ↦
        rw (advance, e)
          (advance_by-Reads s f input input.iter msgs e (record {
            keeps = k;
            scope = c;
            others = o;
            distinct = d;
            all = rw (ahead_get s.inputs f input e) at all;
          }))
  ]

  -- What a call says of the records that the merge still gives.
  abbrev Gives : List (MieMessage F) → MergedRecordIter F × Row F MieError → Type 0
  Gives msgs (s, row (ok m)) = (ms : List (MieMessage F)) × (Perm (m ∷ ms) msgs × Reads s ms)
  Gives msgs (s, row (err e)) = Reads s msgs
  Gives msgs (s, end) = Perm [] msgs
  Gives msgs (s, exhausted) = Unit {0}

  finish-Gives :
      (msgs : List (MieMessage F)) (s : MergedRecordIter F) (e : Option MieError)
      → s.heap ≡ []
      → Reads s msgs
      → Gives msgs (finish fl s e)
  finish-Gives msgs s none h v = rw h at v.all
  finish-Gives msgs s (some e) h v = record {
    keeps = v.keeps;
    scope = v.scope;
    distinct = v.distinct;
    all = v.all;
  }

  next-Gives :
      (msgs : List (MieMessage F)) (s : MergedRecordIter F) → Reads s msgs → Gives msgs (next fl s)
  unfolding behind_record suppresses apply_global_delta
  next-Gives msgs s₀ v₀ =
      next-Sound fl (λ s. Reads s msgs) (Gives msgs)
        (λ s e v p. record { keeps = v.keeps; scope = v.scope; distinct = v.distinct; all = v.all })
        (λ s v p h. finish-Gives msgs s s.pending_terminal h v)
        (λ s entry heap v h y. cc (y, ap (λ d. (suppresses fl d entry).1) v.keeps))
        (λ s entry heap v h n.
          let all = rw h at v.all in
          let others = rw h at v.distinct in
          let ms = ahead s.inputs entry.file_index ++ readable s.inputs heap in
          rw (v.keeps, v.scope)
            (
              ms,
              (
                all,
                advance-Reads (record s { heap = heap; dedup = none; delta_scope = per_file })
                    entry.file_index ms refl refl others.0 others.1 Perm.rfl,
              ),
            ))
        s₀ v₀

  drain_row :
      (n : ℕ) (msgs : List (MieMessage F)) (s₀ : MergedRecordIter F)
      (r : MergedRecordIter F × Row F MieError)
      → Outcome s₀ r
      → Gives msgs r
      → remaining s₀ < suc n
      → ((msgs : List (MieMessage F)) (s : MergedRecordIter F)
          → Reads s msgs
          → remaining s < n
          → Perm (records (drain fl n s)) msgs)
      → Perm (records (gather_rows (drain fl n) r)) msgs
  drain_row n msgs s₀ (s, row (ok m)) less (ms, (all, v)) w ih =
      Perm.trans (Perm.cons m (ih ms s v (omega arith))) all
  drain_row n msgs s₀ (s, row (err e)) less v w ih = ih msgs s v (omega arith)
  drain_row n msgs s₀ (s, end) less all w ih = all
  drain_row n msgs s₀ (s, exhausted) less all w ih = absurd less

  -- Calls of `next`, more than are left, give exactly the records that the state still reads.
  pub drain-Reads :
      (n : ℕ) (msgs : List (MieMessage F)) (s : MergedRecordIter F)
      → Reads s msgs
      → remaining s < n
      → Perm (records (drain fl n s)) msgs
  unfolding drain
  drain-Reads zero msgs s v w = absurd (omega arith)
  drain-Reads (suc n) msgs s v w =
      drain_row n msgs s (next fl s) (next-Outcome fl s) (next-Gives msgs s v) w (drain-Reads n)

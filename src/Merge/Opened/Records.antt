-- ===== src/Merge/Opened/Records.antt =====
-- The merge that `new` of rust/src/merge.rs makes reads every file up to its first error.
use Prim.Native.String.{String}
use mathlib.Core.List.{Perm}
use mathlib.Core.List.Perm
use mie_decoder.Common.{
  ℕ, ◌+◌, ◌<◌, ◌≡◌, refl, ap, ◌≢◌, inr, Bool, Option, none, some, List, [], ◌∷◌, ◌++◌, arith,
  get_elem?, set, append-nil, append_assoc, insert_sorted-All, All, All-implies, exchange,
}
use mie_decoder.Models.Timestamp.{Floats}
use mie_decoder.Models.Message.{MieMessage, Item, ok, err}
use mie_decoder.Models.Message.Drain.{until_error}
use mie_decoder.Error.{MieError}
use mie_decoder.Merge.State.{
  per_file, Input, HeapEntry, MergedRecordIter, entry_le, push_entry, push_record, merge_micros,
  fresh_inputs, new,
}
use mie_decoder.Merge.Step.Loop.{remaining}
use mie_decoder.Merge.Step.Progress.{drain}
use mie_decoder.Merge.Priming.{Made, prime-Made}
use mie_decoder.Merge.Complete.{records, readable, IsOther, IsDistinct, readable-set}
use mie_decoder.Merge.Complete.Drain.{push_record-Reads, drain-Reads}

module _ {F : Type 0} where
  abbrev in_walk : List (Input F) → List (MieMessage F)
  in_walk [] = []
  in_walk (input ∷ walk) = until_error input.iter ++ in_walk walk

  -- The records of the files, of each up to its first error.
  abbrev pub in_files : List (String × List (Item F MieError)) → List (MieMessage F)
  in_files [] = []
  in_files ((path, items) ∷ readers) = until_error items ++ in_files readers

  -- Before file `idx`: what is on the heap is of the files before, and these are the records of all.
  record IsPrimed (msgs : List (MieMessage F)) (idx : ℕ) (walk : List (Input F))
      (s : MergedRecordIter F) : Type 0 where
    keeps : s.dedup ≡ none
    scope : s.delta_scope ≡ per_file
    distinct : IsDistinct s.heap
    below : All (λ (e : HeapEntry F). e.file_index < idx) s.heap
    all : Perm (readable s.inputs s.heap ++ in_walk walk) msgs

  below_suc :
      (idx : ℕ) (heap : List (HeapEntry F))
      → All (λ (e : HeapEntry F). e.file_index < idx) heap
      → All (λ (e : HeapEntry F). e.file_index < idx + 1) heap
  below_suc idx heap h =
      All-implies (λ (e : HeapEntry F). e.file_index < idx)
        (λ (e : HeapEntry F). e.file_index < idx + 1) heap (λ e w. omega arith) h

  below-IsOther :
      (idx : ℕ) (heap : List (HeapEntry F))
      → All (λ (e : HeapEntry F). e.file_index < idx) heap
      → IsOther idx heap
  below-IsOther idx heap h =
      All-implies (λ (e : HeapEntry F). e.file_index < idx)
        (λ (e : HeapEntry F). e.file_index ≢ idx) heap (λ e w. omega arith) h

  -- A file's first record moves to the heap.
  moved :
      (front mine others back msgs : List (MieMessage F))
      → Perm front (mine ++ others)
      → Perm (others ++ (mine ++ back)) msgs
      → Perm (front ++ back) msgs
  moved front mine others back msgs p all =
      Perm.trans (rw (append_assoc mine others back) at (Perm.append p (Perm.rfl {l = back})))
        (Perm.trans (exchange mine others back) all)

module _ (fl : Floats) where
  open fl use {F}

  push_record-IsPrimed :
      (msgs : List (MieMessage F)) (s : MergedRecordIter F) (idx : ℕ) (input : Input F)
      (walk : List (Input F)) (us : ℕ) (msg : MieMessage F) (rest : List (Item F MieError))
      → input.iter ≡ ok msg ∷ rest
      → get_elem? s.inputs idx ≡ some input
      → IsPrimed msgs idx (input ∷ walk) s
      → IsPrimed msgs (idx + 1) walk (push_record s idx input us msg rest)
  unfolding push_record push_entry
  push_record-IsPrimed msgs s idx input walk us msg rest e h v =
      let mine = until_error (ok msg ∷ rest) in
      let others = readable s.inputs s.heap in
      let entry : HeapEntry F = record {
        us = us;
        file_index = idx;
        seq = input.next_seq;
        msg = msg;
      } in
      let reads =
        push_record-Reads s idx input input us msg rest s.pending_error (mine ++ others) h (record {
          keeps = v.keeps;
          scope = v.scope;
          others = below-IsOther idx s.heap v.below;
          distinct = v.distinct;
          all = Perm.rfl;
        }) in
      record {
        keeps = v.keeps;
        scope = v.scope;
        distinct = reads.distinct;
        below =
            insert_sorted-All entry_le (λ (e : HeapEntry F). e.file_index < idx + 1) entry s.heap
              (omega arith) (below_suc idx s.heap v.below);
        all = moved _ mine others (in_walk walk) msgs reads.all (rw e at v.all);
      }

  truncated-IsPrimed :
      (msgs : List (MieMessage F)) (s : MergedRecordIter F) (idx : ℕ) (input : Input F)
      (walk : List (Input F)) (e : MieError) (rest : List (Item F MieError)) (t : Option MieError)
      → input.iter ≡ err e ∷ rest
      → IsPrimed msgs idx (input ∷ walk) s
      → IsPrimed msgs (idx + 1) walk (record s {
        inputs = set s.inputs idx (record input { iter = rest });
        pending_terminal = t;
      })
  truncated-IsPrimed msgs s idx input walk e rest t n v = record {
    keeps = v.keeps;
    scope = v.scope;
    distinct = v.distinct;
    below = below_suc idx s.heap v.below;
    all =
        rw
          (readable-set s.inputs idx (record input { iter = rest }) s.heap
            (below-IsOther idx s.heap v.below))
          (rw n at v.all);
  }

  empty-IsPrimed :
      (msgs : List (MieMessage F)) (s : MergedRecordIter F) (idx : ℕ) (input : Input F)
      (walk : List (Input F))
      → input.iter ≡ []
      → IsPrimed msgs idx (input ∷ walk) s
      → IsPrimed msgs (idx + 1) walk s
  empty-IsPrimed msgs s idx input walk e v = record {
    keeps = v.keeps;
    scope = v.scope;
    distinct = v.distinct;
    below = below_suc idx s.heap v.below;
    all = rw e at v.all;
  }

  in_walk-fresh_inputs :
      (readers : List (String × List (Item F MieError)))
      → in_walk (fresh_inputs fl readers) ≡ in_files readers
  in_walk-fresh_inputs [] = refl
  in_walk-fresh_inputs ((path, items) ∷ readers) =
      ap (λ l. until_error items ++ l) (in_walk-fresh_inputs readers)

  new-IsPrimed :
      (readers : List (String × List (Item F MieError))) (tick : Option F)
      (allow_partial strict : Bool)
      → Made (IsPrimed (in_files readers)) (new fl readers tick allow_partial strict)
  unfolding new
  new-IsPrimed readers tick p st =
      prime-Made fl (IsPrimed (in_files readers))
        (λ idx input walk s e v. empty-IsPrimed (in_files readers) s idx input walk e v)
        (λ idx input walk s msg rest e h v.
          push_record-IsPrimed (in_files readers) s idx input walk (merge_micros fl msg s.tick) msg
            rest e h v)
        (λ idx input walk s e rest n h v.
          truncated-IsPrimed (in_files readers) s idx input walk e rest _ n v)
        0 (fresh_inputs fl readers) _ ([], refl, refl)
        (record {
          keeps = refl;
          scope = refl;
          distinct = tt;
          below = tt;
          all = rw (in_walk-fresh_inputs readers) Perm.rfl;
        })

  -- Without the suppression of duplicates and with `DELTA` as each file has it, the calls of `next`,
  -- more than are left, give every record of every file that stands before the file's first error,
  -- each once and unchanged.
  pub merge-records :
      (readers : List (String × List (Item F MieError))) (tick : Option F)
      (allow_partial strict : Bool) (n : ℕ) (s : MergedRecordIter F)
      → new fl readers tick allow_partial strict ≡ inr s
      → remaining s < n
      → Perm (records (drain fl n s)) (in_files readers)
  merge-records readers tick p st n s e w =
      let (idx, v) = rw e at (new-IsPrimed readers tick p st) in
      drain-Reads fl n (in_files readers) s
        (record {
          keeps = v.keeps;
          scope = v.scope;
          distinct = v.distinct;
          all = rw (append-nil (readable s.inputs s.heap)) at v.all;
        })
        w

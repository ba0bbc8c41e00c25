-- ===== src/Merge/Opened.antt =====
-- The merge that `new` of rust/src/merge.rs makes of ascending files gives the records in order.
pub mod Accepts
pub mod Records
use Prim.Native.String.{String}
use mie_decoder.Common.{
  ℕ, ◌≡◌, refl, ap, inr, Bool, Option, some, List, [], ◌∷◌, arith, get_elem?, set, All, All-set,
  All-get_elem?,
}
use mie_decoder.Models.Timestamp.{Floats}
use mie_decoder.Models.Message.{MieMessage, Item, ok, err}
use mie_decoder.Error.{MieError}
use mie_decoder.Merge.State.{
  DeltaScope, Input, MergedRecordIter, push_record, merge_micros, fresh_inputs, new, collapse,
  with_delta_scope,
}
use mie_decoder.Merge.Step.Progress.{drain}
use mie_decoder.Merge.Priming.{Made, prime-Made}
use mie_decoder.Merge.Ascends.{reached, IsAscending, IsValid, IsEntry-set, push_record-IsValid}
use mie_decoder.Merge.InOrder.{drain-IsAscending}

module _ (fl : Floats) (tick : Option fl.F) where
  open fl use {F}

  fresh_inputs-All :
      (readers : List (String × List (Item F MieError)))
      → All (λ (r : String × List (Item F MieError)). IsAscending fl tick 0 r.1) readers
      → All
          (λ (i : Input F). IsAscending fl tick (reached i.prev_us) i.iter)
          (fresh_inputs fl readers)
  fresh_inputs-All [] h = tt
  fresh_inputs-All ((path, items) ∷ readers) h = (h.0, fresh_inputs-All readers h.1)

  primed-IsValid :
      (s : MergedRecordIter F) (idx : ℕ) (input : Input F) (msg : MieMessage F)
      (rest : List (Item F MieError))
      → input.iter ≡ ok msg ∷ rest
      → get_elem? s.inputs idx ≡ some input
      → IsValid fl tick 0 s
      → IsValid fl tick 0 (push_record s idx input (merge_micros fl msg s.tick) msg rest)
  primed-IsValid s idx input msg rest e h v =
      let same : merge_micros fl msg s.tick ≡ merge_micros fl msg tick =
        ap (merge_micros fl msg) v.ticks in
      let ahead =
        All-get_elem? (λ (i : Input F). IsAscending fl tick (reached i.prev_us) i.iter) s.inputs idx
          input v.ascending h in
      let there = rw e at ahead in
      push_record-IsValid fl tick 0 s idx input input (merge_micros fl msg s.tick) msg rest
        s.pending_error h same (omega (arith, same, there.0)) (omega arith) (rw same there.1) v

  truncated-IsValid :
      (s : MergedRecordIter F) (idx : ℕ) (input : Input F) (e : MieError)
      (rest : List (Item F MieError)) (t : Option MieError)
      → input.iter ≡ err e ∷ rest
      → get_elem? s.inputs idx ≡ some input
      → IsValid fl tick 0 s
      → IsValid fl tick 0 (record s {
        inputs = set s.inputs idx (record input { iter = rest });
        pending_terminal = t;
      })
  truncated-IsValid s idx input e rest t n h v =
      let shorter = record input { iter = rest } in
      let ahead =
        All-get_elem? (λ (i : Input F). IsAscending fl tick (reached i.prev_us) i.iter) s.inputs idx
          input v.ascending h in
      record {
        ticks = v.ticks;
        ascending =
            All-set (λ (i : Input F). IsAscending fl tick (reached i.prev_us) i.iter) s.inputs idx
              shorter v.ascending (rw n at ahead);
        sorted = v.sorted;
        entries = IsEntry-set fl tick 0 s.inputs idx input shorter s.heap h (omega arith) v.entries;
      }

  new-IsValid :
      (readers : List (String × List (Item F MieError))) (allow_partial strict : Bool)
      → All (λ (r : String × List (Item F MieError)). IsAscending fl tick 0 r.1) readers
      → Made (λ idx walk s. IsValid fl tick 0 s) (new fl readers tick allow_partial strict)
  unfolding new
  new-IsValid readers p st h =
      prime-Made fl (λ idx walk s. IsValid fl tick 0 s) (λ idx input walk s e v. v)
        (λ idx input walk s msg rest e g v. primed-IsValid s idx input msg rest e g v)
        (λ idx input walk s e rest n g v. truncated-IsValid s idx input e rest _ n g v) 0
        (fresh_inputs fl readers) _ ([], refl, refl)
        (record { ticks = refl; ascending = fresh_inputs-All readers h; sorted = tt; entries = tt })

  -- When the records of every file ascend, those of the merge do, whether it suppresses duplicates
  -- or not and wherever `DELTA` is measured, for any number of calls of `next`.
  pub merge-IsAscending :
      (readers : List (String × List (Item F MieError))) (allow_partial strict enabled : Bool)
      (window_us n : ℕ) (scope : DeltaScope) (s : MergedRecordIter F)
      → new fl readers tick allow_partial strict ≡ inr s
      → All (λ (r : String × List (Item F MieError)). IsAscending fl tick 0 r.1) readers
      → IsAscending fl tick 0 (drain fl n (with_delta_scope (collapse s enabled window_us) scope))
  unfolding collapse with_delta_scope
  merge-IsAscending readers p st enabled w n scope s e h =
      let (idx, v) = rw e at (new-IsValid readers p st h) in
      drain-IsAscending fl tick n 0 (with_delta_scope (collapse s enabled w) scope) (record {
        ticks = v.ticks;
        ascending = v.ascending;
        sorted = v.sorted;
        entries = v.entries;
      })

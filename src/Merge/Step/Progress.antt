-- ===== src/Merge/Step/Progress.antt =====
-- Every call of the merge's `next` of rust/src/merge.rs returns, and the calls come to an end.
use mie_decoder.Common.{
  ℕ, zero, suc, ◌+◌, ◌%◌, ◌^◌, ◌≤◌, ◌<◌, ◌≡◌, refl, ap, Option, none, some, List, [], ◌∷◌, arith,
  length,
}
use mie_decoder.Models.Timestamp.{Floats}
use mie_decoder.Models.Message.{Item, Row, row, end, exhausted}
use mie_decoder.Models.Message.Drain.{gather_rows}
use mie_decoder.Error.{MieError}
use mie_decoder.Merge.State.{MergedRecordIter}
use mie_decoder.Merge.Step.{
  apply_global_delta, suppresses, behind_duplicate, behind_record, finish, next,
}
use mie_decoder.Merge.Step.Loop.{remaining, pending, advance-Shrinks, popped, next-Sound}

module _ {F : Type 0} where
  -- Nothing is left to give.
  pub record IsSpent (s : MergedRecordIter F) : Type 0 where
    pub heap : s.heap ≡ []
    pub pending_error : s.pending_error ≡ none
    pub pending_terminal : s.pending_terminal ≡ none

  -- What a call says: after an item less is left, and the end comes when nothing is left.
  abbrev pub Outcome : MergedRecordIter F → MergedRecordIter F × Row F MieError → Type 0
  Outcome s (s', row i) = remaining s' < remaining s
  Outcome s (s', end) = IsSpent s'
  Outcome s (s', exhausted) = ⊥

module _ (fl : Floats) where
  open fl use {F}

  finish-Outcome :
      (s₀ s : MergedRecordIter F) (e : Option MieError)
      → remaining s ≤ remaining s₀
      → s.pending_terminal ≡ e
      → s.pending_error ≡ none
      → s.heap ≡ []
      → Outcome s₀ (finish fl s e)
  unfolding remaining
  finish-Outcome s₀ s none w t p h = record { heap = h; pending_error = p; pending_terminal = t }
  finish-Outcome s₀ s (some e) w t p h = omega (arith, ap pending t)

  -- Every call returns: it gives an item and less is left, or it ends and nothing is left.
  pub next-Outcome : (s : MergedRecordIter F) → Outcome s (next fl s)
  unfolding remaining behind_duplicate behind_record
  next-Outcome s₀ =
      next-Sound fl (λ s. remaining s ≤ remaining s₀) (Outcome s₀)
        (λ s e v p. omega (arith, ap pending p))
        (λ s v p h. finish-Outcome s₀ s s.pending_terminal v refl p h)
        (λ s entry heap v h y. omega (
          arith,
          ap length h,
          (advance-Shrinks fl
              (record (popped fl s (suppresses fl s.dedup entry).0 heap) {
                collapsed = (s.collapsed + 1) % 2 ^ 64;
              })
              entry.file_index).1,
        ))
        (λ s entry heap v h n. omega (
          arith,
          ap length h,
          (advance-Shrinks fl
              (record (popped fl s (suppresses fl s.dedup entry).0 heap) {
                delta_tracker = (apply_global_delta fl s.delta_scope s.delta_tracker entry.msg).0;
              })
              entry.file_index).1,
        ))
        s₀ (omega arith)

  -- Calls of `next` until it ends, on fuel.
  unfoldable pub drain : ℕ → MergedRecordIter F → List (Item F MieError)
  drain zero s = []
  drain (suc n) s = gather_rows (drain n) (next fl s)

  drain_row :
      (n : ℕ) (s₀ : MergedRecordIter F) (r : MergedRecordIter F × Row F MieError)
      → Outcome s₀ r
      → remaining s₀ < suc n
      → ((s : MergedRecordIter F) → remaining s < n → drain (suc n) s ≡ drain n s)
      → gather_rows (drain (suc n)) r ≡ gather_rows (drain n) r
  drain_row n s₀ (s, row i) less w more = ap (λ l. i ∷ l) (more s (omega arith))
  drain_row n s₀ (s, end) less w more = refl
  drain_row n s₀ (s, exhausted) less w more = absurd less

  -- More fuel changes nothing once there is more than is left to give.
  pub drain_enough :
      (n : ℕ) (s : MergedRecordIter F) → remaining s < n → drain (suc n) s ≡ drain n s
  unfolding drain
  drain_enough zero s w = absurd (omega arith)
  drain_enough (suc n) s w = drain_row n s (next fl s) (next-Outcome s) w (drain_enough n)

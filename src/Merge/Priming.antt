-- ===== src/Merge/Priming.antt =====
-- The loop of `new` in rust/src/merge.rs, which takes the first record of every file.
use mie_decoder.Common.{
  ℕ, ◌+◌, ◌≡◌, refl, sym, ap, ◌∙◌, ◌⊎◌, inl, inr, Option, none, some, List, [], ◌∷◌, ◌++◌, arith,
  if_intro, length, get_elem?, set, length-append, append_assoc,
}
use mie_decoder.Models.Timestamp.{Floats}
use mie_decoder.Models.Message.{MieMessage, Item, ok, err}
use mie_decoder.Error.{MieError}
use mie_decoder.Merge.State.{
  Input, MergedRecordIter, push_record, merge_micros, check_mergeable, unless_refused, prime_round,
  prime,
}

module _ {F : Type 0} where
  -- The walk stands at file `idx`.
  abbrev pub IsWalk : ℕ → List (Input F) → List (Input F) → Type 0
  IsWalk idx walk inputs =
      (front : List (Input F)) × (inputs ≡ front ++ walk) × (length front ≡ idx)

  get_elem?-front :
      (front : List (Input F)) (input : Input F) (walk : List (Input F))
      → get_elem? (front ++ input ∷ walk) (length front) ≡ some input
  get_elem?-front [] input walk = refl
  get_elem?-front (x ∷ front) input walk = get_elem?-front front input walk

  set-front :
      (front : List (Input F)) (old input : Input F) (walk : List (Input F))
      → set (front ++ old ∷ walk) (length front) input ≡ (front ++ input ∷ []) ++ walk
  set-front [] old input walk = refl
  set-front (x ∷ front) old input walk = ap (λ l. x ∷ l) (set-front front old input walk)

  IsWalk-get_elem? :
      (idx : ℕ) (input : Input F) (walk inputs : List (Input F))
      → IsWalk idx (input ∷ walk) inputs
      → get_elem? inputs idx ≡ some input
  IsWalk-get_elem? idx input walk inputs (front, e, n) =
      rw (e, ← n) (get_elem?-front front input walk)

  IsWalk-set :
      (idx : ℕ) (old input : Input F) (walk inputs : List (Input F))
      → IsWalk idx (old ∷ walk) inputs
      → IsWalk (idx + 1) walk (set inputs idx input)
  IsWalk-set idx old input walk inputs (front, e, n) = (
    front ++ input ∷ [],
    rw (e, ← n) (set-front front old input walk),
    omega (arith, length-append front (input ∷ []), n),
  )

  IsWalk-suc :
      (idx : ℕ) (input : Input F) (walk inputs : List (Input F))
      → IsWalk idx (input ∷ walk) inputs
      → IsWalk (idx + 1) walk inputs
  IsWalk-suc idx input walk inputs (front, e, n) = (
    front ++ input ∷ [],
    e ∙ sym (append_assoc front (input ∷ []) walk),
    omega (arith, length-append front (input ∷ []), n),
  )

  -- A state that was made has the property, whatever the number of files.
  abbrev pub Made :
      (ℕ → List (Input F) → MergedRecordIter F → Type 0) → MieError ⊎ MergedRecordIter F → Type 0
  Made P (inl e) = Unit {0}
  Made P (inr s) = (n : ℕ) × P n [] s

module _ (fl : Floats) where
  open fl use {F}

  -- A way to reason of the loop: what its rounds keep.
  module _ (P : ℕ → List (Input F) → MergedRecordIter F → Type 0)
      (empty : (idx : ℕ) (input : Input F) (walk : List (Input F)) (s : MergedRecordIter F)
        → input.iter ≡ []
        → P idx (input ∷ walk) s
        → P (idx + 1) walk s)
      (primed : (idx : ℕ) (input : Input F) (walk : List (Input F)) (s : MergedRecordIter F)
          (msg : MieMessage F) (rest : List (Item F MieError))
        → input.iter ≡ ok msg ∷ rest
        → get_elem? s.inputs idx ≡ some input
        → P idx (input ∷ walk) s
        → P (idx + 1) walk (push_record s idx input (merge_micros fl msg s.tick) msg rest))
      (truncated : (idx : ℕ) (input : Input F) (walk : List (Input F)) (s : MergedRecordIter F)
          (e : MieError) (rest : List (Item F MieError))
        → input.iter ≡ err e ∷ rest
        → get_elem? s.inputs idx ≡ some input
        → P idx (input ∷ walk) s
        → P (idx + 1) walk (record s {
          inputs = set s.inputs idx (record input { iter = rest });
          pending_terminal = some (MieError.unrecoverable_sync_loss 0 0);
        })) where
    unless_refused-Made :
        (refusal : Option MieError) (later : MieError ⊎ MergedRecordIter F)
        → Made P later
        → Made P (unless_refused fl refusal later)
    unless_refused-Made none later v = v
    unless_refused-Made (some e) later v = tt

    prime_round-Made :
        (idx : ℕ) (input : Input F) (walk : List (Input F)) (s : MergedRecordIter F)
        (items : List (Item F MieError))
        → ((s : MergedRecordIter F)
            → IsWalk (idx + 1) walk s.inputs
            → P (idx + 1) walk s
            → Made P (prime fl (idx + 1) walk s))
        → input.iter ≡ items
        → IsWalk idx (input ∷ walk) s.inputs
        → P idx (input ∷ walk) s
        → Made P (prime_round fl (prime fl (idx + 1) walk) s idx input items)
    unfolding prime_round push_record
    prime_round-Made idx input walk s [] more e w v =
        more s (IsWalk-suc idx input walk s.inputs w) (empty idx input walk s e v)
    prime_round-Made idx input walk s (ok msg ∷ rest) more e w v =
        let us = merge_micros fl msg s.tick in
        unless_refused-Made (check_mergeable msg idx input.path)
          (prime fl (idx + 1) walk (push_record s idx input us msg rest))
          (more (push_record s idx input us msg rest)
            (IsWalk-set idx input
              (record input { iter = rest; next_seq = input.next_seq + 1; prev_us = some us }) walk
              s.inputs w)
            (primed idx input walk s msg rest e (IsWalk-get_elem? idx input walk s.inputs w) v))
    prime_round-Made idx input walk s (err e ∷ rest) more h w v =
        if_intro (Made P) s.allow_partial _ _
          (λ partial.
            more
              (record s {
                inputs = set s.inputs idx (record input { iter = rest });
                pending_terminal = some (MieError.unrecoverable_sync_loss 0 0);
              })
              (IsWalk-set idx input (record input { iter = rest }) walk s.inputs w)
              (truncated idx input walk s e rest h (IsWalk-get_elem? idx input walk s.inputs w) v))
          (λ whole. tt)

    pub prime-Made :
        (idx : ℕ) (walk : List (Input F)) (s : MergedRecordIter F)
        → IsWalk idx walk s.inputs
        → P idx walk s
        → Made P (prime fl idx walk s)
    unfolding prime
    prime-Made idx [] s w v = (idx, v)
    prime-Made idx (input ∷ walk) s w v =
        prime_round-Made idx input walk s input.iter (prime-Made (idx + 1) walk) refl w v

-- ===== src/Writer/Split.antt =====
-- The two loops of rust/src/writer.rs write the same records: `write_csv_split` parts them in two tables.
pub mod Parts
use mie_decoder.Common.{
  ℕ, ◌≡◌, refl, ◌≢◌, ◌⊎◌, inl, inr, Bool, true, false, not, Option, none, some, List, [], ◌∷◌,
  Bool-cases, select,
}
use mie_decoder.Models.Message.{MieMessage, Item, ok, err}
use mie_decoder.Models.Message.Drain.{until_error}
use mie_decoder.Error.{MieError}
use mie_decoder.Writer.Stream.{
  Sink, CsvWriter, and_then, partial_stop, stop_with, is_normal, put, error_writer, split_loop,
}

module _ {F : Type 0} where
  abbrev pub is_errored : MieMessage F → Bool
  is_errored m = not (is_normal m)

  -- How the stream ends: it runs out, or its first error is one at which partial output stops.
  abbrev pub Stops : Bool → List (Item F MieError) → Option (ℕ × ℕ) → Type 0
  Stops partial [] p = p ≡ none
  Stops partial (ok m ∷ items) p = Stops partial items p
  Stops partial (err e ∷ items) p = (partial_stop partial e ≡ p) × (p ≢ none)

  -- The stream fails with this error, at which partial output does not stop.
  abbrev pub Fails : Bool → List (Item F MieError) → MieError → Type 0
  Fails partial [] e = ⊥
  Fails partial (ok m ∷ items) e = Fails partial items e
  Fails partial (err e' ∷ items) e = (e' ≡ e) × (partial_stop partial e' ≡ none)

module _ (sink : Sink) {F : Type 0} (fixed6 : F → List ℕ)
    (created : MieError ⊎ CsvWriter sink.W) where
  open sink use {W}

  -- Records written one behind the other.
  abbrev pub put_all : CsvWriter W → List (MieMessage F) → MieError ⊎ CsvWriter W
  unfolding put
  put_all w [] = inr w
  put_all w (m ∷ ms) = and_then (put sink fixed6 w m) (λ w'. put_all w' ms)

  -- The same, where the writer is made for the first of them.
  abbrev pub put_errors :
      Option (CsvWriter W) → List (MieMessage F) → MieError ⊎ Option (CsvWriter W)
  unfolding put
  put_errors errors [] = inr errors
  put_errors errors (m ∷ ms) =
      and_then (and_then (error_writer sink fixed6 created errors) (λ w. put sink fixed6 w m))
        (λ w. put_errors (some w) ms)

  -- What the loop gives: the writers as if each had got its records alone, or the first failure of
  -- one of them or of the stream.
  abbrev pub IsSplit :
      Bool
      → List (Item F MieError)
      → CsvWriter W
      → Option (CsvWriter W)
      → MieError ⊎ (CsvWriter W × Option (CsvWriter W) × Option (ℕ × ℕ))
      → Type 0
  unfolding put_all put_errors
  IsSplit partial items main errors (inr (main', errors', p)) =
      (put_all main (select is_normal (until_error items)) ≡ inr main')
      × (put_errors errors (select is_errored (until_error items)) ≡ inr errors')
      × Stops partial items p
  IsSplit partial items main errors (inl e) =
      (put_all main (select is_normal (until_error items)) ≡ inl e)
      ⊎ ((put_errors errors (select is_errored (until_error items)) ≡ inl e)
          ⊎ Fails partial items e)

  normal-IsSplit :
      (partial : Bool) (items : List (Item F MieError)) (main w : CsvWriter W)
      (errors : Option (CsvWriter W)) (m : MieMessage F)
      (r : MieError ⊎ (CsvWriter W × Option (CsvWriter W) × Option (ℕ × ℕ)))
      → is_normal m ≡ true
      → put sink fixed6 main m ≡ inr w
      → IsSplit partial items w errors r
      → IsSplit partial (ok m ∷ items) main errors r
  unfolding IsSplit put_all put_errors
  normal-IsSplit partial items main w errors m (inr (a, b, p)) y h v = rw (y, h) v
  normal-IsSplit partial items main w errors m (inl e) y h v = rw (y, h) v

  errored-IsSplit :
      (partial : Bool) (items : List (Item F MieError)) (main w : CsvWriter W)
      (errors : Option (CsvWriter W)) (m : MieMessage F)
      (r : MieError ⊎ (CsvWriter W × Option (CsvWriter W) × Option (ℕ × ℕ)))
      → is_normal m ≡ false
      → and_then (error_writer sink fixed6 created errors) (λ w. put sink fixed6 w m) ≡ inr w
      → IsSplit partial items main (some w) r
      → IsSplit partial (ok m ∷ items) main errors r
  unfolding IsSplit put_all put_errors
  errored-IsSplit partial items main w errors m (inr (a, b, p)) n h v = rw (n, h) v
  errored-IsSplit partial items main w errors m (inl e) n h v = rw (n, h) v

  -- A loop that is over a message, and one that goes on behind it.
  Splits : Bool → List (Item F MieError) → Type 0
  Splits partial items =
      (main : CsvWriter W) (errors : Option (CsvWriter W))
      → IsSplit partial items main errors (split_loop sink fixed6 created partial items main errors)

  behind_normal :
      (partial : Bool) (items : List (Item F MieError)) (main : CsvWriter W)
      (errors : Option (CsvWriter W)) (m : MieMessage F) (r : MieError ⊎ CsvWriter W)
      → Splits partial items
      → is_normal m ≡ true
      → put sink fixed6 main m ≡ r
      → IsSplit partial
          (ok m ∷ items)
          main
          errors
          (and_then r (λ w. split_loop sink fixed6 created partial items w errors))
  unfolding IsSplit put_all put_errors Splits
  behind_normal partial items main errors m (inl e) more y h = inl (rw (y, h) refl)
  behind_normal partial items main errors m (inr w) more y h =
      normal-IsSplit partial items main w errors m
        (split_loop sink fixed6 created partial items w errors) y h (more w errors)

  behind_errored :
      (partial : Bool) (items : List (Item F MieError)) (main : CsvWriter W)
      (errors : Option (CsvWriter W)) (m : MieMessage F) (r : MieError ⊎ CsvWriter W)
      → Splits partial items
      → is_normal m ≡ false
      → and_then (error_writer sink fixed6 created errors) (λ w. put sink fixed6 w m) ≡ r
      → IsSplit partial
          (ok m ∷ items)
          main
          errors
          (and_then r (λ w. split_loop sink fixed6 created partial items main (some w)))
  unfolding IsSplit put_all put_errors Splits
  behind_errored partial items main errors m (inl e) more n h = inr (inl (rw (n, h) refl))
  behind_errored partial items main errors m (inr w) more n h =
      errored-IsSplit partial items main w errors m
        (split_loop sink fixed6 created partial items main (some w)) n h (more main (some w))

  at_error :
      (partial : Bool) (items : List (Item F MieError)) (main : CsvWriter W)
      (errors : Option (CsvWriter W)) (e : MieError) (stop : Option (ℕ × ℕ))
      → partial_stop partial e ≡ stop
      → IsSplit partial
          (err e ∷ items)
          main
          errors
          (and_then (stop_with e main stop) (λ (main', p). inr (main', errors, p)))
  unfolding IsSplit put_all put_errors
  at_error partial items main errors e none h = inr (inr (refl, h))
  at_error partial items main errors e (some stop) h = (refl, refl, (h, λ n. cc))

  -- The loop of `write_csv_split` parts the stream up to its first error: the main table gets the
  -- records without an error label and the other one those with a label, each in their order and as
  -- if it got them alone, and the second table is made only for a first such record. It fails only
  -- with a failure of one of the two, or with an error of the stream at which partial output does not
  -- stop.
  pub split_loop-IsSplit :
      (partial : Bool) (items : List (Item F MieError)) (main : CsvWriter W)
      (errors : Option (CsvWriter W))
      → IsSplit partial items main errors (split_loop sink fixed6 created partial items main errors)
  unfolding split_loop IsSplit put_all put_errors Splits
  split_loop-IsSplit partial [] main errors = (refl, refl, refl)
  split_loop-IsSplit partial (err e ∷ items) main errors =
      at_error partial items main errors e (partial_stop partial e) refl
  split_loop-IsSplit partial (ok m ∷ items) main errors = elim (Bool-cases (is_normal m)) [
    | inl y ↦ rw y (
        behind_normal partial items main errors m (put sink fixed6 main m)
          (split_loop-IsSplit partial items) y refl)
    | inr n ↦ rw n (
        behind_errored partial items main errors m
          (and_then (error_writer sink fixed6 created errors) (λ w. put sink fixed6 w m))
          (split_loop-IsSplit partial items) n refl)
  ]

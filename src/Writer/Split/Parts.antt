-- ===== src/Writer/Split/Parts.antt =====
-- `write_csv_split` of rust/src/writer.rs parts a stream by the flags of its records.
use mie_decoder.Common.{
  ℕ, ◌≡◌, refl, ◌≢◌, ◌⊎◌, inl, inr, Bool, true, false, Option, none, some, List, [], ◌∷◌,
  Bool-cases, select, arith,
}
use mie_decoder.Models.{MessageFormat}
use mie_decoder.Models.Message.{MieMessage, Item, ok, err, is_spurious, error_label}
use mie_decoder.Models.Message.Drain.{until_error}
use mie_decoder.Error.{MieError}
use mie_decoder.Writer.Stream.{Sink, CsvWriter, partial_stop, is_normal, split_loop}
use mie_decoder.Writer.Split.{
  put_all, put_errors, is_errored, Stops, Fails, IsSplit, split_loop-IsSplit,
}

-- A loss of sync that is not recovered, where partial output is allowed.
abbrev pub StopsAt : Bool → MieError → ℕ × ℕ → Type 0
StopsAt partial e (offset, losses) =
    (partial ≡ true) × (e ≡ MieError.unrecoverable_sync_loss offset losses)

stop_found :
    (partial : Bool) (e : MieError) (q : ℕ × ℕ)
    → partial_stop partial e ≡ some q
    → StopsAt partial e q
stop_found true (MieError.unrecoverable_sync_loss o n) (o', n') h = (refl, ground (arith, h))
stop_found false (MieError.unrecoverable_sync_loss o n) q h = cc
stop_found partial _ q h = cc

no_stop :
    (partial : Bool) (e : MieError) (q : ℕ × ℕ)
    → partial_stop partial e ≡ none
    → ¬ StopsAt partial e q
no_stop partial e (o, n) h (allowed, lost) = absurd (ground (arith, h, allowed, lost))

module _ {F : Type 0} where
  -- The records of a stream before its first error, the clean ones and the others, each in their order.
  pub data Parts : List (Item F MieError) → List (MieMessage F) → List (MieMessage F) → Type 0 where
    run_out : Parts [] [] []
    broken_off : (e : MieError) (items : List (Item F MieError)) → Parts (err e ∷ items) [] []
    clean :
        (m : MieMessage F) {items : List (Item F MieError)} {ms es : List (MieMessage F)}
        → m.type_word.error ≡ false
        → m.message_format ≢ MessageFormat.spurious_data
        → Parts items ms es
        → Parts (ok m ∷ items) (m ∷ ms) es
    faulty :
        (m : MieMessage F) {items : List (Item F MieError)} {ms es : List (MieMessage F)}
        → (m.type_word.error ≡ true) ⊎ (m.message_format ≡ MessageFormat.spurious_data)
        → Parts items ms es
        → Parts (ok m ∷ items) ms (m ∷ es)

  -- How a stream ends that the loop takes to its end.
  abbrev pub EndsAt : Bool → List (Item F MieError) → Option (ℕ × ℕ) → Type 0
  EndsAt partial [] p = p ≡ none
  EndsAt partial (ok m ∷ items) p = EndsAt partial items p
  EndsAt partial (err e ∷ items) none = ⊥
  EndsAt partial (err e ∷ items) (some q) = StopsAt partial e q

  -- The first error of the stream is this one, and no stop.
  abbrev pub FailsWith : Bool → List (Item F MieError) → MieError → Type 0
  FailsWith partial [] e = ⊥
  FailsWith partial (ok m ∷ items) e = FailsWith partial items e
  FailsWith partial (err e' ∷ items) e = (e' ≡ e) × ((q : ℕ × ℕ) → ¬ StopsAt partial e' q)

  spurious_iff :
      (f : MessageFormat) (m : MieMessage F)
      → m.message_format ≡ f
      → (is_spurious m ≡ true) × (f ≡ MessageFormat.spurious_data)
        ⊎ (is_spurious m ≡ false) × (f ≢ MessageFormat.spurious_data)
  unfolding is_spurious
  spurious_iff MessageFormat.spurious_data m e = inl (rw e refl, refl)
  spurious_iff MessageFormat.receive m e = inr (rw e refl, λ n. cc)
  spurious_iff MessageFormat.transmit m e = inr (rw e refl, λ n. cc)
  spurious_iff MessageFormat.rt_to_rt m e = inr (rw e refl, λ n. cc)
  spurious_iff MessageFormat.receive_broadcast m e = inr (rw e refl, λ n. cc)
  spurious_iff MessageFormat.rt_to_rt_broadcast m e = inr (rw e refl, λ n. cc)
  spurious_iff MessageFormat.mode_code_no_data m e = inr (rw e refl, λ n. cc)
  spurious_iff MessageFormat.mode_code_tx_data m e = inr (rw e refl, λ n. cc)
  spurious_iff MessageFormat.mode_code_rx_data m e = inr (rw e refl, λ n. cc)
  spurious_iff MessageFormat.mode_code_bcast_no_data m e = inr (rw e refl, λ n. cc)
  spurious_iff MessageFormat.mode_code_bcast_data m e = inr (rw e refl, λ n. cc)

  -- A record has no label exactly if it is neither errored nor spurious.
  normal_cases :
      (m : MieMessage F)
      → (is_normal m ≡ true)
          × (m.type_word.error ≡ false)
          × (m.message_format ≢ MessageFormat.spurious_data)
        ⊎ (is_normal m ≡ false)
          × ((m.type_word.error ≡ true) ⊎ (m.message_format ≡ MessageFormat.spurious_data))
  unfolding is_normal error_label is_spurious
  normal_cases m = elim (Bool-cases m.type_word.error) [
    | inl errored ↦ inr (rw errored refl, inl errored)
    | inr fine ↦ elim (spurious_iff m.message_format m refl) [
      | inl (tagged, is) ↦ inr (rw (fine, tagged) refl, inr is)
      | inr (untagged, isnt) ↦ inl (rw (fine, untagged) refl, fine, isnt)
    ]
  ]

  Parts-until_error :
      (items : List (Item F MieError))
      → Parts items (select is_normal (until_error items)) (select is_errored (until_error items))
  Parts-until_error [] = run_out
  Parts-until_error (err e ∷ items) = broken_off e items
  Parts-until_error (ok m ∷ items) = elim (normal_cases m) [
    | inl (y, fine, isnt) ↦ rw y (clean m fine isnt (Parts-until_error items))
    | inr (n, why) ↦ rw n (faulty m why (Parts-until_error items))
  ]

  Stops-EndsAt :
      (partial : Bool) (items : List (Item F MieError)) (p : Option (ℕ × ℕ))
      → Stops partial items p
      → EndsAt partial items p
  Stops-EndsAt partial [] p h = h
  Stops-EndsAt partial (ok m ∷ items) p h = Stops-EndsAt partial items p h
  Stops-EndsAt partial (err e ∷ items) none h = h.1 refl
  Stops-EndsAt partial (err e ∷ items) (some q) h = stop_found partial e q h.0

  Fails-FailsWith :
      (partial : Bool) (items : List (Item F MieError)) (e : MieError)
      → Fails partial items e
      → FailsWith partial items e
  Fails-FailsWith partial [] e h = h
  Fails-FailsWith partial (ok m ∷ items) e h = Fails-FailsWith partial items e h
  Fails-FailsWith partial (err e' ∷ items) e h = (h.0, λ q. no_stop partial e' q h.1)

module _ (sink : Sink) {F : Type 0} (fixed6 : F → List ℕ)
    (created : MieError ⊎ CsvWriter sink.W) where
  open sink use {W}

  -- What the loop gives for the clean records and the others: the writers as if each had got its
  -- records alone, or the first failure of one of them or of the stream.
  abbrev pub Gives :
      Bool
      → List (Item F MieError)
      → List (MieMessage F)
      → List (MieMessage F)
      → CsvWriter W
      → Option (CsvWriter W)
      → MieError ⊎ (CsvWriter W × Option (CsvWriter W) × Option (ℕ × ℕ))
      → Type 0
  Gives partial items ms es main errors (inr (main', errors', p)) =
      (put_all sink fixed6 created main ms ≡ inr main')
      × (put_errors sink fixed6 created errors es ≡ inr errors')
      × EndsAt partial items p
  Gives partial items ms es main errors (inl e) =
      (put_all sink fixed6 created main ms ≡ inl e)
      ⊎ ((put_errors sink fixed6 created errors es ≡ inl e) ⊎ FailsWith partial items e)

  -- The stream is parted, and this is what comes of it.
  pub record IsParted (partial : Bool) (items : List (Item F MieError)) (main : CsvWriter W)
      (errors : Option (CsvWriter W))
      (r : MieError ⊎ (CsvWriter W × Option (CsvWriter W) × Option (ℕ × ℕ))) : Type 0 where
    pub to_main : List (MieMessage F)
    pub to_errors : List (MieMessage F)
    pub parts : Parts items to_main to_errors
    pub gives : Gives partial items to_main to_errors main errors r

  IsSplit-Gives :
      (partial : Bool) (items : List (Item F MieError)) (main : CsvWriter W)
      (errors : Option (CsvWriter W))
      (r : MieError ⊎ (CsvWriter W × Option (CsvWriter W) × Option (ℕ × ℕ)))
      → IsSplit sink fixed6 created partial items main errors r
      → Gives partial items
          (select is_normal (until_error items))
          (select is_errored (until_error items))
          main
          errors
          r
  unfolding IsSplit put_all put_errors
  IsSplit-Gives partial items main errors (inr (main', errors', p)) (a, b, c) =
      (a, b, Stops-EndsAt partial items p c)
  IsSplit-Gives partial items main errors (inl e) (inl a) = inl a
  IsSplit-Gives partial items main errors (inl e) (inr (inl b)) = inr (inl b)
  IsSplit-Gives partial items main errors (inl e) (inr (inr c)) =
      inr (inr (Fails-FailsWith partial items e c))

  -- The loop of `write_csv_split` parts the stream up to its first error: the main table gets the
  -- records that are neither errored nor spurious and the other one the rest, each in their order and
  -- as if it got them alone, and the second table is made only for a first such record. The loop ends
  -- well where the stream runs out, or at an unrecoverable loss of sync where partial output is
  -- allowed; it fails only with a failure of one of the two tables, or with another error of the stream.
  pub split_loop-IsParted :
      (partial : Bool) (items : List (Item F MieError)) (main : CsvWriter W)
      (errors : Option (CsvWriter W))
      → IsParted partial items main errors
          (split_loop sink fixed6 created partial items main errors)
  split_loop-IsParted partial items main errors = record {
    to_main = select is_normal (until_error items);
    to_errors = select is_errored (until_error items);
    parts = Parts-until_error items;
    gives =
        IsSplit-Gives partial items main errors
          (split_loop sink fixed6 created partial items main errors)
          (split_loop-IsSplit sink fixed6 created partial items main errors);
  }

-- ===== src/Delta/Warned.antt =====
-- The once-per-key promise of rust/src/delta.rs.
use mie_decoder.Common.{
  ℕ, ◌+◌, ◌≤◌, inl, inr, true, Option, none, some, List, [], ◌∷◌, arith, ◌==◌, if◌then◌else◌,
  Option-cases,
}
use mie_decoder.Models.Timestamp.{Floats, to_microseconds}
use mie_decoder.Delta.{
  key_of, DeltaOutcome, backward, DeltaTracker, contains_key, observe_at, observe, new_tracker,
}
use mie_decoder.Delta.Cursor.{Sighting}

module _ (fl : Floats) where
  open fl use {F}

  abbrev is_first_report : DeltaOutcome F → ℕ
  is_first_report (backward prev_us curr_us true) = 1
  is_first_report _ = 0

  -- 1 for a record of `key` whose outcome asks for a warning.
  abbrev report : ℕ → DeltaTracker F → Sighting fl → ℕ
  report key t (none, ts) = 0
  report key t (some cmd, ts) =
      if key_of cmd == key then is_first_report (observe fl t (some cmd) ts).1 else 0

  -- How many of the records ask for a warning about `key`.
  pub reports : ℕ → DeltaTracker F → List (Sighting fl) → ℕ
  reports key t [] = 0
  reports key t ((cmd, ts) ∷ ss) = report key t (cmd, ts) + reports key (observe fl t cmd ts).0 ss

  abbrev unwarned : ℕ → DeltaTracker F → ℕ
  unwarned key t = if contains_key key t.warned_keys then 0 else 1

  report_at :
      (key : ℕ) (t : DeltaTracker F) (k us : ℕ)
      → (if k == key then is_first_report (observe_at fl t k us).1 else 0)
          + unwarned key (observe_at fl t k us).0
        ≤ unwarned key t
  unfolding observe_at
  report_at key t k us = ground arith

  report_one :
      (key : ℕ) (t : DeltaTracker F) (s : Sighting fl)
      → report key t s + unwarned key (observe fl t s.0 s.1).0 ≤ unwarned key t
  unfolding observe
  report_one key t (none, ts) = ground arith
  report_one key t (some cmd, ts) = elim (Option-cases (to_microseconds fl ts t.tick_rate_hz)) [
    | inl untimed ↦ ground (arith, untimed)
    | inr (us, timed) ↦ ground (arith, timed, report_at key t (key_of cmd) us)
  ]

  reports-le :
      (key : ℕ) (t : DeltaTracker F) (ss : List (Sighting fl)) → reports key t ss ≤ unwarned key t
  unfolding reports
  reports-le key t [] = omega arith
  reports-le key t ((cmd, ts) ∷ ss) =
      omega (arith, report_one key t (cmd, ts), reports-le key (observe fl t cmd ts).0 ss)

  -- However often its clock steps back, a key is reported once at most.
  pub reports_once :
      (key : ℕ) (hz : Option F) (ss : List (Sighting fl)) → reports key (new_tracker hz) ss ≤ 1
  unfolding new_tracker
  reports_once key hz ss = omega (arith, reports-le key (new_tracker hz) ss)

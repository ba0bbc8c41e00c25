-- ===== src/Delta.antt =====
-- rust/src/delta.rs: the gap to the previous record of the same RT, subaddress and direction.
pub mod Cursor
pub mod Warned
use mie_decoder.Common.{
  ℕ, ◌+◌, ◌-◌, ◌*◌, ◌^◌, Bool, true, false, ◌||◌, not, Option, none, some, List, [], ◌∷◌, ltb, leb,
  ◌==◌, if◌then◌else◌,
}
use mie_decoder.Models.{Direction, CommandWord}
use mie_decoder.Models.Timestamp.{Timestamp, Floats, to_microseconds}

-- `(rt << 16) | (sa << 8) | transmit`, whose parts share no bit: `rt` and `sa` are `u8`.
unfoldable pub delta_key : ℕ → ℕ → Bool → ℕ
delta_key rt subaddress transmit = rt * 2 ^ 16 + subaddress * 2 ^ 8 + (if transmit then 1 else 0)

abbrev pub is_transmit : Direction → Bool
is_transmit Direction.receive = false
is_transmit Direction.transmit = true

abbrev pub key_of : CommandWord → ℕ
key_of cmd = delta_key cmd.rt cmd.subaddress (is_transmit cmd.direction)

pub data DeltaOutcome (F : Type 0) : Type 0 where
  first : DeltaOutcome F
  elapsed : (seconds : F) → DeltaOutcome F
  backward : (prev_us curr_us : ℕ) (first_for_key : Bool) → DeltaOutcome F
  uncalibrated no_key : DeltaOutcome F

-- The map and the set of the source as lists, the newest entry first.
pub record DeltaTracker (F : Type 0) : Type 0 where
  pub last_us : List (ℕ × ℕ)
  pub warned_keys : List ℕ
  pub tick_rate_hz : Option F

abbrev pub lookup_key : ℕ → List (ℕ × ℕ) → Option ℕ
lookup_key key [] = none
lookup_key key ((k, us) ∷ rest) = if k == key then some us else lookup_key key rest

abbrev pub contains_key : ℕ → List ℕ → Bool
contains_key key [] = false
contains_key key (k ∷ rest) = k == key || contains_key key rest

-- `warned_keys.insert(key)`, which says whether the key is new.
abbrev pub insert_key : ℕ → List ℕ → List ℕ
insert_key key keys = if contains_key key keys then keys else key ∷ keys

unfoldable pub new_tracker : {F : Type 0} → Option F → DeltaTracker F
new_tracker hz = record { last_us = []; warned_keys = []; tick_rate_hz = hz }

module _ (fl : Floats) where
  open fl use {F, zero_seconds, million, of_u64, div}

  unfoldable pub value : DeltaOutcome F → Option F
  value first = some zero_seconds
  value (elapsed seconds) = some seconds
  value (backward prev_us curr_us first_for_key) = none
  value uncalibrated = none
  value no_key = none

  -- The outcome for a key that was last seen at `previous`, if at all.
  abbrev pub outcome_for : Option ℕ → ℕ → Bool → DeltaOutcome F
  outcome_for none curr_us unwarned = first
  outcome_for (some prev_us) curr_us unwarned =
      if leb prev_us curr_us
      then elapsed (div (of_u64 (curr_us - prev_us)) million)
      else backward prev_us curr_us unwarned

  -- Only a step back inserts into `warned_keys`.
  abbrev pub steps_back : Option ℕ → ℕ → Bool
  steps_back none curr_us = false
  steps_back (some prev_us) curr_us = ltb curr_us prev_us

  -- A keyed record at a known time.
  unfoldable pub observe_at : DeltaTracker F → ℕ → ℕ → DeltaTracker F × DeltaOutcome F
  observe_at t key curr_us =
      let previous = lookup_key key t.last_us in
      (
        record t {
          last_us = (key, curr_us) ∷ t.last_us;
          warned_keys =
              if steps_back previous curr_us then insert_key key t.warned_keys else t.warned_keys;
        },
        outcome_for previous curr_us (not (contains_key key t.warned_keys)),
      )

  unfoldable pub observe :
      DeltaTracker F → Option CommandWord → Timestamp → DeltaTracker F × DeltaOutcome F
  unfolding observe_at
  observe t none timestamp = (t, no_key)
  observe t (some cmd) timestamp = elim (to_microseconds fl timestamp t.tick_rate_hz) [
    | none ↦ (t, uncalibrated)
    | some curr_us ↦ observe_at t (key_of cmd) curr_us
  ]

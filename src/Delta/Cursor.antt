-- ===== src/Delta/Cursor.antt =====
-- The cursor of rust/src/delta.rs: what is remembered of each key.
use mie_decoder.Common.{
  ℕ, ◌<◌, ◌≡◌, refl, inl, inr, Bool, Option, none, some, List, [], ◌∷◌, arith, ◌==◌, if◌then◌else◌,
  Option-cases,
}
use mie_decoder.Models.{CommandWord}
use mie_decoder.Models.Timestamp.{Timestamp, Floats, to_microseconds}
use mie_decoder.Delta.{delta_key, key_of, DeltaTracker, lookup_key, observe, new_tracker}

-- The packed key tells `u8` terminals, `u8` subaddresses and the directions apart.
pub delta_key-injective :
    (rt sa rt' sa' : ℕ) (t t' : Bool)
    → rt < 256
    → sa < 256
    → rt' < 256
    → sa' < 256
    → delta_key rt sa t ≡ delta_key rt' sa' t'
    → (rt ≡ rt') × (sa ≡ sa') × (t ≡ t')
unfolding delta_key
delta_key-injective rt sa rt' sa' t t' a b c d h = ground arith

module _ (fl : Floats) where
  open fl use {F}

  -- One record as the tracker is given it.
  abbrev pub Sighting : Type 0
  Sighting = Option CommandWord × Timestamp

  -- The time of a record that counts for `key`.
  abbrev pub time_for : ℕ → Option F → Sighting → Option ℕ
  time_for key hz (none, ts) = none
  time_for key hz (some cmd, ts) = if key_of cmd == key then to_microseconds fl ts hz else none

  abbrev or_else : Option ℕ → Option ℕ → Option ℕ
  or_else none b = b
  or_else (some a) b = some a

  -- The time of the latest record of `key`, the records given oldest first.
  abbrev pub latest : ℕ → Option F → List Sighting → Option ℕ
  latest key hz [] = none
  latest key hz (s ∷ ss) = or_else (latest key hz ss) (time_for key hz s)

  unfoldable pub observe_all : DeltaTracker F → List Sighting → DeltaTracker F
  observe_all t [] = t
  observe_all t ((cmd, ts) ∷ ss) = observe_all (observe fl t cmd ts).0 ss

  observe_one :
      (t : DeltaTracker F) (s : Sighting) (key : ℕ)
      → (lookup_key key (observe fl t s.0 s.1).0.last_us
          ≡ or_else (time_for key t.tick_rate_hz s) (lookup_key key t.last_us))
        × ((observe fl t s.0 s.1).0.tick_rate_hz ≡ t.tick_rate_hz)
  unfolding observe
  observe_one t (none, ts) key = (refl, refl)
  observe_one t (some cmd, ts) key = elim (Option-cases (to_microseconds fl ts t.tick_rate_hz)) [
    | inl untimed ↦ (ground (arith, untimed), ground (arith, untimed))
    | inr (us, timed) ↦ (ground (arith, timed), ground (arith, timed))
  ]

  observe_all_cursor :
      (t : DeltaTracker F) (ss : List Sighting) (key : ℕ)
      → lookup_key key (observe_all t ss).last_us
        ≡ or_else (latest key t.tick_rate_hz ss) (lookup_key key t.last_us)
  unfolding observe_all
  observe_all_cursor t [] key = refl
  observe_all_cursor t ((cmd, ts) ∷ ss) key =
      let (one, hz) = observe_one t (cmd, ts) key in
      ground (arith, one, hz, observe_all_cursor (observe fl t cmd ts).0 ss key)

  -- After any records, the cursor of each key stands at the latest record of that key that had a
  -- time, also where the clock stepped back.
  pub cursor_latest :
      (hz : Option F) (ss : List Sighting) (key : ℕ)
      → lookup_key key (observe_all (new_tracker hz) ss).last_us ≡ latest key hz ss
  unfolding new_tracker
  cursor_latest hz ss key = ground (arith, observe_all_cursor (new_tracker hz) ss key)

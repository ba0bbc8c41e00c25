-- ===== src/Examples/Stream.antt =====
-- Delta tracking and filtering of rust/src/delta.rs and rust/src/filter.rs on small streams.
use mie_decoder.Common.{
  ℕ, ◌+◌, ◌*◌, ◌/◌, ◌^◌, ◌≡◌, ◌↔◌, true, false, Option, none, some, List, [], ◌∷◌, arith, ltb, ◌==◌,
}
use mie_decoder.Models.{Direction, MessageFormat, CommandWord}
use mie_decoder.Models.Bus.{bus_a}
use mie_decoder.Models.DataWords
use mie_decoder.Models.Timestamp.{Floats, Timestamp}
use mie_decoder.Models.Message.{MieMessage, Item, ok, err}
use mie_decoder.Delta.{key_of, lookup_key, new_tracker}
use mie_decoder.Delta.Cursor.{Sighting, latest, observe_all, cursor_latest}
use mie_decoder.Filter.{FilterConfig, should_exclude, filter_messages}
use mie_decoder.Filter.Laws.{IsKept, IsKept-iff, kept_items, messages, drain, drain-filter_messages}

-- Seconds as whole microseconds, in place of `f64`.
abbrev pub micros : Floats
micros = record {
  F = ℕ;
  zero_seconds = 0;
  million = 1_000_000;
  of_u64 = λ n. n * 1_000_000;
  mul = λ a b. a * b;
  div = λ a b. a / b;
  round = λ a. a;
  is_finite = λ a. true;
  le_zero = λ a. a == 0;
  in_u64 = λ a. ltb a (2 ^ 64);
  to_u64 = λ a. a;
}

abbrev pub cmd : CommandWord
cmd = record {
  rt = 5;
  direction = Direction.receive;
  subaddress = 3;
  data_word_count = 1;
  raw = 0x2861;
}

abbrev pub at_second : ℕ → Timestamp
at_second s =
    Timestamp.irig
      (record { day = 1; hour = 0; minute = 0; second = s; microsecond = 0; freerun = false })

-- The clock steps back twice.
abbrev sightings : List (Sighting micros)
sightings =
    (some cmd, at_second 9)
    ∷ (some cmd, at_second 5)
    ∷ (none, at_second 7)
    ∷ (some cmd, at_second 4)
    ∷ []

cursor_latest_example :
    lookup_key (key_of cmd) (observe_all micros (new_tracker none) sightings).last_us
    ≡ latest micros (key_of cmd) none sightings
cursor_latest_example = cursor_latest micros none sightings (key_of cmd)

abbrev no_filters : FilterConfig
no_filters = record {
  exclude_types = [];
  exclude_rts = [];
  exclude_buses = [];
  exclude_subaddresses = [];
  include_types = [];
  include_rts = [];
  include_buses = [];
  include_subaddresses = [];
}

abbrev only_rt_5 : FilterConfig
only_rt_5 = record no_filters { include_rts = 5 ∷ [] }

abbrev pub message : Timestamp → Option CommandWord → MieMessage ℕ
message t c = record {
  timestamp = t;
  type_word = record { message_type = 2; bus = bus_a; word_count = 7; error = false; raw = 0x0702 };
  message_format = MessageFormat.receive;
  command_word = c;
  command_word_2 = none;
  status_word = none;
  status_word_2 = none;
  data_words = DataWords.new;
  error_word = none;
  delta = none;
  file_offset = 0;
  mux = none;
}

IsKept-iff_example :
    (should_exclude only_rt_5 (message (at_second 1) (some cmd)) ≡ false)
    ↔ IsKept only_rt_5 (message (at_second 1) (some cmd))
IsKept-iff_example = IsKept-iff only_rt_5 (message (at_second 1) (some cmd))

abbrev items : List (Item ℕ ℕ)
items = ok (message (at_second 1) (some cmd)) ∷ err 3 ∷ ok (message (at_second 2) none) ∷ []

drain-filter_messages_example :
    ((drain 4 (filter_messages items only_rt_5)).0 ≡ kept_items only_rt_5 items)
    × ((drain 4 (filter_messages items only_rt_5)).1.passed
          + (drain 4 (filter_messages items only_rt_5)).1.excluded
        ≡ messages items)
drain-filter_messages_example = drain-filter_messages items only_rt_5 4 (omega arith)

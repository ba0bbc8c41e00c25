-- ===== src/Merge/Dedup.antt =====
-- rust/src/merge.rs: records that several recorders took up are given once.
pub mod Laws
use mie_decoder.Common.{
  ℕ, max, Bool, true, false, ◌&&◌, ◌||◌, not, Option, List, [], ◌∷◌, ◌++◌, leb, ◌==◌, if◌then◌else◌,
  length, select, abs_diff,
}
use native.Mathlib.Decide.{ℕ_discrete}
use mie_decoder.Models.{TypeWord, CommandWord, Bus, Direction}
use mie_decoder.Models.DataWords.{as_slice}
use mie_decoder.Models.Message.{MieMessage}

abbrev pub max_collapse_survivors_min : ℕ
max_collapse_survivors_min = 1

abbrev pub max_collapse_survivors_max : ℕ
max_collapse_survivors_max = 1_048_576

abbrev pub default_max_collapse_survivors : ℕ
default_max_collapse_survivors = 4096

pub record DedupKey : Type 0 where
  pub type_word : TypeWord
  pub command_word : Option CommandWord
  pub command_word_2 : Option CommandWord
  pub status_word : Option ℕ
  pub status_word_2 : Option ℕ
  pub error_word : Option ℕ
  pub data_words : List ℕ

Bus-discrete : Discrete Bus
Bus-discrete = hlevel

Direction-discrete : Discrete Direction
Direction-discrete = hlevel

TypeWord-discrete : Discrete TypeWord
TypeWord-discrete = hlevel (ℕ_discrete, Bus-discrete)

CommandWord-discrete : Discrete CommandWord
CommandWord-discrete = hlevel (ℕ_discrete, Direction-discrete)

-- The derived equality.
pub DedupKey-discrete : Discrete DedupKey
DedupKey-discrete = hlevel (ℕ_discrete, TypeWord-discrete, CommandWord-discrete)

-- `k == key`.
abbrev pub key_eq : DedupKey → DedupKey → Bool
key_eq k key = elim (DedupKey-discrete k key) [ yes e ↦ true | no n ↦ false ]

-- A record that was given: its time, its input and its content.
pub record Survivor : Type 0 where
  pub us : ℕ
  pub file_index : ℕ
  pub key : DedupKey

-- The survivors in the order of their arrival.
pub record DedupWindow : Type 0 where
  pub window_us : ℕ
  pub max_survivors : ℕ
  pub survivors : List Survivor
  pub capped_warned : Bool

unfoldable pub new_window : ℕ → ℕ → DedupWindow
new_window window_us max_survivors = record {
  window_us = window_us;
  max_survivors = max max_survivors max_collapse_survivors_min;
  survivors = [];
  capped_warned = false;
}

abbrev pub in_window : ℕ → ℕ → Survivor → Bool
in_window window us v = leb (abs_diff v.us us) window

abbrev pub is_match : ℕ → DedupKey → Survivor → Bool
is_match file_index key v = not (v.file_index == file_index) && key_eq v.key key

abbrev pub any_match : ℕ → DedupKey → List Survivor → Bool
any_match file_index key [] = false
any_match file_index key (v ∷ vs) = is_match file_index key v || any_match file_index key vs

-- `while len >= max { pop_front }`.
unfoldable pub make_room : ℕ → List Survivor → List Survivor
make_room cap [] = []
make_room cap (v ∷ vs) =
    let later = make_room cap vs in if leb cap (length (v ∷ vs)) then later else v ∷ vs

module _ {F : Type 0} where
  unfoldable pub key_of : MieMessage F → DedupKey
  key_of msg = record {
    type_word = msg.type_word;
    command_word = msg.command_word;
    command_word_2 = msg.command_word_2;
    status_word = msg.status_word;
    status_word_2 = msg.status_word_2;
    error_word = msg.error_word;
    data_words = as_slice msg.data_words;
  }

  unfoldable pub is_duplicate : DedupWindow → ℕ → ℕ → MieMessage F → DedupWindow × Bool
  unfolding make_room key_of
  is_duplicate w us file_index msg =
      let retained = select (in_window w.window_us us) w.survivors in
      let key = key_of msg in
      let newest : Survivor = record { us = us; file_index = file_index; key = key } in
      if any_match file_index key retained then (record w { survivors = retained }, true) else (
        record w {
          survivors = make_room w.max_survivors retained ++ newest ∷ [];
          capped_warned = w.capped_warned || leb w.max_survivors (length retained);
        },
        false,
      )

-- ===== src/Filter.antt =====
-- rust/src/filter.rs: exclude and include filters, and the iterator adapter that applies them.
-- Its log lines are left out.
pub mod Laws
use mie_decoder.Common.{
  ℕ, ◌+◌, Bool, true, false, ◌&&◌, ◌||◌, not, Option, none, some, List, [], ◌∷◌, ◌==◌,
  if◌then◌else◌, set, is_empty,
}
use mie_decoder.Models.{Bus, bus_eq}
use mie_decoder.Models.Message.{MieMessage, Item, ok, err}

pub record FilterConfig : Type 0 where
  pub exclude_types : List ℕ
  pub exclude_rts : List ℕ
  pub exclude_buses : List Bus
  pub exclude_subaddresses : List ℕ
  pub include_types : List ℕ
  pub include_rts : List ℕ
  pub include_buses : List Bus
  pub include_subaddresses : List ℕ

pub record FilterFields : Type 0 where
  pub message_type : ℕ
  pub bus : Bus
  pub rt : Option ℕ
  pub subaddress : Option ℕ

abbrev pub contains : List ℕ → ℕ → Bool
contains [] a = false
contains (x ∷ xs) a = x == a || contains xs a

abbrev pub contains_bus : List Bus → Bus → Bool
contains_bus [] a = false
contains_bus (x ∷ xs) a = bus_eq x a || contains_bus xs a

-- `field.is_some_and(|x| set.contains(&x))`.
abbrev pub contains_some : List ℕ → Option ℕ → Bool
contains_some set none = false
contains_some set (some x) = contains set x

abbrev pub is_active : FilterConfig → Bool
is_active c =
    not (is_empty c.exclude_types)
    || not (is_empty c.exclude_rts)
    || not (is_empty c.exclude_buses)
    || not (is_empty c.exclude_subaddresses)
    || not (is_empty c.include_types)
    || not (is_empty c.include_rts)
    || not (is_empty c.include_buses)
    || not (is_empty c.include_subaddresses)

unfoldable pub excluded_by_negative : FilterConfig → FilterFields → Bool
excluded_by_negative c field =
    if contains c.exclude_types field.message_type || contains_bus c.exclude_buses field.bus
    then true
    else if contains_some c.exclude_rts field.rt
    then true
    else if contains_some c.exclude_subaddresses field.subaddress
    then true
    else false

unfoldable pub excluded_by_positive : FilterConfig → FilterFields → Bool
excluded_by_positive c field =
    if not (is_empty c.include_types) && not (contains c.include_types field.message_type)
    then true
    else if not (is_empty c.include_buses) && not (contains_bus c.include_buses field.bus)
    then true
    else if not (is_empty c.include_rts) && not (contains_some c.include_rts field.rt)
    then true
    else if not (is_empty c.include_subaddresses)
        && not (contains_some c.include_subaddresses field.subaddress)
    then true
    else false

module _ {F : Type 0} where
  abbrev pub fields_of : MieMessage F → FilterFields
  fields_of msg = record {
    message_type = msg.type_word.message_type;
    bus = msg.type_word.bus;
    rt = elim (msg.command_word) [ none ↦ none | some cw ↦ some cw.rt ];
    subaddress = elim (msg.command_word) [ none ↦ none | some cw ↦ some cw.subaddress ];
  }

  unfoldable pub should_exclude : FilterConfig → MieMessage F → Bool
  unfolding excluded_by_negative excluded_by_positive
  should_exclude c msg =
      excluded_by_negative c (fields_of msg) || excluded_by_positive c (fields_of msg)

-- The adapter over the items that the inner iterator still holds.
pub record Filtered (F E : Type 0) : Type 0 where
  pub inner : List (Item F E)
  pub filters : FilterConfig
  pub passed : ℕ
  pub excluded : ℕ

module _ {F E : Type 0} where
  unfoldable pub filter_messages : List (Item F E) → FilterConfig → Filtered F E
  filter_messages items filters = record {
    inner = items;
    filters = filters;
    passed = 0;
    excluded = 0;
  }

  -- The loop of `next`, over what is left of `inner`.
  unfoldable pub next_loop :
      List (Item F E) → FilterConfig → ℕ → ℕ → Option (Item F E) × Filtered F E
  next_loop [] c passed excluded =
      (none, record { inner = []; filters = c; passed = passed; excluded = excluded })
  next_loop (err e ∷ rest) c passed excluded =
      (some (err e), record { inner = rest; filters = c; passed = passed; excluded = excluded })
  next_loop (ok msg ∷ rest) c passed excluded =
      let skipped = next_loop rest c passed (excluded + 1) in
      if not (should_exclude c msg)
      then (
        some (ok msg),
        record { inner = rest; filters = c; passed = passed + 1; excluded = excluded },
      )
      else skipped

  unfoldable pub next : Filtered F E → Option (Item F E) × Filtered F E
  unfolding next_loop
  next f = next_loop f.inner f.filters f.passed f.excluded

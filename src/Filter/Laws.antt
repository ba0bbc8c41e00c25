-- ===== src/Filter/Laws.antt =====
-- Which messages rust/src/filter.rs keeps, and what draining the adapter gives.
use mie_decoder.Common.{
  ℕ, zero, suc, ◌+◌, ◌<◌, ◌≡◌, refl, ◌↔◌, ◌⊎◌, inl, inr, Bool, true, false, ◌||◌, ◌&&◌, not, Option,
  none, some, List, [], ◌∷◌, arith, if◌then◌else◌, length, is_empty,
}
use mie_decoder.Models.{Bus, bus_eq, CommandWord}
use mie_decoder.Models.Message.{MieMessage, Item, ok, err}
use mie_decoder.Filter.{
  FilterConfig, contains, contains_bus, contains_some, excluded_by_negative, excluded_by_positive,
  fields_of, should_exclude, Filtered, filter_messages, next,
}

-- The value stands in the set.
abbrev pub Member : {A : Type 0} → A → List A → Type 0
Member a [] = ⊥
Member a (x ∷ xs) = (x ≡ a) ⊎ Member a xs

-- An include set lets everything pass while it is empty.
abbrev pub IsAllowed : {A : Type 0} → A → List A → Type 0
IsAllowed a xs = (xs ≡ []) ⊎ Member a xs

-- What the sets of RTs and subaddresses say of the Command Word: a message without one has neither.
abbrev pub WordKept : FilterConfig → Option CommandWord → Type 0
WordKept c none = (c.include_rts ≡ []) × (c.include_subaddresses ≡ [])
WordKept c (some cw) =
    (¬ Member cw.rt c.exclude_rts)
    × (¬ Member cw.subaddress c.exclude_subaddresses)
    × IsAllowed cw.rt c.include_rts
    × IsAllowed cw.subaddress c.include_subaddresses

contains_iff : (xs : List ℕ) (a : ℕ) → (contains xs a ≡ true) ↔ Member a xs
contains_iff [] a = (λ h. cc, λ h. absurd h)
contains_iff (x ∷ xs) a =
    let rest = contains_iff xs a in (λ h. ground (arith, rest), λ h. ground (arith, rest))

bus_eq_iff : (b b' : Bus) → (bus_eq b b' ≡ true) ↔ (b ≡ b')
bus_eq_iff Bus.bus_a Bus.bus_a = (λ h. refl, λ h. refl)
bus_eq_iff Bus.bus_a Bus.bus_b = (λ h. cc, λ h. cc)
bus_eq_iff Bus.bus_b Bus.bus_a = (λ h. cc, λ h. cc)
bus_eq_iff Bus.bus_b Bus.bus_b = (λ h. refl, λ h. refl)

contains_bus_iff : (xs : List Bus) (b : Bus) → (contains_bus xs b ≡ true) ↔ Member b xs
contains_bus_iff [] b = (λ h. cc, λ h. absurd h)
contains_bus_iff (x ∷ xs) b =
    let rest = contains_bus_iff xs b in
    let here = bus_eq_iff x b in (λ h. ground (arith, rest, here), λ h. ground (arith, rest, here))

-- From a Boolean test of membership to what an exclude set and an include set ask.
free_iff : {M : Type 0} (t : Bool) → (t ≡ true) ↔ M → (t ≡ false) ↔ (¬ M)
free_iff true h = (λ e. cc, λ n. absurd (n (h.0 refl)))
free_iff false h = (λ e m. absurd (ground (arith, h.1 m)), λ n. refl)

IsAllowed-iff :
    {A : Type 0} (a : A) (xs : List A) (t : Bool)
    → (t ≡ true) ↔ Member a xs
    → ((not (is_empty xs) && not t) ≡ false) ↔ IsAllowed a xs
IsAllowed-iff a [] t h = (λ e. inl refl, λ e. refl)
IsAllowed-iff a (x ∷ xs) true h = (λ e. inr (h.0 refl), λ e. refl)
IsAllowed-iff a (x ∷ xs) false h = (
  λ e. absurd (ground arith),
  λ e. elim e [ inl none_in ↦ absurd cc | inr m ↦ absurd (ground (arith, h.1 m)) ],
)

-- The six tests of one set and the two that need a Command Word.
tests_iff :
    (a b c d e f g h : Bool)
    → (((if a || b then true else if c then true else if d then true else false)
          || (if e
              then true
              else if f
              then true
              else if g
              then true
              else if h
              then true
              else false))
        ≡ false)
      ↔ (a ≡ false)
        × (b ≡ false)
        × (c ≡ false)
        × (d ≡ false)
        × (e ≡ false)
        × (f ≡ false)
        × (g ≡ false)
        × (h ≡ false)
tests_iff a b c d e f g h = (λ k. ground arith, λ k. ground arith)

-- What a kept message satisfies, in its own words: its type and its bus, and the RT and the
-- subaddress of its Command Word.
pub record IsKept {F : Type 0} (c : FilterConfig) (msg : MieMessage F) : Type 0 where
  pub type_free : ¬ Member msg.type_word.message_type c.exclude_types
  pub bus_free : ¬ Member msg.type_word.bus c.exclude_buses
  pub type_in : IsAllowed msg.type_word.message_type c.include_types
  pub bus_in : IsAllowed msg.type_word.bus c.include_buses
  pub word : WordKept c msg.command_word

empty_iff : (xs : List ℕ) → ((not (is_empty xs) && true) ≡ false) ↔ (xs ≡ [])
empty_iff [] = (λ h. refl, λ h. refl)
empty_iff (x ∷ xs) = (λ h. absurd (ground arith), λ h. absurd cc)

word_tests :
    (c : FilterConfig) (o : Option CommandWord)
    → let rt : Option ℕ = elim o [ none ↦ none | some cw ↦ some cw.rt ] in
      let sa : Option ℕ = elim o [ none ↦ none | some cw ↦ some cw.subaddress ] in
      ((contains_some c.exclude_rts rt ≡ false)
        × (contains_some c.exclude_subaddresses sa ≡ false)
        × ((not (is_empty c.include_rts) && not (contains_some c.include_rts rt)) ≡ false)
        × ((not (is_empty c.include_subaddresses) && not (contains_some c.include_subaddresses sa))
            ≡ false))
      ↔ WordKept c o
word_tests c none =
    let a = empty_iff c.include_rts in
    let b = empty_iff c.include_subaddresses in
    (λ (x, y, p, q). (a.0 p, b.0 q), λ (p, q). (refl, refl, a.1 p, b.1 q))
word_tests c (some cw) =
    let a = free_iff (contains c.exclude_rts cw.rt) (contains_iff c.exclude_rts cw.rt) in
    let b =
      free_iff (contains c.exclude_subaddresses cw.subaddress)
        (contains_iff c.exclude_subaddresses cw.subaddress) in
    let d =
      IsAllowed-iff cw.rt c.include_rts (contains c.include_rts cw.rt)
        (contains_iff c.include_rts cw.rt) in
    let e =
      IsAllowed-iff cw.subaddress c.include_subaddresses
        (contains c.include_subaddresses cw.subaddress)
        (contains_iff c.include_subaddresses cw.subaddress) in
    (λ (x, y, p, q). (a.0 x, b.0 y, d.0 p, e.0 q), λ (x, y, p, q). (a.1 x, b.1 y, d.1 p, e.1 q))

module _ {F : Type 0} where
  -- A message passes exactly when its type and its bus, and the RT and the subaddress of its Command
  -- Word if it has one, are in no exclude set, and each include set that is not empty has the value
  -- it is about, a message without a Command Word passing no set of RTs or subaddresses.
  pub IsKept-iff :
      (c : FilterConfig) (msg : MieMessage F) → (should_exclude c msg ≡ false) ↔ IsKept c msg
  unfolding should_exclude excluded_by_negative excluded_by_positive
  IsKept-iff c msg =
      let f = fields_of msg in
      let tests =
        tests_iff (contains c.exclude_types f.message_type) (contains_bus c.exclude_buses f.bus)
          (contains_some c.exclude_rts f.rt) (contains_some c.exclude_subaddresses f.subaddress)
          (not (is_empty c.include_types) && not (contains c.include_types f.message_type))
          (not (is_empty c.include_buses) && not (contains_bus c.include_buses f.bus))
          (not (is_empty c.include_rts) && not (contains_some c.include_rts f.rt))
          (not (is_empty c.include_subaddresses)
            && not (contains_some c.include_subaddresses f.subaddress)) in
      let type_free =
        free_iff (contains c.exclude_types f.message_type)
          (contains_iff c.exclude_types f.message_type) in
      let bus_free =
        free_iff (contains_bus c.exclude_buses f.bus) (contains_bus_iff c.exclude_buses f.bus) in
      let type_in =
        IsAllowed-iff f.message_type c.include_types (contains c.include_types f.message_type)
          (contains_iff c.include_types f.message_type) in
      let bus_in =
        IsAllowed-iff f.bus c.include_buses (contains_bus c.include_buses f.bus)
          (contains_bus_iff c.include_buses f.bus) in
      let word = word_tests c msg.command_word in
      (
        λ h.
            let (t, b, x, y, ti, bi, p, q) = tests.0 h in
            record {
              type_free = type_free.0 t;
              bus_free = bus_free.0 b;
              type_in = type_in.0 ti;
              bus_in = bus_in.0 bi;
              word = word.0 (x, y, p, q);
            },
        λ k.
            let (x, y, p, q) = word.1 k.word in
            tests.1 (
              type_free.1 k.type_free,
              bus_free.1 k.bus_free,
              x,
              y,
              type_in.1 k.type_in,
              bus_in.1 k.bus_in,
              p,
              q,
            ),
      )

module _ {F E : Type 0} where
  -- The items that come out: errors pass untouched.
  abbrev pub kept_items : FilterConfig → List (Item F E) → List (Item F E)
  kept_items c [] = []
  kept_items c (err e ∷ rest) = err e ∷ kept_items c rest
  kept_items c (ok msg ∷ rest) =
      let kept = kept_items c rest in if should_exclude c msg then kept else ok msg ∷ kept

  -- How many messages there are among the items.
  abbrev pub messages : List (Item F E) → ℕ
  messages [] = 0
  messages (err e ∷ rest) = messages rest
  messages (ok msg ∷ rest) = messages rest + 1

  -- Calls of `next` until it returns `None`, on fuel.
  unfoldable pub drain : ℕ → Filtered F E → List (Item F E) × Filtered F E
  drain zero f = ([], f)
  drain (suc n) f = elim ((next f).0) [
    | none ↦ ([], (next f).1)
    | some item ↦ (item ∷ (drain n (next f).1).0, (drain n (next f).1).1)
  ]

  abbrev at : List (Item F E) → FilterConfig → ℕ → ℕ → Filtered F E
  at items c p x = record { inner = items; filters = c; passed = p; excluded = x }

  drain_from :
      (items : List (Item F E)) (n : ℕ) (c : FilterConfig) (p x : ℕ)
      → length items < n
      → ((drain n (at items c p x)).0 ≡ kept_items c items)
        × ((drain n (at items c p x)).1.passed + (drain n (at items c p x)).1.excluded
            ≡ p + x + messages items)
  unfolding drain next
  drain_from [] (suc n) c p x h = (refl, omega arith)
  drain_from items zero c p x h = absurd (omega arith)
  drain_from (err e ∷ rest) (suc n) c p x h = ground (arith, drain_from rest n c p x)
  drain_from (ok msg ∷ rest) (suc n) c p x h =
      ground (arith, drain_from rest n c (p + 1) x, drain_from rest (suc n) c p (x + 1))

  -- Draining the adapter, with a call more than there are items at least, gives the kept items in
  -- their order, and the two counters add up to the messages.
  pub drain-filter_messages :
      (items : List (Item F E)) (c : FilterConfig) (n : ℕ)
      → length items < n
      → let (out, f) = drain n (filter_messages items c) in
        (out ≡ kept_items c items) × (f.passed + f.excluded ≡ messages items)
  unfolding filter_messages
  drain-filter_messages items c n h =
      let (out, count) = drain_from items n c 0 0 h in (out, omega (arith, count))

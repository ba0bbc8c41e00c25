-- ===== src/Merge/Dedup/Laws.antt =====
-- Which records `is_duplicate` of rust/src/merge.rs takes for duplicates, and what it remembers.
use mie_decoder.Common.{
  ℕ, ◌≡◌, ◌≢◌, ◌≤◌, ◌<◌, ◌↔◌, ◌+◌, ◌++◌, ap, ◌⊎◌, refl, ◌∙◌, inl, inr, Bool, true, false, List, [],
  ◌∷◌, leb, arith, if_intro, Bool-cases, length, length-append, select, All, All-append,
}
use mie_decoder.Models.DataWords.{as_slice}
use mie_decoder.Models.Message.{MieMessage}
use mie_decoder.Merge.Dedup.{
  DedupKey, DedupKey-discrete, key_eq, Survivor, DedupWindow, new_window, in_window, is_match,
  any_match, make_room, key_of, is_duplicate,
}

pub key_eq_iff : (k k' : DedupKey) → (key_eq k k' ≡ true) ↔ (k ≡ k')
key_eq_iff k k' =
    elim (DedupKey-discrete k k')
      as (λ d. ((elim d as (λ x. Bool) [ yes e ↦ true | no n ↦ false ]) ≡ true) ↔ (k ≡ k')) [
        | yes e ↦ (λ h. e, λ h. refl)
        | no n ↦ (λ h. cc, λ h. absurd (n h))
      ]

-- The fields by which L2-MRG-007 compares two records, one by one.
pub record SameContent {F : Type 0} (key : DedupKey) (msg : MieMessage F) : Type 0 where
  pub type_word : key.type_word ≡ msg.type_word
  pub command_word : key.command_word ≡ msg.command_word
  pub command_word_2 : key.command_word_2 ≡ msg.command_word_2
  pub status_word : key.status_word ≡ msg.status_word
  pub status_word_2 : key.status_word_2 ≡ msg.status_word_2
  pub error_word : key.error_word ≡ msg.error_word
  pub data_words : key.data_words ≡ as_slice msg.data_words

-- At most the window away, before or behind.
abbrev pub IsNear : ℕ → ℕ → Survivor → Type 0
IsNear window us v = (v.us ≤ us + window) × (us ≤ v.us + window)

IsNear-iff : (window us : ℕ) (v : Survivor) → (in_window window us v ≡ true) ↔ IsNear window us v
IsNear-iff window us v = (λ h. ground arith, λ h. ground arith)

module _ {F : Type 0} where
  key_of_iff : (k : DedupKey) (msg : MieMessage F) → (k ≡ key_of msg) ↔ SameContent k msg
  unfolding key_of
  key_of_iff k msg = (
    λ e. record {
      type_word = ap (λ (x : DedupKey). x.type_word) e;
      command_word = ap (λ (x : DedupKey). x.command_word) e;
      command_word_2 = ap (λ (x : DedupKey). x.command_word_2) e;
      status_word = ap (λ (x : DedupKey). x.status_word) e;
      status_word_2 = ap (λ (x : DedupKey). x.status_word_2) e;
      error_word = ap (λ (x : DedupKey). x.error_word) e;
      data_words = ap (λ (x : DedupKey). x.data_words) e;
    },
    λ c i. record {
      type_word = c.type_word i;
      command_word = c.command_word i;
      command_word_2 = c.command_word_2 i;
      status_word = c.status_word i;
      status_word_2 = c.status_word_2 i;
      error_word = c.error_word i;
      data_words = c.data_words i;
    },
  )

  -- Some survivor at most the window away came from another input and has the same content.
  abbrev pub HasWitness : ℕ → ℕ → ℕ → MieMessage F → List Survivor → Type 0
  HasWitness window us file_index msg [] = ⊥
  HasWitness window us file_index msg (v ∷ vs) =
      (IsNear window us v × (v.file_index ≢ file_index) × SameContent v.key msg)
      ⊎ HasWitness window us file_index msg vs

  match_sound :
      (window us file_index : ℕ) (msg : MieMessage F) (vs : List Survivor)
      → any_match file_index (key_of msg) (select (in_window window us) vs) ≡ true
      → HasWitness window us file_index msg vs
  match_sound window us f msg [] h = cc
  match_sound window us f msg (v ∷ vs) h = elim (Bool-cases (in_window window us v)) [
    | inl y ↦ elim (Bool-cases (is_match f (key_of msg) v)) [
      | inl m ↦ inl (
        (IsNear-iff window us v).0 y,
        λ e. ground arith,
        (key_of_iff v.key msg).0 ((key_eq_iff v.key (key_of msg)).0 (ground arith)),
      )
      | inr n ↦ inr (match_sound window us f msg vs (ground arith))
    ]
    | inr n ↦ inr (match_sound window us f msg vs (ground arith))
  ]

  match_complete :
      (window us file_index : ℕ) (msg : MieMessage F) (vs : List Survivor)
      → HasWitness window us file_index msg vs
      → any_match file_index (key_of msg) (select (in_window window us) vs) ≡ true
  match_complete window us f msg [] h = absurd h
  match_complete window us f msg (v ∷ vs) (inl (a, b, c)) =
      let near = (IsNear-iff window us v).1 a in
      let same = (key_eq_iff v.key (key_of msg)).1 ((key_of_iff v.key msg).1 c) in
      ground (arith, near, same, b)
  match_complete window us f msg (v ∷ vs) (inr h) =
      ground (arith, match_complete window us f msg vs h)

-- Room for a survivor within the cap, and every survivor of some time ago is known.
pub record IsValid (w : DedupWindow) : Type 0 where
  pub cap : 1 ≤ w.max_survivors
  pub bounded : length w.survivors ≤ w.max_survivors

make_room-lt : (cap : ℕ) (vs : List Survivor) → 1 ≤ cap → length (make_room cap vs) < cap
unfolding make_room
make_room-lt cap [] h = omega arith
make_room-lt cap (v ∷ vs) h = ground (arith, make_room-lt cap vs)

make_room-All {κ} :
    (P : Survivor → Type κ) (cap : ℕ) (vs : List Survivor) → All P vs → All P (make_room cap vs)
unfolding make_room
make_room-All P cap [] h = h
make_room-All P cap (v ∷ vs) h =
    if_intro (All P) (leb cap (length (v ∷ vs))) _ _ (λ e. make_room-All P cap vs h.1) (λ e. h)

length-select : (p : Survivor → Bool) (vs : List Survivor) → length (select p vs) ≤ length vs
length-select p [] = omega arith
length-select p (v ∷ vs) = ground (arith, length-select p vs)

pub new_window-IsValid : (window cap : ℕ) → IsValid (new_window window cap)
unfolding new_window
new_window-IsValid window cap = record { cap = omega arith; bounded = omega arith }

IsNear-select :
    (window us : ℕ) (vs : List Survivor) → All (IsNear window us) (select (in_window window us) vs)
IsNear-select window us [] = tt
IsNear-select window us (v ∷ vs) = elim (Bool-cases (in_window window us v)) [
  | inl y ↦ rw y ((IsNear-iff window us v).0 y, IsNear-select window us vs)
  | inr n ↦ rw n (IsNear-select window us vs)
]

abbrev pub Holds : Survivor → List Survivor → Type 0
Holds v [] = ⊥
Holds v (x ∷ xs) = (x ≡ v) ⊎ Holds v xs

Holds-append : (v : Survivor) (xs ys : List Survivor) → Holds v xs → Holds v (xs ++ ys)
Holds-append v [] ys h = absurd h
Holds-append v (x ∷ xs) ys (inl e) = inl e
Holds-append v (x ∷ xs) ys (inr h) = inr (Holds-append v xs ys h)

Holds-select :
    (p : Survivor → Bool) (v : Survivor) (xs : List Survivor)
    → p v ≡ true
    → Holds v xs
    → Holds v (select p xs)
Holds-select p v [] y h = absurd h
Holds-select p v (x ∷ xs) y (inl e) = rw (ap p e ∙ y) (inl e)
Holds-select p v (x ∷ xs) y (inr h) =
    if_intro (Holds v) (p x) _ _ (λ kept. inr (Holds-select p v xs y h))
      (λ dropped. Holds-select p v xs y h)

make_room_lem : (cap : ℕ) (vs : List Survivor) → length vs < cap → make_room cap vs ≡ vs
unfolding make_room
make_room_lem cap [] h = refl
make_room_lem cap (v ∷ vs) h = ground arith

-- The record is the newest of the survivors.
abbrev pub IsRemembered : {F : Type 0} → ℕ → ℕ → MieMessage F → List Survivor → Type 0
IsRemembered us file_index msg [] = ⊥
IsRemembered us file_index msg (v ∷ []) =
    (v.us ≡ us) × (v.file_index ≡ file_index) × SameContent v.key msg
IsRemembered us file_index msg (v ∷ w ∷ vs) = IsRemembered us file_index msg (w ∷ vs)

-- What a call leaves: no more survivors than the cap allows, each of them in the window, all that
-- were there in the window if the cap has room, and the record itself unless it is a duplicate.
pub record IsTrimmed {F : Type 0} (w : DedupWindow) (us file_index : ℕ) (msg : MieMessage F)
    (r : DedupWindow × Bool) : Type 0 where
  pub valid : IsValid r.0
  pub near : All (IsNear w.window_us us) r.0.survivors
  pub kept :
      length w.survivors < w.max_survivors
      → (v : Survivor) → Holds v w.survivors
      → IsNear w.window_us us v
      → Holds v r.0.survivors
  pub remembered : r.1 ≡ false → IsRemembered us file_index msg r.0.survivors

module _ {F : Type 0} where
  IsRemembered-append :
      (us file_index : ℕ) (msg : MieMessage F) (vs : List Survivor) (v : Survivor)
      → IsRemembered us file_index msg (v ∷ [])
      → IsRemembered us file_index msg (vs ++ v ∷ [])
  IsRemembered-append us f msg [] v h = h
  IsRemembered-append us f msg (x ∷ []) v h = h
  IsRemembered-append us f msg (x ∷ y ∷ vs) v h = IsRemembered-append us f msg (y ∷ vs) v h

  -- A record is a duplicate exactly when a survivor whose time is at most the window away, before or
  -- behind, came from another input and has the same Type Word, Command Words, status words, error
  -- word and data words, wherever in the buffer that survivor stands.
  pub is_duplicate_iff :
      (w : DedupWindow) (us file_index : ℕ) (msg : MieMessage F)
      → ((is_duplicate w us file_index msg).1 ≡ true)
        ↔ HasWitness w.window_us us file_index msg w.survivors
  unfolding is_duplicate
  is_duplicate_iff w us f msg = (
    λ h. match_sound w.window_us us f msg w.survivors (ground arith),
    λ h. ground (arith, match_complete w.window_us us f msg w.survivors h),
  )

  -- From a valid state a call leaves no survivor more than the window away from the record, before
  -- or behind, whatever the order in which they came, and at most as many as the cap allows; if there
  -- were fewer than the cap, every survivor that is not that far away is still there; a record that is
  -- no duplicate is the newest of them.
  pub is_duplicate-IsTrimmed :
      (w : DedupWindow) (us file_index : ℕ) (msg : MieMessage F)
      → IsValid w
      → IsTrimmed w us file_index msg (is_duplicate w us file_index msg)
  unfolding is_duplicate
  is_duplicate-IsTrimmed w us f msg v =
      let retained = select (in_window w.window_us us) w.survivors in
      let newest : Survivor = record { us = us; file_index = f; key = key_of msg } in
      let room = make_room-lt w.max_survivors retained v.cap in
      let still : (x : Survivor)
          → Holds x w.survivors
          → IsNear w.window_us us x
          → Holds x retained =
        λ x h n.
          Holds-select (in_window w.window_us us) x w.survivors ((IsNear-iff w.window_us us x).1 n)
            h in
      if_intro (IsTrimmed w us f msg) (any_match f (key_of msg) retained) _ _
        (λ old. record {
          valid = record {
            cap = v.cap;
            bounded =
                omega (arith, v.bounded, length-select (in_window w.window_us us) w.survivors);
          };
          near = IsNear-select w.window_us us w.survivors;
          kept = λ room_left x h n. still x h n;
          remembered = λ e. absurd cc;
        })
        (λ fresh. record {
          valid = record {
            cap = v.cap;
            bounded =
                omega
                  (arith, room, length-append (make_room w.max_survivors retained) (newest ∷ []));
          };
          near =
              All-append (IsNear w.window_us us) (make_room w.max_survivors retained) (newest ∷ [])
                (make_room-All (IsNear w.window_us us) w.max_survivors retained
                  (IsNear-select w.window_us us w.survivors))
                ((omega arith, omega arith), tt);
          kept = λ room_left x h n.
              let fits : length retained < w.max_survivors =
                omega (arith, length-select (in_window w.window_us us) w.survivors) in
              Holds-append x (make_room w.max_survivors retained) (newest ∷ [])
                (rw (make_room_lem w.max_survivors retained fits) (still x h n));
          remembered = λ e.
              IsRemembered-append us f msg (make_room w.max_survivors retained) newest
                (refl, refl, (key_of_iff newest.key msg).0 refl);
        })

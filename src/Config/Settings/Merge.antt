-- ===== src/Config/Settings/Merge.antt =====
-- `with_overrides` of rust/src/config.rs: the filters are joined, and the ranges are kept.
use mie_decoder.Config.Settings.{
  DecoderConfig, ConfigOverrides, override, override_some, merge_unique, with_overrides,
}
use mie_decoder.Config.Names.{Level, parse_level}
use mie_decoder.Config.Toml.Value.{Std}
use mie_decoder.Config.Sections.InRange.{WithinDay, OptionAll, TickRate, RunOk, InRange}
use mie_decoder.Filter.{contains}
use mathlib.Core.Path.{subst}
use mie_decoder.Common.{
  ℕ, ◌≤◌, ◌≡◌, refl, ap, ◌∙◌, ◌≢◌, inl, inr, true, false, ◌||◌, Option, none, some, List, [], ◌∷◌,
  ◌++◌, arith, ◌==◌, if◌then◌else◌, Bool-cases, if_intro, All, All-append,
}

contains-append :
    (xs ys : List ℕ) (x : ℕ) → contains (xs ++ ys) x ≡ (contains xs x || contains ys x)
contains-append [] ys x = refl
contains-append (y ∷ xs) ys x = ground (arith, contains-append xs ys x)

contains_here :
    (target : List ℕ) (v x : ℕ) → contains target v ≡ true → v ≡ x → contains target x ≡ true
contains_here target v x h e = subst (λ y. contains target y ≡ true) e h

contains-with_one :
    (target : List ℕ) (v x : ℕ)
    → contains (if contains target v then target else target ++ v ∷ []) x
      ≡ (contains target x || v == x)
contains-with_one target v x = elim (Bool-cases (contains target v)) [
  | inl y ↦ ground (arith, contains_here target v x y)
  | inr n ↦ ground (arith, contains-append target (v ∷ []) x)
]

-- A set of a filter that is joined with the overrides holds a number exactly if one of the two
-- does.
pub merge_unique-contains :
    (target source : List ℕ) (x : ℕ)
    → contains (merge_unique contains target source) x ≡ (contains target x || contains source x)
unfolding merge_unique
merge_unique-contains target [] x = ground arith
merge_unique-contains target (v ∷ source) x =
    merge_unique-contains (if contains target v then target else target ++ v ∷ []) source x
    ∙ ap (λ b. b || contains source x) (contains-with_one target v x)
    ∙ ground arith

-- No entry is there twice.
abbrev pub Distinct : List ℕ → Type 0
Distinct [] = Unit
Distinct (x ∷ xs) = (contains xs x ≡ false) × Distinct xs

Distinct-append :
    (xs : List ℕ) (v : ℕ) → Distinct xs → contains xs v ≡ false → Distinct (xs ++ v ∷ [])
Distinct-append [] v d h = (refl, tt)
Distinct-append (x ∷ xs) v d h =
    (ground (arith, contains-append xs (v ∷ []) x, d.0), Distinct-append xs v d.1 (ground arith))

pub merge_unique-Distinct :
    (target source : List ℕ) → Distinct target → Distinct (merge_unique contains target source)
unfolding merge_unique
merge_unique-Distinct target [] d = d
merge_unique-Distinct target (v ∷ source) d =
    merge_unique-Distinct (if contains target v then target else target ++ v ∷ []) source
      (if_intro Distinct (contains target v) _ _ (λ h. d) (λ h. Distinct-append target v d h))

merge_unique-All :
    (P : ℕ → Type 0) (target source : List ℕ)
    → All P target
    → All P source
    → All P (merge_unique contains target source)
unfolding merge_unique
merge_unique-All P target [] t s = t
merge_unique-All P target (v ∷ source) t s =
    merge_unique-All P (if contains target v then target else target ++ v ∷ []) source
      (if_intro (All P) (contains target v) _ _ (λ h. t)
        (λ h. All-append P target (v ∷ []) t (s.0, tt)))
      s.1

override_keeps :
    {A : Type 0} (P : A → Type 0) (a : A) (o : Option A) → P a → OptionAll P o → P (override a o)
override_keeps P a none p q = p
override_keeps P a (some v) p q = q

override_some_keeps :
    {A : Type 0} (P : A → Type 0) (a o : Option A)
    → OptionAll P a
    → OptionAll P o
    → OptionAll P (override_some a o)
override_some_keeps P a none p q = p
override_some_keeps P a (some v) p q = q

abbrev pub Between : ℕ → ℕ → ℕ → Type 0
Between lo hi n = (lo ≤ n) × (n ≤ hi)

module _ {F : Type 0} (std : Std F) where
  -- The overrides are in the ranges that the configuration file is held to.
  pub record OverridesOk (ov : ConfigOverrides F) : Type 0 where
    pub level : OptionAll (λ s. (l : Level) × (parse_level s ≡ some l)) ov.log_level
    pub detect : OptionAll (Between 1 32) ov.detect_records
    pub lookahead : OptionAll (Between 1 32) ov.lookahead_records
    pub tick_rate : OptionAll (TickRate std) ov.standard_tick_rate_hz
    pub in_years : OptionAll (Between 1 9999) ov.year
    pub offset : OptionAll WithinDay ov.utc_offset_minutes
    pub sort_group : OptionAll (Between 1 1_048_576) ov.max_sort_group
    pub delimiter : OptionAll (λ d. d ≢ []) ov.mux_delimiter
    pub survivors : OptionAll (Between 1 1_048_576) ov.max_collapse_survivors

  -- The excluded types, addresses and subaddresses among them, too.
  abbrev pub FilterOverridesOk : ConfigOverrides F → Type 0
  FilterOverridesOk ov =
      All (λ (n : ℕ). n ≤ 255) ov.exclude_types
      × All (λ (n : ℕ). n ≤ 31) ov.exclude_rts
      × All (λ (n : ℕ). n ≤ 31) ov.exclude_subaddresses

  pub with_overrides-RunOk :
      (c : DecoderConfig F) (ov : ConfigOverrides F)
      → RunOk std c
      → OverridesOk ov
      → RunOk std (with_overrides c ov)
  unfolding with_overrides
  with_overrides-RunOk c ov h o = (
    override_keeps _ c.log_level ov.log_level h.0 o.level,
    (
      override_keeps (Between 1 32) c.detect_records ov.detect_records h.1.0 o.detect,
      override_keeps (Between 1 32) c.lookahead_records ov.lookahead_records h.1.1 o.lookahead,
      override_some_keeps (TickRate std) c.standard_tick_rate_hz ov.standard_tick_rate_hz h.1.2
          o.tick_rate,
    ),
    (
      override_some_keeps (Between 1 9999) c.year ov.year h.2.0 o.in_years,
      override_keeps WithinDay c.utc_offset_minutes ov.utc_offset_minutes h.2.1 o.offset,
      override_keeps (Between 1 1_048_576) c.max_sort_group ov.max_sort_group h.2.2 o.sort_group,
    ),
    override_keeps (λ d. d ≢ []) c.mux_delimiter ov.mux_delimiter h.3 o.delimiter,
    override_keeps (Between 1 1_048_576) c.max_collapse_survivors ov.max_collapse_survivors h.4
        o.survivors,
  )

  -- Where the settings are in their ranges and the overrides are too, the settings behind
  -- `with_overrides` are in their ranges.
  pub with_overrides-InRange :
      (c : DecoderConfig F) (ov : ConfigOverrides F)
      → InRange std c
      → OverridesOk ov
      → FilterOverridesOk ov
      → InRange std (with_overrides c ov)
  unfolding with_overrides
  with_overrides-InRange c ov h o f =
      let r = with_overrides-RunOk c ov (h.0, h.1, h.2, h.3, h.4) o in
      (
        r.0,
        r.1,
        r.2,
        r.3,
        r.4,
        (
          merge_unique-All _ c.filters.exclude_types ov.exclude_types h.5.0 f.0,
          merge_unique-All _ c.filters.exclude_rts ov.exclude_rts h.5.1 f.1,
          merge_unique-All _ c.filters.exclude_subaddresses ov.exclude_subaddresses h.5.2 f.2,
        ),
      )

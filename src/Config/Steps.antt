-- ===== src/Config/Steps.antt =====
-- The steps of loading a configuration in rust/src/config.rs: each changes the settings
-- `&mut cfg` or stops with an error, and they run in turn.
use mie_decoder.Config.Toml.Get.{ConfigProblem}
use mie_decoder.Common.{
  ◌⊎◌, inl, inr, Option, none, some, List, [], ◌∷◌, set, ◌>>=◌, Right, Right-bind, All,
}

-- `setting found set` is `if let Some(x) = found? { ... }`; a check changes nothing.
pub data LoadStep (C : Type 0) : Type 1 where
  setting : {A : Type 0} → ConfigProblem ⊎ Option A → (C → A → ConfigProblem ⊎ C) → LoadStep C
  require : ConfigProblem ⊎ Unit {0} → LoadStep C

module _ {C : Type 0} where
  abbrev if_some :
      {A : Type 0} → ConfigProblem ⊎ Option A → (C → A → ConfigProblem ⊎ C) → C → ConfigProblem ⊎ C
  if_some (inl e) set c = inl e
  if_some (inr none) set c = inr c
  if_some (inr (some x)) set c = set c x

  unfoldable pub run_step : LoadStep C → C → ConfigProblem ⊎ C
  run_step (setting found set) c = if_some found set c
  run_step (require check) c = check >>= (λ u. inr c)

  unfoldable pub run : List (LoadStep C) → C → ConfigProblem ⊎ C
  unfolding run_step
  run [] c = inr c
  run (s ∷ steps) c = run_step s c >>= run steps

  -- A step keeps a predicate: where it succeeds, what held before holds behind it.
  abbrev pub KeptBy : (C → Type 0) → LoadStep C → Type 0
  KeptBy P (setting {A = A} found set) = (c : C) (x : A) → P c → Right P (set c x)
  KeptBy P (require check) = Unit

  some_keeps :
      (P : C → Type 0) {A : Type 0} (found : ConfigProblem ⊎ Option A)
      (set : C → A → ConfigProblem ⊎ C) (c : C)
      → ((c : C) (x : A) → P c → Right P (set c x))
      → P c
      → Right P (if_some found set c)
  some_keeps P (inl e) set c k h = tt
  some_keeps P (inr none) set c k h = h
  some_keeps P (inr (some x)) set c k h = k c x h

  step_keeps : (P : C → Type 0) (s : LoadStep C) (c : C) → KeptBy P s → P c → Right P (run_step s c)
  unfolding run_step
  step_keeps P (setting found set) c k h = some_keeps P found set c k h
  step_keeps P (require (inl e)) c k h = tt
  step_keeps P (require (inr u)) c k h = h

  pub run_keeps :
      (P : C → Type 0) (steps : List (LoadStep C)) (c : C)
      → All (KeptBy P) steps
      → P c
      → Right P (run steps c)
  unfolding run
  run_keeps P [] c k h = h
  run_keeps P (s ∷ steps) c k h =
      Right-bind P P (run_step s c) (run steps) (step_keeps P s c k.0 h)
        (λ d p. run_keeps P steps d k.1 p)

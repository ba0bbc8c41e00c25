-- ===== src/Common/Results.antt =====
-- The chain of fallible steps: `?` in Rust.
use mathlib.Core.Path.{◌≡◌, refl, subst}
use mathlib.Core.Sum.{inr-injective}
use mathlib.Core.Logic.{◌⊎◌, inl, inr}

module _ {ℓ} {E A B : Type ℓ} where
  infixl 5 ◌>>=◌
  abbrev pub ◌>>=◌ : E ⊎ A → (A → E ⊎ B) → E ⊎ B
  inl e >>= f = inl e
  inr a >>= f = f a

  -- What a chain that succeeds has gone through.
  pub bind_inr :
      (m : E ⊎ A) (f : A → E ⊎ B) {b : B}
      → (m >>= f) ≡ inr b
      → (a : A) × (m ≡ inr a) × (f a ≡ inr b)
  bind_inr (inl e) f h = cc
  bind_inr (inr a) f h = (a, refl, h)

-- What holds of a result, if there is one.
abbrev pub Right {ℓ} : {E A : Type 0} → (A → Type ℓ) → E ⊎ A → Type ℓ
Right P (inl e) = Unit
Right P (inr a) = P a

pub Right-bind {ℓ κ} :
    {E A B : Type 0} (P : A → Type ℓ) (Q : B → Type κ) (m : E ⊎ A) (f : A → E ⊎ B)
    → Right P m
    → ((a : A) → P a → Right Q (f a))
    → Right Q (m >>= f)
Right-bind P Q (inl e) f p q = tt
Right-bind P Q (inr a) f p q = q a p

pub Right-eq {ℓ} : {E A : Type 0} (P : A → Type ℓ) (m : E ⊎ A) (a : A) → Right P m → m ≡ inr a → P a
Right-eq P (inl e) a p h = cc
Right-eq P (inr b) a p h = subst P (inr-injective b a h) p

pub Right-then {ℓ} :
    {E A B : Type 0} (Q : B → Type ℓ) (m : E ⊎ A) (f : A → E ⊎ B)
    → ((a : A) → Right Q (f a))
    → Right Q (m >>= f)
Right-then Q (inl e) f q = tt
Right-then Q (inr a) f q = q a

-- ===== src/Common/Sort.antt =====
-- The standard library's stable sort.
use mathlib.Core.Path.{◌≡◌, refl}
use mathlib.Core.Logic.{inl, inr}
use mathlib.Core.List.{List, [], ◌∷◌, ◌++◌, Perm, perm_append_comm, append_assoc}
use mathlib.Core.List.Perm
use mathlib.Core.Bool.{Bool, true, false}
use native.Mathlib.Omega.{arith}
use mie_decoder.Common.Tests.{if◌then◌else◌, Bool-cases}
use mie_decoder.Common.Alls.{All}

-- The entries that pass a test, in their order.
abbrev pub select {ℓ} : {A : Type ℓ} → (A → Bool) → List A → List A
select p [] = []
select p (x ∷ xs) = if p x then x ∷ select p xs else select p xs

module _ {ℓ} {A : Type ℓ} (le : A → A → Bool) where
  -- `x` stands before the entries that are equal to it.
  unfoldable pub insert_sorted : A → List A → List A
  insert_sorted x [] = x ∷ []
  insert_sorted x (y ∷ ys) =
      let later = insert_sorted x ys in if le x y then x ∷ y ∷ ys else y ∷ later

  unfoldable pub stable_sort : List A → List A
  unfolding insert_sorted
  stable_sort [] = []
  stable_sort (x ∷ xs) = insert_sorted x (stable_sort xs)

  -- Every entry is at most every later one.
  abbrev pub IsSorted : List A → Type 0
  IsSorted [] = Unit {0}
  IsSorted (x ∷ xs) = All (λ y. le x y ≡ true) xs × IsSorted xs

  pub insert_sorted-All {κ} :
      (P : A → Type κ) (x : A) (xs : List A) → P x → All P xs → All P (insert_sorted x xs)
  unfolding insert_sorted
  insert_sorted-All P x [] p h = (p, h)
  insert_sorted-All P x (y ∷ ys) p h = elim (Bool-cases (le x y)) [
    | inl before ↦ rw (insert_sorted, before) (p, h)
    | inr behind ↦ rw (insert_sorted, behind) (h.0, insert_sorted-All P x ys p h.1)
  ]

  pub stable_sort-All {κ} : (P : A → Type κ) (xs : List A) → All P xs → All P (stable_sort xs)
  unfolding stable_sort
  stable_sort-All P [] h = h
  stable_sort-All P (x ∷ xs) h =
      insert_sorted-All P x (stable_sort xs) h.0 (stable_sort-All P xs h.1)

  pub insert_sorted-perm : (x : A) (xs : List A) → Perm (insert_sorted x xs) (x ∷ xs)
  unfolding insert_sorted
  insert_sorted-perm x [] = Perm.rfl
  insert_sorted-perm x (y ∷ ys) = elim (Bool-cases (le x y)) [
    | inl before ↦ rw (insert_sorted, before) Perm.rfl
    | inr behind ↦
        rw (insert_sorted, behind)
          (Perm.trans (Perm.cons y (insert_sorted-perm x ys)) (Perm.swap x y ys))
  ]

  pub stable_sort-perm : (xs : List A) → Perm (stable_sort xs) xs
  unfolding stable_sort
  stable_sort-perm [] = Perm.rfl
  stable_sort-perm (x ∷ xs) =
      Perm.trans (insert_sorted-perm x (stable_sort xs)) (Perm.cons x (stable_sort-perm xs))

  -- Entries of a class within which everything is equal keep their order.
  module _ (p : A → Bool) (equal : (x y : A) → p x ≡ true → p y ≡ true → le x y ≡ true) where
    insert_sorted_stable : (x : A) (ys : List A) → select p (insert_sorted x ys) ≡ select p (x ∷ ys)
    unfolding insert_sorted
    insert_sorted_stable x [] = refl
    insert_sorted_stable x (y ∷ ys) = ground (arith, equal x y, insert_sorted_stable x ys)

    pub stable_sort_stable : (xs : List A) → select p (stable_sort xs) ≡ select p xs
    unfolding stable_sort
    stable_sort_stable [] = refl
    stable_sort_stable (x ∷ xs) =
        ground (arith, insert_sorted_stable x (stable_sort xs), stable_sort_stable xs)

  module _ (total : (x y : A) → le x y ≡ false → le y x ≡ true)
      (trans : (x y z : A) → le x y ≡ true → le y z ≡ true → le x z ≡ true) where
    at_most-All :
        (x y : A) (ys : List A)
        → le x y ≡ true
        → All (λ z. le y z ≡ true) ys
        → All (λ z. le x z ≡ true) ys
    at_most-All x y [] h all = all
    at_most-All x y (z ∷ zs) h all = (trans x y z h all.0, at_most-All x y zs h all.1)

    pub insert_sorted-IsSorted : (x : A) (xs : List A) → IsSorted xs → IsSorted (insert_sorted x xs)
    unfolding insert_sorted
    insert_sorted-IsSorted x [] s = (tt, tt)
    insert_sorted-IsSorted x (y ∷ ys) s = elim (Bool-cases (le x y)) [
      | inl before ↦ rw (insert_sorted, before) ((before, at_most-All x y ys before s.0), s)
      | inr behind ↦
          rw (insert_sorted, behind)
            (
              insert_sorted-All (λ z. le y z ≡ true) x ys (total x y behind) s.0,
              insert_sorted-IsSorted x ys s.1,
            )
    ]

    pub stable_sort-IsSorted : (xs : List A) → IsSorted (stable_sort xs)
    unfolding stable_sort
    stable_sort-IsSorted [] = tt
    stable_sort-IsSorted (x ∷ xs) =
        insert_sorted-IsSorted x (stable_sort xs) (stable_sort-IsSorted xs)

pub exchange : {A : Type 0} (xs ys zs : List A) → Perm (xs ++ (ys ++ zs)) (ys ++ (xs ++ zs))
exchange xs ys zs =
    rw (append_assoc xs ys zs, append_assoc ys xs zs) at
      (Perm.append (perm_append_comm xs ys) (Perm.rfl {l = zs}))

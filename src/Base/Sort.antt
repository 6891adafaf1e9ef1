-- ===== src/Base/Sort.antt =====
-- The stable sort of the program's standard library, by a Boolean "not after".
use mathlib.Core.Path.{◌≡◌, refl}
use mathlib.Core.Bool.{Bool, true, false, ◌||◌}
use mathlib.Core.List.{List, [], ◌∷◌}
use mathlib.Core.Logic.{inl, inr}
use native.Mathlib.Omega.{arith}
use peekback.Base.Tests.{if◌then◌else◌, Eq, ◌==◌, Bool-cases}
use peekback.Base.Lists.{All, any, keep, All-keep_of, contains}

module _ {ℓ} {A : Type ℓ} where
  unfoldable pub insert : (A → A → Bool) → A → List A → List A
  insert le x [] = x ∷ []
  insert le x (y ∷ ys) = if le x y then x ∷ y ∷ ys else y ∷ insert le x ys

  unfoldable pub sort : (A → A → Bool) → List A → List A
  sort le [] = []
  sort le (x ∷ xs) = insert le x (sort le xs)

  -- Every element stands before those that follow it, as far as the order tells.
  abbrev pub IsSorted : (A → A → Bool) → List A → Type ℓ
  IsSorted le [] = Unit
  IsSorted le (x ∷ xs) = All (λ y. le x y ≡ true) xs × IsSorted le xs

  single : (le : A → A → Bool) (x : A) → insert le x [] ≡ x ∷ []
  unfolding insert
  single le x = refl

  first :
      (le : A → A → Bool) (x y : A) (ys : List A)
      → le x y ≡ true
      → insert le x (y ∷ ys) ≡ x ∷ y ∷ ys
  unfolding insert
  first le x y ys h = rw h

  pub sort_sorted : (le : A → A → Bool) (xs : List A) → IsSorted le xs → sort le xs ≡ xs
  unfolding sort
  sort_sorted le [] h = refl
  sort_sorted le (x ∷ []) h = single le x
  sort_sorted le (x ∷ y ∷ ys) h = rw (sort_sorted le (y ∷ ys) h.1) (first le x y ys h.0.0)

  pub keep-IsSorted :
      (le : A → A → Bool) (p : A → Bool) (xs : List A) → IsSorted le xs → IsSorted le (keep p xs)
  keep-IsSorted le p [] h = tt
  keep-IsSorted le p (x ∷ xs) h = elim (Bool-cases (p x)) [
    | inl e ↦ rw e (All-keep_of (λ y. le x y ≡ true) p xs h.0, keep-IsSorted le p xs h.1)
    | inr e ↦ rw e (keep-IsSorted le p xs h.1)
  ]

  insert-All :
      (P : A → Type 0) (le : A → A → Bool) (x : A) (ys : List A)
      → P x
      → All P ys
      → All P (insert le x ys)
  unfolding insert
  insert-All P le x [] h k = (h, tt)
  insert-All P le x (y ∷ ys) h k = elim (Bool-cases (le x y)) [
    | inl e ↦ rw e (h, k)
    | inr e ↦ rw e (k.0, insert-All P le x ys h k.1)
  ]

  pub All-sort : (P : A → Type 0) (le : A → A → Bool) (xs : List A) → All P xs → All P (sort le xs)
  unfolding sort
  All-sort P le [] h = tt
  All-sort P le (x ∷ xs) h = insert-All P le x (sort le xs) h.0 (All-sort P le xs h.1)

module _ {ℓ} {A : Type ℓ} (p : A → Bool) (le : A → A → Bool) where
  any-insert : (x : A) (ys : List A) → any p (insert le x ys) ≡ (p x || any p ys)
  unfolding insert
  any-insert x [] = refl
  any-insert x (y ∷ ys) = ground (arith, any-insert x ys)

  pub any-sort : (xs : List A) → any p (sort le xs) ≡ any p xs
  unfolding sort
  any-sort [] = refl
  any-sort (x ∷ xs) = ground (arith, any-insert x (sort le xs), any-sort xs)

-- What a sort needs of its order.
pub record IsOrder {ℓ} {A : Type ℓ} (le : A → A → Bool) : Type ℓ where
  pub trans : (a b c : A) → le a b ≡ true → le b c ≡ true → le a c ≡ true
  pub total : (a b : A) → le a b ≡ false → le b a ≡ true

module _ {ℓ} {A : Type ℓ} ⦃e : Eq A⦄ (le : A → A → Bool) where
  contains-insert :
      (x : A) (ys : List A) (a : A) → contains (insert le x ys) a ≡ (x == a || contains ys a)
  unfolding insert
  contains-insert x [] a = refl
  contains-insert x (y ∷ ys) a = ground (arith, contains-insert x ys a)

  -- A sort has the elements it was given.
  pub contains-sort : (xs : List A) (a : A) → contains (sort le xs) a ≡ contains xs a
  unfolding sort
  contains-sort [] a = refl
  contains-sort (x ∷ xs) a = ground (arith, contains-insert x (sort le xs) a, contains-sort xs a)

module _ {ℓ} {A : Type ℓ} (le : A → A → Bool) (order : IsOrder le) where
  All-trans :
      (x y : A) (ys : List A)
      → le x y ≡ true
      → All (λ z. le y z ≡ true) ys
      → All (λ z. le x z ≡ true) ys
  All-trans x y [] h k = tt
  All-trans x y (z ∷ zs) h k = (order.trans x y z h k.0, All-trans x y zs h k.1)

  insert-IsSorted : (x : A) (ys : List A) → IsSorted le ys → IsSorted le (insert le x ys)
  unfolding insert
  insert-IsSorted x [] h = (tt, tt)
  insert-IsSorted x (y ∷ ys) h = elim (Bool-cases (le x y)) [
    | inl e ↦ rw e ((e, All-trans x y ys e h.0), h)
    | inr e ↦
        rw e (
          insert-All (λ z. le y z ≡ true) le x ys (order.total x y e) h.0,
          insert-IsSorted x ys h.1,
        )
  ]

  pub sort-IsSorted : (xs : List A) → IsSorted le (sort le xs)
  unfolding sort
  sort-IsSorted [] = tt
  sort-IsSorted (x ∷ xs) = insert-IsSorted x (sort le xs) (sort-IsSorted xs)

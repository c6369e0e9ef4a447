-- ===== src/Prelude/Sort.antt =====
-- Array.prototype.sort with a comparator, as the stable sort that the language specifies.
-- `le a b` says that the comparator's answer on (a, b) is not positive.
use glanceus.Prelude.{
  suc, ◌≡◌, refl, Bool, true, List, [], ◌∷◌, arith, length, All, if◌then◌else◌, ◌⊎◌,
}

module _ {ℓ} {A : Type ℓ} (le : A → A → Bool) where
  unfoldable pub insert : A → List A → List A
  insert a [] = a ∷ []
  insert a (x ∷ xs) = if le a x then a ∷ x ∷ xs else x ∷ insert a xs

  unfoldable pub sort : List A → List A
  unfolding insert
  sort [] = []
  sort (x ∷ xs) = insert x (sort xs)

  abbrev pub AllLe : A → List A → Type 0
  AllLe a = All (λ x. le a x ≡ true)

  abbrev pub IsSorted : List A → Type 0
  IsSorted [] = Unit {0}
  IsSorted (x ∷ xs) = AllLe x xs × IsSorted xs

  pub insert-All {κ} : (P : A → Type κ) (a : A) (xs : List A) → P a → All P xs → All P (insert a xs)
  unfolding insert
  insert-All P a [] p h = (p, tt)
  insert-All P a (x ∷ xs) p h = ground (arith, insert-All P a xs p h.1)

  pub sort-All {κ} : (P : A → Type κ) (xs : List A) → All P xs → All P (sort xs)
  unfolding sort
  sort-All P [] h = tt
  sort-All P (x ∷ xs) h = insert-All P x (sort xs) h.0 (sort-All P xs h.1)

  All-insert {κ} : (P : A → Type κ) (a : A) (xs : List A) → All P (insert a xs) → P a × All P xs
  unfolding insert
  All-insert P a [] h = h
  All-insert P a (x ∷ xs) h = ground (arith, All-insert P a xs)

  pub All-sort {κ} : (P : A → Type κ) (xs : List A) → All P (sort xs) → All P xs
  unfolding sort
  All-sort P [] h = tt
  All-sort P (x ∷ xs) h =
      let parts = All-insert P x (sort xs) h in (parts.0, All-sort P xs (parts.1))

  pub length-insert : (a : A) (xs : List A) → length (insert a xs) ≡ suc (length xs)
  unfolding insert
  length-insert a [] = refl
  length-insert a (x ∷ xs) = ground (arith, length-insert a xs)

  pub length-sort : (xs : List A) → length (sort xs) ≡ length xs
  unfolding sort
  length-sort [] = refl
  length-sort (x ∷ xs) = ground (arith, length-insert x (sort xs), length-sort xs)

  module _ (total : (a b : A) → (le a b ≡ true) ⊎ (le b a ≡ true))
      (trans : (a b c : A) → le a b ≡ true → le b c ≡ true → le a c ≡ true) where
    AllLe-trans : (a b : A) (xs : List A) → le a b ≡ true → AllLe b xs → AllLe a xs
    AllLe-trans a b [] h k = tt
    AllLe-trans a b (x ∷ xs) h k = (trans a b x h k.0, AllLe-trans a b xs h k.1)

    insert-IsSorted : (a : A) (xs : List A) → IsSorted xs → IsSorted (insert a xs)
    unfolding insert
    insert-IsSorted a [] s = (tt, tt)
    insert-IsSorted a (x ∷ xs) s = ground (
      arith,
      AllLe-trans a x xs,
      total a x,
      insert-All (λ y. le x y ≡ true) a xs,
      insert-IsSorted a xs s.1,
    )

    pub sort-IsSorted : (xs : List A) → IsSorted (sort xs)
    unfolding sort
    sort-IsSorted [] = tt
    sort-IsSorted (x ∷ xs) = insert-IsSorted x (sort xs) (sort-IsSorted xs)

-- ===== src/Base/Sort.antt =====
-- Python's `sorted`: a stable sort by an order on keys, here an insertion sort.
use Prim.Native.Nat.{ℕ, suc, ◌+◌, ◌≤◌}
use mathlib.Core.Path.{◌≡◌, refl, ap}
use mathlib.Core.Logic.{inl, inr, ◌≢◌}
use mathlib.Core.Bool.{Bool, true, false}
use mathlib.Core.List.{List, [], ◌∷◌}
use native.Mathlib.Omega.{arith}
use flexyvotes.Base.Tests.{if◌then◌else◌, Bool-cases}
use flexyvotes.Base.Lists.{
  length, All, Descending, total, elem, occurrences, elem_of_occurrences, elem-occurrences,
}

module _ {ℓ} {A : Type ℓ} (le : A → A → Bool) where
  abbrev pub insert_by : A → List A → List A
  insert_by x [] = x ∷ []
  insert_by x (y ∷ ys) = if le x y then x ∷ y ∷ ys else y ∷ insert_by x ys

  -- Shut, since it is used through the lemmas below; tests unfold it.
  unfoldable pub sort_by : List A → List A
  sort_by [] = []
  sort_by (x ∷ xs) = insert_by x (sort_by xs)

  pub length-insert_by : (x : A) (xs : List A) → length (insert_by x xs) ≡ suc (length xs)
  length-insert_by x [] = refl
  length-insert_by x (y ∷ ys) = ground (arith, length-insert_by x ys)

  pub length-sort_by : (xs : List A) → length (sort_by xs) ≡ length xs
  unfolding sort_by
  length-sort_by [] = refl
  length-sort_by (x ∷ xs) = omega (arith, length-insert_by x (sort_by xs), length-sort_by xs)

  -- What holds of every element holds of every element of the sorted list.
  module _ {κ} (P : A → Type κ) where
    pub insert_by-All : (x : A) (xs : List A) → P x → All P xs → All P (insert_by x xs)
    insert_by-All x [] h hs = (h, tt)
    insert_by-All x (y ∷ ys) h hs = elim (Bool-cases (le x y)) [
      | inl here ↦ rw here (h, hs)
      | inr later ↦ rw later (hs.0, insert_by-All x ys h hs.1)
    ]

    pub sort_by-All : (xs : List A) → All P xs → All P (sort_by xs)
    unfolding sort_by
    sort_by-All [] hs = tt
    sort_by-All (x ∷ xs) hs = insert_by-All x (sort_by xs) hs.0 (sort_by-All xs hs.1)

  -- Sorted by an order that compares a number first, from the largest down.
  module _ (m : A → ℕ) (le_true : (x y : A) → le x y ≡ true → m y ≤ m x)
      (le_false : (x y : A) → le x y ≡ false → m x ≤ m y) where
    All-le : (x y : A) (xs : List A) → m y ≤ m x → All (λ z. m z ≤ m y) xs → All (λ z. m z ≤ m x) xs
    All-le x y [] h hs = tt
    All-le x y (z ∷ zs) h hs = (omega arith, All-le x y zs h hs.1)

    insert_by-Descending : (x : A) (xs : List A) → Descending m xs → Descending m (insert_by x xs)
    insert_by-Descending x [] h = (tt, tt)
    insert_by-Descending x (y ∷ ys) h = elim (Bool-cases (le x y)) [
      | inl here ↦ rw here ((le_true x y here, All-le x y ys (le_true x y here) h.0), h)
      | inr later ↦ rw later (
        insert_by-All (λ z. m z ≤ m y) x ys (le_false x y later) h.0,
        insert_by-Descending x ys h.1,
      )
    ]

    pub sort_by-Descending : (xs : List A) → Descending m (sort_by xs)
    unfolding sort_by
    sort_by-Descending [] = tt
    sort_by-Descending (x ∷ xs) = insert_by-Descending x (sort_by xs) (sort_by-Descending xs)

  -- A number that is added up over a list does not depend on its order.
  module _ (w : A → ℕ) where
    total-insert_by : (x : A) (xs : List A) → total w (insert_by x xs) ≡ w x + total w xs
    total-insert_by x [] = refl
    total-insert_by x (y ∷ ys) = ground (arith, total-insert_by x ys)

    pub total-sort_by : (xs : List A) → total w (sort_by xs) ≡ total w xs
    unfolding sort_by
    total-sort_by [] = refl
    total-sort_by (x ∷ xs) = omega (arith, total-insert_by x (sort_by xs), total-sort_by xs)

module _ (le : ℕ → ℕ → Bool) where
  occurrences-insert_by :
      (i x : ℕ) (xs : List ℕ) → occurrences i (insert_by le x xs) ≡ occurrences i (x ∷ xs)
  occurrences-insert_by i x [] = refl
  occurrences-insert_by i x (y ∷ ys) = ground (arith, occurrences-insert_by i x ys)

  pub occurrences-sort_by : (i : ℕ) (xs : List ℕ) → occurrences i (sort_by le xs) ≡ occurrences i xs
  unfolding sort_by
  occurrences-sort_by i [] = refl
  occurrences-sort_by i (x ∷ xs) =
      omega (arith, occurrences-insert_by i x (sort_by le xs), occurrences-sort_by i xs)

  pub elem-sort_by : (i : ℕ) (xs : List ℕ) → elem i (sort_by le xs) ≡ true → elem i xs ≡ true
  elem-sort_by i xs h =
      elem_of_occurrences i xs
        (omega (arith, occurrences-sort_by i xs, elem-occurrences i (sort_by le xs) h))

pub sort_by_nonempty {ℓ} :
    {A : Type ℓ} (le : A → A → Bool) (xs : List A) → xs ≢ [] → sort_by le xs ≢ []
sort_by_nonempty le [] ne e = ne refl
sort_by_nonempty le (x ∷ xs) ne e = absurd (omega (arith, length-sort_by le (x ∷ xs), ap length e))

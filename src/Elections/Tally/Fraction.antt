-- ===== src/Elections/Tally/Fraction.antt =====
-- Python's `Fraction`, for the weights of ranked ballots: a numerator over a denominator that is
-- not zero. Only their comparisons and sums are used, so they are not brought to lowest terms.
use flexyvotes.Base.{
  ℕ, ◌+◌, ◌-◌, ◌*◌, ◌≡◌, ◌⊎◌, inl, inr, Bool, true, List, [], ◌∷◌, ltb, leb, ◌==◌, if◌then◌else◌,
  Bool-cases, ==_refl,
}

pub record Fraction : Type 0 where
  pub num : ℕ
  pub den : ℕ

-- `Fraction(n, d)`
abbrev pub fraction : ℕ → ℕ → Fraction
fraction n d = record { num = n; den = d }

unfoldable pub add : Fraction → Fraction → Fraction
add a b = fraction (a.num * b.den + b.num * a.den) (a.den * b.den)

-- `a - b`, for `b <= a`
unfoldable pub sub : Fraction → Fraction → Fraction
sub a b = fraction (a.num * b.den - b.num * a.den) (a.den * b.den)

unfoldable pub mul : Fraction → Fraction → Fraction
mul a b = fraction (a.num * b.num) (a.den * b.den)

-- `a / b`, for `b` above zero
unfoldable pub div : Fraction → Fraction → Fraction
div a b = fraction (a.num * b.den) (a.den * b.num)

unfoldable pub lt : Fraction → Fraction → Bool
lt a b = ltb (a.num * b.den) (b.num * a.den)

unfoldable pub le : Fraction → Fraction → Bool
le a b = leb (a.num * b.den) (b.num * a.den)

unfoldable pub eq : Fraction → Fraction → Bool
eq a b = a.num * b.den == b.num * a.den

-- `sum(xs)`
unfoldable pub sum : List Fraction → Fraction
unfolding add
sum [] = fraction 0 1
sum (x ∷ xs) = add x (sum xs)

unfoldable pub smaller : Fraction → Fraction → Fraction
smaller x y = if lt y x then y else x

-- `min(xs)`, for a list that is not empty
unfoldable pub min_of : Fraction → List Fraction → Fraction
min_of x [] = x
min_of x (y ∷ ys) = min_of (smaller x y) ys

pub smaller-cases : (x y : Fraction) → (smaller x y ≡ x) ⊎ (smaller x y ≡ y)
unfolding smaller
smaller-cases x y = elim (Bool-cases (lt y x)) [ inl h ↦ inr (rw h) | inr h ↦ inl (rw h) ]

pub eq_refl : (x : Fraction) → eq x x ≡ true
unfolding eq
eq_refl x = ==_refl (x.num * x.den)

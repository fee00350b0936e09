-- ===== src/Elections/Tally/Referendum/Threshold.antt =====
-- When a referendum passes, against the exact share of YES votes.
use flexyvotes.Base.{ℕ, ◌+◌, ◌*◌, ◌≤◌, ◌<◌, ◌≡◌, true, false, ◌&&◌, List, ltb, arith}
use native.Mathlib.Decide.{dec_lt}
use native.Mathlib.Nat.{mul-le-mul_right}
use flexyvotes.Elections.Model.{Selection}
use flexyvotes.Elections.Tally.{pct}
use flexyvotes.Elections.Tally.Referendum.{referendum, is_yes, is_no, count_if}

-- `_pct` is the exact percentage up to half a hundredth.
pub pct_bounds :
    (part whole : ℕ)
    → 0 < whole
    → (2 * (10000 * part) ≤ 2 * (pct part whole * whole) + whole)
      × (2 * (pct part whole * whole) ≤ 2 * (10000 * part) + whole)
unfolding pct
pct_bounds part whole h = grind arith

-- The test of the code, over the numbers alone.
test_parts : (v t p : ℕ) → (ltb 0 v && ltb t p) ≡ true → (0 < v) × (t + 1 ≤ p)
test_parts v t p h = ground arith

passed_numbers : (y v t : ℕ) → (ltb 0 v && ltb t (pct y v)) ≡ true → t * v < 10000 * y
passed_numbers y v t h =
    let (pos, over) = test_parts v t (pct y v) h in
    let bounds = pct_bounds y v pos in omega (arith, mul-le-mul_right v over, bounds)

test_fails : (v t p : ℕ) → (0 < v → p ≤ t) → (ltb 0 v && ltb t p) ≡ false
test_fails v t p h = ground arith

test_holds : (v t p : ℕ) → 0 < v → t < p → (ltb 0 v && ltb t p) ≡ true
test_holds v t p h k = ground arith

fail_numbers :
    (y v t : ℕ) → 2 * (10000 * y) < (2 * t + 1) * v → (ltb 0 v && ltb t (pct y v)) ≡ false
fail_numbers y v t h = test_fails v t (pct y v) λ pos. elim (dec_lt t (pct y v)) [
  | yes over ↦ absurd (omega (arith, mul-le-mul_right v over, pct_bounds y v pos))
  | no not_over ↦ omega arith
]

pass_numbers :
    (y v t : ℕ) → (2 * t + 1) * v < 2 * (10000 * y) → y ≤ v → (ltb 0 v && ltb t (pct y v)) ≡ true
pass_numbers y v t h le = elim (dec_lt t (pct y v)) [
  | yes over ↦ test_holds v t (pct y v) (omega arith) over
  | no not_over ↦
      let under : pct y v ≤ t = omega arith in
      absurd (omega (arith, mul-le-mul_right v under, pct_bounds y v (omega arith)))
]

-- A referendum that passes has strictly more than the threshold's share of YES among its valid
-- votes, as an exact fraction and not only after rounding.
pub referendum_passed :
    (ss : List Selection) (threshold : ℕ)
    → let r = referendum ss threshold in
      r.passed ≡ true → threshold * r.valid_ballots < 10000 * r.yes_count
unfolding referendum
referendum_passed ss threshold h =
    passed_numbers (count_if is_yes ss) (count_if is_yes ss + count_if is_no ss) threshold h

-- A share of YES that is more than half a hundredth of a percent above the threshold passes.
pub referendum_passes :
    (ss : List Selection) (threshold : ℕ)
    → let r = referendum ss threshold in
      (2 * threshold + 1) * r.valid_ballots < 2 * (10000 * r.yes_count) → r.passed ≡ true
unfolding referendum
referendum_passes ss threshold h =
    pass_numbers (count_if is_yes ss) (count_if is_yes ss + count_if is_no ss) threshold h
      (omega arith)

-- A strict majority can fail: with one YES more than NO and more than 10,000 valid votes, the
-- referendum does not pass at the threshold of 50%, since the percentage is rounded first.
pub referendum_majority_lost :
    (ss : List Selection)
    → let r = referendum ss 5000 in
      r.yes_count ≡ r.no_count + 1 → 10000 < r.valid_ballots → r.passed ≡ false
unfolding referendum
referendum_majority_lost ss h big =
    fail_numbers (count_if is_yes ss) (count_if is_yes ss + count_if is_no ss) 5000 (omega arith)

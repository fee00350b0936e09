-- ===== src/Elections/Tally/Referendum.antt =====
-- `referendum` of elections/tally.py. Thresholds and percentages are in hundredths of a percent.
pub mod Threshold
use flexyvotes.Base.{
  ℕ, zero, suc, ◌+◌, Bool, true, false, ◌&&◌, List, [], ◌∷◌, ltb, leb, ◌==◌, if◌then◌else◌, total,
  not,
}
use flexyvotes.Elections.Model.{Selection, yes_vote, no_vote}
use flexyvotes.Elections.Tally.{pct, truthy}

pub data Answer : Type 0 where
  yes_answer no_answer : Answer

pub record ReferendumResult : Type 0 where
  pub valid_ballots : ℕ
  pub abstentions : ℕ
  pub total_votes : ℕ
  pub yes_count : ℕ
  pub no_count : ℕ
  pub yes_percentage : ℕ
  pub no_percentage : ℕ
  pub threshold : ℕ
  pub passed : Bool
  pub yes_rank : ℕ
  pub no_rank : ℕ
  pub winners : List Answer
  pub ties : List Answer

-- `s == 'YES'` and `s == 'NO'`
abbrev pub is_yes : Selection → Bool
is_yes yes_vote = true
is_yes _ = false

abbrev pub is_no : Selection → Bool
is_no no_vote = true
is_no _ = false

-- `sum(1 for s in selections if p(s))`
abbrev pub count_if : (Selection → Bool) → List Selection → ℕ
count_if p ss = total (λ s. if p s then 1 else 0) ss

unfoldable pub referendum : List Selection → ℕ → ReferendumResult
referendum selections threshold =
    let yes_total = count_if is_yes selections in
    let no_total = count_if is_no selections in
    let valid = yes_total + no_total in
    let yes_pct = pct yes_total valid in
    let passed = ltb 0 valid && ltb threshold yes_pct in
    record {
      valid_ballots = valid;
      abstentions = count_if (λ s. not (truthy s)) selections;
      total_votes = valid;
      yes_count = yes_total;
      no_count = no_total;
      yes_percentage = yes_pct;
      no_percentage = pct no_total valid;
      threshold = threshold;
      passed = passed;
      yes_rank = if leb no_total yes_total then 1 else 2;
      no_rank = if ltb yes_total no_total then 1 else 2;
      winners = if passed then yes_answer ∷ [] else no_answer ∷ [];
      ties = if ltb 0 valid && yes_total == no_total then yes_answer ∷ no_answer ∷ [] else [];
    }

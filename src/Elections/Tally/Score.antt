-- ===== src/Elections/Tally/Score.antt =====
-- `score` of elections/tally.py. A selection is None or a dict of scores by candidate.
pub mod Laws
use flexyvotes.Base.{
  ℕ, ◌+◌, ◌*◌, ◌/◌, ◌%◌, Bool, true, false, Option, none, some, List, [], ◌∷◌, sum, ltb, ◌==◌,
  if◌then◌else◌,
}
use flexyvotes.Base.Dict.{Dict, get_or, update, constant, values}
use flexyvotes.Elections.Model.{Candidate}
use flexyvotes.Elections.Tally.{pct, rank, ids_of, winners_with_ties}

-- A row of the result: the average in thousandths, the percentage in hundredths of a percent.
pub record ScoreRow : Type 0 where
  pub candidate_id : ℕ
  pub name : List ℕ
  pub votes : ℕ
  pub average : ℕ
  pub percentage : ℕ
  pub rank : ℕ
  pub ballots_scoring : ℕ

pub record ScoreResult : Type 0 where
  pub seats : ℕ
  pub max_score : ℕ
  pub valid_ballots : ℕ
  pub abstentions : ℕ
  pub total_votes : ℕ
  pub candidates : List ScoreRow
  pub winners : List ℕ
  pub ties : List ℕ

-- The variables of the loop over the selections.
pub record ScoreTallies : Type 0 where
  pub totals : Dict ℕ
  pub ballots_scoring : Dict ℕ
  pub abstentions : ℕ
  pub valid : ℕ

-- `round(part / whole, 3) if whole else 0.0`, in thousandths, a tie to the even one
unfoldable pub average_of : ℕ → ℕ → ℕ
average_of part whole =
    let q = (1000 * part) / whole in
    let r = (1000 * part) % whole in
    if whole == 0
    then 0
    else if ltb (2 * r) whole
    then q
    else if ltb whole (2 * r)
    then q + 1
    else if q % 2 == 0
    then q
    else q + 1

-- `if cid in totals: totals[cid] += int(value)`, for each item
unfoldable pub add_points : Dict ℕ → Dict ℕ → Dict ℕ
add_points [] totals = totals
add_points (e ∷ items) totals = add_points items (update e.0 (λ n. n + e.1) totals)

-- `ballots_scoring[cid] += 1`, for each item
unfoldable pub add_scoring : Dict ℕ → Dict ℕ → Dict ℕ
add_scoring [] counts = counts
add_scoring (e ∷ items) counts = add_scoring items (update e.0 (λ n. n + 1) counts)

-- The body of the loop over the selections.
unfoldable pub add_selection : ScoreTallies → Option (Dict ℕ) → ScoreTallies
unfolding add_points add_scoring
add_selection t none = record t { abstentions = t.abstentions + 1 }
add_selection t (some []) = record t { abstentions = t.abstentions + 1 }
add_selection t (some (e ∷ items)) = record {
  totals = add_points (e ∷ items) t.totals;
  ballots_scoring = add_scoring (e ∷ items) t.ballots_scoring;
  abstentions = t.abstentions;
  valid = t.valid + 1;
}

unfoldable pub add_selections : List (Option (Dict ℕ)) → ScoreTallies → ScoreTallies
add_selections [] t = t
add_selections (s ∷ ss) t = add_selections ss (add_selection t s)

-- The loop that builds `rows`.
unfoldable pub score_rows : ℕ → ScoreTallies → ℕ → List Candidate → List ScoreRow
unfolding average_of
score_rows place t max_score [] = []
score_rows place t max_score (c ∷ cs) =
    let points = get_or 0 c.id t.totals in
    record {
      candidate_id = c.id;
      name = c.name;
      votes = points;
      average = average_of points t.valid;
      percentage = pct points (max_score * t.valid);
      rank = place;
      ballots_scoring = get_or 0 c.id t.ballots_scoring;
    }
    ∷ score_rows (place + 1) t max_score cs

-- The variables before the loop.
abbrev pub no_scores : List Candidate → ScoreTallies
no_scores candidates = record {
  totals = constant 0 (ids_of candidates);
  ballots_scoring = constant 0 (ids_of candidates);
  abstentions = 0;
  valid = 0;
}

unfoldable pub score : List (Option (Dict ℕ)) → List Candidate → ℕ → ℕ → ScoreResult
unfolding score_rows
score selections candidates seats max_score =
    let t = add_selections selections (no_scores candidates) in
    let ordered = rank t.totals candidates in
    let result = winners_with_ties ordered t.totals seats in
    record {
      seats = seats;
      max_score = max_score;
      valid_ballots = t.valid;
      abstentions = t.abstentions;
      total_votes = sum (values t.totals);
      candidates = score_rows 1 t max_score ordered;
      winners = ids_of result.0;
      ties = result.1;
    }

-- ===== src/Elections/Tally/Plurality.antt =====
-- `plurality` of elections/tally.py: single choice, FPTP, multiple choice and approval.
pub mod Laws
pub mod Order
use flexyvotes.Base.{ℕ, zero, suc, ◌+◌, List, [], ◌∷◌, sum, if◌then◌else◌}
use flexyvotes.Base.Dict.{Dict, get_or, update, constant, values}
use flexyvotes.Elections.Model.{Candidate, Selection, ids}
use flexyvotes.Elections.Tally.{pct, rank, ids_of, winners_with_ties, truthy}

-- A row of the result: percentages in hundredths of a percent.
pub record Row : Type 0 where
  pub candidate_id : ℕ
  pub name : List ℕ
  pub votes : ℕ
  pub percentage : ℕ
  pub rank : ℕ
  pub percentage_of_ballots : ℕ

pub record PluralityResult : Type 0 where
  pub seats : ℕ
  pub valid_ballots : ℕ
  pub abstentions : ℕ
  pub total_votes : ℕ
  pub candidates : List Row
  pub winners : List ℕ
  pub ties : List ℕ

-- The variables of the loop over the selections.
pub record Tallies : Type 0 where
  pub counts : Dict ℕ
  pub abstentions : ℕ
  pub valid : ℕ

-- What `for cid in selection` runs through: the keys of a dict and the letters of "YES" are texts,
-- which are no candidate's id.
abbrev pub marks : Selection → List ℕ
marks (ids is) = is
marks _ = []

-- `if cid in counts: counts[cid] += 1`, for each mark
unfoldable pub count_marks : List ℕ → Dict ℕ → Dict ℕ
count_marks [] counts = counts
count_marks (cid ∷ rest) counts = count_marks rest (update cid (λ n. n + 1) counts)

-- The body of the loop over the selections.
unfoldable pub count_selection : Tallies → Selection → Tallies
unfolding count_marks
count_selection t s =
    if truthy s
    then record {
      counts = count_marks (marks s) t.counts;
      abstentions = t.abstentions;
      valid = t.valid + 1;
    }
    else record { counts = t.counts; abstentions = t.abstentions + 1; valid = t.valid }

unfoldable pub count_selections : List Selection → Tallies → Tallies
count_selections [] t = t
count_selections (s ∷ ss) t = count_selections ss (count_selection t s)

-- `_candidate_rows`, with the row's `percentage_of_ballots`; `place` is the rank of the first row.
unfoldable pub rows_from : ℕ → Dict ℕ → ℕ → ℕ → List Candidate → List Row
rows_from place counts total_marks valid [] = []
rows_from place counts total_marks valid (c ∷ cs) =
    let v = get_or 0 c.id counts in
    record {
      candidate_id = c.id;
      name = c.name;
      votes = v;
      percentage = pct v total_marks;
      rank = place;
      percentage_of_ballots = pct v valid;
    }
    ∷ rows_from (place + 1) counts total_marks valid cs

unfoldable pub plurality : List Selection → List Candidate → ℕ → PluralityResult
plurality selections candidates seats =
    let t =
      count_selections selections
        (record { counts = constant 0 (ids_of candidates); abstentions = 0; valid = 0 }) in
    let total_marks = sum (values t.counts) in
    let ordered = rank t.counts candidates in
    let result = winners_with_ties ordered t.counts seats in
    record {
      seats = seats;
      valid_ballots = t.valid;
      abstentions = t.abstentions;
      total_votes = total_marks;
      candidates = rows_from 1 t.counts total_marks t.valid ordered;
      winners = ids_of result.0;
      ties = result.1;
    }

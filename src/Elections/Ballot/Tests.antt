-- ===== src/Elections/Ballot/Tests.antt =====
-- A ballot with two positions.
use flexyvotes.Base.{ℕ, ◌≡◌, refl, false, not, Option, some, List, [], ◌∷◌, any}
use flexyvotes.Elections.Model.{Position, multiple, ranked, BallotType, active, withdrawn, ids}
use flexyvotes.Elections.Ballot.Validation.{
  Raw, listing, integer, as_list, valid_ids, normalize_selection, validate_ballot, answers, valid,
  invalid, names_position, invalid_candidate,
}
use flexyvotes.Elections.Ballot.Validation.Limits.{IsAccepted, normalize_selection-IsAccepted}
use flexyvotes.Elections.Ballot.Validation.Complete.{IsComplete, validate_ballot-IsComplete}

abbrev position : ℕ → BallotType → Position
position i t = record {
  id = i;
  ballot_type = t;
  min_select = 1;
  max_select = 2;
  allow_abstain = false;
  seats = 1;
  max_score = 10;
  referendum_threshold = 5000;
  candidates =
      (record { id = 7; name = []; status = active })
      ∷ (record { id = 3; name = []; status = active })
      ∷ (record { id = 9; name = []; status = withdrawn })
      ∷ [];
}

abbrev marks : Raw
marks = listing (integer 7 ∷ integer 3 ∷ [])

multiple_sorted : normalize_selection (position 1 multiple) marks ≡ valid (ids (3 ∷ 7 ∷ []))
unfolding normalize_selection as_list valid_ids
multiple_sorted = refl

ranked_kept : normalize_selection (position 2 ranked) marks ≡ valid (ids (7 ∷ 3 ∷ []))
unfolding normalize_selection as_list valid_ids
ranked_kept = refl

withdrawn_refused :
    normalize_selection (position 1 multiple) (listing (integer 9 ∷ [])) ≡ invalid invalid_candidate
unfolding normalize_selection as_list valid_ids
withdrawn_refused = refl

abbrev two_positions : List Position
two_positions = position 1 multiple ∷ position 2 ranked ∷ []

abbrev given : List (Option ℕ × Raw)
given = (some 2, marks) ∷ []

ballot_ok :
    validate_ballot two_positions (2 ∷ []) (answers given) ≡ valid ((2, ids (7 ∷ 3 ∷ [])) ∷ [])
unfolding validate_ballot normalize_selection as_list valid_ids
ballot_ok = refl

normalize_selection-IsAccepted_example : IsAccepted (position 1 multiple) (ids (3 ∷ 7 ∷ []))
normalize_selection-IsAccepted_example =
    normalize_selection-IsAccepted (position 1 multiple) marks (ids (3 ∷ 7 ∷ [])) multiple_sorted

validate_ballot-IsComplete_example :
    IsComplete (2 ∷ []) two_positions ((2, ids (7 ∷ 3 ∷ [])) ∷ [])
    × (any (λ e. not (names_position (2 ∷ []) e.0)) given ≡ false)
validate_ballot-IsComplete_example =
    validate_ballot-IsComplete two_positions (2 ∷ []) given ((2, ids (7 ∷ 3 ∷ [])) ∷ []) ballot_ok

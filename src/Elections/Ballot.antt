-- ===== src/Elections/Ballot.antt =====
-- elections/ballot.py: the limits of a position and the checks of a configuration.
pub mod Validation
mod Tests
use flexyvotes.Base.{
  ℕ, min, max, Bool, true, false, ◌&&◌, ◌||◌, not, List, [], ◌∷◌, ◌++◌, ltb, leb, ◌==◌,
  if◌then◌else◌, length, keep,
}
use flexyvotes.Elections.Model.{
  BallotType, single, fptp, multiple, approval, ranked, score, referendum, Candidate, Position,
  Event, KeyCustody, is_active, is_referendum_type, is_institutional,
}

-- `active_candidates`
unfoldable pub active_candidates : Position → List Candidate
active_candidates p = keep (λ c. is_active c.status) p.candidates

-- The `if`s of `effective_limits`, by the ballot type.
unfoldable pub limits_by_type : BallotType → Position → ℕ → ℕ × ℕ
limits_by_type single p count = (min p.min_select 1, 1)
limits_by_type approval p count = (min p.min_select (max count 1), max count 1)
limits_by_type referendum p count = (1, 1)
limits_by_type score p count = (p.min_select, max count 1)
limits_by_type fptp p count =
    let maximum = max p.max_select p.seats in (min p.min_select maximum, maximum)
limits_by_type multiple p count = (p.min_select, max p.max_select p.min_select)
limits_by_type ranked p count = (p.min_select, max p.max_select p.min_select)

-- `effective_limits`
unfoldable pub effective_limits : Position → ℕ × ℕ
unfolding limits_by_type active_candidates
effective_limits p = limits_by_type p.ballot_type p (length (active_candidates p))

-- The problems that `configuration_problems` lists; a position is named by its id.
pub data Problem : Type 0 where
  end_before_start no_position_or_contestant no_positions unassigned_candidates : Problem
  no_candidates too_few_for_minimum more_seats_than_candidates minimum_over_maximum : ℕ → Problem
  no_auth_method no_voters bad_trustees no_price : Problem

-- `if c: problems.append(x)`
abbrev pub problem_if : Bool → Problem → List Problem
problem_if c x = if c then x ∷ [] else []

-- `ballot_type in (BT.MULTIPLE, BT.RANKED, BT.FPTP)`
abbrev pub has_minimum : BallotType → Bool
has_minimum multiple = true
has_minimum ranked = true
has_minimum fptp = true
has_minimum _ = false

unfoldable pub position_problems : Position → List Problem
unfolding effective_limits active_candidates
position_problems p =
    let count = length (active_candidates p) in
    let minimum = (effective_limits p).0 in
    if is_referendum_type p.ballot_type
    then []
    else (if count == 0
        then no_candidates p.id ∷ []
        else problem_if (has_minimum p.ballot_type && ltb count minimum) (too_few_for_minimum p.id))
      ++ (problem_if (ltb (max count 1) p.seats) (more_seats_than_candidates p.id)
          ++ problem_if (ltb p.max_select p.min_select && has_minimum p.ballot_type)
              (minimum_over_maximum p.id))

unfoldable pub all_position_problems : List Position → List Problem
unfolding position_problems
all_position_problems [] = []
all_position_problems (p ∷ ps) = position_problems p ++ all_position_problems ps

abbrev pub is_empty {ℓ} : {A : Type ℓ} → List A → Bool
is_empty [] = true
is_empty (x ∷ xs) = false

abbrev pub by_trustees : KeyCustody → Bool
by_trustees KeyCustody.trustees = true
by_trustees KeyCustody.system = false

-- `trustees < 2 or not 1 <= event.trustee_threshold <= trustees`
unfoldable pub trustees_unfit : Event → Bool
trustees_unfit e =
    ltb e.trustee_count 2
    || not (leb 1 e.trustee_threshold && leb e.trustee_threshold e.trustee_count)

-- `configuration_problems`
unfoldable pub configuration_problems : Event → List Problem
unfolding all_position_problems trustees_unfit
configuration_problems e =
    problem_if (leb e.end_date e.start_date) end_before_start
    ++ (problem_if (is_empty e.positions && not e.has_candidates) no_position_or_contestant
        ++ (if is_institutional e
            then problem_if (is_empty e.positions) no_positions
              ++ (problem_if e.has_unassigned unassigned_candidates
                  ++ (all_position_problems e.positions
                      ++ (problem_if (e.auth_methods == 0) no_auth_method
                          ++ (problem_if (not e.has_voters && not e.allow_self_registration)
                                no_voters
                              ++ problem_if (by_trustees e.key_custody && trustees_unfit e)
                                  bad_trustees))))
            else problem_if (e.vote_price == 0 && not e.has_packages) no_price))

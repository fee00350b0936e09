-- ===== src/Elections/Tally/Tests.antt =====
-- Counts that can be followed by hand, from elections/tests/test_tally.py, and the theorems at them.
use flexyvotes.Base.{
  ℕ, zero, suc, ◌+◌, ◌*◌, ◌≤◌, ◌<◌, ◌≡◌, refl, sym, ◌∙◌, ap, false, List, [], ◌∷◌, ◌++◌,
  occurrences, arith,
}
use mathlib.Core.List.{Permᴰ}
use flexyvotes.Elections.Model.{
  Candidate, CandidateStatus, Selection, abstained, ids, yes_vote, no_vote,
}
use flexyvotes.Elections.Tally.{ids_of, pct, rank, winners_with_ties}
use flexyvotes.Elections.Tally.Plurality.{plurality, count_selections, count_selection}
use flexyvotes.Elections.Tally.Plurality.Laws.{
  ElectsBySupport, plurality-ElectsBySupport, plurality-counts_ballots,
}
use flexyvotes.Elections.Tally.Plurality.Order.{plurality-perm}
use flexyvotes.Base.{Option, none, some}
use flexyvotes.Base.Dict.{Dict}
use flexyvotes.Elections.Tally.Score.{score, add_selections, add_selection}
use flexyvotes.Elections.Tally.Score.Laws.{ElectsByPoints, score-ElectsByPoints}
use flexyvotes.Elections.Tally.Referendum.{referendum, count_if, is_yes, is_no}
use flexyvotes.Elections.Tally.Referendum.Threshold.{referendum_passed, referendum_majority_lost}
use flexyvotes.Elections.Tally.Ranked.{ranked, seats_for}
use flexyvotes.Elections.Tally.Ranked.Seats.{IsFilled, ranked-IsFilled}
use flexyvotes.Elections.Tally.Ranked.Rows.{row_ids, ranked-duplicate_rows}

abbrev candidate : ℕ → Candidate
candidate i = record { id = i; name = (64 + i) ∷ []; status = CandidateStatus.active }

abbrev three : List Candidate
three = candidate 1 ∷ candidate 2 ∷ candidate 3 ∷ []

abbrev four : List Candidate
four = candidate 1 ∷ candidate 2 ∷ candidate 3 ∷ candidate 4 ∷ []

abbrev repeat : ℕ → Selection → List Selection
repeat zero s = []
repeat (suc n) s = s ∷ repeat n s

abbrev marked : List Selection
marked = ids (1 ∷ []) ∷ ids (1 ∷ []) ∷ ids (2 ∷ []) ∷ abstained ∷ ids (3 ∷ []) ∷ ids (1 ∷ []) ∷ []

plurality_winner : (plurality marked three 1).winners ≡ 1 ∷ []
unfolding plurality count_selections count_selection rank winners_with_ties
plurality_winner = refl

plurality_tie : (plurality (ids (1 ∷ []) ∷ ids (2 ∷ []) ∷ []) three 1).ties ≡ 1 ∷ 2 ∷ []
unfolding plurality count_selections count_selection rank winners_with_ties
plurality_tie = refl

plurality-ElectsBySupport_example : ElectsBySupport marked three 1 1 (plurality marked three 1)
plurality-ElectsBySupport_example =
    plurality-ElectsBySupport marked three 1 1 (refl, (refl, (refl, tt))) refl

plurality-counts_ballots_example :
    (plurality marked three 1).valid_ballots + (plurality marked three 1).abstentions ≡ 6
plurality-counts_ballots_example = plurality-counts_ballots marked three 1

plurality-perm_example :
    plurality (ids (1 ∷ []) ∷ abstained ∷ []) three 1
    ≡ plurality (abstained ∷ ids (1 ∷ []) ∷ []) three 1
plurality-perm_example = plurality-perm three 1 (Permᴰ.swap refl refl)

abbrev close_vote : List Selection
close_vote = yes_vote ∷ yes_vote ∷ no_vote ∷ abstained ∷ []

referendum_passed_example : 5000 * 3 < 10000 * 2
unfolding referendum pct
referendum_passed_example = referendum_passed close_vote 5000 refl

yes-repeat :
    (n : ℕ) (rest : List Selection)
    → count_if is_yes (repeat n yes_vote ++ rest) ≡ n + count_if is_yes rest
yes-repeat zero rest = omega arith
yes-repeat (suc n) rest = omega (arith, yes-repeat n rest)

no-repeat :
    (n : ℕ) (rest : List Selection)
    → count_if is_no (repeat n yes_vote ++ rest) ≡ count_if is_no rest
no-repeat zero rest = refl
no-repeat (suc n) rest = omega (arith, no-repeat n rest)

yes_of_no :
    (n : ℕ) → (count_if is_yes (repeat n no_vote) ≡ 0) × (count_if is_no (repeat n no_vote) ≡ n)
yes_of_no zero = (refl, refl)
yes_of_no (suc n) = let ih = yes_of_no n in (omega (arith, ih.0), omega (arith, ih.1))

-- The votes of such a referendum.
divided_votes :
    (n m : ℕ)
    → let r = referendum (repeat n yes_vote ++ repeat m no_vote) 5000 in
      (r.yes_count ≡ n) × (r.no_count ≡ m) × (r.valid_ballots ≡ n + m)
unfolding referendum
divided_votes n m =
    let facts = yes_of_no m in
    (
      omega (arith, yes-repeat n (repeat m no_vote), facts),
      no-repeat n (repeat m no_vote) ∙ facts.1,
      omega (arith, yes-repeat n (repeat m no_vote), no-repeat n (repeat m no_vote), facts),
    )

referendum_majority_lost_example :
    (referendum (repeat 5001 yes_vote ++ repeat 5000 no_vote) 5000).passed ≡ false
referendum_majority_lost_example =
    referendum_majority_lost (repeat 5001 yes_vote ++ repeat 5000 no_vote)
      ((divided_votes 5001 5000).0 ∙ sym (ap (λ n. n + 1) (divided_votes 5001 5000).1))
      (omega (arith, divided_votes 5001 5000))

-- First preferences 4, 3 and 2: the third is eliminated, and its ballots elect the second.
abbrev transfers : List Selection
transfers = repeat 4 (ids (1 ∷ [])) ++ (repeat 3 (ids (2 ∷ [])) ++ repeat 2 (ids (3 ∷ 2 ∷ [])))

abbrev lot : ℕ → ℕ
lot i = i

abbrev same_order : List ℕ → List ℕ
same_order xs = xs

irv_transfers : (ranked lot same_order transfers three 1).winners ≡ 2 ∷ []
unfolding ranked
irv_transfers = refl

-- The quota for 9 ballots and 2 seats is 3; the first candidate's surplus elects the second.
stv_surplus :
    (ranked lot same_order
      (repeat 6 (ids (1 ∷ 2 ∷ [])) ++ (repeat 2 (ids (3 ∷ [])) ++ (ids (4 ∷ []) ∷ [])))
      four
      2).winners
    ≡ 1 ∷ 2 ∷ []
unfolding ranked
stv_surplus = refl

three_distinct : (i : ℕ) → occurrences i (ids_of three) ≤ 1
three_distinct i = ground arith

ranked-IsFilled_example :
    IsFilled
      (1 ∷ 2 ∷ 3 ∷ [])
      (seats_for 2 (1 ∷ 2 ∷ 3 ∷ []))
      (ranked lot same_order transfers three 2).winners
ranked-IsFilled_example = ranked-IsFilled lot same_order transfers three 2 three_distinct

ranked-duplicate_rows_example :
    occurrences 2 (row_ids (ranked lot same_order transfers three 3).candidates) ≡ 2
ranked-duplicate_rows_example =
    ranked-duplicate_rows lot same_order (λ i xs. refl) transfers (candidate 1)
      (candidate 2 ∷ candidate 3 ∷ []) 3 (omega arith) 2

abbrev scored : List (Option (Dict ℕ))
scored = some ((1, 3) ∷ (2, 5) ∷ []) ∷ none ∷ some ((1, 4) ∷ []) ∷ []

score_winner : (score scored three 1 10).winners ≡ 1 ∷ []
unfolding score add_selections add_selection rank winners_with_ties
score_winner = refl

score-ElectsByPoints_example : ElectsByPoints scored three 1 1 (score scored three 1 10)
score-ElectsByPoints_example =
    score-ElectsByPoints scored three 1 10 1 (refl, (refl, (refl, tt))) refl

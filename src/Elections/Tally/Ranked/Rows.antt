-- ===== src/Elections/Tally/Ranked/Rows.antt =====
-- The rows of the result of `ranked`: candidates that fill the last seats are listed twice.
use flexyvotes.Base.{
  ℕ, suc, ◌+◌, ◌-◌, ◌*◌, ◌≤◌, ◌≡◌, refl, ◌∙◌, ap, true, ◌&&◌, Option, List, [], ◌∷◌, ◌++◌, map, ltb,
  leb, length, occurrences, occurrences-append, arith,
}
use flexyvotes.Base.Dict.{Dict}
use flexyvotes.Base.Sort.{sort_by, occurrences-sort_by}
use flexyvotes.Elections.Model.{Candidate, Selection}
use flexyvotes.Elections.Tally.{ids_of}
use flexyvotes.Elections.Tally.Fraction.{Fraction}
use flexyvotes.Elections.Tally.Ranked.{
  RankedBallot, RankedRow, read_ballots, fill, snapshot_of, count_rounds, seats_for, run_count,
  ranked, start_count, final_order, ranked_rows, by_final, by_tally, current_tallies,
}

abbrev pub row_ids : List RankedRow → List ℕ
row_ids rows = map (λ (r : RankedRow). r.candidate_id) rows

row_ids-ranked_rows :
    (place : ℕ) (first_prefs : Dict ℕ) (valid : ℕ) (elected order : List ℕ)
    → row_ids (ranked_rows place first_prefs valid elected order) ≡ order
unfolding ranked_rows
row_ids-ranked_rows place first_prefs valid elected [] = refl
row_ids-ranked_rows place first_prefs valid elected (c ∷ cs) =
    ap (λ rest. c ∷ rest) (row_ids-ranked_rows (place + 1) first_prefs valid elected cs)

seats_for_all :
    (seats : ℕ) (c : ℕ) (cs : List ℕ)
    → length (c ∷ cs) ≤ seats
    → seats_for seats (c ∷ cs) ≡ length (c ∷ cs)
unfolding seats_for
seats_for_all seats c cs h = omega arith

-- A set is enumerated in some order, each member once.
abbrev IsEnumeration : (List ℕ → List ℕ) → Type 0
IsEnumeration in_set_order =
    (i : ℕ) (xs : List ℕ) → occurrences i (in_set_order xs) ≡ occurrences i xs

module _ (lot_key : ℕ → ℕ) where
  -- With no more candidates than seats, the first round is the last.
  count_rounds-fill :
      (f : ℕ) (quota : Option Fraction) (first_prefs : Dict ℕ) (seats c : ℕ) (cs : List ℕ)
      (ballots : List RankedBallot)
      → length (c ∷ cs) ≤ seats
      → count_rounds lot_key (suc f) quota first_prefs seats (start_count (c ∷ cs) ballots)
        ≡ fill lot_key
            (snapshot_of lot_key (start_count (c ∷ cs) ballots))
            (start_count (c ∷ cs) ballots)
  unfolding count_rounds start_count
  count_rounds-fill f quota first_prefs seats c cs ballots h = rw (both, leb_all) refl
    where
      both : (ltb 0 (length (c ∷ cs)) && ltb 0 seats) ≡ true
      both = ground arith

      leb_all : leb (length (c ∷ cs)) (seats - 0) ≡ true
      leb_all = ground arith

  occurrences-final_order-fill :
      (in_set_order : List ℕ → List ℕ)
      → IsEnumeration in_set_order
      → (c : ℕ) (cs : List ℕ) (ballots : List RankedBallot) (i : ℕ)
      → occurrences i (
          final_order in_set_order (
            fill lot_key
              (snapshot_of lot_key (start_count (c ∷ cs) ballots))
              (start_count (c ∷ cs) ballots)))
        ≡ 2 * occurrences i (c ∷ cs)
  unfolding fill start_count final_order
  occurrences-final_order-fill in_set_order set c cs ballots i =
      let tallies = (snapshot_of lot_key (start_count (c ∷ cs) ballots)).tallies in
      let final = by_final (current_tallies (c ∷ cs) ballots).0 in
      omega (
        arith,
        occurrences-append i (sort_by (by_tally lot_key tallies) (c ∷ cs))
            (sort_by final (in_set_order (c ∷ cs)) ++ []),
        occurrences-append i (sort_by final (in_set_order (c ∷ cs))) [],
        occurrences-sort_by (by_tally lot_key tallies) i (c ∷ cs),
        occurrences-sort_by final i (in_set_order (c ∷ cs)),
        set i (c ∷ cs),
      )

  -- With no more candidates than seats, and at least one, whatever the ballots are, and in whatever
  -- order Python enumerates a set: in the rows of the result of `ranked` each candidate stands
  -- twice. The round that fills the seats leaves the candidates among the continuing ones, and the
  -- rows list both. (A list of candidates with an id `n` times has `2 * n` rows with it, and there
  -- are no rows with other ids.)
  pub ranked-duplicate_rows :
      (in_set_order : List ℕ → List ℕ)
      → ((i : ℕ) (xs : List ℕ) → occurrences i (in_set_order xs) ≡ occurrences i xs)
      → (selections : List Selection) (c : Candidate) (cs : List Candidate) (seats : ℕ)
      → length (ids_of (c ∷ cs)) ≤ seats
      → (i : ℕ)
      → occurrences i (row_ids (ranked lot_key in_set_order selections (c ∷ cs) seats).candidates)
        ≡ 2 * occurrences i (ids_of (c ∷ cs))
  unfolding ranked run_count
  ranked-duplicate_rows in_set_order set selections c cs seats h i =
      let hopeful = ids_of (c ∷ cs) in
      ap (occurrences i) (
        row_ids-ranked_rows 1 _ _ _
          (final_order in_set_order (run_count lot_key selections hopeful seats)))
      ∙ ap (λ s. occurrences i (final_order in_set_order s))
          (count_rounds-fill (length (ids_of cs)) _ _ (seats_for seats hopeful) c.id (ids_of cs) _
            (omega (arith, seats_for_all seats c.id (ids_of cs) h)))
      ∙ occurrences-final_order-fill in_set_order set c.id (ids_of cs)
          (read_ballots hopeful selections).0 i

-- ===== src/Elections/Tally/Ranked/Seats.antt =====
-- The count of ranked ballots ends, and gives each seat to one candidate.
use flexyvotes.Base.{
  ℕ, zero, suc, ◌+◌, ◌-◌, ◌≤◌, ◌<◌, ◌≡◌, ◌≢◌, inl, inr, true, ◌&&◌, Option, List, [], ◌∷◌, ltb, leb,
  length, elem, occurrences, occurrences-append, elem-occurrences, length-append, arith, Bool-cases,
}
use flexyvotes.Base.Dict.{Dict}
use flexyvotes.Base.Sort.{sort_by, length-sort_by, occurrences-sort_by}
use flexyvotes.Elections.Model.{Candidate, Selection}
use flexyvotes.Elections.Tally.{ids_of}
use flexyvotes.Elections.Tally.Fraction.{Fraction}
use flexyvotes.Elections.Tally.Ranked.{
  Count, Snapshot, discard, by_tally, fill, snapshot_of, play_round, count_rounds, seats_for,
  run_count, ranked, start_count,
}
use flexyvotes.Elections.Tally.Ranked.Rounds.{
  Moves, play_round-Moves, occurrences-discard, length-discard,
}

-- Before each round: no candidate is continuing or elected more often than it stood for election,
-- and those elected and continuing are enough to fill the seats, with room for those elected.
pub record IsUnderway (hopeful : List ℕ) (seats : ℕ) (s : Count) : Type 0 where
  pub once : (i : ℕ) → occurrences i s.elected + occurrences i s.continuing ≤ occurrences i hopeful
  pub enough : seats ≤ length s.elected + length s.continuing
  pub room : length s.elected ≤ seats

-- After the count: each seat is taken, by candidates that stood for election, each once.
pub record IsFilled (hopeful : List ℕ) (seats : ℕ) (elected : List ℕ) : Type 0 where
  pub all_seats : length elected ≡ seats
  pub each_once : (i : ℕ) → occurrences i elected ≤ occurrences i hopeful

module _ (hopeful : List ℕ) (seats : ℕ) (distinct : (i : ℕ) → occurrences i hopeful ≤ 1) where
  Moves-once :
      (s s' : Count)
      → Moves s s'
      → ((i : ℕ) → occurrences i s.elected + occurrences i s.continuing ≤ occurrences i hopeful)
      → (i : ℕ) → occurrences i s'.elected + occurrences i s'.continuing ≤ occurrences i hopeful
  Moves-once s s' (w, listed, left, inl same) once i =
      rw (left, same) (ground (arith, once i, occurrences-discard i w s.continuing))
  Moves-once s s' (w, listed, left, inr more) once i =
      rw (left, more)
        (ground (
          arith,
          once i,
          occurrences-discard i w s.continuing,
          occurrences-append i s.elected (w ∷ []),
          elem-occurrences w s.continuing listed,
        ))

  -- A round that is not the last keeps what holds before each round.
  Moves-IsUnderway :
      (s s' : Count)
      → Moves s s'
      → IsUnderway hopeful seats s
      → seats < length s.elected + length s.continuing
      → length s.elected < seats
      → IsUnderway hopeful seats s' × (length s'.continuing < length s.continuing)
  Moves-IsUnderway s s' m inv more short = (
    record { once = Moves-once s s' m inv.once; enough = enough_left m; room = room_left m },
    shorter m,
  )
    where
      left_one :
          (w : ℕ)
          → elem w s.continuing ≡ true
          → length (discard w s.continuing) + 1 ≡ length s.continuing
      left_one w listed = omega (
        arith,
        length-discard w s.continuing,
        inv.once w,
        distinct w,
        elem-occurrences w s.continuing listed,
      )

      enough_left : Moves s s' → seats ≤ length s'.elected + length s'.continuing
      enough_left (w, listed, left, inl same) = rw (left, same) (omega (arith, left_one w listed))
      enough_left (w, listed, left, inr took) =
          rw (left, took) (omega (arith, left_one w listed, length-append s.elected (w ∷ [])))

      room_left : Moves s s' → length s'.elected ≤ seats
      room_left (w, listed, left, inl same) = rw same (omega arith)
      room_left (w, listed, left, inr took) =
          rw took (omega (arith, length-append s.elected (w ∷ [])))

      shorter : Moves s s' → length s'.continuing < length s.continuing
      shorter (w, listed, left, r) = rw left (omega (arith, left_one w listed))

  module _ (lot_key : ℕ → ℕ) where
    fill-IsFilled :
        (snapshot : Snapshot) (s : Count)
        → IsUnderway hopeful seats s
        → length s.continuing ≤ seats - length s.elected
        → IsFilled hopeful seats (fill lot_key snapshot s).elected
    unfolding fill
    fill-IsFilled snapshot s inv fits =
        let order = by_tally lot_key snapshot.tallies in
        record {
          all_seats = omega (
            arith,
            inv,
            length-append s.elected (sort_by order s.continuing),
            length-sort_by order s.continuing,
          );
          each_once = λ i. omega (
            arith,
            inv.once i,
            occurrences-append i s.elected (sort_by order s.continuing),
            occurrences-sort_by order i s.continuing,
          );
        }

    underway-IsFilled :
        (s : Count)
        → IsUnderway hopeful seats s
        → seats ≤ length s.elected
        → IsFilled hopeful seats s.elected
    underway-IsFilled s inv full = record {
      all_seats = omega (arith, inv);
      each_once = λ i. omega (arith, inv.once i);
    }

    nonempty_of_length : (xs : List ℕ) → 0 < length xs → xs ≢ []
    nonempty_of_length [] h e = absurd (omega arith)
    nonempty_of_length (x ∷ xs) h e = cc

    -- With fuel for every continuing candidate, the count fills the seats.
    count_rounds-IsFilled :
        (f : ℕ) (quota : Option Fraction) (first_prefs : Dict ℕ) (s : Count)
        → IsUnderway hopeful seats s
        → length s.continuing ≤ f
        → IsFilled hopeful seats (count_rounds lot_key f quota first_prefs seats s).elected
    unfolding count_rounds
    count_rounds-IsFilled zero quota first_prefs s inv bound =
        underway-IsFilled s inv (omega (arith, inv))
    count_rounds-IsFilled (suc f) quota first_prefs s inv bound =
        elim (Bool-cases (ltb 0 (length s.continuing) && ltb (length s.elected) seats)) [
          | inr stop ↦ rw stop (underway-IsFilled s inv (ground (arith, inv.enough)))
          | inl go_on ↦
              rw go_on (elim (Bool-cases (leb (length s.continuing) (seats - length s.elected))) [
                | inl last ↦ rw last (fill-IsFilled (snapshot_of lot_key s) s inv (ground arith))
                | inr more ↦ rw more (
                    next_round (count_rounds-IsFilled f quota first_prefs) (ground arith)
                      (ground arith) (ground arith))
              ])
        ]
      where
        next_round :
            ((t : Count)
              → IsUnderway hopeful seats t
              → length t.continuing ≤ f
              → IsFilled hopeful seats (count_rounds lot_key f quota first_prefs seats t).elected)
            → 0 < length s.continuing
            → length s.elected < seats
            → seats < length s.elected + length s.continuing
            → IsFilled hopeful seats
                (count_rounds lot_key f quota first_prefs seats
                  (play_round lot_key quota first_prefs (snapshot_of lot_key s) s)).elected
        next_round ih some_left short more =
            let step =
              Moves-IsUnderway s (play_round lot_key quota first_prefs (snapshot_of lot_key s) s)
                (play_round-Moves lot_key quota first_prefs (snapshot_of lot_key s) s
                  (nonempty_of_length s.continuing some_left))
                inv more short in
            ih (play_round lot_key quota first_prefs (snapshot_of lot_key s) s) step.0 (omega arith)

-- `seats` as the code bounds it.
seats_for-le : (seats : ℕ) (hopeful : List ℕ) → seats_for seats hopeful ≤ length hopeful
unfolding seats_for
seats_for-le seats [] = omega arith
seats_for-le seats (c ∷ cs) = omega arith

-- For any ballots, any order of lots and of sets, and candidates with distinct ids: the winners of `ranked`
-- are exactly as many as the seats, which are none without candidates and otherwise the seats asked
-- for, at least one and at most one for each candidate; and each winner is a candidate, and is
-- elected once.
pub ranked-IsFilled :
    (lot_key : ℕ → ℕ) (in_set_order : List ℕ → List ℕ) (selections : List Selection)
    (candidates : List Candidate) (seats : ℕ)
    → ((i : ℕ) → occurrences i (ids_of candidates) ≤ 1)
    → IsFilled
        (ids_of candidates)
        (seats_for seats (ids_of candidates))
        (ranked lot_key in_set_order selections candidates seats).winners
unfolding ranked run_count start_count
ranked-IsFilled lot_key in_set_order selections candidates seats distinct =
    count_rounds-IsFilled (ids_of candidates) (seats_for seats (ids_of candidates)) distinct lot_key
      (length (ids_of candidates)) _ _ _
      (record {
        once = λ i. omega arith;
        enough = omega (arith, seats_for-le seats (ids_of candidates));
        room = omega arith;
      })
      (omega arith)

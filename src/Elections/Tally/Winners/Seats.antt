-- ===== src/Elections/Tally/Winners/Seats.antt =====
-- The ranked candidates split at the last seat: who is above the cutoff, at it, and below.
use flexyvotes.Base.{
  ℕ, suc, ◌+◌, ◌≤◌, ◌<◌, ◌≡◌, ◌⊎◌, inl, inr, sym, ◌∙◌, ap, true, false, ◌&&◌, List, [], ◌∷◌, ◌++◌,
  ltb, leb, ◌==◌, length, keep, elem, All, Descending, arith, lt→ltb,
}
use flexyvotes.Base.Dict.{Dict, get_or}
use native.Mathlib.Decide.{dec_lt}
use flexyvotes.Elections.Model.{Candidate}
use flexyvotes.Elections.Tally.{ids_of}
use flexyvotes.Elections.Tally.Winners.Counts.{
  at_least, above, IsDistinct, votes, cand_votes, at_least-append, at_least-le-length, at_least-All,
  at_least-none, at_least_mono, at_least-elem, elem-append, cutoff, cutoff-seated, cutoff-rest,
  above-cutoff, length-tied, missed, missed-at_least, missed-append, missed-below, All-seated,
  distinct_apart, All-apart, tied_numbers, untied_numbers,
}

-- The facts about one split of the ranked candidates at the last of `seats` seats, for an id `i`.
module _ (counts : Dict ℕ) (c : Candidate) (ws rest : List Candidate) (seats i : ℕ)
    (sorted : Descending (cand_votes counts) (c ∷ ws ++ rest))
    (distinct : IsDistinct (ids_of (c ∷ ws ++ rest))) (fits : length (c ∷ ws) ≤ seats)
    (full : 1 ≤ length rest → length (c ∷ ws) ≡ seats)
    (listed : elem i (ids_of (c ∷ ws ++ rest)) ≡ true) where
  abbrev pub k : ℕ
  k = cutoff counts c ws

  abbrev pub all_cands : List Candidate
  all_cands = c ∷ ws ++ rest

  abbrev pub v : ℕ
  v = votes counts i

  pub at_least-split :
      (j : ℕ) → at_least counts j all_cands ≡ at_least counts j (c ∷ ws) + at_least counts j rest
  at_least-split j = at_least-append counts j (c ∷ ws) rest

  pub seated_all : at_least counts k (c ∷ ws) ≡ length (c ∷ ws)
  seated_all = at_least-All counts k (c ∷ ws) (cutoff-seated counts c ws rest sorted)

  pub rest_none : at_least counts (suc k) rest ≡ 0
  rest_none = at_least-none counts (suc k) rest (below rest (cutoff-rest counts c ws rest sorted))
    where
      below :
          (zs : List Candidate)
          → All (λ d. cand_votes counts d ≤ k) zs
          → All (λ d. cand_votes counts d < suc k) zs
      below [] h = tt
      below (z ∷ zs) h = (omega arith, below zs h.1)

  pub in_seats_or_rest : (elem i (ids_of (c ∷ ws)) ≡ true) ⊎ (elem i (ids_of rest) ≡ true)
  in_seats_or_rest = ground (arith, elem-append i (c ∷ ws) rest)

  -- A candidate with a seat has at least the cutoff, and one without has at most that.
  pub votes_of_seated : elem i (ids_of (c ∷ ws)) ≡ true → k ≤ v
  votes_of_seated h = of_all (c ∷ ws) (cutoff-seated counts c ws rest sorted) h
    where
      of_all :
          (zs : List Candidate)
          → All (λ d. k ≤ cand_votes counts d) zs
          → elem i (ids_of zs) ≡ true
          → k ≤ v
      of_all [] a e = cc
      of_all (z ∷ zs) a e = ground (arith, of_all zs a.1)

  pub votes_of_rest : elem i (ids_of rest) ≡ true → v ≤ k
  votes_of_rest h = of_all rest (cutoff-rest counts c ws rest sorted) h
    where
      of_all :
          (zs : List Candidate)
          → All (λ d. cand_votes counts d ≤ k) zs
          → elem i (ids_of zs) ≡ true
          → v ≤ k
      of_all [] a e = cc
      of_all (z ∷ zs) a e = ground (arith, of_all zs a.1)

  pub seated_over : k < v → elem i (ids_of (c ∷ ws)) ≡ true
  seated_over over = elim in_seats_or_rest [
    | inl seated ↦ seated
    | inr unseated ↦ absurd (omega (arith, votes_of_rest unseated))
  ]

  pub missed-rest_eq :
      missed counts k (ids_of (c ∷ ws)) all_cands ≡ missed counts k (ids_of (c ∷ ws)) rest
  missed-rest_eq =
      missed-append counts k (ids_of (c ∷ ws)) (c ∷ ws) rest
        (All-seated (c ∷ ws) (ids_of (c ∷ ws)) (λ j e. e))

  pub missed_rest : missed counts k (ids_of (c ∷ ws)) all_cands ≡ true → 1 ≤ at_least counts k rest
  missed_rest h = missed-at_least counts k (ids_of (c ∷ ws)) rest (sym missed-rest_eq ∙ h)

  -- With no candidate missed, those without a seat are below the cutoff.
  pub rest_below : missed counts k (ids_of (c ∷ ws)) all_cands ≡ false → at_least counts k rest ≡ 0
  rest_below h = at_least-none counts k rest (
      missed-below counts k (ids_of (c ∷ ws)) rest (sym missed-rest_eq ∙ h)
        (All-apart (c ∷ ws) rest (λ j e. distinct_apart (c ∷ ws) rest j distinct e))
        (cutoff-rest counts c ws rest sorted))

  pub unseated_counts :
      missed counts k (ids_of (c ∷ ws)) all_cands ≡ false
      → elem i (ids_of (c ∷ ws)) ≡ false
      → (seats < at_least counts v all_cands) × (seats ≤ above counts v all_cands)
  unseated_counts h unseated = elim in_seats_or_rest [
    | inl seated ↦ cc
    | inr in_rest ↦
        let one = at_least-elem counts i rest in_rest in
        let filled = full (omega (arith, one, at_least-le-length counts v rest)) in
        let under : v < k = below_of_none h one in
        (
          omega (
            arith,
            at_least-split v,
            seated_all,
            at_least_mono counts v k (c ∷ ws) (omega arith),
            one,
            filled,
          ),
          omega (
            arith,
            at_least-split (suc v),
            seated_all,
            at_least_mono counts (suc v) k (c ∷ ws) under,
            filled,
          ),
        )
  ]
    where
      below_of_none :
          missed counts k (ids_of (c ∷ ws)) all_cands ≡ false → 1 ≤ at_least counts v rest → v < k
      below_of_none h one = elim (dec_lt v k) [
        | yes p ↦ p
        | no np ↦ absurd (omega (arith, at_least_mono counts k v rest (omega arith), rest_below h))
      ]

  -- The test of the code is that of `missed` alone: with a missed candidate at least two are tied.
  pub missed_two :
      missed counts k (ids_of (c ∷ ws)) all_cands ≡ true
      → ltb 1 (length (keep (λ d. get_or 0 d.id counts == k) all_cands)) ≡ true
  missed_two h = lt→ltb 1 _ (
      omega (
        arith,
        length-tied counts k all_cands,
        at_least-split k,
        at_least-split (suc k),
        seated_all,
        above-cutoff counts c ws,
        rest_none,
        missed_rest h,
      ))

  -- With a missed candidate the seats at the cutoff are not given.
  pub tied_case :
      missed counts k (ids_of (c ∷ ws)) all_cands ≡ true
      → ((elem i (ids_of (c ∷ ws)) && ltb k v) ≡ leb (at_least counts v all_cands) seats)
        × ((v == k)
            ≡ (ltb (above counts v all_cands) seats && ltb seats (at_least counts v all_cands)))
  tied_case h =
      let some_missed = missed_rest h in
      let filled = full (omega (arith, at_least-le-length counts k rest, some_missed)) in
      tied_numbers (elem i (ids_of (c ∷ ws))) k v seats (at_least counts v all_cands)
        (above counts v all_cands) seated_over
        (λ over. omega (
          arith,
          at_least-split v,
          at_least-le-length counts v (c ∷ ws),
          at_least_mono counts (suc k) v rest over,
          rest_none,
          fits,
        ))
        (λ under. omega (
          arith,
          at_least-split v,
          seated_all,
          at_least_mono counts v k (c ∷ ws) under,
          at_least_mono counts v k rest under,
          some_missed,
          filled,
        ))
        (λ same. omega (
          arith,
          at_least-split (suc v),
          ap (λ (t : ℕ). at_least counts (suc t) (c ∷ ws)) same,
          ap (λ (t : ℕ). at_least counts (suc t) rest) same,
          above-cutoff counts c ws,
          rest_none,
          filled,
        ))
        (λ under. omega (
          arith,
          at_least-split (suc v),
          seated_all,
          at_least_mono counts (suc v) k (c ∷ ws) under,
          filled,
        ))

  pub untied_case :
      missed counts k (ids_of (c ∷ ws)) all_cands ≡ false
      → (elem i (ids_of (c ∷ ws)) ≡ leb (at_least counts v all_cands) seats)
        × (false
            ≡ (ltb (above counts v all_cands) seats && ltb seats (at_least counts v all_cands)))
  untied_case h =
      untied_numbers (elem i (ids_of (c ∷ ws))) seats (at_least counts v all_cands)
        (above counts v all_cands)
        (λ seated. omega (
          arith,
          at_least-split v,
          at_least-le-length counts v (c ∷ ws),
          at_least_mono counts k v rest (votes_of_seated seated),
          rest_below h,
          fits,
        ))
        (λ unseated. unseated_counts h unseated)

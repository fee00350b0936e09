-- ===== src/Elections/Tally/Winners.antt =====
-- Who wins: `_winners_with_ties` against a description that counts, for a candidate, how many have
-- at least as many votes and how many have more.
pub mod Counts
pub mod Seats
use flexyvotes.Base.{
  ℕ, zero, suc, ◌+◌, ◌≤◌, ◌<◌, ◌≡◌, ◌⊎◌, inl, inr, refl, sym, ◌∙◌, ap, ap₂, subst, Bool, true,
  false, ◌&&◌, ◌||◌, not, List, [], ◌∷◌, ◌++◌, ltb, leb, ◌==◌, if◌then◌else◌, length, take, drop,
  keep, any, elem, All, Descending, arith, Bool-cases, lt→ltb,
}
use flexyvotes.Base.Dict.{Dict, get_or}
use native.Mathlib.Decide.{dec_lt}
use flexyvotes.Base.Sort.{insert_by, sort_by, sort_by-Descending}
use flexyvotes.Elections.Model.{Candidate}
use flexyvotes.Elections.Tally.{ids_of, last_id, winners_with_ties, rank, rank_le}
use flexyvotes.Elections.Tally.Winners.Counts.{
  at_least, above, IsDistinct, votes, cand_votes, at_least-append, at_least-le-length, at_least-All,
  at_least-none, at_least_mono, at_least-elem, elem-keep, elem-append, take-drop, length-take-le,
  length-take_full, cutoff, cutoff-seated, cutoff-rest, above-cutoff, length-tied, missed,
  missed-at_least, missed-append, missed-below, All-seated, distinct_apart, All-apart, tied_numbers,
  untied_numbers,
}
use flexyvotes.Elections.Tally.Winners.Seats.{
  k, all_cands, v, at_least-split, seated_all, rest_none, in_seats_or_rest, votes_of_seated,
  votes_of_rest, seated_over, missed-rest_eq, missed_rest, rest_below, unseated_counts, missed_two,
  tied_case, untied_case,
}

-- What the two results of `_winners_with_ties` say of an id: it is among the winners exactly when
-- at most `seats` candidates have at least as many votes, and among the ties exactly when fewer
-- than `seats` have more votes and more than `seats` have at least as many.
abbrev pub Decides : Dict ℕ → List Candidate → ℕ → ℕ → List Candidate × List ℕ → Type 0
Decides counts cands seats i (winners, ties) =
    (elem i (ids_of winners) ≡ leb (at_least counts (get_or 0 i counts) cands) seats)
    × (elem i ties ≡ (
        ltb (above counts (get_or 0 i counts) cands) seats
        && ltb seats (at_least counts (get_or 0 i counts) cands)))

-- The branches of the code for `c ∷ ws` in the seats, among the candidates `zs`.
abbrev is_tied : Dict ℕ → Candidate → List Candidate → List Candidate → Bool
is_tied counts c ws zs =
    ltb 1 (length (keep (λ d. get_or 0 d.id counts == cutoff counts c ws) zs))
    && missed counts (cutoff counts c ws) (ids_of (c ∷ ws)) zs

abbrev tied_result : Dict ℕ → Candidate → List Candidate → List Candidate → List Candidate × List ℕ
tied_result counts c ws zs = (
  keep (λ d. ltb (cutoff counts c ws) (get_or 0 d.id counts)) (c ∷ ws),
  ids_of (keep (λ d. get_or 0 d.id counts == cutoff counts c ws) zs),
)

abbrev untied_result : Candidate → List Candidate → List Candidate × List ℕ
untied_result c ws = (c ∷ ws, [])

and_true : (a b : Bool) → a ≡ true → b ≡ true → (a && b) ≡ true
and_true a b p q = ground arith

and_false : (a b : Bool) → b ≡ false → (a && b) ≡ false
and_false a b q = ground arith

Decides-if :
    (counts : Dict ℕ) (cands : List Candidate) (seats i : ℕ) (a b : Bool)
    (p q : List Candidate × List ℕ)
    → (b ≡ true → (a ≡ true) × Decides counts cands seats i p)
    → (b ≡ false → Decides counts cands seats i q)
    → Decides counts cands seats i (if a && b then p else q)
Decides-if counts cands seats i a true p q yes_case no_case = let (e, d) = yes_case refl in rw e d
Decides-if counts cands seats i true false p q yes_case no_case = no_case refl
Decides-if counts cands seats i false false p q yes_case no_case = no_case refl

winners_with_ties-split :
    (counts : Dict ℕ) (c : Candidate) (ws rest : List Candidate) (seats i : ℕ)
    → Descending (cand_votes counts) (c ∷ ws ++ rest)
    → IsDistinct (ids_of (c ∷ ws ++ rest))
    → length (c ∷ ws) ≤ seats
    → (1 ≤ length rest → length (c ∷ ws) ≡ seats)
    → elem i (ids_of (c ∷ ws ++ rest)) ≡ true
    → Decides counts (c ∷ ws ++ rest) seats i (
        if is_tied counts c ws (c ∷ ws ++ rest)
        then tied_result counts c ws (c ∷ ws ++ rest)
        else untied_result c ws)
winners_with_ties-split counts c ws rest seats i sorted distinct fits full listed =
    Decides-if counts (c ∷ ws ++ rest) seats i
      (ltb 1 (length (keep (λ d. get_or 0 d.id counts == cutoff counts c ws) (c ∷ ws ++ rest))))
      (missed counts (cutoff counts c ws) (ids_of (c ∷ ws)) (c ∷ ws ++ rest))
      (tied_result counts c ws (c ∷ ws ++ rest)) (untied_result c ws)
      (λ h. (missed_two counts c ws rest seats i sorted distinct fits full listed h, tied h))
      (untied_case counts c ws rest seats i sorted distinct fits full listed)
  where
    tied :
        missed counts (cutoff counts c ws) (ids_of (c ∷ ws)) (c ∷ ws ++ rest) ≡ true
        → Decides counts (c ∷ ws ++ rest) seats i (tied_result counts c ws (c ∷ ws ++ rest))
    tied h =
        let facts = tied_case counts c ws rest seats i sorted distinct fits full listed h in
        (
          elem-keep counts (λ u. ltb (cutoff counts c ws) u) i (c ∷ ws) ∙ facts.0,
          elem-keep counts (λ u. u == cutoff counts c ws) i (c ∷ ws ++ rest)
              ∙ (ap (λ b. b && (votes counts i == cutoff counts c ws)) listed ∙ facts.1),
        )

pub winners_with_ties-Decides :
    (ordered : List Candidate) (counts : Dict ℕ) (seats i : ℕ)
    → Descending (λ c. get_or 0 c.id counts) ordered
    → IsDistinct (ids_of ordered)
    → elem i (ids_of ordered) ≡ true
    → Decides counts ordered seats i (winners_with_ties ordered counts seats)
unfolding winners_with_ties
winners_with_ties-Decides ordered counts zero i sorted distinct listed =
    (ground (arith, at_least-elem counts i ordered listed), ground arith)
winners_with_ties-Decides [] counts (suc seats) i sorted distinct listed = cc
winners_with_ties-Decides (c ∷ cs) counts (suc seats) i sorted distinct listed =
    subst (λ zs. Decides counts (c ∷ zs) (suc seats) i (pick zs)) (take-drop seats cs)
      (winners_with_ties-split counts c (take seats cs) (drop seats cs) (suc seats) i
        (subst (λ zs. Descending (λ d. get_or 0 d.id counts) (c ∷ zs)) (sym (take-drop seats cs))
          sorted)
        (subst (λ zs. IsDistinct (ids_of (c ∷ zs))) (sym (take-drop seats cs)) distinct)
        (omega (arith, length-take-le {0} seats cs))
        (λ h. omega (arith, length-take_full {0} seats cs h))
        (subst (λ zs. elem i (ids_of (c ∷ zs)) ≡ true) (sym (take-drop seats cs)) listed))
  where
    pick : List Candidate → List Candidate × List ℕ
    pick zs =
        if is_tied counts c (take seats cs) (c ∷ zs)
        then tied_result counts c (take seats cs) (c ∷ zs)
        else untied_result c (take seats cs)

-- `_rank` sorts by the votes, keeps every candidate and counts each once.
module _ (counts : Dict ℕ) where
  rank-Descending :
      (cands : List Candidate) → Descending (λ c. get_or 0 c.id counts) (rank counts cands)
  unfolding rank rank_le
  rank-Descending cands =
      sort_by-Descending (rank_le counts) (λ c. get_or 0 c.id counts) (λ x y h. ground arith)
        (λ x y h. ground arith) cands

  at_least-insert_by :
      (k : ℕ) (x : Candidate) (xs : List Candidate)
      → at_least counts k (insert_by (rank_le counts) x xs) ≡ at_least counts k (x ∷ xs)
  at_least-insert_by k x [] = refl
  at_least-insert_by k x (y ∷ ys) = ground (arith, at_least-insert_by k x ys)

  at_least-rank :
      (k : ℕ) (cands : List Candidate)
      → at_least counts k (rank counts cands) ≡ at_least counts k cands
  unfolding rank sort_by
  at_least-rank k [] = refl
  at_least-rank k (x ∷ xs) =
      omega (arith, at_least-insert_by k x (rank counts xs), at_least-rank k xs)

  elem-insert_by :
      (i : ℕ) (x : Candidate) (xs : List Candidate)
      → elem i (ids_of (insert_by (rank_le counts) x xs)) ≡ elem i (ids_of (x ∷ xs))
  elem-insert_by i x [] = refl
  elem-insert_by i x (y ∷ ys) = ground (arith, elem-insert_by i x ys)

  elem-rank :
      (i : ℕ) (cands : List Candidate) → elem i (ids_of (rank counts cands)) ≡ elem i (ids_of cands)
  unfolding rank sort_by
  elem-rank i [] = refl
  elem-rank i (x ∷ xs) = ground (arith, elem-insert_by i x (rank counts xs), elem-rank i xs)

  insert_by-IsDistinct :
      (x : Candidate) (xs : List Candidate)
      → elem x.id (ids_of xs) ≡ false
      → IsDistinct (ids_of xs)
      → IsDistinct (ids_of (insert_by (rank_le counts) x xs))
  insert_by-IsDistinct x [] n d = (refl, tt)
  insert_by-IsDistinct x (y ∷ ys) n d = elim (Bool-cases (rank_le counts x y)) [
    | inl here ↦ rw here (n, d)
    | inr later ↦ rw later (
      ground (arith, elem-insert_by y.id x ys, n),
      insert_by-IsDistinct x ys (ground (arith, n)) d.1,
    )
  ]

  rank-IsDistinct :
      (cands : List Candidate) → IsDistinct (ids_of cands) → IsDistinct (ids_of (rank counts cands))
  unfolding rank sort_by
  rank-IsDistinct [] d = tt
  rank-IsDistinct (x ∷ xs) d =
      insert_by-IsDistinct x (rank counts xs) (elem-rank x.id xs ∙ d.0) (rank-IsDistinct xs d.1)

-- `_winners_with_ties` of the ranked candidates decides by the numbers of all candidates.
pub winners_with_ties-rank :
    (counts : Dict ℕ) (cands : List Candidate) (seats i : ℕ)
    → IsDistinct (ids_of cands)
    → elem i (ids_of cands) ≡ true
    → Decides counts cands seats i (winners_with_ties (rank counts cands) counts seats)
winners_with_ties-rank counts cands seats i distinct listed =
    let facts =
      winners_with_ties-Decides (rank counts cands) counts seats i (rank-Descending counts cands)
        (rank-IsDistinct counts cands distinct) (elem-rank counts i cands ∙ listed) in
    let v = get_or 0 i counts in
    (
      facts.0 ∙ ap (λ n. leb n seats) (at_least-rank counts v cands),
      facts.1
          ∙ ap₂ (λ b a. ltb b seats && ltb seats a) (at_least-rank counts (suc v) cands)
              (at_least-rank counts v cands),
    )

-- ===== src/Elections/Tally.antt =====
-- elections/tally.py: what the tally algorithms share. The children hold one algorithm each, and
-- the theorems about it.
pub mod Winners
pub mod Plurality
pub mod Score
pub mod Referendum
pub mod Fraction
pub mod Ranked
mod Tests
use flexyvotes.Base.{
  ℕ, zero, suc, ◌+◌, ◌-◌, ◌*◌, ◌/◌, ◌%◌, Bool, true, false, ◌&&◌, ◌||◌, not, List, [], ◌∷◌, map,
  ltb, leb, ◌==◌, if◌then◌else◌, length, take, keep, any, elem,
}
use flexyvotes.Base.Dict.{Dict, get_or}
use flexyvotes.Base.Sort.{sort_by}
use flexyvotes.Elections.Model.{Candidate, Selection, abstained, ids, scores, yes_vote, no_vote}

-- `_pct`, in hundredths of a percent: `round(100.0 * part / whole, 2)` to the nearest hundredth, a
-- tie to the even one.
unfoldable pub pct : ℕ → ℕ → ℕ
pct part whole =
    let q = (10000 * part) / whole in
    let r = (10000 * part) % whole in
    if whole == 0
    then 0
    else if ltb (2 * r) whole
    then q
    else if ltb whole (2 * r)
    then q + 1
    else if q % 2 == 0
    then q
    else q + 1

-- `str.lower`, on the letters of ASCII
unfoldable pub lower : List ℕ → List ℕ
lower [] = []
lower (c ∷ cs) = (if leb b'A' c && leb c b'Z' then c + 32 else c) ∷ lower cs

-- `<` on texts
unfoldable pub text_lt : List ℕ → List ℕ → Bool
text_lt [] [] = false
text_lt [] (d ∷ ds) = true
text_lt (c ∷ cs) [] = false
text_lt (c ∷ cs) (d ∷ ds) = ltb c d || (c == d && text_lt cs ds)

-- The order of `_rank`: more votes first, then the name in lower case, then the id.
unfoldable pub rank_le : Dict ℕ → Candidate → Candidate → Bool
unfolding lower text_lt
rank_le counts c d =
    let vc = get_or 0 c.id counts in
    let vd = get_or 0 d.id counts in
    if ltb vd vc
    then true
    else if ltb vc vd
    then false
    else if text_lt (lower c.name) (lower d.name)
    then true
    else if text_lt (lower d.name) (lower c.name)
    then false
    else leb c.id d.id

-- `_rank`
unfoldable pub rank : Dict ℕ → List Candidate → List Candidate
unfolding rank_le sort_by
rank counts candidates = sort_by (rank_le counts) candidates

-- `c['id']` for every candidate
abbrev pub ids_of : List Candidate → List ℕ
ids_of [] = []
ids_of (c ∷ cs) = c.id ∷ ids_of cs

-- `ordered[:seats][-1]['id']`
abbrev pub last_id : ℕ → List Candidate → ℕ
last_id k [] = k
last_id k (c ∷ cs) = last_id c.id cs

-- `_winners_with_ties`: the winners, and the ids that are tied for the last seats. Candidates are
-- compared by their ids.
unfoldable pub winners_with_ties : List Candidate → Dict ℕ → ℕ → List Candidate × List ℕ
winners_with_ties ordered counts zero = ([], [])
winners_with_ties [] counts (suc seats) = ([], [])
winners_with_ties (c ∷ cs) counts (suc seats) =
    let winners = c ∷ take seats cs in
    let cutoff = get_or 0 (last_id c.id (take seats cs)) counts in
    let tied_at_cutoff = keep (λ d. get_or 0 d.id counts == cutoff) (c ∷ cs) in
    let safe = keep (λ d. ltb cutoff (get_or 0 d.id counts)) winners in
    if ltb 1 (length tied_at_cutoff) && any (λ d. not (elem d.id (ids_of winners))) tied_at_cutoff
    then (safe, ids_of tied_at_cutoff)
    else (winners, [])

-- `if not selection`
abbrev pub truthy : Selection → Bool
truthy abstained = false
truthy (ids []) = false
truthy (ids (i ∷ is)) = true
truthy (scores []) = false
truthy (scores (e ∷ es)) = true
truthy yes_vote = true
truthy no_vote = true

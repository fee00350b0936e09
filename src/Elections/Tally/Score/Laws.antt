-- ===== src/Elections/Tally/Score/Laws.antt =====
-- The result of `score`, described by the ballots alone.
use flexyvotes.Base.{
  ℕ, suc, ◌+◌, ◌≡◌, refl, ◌∙◌, ap, ap₂, true, ◌&&◌, Option, none, some, List, [], ◌∷◌, ltb, leb,
  ◌==◌, if◌then◌else◌, total, elem, arith,
}
use flexyvotes.Base.Dict.{Dict, get_or, update, contains}
use flexyvotes.Elections.Model.{Candidate}
use flexyvotes.Elections.Tally.{ids_of}
use flexyvotes.Elections.Tally.Winners.{winners_with_ties-rank}
use flexyvotes.Elections.Tally.Winners.Counts.{IsDistinct, at_least}
use flexyvotes.Elections.Tally.Plurality.Laws.{contains-update, contains-constant, get_or-constant}
use flexyvotes.Elections.Tally.Score.{
  ScoreTallies, ScoreResult, add_points, add_selection, add_selections, no_scores, score,
}

-- The points that one ballot gives `i`.
abbrev pub points_on : ℕ → Option (Dict ℕ) → ℕ
points_on i none = 0
points_on i (some items) = total (λ e. if i == e.0 then e.1 else 0) items

-- The points that all ballots give `i`.
abbrev pub points : ℕ → List (Option (Dict ℕ)) → ℕ
points i ss = total (points_on i) ss

-- How many candidates have at least `k` points.
abbrev pub scoring : List (Option (Dict ℕ)) → ℕ → List Candidate → ℕ
scoring ss k cands = total (λ c. if leb k (points c.id ss) then 1 else 0) cands

get_or-update_by :
    (i j m : ℕ) (d : Dict ℕ)
    → contains i d ≡ true
    → get_or 0 i (update j (λ n. n + m) d) ≡ get_or 0 i d + (if i == j then m else 0)
get_or-update_by i j m [] h = cc
get_or-update_by i j m ((k, v) ∷ d) h = ground (arith, get_or-update_by i j m d)

get_or-add_points :
    (i : ℕ) (items d : Dict ℕ)
    → contains i d ≡ true
    → (get_or 0 i (add_points items d) ≡ get_or 0 i d + points_on i (some items))
      × (contains i (add_points items d) ≡ true)
unfolding add_points
get_or-add_points i [] d h = (omega arith, h)
get_or-add_points i (e ∷ items) d h =
    let ih =
      get_or-add_points i items (update e.0 (λ n. n + e.1) d)
        (contains-update i e.0 (λ n. n + e.1) d ∙ h) in
    (omega (arith, ih.0, get_or-update_by i e.0 e.1 d h), ih.1)

get_or-add_selection :
    (i : ℕ) (t : ScoreTallies) (s : Option (Dict ℕ))
    → contains i t.totals ≡ true
    → (get_or 0 i (add_selection t s).totals ≡ get_or 0 i t.totals + points_on i s)
      × (contains i (add_selection t s).totals ≡ true)
unfolding add_selection
get_or-add_selection i t none h = (omega arith, h)
get_or-add_selection i t (some []) h = (omega arith, h)
get_or-add_selection i t (some (e ∷ items)) h = get_or-add_points i (e ∷ items) t.totals h

get_or-add_selections :
    (i : ℕ) (ss : List (Option (Dict ℕ))) (t : ScoreTallies)
    → contains i t.totals ≡ true
    → get_or 0 i (add_selections ss t).totals ≡ get_or 0 i t.totals + points i ss
unfolding add_selections
get_or-add_selections i [] t h = omega arith
get_or-add_selections i (s ∷ ss) t h =
    let step = get_or-add_selection i t s h in
    omega (arith, step.0, get_or-add_selections i ss (add_selection t s) step.1)

totals-eq-points :
    (ss : List (Option (Dict ℕ))) (cands : List Candidate) (i : ℕ)
    → elem i (ids_of cands) ≡ true
    → get_or 0 i (add_selections ss (no_scores cands)).totals ≡ points i ss
totals-eq-points ss cands i h = omega (
  arith,
  get_or-add_selections i ss (no_scores cands) (contains-constant i (ids_of cands) h),
  get_or-constant i (ids_of cands),
)

at_least-eq-scoring :
    (ss : List (Option (Dict ℕ))) (totals : Dict ℕ) (k : ℕ) (cands : List Candidate)
    → ((i : ℕ) → elem i (ids_of cands) ≡ true → get_or 0 i totals ≡ points i ss)
    → at_least totals k cands ≡ scoring ss k cands
at_least-eq-scoring ss totals k [] h = refl
at_least-eq-scoring ss totals k (c ∷ cs) h =
    ap₂ (λ n m. (if leb k n then 1 else 0) + m) (h c.id (ground arith))
      (at_least-eq-scoring ss totals k cs (λ i e. h i (ground (arith, e))))

-- `i` is among the winners exactly when at most `seats` candidates have its points or more, and
-- among the ties exactly when fewer than `seats` have more, and more than `seats` its points or more.
abbrev pub ElectsByPoints : List (Option (Dict ℕ)) → List Candidate → ℕ → ℕ → ScoreResult → Type 0
ElectsByPoints ss cands seats i r =
    let m = points i ss in
    (elem i r.winners ≡ leb (scoring ss m cands) seats)
    × (elem i r.ties ≡ (ltb (scoring ss (suc m) cands) seats && ltb seats (scoring ss m cands)))

-- For every list of score ballots and candidates with distinct ids, and every candidate `i` among
-- them: `score` puts `i` among the winners exactly when at most `seats` candidates have as many
-- points on the ballots as `i` or more, and among the ties exactly when fewer than `seats` candidates
-- have more points and more than `seats` have as many or more.
pub score-ElectsByPoints :
    (ss : List (Option (Dict ℕ))) (cands : List Candidate) (seats max_score i : ℕ)
    → IsDistinct (ids_of cands)
    → elem i (ids_of cands) ≡ true
    → ElectsByPoints ss cands seats i (score ss cands seats max_score)
unfolding score
score-ElectsByPoints ss cands seats max_score i distinct listed =
    let totals = (add_selections ss (no_scores cands)).totals in
    let decided = winners_with_ties-rank totals cands seats i distinct listed in
    let same = totals-eq-points ss cands i listed in
    let by =
      λ (k : ℕ). at_least-eq-scoring ss totals k cands (λ j e. totals-eq-points ss cands j e) in
    (
      decided.0 ∙ ap (λ n. leb n seats) (by _ ∙ ap (λ k. scoring ss k cands) same),
      decided.1
          ∙ ap₂ (λ b a. ltb b seats && ltb seats a) (by _ ∙ ap (λ k. scoring ss (suc k) cands) same)
              (by _ ∙ ap (λ k. scoring ss k cands) same),
    )

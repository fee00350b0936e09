-- ===== src/Elections/Tally/Plurality/Laws.antt =====
-- The result of `plurality`, described by the ballots alone.
use flexyvotes.Base.{
  ℕ, suc, ◌+◌, ◌≡◌, refl, ◌∙◌, ap, ap₂, true, false, ◌&&◌, List, [], ◌∷◌, ltb, leb, ◌==◌,
  if◌then◌else◌, length, total, occurrences, elem, arith, inl, inr, Bool-cases,
}
use flexyvotes.Base.Dict.{Dict, get_or, update, constant, contains}
use flexyvotes.Elections.Model.{Candidate, Selection}
use flexyvotes.Elections.Tally.{ids_of, truthy}
use flexyvotes.Elections.Tally.Winners.{winners_with_ties-rank}
use flexyvotes.Elections.Tally.Winners.Counts.{IsDistinct, at_least}
use flexyvotes.Elections.Tally.Plurality.{
  Tallies, PluralityResult, marks, count_marks, count_selection, count_selections, plurality,
}

-- How often the ballots mark `i`: once for each occurrence in a selection that is not empty.
abbrev pub mentions : ℕ → List Selection → ℕ
mentions i ss = total (λ s. if truthy s then occurrences i (marks s) else 0) ss

-- How many candidates have at least `k` marks.
abbrev pub supported : List Selection → ℕ → List Candidate → ℕ
supported ss k cands = total (λ c. if leb k (mentions c.id ss) then 1 else 0) cands

pub contains-update : (i j : ℕ) (f : ℕ → ℕ) (d : Dict ℕ) → contains i (update j f d) ≡ contains i d
contains-update i j f [] = refl
contains-update i j f ((k, v) ∷ d) = ground (arith, contains-update i j f d)

-- A mark for an id that is no key changes nothing.
update-missing : (j : ℕ) (f : ℕ → ℕ) (d : Dict ℕ) → contains j d ≡ false → update j f d ≡ d
update-missing j f [] h = refl
update-missing j f ((k, v) ∷ d) h = ground (arith, update-missing j f d)

get_or-update_key :
    (i j : ℕ) (d : Dict ℕ)
    → contains i d ≡ true
    → get_or 0 i (update j (λ n. n + 1) d) ≡ get_or 0 i d + (if i == j then 1 else 0)
get_or-update_key i j [] h = cc
get_or-update_key i j ((k, v) ∷ d) h = ground (arith, get_or-update_key i j d)

get_or-count_marks :
    (i : ℕ) (js : List ℕ) (d : Dict ℕ)
    → contains i d ≡ true
    → (get_or 0 i (count_marks js d) ≡ get_or 0 i d + occurrences i js)
      × (contains i (count_marks js d) ≡ true)
unfolding count_marks
get_or-count_marks i [] d h = (omega arith, h)
get_or-count_marks i (j ∷ js) d h =
    let ih =
      get_or-count_marks i js (update j (λ n. n + 1) d) (contains-update i j (λ n. n + 1) d ∙ h) in
    (omega (arith, ih.0, get_or-update_key i j d h), ih.1)

get_or-count_selection :
    (i : ℕ) (t : Tallies) (s : Selection)
    → contains i t.counts ≡ true
    → (get_or 0 i (count_selection t s).counts
        ≡ get_or 0 i t.counts + (if truthy s then occurrences i (marks s) else 0))
      × (contains i (count_selection t s).counts ≡ true)
unfolding count_selection
get_or-count_selection i t s h = elim (Bool-cases (truthy s)) [
  | inl valid ↦ rw valid (get_or-count_marks i (marks s) t.counts h)
  | inr empty ↦ rw empty (omega arith, h)
]

get_or-count_selections :
    (i : ℕ) (ss : List Selection) (t : Tallies)
    → contains i t.counts ≡ true
    → get_or 0 i (count_selections ss t).counts ≡ get_or 0 i t.counts + mentions i ss
unfolding count_selections
get_or-count_selections i [] t h = omega arith
get_or-count_selections i (s ∷ ss) t h =
    let step = get_or-count_selection i t s h in
    omega (arith, step.0, get_or-count_selections i ss (count_selection t s) step.1)

-- Every ballot is counted once, as valid or as an abstention.
valid-count_selections :
    (ss : List Selection) (t : Tallies)
    → (count_selections ss t).valid + (count_selections ss t).abstentions
      ≡ t.valid + t.abstentions + length ss
unfolding count_selections
valid-count_selections [] t = omega arith
valid-count_selections (s ∷ ss) t =
    omega (arith, valid-count_selection t s, valid-count_selections ss (count_selection t s))
  where
    valid-count_selection :
        (u : Tallies) (x : Selection)
        → (count_selection u x).valid + (count_selection u x).abstentions
          ≡ u.valid + u.abstentions + 1
    valid-count_selection u x = unfold count_selection in ground arith

-- The counts before the first ballot.
abbrev start : List Candidate → Tallies
start cands = record { counts = constant 0 (ids_of cands); abstentions = 0; valid = 0 }

pub contains-constant :
    (i : ℕ) (ks : List ℕ) → elem i ks ≡ true → contains {V = ℕ} i (constant 0 ks) ≡ true
contains-constant i [] h = cc
contains-constant i (k ∷ ks) h = ground (arith, contains-constant i ks)

pub get_or-constant : (i : ℕ) (ks : List ℕ) → get_or {V = ℕ} 0 i (constant 0 ks) ≡ 0
get_or-constant i [] = refl
get_or-constant i (k ∷ ks) = ground (arith, get_or-constant i ks)

-- What the loop counts for a candidate is how often the ballots mark it.
counts-eq-mentions :
    (ss : List Selection) (cands : List Candidate) (i : ℕ)
    → elem i (ids_of cands) ≡ true
    → get_or 0 i (count_selections ss (start cands)).counts ≡ mentions i ss
counts-eq-mentions ss cands i h = omega (
  arith,
  get_or-count_selections i ss (start cands) (contains-constant i (ids_of cands) h),
  get_or-constant i (ids_of cands),
)

at_least-eq-supported :
    (ss : List Selection) (counts : Dict ℕ) (k : ℕ) (cands : List Candidate)
    → ((i : ℕ) → elem i (ids_of cands) ≡ true → get_or 0 i counts ≡ mentions i ss)
    → at_least counts k cands ≡ supported ss k cands
at_least-eq-supported ss counts k [] h = refl
at_least-eq-supported ss counts k (c ∷ cs) h =
    ap₂ (λ n m. (if leb k n then 1 else 0) + m) (h c.id (ground arith))
      (at_least-eq-supported ss counts k cs (λ i e. h i (ground (arith, e))))

-- `plurality` described by the ballots alone: for a candidate `i`, with `m` the number of marks that
-- the ballots give `i`, the candidate is among the winners exactly when at most `seats` candidates
-- have `m` marks or more, and among the ties exactly when fewer than `seats` have more than `m` and
-- more than `seats` have `m` or more. Candidates have distinct ids.
abbrev pub ElectsBySupport : List Selection → List Candidate → ℕ → ℕ → PluralityResult → Type 0
ElectsBySupport ss cands seats i r =
    let m = mentions i ss in
    (elem i r.winners ≡ leb (supported ss m cands) seats)
    × (elem i r.ties ≡ (ltb (supported ss (suc m) cands) seats && ltb seats (supported ss m cands)))

-- For every list of ballots and candidates with distinct ids, and every candidate `i` among them:
-- `plurality` puts `i` among the winners exactly when at most `seats` candidates have as many marks
-- on the ballots as `i` or more, and among the ties exactly when fewer than `seats` candidates have
-- more marks and more than `seats` have as many or more.
pub plurality-ElectsBySupport :
    (ss : List Selection) (cands : List Candidate) (seats i : ℕ)
    → IsDistinct (ids_of cands)
    → elem i (ids_of cands) ≡ true
    → ElectsBySupport ss cands seats i (plurality ss cands seats)
unfolding plurality
plurality-ElectsBySupport ss cands seats i distinct listed =
    let counts = (count_selections ss (start cands)).counts in
    let decided = winners_with_ties-rank counts cands seats i distinct listed in
    let same = counts-eq-mentions ss cands i listed in
    let by =
      λ (k : ℕ). at_least-eq-supported ss counts k cands (λ j e. counts-eq-mentions ss cands j e) in
    (
      decided.0 ∙ ap (λ n. leb n seats) (by _ ∙ ap (λ k. supported ss k cands) same),
      decided.1
          ∙ ap₂ (λ b a. ltb b seats && ltb seats a)
              (by _ ∙ ap (λ k. supported ss (suc k) cands) same)
              (by _ ∙ ap (λ k. supported ss k cands) same),
    )

-- Every ballot is counted exactly once in the result of `plurality`: as valid or as an abstention.
pub plurality-counts_ballots :
    (ss : List Selection) (cands : List Candidate) (seats : ℕ)
    → let r = plurality ss cands seats in r.valid_ballots + r.abstentions ≡ length ss
unfolding plurality
plurality-counts_ballots ss cands seats = omega (arith, valid-count_selections ss (start cands))

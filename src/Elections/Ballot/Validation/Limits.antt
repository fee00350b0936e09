-- ===== src/Elections/Ballot/Validation/Limits.antt =====
-- What a selection that `normalize_selection` accepts is.
use flexyvotes.Base.{
  ℕ, ◌≤◌, ◌≡◌, refl, subst, Bool, true, false, ◌&&◌, not, List, [], ◌∷◌, arith, ltb, leb, ◌==◌,
  if◌then◌else◌, length, elem, all, any, occurrences, All, Bool-cases, inl, inr,
}
use flexyvotes.Base.Dict.{Dict}
use flexyvotes.Base.Sort.{sort_by, length-sort_by, occurrences-sort_by, elem-sort_by, sort_by-All}
use flexyvotes.Elections.Model.{
  BallotType, referendum, score, Position, Selection, abstained, ids, scores, yes_vote, no_vote,
  is_referendum_type,
}
use flexyvotes.Elections.Ballot.{effective_limits}
use flexyvotes.Elections.Ballot.Validation.{
  Item, integer, negative, blank, Raw, BallotError, Checked, invalid, valid, is_integer,
  same_integer, has_repeats, is_listed, numbers, to_ids, valid_ids, normalize_selection,
  normalize_ids, normalize_answer, normalize_scores, finish_ids, finish_scores, read_scores,
  read_score, add_score, set_score, is_ranked, by_type, by_id, abstain, is_blank, value, listing,
  mapping, as_list, yes_text, no_text,
}

-- The ids that `to_ids` returns: each once, and of active candidates.
pub record AreCandidates (allowed is : List ℕ) : Type 0 where
  pub each_once : (i : ℕ) → occurrences i is ≤ 1
  pub all_active : (i : ℕ) → elem i is ≡ true → elem i allowed ≡ true

-- A value that stands among the numbers stands among the items.
any_of_numbers :
    (i : ℕ) (vs : List Item)
    → 1 ≤ occurrences i (numbers vs)
    → any (same_integer (integer i)) vs ≡ true
any_of_numbers i [] h = absurd (omega arith)
any_of_numbers i (v ∷ vs) h = ground (arith, any_of_numbers i vs)

numbers_once : (i : ℕ) (vs : List Item) → has_repeats vs ≡ false → occurrences i (numbers vs) ≤ 1
unfolding has_repeats
numbers_once i [] h = omega arith
numbers_once i (v ∷ vs) h = ground (arith, numbers_once i vs, any_of_numbers i vs)

numbers_listed :
    (allowed : List ℕ) (i : ℕ) (vs : List Item)
    → all (is_listed allowed) vs ≡ true
    → elem i (numbers vs) ≡ true
    → elem i allowed ≡ true
numbers_listed allowed i [] h k = cc
numbers_listed allowed i (v ∷ vs) h k = ground (arith, numbers_listed allowed i vs)

to_ids-AreCandidates :
    (vs : List Item) (allowed is : List ℕ) → to_ids vs allowed ≡ valid is → AreCandidates allowed is
unfolding to_ids
to_ids-AreCandidates vs allowed is h =
    let (once, listed, same) = parts in
    subst (AreCandidates allowed) same (record {
      each_once = λ i. numbers_once i vs once;
      all_active = λ i. numbers_listed allowed i vs listed;
    })
  where
    parts : (has_repeats vs ≡ false) × (all (is_listed allowed) vs ≡ true) × (numbers vs ≡ is)
    parts = ground arith

-- A score is of an active candidate and within the scale.
abbrev pub IsScore : Position → ℕ × ℕ → Type 0
IsScore p e = (elem e.0 (valid_ids p) ≡ true) × (e.1 ≤ p.max_score)

set_score-All :
    (p : Position) (cid n : ℕ) (d : Dict ℕ)
    → IsScore p (cid, n)
    → All (IsScore p) d
    → All (IsScore p) (set_score cid n d)
set_score-All p cid n [] h k = (h, tt)
set_score-All p cid n (e ∷ d) h k = elim (Bool-cases (e.0 == cid)) [
  | inl same ↦ rw same (h, k.1)
  | inr other ↦ rw other (k.0, set_score-All p cid n d h k.1)
]

-- What an accepted selection is, in each of its forms.
abbrev pub IsAccepted : Position → Selection → Type 0
IsAccepted p abstained = p.allow_abstain ≡ true
IsAccepted p (ids is) =
    AreCandidates (valid_ids p) is
    × ((effective_limits p).0 ≤ length is)
    × (length is ≤ (effective_limits p).1)
IsAccepted p (scores d) = All (IsScore p) d × ((effective_limits p).0 ≤ length d)
IsAccepted p yes_vote = is_referendum_type p.ballot_type ≡ true
IsAccepted p no_vote = is_referendum_type p.ballot_type ≡ true

-- Whatever is accepted has the property.
abbrev pub Accepts : {A : Type 0} → (A → Type 0) → Checked A → Type 0
Accepts P (invalid x) = Unit
Accepts P (valid a) = P a

if-Accepts :
    {A : Type 0} (P : A → Type 0) (c : Bool) (x : BallotError) (k : Checked A)
    → (c ≡ false → Accepts P k)
    → Accepts P (if c then invalid x else k)
if-Accepts P true x k h = tt
if-Accepts P false x k h = h refl

add_score-Accepts :
    (p : Position) (k v : Item) (d : Dict ℕ)
    → All (IsScore p) d
    → Accepts (All (IsScore p)) (add_score p k v d)
unfolding add_score
add_score-Accepts p (integer cid) (integer n) d h =
    if-Accepts (All (IsScore p)) (not (elem cid (valid_ids p))) _ _ λ known.
      if-Accepts (All (IsScore p)) (ltb p.max_score n) _ _
        λ low. set_score-All p cid n d (score_of known low) h
  where
    score_of : not (elem cid (valid_ids p)) ≡ false → ltb p.max_score n ≡ false → IsScore p (cid, n)
    score_of known low = (ground arith, ground arith)
add_score-Accepts p (integer cid) (negative n) d h =
    if-Accepts (All (IsScore p)) (not (elem cid (valid_ids p))) _ _ λ known. tt
add_score-Accepts p (negative cid) v d h = tt
add_score-Accepts p k v d h = tt

read_score-Accepts :
    (p : Position) (k v : Item) (d : Dict ℕ)
    → All (IsScore p) d
    → Accepts (All (IsScore p)) (read_score p k v d)
unfolding read_score
read_score-Accepts p k v d h = elim (Bool-cases (is_blank v)) [
  | inl none_given ↦ rw none_given h
  | inr given ↦ rw given (
      if-Accepts (All (IsScore p)) (not (is_integer k && is_integer v)) _ _
        λ ints. add_score-Accepts p k v d h)
]

next_scores :
    (p : Position) (es : List (Item × Item)) (r : Checked (Dict ℕ))
    → ((d : Dict ℕ) → All (IsScore p) d → Accepts (All (IsScore p)) (read_scores p es d))
    → Accepts (All (IsScore p)) r
    → Accepts (All (IsScore p)) (elim r [ invalid x ↦ invalid x | valid d' ↦ read_scores p es d' ])
next_scores p es (invalid x) ih k = tt
next_scores p es (valid d') ih k = ih d' k

read_scores-Accepts :
    (p : Position) (es : List (Item × Item)) (d : Dict ℕ)
    → All (IsScore p) d
    → Accepts (All (IsScore p)) (read_scores p es d)
unfolding read_scores
read_scores-Accepts p [] d h = h
read_scores-Accepts p (e ∷ es) d h =
    next_scores p es (read_score p e.0 e.1 d) (read_scores-Accepts p es)
      (read_score-Accepts p e.0 e.1 d h)

abstain-Accepts : (p : Position) → Accepts (IsAccepted p) (abstain p)
abstain-Accepts p = elim (Bool-cases p.allow_abstain) [
  | inl may ↦ rw may refl
  | inr may_not ↦ rw may_not tt
]

finish_scores-Accepts :
    (p : Position) (d : Dict ℕ) → All (IsScore p) d → Accepts (IsAccepted p) (finish_scores p d)
unfolding finish_scores
finish_scores-Accepts p [] h = abstain-Accepts p
finish_scores-Accepts p (e ∷ d) h =
    if-Accepts (IsAccepted p) (ltb (length (e ∷ d)) (effective_limits p).0) _ _ λ enough. (
      sort_by-All by_id (IsScore p) (e ∷ d) h,
      omega (arith, length-sort_by by_id (e ∷ d), not_below enough),
    )
  where
    not_below :
        ltb (length (e ∷ d)) (effective_limits p).0 ≡ false
        → (effective_limits p).0 ≤ length (e ∷ d)
    not_below enough = ground arith

normalize_scores-Accepts :
    (p : Position) (raw : Raw) → Accepts (IsAccepted p) (normalize_scores p raw)
unfolding normalize_scores
normalize_scores-Accepts p (value blank) = abstain-Accepts p
normalize_scores-Accepts p (value v) = tt
normalize_scores-Accepts p (listing vs) = tt
normalize_scores-Accepts p (mapping []) = abstain-Accepts p
normalize_scores-Accepts p (mapping (e ∷ es)) =
    finish (read_scores p (e ∷ es) []) (read_scores-Accepts p (e ∷ es) [] tt)
  where
    finish :
        (r : Checked (Dict ℕ))
        → Accepts (All (IsScore p)) r
        → Accepts (IsAccepted p) (elim r [ invalid x ↦ invalid x | valid d ↦ finish_scores p d ])
    finish (invalid x) k = tt
    finish (valid d) k = finish_scores-Accepts p d k

sort_by-AreCandidates :
    (allowed is : List ℕ) → AreCandidates allowed is → AreCandidates allowed (sort_by leb is)
sort_by-AreCandidates allowed is h = record {
  each_once = λ i. omega (arith, h.each_once i, occurrences-sort_by leb i is);
  all_active = λ i k. h.all_active i (elem-sort_by leb i is k);
}

-- Ids in their order, or sorted, are within the limits.
arranged-IsAccepted :
    (p : Position) (in_order : Bool) (is : List ℕ)
    → AreCandidates (valid_ids p) is
    → ltb (effective_limits p).1 (length is) ≡ false
    → ltb (length is) (effective_limits p).0 ≡ false
    → IsAccepted p (ids (if in_order then is else sort_by leb is))
arranged-IsAccepted p true is h most least = (h, ground arith, ground arith)
arranged-IsAccepted p false is h most least =
    let low : (effective_limits p).0 ≤ length is = ground arith in
    let high : length is ≤ (effective_limits p).1 = ground arith in
    (
      sort_by-AreCandidates (valid_ids p) is h,
      omega (arith, length-sort_by leb is),
      omega (arith, length-sort_by leb is),
    )

finish_ids-Accepts :
    (p : Position) (is : List ℕ)
    → AreCandidates (valid_ids p) is
    → Accepts (IsAccepted p) (finish_ids p is)
unfolding finish_ids
finish_ids-Accepts p is h =
    if-Accepts (IsAccepted p) (ltb (effective_limits p).1 (length is)) _ _ λ most.
      if-Accepts (IsAccepted p) (ltb (length is) (effective_limits p).0) _ _
        λ least. arranged-IsAccepted p (is_ranked p.ballot_type) is h most least

normalize_ids-Accepts :
    (p : Position) (vs : List Item) → Accepts (IsAccepted p) (normalize_ids p vs)
unfolding normalize_ids
normalize_ids-Accepts p [] = abstain-Accepts p
normalize_ids-Accepts p (v ∷ vs) =
    finish (to_ids (v ∷ vs) (valid_ids p))
      (λ is e. to_ids-AreCandidates (v ∷ vs) (valid_ids p) is e)
  where
    finish :
        (r : Checked (List ℕ))
        → ((is : List ℕ) → r ≡ valid is → AreCandidates (valid_ids p) is)
        → Accepts (IsAccepted p) (elim r [ invalid x ↦ invalid x | valid is ↦ finish_ids p is ])
    finish (invalid x) k = tt
    finish (valid is) k = finish_ids-Accepts p is (k is refl)

normalize_answer-Accepts :
    (p : Position) (vs : List Item)
    → is_referendum_type p.ballot_type ≡ true
    → Accepts (IsAccepted p) (normalize_answer p vs)
unfolding normalize_answer
normalize_answer-Accepts p [] h = abstain-Accepts p
normalize_answer-Accepts p (yes_text ∷ []) h = h
normalize_answer-Accepts p (no_text ∷ []) h = h
normalize_answer-Accepts p (v ∷ vs) h = tt

by_type-Accepts :
    (t : BallotType) (p : Position) (raw : Raw)
    → p.ballot_type ≡ t
    → Accepts (IsAccepted p) (by_type t p raw)
by_type-Accepts referendum p raw h = normalize_answer-Accepts p (as_list raw) (rw h refl)
by_type-Accepts score p raw h = normalize_scores-Accepts p raw
by_type-Accepts _ p raw h = normalize_ids-Accepts p (as_list raw)

IsAccepted-of_equal :
    (p : Position) (r : Checked Selection) (sel : Selection)
    → Accepts (IsAccepted p) r
    → r ≡ valid sel
    → IsAccepted p sel
IsAccepted-of_equal p r sel a e = subst (Accepts (IsAccepted p)) e a

-- A selection that `normalize_selection` accepts, whatever the voter sent: an abstention only where
-- the position allows one; YES or NO only in a referendum; ids only of active candidates, each once,
-- and as many as the effective limits allow; scores only of active candidates and within the scale,
-- and not fewer than the minimum.
pub normalize_selection-IsAccepted :
    (p : Position) (raw : Raw) (sel : Selection)
    → normalize_selection p raw ≡ valid sel
    → IsAccepted p sel
unfolding normalize_selection
normalize_selection-IsAccepted p raw sel h =
    IsAccepted-of_equal p (by_type p.ballot_type p raw) sel
      (by_type-Accepts p.ballot_type p raw refl) h

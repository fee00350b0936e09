-- ===== src/Elections/Ballot/Validation.antt =====
-- elections/ballot.py: `normalize_selection` and `validate_ballot`, which read what a voter sent.
-- The code asks of a value only whether it is blank (None or an empty text), which integer `int`
-- makes of it, and whether it spells YES or NO; an `Item` says which, and `negative n` is an integer
-- below zero. An error is a BallotError, by its branch.
pub mod Limits
pub mod Complete
use flexyvotes.Base.{
  ℕ, Bool, true, false, ◌&&◌, ◌||◌, not, Option, none, some, List, [], ◌∷◌, map, ltb, leb, ◌==◌,
  if◌then◌else◌, length, keep, elem, all, any,
}
use flexyvotes.Base.Dict.{Dict}
use flexyvotes.Base.Sort.{sort_by}
use flexyvotes.Elections.Model.{
  BallotType, single, fptp, multiple, approval, ranked, score, referendum, Candidate, Position,
  Selection, abstained, ids, scores, yes_vote, no_vote, is_active, is_referendum_type,
}
use flexyvotes.Elections.Ballot.{active_candidates, effective_limits, is_empty}

pub data Item : Type 0 where
  blank : Item
  integer : ℕ → Item
  negative : ℕ → Item
  yes_text no_text other_value : Item

-- `raw`: one value, a list or a dict.
pub data Raw : Type 0 where
  value : Item → Raw
  listing : List Item → Raw
  mapping : List (Item × Item) → Raw

pub data BallotError : Type 0 where
  selection_required invalid_selection selected_twice invalid_candidate too_many too_few :
      BallotError
  invalid_answer invalid_score score_out_of_range malformed not_on_ballot : BallotError

pub data Checked (A : Type 0) : Type 0 where
  invalid : BallotError → Checked A
  valid : A → Checked A

abbrev pub is_blank : Item → Bool
is_blank blank = true
is_blank _ = false

-- `_as_list`
unfoldable pub as_list : Raw → List Item
as_list (value blank) = []
as_list (value v) = v ∷ []
as_list (listing vs) = keep (λ v. not (is_blank v)) vs
as_list (mapping d) = other_value ∷ []

-- The ids of the position's active candidates, `valid_ids`.
abbrev pub pks : List Candidate → List ℕ
pks [] = []
pks (c ∷ cs) = c.id ∷ pks cs

unfoldable pub valid_ids : Position → List ℕ
unfolding active_candidates
valid_ids p = pks (active_candidates p)

-- `int(value)` raises nothing.
abbrev pub is_integer : Item → Bool
is_integer (integer i) = true
is_integer (negative i) = true
is_integer _ = false

abbrev pub same_integer : Item → Item → Bool
same_integer (integer i) (integer j) = i == j
same_integer (negative i) (negative j) = i == j
same_integer _ _ = false

-- `len(set(ids)) != len(ids)`
unfoldable pub has_repeats : List Item → Bool
has_repeats [] = false
has_repeats (v ∷ vs) = any (same_integer v) vs || has_repeats vs

abbrev pub is_listed : List ℕ → Item → Bool
is_listed allowed (integer i) = elem i allowed
is_listed allowed _ = false

-- The integers, once they are candidates.
abbrev pub numbers : List Item → List ℕ
numbers [] = []
numbers (integer i ∷ vs) = i ∷ numbers vs
numbers (v ∷ vs) = numbers vs

-- `_to_ids`
unfoldable pub to_ids : List Item → List ℕ → Checked (List ℕ)
unfolding has_repeats
to_ids values allowed =
    if not (all is_integer values)
    then invalid invalid_selection
    else if has_repeats values
    then invalid selected_twice
    else if not (all (is_listed allowed) values)
    then invalid invalid_candidate
    else valid (numbers values)

-- An abstention, where the position allows one.
abbrev pub abstain : Position → Checked Selection
abstain p = if p.allow_abstain then valid abstained else invalid selection_required

-- The branch of a referendum, for `values`.
unfoldable pub normalize_answer : Position → List Item → Checked Selection
normalize_answer p [] = abstain p
normalize_answer p (yes_text ∷ []) = valid yes_vote
normalize_answer p (no_text ∷ []) = valid no_vote
normalize_answer p _ = invalid invalid_answer

-- `scores[str(cid)] = score`
abbrev pub set_score : ℕ → ℕ → Dict ℕ → Dict ℕ
set_score cid n [] = (cid, n) ∷ []
set_score cid n (e ∷ d) = if e.0 == cid then (cid, n) ∷ d else e ∷ set_score cid n d

-- The body of the loop over the items of `raw`, once key and value are integers.
unfoldable pub add_score : Position → Item → Item → Dict ℕ → Checked (Dict ℕ)
add_score p (integer cid) (integer n) d =
    if not (elem cid (valid_ids p))
    then invalid invalid_candidate
    else if ltb p.max_score n
    then invalid score_out_of_range
    else valid (set_score cid n d)
add_score p (integer cid) (negative n) d =
    if not (elem cid (valid_ids p)) then invalid invalid_candidate else invalid score_out_of_range
add_score p (negative cid) v d = invalid invalid_candidate
add_score p k v d = invalid invalid_score

-- One item of `raw`.
unfoldable pub read_score : Position → Item → Item → Dict ℕ → Checked (Dict ℕ)
unfolding add_score
read_score p k v d =
    if is_blank v
    then valid d
    else if not (is_integer k && is_integer v)
    then invalid invalid_score
    else add_score p k v d

unfoldable pub read_scores : Position → List (Item × Item) → Dict ℕ → Checked (Dict ℕ)
unfolding read_score
read_scores p [] d = valid d
read_scores p (e ∷ es) d = elim (read_score p e.0 e.1 d) [
  | invalid x ↦ invalid x
  | valid d' ↦ read_scores p es d'
]

-- `int(kv[0])`, the order of the result.
abbrev pub by_id : ℕ × ℕ → ℕ × ℕ → Bool
by_id a b = leb a.0 b.0

unfoldable pub finish_scores : Position → Dict ℕ → Checked Selection
unfolding effective_limits sort_by
finish_scores p [] = abstain p
finish_scores p (e ∷ d) =
    if ltb (length (e ∷ d)) (effective_limits p).0
    then invalid too_few
    else valid (scores (sort_by by_id (e ∷ d)))

-- The branch of a score ballot.
unfoldable pub normalize_scores : Position → Raw → Checked Selection
unfolding read_scores finish_scores
normalize_scores p (value blank) = abstain p
normalize_scores p (mapping []) = abstain p
normalize_scores p (mapping (e ∷ es)) = elim (read_scores p (e ∷ es) []) [
  | invalid x ↦ invalid x
  | valid d ↦ finish_scores p d
]
normalize_scores p _ = invalid invalid_score

abbrev pub is_ranked : BallotType → Bool
is_ranked ranked = true
is_ranked _ = false

-- The limits and the order of the ids.
unfoldable pub finish_ids : Position → List ℕ → Checked Selection
unfolding effective_limits sort_by
finish_ids p is =
    if ltb (effective_limits p).1 (length is)
    then invalid too_many
    else if ltb (length is) (effective_limits p).0
    then invalid too_few
    else valid (ids (if is_ranked p.ballot_type then is else sort_by leb is))

-- The last part of `normalize_selection`, for `values`.
unfoldable pub normalize_ids : Position → List Item → Checked Selection
unfolding to_ids finish_ids
normalize_ids p [] = abstain p
normalize_ids p (v ∷ vs) = elim (to_ids (v ∷ vs) (valid_ids p)) [
  | invalid x ↦ invalid x
  | valid is ↦ finish_ids p is
]

abbrev pub by_type : BallotType → Position → Raw → Checked Selection
by_type referendum p raw = normalize_answer p (as_list raw)
by_type score p raw = normalize_scores p raw
by_type _ p raw = normalize_ids p (as_list raw)

unfoldable pub normalize_selection : Position → Raw → Checked Selection
unfolding normalize_answer normalize_scores normalize_ids
normalize_selection p raw = by_type p.ballot_type p raw

-- `payload`, which is a dict when its answers are known; a key is the position that it spells.
pub data Payload : Type 0 where
  no_dict : Payload
  answers : List (Option ℕ × Raw) → Payload

abbrev pub names_position : List ℕ → Option ℕ → Bool
names_position style none = false
names_position style (some i) = elem i style

-- `payload.get(str(position.pk), payload.get(position.pk))`
abbrev pub answer_for : ℕ → List (Option ℕ × Raw) → Raw
answer_for i [] = value blank
answer_for i ((none, raw) ∷ rest) = answer_for i rest
answer_for i ((some j, raw) ∷ rest) = if j == i then raw else answer_for i rest

-- The selection of a position that is in the style, before the ones of the positions after it.
unfoldable pub add_answer :
    Bool → ℕ → Checked Selection → Checked (List (ℕ × Selection)) → Checked (List (ℕ × Selection))
add_answer false i first rest = rest
add_answer true i (invalid x) rest = invalid x
add_answer true i (valid sel) (invalid x) = invalid x
add_answer true i (valid sel) (valid done) = valid ((i, sel) ∷ done)

-- The loop over the positions of the event.
unfoldable pub normalize_all :
    List ℕ → List (Option ℕ × Raw) → List Position → Checked (List (ℕ × Selection))
unfolding add_answer
normalize_all style given [] = valid []
normalize_all style given (p ∷ ps) =
    add_answer (elem p.id style) p.id (normalize_selection p (answer_for p.id given))
      (normalize_all style given ps)

unfoldable pub validate_ballot : List Position → List ℕ → Payload → Checked (List (ℕ × Selection))
unfolding normalize_all
validate_ballot positions style no_dict = invalid malformed
validate_ballot positions style (answers given) =
    if any (λ e. not (names_position style e.0)) given
    then invalid not_on_ballot
    else normalize_all style given positions

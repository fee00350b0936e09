-- ===== src/Elections/Ballot/Validation/Complete.antt =====
-- What a ballot that `validate_ballot` accepts holds.
use flexyvotes.Base.{
  ℕ, ◌≡◌, refl, subst, Bool, true, false, not, Option, List, [], ◌∷◌, arith, if◌then◌else◌, elem,
  any, Bool-cases, inl, inr,
}
use flexyvotes.Elections.Model.{Position, Selection}
use flexyvotes.Elections.Ballot.Validation.{
  Raw, Checked, invalid, valid, normalize_selection, normalize_all, add_answer, validate_ballot,
  answers, answer_for, names_position,
}
use flexyvotes.Elections.Ballot.Validation.Limits.{IsAccepted, normalize_selection-IsAccepted}

-- The first selection is the one of `p`, and the others are as `Rest` says.
abbrev pub StartsWith : Position → (List (ℕ × Selection) → Type 0) → List (ℕ × Selection) → Type 0
StartsWith p Rest [] = ⊥
StartsWith p Rest (s ∷ ss) = (s.0 ≡ p.id) × IsAccepted p s.1 × Rest ss

-- The selections of a ballot, against the positions: one for each position of the style, in their
-- order, and none for another position.
abbrev pub IsComplete : List ℕ → List Position → List (ℕ × Selection) → Type 0
IsComplete style [] ss = ss ≡ []
IsComplete style (p ∷ ps) ss =
    if elem p.id style then StartsWith p (IsComplete style ps) ss else IsComplete style ps ss

add_answer-IsComplete :
    (in_style : Bool) (p : Position) (first : Checked Selection)
    (rest : Checked (List (ℕ × Selection))) (Rest : List (ℕ × Selection) → Type 0)
    (ss : List (ℕ × Selection))
    → ((sel : Selection) → first ≡ valid sel → IsAccepted p sel)
    → ((done : List (ℕ × Selection)) → rest ≡ valid done → Rest done)
    → add_answer in_style p.id first rest ≡ valid ss
    → if in_style then StartsWith p Rest ss else Rest ss
unfolding add_answer
add_answer-IsComplete false p first rest Rest ss f r h = r ss h
add_answer-IsComplete true p (invalid x) rest Rest ss f r h = cc
add_answer-IsComplete true p (valid sel) (invalid x) Rest ss f r h = cc
add_answer-IsComplete true p (valid sel) (valid done) Rest ss f r h =
    subst (StartsWith p Rest) same (refl, f sel refl, r done refl)
  where
    same : (p.id, sel) ∷ done ≡ ss
    same = cc

normalize_all-IsComplete :
    (style : List ℕ) (given : List (Option ℕ × Raw)) (ps : List Position)
    (ss : List (ℕ × Selection))
    → normalize_all style given ps ≡ valid ss
    → IsComplete style ps ss
unfolding normalize_all
normalize_all-IsComplete style given [] ss h = cc
normalize_all-IsComplete style given (p ∷ ps) ss h =
    add_answer-IsComplete (elem p.id style) p (normalize_selection p (answer_for p.id given))
      (normalize_all style given ps) (IsComplete style ps) ss
      (λ sel e. normalize_selection-IsAccepted p (answer_for p.id given) sel e)
      (λ done e. normalize_all-IsComplete style given ps done e) h

-- A ballot that `validate_ballot` accepts holds one selection for each position of the event that is
-- in the voter's style, in the order of the positions, within the rules of its position, and no
-- selection for another position; and no answer was for a position outside the style.
pub validate_ballot-IsComplete :
    (positions : List Position) (style : List ℕ) (given : List (Option ℕ × Raw))
    (ss : List (ℕ × Selection))
    → validate_ballot positions style (answers given) ≡ valid ss
    → IsComplete style positions ss × (any (λ e. not (names_position style e.0)) given ≡ false)
unfolding validate_ballot
validate_ballot-IsComplete positions style given ss h =
    elim (Bool-cases (any (λ e. not (names_position style e.0)) given)) [
      | inl unknown ↦ absurd (refused unknown)
      | inr known ↦ (normalize_all-IsComplete style given positions ss (accepted known), known)
    ]
  where
    refused : any (λ e. not (names_position style e.0)) given ≡ true → ⊥
    refused unknown = ground arith

    accepted :
        any (λ e. not (names_position style e.0)) given ≡ false
        → normalize_all style given positions ≡ valid ss
    accepted known = ground arith

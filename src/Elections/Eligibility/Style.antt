-- ===== src/Elections/Eligibility/Style.antt =====
-- `ballot_style` of elections/eligibility.py: which positions a voter may vote on.
use flexyvotes.Base.{
  ℕ, ◌≡◌, refl, sym, ap, ap₂, ◌∙◌, inl, inr, Bool, true, false, ◌&&◌, ◌||◌, not, is_some, List, [],
  ◌∷◌, ◌++◌, map, keep, any, all, elem, leb, ◌==◌, arith, Bool-cases, elem-occurrences,
  elem_of_occurrences,
}
use flexyvotes.Base.Sort.{sort_by, elem-sort_by, occurrences-sort_by}
use flexyvotes.Elections.Casting.{VoterStatus, suspended, ineligible}
use flexyvotes.Elections.Eligibility.{
  Text, EligibilityRule, VoterProfile, StylePosition, Reason, both_within, rule_passes,
  active_rules, status_reasons, unmet, election_eligibility, is_for, position_eligible, if_eligible,
  ballot_style,
}

-- A status that does not shut the voter out.
abbrev pub is_admitted : VoterStatus → Bool
is_admitted suspended = false
is_admitted ineligible = false
is_admitted _ = true

abbrev has_none : List Reason → Bool
has_none [] = true
has_none (r ∷ rs) = false

has_none-append :
    (s : VoterStatus) (rs : List Reason)
    → has_none (status_reasons s ++ rs) ≡ is_admitted s && has_none rs
has_none-append s rs = ground arith

elem-sort_by-leb : (i : ℕ) (xs : List ℕ) → elem i (sort_by leb xs) ≡ elem i xs
elem-sort_by-leb i xs = elim (Bool-cases (elem i xs)) [
  | inl y ↦ rw y (
      elem_of_occurrences i (sort_by leb xs)
        (omega (arith, occurrences-sort_by leb i xs, elem-occurrences i xs y)))
  | inr n ↦ elim (Bool-cases (elem i (sort_by leb xs))) [
    | inl y ↦ y ∙ sym (elem-sort_by leb i xs y)
    | inr m ↦ m ∙ sym n
  ]
]

elem-chosen :
    (i : ℕ) (f : StylePosition → Bool) (ps : List StylePosition)
    → elem i (map (λ p. p.id) (keep f ps)) ≡ any (λ p. i == p.id && f p) ps
elem-chosen i f [] = refl
elem-chosen i f (p ∷ ps) = ground (arith, elem-chosen i f ps)

elem-if_eligible :
    (i : ℕ) (rs : List Reason) (xs : List ℕ) → elem i (if_eligible rs xs) ≡ has_none rs && elem i xs
elem-if_eligible i [] xs = refl
elem-if_eligible i (r ∷ rs) xs = refl

any_same :
    (i : ℕ) (f g : StylePosition → Bool)
    → ((p : StylePosition) → f p ≡ g p)
    → (ps : List StylePosition) → any (λ p. i == p.id && f p) ps ≡ any (λ p. i == p.id && g p) ps
any_same i f g h [] = refl
any_same i f g h (p ∷ ps) = ap₂ (λ a b. (i == p.id && a) || b) (h p) (any_same i f g h ps)

-- A test of the active rules in a scope is a test of all rules.
all-active :
    (scope good : EligibilityRule → Bool) (rs : List EligibilityRule)
    → all good (keep scope (active_rules rs))
      ≡ all (λ r. not r.is_active || (not (scope r) || good r)) rs
all-active scope good [] = refl
all-active scope good (r ∷ rs) = ground (arith, all-active scope good rs)

module _ (clean lower : Text → Text) where
  has_none-unmet :
      (v : VoterProfile) (rs : List EligibilityRule)
      → has_none (unmet clean lower (active_rules rs) v)
        ≡ all (λ r. not r.is_active || (is_some r.position_id || rule_passes clean lower r v)) rs
  unfolding unmet
  has_none-unmet v [] = refl
  has_none-unmet v (r ∷ rs) = ground (arith, has_none-unmet v rs)

  -- The voter may vote at all: the status admits it, and every active rule for the whole election passes.
  abbrev pub may_vote : List EligibilityRule → VoterProfile → Bool
  may_vote rules v =
      is_admitted v.status
      && all (λ r. not r.is_active || (is_some r.position_id || rule_passes clean lower r v)) rules

  -- The voter may vote on a position: it lies in the position's constituency, if there is one, and every
  -- active rule for the position passes.
  abbrev pub may_vote_on : List EligibilityRule → VoterProfile → StylePosition → Bool
  may_vote_on rules v p =
      (not (is_some p.constituency) || both_within v.constituency p.constituency)
      && all (λ r. not r.is_active || (not (is_for p.id r) || rule_passes clean lower r v)) rules

  position_eligible-may_vote_on :
      (rules : List EligibilityRule) (v : VoterProfile) (p : StylePosition)
      → position_eligible clean lower p v (active_rules rules) ≡ may_vote_on rules v p
  unfolding position_eligible
  position_eligible-may_vote_on rules v p =
      ap (λ b. (not (is_some p.constituency) || both_within v.constituency p.constituency) && b)
        (all-active (is_for p.id) (λ r. rule_passes clean lower r v) rules)

  has_none-eligibility :
      (rules : List EligibilityRule) (v : VoterProfile)
      → has_none (election_eligibility clean lower rules v) ≡ may_vote rules v
  unfolding election_eligibility
  has_none-eligibility rules v =
      has_none-append v.status (unmet clean lower (active_rules rules) v)
      ∙ ap (λ b. is_admitted v.status && b) (has_none-unmet v rules)

  -- A position is on the ballot style of a voter exactly if the voter may vote in the election (the status
  -- is neither suspended nor ineligible, and every active rule for the whole election passes) and it is a
  -- position of the election in whose constituency the voter is, if it has one, and for which every
  -- active rule of its own passes.
  pub ballot_style-lists :
      (i : ℕ) (rules : List EligibilityRule) (positions : List StylePosition) (v : VoterProfile)
      → elem i (ballot_style clean lower rules positions v)
        ≡ may_vote rules v && any (λ p. i == p.id && may_vote_on rules v p) positions
  unfolding ballot_style
  ballot_style-lists i rules positions v =
      let style : List ℕ =
        map (λ p. p.id)
          (keep (λ p. position_eligible clean lower p v (active_rules rules)) positions) in
      elem-if_eligible i (election_eligibility clean lower rules v) (sort_by leb style)
      ∙ ap₂ (λ a b. a && b) (has_none-eligibility rules v)
          (elem-sort_by-leb i style
            ∙ elem-chosen i (λ p. position_eligible clean lower p v (active_rules rules)) positions
            ∙ any_same i (λ p. position_eligible clean lower p v (active_rules rules))
                (may_vote_on rules v) (position_eligible-may_vote_on rules v) positions)

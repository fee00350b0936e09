-- ===== src/Elections/Eligibility.antt =====
-- elections/eligibility.py: who may vote, and on which positions. A text is the list of its code points;
-- `clean` is `str(v).strip().lower()` and `lower` is `str.lower`.
pub mod Paths
pub mod Style
mod Tests
use flexyvotes.Base.{
  ℕ, Bool, true, false, ◌&&◌, ◌||◌, not, Option, none, some, is_some, List, [], ◌∷◌, ◌++◌, map,
  keep, any, all, leb, ◌==◌, if◌then◌else◌,
}
use flexyvotes.Base.Sort.{sort_by}
use flexyvotes.Elections.Casting.{VoterStatus, suspended, ineligible}

abbrev pub Text : Type 0
Text = List ℕ

-- `a == b`
abbrev pub same_text : Text → Text → Bool
same_text [] [] = true
same_text [] (b ∷ w) = false
same_text (a ∷ v) [] = false
same_text (a ∷ v) (b ∷ w) = a == b && same_text v w

-- `s.startswith(prefix)`
abbrev pub starts_with : Text → Text → Bool
starts_with s [] = true
starts_with [] (p ∷ ps) = false
starts_with (a ∷ s) (p ∷ ps) = a == p && starts_with s ps

-- `v in values`
abbrev pub is_listed : Text → List Text → Bool
is_listed v values = any (same_text v) values

-- `Constituency`, with the code points of its path.
pub record Constituency : Type 0 where
  pub id : ℕ
  pub path : Text

-- `is_within`
abbrev pub is_within : Constituency → Constituency → Bool
is_within c ancestor = starts_with c.path ancestor.path

-- The path that `save` writes: the path of the parent, the number, and a slash.
abbrev pub path_of : (ℕ → Text) → Option Constituency → ℕ → Text
path_of str none id = str id ++ (47 ∷ [])
path_of str (some parent) id = parent.path ++ (str id ++ (47 ∷ []))

-- `EligibilityRule.Kind`
pub data RuleKind : Type 0 where
  in_constituency attribute_equals attribute_in attribute_not_in email_domain verified_email
        verified_phone :
      RuleKind

pub record EligibilityRule : Type 0 where
  pub position_id : Option ℕ
  pub kind : RuleKind
  pub attribute : ℕ
  pub values : List Text
  pub constituency : Option Constituency
  pub is_active : Bool

-- The columns of a voter that eligibility reads.
pub record VoterProfile : Type 0 where
  pub status : VoterStatus
  pub constituency : Option Constituency
  pub attributes : ℕ → Option Text
  pub email : Option Text
  pub email_verified_at : Option ℕ
  pub phone_verified_at : Option ℕ

pub record StylePosition : Type 0 where
  pub id : ℕ
  pub constituency : Option Constituency

-- What the rules say of a voter.
pub data Reason : Type 0 where
  is_suspended is_ineligible : Reason
  not_met : EligibilityRule → Reason

-- `v.lstrip('@')`
abbrev pub lstrip_at : Text → Text
lstrip_at [] = []
lstrip_at (a ∷ v) = if a == 64 then lstrip_at v else a ∷ v

abbrev pub has_at : Text → Bool
has_at [] = false
has_at (a ∷ v) = a == 64 || has_at v

-- `email.rsplit('@', 1)[-1]`
abbrev pub after_at : Text → Text
after_at [] = []
after_at (a ∷ v) = let rest = after_at v in if has_at v then rest else if a == 64 then v else a ∷ v

-- `values[0] if values else ''`
abbrev pub first_value : List Text → Text
first_value [] = []
first_value (v ∷ vs) = v

abbrev pub is_empty : Text → Bool
is_empty [] = true
is_empty (a ∷ v) = false

-- `a and b and a.is_within(b)`, where either may be missing.
unfoldable pub both_within : Option Constituency → Option Constituency → Bool
both_within none b = false
both_within (some c) none = false
both_within (some c) (some ancestor) = is_within c ancestor

-- `_rules`
abbrev pub active_rules : List EligibilityRule → List EligibilityRule
active_rules rules = keep (λ r. r.is_active) rules

-- The reason that the status of the voter gives.
abbrev pub status_reasons : VoterStatus → List Reason
status_reasons suspended = is_suspended ∷ []
status_reasons ineligible = is_ineligible ∷ []
status_reasons _ = []

-- `rule.position_id == position.pk`
abbrev pub is_for : ℕ → EligibilityRule → Bool
is_for p r = elim r.position_id [ none ↦ false | some q ↦ q == p ]

-- `if not eligible: return []`
abbrev pub if_eligible : List Reason → List ℕ → List ℕ
if_eligible [] style = style
if_eligible (r ∷ rs) style = []

module _ (clean lower : Text → Text) where
  -- `_attribute`
  unfoldable pub attribute_of : VoterProfile → ℕ → Text
  attribute_of v name = elim (v.attributes name) [ none ↦ [] | some value ↦ clean value ]

  -- The domain test, for the email of the voter.
  unfoldable pub domain_listed : Option Text → List Text → Bool
  domain_listed none values = false
  domain_listed (some email) values =
      not (is_empty (lower email)) && is_listed (after_at (lower email)) (map lstrip_at values)

  -- `rule_passes`, by the kind of the rule, for its values.
  unfoldable pub passes_kind : RuleKind → EligibilityRule → List Text → VoterProfile → Bool
  unfolding attribute_of domain_listed both_within
  passes_kind in_constituency rule values v = both_within v.constituency rule.constituency
  passes_kind attribute_equals rule values v =
      same_text (attribute_of v rule.attribute) (first_value values)
  passes_kind attribute_in rule values v = is_listed (attribute_of v rule.attribute) values
  passes_kind attribute_not_in rule values v =
      not (is_listed (attribute_of v rule.attribute) values)
  passes_kind email_domain rule values v = domain_listed v.email values
  passes_kind verified_email rule values v = is_some v.email_verified_at
  passes_kind verified_phone rule values v = is_some v.phone_verified_at

  unfoldable pub rule_passes : EligibilityRule → VoterProfile → Bool
  unfolding passes_kind
  rule_passes rule v = passes_kind rule.kind rule (map clean rule.values) v

  -- The rules for the whole election that are not met.
  unfoldable pub unmet : List EligibilityRule → VoterProfile → List Reason
  unfolding rule_passes
  unmet [] v = []
  unmet (r ∷ rs) v =
      let rest = unmet rs v in
      if not (is_some r.position_id) && not (rule_passes r v) then not_met r ∷ rest else rest

  -- The reasons of `election_eligibility`; the voter is eligible where there are none.
  unfoldable pub election_eligibility : List EligibilityRule → VoterProfile → List Reason
  unfolding unmet
  election_eligibility rules v = status_reasons v.status ++ unmet (active_rules rules) v

  unfoldable pub position_eligible : StylePosition → VoterProfile → List EligibilityRule → Bool
  unfolding both_within rule_passes
  position_eligible p v rules =
      (not (is_some p.constituency) || both_within v.constituency p.constituency)
      && all (λ r. rule_passes r v) (keep (is_for p.id) rules)

  unfoldable pub ballot_style : List EligibilityRule → List StylePosition → VoterProfile → List ℕ
  unfolding election_eligibility position_eligible
  ballot_style rules positions v = if_eligible (election_eligibility rules v) (
      sort_by leb
        (map (λ p. p.id) (keep (λ p. position_eligible p v (active_rules rules)) positions)))

-- ===== src/Elections/Eligibility/Tests.antt =====
-- A university (3) with a faculty (17) and its department (42), and a voter of the department.
use flexyvotes.Base.{
  ℕ, ◌+◌, ◌≡◌, refl, true, ◌&&◌, none, some, List, [], ◌∷◌, any, elem, ◌==◌, arith,
}
use flexyvotes.Base.Sort.{sort_by}
use flexyvotes.Elections.Casting.{eligible}
use flexyvotes.Elections.Eligibility.{
  Text, Constituency, is_within, path_of, EligibilityRule, in_constituency, email_domain,
  VoterProfile, StylePosition, ballot_style,
}
use flexyvotes.Elections.Eligibility.Paths.{
  NoSlash, is_below, is_root, is_child, is_within-is_below,
}
use flexyvotes.Elections.Eligibility.Style.{may_vote, may_vote_on, ballot_style-lists}

-- A text for each number: one code point above the slash.
abbrev toy_str : ℕ → Text
toy_str i = (48 + i) ∷ []

toy_str_injective : (i j : ℕ) → toy_str i ≡ toy_str j → i ≡ j
toy_str_injective i j h = omega (arith, first)
  where
    first : 48 + i ≡ 48 + j
    first = cc

toy_str-NoSlash : (i : ℕ) → NoSlash (toy_str i)
toy_str-NoSlash i = ((λ e. omega (arith, e)), tt)

abbrev university : Constituency
university = record { id = 3; path = path_of toy_str none 3 }

abbrev faculty : Constituency
faculty = record { id = 17; path = path_of toy_str (some university) 17 }

abbrev department : Constituency
department = record { id = 42; path = path_of toy_str (some faculty) 42 }

is_within-is_below_example : is_within department university ≡ is_below (3 ∷ 17 ∷ 42 ∷ []) (3 ∷ [])
is_within-is_below_example =
    is_within-is_below toy_str toy_str_injective toy_str-NoSlash
      (is_child department faculty (3 ∷ 17 ∷ [])
        (is_child faculty university (3 ∷ []) (is_root university refl) refl) refl)
      (is_root university refl)

abbrev same : Text → Text
same t = t

-- a@b.c
abbrev voter : VoterProfile
voter = record {
  status = eligible;
  constituency = some department;
  attributes = λ n. none;
  email = some (97 ∷ 64 ∷ 98 ∷ 46 ∷ 99 ∷ []);
  email_verified_at = none;
  phone_verified_at = none;
}

abbrev rules : List EligibilityRule
rules =
    record {
      position_id = none;
      kind = email_domain;
      attribute = 0;
      values = (98 ∷ 46 ∷ 99 ∷ []) ∷ [];
      constituency = none;
      is_active = true;
    }
    ∷ record {
      position_id = some 2;
      kind = in_constituency;
      attribute = 0;
      values = [];
      constituency = none;
      is_active = true;
    }
    ∷ []

abbrev positions : List StylePosition
positions =
    record { id = 5; constituency = some faculty }
    ∷ record { id = 2; constituency = none }
    ∷ record { id = 1; constituency = none }
    ∷ []

voter_style : ballot_style same same rules positions voter ≡ 1 ∷ 5 ∷ []
unfolding ballot_style sort_by
voter_style = refl

ballot_style-lists_example :
    elem 5 (ballot_style same same rules positions voter)
    ≡ may_vote same same rules voter
      && any (λ p. 5 == p.id && may_vote_on same same rules voter p) positions
ballot_style-lists_example = ballot_style-lists same same 5 rules positions voter

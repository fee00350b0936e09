-- ===== src/Elections/Casting/Tests.antt =====
-- Runs of an issue and a cast in an election from 10 to 9,000 with two voters, over a toy encryption.
use flexyvotes.Base.{
  ℕ, zero, suc, ◌+◌, ◌*◌, ◌≡◌, refl, Bool, true, false, Option, none, some, List, [], ◌∷◌, length,
}
use flexyvotes.Elections.Model.{Event, opened, code_voting, system}
use flexyvotes.Elections.Casting.{
  Voter, eligible, voted, VoteAuthorization, issued, consumed, CastBallot, Store, recorded, refused,
  already_voted, ballot_issued, voter_voted, issue_authorization, cast, find_authorization,
}
use flexyvotes.Elections.Casting.Checks.{IsCast, cast-IsCast}
use flexyvotes.Elections.Casting.Count.{
  voted_count, created, issued_to, cast_by, Reachable-Balanced,
}
use flexyvotes.Elections.Casting.Tokens.{issued_count, cast-twice, issue_authorization-issued_count}

abbrev election : Event
election = record {
  id = 1;
  voting_mode = code_voting;
  status = opened;
  start_date = 10;
  end_date = 9000;
  is_active = true;
  auth_methods = 1;
  allow_self_registration = false;
  dual_approval_required = false;
  config_frozen = true;
  ballot_frozen = true;
  candidates_frozen = true;
  voter_list_frozen = true;
  legal_hold = false;
  submitted_by = none;
  reviewed_by = none;
  key_custody = system;
  trustee_threshold = 0;
  record_constituency_on_ballot = false;
  vote_price = 0;
  opened_at = some 10;
  closed_at = none;
  certified_at = none;
  published_at = none;
  archived_at = none;
  positions = [];
  has_candidates = true;
  has_unassigned = false;
  trustee_count = 0;
  open_disputes = 0;
  snapshots = 0;
  has_voters = true;
  has_packages = false;
  has_ballot_key = true;
}

abbrev voter : ℕ → Voter
voter i = record {
  id = i;
  status = eligible;
  constituency_id = none;
  voted_at = none;
  credential_ciphertext = some i;
}

abbrev before : Store
before = record {
  event = election;
  voters = voter 1 ∷ voter 2 ∷ [];
  authorizations = [];
  ballots = [];
  audit = [];
  confirmations = [];
}

abbrev all_pass : Event → Voter → Bool
all_pass e v = true

abbrev one_position : Event → Voter → List ℕ
one_position e v = 5 ∷ []

-- Every number is a valid selection but 0.
abbrev toy_validate : Event → List ℕ → ℕ → Option ℕ
toy_validate e style zero = none
toy_validate e style (suc n) = some (suc n)

abbrev toy_style : Event → List ℕ → ℕ
toy_style e style = length style

abbrev toy_seal : Event → List ℕ → ℕ → ℕ → ℕ
toy_seal e style n nonce = n + 100 * nonce

abbrev toy_hash : ℕ → ℕ
toy_hash n = n + 1000

abbrev authorization : VoteAuthorization
authorization = record {
  voter_id = 2;
  token_hash = 1077;
  status = issued;
  ballot_style = 5 ∷ [];
  issued_at = 20;
  expires_at = 1820;
  consumed_at = none;
}

abbrev after_issue : Store
after_issue = record before { authorizations = authorization ∷ []; audit = ballot_issued 2 ∷ [] }

abbrev after_cast : Store
after_cast = record after_issue {
  voters =
      voter 1
      ∷ (record (voter 2) { status = voted; voted_at = some 30; credential_ciphertext = none })
      ∷ [];
  authorizations = (record authorization { status = consumed; consumed_at = some 30 }) ∷ [];
  ballots =
      (record { ciphertext = 903; tracker = 1903; style_hash = 1; constituency_id = none }) ∷ [];
  audit = ballot_issued 2 ∷ voter_voted 2 ∷ [];
  confirmations = 2 ∷ [];
}

issue_ok :
    issue_authorization {Payload = ℕ} {Selections = ℕ} toy_hash all_pass one_position toy_validate
      toy_style toy_seal toy_hash 20 77 2 before
    ≡ recorded after_issue
unfolding issue_authorization
issue_ok = refl

cast_ok :
    cast toy_hash all_pass one_position toy_validate toy_style toy_seal toy_hash 30 77 9 3
      after_issue
    ≡ recorded after_cast
unfolding cast
cast_ok = refl

Reachable-Balanced_example : length after_cast.ballots ≡ voted_count after_cast.voters
Reachable-Balanced_example =
    Reachable-Balanced toy_hash all_pass one_position toy_validate toy_style toy_seal toy_hash
      after_cast
      (cast_by after_issue after_cast 30 77 9 3
        (issued_to before after_issue 20 77 2 (created before refl refl) issue_ok) cast_ok)

cast-IsCast_example :
    (a : VoteAuthorization) × (v : Voter) × (b : CastBallot) × (find_authorization 1077
        after_issue.authorizations
      ≡ some a)
    × IsCast 30 a v b after_issue after_cast
cast-IsCast_example =
    cast-IsCast toy_hash all_pass one_position toy_validate toy_style toy_seal toy_hash 30 77 9 3
      after_issue after_cast cast_ok

cast-twice_example :
    cast toy_hash all_pass one_position toy_validate toy_style toy_seal toy_hash 31 77 8 4
      after_cast
    ≡ refused already_voted
cast-twice_example =
    cast-twice toy_hash all_pass one_position toy_validate toy_style toy_seal toy_hash 30 77 9 3
      after_issue after_cast cast_ok 31 8 4

issue_authorization-issued_count_example : issued_count 2 after_issue.authorizations ≡ 1
issue_authorization-issued_count_example =
    issue_authorization-issued_count {Payload = ℕ} {Selections = ℕ} toy_hash all_pass one_position
      toy_validate toy_style toy_seal toy_hash 20 77 2 before after_issue issue_ok

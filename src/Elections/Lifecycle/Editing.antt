-- ===== src/Elections/Lifecycle/Editing.antt =====
-- elections/lifecycle.py: `edit_policy` and `require_editable`.
use flexyvotes.Base.{
  ◌≡◌, ◌⊎◌, Bool, true, false, ◌&&◌, ◌||◌, [], ◌∷◌, ◌++◌, none, if◌then◌else◌, arith,
}
use flexyvotes.Elections.Model.{
  Event, Status, draft, review, approved, scheduled, opened, paused, closed, tallying, certified,
  published, archived, is_paid,
}
use flexyvotes.Elections.Lifecycle.{Result, ok, err, not_editable, Election, approval_reset}

-- `scope`; any other text is `other`.
pub data Scope : Type 0 where
  config ballot candidates voters candidate_profile other : Scope

-- The reason of a policy, by the branch that gives it.
pub data Reason : Type 0 where
  no_reason is_locked in_review is_frozen needs_approval in_progress no_state : Reason

pub record EditPolicy : Type 0 where
  pub allowed : Bool
  pub resets_approval : Bool
  pub reason : Reason

-- `frozen_flag`
unfoldable pub frozen_flag : Event → Scope → Bool
frozen_flag e config = e.config_frozen
frozen_flag e ballot = e.ballot_frozen
frozen_flag e candidates = e.candidates_frozen
frozen_flag e voters = e.voter_list_frozen
frozen_flag e candidate_profile = e.candidates_frozen
frozen_flag e other = false

-- `LOCKED_STATES`
unfoldable pub is_locked_state : Status → Bool
is_locked_state closed = true
is_locked_state tallying = true
is_locked_state certified = true
is_locked_state published = true
is_locked_state archived = true
is_locked_state _ = false

-- `scope in ('voters', 'candidate_profile')`
unfoldable pub is_roll : Scope → Bool
is_roll voters = true
is_roll candidate_profile = true
is_roll _ = false

-- `scope in ('candidates', 'ballot')`
unfoldable pub is_ballot : Scope → Bool
is_ballot candidates = true
is_ballot ballot = true
is_ballot _ = false

-- The branch of an approved or a scheduled election.
unfoldable pub after_approval : Scope → EditPolicy
unfolding is_roll
after_approval scope =
    if is_roll scope
    then record { allowed = true; resets_approval = false; reason = no_reason }
    else record { allowed = true; resets_approval = true; reason = needs_approval }

-- The branch of an election whose voting is open or paused.
unfoldable pub while_live : Event → Scope → EditPolicy
unfolding is_roll is_ballot
while_live e scope =
    if is_roll scope
    then record { allowed = true; resets_approval = false; reason = no_reason }
    else if is_paid e && is_ballot scope
    then record { allowed = true; resets_approval = false; reason = no_reason }
    else record { allowed = false; resets_approval = false; reason = in_progress }

-- The tests on the status after the frozen flag.
unfoldable pub policy_by_status : Status → Event → Scope → EditPolicy
unfolding after_approval while_live
policy_by_status draft e scope = record {
  allowed = true;
  resets_approval = false;
  reason = no_reason;
}
policy_by_status approved e scope = after_approval scope
policy_by_status scheduled e scope = after_approval scope
policy_by_status opened e scope = while_live e scope
policy_by_status paused e scope = while_live e scope
policy_by_status _ e scope = record { allowed = false; resets_approval = false; reason = no_state }

abbrev pub is_review : Status → Bool
is_review review = true
is_review _ = false

unfoldable pub edit_policy : Event → Scope → EditPolicy
unfolding frozen_flag is_locked_state policy_by_status
edit_policy e scope =
    if is_locked_state e.status
    then record { allowed = false; resets_approval = false; reason = is_locked }
    else if is_review e.status
    then record { allowed = false; resets_approval = false; reason = in_review }
    else if frozen_flag e scope
    then record { allowed = false; resets_approval = false; reason = is_frozen }
    else policy_by_status e.status e scope

-- `require_editable`, which returns an approved or scheduled election to draft.
unfoldable pub require_editable : Scope → Election → Result Election
unfolding edit_policy
require_editable scope s =
    let policy = edit_policy s.event scope in
    if policy.allowed
    then (if policy.resets_approval
        then ok (record s {
          event = record s.event { status = draft; reviewed_by = none };
          audit = s.audit ++ (approval_reset s.event.status ∷ []);
        })
        else ok s)
    else err not_editable

-- The elections that an edit returns to draft: approved and scheduled ones, unless the edit is of the
-- voters or of a candidate's profile.
abbrev pub needs_review_again : Status → Scope → Bool
needs_review_again approved voters = false
needs_review_again approved candidate_profile = false
needs_review_again approved _ = true
needs_review_again scheduled voters = false
needs_review_again scheduled candidate_profile = false
needs_review_again scheduled _ = true
needs_review_again _ _ = false

-- The election in draft, without reviewer, with one more entry in its audit log.
abbrev pub returned_to_draft : Election → Election
returned_to_draft s = record s {
  event = record s.event { status = draft; reviewed_by = none };
  audit = s.audit ++ (approval_reset s.event.status ∷ []);
}

-- What an edit needs, and what it leaves.
pub record IsEdit (scope : Scope) (s s' : Election) : Type 0 where
  pub not_frozen : frozen_flag s.event scope ≡ false
  pub open_to_edits : (is_locked_state s.event.status || is_review s.event.status) ≡ false
  pub live_edit :
      (s.event.status ≡ opened) ⊎ (s.event.status ≡ paused)
      → (is_roll scope || (is_paid s.event && is_ballot scope)) ≡ true
  pub outcome :
      ((needs_review_again s.event.status scope ≡ true) × (s' ≡ returned_to_draft s))
      ⊎ ((needs_review_again s.event.status scope ≡ false) × (s' ≡ s))

require_editable-outcome :
    (scope : Scope) (s s' : Election)
    → require_editable scope s ≡ ok s'
    → ((needs_review_again s.event.status scope ≡ true) × (s' ≡ returned_to_draft s))
      ⊎ ((needs_review_again s.event.status scope ≡ false) × (s' ≡ s))
unfolding require_editable
require_editable-outcome scope s s' h = ground arith

require_editable-guards :
    (scope : Scope) (s s' : Election)
    → require_editable scope s ≡ ok s'
    → (frozen_flag s.event scope ≡ false)
      × ((is_locked_state s.event.status || is_review s.event.status) ≡ false)
      × ((s.event.status ≡ opened) ⊎ (s.event.status ≡ paused)
          → (is_roll scope || (is_paid s.event && is_ballot scope)) ≡ true)
unfolding require_editable
require_editable-guards scope s s' h = ground arith

-- An edit that `require_editable` lets through is of a part that is not frozen, in an election that
-- is neither locked nor in review; while voting is open or paused it is of the voters or a
-- candidate's profile, or in a paid election of the candidates or the ballot. An approved or
-- scheduled election it returns to draft without reviewer and with one more entry in the audit log,
-- unless it is of the voters or of a candidate's profile; in all other cases it leaves the election
-- as it is.
pub require_editable-IsEdit :
    (scope : Scope) (s s' : Election) → require_editable scope s ≡ ok s' → IsEdit scope s s'
require_editable-IsEdit scope s s' h =
    let guards = require_editable-guards scope s s' h in
    record {
      not_frozen = guards.0;
      open_to_edits = guards.1;
      live_edit = guards.2;
      outcome = require_editable-outcome scope s s' h;
    }

-- ===== src/Elections/Lifecycle/Tests.antt =====
-- Runs of the lifecycle on an election from 10 to 20 that user 1 has submitted.
use flexyvotes.Base.{ℕ, ◌≡◌, refl, inl, arith, Bool, true, false, Option, none, some, [], ◌∷◌}
use flexyvotes.Elections.Model.{
  Event, Status, draft, review, approved, scheduled, opened, archived, code_voting, system,
}
use flexyvotes.Elections.Lifecycle.{
  Perm, approve, archive, Call, Election, ok, transition, approval_reset, transitioned, open_voting,
  notify_voting_opened, same_user,
}
use flexyvotes.Elections.Lifecycle.Graph.{
  IsTransition, transition-IsTransition, approval-IsIndependent,
}
use flexyvotes.Elections.Lifecycle.Invariant.{created, moved, IsSafe, IsDated, Reachable-IsDated}
use flexyvotes.Elections.Lifecycle.Clock.{
  IsSettled, IsClosed, Returns, tick, tick-IsSettled, tick-idempotent, tick-IsClosed,
}
use flexyvotes.Elections.Lifecycle.Editing.{
  IsEdit, config, require_editable, require_editable-IsEdit,
}

abbrev anyone : Option ℕ → Perm → Event → Bool
anyone user p e = true

abbrev election : Status → Event
election st = record {
  id = 1;
  voting_mode = code_voting;
  status = st;
  start_date = 10;
  end_date = 20;
  is_active = true;
  auth_methods = 1;
  allow_self_registration = false;
  dual_approval_required = true;
  config_frozen = false;
  ballot_frozen = false;
  candidates_frozen = false;
  voter_list_frozen = false;
  legal_hold = false;
  submitted_by = some 1;
  reviewed_by = none;
  key_custody = system;
  trustee_threshold = 0;
  record_constituency_on_ballot = false;
  vote_price = 0;
  opened_at = none;
  closed_at = none;
  certified_at = none;
  published_at = none;
  archived_at = none;
  positions = [];
  has_candidates = true;
  has_unassigned = false;
  trustee_count = 0;
  open_disputes = 0;
  snapshots = 0;
  has_voters = true;
  has_packages = false;
  has_ballot_key = false;
}

abbrev at_state : Status → Election
at_state st = record { event = election st; audit = []; tasks = [] }

abbrev by_user : ℕ → Call
by_user u = record {
  actor = some u;
  now = 15;
  by_system = false;
  skip_guard = false;
  extra_effect = λ e. e;
}

-- The election after user 2 has approved it.
abbrev after_approve : Election
after_approve = record {
  event = record (election approved) { reviewed_by = some 2; snapshots = 1 };
  audit = transitioned approve review approved false ∷ [];
  tasks = [];
}

approve_ok : transition anyone approve (by_user 2) (at_state review) ≡ ok (after_approve)
unfolding transition
approve_ok = refl

transition-IsTransition_example :
    IsTransition anyone approve (by_user 2) (at_state review) after_approve
transition-IsTransition_example =
    transition-IsTransition anyone approve (by_user 2) (at_state review) after_approve (λ e. refl)
      approve_ok

approval-IsIndependent_example :
    (same_user (some 2) (some 1) ≡ false) × (after_approve.event.reviewed_by ≡ some 2)
approval-IsIndependent_example =
    approval-IsIndependent anyone (by_user 2) (at_state review) after_approve refl refl (λ e. refl)
      approve_ok

-- A draft that is archived.
abbrev after_archive : Election
after_archive = record {
  event = record (election archived) { archived_at = some 15; is_active = false };
  audit = transitioned archive draft archived false ∷ [];
  tasks = [];
}

archive_ok : transition anyone archive (by_user 2) (at_state draft) ≡ ok after_archive
unfolding transition
archive_ok = refl

plain-IsSafe : IsSafe archive (λ e. e)
plain-IsSafe = record {
  keeps_status = λ e. refl;
  keeps_opened = λ e. refl;
  keeps_closed = λ h e. refl;
  keeps_published = λ e. refl;
  keeps_archived = λ e. refl;
  keeps_active = λ e. refl;
}

Reachable-IsDated_example : IsDated after_archive.event
Reachable-IsDated_example = Reachable-IsDated anyone after_archive (
    moved (at_state draft) after_archive archive (by_user 2) (created (at_state draft) refl)
      plain-IsSafe archive_ok)

-- An election that is due to open at 15.
abbrev after_tick : Election
after_tick = record {
  event = record (election opened) {
    opened_at = some 15;
    config_frozen = true;
    ballot_frozen = true;
    candidates_frozen = true;
    voter_list_frozen = true;
    has_ballot_key = true;
  };
  audit = transitioned open_voting scheduled opened true ∷ [];
  tasks = notify_voting_opened ∷ [];
}

tick_ok : tick anyone 15 (at_state scheduled) ≡ ok after_tick
unfolding tick
tick_ok = refl

tick-IsSettled_example : IsSettled 15 after_tick.event
tick-IsSettled_example = tick-IsSettled anyone 15 (at_state scheduled) after_tick tick_ok

tick-idempotent_example : tick anyone 15 after_tick ≡ ok after_tick
tick-idempotent_example = tick-idempotent anyone 15 (at_state scheduled) after_tick tick_ok

tick-IsClosed_example : Returns (IsClosed 25) (tick anyone 25 (at_state scheduled))
tick-IsClosed_example =
    tick-IsClosed anyone 25 (at_state scheduled) (omega arith) (inl (refl, omega arith))

-- A change of the configuration of a scheduled election.
abbrev after_edit : Election
after_edit = record { event = election draft; audit = approval_reset scheduled ∷ []; tasks = [] }

edit_ok : require_editable config (at_state scheduled) ≡ ok after_edit
unfolding require_editable
edit_ok = refl

require_editable-IsEdit_example : IsEdit config (at_state scheduled) after_edit
require_editable-IsEdit_example =
    require_editable-IsEdit config (at_state scheduled) after_edit edit_ok

-- ===== src/Elections/Lifecycle.antt =====
-- elections/lifecycle.py: the state machine of an election. A raised exception is an error, and
-- undoes the transaction. `now` is the instant of the call; the code reads the clock at each use.
-- `has_perm` is the permission test of core/rbac.py. `audit` holds the entries of the audit log that
-- tell of the status; the ones on keys and snapshots are left out. The tasks that are queued on
-- commit are `tasks`.
pub mod Graph
pub mod Invariant
pub mod Clock
pub mod Editing
mod Tests
use flexyvotes.Base.{
  ℕ, ◌+◌, Bool, true, false, ◌&&◌, ◌||◌, not, Option, none, some, List, [], ◌∷◌, ◌++◌, ltb, leb,
  ◌==◌, if◌then◌else◌, is_some,
}
use flexyvotes.Elections.Model.{
  Status, draft, review, approved, scheduled, opened, paused, closed, tallying, certified,
  published, archived, Event, is_paid, is_institutional,
}
use flexyvotes.Elections.Ballot.{
  Problem, configuration_problems, is_empty, by_trustees, trustees_unfit,
}

pub data Action : Type 0 where
  submit withdraw approve reject schedule unschedule open_voting pause resume close : Action
  start_tally certify publish archive decertify reopen_voting : Action

-- The permissions that the actions name.
pub data Perm : Type 0 where
  election_submit election_review election_publish election_pause election_close : Perm
  election_archive results_tally results_certify results_publish : Perm

-- `LifecycleError`, by its reason, `PermissionDenied` and `KeyCustodyError`.
pub data Error : Type 0 where
  wrong_state : Error
  has_problems : List Problem → Error
  separation_of_duties end_passed legal_hold open_disputes : Error
  permission_denied key_custody : Error
  not_editable : Error

pub data Result (Value : Type 0) : Type 0 where
  err : (reason : Error) → Result Value
  ok : (value : Value) → Result Value

infixl 5 ◌>>=◌
abbrev pub ◌>>=◌ : {A B : Type 0} → Result A → (A → Result B) → Result B
ok a >>= f = f a
err e >>= f = err e

abbrev pub raise_if : {A : Type 0} → Bool → Error → A → Result A
raise_if true e a = err e
raise_if false e a = ok a

-- `action.sources`
unfoldable pub sources : Action → Status → Bool
sources submit draft = true
sources withdraw review = true
sources approve review = true
sources reject review = true
sources schedule approved = true
sources unschedule scheduled = true
sources open_voting scheduled = true
sources pause opened = true
sources resume paused = true
sources close opened = true
sources close paused = true
sources start_tally closed = true
sources certify tallying = true
sources publish certified = true
sources archive published = true
sources archive closed = true
sources archive draft = true
sources decertify certified = true
sources decertify published = true
sources reopen_voting closed = true
sources _ _ = false

unfoldable pub target : Action → Status
target submit = review
target withdraw = draft
target approve = approved
target reject = draft
target schedule = scheduled
target unschedule = approved
target open_voting = opened
target pause = paused
target resume = opened
target close = closed
target start_tally = tallying
target certify = certified
target publish = published
target archive = archived
target decertify = tallying
target reopen_voting = opened

unfoldable pub perm : Action → Perm
perm submit = election_submit
perm withdraw = election_submit
perm approve = election_review
perm reject = election_review
perm schedule = election_publish
perm unschedule = election_publish
perm open_voting = election_publish
perm pause = election_pause
perm resume = election_pause
perm close = election_close
perm start_tally = results_tally
perm certify = results_certify
perm publish = results_publish
perm archive = election_archive
perm decertify = results_certify
perm reopen_voting = election_close

-- `manual`: offered to users by `available_actions`
unfoldable pub manual : Action → Bool
manual certify = false
manual decertify = false
manual reopen_voting = false
manual _ = true

abbrev pub all_actions : List Action
all_actions =
    submit ∷ withdraw ∷ approve ∷ reject ∷ schedule ∷ unschedule ∷ open_voting ∷ pause ∷ resume
    ∷ close ∷ start_tally ∷ certify ∷ publish ∷ archive ∷ decertify ∷ reopen_voting ∷ []

-- `ensure_election_key` of elections/keys.py, as far as it decides and leaves a key.
unfoldable pub ensure_election_key : Event → Result Event
unfolding trustees_unfit
ensure_election_key e =
    if e.has_ballot_key
    then ok e
    else if by_trustees e.key_custody && trustees_unfit e
    then err key_custody
    else ok (record e { has_ballot_key = true })

-- `actor is not None and event.submitted_by_id == actor.pk`
abbrev pub same_user : Option ℕ → Option ℕ → Bool
same_user none submitted = false
same_user (some a) none = false
same_user (some a) (some b) = b == a

-- `action.guard`. The guard of `open` may leave a ballot key.
unfoldable pub guard : Action → Option ℕ → ℕ → Event → Result Event
unfolding configuration_problems ensure_election_key
guard submit actor now e =
    if is_empty (configuration_problems e)
    then ok e
    else err (has_problems (configuration_problems e))
guard approve actor now e =
    raise_if (e.dual_approval_required && same_user actor e.submitted_by) separation_of_duties e
guard schedule actor now e =
    if is_empty (configuration_problems e)
    then raise_if (leb e.end_date now) end_passed e
    else err (has_problems (configuration_problems e))
guard open_voting actor now e =
    if leb e.end_date now
    then err end_passed
    else if is_institutional e && not e.has_ballot_key
    then ensure_election_key e
    else ok e
guard resume actor now e = raise_if (leb e.end_date now) end_passed e
guard archive actor now e =
    if e.legal_hold then err legal_hold else raise_if (ltb 0 e.open_disputes) open_disputes e
guard _ actor now e = ok e

-- `event.opened_at or now`
abbrev pub or_now : Option ℕ → ℕ → ℕ
or_now none now = now
or_now (some t) now = t

-- `_effect_open`
unfoldable pub effect_open : ℕ → Event → Event
effect_open now e = record e {
  start_date = if ltb now e.start_date then now else e.start_date;
  opened_at = some (or_now e.opened_at now);
  config_frozen = if is_institutional e then true else e.config_frozen;
  ballot_frozen = if is_institutional e then true else e.ballot_frozen;
  candidates_frozen = if is_institutional e then true else e.candidates_frozen;
  voter_list_frozen =
      if is_institutional e && not e.allow_self_registration then true else e.voter_list_frozen;
}

-- `_effect_close`
unfoldable pub effect_close : ℕ → Event → Event
effect_close now e = record e {
  closed_at = some now;
  end_date = if ltb now e.end_date then now else e.end_date;
  config_frozen = true;
  ballot_frozen = true;
  candidates_frozen = true;
  voter_list_frozen = true;
}

-- `action.effect`; `approve` takes a snapshot of the configuration.
unfoldable pub effect : Action → Option ℕ → ℕ → Event → Result Event
unfolding ensure_election_key effect_open effect_close
effect submit actor now e = ok (record e { submitted_by = actor })
effect withdraw actor now e = ok (record e { submitted_by = none })
effect approve actor now e = ok (record e { reviewed_by = actor; snapshots = e.snapshots + 1 })
effect schedule actor now e = if is_institutional e then ensure_election_key e else ok e
effect open_voting actor now e = ok (effect_open now e)
effect close actor now e = ok (effect_close now e)
effect publish actor now e = ok (record e { published_at = some now })
effect archive actor now e = ok (record e { archived_at = some now; is_active = false })
effect reopen_voting actor now e = ok (effect_open now e)
effect _ actor now e = ok e

-- An entry that a transition, or the reset of an approval, leaves in the audit log.
pub data AuditEntry : Type 0 where
  transitioned : Action → Status → Status → Bool → AuditEntry
  approval_reset : Status → AuditEntry

-- The tasks of `_after_transition`.
pub data Task : Type 0 where
  notify_voting_opened auto_tally notify_results_published : Task

unfoldable pub after_transition : Action → List Task
after_transition open_voting = notify_voting_opened ∷ []
after_transition reopen_voting = notify_voting_opened ∷ []
after_transition close = auto_tally ∷ []
after_transition publish = notify_results_published ∷ []
after_transition _ = []

pub record Election : Type 0 where
  pub event : Event
  pub audit : List AuditEntry
  pub tasks : List Task

-- How `transition` is called: by whom, at which instant, by the system, without its guard, and with
-- what `extra_effect`.
pub record Call : Type 0 where
  pub actor : Option ℕ
  pub now : ℕ
  pub by_system : Bool
  pub skip_guard : Bool
  pub extra_effect : Event → Event

module _ (has_perm : Option ℕ → Perm → Event → Bool) where
  -- `available_actions`
  unfoldable pub available_from : List Action → Event → Option ℕ → List Action
  unfolding manual sources perm
  available_from [] e user = []
  available_from (a ∷ as') e user =
      if manual a && (sources a e.status && has_perm user (perm a) e)
      then a ∷ available_from as' e user
      else available_from as' e user

  -- The body of `transition` under the lock.
  unfoldable pub transition : Action → Call → Election → Result Election
  unfolding sources target perm guard effect after_transition
  transition a c s = raise_if (not (sources a s.event.status)) wrong_state s.event >>= λ e.
      raise_if (not c.by_system && not (has_perm c.actor (perm a) e)) permission_denied e >>= λ e'.
      (if c.skip_guard then ok e' else guard a c.actor c.now e') >>= λ locked.
      effect a c.actor c.now (record locked { status = target a }) >>= λ done.
      let saved = c.extra_effect done in
      ok (record {
        event = saved;
        audit = s.audit ++ (transitioned a locked.status saved.status c.by_system ∷ []);
        tasks = s.tasks ++ after_transition a;
      })

-- ===== src/Elections/Lifecycle/Clock.antt =====
-- elections/lifecycle.py: `tick`, which opens and closes an election at its dates.
use flexyvotes.Base.{
  ℕ, ◌≤◌, ◌<◌, ◌≡◌, ◌⊎◌, Option, none, some, Bool, true, false, ◌&&◌, leb, if◌then◌else◌, arith,
}
use flexyvotes.Elections.Model.{Event, Status, scheduled, opened, paused, closed}
use flexyvotes.Elections.Lifecycle.{
  open_voting, close, Perm, Error, permission_denied, key_custody, Result, ok, err, Election, Call,
  transition,
}

abbrev pub is_scheduled : Status → Bool
is_scheduled scheduled = true
is_scheduled _ = false

-- `event.status in (S.OPEN, S.PAUSED)`
abbrev pub is_live : Status → Bool
is_live opened = true
is_live paused = true
is_live _ = false

-- Whether the error is a `LifecycleError`, which `tick` catches.
abbrev pub is_lifecycle_error : Error → Bool
is_lifecycle_error permission_denied = false
is_lifecycle_error key_custody = false
is_lifecycle_error _ = true

-- `except LifecycleError: pass`, with the event before the step that failed.
abbrev pub or_before : Election → Result Election → Result Election
or_before s (ok s') = ok s'
or_before s (err x) = if is_lifecycle_error x then ok s else err x

-- A call of `transition` by the system.
abbrev pub system_call : ℕ → Bool → Call
system_call now skips = record {
  actor = none;
  now = now;
  by_system = true;
  skip_guard = skips;
  extra_effect = λ e. e;
}

module _ (has_perm : Option ℕ → Perm → Event → Bool) where
  -- The first `if` of `tick`.
  unfoldable pub tick_open : ℕ → Election → Result Election
  unfolding transition
  tick_open now s =
      if is_scheduled s.event.status && leb s.event.start_date now
      then transition has_perm open_voting (system_call now (leb s.event.end_date now)) s
      else ok s

  -- The second `if` of `tick`.
  unfoldable pub tick_close : ℕ → Election → Result Election
  unfolding transition
  tick_close now s =
      if is_live s.event.status && leb s.event.end_date now
      then transition has_perm close (system_call now false) s
      else ok s

  -- The rest of the `try` block once the first step is done.
  unfoldable pub after_open : ℕ → Election → Result Election → Result Election
  unfolding tick_close
  after_open now s (ok s') = or_before s' (tick_close now s')
  after_open now s (err x) = or_before s (err x)

  unfoldable pub tick : ℕ → Election → Result Election
  unfolding tick_open after_open
  tick now s = after_open now s (tick_open now s)

-- Nothing is due in the election at `now`.
pub record IsSettled (now : ℕ) (e : Event) : Type 0 where
  pub no_opening_due : e.status ≡ scheduled → now < e.start_date
  pub no_closing_due : is_live e.status ≡ true → now < e.end_date

-- After `tick` of elections/lifecycle.py returns an election, nothing is due in it: if it is
-- scheduled its start date is ahead, and if its voting is open or paused its end date is ahead.
pub tick-IsSettled :
    (has_perm : Option ℕ → Perm → Event → Bool) (now : ℕ) (s s' : Election)
    → tick has_perm now s ≡ ok s'
    → IsSettled now s'.event
unfolding tick
tick-IsSettled has_perm now s s' h = ground arith

settled-tick :
    (has_perm : Option ℕ → Perm → Event → Bool) (now : ℕ) (s : Election)
    → IsSettled now s.event
    → tick has_perm now s ≡ ok s
unfolding tick
settled-tick has_perm now s h = ground arith

-- When `tick` returns an election, a second call at the same instant changes nothing, in the
-- election, its audit log and its tasks.
pub tick-idempotent :
    (has_perm : Option ℕ → Perm → Event → Bool) (now : ℕ) (s s' : Election)
    → tick has_perm now s ≡ ok s'
    → tick has_perm now s' ≡ ok s'
tick-idempotent has_perm now s s' h =
    settled-tick has_perm now s' (tick-IsSettled has_perm now s s' h)

-- What the scheduler leaves of an election whose end date has passed.
pub record IsClosed (now : ℕ) (e : Event) : Type 0 where
  pub closes : e.status ≡ closed
  pub close_dated : e.closed_at ≡ some now
  pub is_frozen :
      (e.config_frozen && (e.ballot_frozen && (e.candidates_frozen && e.voter_list_frozen))) ≡ true
  pub has_ended : e.end_date ≤ now

-- The result is an election, and its event has the property.
abbrev pub Returns : (Event → Type 0) → Result Election → Type 0
Returns P (ok s) = P s.event
Returns P (err x) = ⊥

-- Once the end date has passed, `tick` closes an election whose voting is open or paused, or
-- which is scheduled and whose start date has passed, whatever its ballot key. It always
-- returns; the close is dated now, all is frozen, and the end date is not ahead.
pub tick-IsClosed :
    (has_perm : Option ℕ → Perm → Event → Bool) (now : ℕ) (s : Election)
    → s.event.end_date ≤ now
    → ((s.event.status ≡ scheduled) × (s.event.start_date ≤ now)) ⊎ (is_live s.event.status ≡ true)
    → Returns (IsClosed now) (tick has_perm now s)
unfolding tick
tick-IsClosed has_perm now s late due = ground arith

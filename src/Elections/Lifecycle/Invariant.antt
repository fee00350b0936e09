-- ===== src/Elections/Lifecycle/Invariant.antt =====
-- What holds of every election that the operations of elections/lifecycle.py lead to.
use flexyvotes.Base.{
  ℕ, ◌≡◌, ◌≢◌, refl, sym, ◌∙◌, Bool, true, false, Option, is_some, ◌⊎◌, inl, inr, arith,
}
use flexyvotes.Elections.Model.{
  Event, Status, draft, opened, paused, closed, tallying, certified, published, archived,
}
use flexyvotes.Elections.Lifecycle.{
  Action, reopen_voting, Perm, ok, sources, target, effect, Election, Call, transition,
}
use flexyvotes.Elections.Lifecycle.Graph.{
  SameButKey, guarded-Keeps, transition-Passed, Passed, result_of, effect-status,
}
use flexyvotes.Elections.Lifecycle.Editing.{Scope, require_editable, require_editable-IsEdit}

-- The states that voting has been open before.
abbrev pub after_opening : Status → Bool
after_opening opened = true
after_opening paused = true
after_opening closed = true
after_opening tallying = true
after_opening certified = true
after_opening published = true
after_opening _ = false

-- The states between the close of voting and the archive.
abbrev pub after_closing : Status → Bool
after_closing closed = true
after_closing tallying = true
after_closing certified = true
after_closing published = true
after_closing _ = false

pub record IsDated (e : Event) : Type 0 where
  pub opened_dated : after_opening e.status ≡ true → is_some e.opened_at ≡ true
  pub closed_dated : after_closing e.status ≡ true → is_some e.closed_at ≡ true
  pub published_dated : e.status ≡ published → is_some e.published_at ≡ true
  pub archived_dated : e.status ≡ archived → is_some e.archived_at ≡ true
  pub archived_inactive : e.status ≡ archived → e.is_active ≡ false

-- The `extra_effect`s of the callers: none of these fields changes, but that the reopening of the
-- voting clears `closed_at`.
pub record IsSafe (a : Action) (f : Event → Event) : Type 0 where
  pub keeps_status : (e : Event) → (f e).status ≡ e.status
  pub keeps_opened : (e : Event) → (f e).opened_at ≡ e.opened_at
  pub keeps_closed : a ≢ reopen_voting → (e : Event) → (f e).closed_at ≡ e.closed_at
  pub keeps_published : (e : Event) → (f e).published_at ≡ e.published_at
  pub keeps_archived : (e : Event) → (f e).archived_at ≡ e.archived_at
  pub keeps_active : (e : Event) → (f e).is_active ≡ e.is_active

-- The elections that transitions and edits lead to from a draft.
pub data Reachable (has_perm : Option ℕ → Perm → Event → Bool) : Election → Type 0 where
  created : (s : Election) → s.event.status ≡ draft → Reachable has_perm s
  moved :
      (s s' : Election) (a : Action) (c : Call)
      → Reachable has_perm s
      → IsSafe a c.extra_effect
      → transition has_perm a c s ≡ ok s'
      → Reachable has_perm s'
  edited :
      (s s' : Election) (scope : Scope)
      → Reachable has_perm s
      → require_editable scope s ≡ ok s'
      → Reachable has_perm s'

effect-IsDated :
    (a : Action) (actor : Option ℕ) (now : ℕ) (e locked done : Event)
    → sources a e.status ≡ true
    → IsDated e
    → SameButKey e locked
    → effect a actor now (record locked { status = target a }) ≡ ok done
    → IsDated done
unfolding effect target sources
effect-IsDated a actor now e locked done src d same h = ground arith

safe-IsDated :
    (a : Action) (f : Event → Event) (e : Event)
    → IsSafe a f
    → (a ≡ reopen_voting → e.status ≡ opened)
    → a ≢ reopen_voting ⊎ (a ≡ reopen_voting)
    → IsDated e
    → IsDated (f e)
safe-IsDated a f e safe at_reopen (inl other) d = ground (
  arith,
  safe.keeps_status e,
  safe.keeps_opened e,
  safe.keeps_closed other e,
  safe.keeps_published e,
  safe.keeps_archived e,
  safe.keeps_active e,
)
safe-IsDated a f e safe at_reopen (inr same) d = ground (
  arith,
  at_reopen same,
  safe.keeps_status e,
  safe.keeps_opened e,
  safe.keeps_published e,
  safe.keeps_archived e,
  safe.keeps_active e,
)

is_reopening : (a : Action) → a ≢ reopen_voting ⊎ (a ≡ reopen_voting)
is_reopening reopen_voting = inr refl
is_reopening _ = ground arith

Passed-IsDated :
    (has_perm : Option ℕ → Perm → Event → Bool) (a : Action) (c : Call) (s s' : Election)
    → IsSafe a c.extra_effect
    → IsDated s.event
    → (locked done : Event) → Passed has_perm a c s locked done
    → result_of a c s locked done ≡ s'
    → IsDated s'.event
unfolding target
Passed-IsDated has_perm a c s s' safe d locked done p r = rw (sym r) (
    safe-IsDated a c.extra_effect done safe reopened (is_reopening a) (
      effect-IsDated a c.actor c.now s.event locked done p.in_source d
        (guarded-Keeps a c s.event locked p.guarded) p.effected))
  where
    reopened : a ≡ reopen_voting → done.status ≡ opened
    reopened e =
        effect-status a c.actor c.now (record locked { status = target a }) done p.effected
        ∙ rw e refl

edit-IsDated :
    (scope : Scope) (s s' : Election)
    → require_editable scope s ≡ ok s'
    → IsDated s.event
    → IsDated s'.event
edit-IsDated scope s s' h d = ground (arith, (require_editable-IsEdit scope s s' h).outcome)

draft-IsDated : (e : Event) → e.status ≡ draft → IsDated e
draft-IsDated e h = ground arith

-- In every election that transitions and edits of elections/lifecycle.py lead to from a draft, when
-- no `extra_effect` changes the status, the dates and the activity, but that a reopening may clear
-- the date of the close: from the opening of the voting until the archive the opening is dated, from
-- the close until the archive the close is dated, a published election has a date of publication,
-- and an archived one has a date of its archiving and is not active.
pub Reachable-IsDated :
    (has_perm : Option ℕ → Perm → Event → Bool) (s : Election)
    → Reachable has_perm s
    → IsDated s.event
Reachable-IsDated has_perm _ (created s h) = draft-IsDated s.event h
Reachable-IsDated has_perm _ (moved s s' a c before safe h) =
    let (locked, done, p, r) = transition-Passed has_perm a c s s' h in
    Passed-IsDated has_perm a c s s' safe (Reachable-IsDated has_perm s before) locked done p r
Reachable-IsDated has_perm _ (edited s s' scope before h) =
    edit-IsDated scope s s' h (Reachable-IsDated has_perm s before)

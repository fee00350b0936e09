-- ===== src/Elections/Lifecycle/Graph.antt =====
-- What a transition of elections/lifecycle.py needs, and what it leaves in the election.
use flexyvotes.Base.{
  ℕ, ◌≡◌, refl, sym, ◌∙◌, subst, Bool, true, false, ◌&&◌, ◌||◌, not, Option, [], ◌∷◌, ◌++◌,
  if◌then◌else◌, arith,
}
use flexyvotes.Elections.Model.{Event}
use flexyvotes.Elections.Lifecycle.{
  Action, submit, approve, schedule, open_voting, archive, resume, Perm, Error, wrong_state,
  permission_denied, Result, ok, err, ◌>>=◌, raise_if, sources, target, perm, ensure_election_key,
  guard, effect, transitioned, after_transition, Election, Call, transition, same_user,
}

-- A computation that succeeds has succeeded at its first step.
pub >>=_ok :
    {A B : Type 0} (r : Result A) (f : A → Result B) (b : B)
    → (r >>= f) ≡ ok b
    → (a : A) × (r ≡ ok a) × (f a ≡ ok b)
>>=_ok (ok a) f b h = (a, refl, h)
>>=_ok (err e) f b h = cc

pub raise_if_ok :
    {A : Type 0} (c : Bool) (e : Error) (a b : A) → raise_if c e a ≡ ok b → (c ≡ false) × (a ≡ b)
raise_if_ok true e a b h = cc
raise_if_ok false e a b h = (refl, cc)

-- The fields that a guard reads and does not write.
pub record SameButKey (e e' : Event) : Type 0 where
  pub same_status : e'.status ≡ e.status
  pub same_start : e'.start_date ≡ e.start_date
  pub same_end : e'.end_date ≡ e.end_date
  pub same_opened : e'.opened_at ≡ e.opened_at
  pub same_closed : e'.closed_at ≡ e.closed_at
  pub same_published : e'.published_at ≡ e.published_at
  pub same_archived : e'.archived_at ≡ e.archived_at

pub same_all : (e : Event) → SameButKey e e
same_all e = record {
  same_status = refl;
  same_start = refl;
  same_end = refl;
  same_opened = refl;
  same_closed = refl;
  same_published = refl;
  same_archived = refl;
}

pub same_if : (e e' : Event) → ok e ≡ ok e' → SameButKey e e'
same_if e e' h = subst (SameButKey e) (ok_inj h) (same_all e)
  where
    ok_inj : ok e ≡ ok e' → e ≡ e'
    ok_inj k = cc

pub ensure_election_key-keeps : (e e' : Event) → ensure_election_key e ≡ ok e' → SameButKey e e'
unfolding ensure_election_key
ensure_election_key-keeps e e' h = ground arith

-- What a step may return without a change of those fields.
abbrev pub Keeps : Event → Result Event → Type 0
Keeps e r = (e' : Event) → r ≡ ok e' → SameButKey e e'

ok-Keeps : (e : Event) → Keeps e (ok e)
ok-Keeps e e' h = same_if e e' h

err-Keeps : (e : Event) (x : Error) → Keeps e (err x)
err-Keeps e x e' h = cc

if-Keeps :
    (e : Event) (c : Bool) (r r' : Result Event)
    → Keeps e r
    → Keeps e r'
    → Keeps e (if c then r else r')
if-Keeps e true r r' k k' = k
if-Keeps e false r r' k k' = k'

raise_if-Keeps : (e : Event) (c : Bool) (x : Error) → Keeps e (raise_if c x e)
raise_if-Keeps e true x = err-Keeps e x
raise_if-Keeps e false x = ok-Keeps e

ruleset keeping = (ok-Keeps, err-Keeps, if-Keeps, raise_if-Keeps, ensure_election_key-keeps)

-- No guard changes them.
pub guard-Keeps :
    (a : Action) (actor : Option ℕ) (now : ℕ) (e : Event) → Keeps e (guard a actor now e)
unfolding guard
guard-Keeps submit actor now e = if-Keeps e _ _ _ (ok-Keeps e) (err-Keeps e _)
guard-Keeps approve actor now e = raise_if-Keeps e _ _
guard-Keeps schedule actor now e = if-Keeps e _ _ _ (raise_if-Keeps e _ _) (err-Keeps e _)
guard-Keeps open_voting actor now e =
    if-Keeps e _ _ _ (err-Keeps e _) (if-Keeps e _ _ _ (ensure_election_key-keeps e) (ok-Keeps e))
guard-Keeps resume actor now e = raise_if-Keeps e _ _
guard-Keeps archive actor now e = if-Keeps e _ _ _ (err-Keeps e _) (raise_if-Keeps e _ _)
guard-Keeps _ actor now e = ok-Keeps e

pub guarded-Keeps :
    (a : Action) (c : Call) (e e' : Event)
    → (if c.skip_guard then ok e else guard a c.actor c.now e) ≡ ok e'
    → SameButKey e e'
guarded-Keeps a c e e' h =
    if-Keeps e c.skip_guard _ _ (ok-Keeps e) (guard-Keeps a c.actor c.now e) e' h

pub effect-status :
    (a : Action) (actor : Option ℕ) (now : ℕ) (e e' : Event)
    → effect a actor now e ≡ ok e'
    → e'.status ≡ e.status
unfolding effect
effect-status a actor now e e' h = ground arith

-- What a transition to `s'` has checked, and what it leaves.
pub record IsTransition (has_perm : Option ℕ → Perm → Event → Bool) (a : Action) (c : Call)
    (s s' : Election) : Type 0 where
  pub from_source : sources a s.event.status ≡ true
  pub to_target : s'.event.status ≡ target a
  pub authorised : (c.by_system || has_perm c.actor (perm a) s.event) ≡ true
  pub one_entry : s'.audit ≡ s.audit ++ (transitioned a s.event.status (target a) c.by_system ∷ [])
  pub new_tasks : s'.tasks ≡ s.tasks ++ after_transition a

-- The event that the guard and the effect leave, before `extra_effect`.
pub record Passed (has_perm : Option ℕ → Perm → Event → Bool) (a : Action) (c : Call) (s : Election)
    (locked done : Event) : Type 0 where
  pub in_source : sources a s.event.status ≡ true
  pub allowed : (c.by_system || has_perm c.actor (perm a) s.event) ≡ true
  pub guarded : (if c.skip_guard then ok s.event else guard a c.actor c.now s.event) ≡ ok locked
  pub effected : effect a c.actor c.now (record locked { status = target a }) ≡ ok done

abbrev pub result_of : Action → Call → Election → Event → Event → Election
result_of a c s locked done = record {
  event = c.extra_effect done;
  audit = s.audit ++ (transitioned a locked.status (c.extra_effect done).status c.by_system ∷ []);
  tasks = s.tasks ++ after_transition a;
}

-- The four checks of a transition, one after the other.
effect_step :
    {B : Type 0} (r : Result Event) (K : Event → B) (b : B)
    → (r >>= λ done. ok (K done)) ≡ ok b
    → (done : Event) × (r ≡ ok done) × (K done ≡ b)
effect_step (ok done) K b h = (done, refl, cc)
effect_step (err x) K b h = cc

guard_step :
    {B : Type 0} (r : Result Event) (F : Event → Result Event) (K : Event → Event → B) (b : B)
    → (r >>= λ locked. F locked >>= λ done. ok (K locked done)) ≡ ok b
    → (locked : Event) × (done : Event) × (r ≡ ok locked)
      × (F locked ≡ ok done)
      × (K locked done ≡ b)
guard_step (ok locked) F K b h =
    let (done, effected, result) = effect_step (F locked) (K locked) b h in
    (locked, done, refl, effected, result)
guard_step (err x) F K b h = cc

permission_step :
    {B : Type 0} (by_system permitted : Bool) (e : Event) (G : Event → Result B) (b : B)
    → (raise_if (not by_system && not permitted) permission_denied e >>= G) ≡ ok b
    → ((by_system || permitted) ≡ true) × (G e ≡ ok b)
permission_step true p e G b h = (refl, h)
permission_step false true e G b h = (refl, h)
permission_step false false e G b h = cc

source_step :
    {B : Type 0} (src : Bool) (e : Event) (G : Event → Result B) (b : B)
    → (raise_if (not src) wrong_state e >>= G) ≡ ok b
    → (src ≡ true) × (G e ≡ ok b)
source_step true e G b h = (refl, h)
source_step false e G b h = cc

pub transition-Passed :
    (has_perm : Option ℕ → Perm → Event → Bool) (a : Action) (c : Call) (s s' : Election)
    → transition has_perm a c s ≡ ok s'
    → (locked : Event) × (done : Event) × Passed has_perm a c s locked done
      × (result_of a c s locked done ≡ s')
unfolding transition
transition-Passed has_perm a c s s' h =
    let (src, h1) = source_step _ s.event _ s' h in
    let (allowed, h2) = permission_step c.by_system _ s.event _ s' h1 in
    let (locked, done, guarded, effected, result) = guard_step _ _ (result_of a c s) s' h2 in
    (
      locked,
      done,
      record { in_source = src; allowed = allowed; guarded = guarded; effected = effected },
      result,
    )

-- The same, with `locked` and `done` taken apart.
Passed-IsTransition :
    (has_perm : Option ℕ → Perm → Event → Bool) (a : Action) (c : Call) (s s' : Election)
    → ((e : Event) → (c.extra_effect e).status ≡ e.status)
    → (locked done : Event) → Passed has_perm a c s locked done
    → result_of a c s locked done ≡ s'
    → IsTransition has_perm a c s s'
Passed-IsTransition has_perm a c s s' keeps locked done p r = rw (sym r) (record {
  from_source = p.in_source;
  to_target = moved;
  authorised = p.allowed;
  one_entry = rw (moved, locked_status) refl;
  new_tasks = refl;
})
  where
    locked_status : locked.status ≡ s.event.status
    locked_status = (guarded-Keeps a c s.event locked p.guarded).same_status

    moved : (c.extra_effect done).status ≡ target a
    moved =
        keeps done
        ∙ effect-status a c.actor c.now (record locked { status = target a }) done p.effected

-- A transition of elections/lifecycle.py, whose `extra_effect` does not change the status,
-- succeeds only from a state that the action lists, for the system or an actor with the action's
-- permission. It leaves the election in the target state of the action, one more entry about its
-- status in the audit log, with the status before and after, and the tasks of the action.
pub transition-IsTransition :
    (has_perm : Option ℕ → Perm → Event → Bool) (a : Action) (c : Call) (s s' : Election)
    → ((e : Event) → (c.extra_effect e).status ≡ e.status)
    → transition has_perm a c s ≡ ok s'
    → IsTransition has_perm a c s s'
transition-IsTransition has_perm a c s s' keeps h =
    let (locked, done, p, r) = transition-Passed has_perm a c s s' h in
    Passed-IsTransition has_perm a c s s' keeps locked done p r

-- The approval is by someone else.
Passed-independent :
    (has_perm : Option ℕ → Perm → Event → Bool) (c : Call) (s s' : Election)
    → c.skip_guard ≡ false
    → s.event.dual_approval_required ≡ true
    → (locked done : Event) → Passed has_perm approve c s locked done
    → (same_user c.actor s.event.submitted_by ≡ false) × (done.reviewed_by ≡ c.actor)
unfolding guard effect
Passed-independent has_perm c s s' checked dual locked done p =
    ground (arith, p.guarded, p.effected)

-- Where dual approval is required, an approval that checks its guard, and whose `extra_effect` keeps
-- the reviewer, is not by the user who submitted the election, and records who approved it.
pub approval-IsIndependent :
    (has_perm : Option ℕ → Perm → Event → Bool) (c : Call) (s s' : Election)
    → c.skip_guard ≡ false
    → s.event.dual_approval_required ≡ true
    → ((e : Event) → (c.extra_effect e).reviewed_by ≡ e.reviewed_by)
    → transition has_perm approve c s ≡ ok s'
    → (same_user c.actor s.event.submitted_by ≡ false) × (s'.event.reviewed_by ≡ c.actor)
approval-IsIndependent has_perm c s s' checked dual keeps h =
    let (locked, done, p, r) = transition-Passed has_perm approve c s s' h in
    let (other, reviewed) = Passed-independent has_perm c s s' checked dual locked done p in
    (other, rw (sym r) (keeps done ∙ reviewed))

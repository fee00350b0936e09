-- ===== src/Core/Idempotency/Once.antt =====
-- core/idempotency.py: a claimed key is not claimed again, and what a repeated request is told.
use flexyvotes.Base.{
  ℕ, ◌+◌, ◌<◌, ◌≡◌, refl, ap, subst, not, Option, none, some, List, [], ◌∷◌, ◌++◌, leb, ◌==◌,
  if◌then◌else◌, arith, if_intro,
}
use flexyvotes.Core.Idempotency.{
  IdempotencyRecord, in_progress, Claim, claimed, conflict, still_running, replay, find_record,
  update_record, is_running, fresh_record, begin_found, begin,
}
use flexyvotes.Core.Idempotency.Taken.{TakenBy, IsTaken, Uses, Uses-IsTaken}

-- The answer to a request for a key that the fingerprint `fp` has taken, with this response or none yet.
abbrev pub answer_for : (fp fp' : ℕ) → Option (ℕ × ℕ) → Claim
answer_for fp fp' none = if fp == fp' then still_running else conflict
answer_for fp fp' (some response) = if fp == fp' then replay (some response) else conflict

begin-answer_for :
    (now ttl i id scope key fp fp' e : ℕ) (response : Option (ℕ × ℕ))
    (found : Option IdempotencyRecord) (rows : List IdempotencyRecord)
    → TakenBy id scope key fp e response found
    → now < e
    → (begin_found now ttl i scope key fp' found rows).1 ≡ answer_for fp fp' response
unfolding begin_found
begin-answer_for now ttl i id scope key fp fp' e response none rows t early = absurd t
begin-answer_for now ttl i id scope key fp fp' e none (some r) rows t early = ground arith
begin-answer_for now ttl i id scope key fp fp' e (some response) (some r) rows t early =
    ground arith

IsTaken-append_fresh :
    (id scope key fp e : ℕ) (rows : List IdempotencyRecord)
    → find_record scope key rows ≡ none
    → IsTaken id scope key fp e none (rows ++ (fresh_record id scope key fp e ∷ []))
IsTaken-append_fresh id scope key fp e [] f = ground arith
IsTaken-append_fresh id scope key fp e (r ∷ rs) f =
    ground (arith, IsTaken-append_fresh id scope key fp e rs)

-- The row as a claim renews it.
abbrev renewed : (fp e : ℕ) → IdempotencyRecord → IdempotencyRecord
renewed fp e x = record x {
  request_hash = fp;
  state = in_progress;
  response = none;
  expires_at = e;
}

IsTaken-renew :
    (scope key fp e : ℕ) (rows : List IdempotencyRecord) (old : IdempotencyRecord)
    → find_record scope key rows ≡ some old
    → IsTaken old.id scope key fp e none (update_record scope key (renewed fp e) rows)
IsTaken-renew scope key fp e [] old f = cc
IsTaken-renew scope key fp e (r ∷ rs) old f = ground (arith, IsTaken-renew scope key fp e rs old)

abbrev claimed_id : Claim → ℕ
claimed_id (claimed i) = i
claimed_id _ = 0

-- What a claim of the record `id` leaves.
abbrev IfClaimed : (id scope key fp e : ℕ) → List IdempotencyRecord × Claim → Type 0
IfClaimed id scope key fp e x = x.1 ≡ claimed id → IsTaken id scope key fp e none x.0

begin-claims :
    (now ttl i id scope key fp : ℕ) (found : Option IdempotencyRecord)
    (rows : List IdempotencyRecord)
    → find_record scope key rows ≡ found
    → IfClaimed id scope key fp (now + ttl) (begin_found now ttl i scope key fp found rows)
unfolding begin_found
begin-claims now ttl i id scope key fp none rows f = λ c.
    let same : i ≡ id = ap claimed_id c in
    subst
      (λ z.
        IsTaken z scope key fp (now + ttl) none
          (rows ++ (fresh_record i scope key fp (now + ttl) ∷ [])))
      same (IsTaken-append_fresh i scope key fp (now + ttl) rows f)
begin-claims now ttl i id scope key fp (some r) rows f =
    if_intro (IfClaimed id scope key fp (now + ttl)) (leb r.expires_at now) _ _
      (λ b c.
        subst
          (λ z.
            IsTaken z scope key fp (now + ttl) none
              (update_record scope key (renewed fp (now + ttl)) rows))
          (ap claimed_id c) (IsTaken-renew scope key fp (now + ttl) rows r f))
      (λ b.
        if_intro (IfClaimed id scope key fp (now + ttl)) (not (r.request_hash == fp)) _ _
          (λ k c. cc)
          (λ k.
            if_intro (IfClaimed id scope key fp (now + ttl)) (is_running r.state) _ _ (λ u c. cc)
              (λ u c. cc)))

-- A key that `begin` has claimed is not claimed again before it expires, whatever requests do in between,
-- in any number and order, all before it expires, as long as none of them withdraws its record. A request for the key with
-- another fingerprint is told that there is a conflict; one with the same fingerprint is told that the
-- first still runs as long as nobody has completed the record, and after that it gets the response of
-- the last completion.
pub begin-once :
    {rows' : List IdempotencyRecord} {response : Option (ℕ × ℕ)}
    (now ttl i now' ttl' i' id scope key fp fp' : ℕ) (rows : List IdempotencyRecord)
    → (begin now ttl i scope key fp rows).1 ≡ claimed id
    → Uses id scope key fp (now + ttl) (begin now ttl i scope key fp rows).0 response rows'
    → now' < now + ttl
    → (begin now' ttl' i' scope key fp' rows').1 ≡ answer_for fp fp' response
unfolding begin
begin-once {rows'} {response} now ttl i now' ttl' i' id scope key fp fp' rows c u early =
    begin-answer_for now' ttl' i' id scope key fp fp' (now + ttl) response
      (find_record scope key rows') rows'
      (Uses-IsTaken id scope key fp (now + ttl) u
        (begin-claims now ttl i id scope key fp (find_record scope key rows) rows refl c))
      early

-- ===== src/Core/Idempotency.antt =====
-- core/idempotency.py: the keys of requests. Texts are numbers, `fingerprint` is what
-- `request_fingerprint` makes of a payload, and the record that `begin` returns is its primary key.
pub mod Taken
pub mod Once
mod Tests
use flexyvotes.Base.{
  ℕ, ◌+◌, Bool, true, false, ◌&&◌, ◌||◌, not, Option, none, some, List, [], ◌∷◌, ◌++◌, length, all,
  any, leb, ◌==◌, if◌then◌else◌,
}

-- `IdempotencyRecord.State`
pub data RecordState : Type 0 where
  in_progress completed : RecordState

pub record IdempotencyRecord : Type 0 where
  pub id : ℕ
  pub scope : ℕ
  pub key : ℕ
  pub request_hash : ℕ
  pub state : RecordState
  pub response : Option (ℕ × ℕ)
  pub expires_at : ℕ

-- What `begin` returns or raises: the primary key of a claimed record, or the response that is stored.
pub data Claim : Type 0 where
  conflict still_running : Claim
  claimed : ℕ → Claim
  replay : Option (ℕ × ℕ) → Claim

-- `valid_key`, for the code points of the key; `is_alnum` is `str.isalnum`, and 45, 95, 58, 46 are `-_:.`.
unfoldable pub valid_key : (ℕ → Bool) → List ℕ → Bool
valid_key is_alnum key =
    leb 8 (length key)
    && (leb (length key) 128
        && all (λ c. is_alnum c || (c == 45 || (c == 95 || (c == 58 || c == 46)))) key)

abbrev pub is_record : ℕ → ℕ → IdempotencyRecord → Bool
is_record scope key r = r.scope == scope && r.key == key

-- `IdempotencyRecord.objects.get(scope=scope, key=key)`
abbrev pub find_record : ℕ → ℕ → List IdempotencyRecord → Option IdempotencyRecord
find_record scope key [] = none
find_record scope key (r ∷ rs) = if is_record scope key r then some r else find_record scope key rs

-- A save of that row, which is locked.
abbrev pub update_record :
    ℕ
    → ℕ
    → (IdempotencyRecord → IdempotencyRecord)
    → List IdempotencyRecord
    → List IdempotencyRecord
update_record scope key g [] = []
update_record scope key g (r ∷ rs) =
    if is_record scope key r then g r ∷ rs else r ∷ update_record scope key g rs

abbrev pub is_running : RecordState → Bool
is_running in_progress = true
is_running completed = false

-- The row of a claim; `id` is the primary key that the database gives it.
abbrev pub fresh_record : (id scope key fingerprint expires_at : ℕ) → IdempotencyRecord
fresh_record id scope key fingerprint expires_at = record {
  id = id;
  scope = scope;
  key = key;
  request_hash = fingerprint;
  state = in_progress;
  response = none;
  expires_at = expires_at;
}

-- `begin` for the row that is there.
unfoldable pub begin_found :
    (now ttl id scope key fingerprint : ℕ)
    → Option IdempotencyRecord
    → List IdempotencyRecord
    → List IdempotencyRecord × Claim
begin_found now ttl id scope key fingerprint none rows =
    (rows ++ (fresh_record id scope key fingerprint (now + ttl) ∷ []), claimed id)
begin_found now ttl id scope key fingerprint (some r) rows =
    if leb r.expires_at now
    then (
      update_record scope key
          (λ x. record x {
            request_hash = fingerprint;
            state = in_progress;
            response = none;
            expires_at = now + ttl;
          })
          rows,
      claimed r.id,
    )
    else if not (r.request_hash == fingerprint)
    then (rows, conflict)
    else if is_running r.state
    then (rows, still_running)
    else (rows, replay r.response)

unfoldable pub begin :
    (now ttl id scope key fingerprint : ℕ) → List IdempotencyRecord → List IdempotencyRecord × Claim
unfolding begin_found
begin now ttl id scope key fingerprint rows =
    begin_found now ttl id scope key fingerprint (find_record scope key rows) rows

abbrev pub save_record :
    ℕ → (IdempotencyRecord → IdempotencyRecord) → List IdempotencyRecord → List IdempotencyRecord
save_record id g [] = []
save_record id g (r ∷ rs) = (if r.id == id then g r else r) ∷ save_record id g rs

-- `complete`, which saves the columns by primary key; `none` is the error that no row was saved.
unfoldable pub complete :
    (id status body : ℕ) → List IdempotencyRecord → Option (List IdempotencyRecord)
complete id status body rows =
    if any (λ r. r.id == id) rows
    then some
        (save_record id (λ r. record r { state = completed; response = some (status, body) }) rows)
    else none

-- `abandon`, which deletes the row if it is still in progress.
unfoldable pub abandon : (id : ℕ) → List IdempotencyRecord → List IdempotencyRecord
abandon id [] = []
abandon id (r ∷ rs) =
    let rest = abandon id rs in if r.id == id && is_running r.state then rest else r ∷ rest

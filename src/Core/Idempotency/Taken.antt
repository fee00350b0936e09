-- ===== src/Core/Idempotency/Taken.antt =====
-- core/idempotency.py: the row of a claimed key, and what requests do with the rows meanwhile.
use flexyvotes.Base.{
  ℕ, ◌<◌, ◌≡◌, ◌≢◌, refl, sym, ap₂, ◌∙◌, subst, ◌⊎◌, inl, inr, true, not, Option, none, some, List,
  [], ◌∷◌, ◌++◌, leb, ◌==◌, arith, if_intro,
}
use native.Mathlib.Decide.{ℕ_discrete}
use flexyvotes.Core.Idempotency.{
  IdempotencyRecord, RecordState, in_progress, completed, Claim, find_record, update_record,
  save_record, is_running, begin_found, begin, complete, abandon,
}

-- The state of a record with this response, or none yet.
abbrev state_of : Option (ℕ × ℕ) → RecordState
state_of none = in_progress
state_of (some response) = completed

module _ (id scope key fingerprint expires_at : ℕ) where
  -- The key is taken, by this record and until then, with this response.
  abbrev pub TakenBy : Option (ℕ × ℕ) → Option IdempotencyRecord → Type 0
  TakenBy response none = ⊥
  TakenBy response (some r) =
      r.id ≡ id
      × r.request_hash ≡ fingerprint
      × r.expires_at ≡ expires_at
      × r.state ≡ state_of response
      × r.response ≡ response

  abbrev pub IsTaken : Option (ℕ × ℕ) → List IdempotencyRecord → Type 0
  IsTaken response rows = TakenBy response (find_record scope key rows)

  complete-IsTaken :
      (status body : ℕ) (response : Option (ℕ × ℕ)) (rows : List IdempotencyRecord)
      → IsTaken response rows
      → IsTaken (some (status, body)) (
          save_record id (λ r. record r { state = completed; response = some (status, body) }) rows)
  complete-IsTaken status body response [] t = t
  complete-IsTaken status body response (r ∷ rs) t =
      ground (arith, complete-IsTaken status body response rs)

  save-IsTaken :
      (i status body : ℕ) (response : Option (ℕ × ℕ)) (rows : List IdempotencyRecord)
      → i ≢ id
      → IsTaken response rows
      → IsTaken response
          (save_record i (λ r. record r { state = completed; response = some (status, body) }) rows)
  save-IsTaken i status body response [] d t = t
  save-IsTaken i status body response (r ∷ rs) d t =
      ground (arith, save-IsTaken i status body response rs d)

  other-IsTaken :
      (s k : ℕ) (g : IdempotencyRecord → IdempotencyRecord) (response : Option (ℕ × ℕ))
      (rows : List IdempotencyRecord)
      → ((r : IdempotencyRecord) → (g r).scope ≡ r.scope × (g r).key ≡ r.key)
      → s ≢ scope ⊎ k ≢ key
      → IsTaken response rows
      → IsTaken response (update_record s k g rows)
  other-IsTaken s k g response [] keeps d t = t
  other-IsTaken s k g response (r ∷ rs) keeps (inl d) t =
      ground (arith, other-IsTaken s k g response rs keeps (inl d), keeps r)
  other-IsTaken s k g response (r ∷ rs) keeps (inr d) t =
      ground (arith, other-IsTaken s k g response rs keeps (inr d), keeps r)

  append-IsTaken :
      (response : Option (ℕ × ℕ)) (rows rest : List IdempotencyRecord)
      → IsTaken response rows
      → IsTaken response (rows ++ rest)
  append-IsTaken response [] rest t = absurd t
  append-IsTaken response (r ∷ rs) rest t = ground (arith, append-IsTaken response rs rest)

  abandon-IsTaken :
      (i : ℕ) (response : Option (ℕ × ℕ)) (rows : List IdempotencyRecord)
      → i ≢ id
      → IsTaken response rows
      → IsTaken response (abandon i rows)
  unfolding abandon
  abandon-IsTaken i response [] d t = t
  abandon-IsTaken i response (r ∷ rs) d t = ground (arith, abandon-IsTaken i response rs d)

  same_key : (s k : ℕ) → (s ≡ scope × k ≡ key) ⊎ (s ≢ scope ⊎ k ≢ key)
  same_key s k = elim (ℕ_discrete s scope) [
    | no d ↦ inr (inl d)
    | yes e ↦ elim (ℕ_discrete k key) [ yes q ↦ inl (e, q) | no d ↦ inr (inr d) ]
  ]

  not_expired :
      (now s k : ℕ) (response : Option (ℕ × ℕ)) (r : IdempotencyRecord)
      (rows : List IdempotencyRecord)
      → s ≡ scope
      → k ≡ key
      → find_record s k rows ≡ some r
      → IsTaken response rows
      → now < expires_at
      → leb r.expires_at now ≡ true
      → ⊥
  not_expired now s k response r rows e q f t early expired =
      let same : find_record s k rows ≡ find_record scope key rows =
        ap₂ (λ a b. find_record a b rows) e q in
      let here : TakenBy response (some r) = subst (TakenBy response) (sym same ∙ f) t in
      ground (arith, here.2)

  begin_found-IsTaken :
      (now ttl i s k fp : ℕ) (response : Option (ℕ × ℕ)) (found : Option IdempotencyRecord)
      (rows : List IdempotencyRecord)
      → now < expires_at
      → find_record s k rows ≡ found
      → IsTaken response rows
      → IsTaken response (begin_found now ttl i s k fp found rows).0
  unfolding begin_found
  begin_found-IsTaken now ttl i s k fp response none rows early f t =
      append-IsTaken response rows _ t
  begin_found-IsTaken now ttl i s k fp response (some r) rows early f t =
      if_intro (λ (x : List IdempotencyRecord × Claim). IsTaken response x.0) (leb r.expires_at now)
        _ _
        (λ expired. elim (same_key s k) [
          | inl (e, q) ↦ absurd (not_expired now s k response r rows e q f t early expired)
          | inr d ↦ other-IsTaken s k _ response rows (λ x. (refl, refl)) d t
        ])
        (λ b.
          if_intro (λ (x : List IdempotencyRecord × Claim). IsTaken response x.0)
            (not (r.request_hash == fp)) _ _ (λ c. t)
            (λ c.
              if_intro (λ (x : List IdempotencyRecord × Claim). IsTaken response x.0)
                (is_running r.state) _ _ (λ u. t) (λ u. t)))

  -- What requests do before the key expires, with the response of this record before and after it: any
  -- claim, the end of this request or of another, and the withdrawal of other records.
  pub data Use
      : Option (ℕ × ℕ)
        → List IdempotencyRecord
        → Option (ℕ × ℕ)
        → List IdempotencyRecord
        → Type 0 where
    begins :
        (now ttl i s k fp : ℕ) (response : Option (ℕ × ℕ)) (rows : List IdempotencyRecord)
        → now < expires_at
        → Use response rows response (begin now ttl i s k fp rows).0
    completes :
        (status body : ℕ) (response : Option (ℕ × ℕ)) (rows rows' : List IdempotencyRecord)
        → complete id status body rows ≡ some rows'
        → Use response rows (some (status, body)) rows'
    completes_other :
        (i status body : ℕ) (response : Option (ℕ × ℕ)) (rows rows' : List IdempotencyRecord)
        → i ≢ id
        → complete i status body rows ≡ some rows'
        → Use response rows response rows'
    abandons :
        (i : ℕ) (response : Option (ℕ × ℕ)) (rows : List IdempotencyRecord)
        → i ≢ id
        → Use response rows response (abandon i rows)

  -- From the claim on, when there is no response.
  pub data Uses (claimed_rows : List IdempotencyRecord)
      : Option (ℕ × ℕ) → List IdempotencyRecord → Type 0 where
    unused : Uses claimed_rows none claimed_rows
    and_then :
        {response response' : Option (ℕ × ℕ)} {rows rows' : List IdempotencyRecord}
        → Uses claimed_rows response rows
        → Use response rows response' rows'
        → Uses claimed_rows response' rows'

  completed_rows :
      (i status body : ℕ) (rows rows' : List IdempotencyRecord)
      → complete i status body rows ≡ some rows'
      → save_record i (λ r. record r { state = completed; response = some (status, body) }) rows
        ≡ rows'
  unfolding complete
  completed_rows i status body rows rows' e = ground arith

  Use-IsTaken :
      {response response' : Option (ℕ × ℕ)} {rows rows' : List IdempotencyRecord}
      → Use response rows response' rows'
      → IsTaken response rows
      → IsTaken response' rows'
  unfolding begin
  Use-IsTaken (begins now ttl i s k fp response rows early) t =
      begin_found-IsTaken now ttl i s k fp response (find_record s k rows) rows early refl t
  Use-IsTaken (completes status body response rows rows' e) t =
      subst (IsTaken (some (status, body))) (completed_rows id status body rows rows' e)
        (complete-IsTaken status body response rows t)
  Use-IsTaken (completes_other i status body response rows rows' d e) t =
      subst (IsTaken response) (completed_rows i status body rows rows' e)
        (save-IsTaken i status body response rows d t)
  Use-IsTaken (abandons i response rows d) t = abandon-IsTaken i response rows d t

  pub Uses-IsTaken :
      {claimed_rows : List IdempotencyRecord} {response : Option (ℕ × ℕ)}
      {rows : List IdempotencyRecord}
      → Uses claimed_rows response rows
      → IsTaken none claimed_rows
      → IsTaken response rows
  Uses-IsTaken unused t = t
  Uses-IsTaken (and_then u v) t = Use-IsTaken v (Uses-IsTaken u t)

-- ===== src/Core/Audit.antt =====
-- core/audit.py: the hash chain of the audit log. The rows are those of one chain, in the order of
-- their numbers. Texts are numbers; SHA-256, the bytes of a hexadecimal text and the canonical JSON of
-- the hashed fields are parameters.
pub mod Evidence
mod Tests
use flexyvotes.Base.{
  ℕ, ◌+◌, Bool, true, false, ◌||◌, not, Option, none, some, List, [], ◌∷◌, ◌++◌, ◌==◌,
  if◌then◌else◌,
}

-- `HASHED_FIELDS`, in their order.
pub record AuditFields : Type 0 where
  pub chain : ℕ
  pub seq : ℕ
  pub event_type : ℕ
  pub actor_id : Option ℕ
  pub actor_label : ℕ
  pub organization_id : Option ℕ
  pub election_id : Option ℕ
  pub target_type : ℕ
  pub target_id : ℕ
  pub summary : ℕ
  pub ip_address : ℕ
  pub user_agent : ℕ
  pub correlation_id : ℕ
  pub changes : ℕ
  pub metadata : ℕ
  pub result : ℕ
  pub reason : ℕ
  pub created_at : ℕ

pub record AuditEvent : Type 0 where
  pub fields : AuditFields
  pub prev_hash : ℕ
  pub hash : ℕ

pub record AuditChainHead : Type 0 where
  pub seq : ℕ
  pub last_hash : ℕ

-- The rows and the head of one chain.
pub record AuditChain : Type 0 where
  pub rows : List AuditEvent
  pub head : Option AuditChainHead

-- `chain_for`, as a number: 0 for `platform`; an organization with number 0 is none.
unfoldable pub chain_for : Option ℕ → ℕ
chain_for none = 0
chain_for (some organization) = organization

-- The messages of `verify_chain`.
pub data ChainFault : Type 0 where
  sequence_gap broken_link content_mismatch head_mismatch : ChainFault

pub data Verdict : Type 0 where
  intact : ℕ → Verdict
  broken : (checked bad_seq : ℕ) → ChainFault → Verdict

-- Where the loop over the rows ends: at a fault, or with the last hash and the count.
pub data Walk : Type 0 where
  stopped : (checked bad_seq : ℕ) → ChainFault → Walk
  reached : (prev count : ℕ) → Walk

-- The test of the head.
unfoldable pub check_head : Option AuditChainHead → Walk → Verdict
check_head head (stopped checked bad_seq fault) = broken checked bad_seq fault
check_head none (reached prev count) = intact count
check_head (some h) (reached prev count) =
    if not (h.seq == count) || not (h.last_hash == prev)
    then broken count h.seq head_mismatch
    else intact count

module _ (sha256_hex : List ℕ → ℕ) (ascii : ℕ → List ℕ)
    (canonical_json : AuditFields → List ℕ) where
  unfoldable pub compute_hash : ℕ → AuditFields → ℕ
  compute_hash prev fields = sha256_hex (ascii prev ++ canonical_json fields)

  -- The row that `record` writes, with the chain of its organization and the next number.
  unfoldable pub new_event : AuditFields → AuditChainHead → AuditEvent
  unfolding compute_hash chain_for
  new_event call h =
      let fields = record call { chain = chain_for call.organization_id; seq = h.seq + 1 } in
      record { fields = fields; prev_hash = h.last_hash; hash = compute_hash h.last_hash fields }

  -- The loop of `verify_chain`.
  unfoldable pub walk : (prev expected_seq count : ℕ) → List AuditEvent → Walk
  unfolding compute_hash
  walk prev expected_seq count [] = reached prev count
  walk prev expected_seq count (entry ∷ rows) =
      let rest = walk entry.hash (expected_seq + 1) (count + 1) rows in
      if not (entry.fields.seq == expected_seq)
      then stopped count entry.fields.seq sequence_gap
      else if not (entry.prev_hash == prev)
      then stopped count entry.fields.seq broken_link
      else if not (compute_hash prev entry.fields == entry.hash)
      then stopped count entry.fields.seq content_mismatch
      else rest

  module _ (genesis : ℕ) where
    -- `_head_for_update`
    unfoldable pub head_for_update : Option AuditChainHead → AuditChainHead
    head_for_update none = record { seq = 0; last_hash = genesis }
    head_for_update (some h) = h

    -- `record`, for the fields that it collects, on the rows and the head of their chain.
    unfoldable pub record_event : AuditFields → AuditChain → AuditChain
    unfolding new_event head_for_update
    record_event call c =
        let h = head_for_update c.head in
        let entry = new_event call h in
        record {
          rows = c.rows ++ (entry ∷ []);
          head = some (record { seq = h.seq + 1; last_hash = entry.hash });
        }

    unfoldable pub verify_chain : AuditChain → Verdict
    unfolding walk check_head
    verify_chain c = check_head c.head (walk genesis 1 0 c.rows)

    -- Several calls of `record` on a chain.
    unfoldable pub record_all : List AuditFields → AuditChain → AuditChain
    unfolding record_event
    record_all [] c = c
    record_all (call ∷ calls) c = record_all calls (record_event call c)

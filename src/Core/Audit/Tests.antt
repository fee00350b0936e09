-- ===== src/Core/Audit/Tests.antt =====
-- A chain of two entries, over a toy digest, and the evidence of a change.
use flexyvotes.Base.{
  ℕ, zero, suc, ◌+◌, ◌*◌, ◌%◌, ◌≡◌, ◌⊎◌, refl, ap, Option, none, some, List, [], ◌∷◌, map, arith,
}
use flexyvotes.Core.Merkle.Tree.{Collision}
use flexyvotes.Core.Audit.{
  AuditFields, AuditEvent, AuditChain, AuditChainHead, intact, broken, content_mismatch,
  head_for_update, record_all, verify_chain,
}
use flexyvotes.Core.Audit.Evidence.{verify_chain-fixed, record_all-verifies}

-- A toy digest: a weighted sum.
abbrev toy_sha256 : List ℕ → ℕ
toy_sha256 [] = 7
toy_sha256 (x ∷ xs) = (x + 31 * toy_sha256 xs) % 100003

-- `n` zeros
abbrev zeros : ℕ → List ℕ
zeros zero = []
zeros (suc n) = 0 ∷ zeros n

-- 64 characters
abbrev toy_ascii : ℕ → List ℕ
toy_ascii d = d ∷ zeros 63

abbrev opt : Option ℕ → ℕ
opt none = 0
opt (some n) = suc n

abbrev toy_json : AuditFields → List ℕ
toy_json f =
    f.chain
    ∷ f.seq
    ∷ f.event_type
    ∷ opt f.actor_id
    ∷ f.actor_label
    ∷ opt f.organization_id
    ∷ opt f.election_id
    ∷ f.target_type
    ∷ f.target_id
    ∷ f.summary
    ∷ f.ip_address
    ∷ f.user_agent
    ∷ f.correlation_id
    ∷ f.changes
    ∷ f.metadata
    ∷ f.result
    ∷ f.reason
    ∷ f.created_at
    ∷ []

toy_ascii_injective : (d d' : ℕ) → toy_ascii d ≡ toy_ascii d' → d ≡ d'
toy_ascii_injective d d' h = cc

opt_injective : (a b : Option ℕ) → opt a ≡ opt b → a ≡ b
opt_injective none none h = refl
opt_injective none (some b) h = absurd (omega (arith, h))
opt_injective (some a) none h = absurd (omega (arith, h))
opt_injective (some a) (some b) h = ap some (omega (arith, h))

toy_json_injective : (f g : AuditFields) → toy_json f ≡ toy_json g → f ≡ g
toy_json_injective f g h =
    let actor = opt_injective f.actor_id g.actor_id cc in
    let organization = opt_injective f.organization_id g.organization_id cc in
    let election = opt_injective f.election_id g.election_id cc in cc

abbrev call : ℕ → AuditFields
call n = record {
  chain = 0;
  seq = 0;
  event_type = n;
  actor_id = some 1;
  actor_label = 2;
  organization_id = none;
  election_id = some 3;
  target_type = 4;
  target_id = 5;
  summary = 6;
  ip_address = 7;
  user_agent = 8;
  correlation_id = 9;
  changes = 0;
  metadata = 0;
  result = 1;
  reason = 0;
  created_at = 100 + n;
}

abbrev log : AuditChain
log =
    record_all toy_sha256 toy_ascii toy_json 5 (call 1 ∷ call 2 ∷ [])
      (record { rows = []; head = none })

record_all-verifies_example : verify_chain toy_sha256 toy_ascii toy_json 5 log ≡ intact 2
record_all-verifies_example =
    record_all-verifies toy_sha256 toy_ascii toy_json 5 (call 1 ∷ call 2 ∷ [])

-- A row of the log that is changed is found out.
abbrev forged : AuditChain
forged = record log {
  rows = map (λ (r : AuditEvent). record r { fields = record r.fields { summary = 60 } }) log.rows;
}

forged_broken : verify_chain toy_sha256 toy_ascii toy_json 5 forged ≡ broken 0 1 content_mismatch
unfolding verify_chain record_all
forged_broken = refl

abbrev log_head : AuditChainHead
log_head = head_for_update toy_sha256 toy_ascii toy_json 5 log.head

verify_chain-fixed_example : (log.rows ≡ log.rows) ⊎ Collision toy_sha256 toy_ascii
unfolding verify_chain record_all
verify_chain-fixed_example =
    verify_chain-fixed toy_sha256 toy_ascii toy_json 5 toy_ascii_injective toy_json_injective
      (λ xs. refl) refl log log log_head 2 2 refl refl refl refl

-- ===== src/Payments/Desk.antt =====
-- payments/service.py: reconciliation and expiry for one payment, and every way in which the rows of
-- a payment change after its checkout.
pub mod Confirmed
pub mod Laws
pub mod Settle
use flexyvotes.Base.{
  ℕ, Bool, true, false, ◌&&◌, ◌||◌, not, Option, none, some, List, [], ◌∷◌, ◌++◌, ◌==◌,
  if◌then◌else◌,
}
use flexyvotes.Payments.Model.{
  PaymentStatus, initialized, pending, success, failed, payment_abandoned, refunded,
  partially_refunded, disputed, Source, reconcile, expiry, PaymentFile,
}
use flexyvotes.Payments.Machine.{same_status, is_success, transition, credit_votes}
use flexyvotes.Payments.Gateway.{
  GatewayData, GatewayStatus, paid, declined, left_checkout, Risk, is_vote, apply_gateway_result,
  release_held_payment,
}
use flexyvotes.Payments.Refunds.{
  RefundCall, complete_refund, approve_refund, request_refund, reject_held_payment,
}
use flexyvotes.Payments.Webhooks.{WebhookType, dispatch_webhook}

-- `payment.status in (P.INITIALIZED, P.PENDING)`
abbrev pub is_open : PaymentStatus → Bool
is_open initialized = true
is_open pending = true
is_open _ = false

-- `local_success`
abbrev pub is_local_success : PaymentStatus → Bool
is_local_success success = true
is_local_success partially_refunded = true
is_local_success refunded = true
is_local_success disputed = true
is_local_success _ = false

abbrev pub is_paid_status : GatewayStatus → Bool
is_paid_status paid = true
is_paid_status _ = false

-- `gateway_status in ('failed', 'abandoned')`
abbrev pub is_no_payment : GatewayStatus → Bool
is_no_payment declined = true
is_no_payment left_checkout = true
is_no_payment _ = false

-- `payment.status not in (P.FAILED, P.ABANDONED)`
abbrev pub is_not_given_up : PaymentStatus → Bool
is_not_given_up failed = false
is_not_given_up payment_abandoned = false
is_not_given_up _ = true

-- The `if` of `reconcile` that compares the two sides.
unfoldable pub disagrees : GatewayStatus → PaymentStatus → Bool
disagrees g st =
    if is_paid_status g
    then not (is_local_success st)
    else is_local_success st || (is_no_payment g && is_not_given_up st)

-- A `ReconciliationItem`: its kind, and whether it is resolved.
pub data Discrepancy : Type 0 where
  amount_mismatch not_credited_item : Discrepancy
  status_mismatch : (resolved : Bool) → Discrepancy

-- `reconcile` for one transaction of the gateway that has a payment.
unfoldable pub reconcile_row : ℕ → GatewayData → Risk → PaymentFile → PaymentFile × List Discrepancy
unfolding disagrees apply_gateway_result same_status
reconcile_row now d risk f =
    let items =
      if is_paid_status d.status && not (d.amount == f.payment.amount)
      then amount_mismatch ∷ []
      else [] in
    let after = apply_gateway_result now reconcile d risk f in
    if disagrees d.status f.payment.status
    then (
      after,
      items ++ (status_mismatch (not (same_status after.payment.status f.payment.status)) ∷ []),
    )
    else (f, items)

-- `reconcile` for a payment of `uncredited`.
unfoldable pub credit_missed : ℕ → PaymentFile → PaymentFile × List Discrepancy
unfolding credit_votes
credit_missed now f =
    if is_success f.payment.status
      && (not f.payment.votes_credited && (not f.payment.held && is_vote f.payment.purpose))
    then ((credit_votes now f).0, if (credit_votes now f).1 then not_credited_item ∷ [] else [])
    else (f, [])

-- `verify_and_apply`, for what `paystack.verify` answers, `none` for an error.
unfoldable pub verify_and_apply : ℕ → Source → Option GatewayData → Risk → PaymentFile → PaymentFile
unfolding apply_gateway_result
verify_and_apply now source none risk f = f
verify_and_apply now source (some d) risk f = apply_gateway_result now source d risk f

-- `expire_abandoned` for one payment, and what it adds to the count.
unfoldable pub expire_payment : ℕ → Option GatewayData → Risk → PaymentFile → PaymentFile × ℕ
unfolding verify_and_apply transition
expire_payment now answer risk f =
    let after = verify_and_apply now expiry answer risk f in
    if is_open after.payment.status
    then ((transition payment_abandoned expiry after).0, 1)
    else (after, 0)

-- One change of the rows of a payment, by a call that returns: what a call leaves that raises after it
-- has committed a part is no step.
pub data DeskStep : PaymentFile → PaymentFile → Type 0 where
  verified :
      (now : ℕ) (source : Source) (answer : Option GatewayData) (risk : Risk) (f : PaymentFile)
      → DeskStep f (verify_and_apply now source answer risk f)
  notified :
      (now : ℕ) (risk : Risk) (t : WebhookType) (f : PaymentFile)
      → DeskStep f (dispatch_webhook now risk t f).0
  reconciled :
      (now : ℕ) (d : GatewayData) (risk : Risk) (f : PaymentFile)
      → DeskStep f (reconcile_row now d risk f).0
  swept : (now : ℕ) (f : PaymentFile) → DeskStep f (credit_missed now f).0
  expired :
      (now : ℕ) (answer : Option GatewayData) (risk : Risk) (f : PaymentFile)
      → DeskStep f (expire_payment now answer risk f).0
  released : (now : ℕ) (f : PaymentFile) → DeskStep f (release_held_payment now f)
  asked_refund :
      (c : RefundCall) (amount : ℕ) (b : Bool) (f : PaymentFile)
      → DeskStep f (request_refund c amount b f).0
  approved_refund_of :
      (c : RefundCall) (i : ℕ) (b : Bool) (f : PaymentFile) → DeskStep f (approve_refund c i b f).0
  completed_refund : (i : ℕ) (f : PaymentFile) → DeskStep f (complete_refund i f)
  refused_hold : (c : RefundCall) (f : PaymentFile) → DeskStep f (reject_held_payment c f).0

-- Any number of them, in any order.
pub data DeskRun : PaymentFile → PaymentFile → Type 0 where
  idle : (f : PaymentFile) → DeskRun f f
  then_step : {f f' f'' : PaymentFile} → DeskRun f f' → DeskStep f' f'' → DeskRun f f''

-- ===== src/Payments/Tests.antt =====
-- Runs of the payments on a purchase of ten votes for 12.00.
use flexyvotes.Base.{
  ℕ, ◌≡◌, ◌≢◌, ◌⊎◌, arith, refl, inl, Bool, true, false, ◌&&◌, not, none, some, [],
}
use flexyvotes.Payments.Model.{
  reversed_payment, pending, vote_purchase, verify, webhook, Payment, total_votes, PaymentFile,
}
use flexyvotes.Payments.Machine.{is_success, same_status}
use flexyvotes.Payments.Refunds.{RefundCall, request_refund, approve_refund}
use flexyvotes.Payments.Machine.Laws.{granted, IsSound, EntitlementRun, entitlement, revoked}
use flexyvotes.Payments.Gateway.{
  GatewayData, GatewayStatus, paid, declined, Risk, apply_gateway_result,
}
use flexyvotes.Payments.Gateway.Results.{apply_gateway_result-mismatch}
use flexyvotes.Payments.Gateway.Again.{apply_gateway_result-again}
use flexyvotes.Payments.Gateway.Settled.{SameEffect}
use flexyvotes.Payments.Gateway.Order.{apply_gateway_result-order}
use flexyvotes.Payments.Webhooks.{
  charge_success, dispute_resolved, dispute_created, Inbox, Arrival, invalid_signature,
  dispatch_webhook, handle_webhook,
}
use flexyvotes.Payments.Webhooks.Replay.{IsDuplicate, handle_webhook-replay}
use flexyvotes.Payments.Webhooks.Retry.{IsRetried, handle_webhook-retry}
use flexyvotes.Payments.Desk.{
  is_local_success, verify_and_apply, reconcile_row, credit_missed, DeskRun, idle, then_step,
  verified, notified,
}
use flexyvotes.Payments.Machine.Confirmed.{is_confirmed}
use flexyvotes.Payments.Desk.Confirmed.{run_wins}
use flexyvotes.Payments.Desk.Laws.{DeskRun-IsSound, DeskRun-refines}
use flexyvotes.Payments.Desk.Settle.{is_missed, reconcile-recovers}

abbrev bought : Payment
bought = record {
  reference = 7;
  purpose = vote_purchase;
  candidate = 3;
  votes = 10;
  bonus_votes = 2;
  amount = 1200;
  currency = 1;
  has_discount = true;
  status = pending;
  gateway_status = 0;
  gateway_id = 0;
  channel = 0;
  card_signature = 0;
  card_country = 0;
  fees = none;
  gateway_paid_at = none;
  risk_score = some 5;
  risk_decision = 0;
  held = false;
  verified_at = none;
  credited_at = none;
  votes_credited = false;
  refunded_amount = 0;
}

abbrev waiting : PaymentFile
waiting = record {
  payment = bought;
  ledger = none;
  history = [];
  refunds = [];
  redemptions = 0;
  fraud_events = 0;
  approval_requests = [];
  has_invoice = false;
  invoice_paid = false;
}

waiting-IsSound : IsSound waiting
waiting-IsSound = record {
  once = refl;
  exact = tt;
  credited_after_success = refl;
  redeemed = refl;
  numbered = tt;
  accounted = refl;
}

abbrev report : GatewayStatus → ℕ → GatewayData
report st amount = record {
  status = st;
  status_text = 4;
  amount = amount;
  currency = some 1;
  channel = some 2;
  signature = 9;
  country = 1;
  id = 77;
  fees = some 20;
  paid_at = some 50;
}

abbrev low_risk : Risk
low_risk = record { score = 10; decision = 0; is_held = false }

abbrev paid_up : PaymentFile
paid_up = apply_gateway_result 60 verify (report paid 1200) low_risk waiting

-- The votes are credited, and a dispute takes them back.
paid_up_credited : paid_up.payment.votes_credited ≡ true × paid_up.redemptions ≡ 1
unfolding apply_gateway_result
paid_up_credited = (refl, refl)

abbrev charged_back : PaymentFile
charged_back =
    (dispatch_webhook 70 low_risk dispute_created
      (verify_and_apply 60 verify (some (report paid 1200)) low_risk waiting)).0

charged_back_revoked : entitlement charged_back ≡ revoked 12
unfolding dispatch_webhook verify_and_apply
charged_back_revoked = refl

abbrev a_run : DeskRun waiting charged_back
a_run =
    then_step
      (then_step (idle waiting) (verified 60 verify (some (report paid 1200)) low_risk waiting))
      (notified 70 low_risk dispute_created
        (verify_and_apply 60 verify (some (report paid 1200)) low_risk waiting))

DeskRun-IsSound_example :
    IsSound charged_back × (run_wins a_run ≡ true ⊎ is_confirmed charged_back ≡ true)
DeskRun-IsSound_example = DeskRun-IsSound waiting-IsSound refl a_run

DeskRun-refines_example :
    EntitlementRun (total_votes bought) (entitlement waiting) (entitlement charged_back)
    × total_votes charged_back.payment ≡ total_votes bought
DeskRun-refines_example = DeskRun-refines a_run

short : (report paid 100).amount ≢ bought.amount
short e = omega (arith, e)

apply_gateway_result-mismatch_example :
    (apply_gateway_result 60 verify (report paid 100) low_risk waiting).ledger ≡ none
    × (apply_gateway_result 60 verify (report paid 100) low_risk waiting).invoice_paid ≡ false
    × is_success (apply_gateway_result 60 verify (report paid 100) low_risk waiting).payment.status
        && not (apply_gateway_result 60 verify (report paid 100) low_risk waiting).payment.held
      ≡ false
apply_gateway_result-mismatch_example =
    apply_gateway_result-mismatch 60 verify (report paid 100) low_risk waiting refl (inl short)

apply_gateway_result-again_example :
    SameEffect paid_up (apply_gateway_result 90 webhook (report paid 1200) low_risk paid_up)
apply_gateway_result-again_example =
    apply_gateway_result-again 60 90 verify webhook (report paid 1200) low_risk low_risk waiting
      waiting-IsSound

apply_gateway_result-order_example :
    SameEffect
      (apply_gateway_result 60 verify
        (report paid 1200)
        low_risk
        (apply_gateway_result 55 webhook (report declined 0) low_risk waiting))
      (apply_gateway_result 55 webhook (report declined 0) low_risk paid_up)
apply_gateway_result-order_example =
    apply_gateway_result-order 60 55 verify webhook (report paid 1200) (report declined 0) low_risk
      low_risk waiting waiting-IsSound refl (inl refl)

abbrev inbox : Inbox
inbox = record { file = waiting; events = [] }

abbrev arrival : Bool → Arrival
arrival signed = record {
  signed = signed;
  payload_hash = 5;
  body = some (charge_success (report paid 1200));
  raises = none;
}

forged_refused : (handle_webhook 60 low_risk (arrival false) inbox).1 ≡ invalid_signature
unfolding handle_webhook
forged_refused = refl

-- The dispatch raises when the payment is settled already, in what runs after the commit.
abbrev failing : Arrival
failing = record (arrival true) { raises = some paid_up }

handle_webhook-retry_example :
    IsRetried
      (some paid_up)
      95
      low_risk
      (charge_success (report paid 1200))
      (handle_webhook 60 low_risk failing inbox)
      (handle_webhook 95 low_risk (arrival true) (handle_webhook 60 low_risk failing inbox).0)
unfolding handle_webhook
handle_webhook-retry_example =
    handle_webhook-retry 60 95 low_risk low_risk failing (arrival true)
      (charge_success (report paid 1200)) inbox refl refl refl refl refl

handle_webhook-replay_example :
    IsDuplicate (handle_webhook 60 low_risk (arrival true) inbox).0 (
      handle_webhook 95 low_risk (arrival true) (handle_webhook 60 low_risk (arrival true) inbox).0)
unfolding handle_webhook
handle_webhook-replay_example =
    handle_webhook-replay 60 95 low_risk low_risk (arrival true) (arrival true)
      (charge_success (report paid 1200)) inbox refl refl refl refl

reconcile-recovers_example :
    is_local_success
        (credit_missed 100
          (reconcile_row 90 (report paid 1200) low_risk waiting).0).0.payment.status
      ≡ true
    × is_missed
        (credit_missed 100 (reconcile_row 90 (report paid 1200) low_risk waiting).0).0.payment
      ≡ false
unfolding same_status
reconcile-recovers_example =
    reconcile-recovers 90 100 (report paid 1200) low_risk waiting waiting-IsSound refl refl

-- The call of an officer who may only ask, or only approve.
abbrev officer : ℕ → Bool → Bool → RefundCall
officer actor asks approves = record {
  actor = actor;
  may_create = asks;
  may_approve = approves;
  dual_approval = false;
  threshold = 5000;
  has_reason = true;
  gateway_accepts = true;
  fake_gateway = true;
}

-- Two full refunds are asked for before either is approved, and both are paid out.
abbrev asked_twice : PaymentFile
asked_twice =
    (request_refund (officer 1 true false) 1200 true
      (request_refund (officer 1 true false) 1200 true paid_up).0).0

abbrev refunded_twice : PaymentFile
refunded_twice =
    (approve_refund (officer 2 false true) 1 false
      (approve_refund (officer 2 false true) 0 false asked_twice).0).0

refunded_twice_amount :
    refunded_twice.payment.refunded_amount ≡ 2400 × refunded_twice.payment.amount ≡ 1200
unfolding request_refund approve_refund apply_gateway_result
refunded_twice_amount = (refl, refl)

-- A dispute that is lost, and whose start was missed, leaves the votes.
abbrev lost : PaymentFile
lost = (dispatch_webhook 70 low_risk (dispute_resolved false) paid_up).0

lost_keeps_votes : lost.payment.status ≡ reversed_payment × entitlement lost ≡ granted 12
unfolding dispatch_webhook apply_gateway_result
lost_keeps_votes = (refl, refl)

-- A dispute that is won for a payment that was never paid makes it successful, and the sweep credits it.
abbrev never_paid : PaymentFile
never_paid = (credit_missed 90 (dispatch_webhook 70 low_risk (dispute_resolved true) waiting).0).0

never_paid_credited : never_paid.payment.verified_at ≡ none × entitlement never_paid ≡ granted 12
unfolding dispatch_webhook credit_missed
never_paid_credited = (refl, refl)

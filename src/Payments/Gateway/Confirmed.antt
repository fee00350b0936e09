-- ===== src/Payments/Gateway/Confirmed.antt =====
-- payments/service.py: the results of the gateway and the review of a payment lead from confirmed
-- payments to confirmed ones.
use flexyvotes.Base.{ℕ, ◌+◌, refl, Bool, true, false, ◌&&◌, not, arith, if◌then◌else◌}
use flexyvotes.Payments.Model.{
  Source, PaymentFile, success, failed, payment_abandoned, reversed_payment, pending, hold_released,
}
use flexyvotes.Payments.Machine.{is_success, record_entry, transition}
use flexyvotes.Payments.Machine.Confirmed.{
  Confirms, Confirms-if, transition-Confirms, transition-verified, credit_votes-Confirms,
  reverse_votes-Confirms,
}
use flexyvotes.Payments.Gateway.{
  GatewayData, GatewayStatus, paid, declined, left_checkout, taken_back, other_status, Risk,
  is_vote, note_success, note_risk, hold_if, deliver, settle_success, settle_reversal,
  amounts_match, with_gateway_status, apply_status, apply_gateway_result, release_held_payment,
}

hold_if-Confirms : (b : Bool) (risk : Risk) (f : PaymentFile) → Confirms f (hold_if b risk f)
unfolding hold_if
hold_if-Confirms b risk f =
    Confirms-if (not b) f
      (record f { payment = record f.payment { held = true }; fraud_events = f.fraud_events + 1 })
      (if is_vote f.payment.purpose && (not f.payment.held && not f.payment.votes_credited)
        then record f { payment = note_risk risk f.payment }
        else f)
      (λ c. c)
      (Confirms-if
        (is_vote f.payment.purpose && (not f.payment.held && not f.payment.votes_credited)) f
        (record f { payment = note_risk risk f.payment }) f (λ c. ground arith) (λ c. c))

deliver-Confirms : (b : Bool) (now : ℕ) (f : PaymentFile) → Confirms f (deliver b now f)
unfolding deliver
deliver-Confirms b now f =
    Confirms-if (is_vote f.payment.purpose && not f.payment.held) f _ _
      (credit_votes-Confirms now f)
      (Confirms-if (not (is_vote f.payment.purpose) && (f.has_invoice && b)) f
        (record f { invoice_paid = true }) f (λ c. c) (λ c. c))

settle_success-Confirms :
    (now : ℕ) (d : GatewayData) (risk : Risk) (r : PaymentFile × Bool)
    → Confirms r.0 (settle_success now d risk r)
unfolding settle_success
settle_success-Confirms now d risk (f, changed) =
    Confirms-if (not changed && not (is_success f.payment.status)) f _ _ (λ c. c)
      (λ c.
        deliver-Confirms (amounts_match d f.payment) now
          (hold_if (amounts_match d f.payment) risk f)
          (hold_if-Confirms (amounts_match d f.payment) risk f c))

settle_reversal-Confirms : (r : PaymentFile × Bool) → Confirms r.0 (settle_reversal r)
unfolding settle_reversal
settle_reversal-Confirms (f, changed) =
    Confirms-if changed f _ _ (reverse_votes-Confirms f) (λ c. c)

apply_status-Confirms :
    (g : GatewayStatus) (now : ℕ) (source : Source) (d : GatewayData) (risk : Risk)
    (f : PaymentFile)
    → Confirms f (apply_status g now source d risk f)
unfolding apply_status note_success
apply_status-Confirms paid now source d risk f = λ c.
    let noted : PaymentFile = record (with_gateway_status d f) {
      payment = note_success now d (with_gateway_status d f).payment;
    } in
    settle_success-Confirms now d risk (transition success source noted)
      (transition-verified source noted refl)
apply_status-Confirms declined now source d risk f = transition-Confirms failed source f refl
apply_status-Confirms left_checkout now source d risk f =
    transition-Confirms payment_abandoned source f refl
apply_status-Confirms taken_back now source d risk f = λ c.
    settle_reversal-Confirms (transition reversed_payment source f)
      (transition-Confirms reversed_payment source f refl c)
apply_status-Confirms other_status now source d risk f =
    transition-Confirms pending source (with_gateway_status d f) refl

pub apply_gateway_result-Confirms :
    (now : ℕ) (source : Source) (d : GatewayData) (risk : Risk) (f : PaymentFile)
    → Confirms f (apply_gateway_result now source d risk f)
unfolding apply_gateway_result
apply_gateway_result-Confirms now source d risk f =
    apply_status-Confirms d.status now source d risk f

pub release_held_payment-Confirms :
    (now : ℕ) (f : PaymentFile) → Confirms f (release_held_payment now f)
unfolding release_held_payment
release_held_payment-Confirms now f =
    credit_votes-Confirms now
      (record_entry hold_released (record f { payment = record f.payment { held = false } }))

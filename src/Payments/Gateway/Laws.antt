-- ===== src/Payments/Gateway/Laws.antt =====
-- payments/service.py: the results of the gateway and the review of a payment, against the contract
-- of paid voting.
use flexyvotes.Base.{ℕ, ◌+◌, refl, Bool, true, false, ◌&&◌, not, arith, if◌then◌else◌}
use flexyvotes.Payments.Model.{
  Source, PaymentFile, success, failed, payment_abandoned, reversed_payment, pending, hold_released,
}
use flexyvotes.Payments.Machine.{is_success, record_entry, transition}
use flexyvotes.Payments.Machine.Laws.{
  Advances, Advances-aside, Advances-refl, Advances-trans, Advances-if, transition-Advances,
  credit_votes-Advances, reverse_votes-Advances,
}
use flexyvotes.Payments.Gateway.{
  GatewayData, GatewayStatus, paid, declined, left_checkout, taken_back, other_status, Risk,
  is_vote, note_success, note_risk, hold_if, deliver, settle_success, settle_reversal,
  amounts_match, with_gateway_status, apply_status, apply_gateway_result, release_held_payment,
}

hold_if-Advances : (b : Bool) (risk : Risk) (f : PaymentFile) → Advances f (hold_if b risk f)
unfolding hold_if
hold_if-Advances b risk f =
    Advances-if (not b) f
      (record f { payment = record f.payment { held = true }; fraud_events = f.fraud_events + 1 })
      (if is_vote f.payment.purpose && (not f.payment.held && not f.payment.votes_credited)
        then record f { payment = note_risk risk f.payment }
        else f)
      (Advances-aside f _ (λ s. ground arith) refl refl)
      (Advances-if
        (is_vote f.payment.purpose && (not f.payment.held && not f.payment.votes_credited)) f
        (record f { payment = note_risk risk f.payment }) f
        (Advances-aside f _ (λ s. ground arith) refl refl) (Advances-refl f))

deliver-Advances : (b : Bool) (now : ℕ) (f : PaymentFile) → Advances f (deliver b now f)
unfolding deliver
deliver-Advances b now f =
    Advances-if (is_vote f.payment.purpose && not f.payment.held) f _ _
      (credit_votes-Advances now f)
      (Advances-if (not (is_vote f.payment.purpose) && (f.has_invoice && b)) f
        (record f { invoice_paid = true }) f (Advances-aside f _ (λ s. ground arith) refl refl)
        (Advances-refl f))

settle_success-Advances :
    (now : ℕ) (d : GatewayData) (risk : Risk) (r : PaymentFile × Bool)
    → Advances r.0 (settle_success now d risk r)
unfolding settle_success
settle_success-Advances now d risk (f, changed) =
    Advances-if (not changed && not (is_success f.payment.status)) f _ _ (Advances-refl f) (
      Advances-trans f (hold_if (amounts_match d f.payment) risk f) _
        (hold_if-Advances (amounts_match d f.payment) risk f)
        (deliver-Advances (amounts_match d f.payment) now
          (hold_if (amounts_match d f.payment) risk f)))

settle_reversal-Advances : (r : PaymentFile × Bool) → Advances r.0 (settle_reversal r)
unfolding settle_reversal
settle_reversal-Advances (f, changed) =
    Advances-if changed f _ _ (reverse_votes-Advances f) (Advances-refl f)

apply_status-Advances :
    (g : GatewayStatus) (now : ℕ) (source : Source) (d : GatewayData) (risk : Risk)
    (f : PaymentFile)
    → Advances f (apply_status g now source d risk f)
unfolding apply_status
apply_status-Advances paid now source d risk f =
    let noted : PaymentFile = record (with_gateway_status d f) {
      payment = note_success now d (with_gateway_status d f).payment;
    } in
    Advances-trans f noted _ (Advances-aside f noted (λ s. ground arith) refl refl) (
      Advances-trans noted (transition success source noted).0 _
        (transition-Advances success source noted)
        (settle_success-Advances now d risk (transition success source noted)))
apply_status-Advances declined now source d risk f = transition-Advances failed source f
apply_status-Advances left_checkout now source d risk f =
    transition-Advances payment_abandoned source f
apply_status-Advances taken_back now source d risk f =
    Advances-trans f (transition reversed_payment source f).0 _
      (transition-Advances reversed_payment source f)
      (settle_reversal-Advances (transition reversed_payment source f))
apply_status-Advances other_status now source d risk f =
    Advances-trans f (with_gateway_status d f) _ (Advances-aside f _ (λ s. ground arith) refl refl)
      (transition-Advances pending source (with_gateway_status d f))

pub apply_gateway_result-Advances :
    (now : ℕ) (source : Source) (d : GatewayData) (risk : Risk) (f : PaymentFile)
    → Advances f (apply_gateway_result now source d risk f)
unfolding apply_gateway_result
apply_gateway_result-Advances now source d risk f =
    apply_status-Advances d.status now source d risk f

pub release_held_payment-Advances :
    (now : ℕ) (f : PaymentFile) → Advances f (release_held_payment now f)
unfolding release_held_payment
release_held_payment-Advances now f =
    let freed : PaymentFile =
      record_entry hold_released (record f { payment = record f.payment { held = false } }) in
    Advances-trans f freed _ (Advances-aside f freed (λ s. ground arith) refl refl)
      (credit_votes-Advances now freed)

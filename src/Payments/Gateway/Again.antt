-- ===== src/Payments/Gateway/Again.antt =====
-- payments/service.py: the same result applied again, and results that arrive in another order.
use flexyvotes.Base.{
  ℕ, ◌≡◌, refl, ◌∙◌, ap, Bool-cases, inl, inr, Bool, false, ◌&&◌, not, arith, is_some,
}
use flexyvotes.Payments.Model.{
  PaymentStatus, pending, success, failed, payment_abandoned, reversed_payment, Source, PaymentFile,
}
use flexyvotes.Payments.Machine.{is_success, transition}
use flexyvotes.Payments.Machine.Laws.{IsSound}
use flexyvotes.Payments.Gateway.{
  GatewayData, GatewayStatus, paid, declined, left_checkout, taken_back, other_status, Risk,
  note_success, settle_success, settle_reversal, amounts_match, with_gateway_status, apply_status,
  apply_gateway_result,
}
use flexyvotes.Payments.Gateway.Results.{noted_rows, amounts_match_noted}
use flexyvotes.Payments.Gateway.Settled.{
  SameEffect, IsSettled, settled_stays, SameEffect-trans, takes_success, refused_transition,
  success_stays, settle_taken, settle_refused, success_settles,
}

pub same_noted : (now : ℕ) (d : GatewayData) (f : PaymentFile) → SameEffect f (noted_rows now d f)
unfolding note_success
same_noted now d f = record {
  same_state = refl;
  same_ledger = refl;
  same_held = refl;
  same_credit = refl;
  same_redemptions = refl;
  same_invoice = refl;
}

IsSettled-noted :
    (now : ℕ) (d : GatewayData) (b : Bool) (f : PaymentFile)
    → IsSettled b f
    → IsSettled b (noted_rows now d f)
unfolding note_success
IsSettled-noted now d b f s = record {
  is_final = s.is_final;
  holds_mismatch = s.holds_mismatch;
  credits = s.credits;
  pays = s.pays;
}

pub noted_taken :
    (now : ℕ) (d : GatewayData) (f : PaymentFile)
    → (noted_rows now d f).payment.status ≡ f.payment.status
unfolding note_success
noted_taken now d f = refl

settled_again :
    (now : ℕ) (source : Source) (d : GatewayData) (risk : Risk) (f : PaymentFile)
    → IsSettled (amounts_match d f.payment) f
    → SameEffect f (settle_success now d risk (transition success source (noted_rows now d f)))
settled_again now source d risk f s =
    let noted : PaymentFile = noted_rows now d f in
    let settled : IsSettled (amounts_match d noted.payment) noted =
      rw (amounts_match_noted now d f) (IsSettled-noted now d (amounts_match d f.payment) f s) in
    let taken : not false && not (is_success noted.payment.status) ≡ false =
      rw settled.is_final refl in
    rw (success_stays source noted settled.is_final, settle_taken now d risk (noted, false) taken)
      (SameEffect-trans (same_noted now d f)
        (settled_stays (amounts_match d noted.payment) now risk noted settled))

pub refused_again :
    (now : ℕ) (source : Source) (d : GatewayData) (risk : Risk) (f : PaymentFile)
    → takes_success f.payment.status ≡ false
    → SameEffect f (settle_success now d risk (transition success source (noted_rows now d f)))
refused_again now source d risk f t =
    let noted : PaymentFile = noted_rows now d f in
    let facts = refused_transition source noted (ap takes_success (noted_taken now d f) ∙ t) in
    rw (settle_refused now d risk (transition success source noted) facts.0)
      (SameEffect-trans (same_noted now d f) facts.1)

paid_again :
    (now now' : ℕ) (source source' : Source) (d : GatewayData) (risk risk' : Risk) (f : PaymentFile)
    → is_some f.ledger ≡ f.payment.votes_credited
    → SameEffect
        (apply_status paid now source d risk f)
        (apply_status paid now' source' d risk' (apply_status paid now source d risk f))
unfolding apply_status note_success
paid_again now now' source source' d risk risk' f o =
    elim (Bool-cases (takes_success f.payment.status)) [
      | inl t ↦ settled_again now' source' d risk' _ (
          success_settles now source d risk (noted_rows now d f)
            (ap takes_success (noted_taken now d f) ∙ t) o)
      | inr t ↦
          refused_again now' source' d risk' _
            (ap takes_success ((refused_again now source d risk f t).same_state) ∙ t)
    ]

transition_again :
    (to : PaymentStatus) (source source' : Source) (f : PaymentFile)
    → SameEffect (transition to source f).0 (transition to source' (transition to source f).0).0
unfolding transition
transition_again to source source' f = ground arith

reversal_again :
    (source source' : Source) (f : PaymentFile)
    → SameEffect (settle_reversal (transition reversed_payment source f)) (
        settle_reversal (
          transition reversed_payment source'
            (settle_reversal (transition reversed_payment source f))))
unfolding settle_reversal transition
reversal_again source source' f = ground arith

pending_again :
    (source source' : Source) (d : GatewayData) (f : PaymentFile)
    → SameEffect
        (transition pending source (with_gateway_status d f)).0
        (transition pending source'
          (with_gateway_status d (transition pending source (with_gateway_status d f)).0)).0
unfolding transition
pending_again source source' d f = ground arith

-- A result that the gateway reports twice, even at another time, by another way and with another
-- assessment of its risk, has no effect the second time on a payment with a sound ledger: not on the
-- status, the ledger, the hold, the credit, the redemptions of the discount code or the invoice.
pub apply_gateway_result-again :
    (now now' : ℕ) (source source' : Source) (d : GatewayData) (risk risk' : Risk) (f : PaymentFile)
    → IsSound f
    → SameEffect
        (apply_gateway_result now source d risk f)
        (apply_gateway_result now' source' d risk' (apply_gateway_result now source d risk f))
unfolding apply_gateway_result
apply_gateway_result-again now now' source source' d risk risk' f s = go d.status
  where
    go :
        (g : GatewayStatus)
        → SameEffect
            (apply_status g now source d risk f)
            (apply_status g now' source' d risk' (apply_status g now source d risk f))
    go paid = paid_again now now' source source' d risk risk' f s.once
    go declined = transition_again failed source source' f
    go left_checkout = transition_again payment_abandoned source source' f
    go taken_back = reversal_again source source' f
    go other_status = pending_again source source' d f

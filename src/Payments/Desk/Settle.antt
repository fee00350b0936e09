-- ===== src/Payments/Desk/Settle.antt =====
-- payments/service.py: `reconcile` and `expire_abandoned` for a payment, on their results.
use flexyvotes.Base.{
  ℕ, ◌≡◌, refl, ◌∙◌, sym, subst, ap, Bool, true, false, ◌&&◌, not, Option, is_some, if_intro, List,
  arith, if◌then◌else◌,
}
use flexyvotes.Payments.Model.{
  PaymentStatus, payment_abandoned, reversed_payment, Source, Payment, reconcile, expiry,
  PaymentFile,
}
use flexyvotes.Payments.Machine.{is_success, same_status, allowed_transition, transition}
use flexyvotes.Payments.Machine.Laws.{IsSound}
use flexyvotes.Payments.Gateway.{
  GatewayData, GatewayStatus, paid, Risk, is_vote, note_success, apply_status, apply_gateway_result,
}
use flexyvotes.Payments.Gateway.Results.{noted_rows}
use flexyvotes.Payments.Gateway.Settled.{takes_success, success_settles}
use flexyvotes.Payments.Desk.{
  is_open, is_local_success, disagrees, Discrepancy, reconcile_row, credit_missed, verify_and_apply,
  expire_payment,
}
use flexyvotes.Payments.Desk.Laws.{reconcile_row-Advances}

abandon_closes :
    (f : PaymentFile)
    → is_open f.payment.status ≡ true
    → is_open (transition payment_abandoned expiry f).0.payment.status ≡ false
unfolding transition
abandon_closes f h = ground arith

expired_count :
    (b : Bool) (f : PaymentFile) (g : PaymentFile × ℕ)
    → g.1 ≡ 1
    → (if b then g else (f, 0)).1 ≡ (if b then 1 else 0)
expired_count true f g h = h
expired_count false f g h = refl

-- Expiry leaves no payment initialized or pending, whatever the gateway answers, and counts exactly
-- those that the answer left so.
pub expire_payment-closes :
    (now : ℕ) (answer : Option GatewayData) (risk : Risk) (f : PaymentFile)
    → is_open (expire_payment now answer risk f).0.payment.status ≡ false
      × (expire_payment now answer risk f).1
        ≡ (if is_open (verify_and_apply now expiry answer risk f).payment.status then 1 else 0)
unfolding expire_payment
expire_payment-closes now answer risk f =
    let after : PaymentFile = verify_and_apply now expiry answer risk f in
    (
      if_intro (λ (r : PaymentFile × ℕ). is_open r.0.payment.status ≡ false)
          (is_open after.payment.status) _ _ (abandon_closes after) (λ h. h),
      expired_count (is_open after.payment.status) after
          ((transition payment_abandoned expiry after).0, 1) refl,
    )

is_late :
    (st : PaymentStatus)
    → is_local_success st ≡ false
    → same_status st reversed_payment ≡ false
    → takes_success st ≡ true
unfolding same_status allowed_transition
is_late st h n = ground arith

success_is_local : (st : PaymentStatus) → is_success st ≡ true → is_local_success st ≡ true
success_is_local st h = ground arith

paid_is_local :
    (now : ℕ) (source : Source) (d : GatewayData) (risk : Risk) (f : PaymentFile)
    → is_some f.ledger ≡ f.payment.votes_credited
    → takes_success f.payment.status ≡ true
    → is_local_success (apply_status paid now source d risk f).payment.status ≡ true
unfolding apply_status note_success
paid_is_local now source d risk f o t =
    success_is_local _ (success_settles now source d risk (noted_rows now d f) t o).is_final

apply_is_local :
    (now : ℕ) (source : Source) (d : GatewayData) (risk : Risk) (f : PaymentFile)
    → is_some f.ledger ≡ f.payment.votes_credited
    → d.status ≡ paid
    → takes_success f.payment.status ≡ true
    → is_local_success (apply_gateway_result now source d risk f).payment.status ≡ true
unfolding apply_gateway_result
apply_is_local now source d risk f o p t =
    subst (λ g. is_local_success (apply_status g now source d risk f).payment.status ≡ true) (sym p)
      (paid_is_local now source d risk f o t)

not_local :
    (st : PaymentStatus) (g : GatewayStatus)
    → g ≡ paid
    → disagrees g st ≡ true
    → is_local_success st ≡ false
unfolding disagrees
not_local st g p h = ground arith

paid_agrees :
    (st : PaymentStatus) (g : GatewayStatus)
    → g ≡ paid
    → disagrees g st ≡ false
    → is_local_success st ≡ true
unfolding disagrees
paid_agrees st g p h = ground arith

reconcile_row_local :
    (now : ℕ) (d : GatewayData) (risk : Risk) (f : PaymentFile)
    → is_some f.ledger ≡ f.payment.votes_credited
    → d.status ≡ paid
    → same_status f.payment.status reversed_payment ≡ false
    → is_local_success (reconcile_row now d risk f).0.payment.status ≡ true
unfolding reconcile_row
reconcile_row_local now d risk f o p n =
    if_intro (λ (r : PaymentFile × List Discrepancy). is_local_success r.0.payment.status ≡ true)
      (disagrees d.status f.payment.status) _ _
      (λ h.
        apply_is_local now reconcile d risk f o p
          (is_late f.payment.status (not_local f.payment.status d.status p h) n))
      (λ h. paid_agrees f.payment.status d.status p h)

-- A successful purchase of votes that is not held and not credited.
abbrev pub is_missed : Payment → Bool
is_missed p = is_vote p.purpose && (is_success p.status && (not p.held && not p.votes_credited))

credit_missed_credits :
    (now : ℕ) (f : PaymentFile)
    → is_some f.ledger ≡ f.payment.votes_credited
    → (credit_missed now f).0.payment.status ≡ f.payment.status
      × is_missed (credit_missed now f).0.payment ≡ false
unfolding credit_missed
credit_missed_credits now f o = ground arith

-- Reconciliation against a gateway that reports a payment as paid makes the payment successful,
-- refunded (partly or fully) or disputed, unless it was reversed; and after the sweep for missed
-- credits a successful purchase of votes is credited, or held for review. The ledger is sound before.
pub reconcile-recovers :
    (now now' : ℕ) (d : GatewayData) (risk : Risk) (f : PaymentFile)
    → IsSound f
    → d.status ≡ paid
    → same_status f.payment.status reversed_payment ≡ false
    → is_local_success (credit_missed now' (reconcile_row now d risk f).0).0.payment.status ≡ true
      × is_missed (credit_missed now' (reconcile_row now d risk f).0).0.payment ≡ false
reconcile-recovers now now' d risk f s p n =
    let g : PaymentFile = (reconcile_row now d risk f).0 in
    let swept = credit_missed_credits now' g ((reconcile_row-Advances now d risk f).sound s).once in
    (ap is_local_success swept.0 ∙ reconcile_row_local now d risk f s.once p n, swept.1)

-- ===== src/Payments/Desk/Confirmed.antt =====
-- payments/service.py: every way in which the rows of a payment change leads from confirmed payments to
-- confirmed ones, but for a dispute that is resolved in favour of the merchant.
use flexyvotes.Base.{ℕ, ◌≡◌, refl, Bool, false, ◌&&◌, ◌||◌, not, Option, none, some, arith}
use flexyvotes.Payments.Model.{Source, PaymentFile, reconcile, expiry, payment_abandoned}
use flexyvotes.Payments.Machine.{is_success}
use flexyvotes.Payments.Machine.Confirmed.{
  Confirms, Confirms-if_fst, transition-Confirms, credit_votes-Confirms,
}
use flexyvotes.Payments.Gateway.{GatewayData, Risk, is_vote}
use flexyvotes.Payments.Gateway.Confirmed.{
  apply_gateway_result-Confirms, release_held_payment-Confirms,
}
use flexyvotes.Payments.Refunds.Confirmed.{
  complete_refund-Confirms, approve_refund-Confirms, request_refund-Confirms,
  reject_held_payment-Confirms,
}
use flexyvotes.Payments.Webhooks.Confirmed.{wins_unconfirmed, dispatch_webhook-Confirms}
use flexyvotes.Payments.Desk.{
  is_open, disagrees, reconcile_row, credit_missed, verify_and_apply, expire_payment, DeskStep,
  verified, notified, reconciled, swept, expired, released, asked_refund, approved_refund_of,
  completed_refund, refused_hold, DeskRun, idle, then_step,
}

verify_and_apply-Confirms :
    (now : ℕ) (source : Source) (answer : Option GatewayData) (risk : Risk) (f : PaymentFile)
    → Confirms f (verify_and_apply now source answer risk f)
unfolding verify_and_apply
verify_and_apply-Confirms now source none risk f = λ c. c
verify_and_apply-Confirms now source (some d) risk f =
    apply_gateway_result-Confirms now source d risk f

reconcile_row-Confirms :
    (now : ℕ) (d : GatewayData) (risk : Risk) (f : PaymentFile)
    → Confirms f (reconcile_row now d risk f).0
unfolding reconcile_row
reconcile_row-Confirms now d risk f =
    Confirms-if_fst (disagrees d.status f.payment.status) f _ _
      (apply_gateway_result-Confirms now reconcile d risk f) (λ c. c)

credit_missed-Confirms : (now : ℕ) (f : PaymentFile) → Confirms f (credit_missed now f).0
unfolding credit_missed
credit_missed-Confirms now f =
    Confirms-if_fst
      (is_success f.payment.status
        && (not f.payment.votes_credited && (not f.payment.held && is_vote f.payment.purpose)))
      f _ _ (credit_votes-Confirms now f) (λ c. c)

expire_payment-Confirms :
    (now : ℕ) (answer : Option GatewayData) (risk : Risk) (f : PaymentFile)
    → Confirms f (expire_payment now answer risk f).0
unfolding expire_payment
expire_payment-Confirms now answer risk f = λ c.
    let after : PaymentFile = verify_and_apply now expiry answer risk f in
    Confirms-if_fst (is_open after.payment.status) after _ _
      (transition-Confirms payment_abandoned expiry after refl) (λ k. k)
      (verify_and_apply-Confirms now expiry answer risk f c)

-- Whether a step, or one of a run, is such a dispute.
abbrev pub step_wins : {f f' : PaymentFile} → DeskStep f f' → Bool
step_wins (notified now risk t f) = wins_unconfirmed t f
step_wins _ = false

abbrev pub run_wins : {f f' : PaymentFile} → DeskRun f f' → Bool
run_wins (idle f) = false
run_wins (then_step r s) = run_wins r || step_wins s

DeskStep-Confirms : {f f' : PaymentFile} (s : DeskStep f f') → step_wins s ≡ false → Confirms f f'
DeskStep-Confirms (verified now source answer risk f) w =
    verify_and_apply-Confirms now source answer risk f
DeskStep-Confirms (notified now risk t f) w = dispatch_webhook-Confirms now risk t f w
DeskStep-Confirms (reconciled now d risk f) w = reconcile_row-Confirms now d risk f
DeskStep-Confirms (swept now f) w = credit_missed-Confirms now f
DeskStep-Confirms (expired now answer risk f) w = expire_payment-Confirms now answer risk f
DeskStep-Confirms (released now f) w = release_held_payment-Confirms now f
DeskStep-Confirms (asked_refund c amount b f) w = request_refund-Confirms c amount b f
DeskStep-Confirms (approved_refund_of c i b f) w = approve_refund-Confirms c i b f
DeskStep-Confirms (completed_refund i f) w = complete_refund-Confirms i f
DeskStep-Confirms (refused_hold c f) w = reject_held_payment-Confirms c f

pub DeskRun-Confirms : {f f' : PaymentFile} (r : DeskRun f f') → run_wins r ≡ false → Confirms f f'
DeskRun-Confirms (idle f) w = λ c. c
DeskRun-Confirms (then_step r s) w = λ c.
    DeskStep-Confirms s (both (run_wins r) (step_wins s) w).1
      (DeskRun-Confirms r (both (run_wins r) (step_wins s) w).0 c)
  where
    both : (a b : Bool) → (a || b) ≡ false → (a ≡ false) × (b ≡ false)
    both a b h = ground arith

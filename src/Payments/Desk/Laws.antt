-- ===== src/Payments/Desk/Laws.antt =====
-- payments/service.py: results, webhooks, reviews and refunds in any order.
use flexyvotes.Base.{
  ℕ, ◌≡◌, sym, ◌∙◌, ◌⊎◌, inl, inr, Bool-cases, true, ◌&&◌, not, Option, none, some,
}
use flexyvotes.Payments.Model.{
  Source, reconcile, expiry, payment_abandoned, total_votes, PaymentFile,
}
use flexyvotes.Payments.Machine.{is_success}
use flexyvotes.Payments.Machine.Laws.{
  IsSound, Entitlement, nothing, granted, revoked, entitlement, EntitlementRun, stays, grants,
  revokes, follows, Advances, Advances-refl, Advances-trans, Advances-if_fst, transition-Advances,
  credit_votes-Advances,
}
use flexyvotes.Payments.Machine.Confirmed.{is_confirmed}
use flexyvotes.Payments.Desk.Confirmed.{run_wins, DeskRun-Confirms}
use flexyvotes.Payments.Gateway.{GatewayData, Risk, is_vote}
use flexyvotes.Payments.Gateway.Laws.{apply_gateway_result-Advances, release_held_payment-Advances}
use flexyvotes.Payments.Refunds.Laws.{
  complete_refund-Advances, approve_refund-Advances, request_refund-Advances,
  reject_held_payment-Advances,
}
use flexyvotes.Payments.Webhooks.Laws.{dispatch_webhook-Advances}
use flexyvotes.Payments.Desk.{
  is_open, disagrees, reconcile_row, credit_missed, verify_and_apply, expire_payment, DeskStep,
  verified, notified, reconciled, swept, expired, released, asked_refund, approved_refund_of,
  completed_refund, refused_hold, DeskRun, idle, then_step,
}

pub verify_and_apply-Advances :
    (now : ℕ) (source : Source) (answer : Option GatewayData) (risk : Risk) (f : PaymentFile)
    → Advances f (verify_and_apply now source answer risk f)
unfolding verify_and_apply
verify_and_apply-Advances now source none risk f = Advances-refl f
verify_and_apply-Advances now source (some d) risk f =
    apply_gateway_result-Advances now source d risk f

pub reconcile_row-Advances :
    (now : ℕ) (d : GatewayData) (risk : Risk) (f : PaymentFile)
    → Advances f (reconcile_row now d risk f).0
unfolding reconcile_row
reconcile_row-Advances now d risk f =
    Advances-if_fst (disagrees d.status f.payment.status) f _ _
      (apply_gateway_result-Advances now reconcile d risk f) (Advances-refl f)

credit_missed-Advances : (now : ℕ) (f : PaymentFile) → Advances f (credit_missed now f).0
unfolding credit_missed
credit_missed-Advances now f =
    Advances-if_fst
      (is_success f.payment.status
        && (not f.payment.votes_credited && (not f.payment.held && is_vote f.payment.purpose)))
      f _ _ (credit_votes-Advances now f) (Advances-refl f)

expire_payment-Advances :
    (now : ℕ) (answer : Option GatewayData) (risk : Risk) (f : PaymentFile)
    → Advances f (expire_payment now answer risk f).0
unfolding expire_payment
expire_payment-Advances now answer risk f =
    let after : PaymentFile = verify_and_apply now expiry answer risk f in
    Advances-trans f after _ (verify_and_apply-Advances now expiry answer risk f) (
      Advances-if_fst (is_open after.payment.status) after _ _
        (transition-Advances payment_abandoned expiry after) (Advances-refl after))

DeskStep-Advances : {f f' : PaymentFile} → DeskStep f f' → Advances f f'
DeskStep-Advances (verified now source answer risk f) =
    verify_and_apply-Advances now source answer risk f
DeskStep-Advances (notified now risk t f) = dispatch_webhook-Advances now risk t f
DeskStep-Advances (reconciled now d risk f) = reconcile_row-Advances now d risk f
DeskStep-Advances (swept now f) = credit_missed-Advances now f
DeskStep-Advances (expired now answer risk f) = expire_payment-Advances now answer risk f
DeskStep-Advances (released now f) = release_held_payment-Advances now f
DeskStep-Advances (asked_refund c amount b f) = request_refund-Advances c amount b f
DeskStep-Advances (approved_refund_of c i b f) = approve_refund-Advances c i b f
DeskStep-Advances (completed_refund i f) = complete_refund-Advances i f
DeskStep-Advances (refused_hold c f) = reject_held_payment-Advances c f

DeskRun-Advances : {f f' : PaymentFile} → DeskRun f f' → Advances f f'
DeskRun-Advances (idle f) = Advances-refl f
DeskRun-Advances (then_step r s) = Advances-trans _ _ _ (DeskRun-Advances r) (DeskStep-Advances s)

-- In every order of gateway results, webhooks, reconciliation, expiry, reviews and refunds, the rows of
-- a payment stay sound: its ledger row is there exactly when its votes are credited, and is for the
-- votes, the amount and the candidate of the payment; a credited payment is in success, or in one of
-- the states refunded, partly refunded, reversed or disputed; a discount code is redeemed once if the
-- votes are credited, and not before; refunds are numbered in order, and the refunded amount is the sum
-- of the processed ones. A payment that is credited or in one of those states also keeps a time at
-- which the gateway reported it as paid (`verified_at`), if this held at the start, unless a webhook of
-- the run resolves a dispute in the merchant's favour while the payment has no such time.
pub DeskRun-IsSound :
    {f f' : PaymentFile}
    → IsSound f
    → is_confirmed f ≡ true
    → (r : DeskRun f f') → IsSound f' × (run_wins r ≡ true ⊎ is_confirmed f' ≡ true)
DeskRun-IsSound s c r = (
  (DeskRun-Advances r).sound s,
  (elim (Bool-cases (run_wins r)) [
    | inl won ↦ inl won
    | inr lost ↦ inr (DeskRun-Confirms r lost c)
  ]),
)

-- In every order of gateway results, webhooks, reconciliation, expiry, reviews and refunds, the
-- ledger of a payment follows the contract: the votes of the payment are granted from nothing, and
-- granted votes are revoked; and no step changes how many votes the payment is for.
pub DeskRun-refines :
    {f f' : PaymentFile}
    → DeskRun f f'
    → EntitlementRun (total_votes f.payment) (entitlement f) (entitlement f')
      × total_votes f'.payment ≡ total_votes f.payment
DeskRun-refines r = ((DeskRun-Advances r).run, (DeskRun-Advances r).same_votes)

run_from_revoked :
    (n m : ℕ) (e e' : Entitlement) → EntitlementRun n e e' → e ≡ revoked m → e' ≡ revoked m
run_from_revoked n m _ _ (stays e e' q) h = sym q ∙ h
run_from_revoked n m _ _ (grants e e' q q') h = absurd (nothing_not_revoked (sym q ∙ h))
  where
    nothing_not_revoked : nothing ≡ revoked m → ⊥
    nothing_not_revoked w = cc
run_from_revoked n m _ _ (revokes k e e' q q') h = absurd (granted_not_revoked (sym q ∙ h))
  where
    granted_not_revoked : granted k ≡ revoked m → ⊥
    granted_not_revoked w = cc
run_from_revoked n m _ _ (follows a b) h = run_from_revoked n m _ _ b (run_from_revoked n m _ _ a h)

-- Votes that have been taken back never count again, whatever follows.
pub DeskRun-revoked :
    {f f' : PaymentFile} (m : ℕ)
    → DeskRun f f'
    → entitlement f ≡ revoked m
    → entitlement f' ≡ revoked m
DeskRun-revoked {f} {f'} m r h =
    run_from_revoked (total_votes f.payment) m (entitlement f) (entitlement f')
      (DeskRun-Advances r).run h

-- ===== src/Payments/Refunds/Confirmed.antt =====
-- payments/service.py: refunds lead from confirmed payments to confirmed ones.
use flexyvotes.Base.{
  ℕ, ◌+◌, ◌-◌, refl, Bool, true, false, ◌&&◌, ◌||◌, not, Option, none, some, ltb, leb, ◌==◌, length,
  if◌then◌else◌,
}
use flexyvotes.Payments.Model.{
  PaymentFile, Refund, refunded, partially_refunded, refund_source, processed, hold_rejected,
}
use flexyvotes.Payments.Machine.{is_success, record_entry, transition, reverse_votes}
use flexyvotes.Payments.Machine.Confirmed.{
  Confirms, Confirms-if, Confirms-if_fst, transition-Confirms, reverse_votes-Confirms,
}
use flexyvotes.Payments.Refunds.{
  RefundCall, is_refundable, is_processed, is_requested, find_refund, set_refund_status,
  process_refund, complete_found, complete_refund, submit_refund, approve_found, approve_refund,
  follow_up, request_refund, reject_held_payment,
}

-- The state that a refund leads to.
paid_back_status-Confirms :
    (b : Bool) (f : PaymentFile)
    → Confirms f (transition (if b then refunded else partially_refunded) refund_source f).0
paid_back_status-Confirms true f = transition-Confirms refunded refund_source f refl
paid_back_status-Confirms false f = transition-Confirms partially_refunded refund_source f refl

process_refund-Confirms : (r : Refund) (f : PaymentFile) → Confirms f (process_refund r f)
unfolding process_refund
process_refund-Confirms r f = λ c.
    let total = f.payment.refunded_amount + r.amount in
    let marked : PaymentFile = set_refund_status r.id processed f in
    let paid_back : PaymentFile = record marked {
      payment = record marked.payment { refunded_amount = total };
    } in
    let after : PaymentFile =
      (transition (if leb f.payment.amount total then refunded else partially_refunded)
        refund_source paid_back).0 in
    Confirms-if r.reverse_votes after (reverse_votes after).0 after (reverse_votes-Confirms after)
      (λ k. k) (paid_back_status-Confirms (leb f.payment.amount total) paid_back c)

complete_found-Confirms : (r : Option Refund) (f : PaymentFile) → Confirms f (complete_found r f)
unfolding complete_found
complete_found-Confirms none f = λ c. c
complete_found-Confirms (some r) f =
    Confirms-if (is_processed r.status) f f (process_refund r f) (λ c. c)
      (process_refund-Confirms r f)

pub complete_refund-Confirms : (i : ℕ) (f : PaymentFile) → Confirms f (complete_refund i f)
unfolding complete_refund
complete_refund-Confirms i f = complete_found-Confirms (find_refund i f.refunds) f

submit_refund-Confirms :
    (c : RefundCall) (r : Refund) (f : PaymentFile) → Confirms f (submit_refund c r f)
unfolding submit_refund
submit_refund-Confirms c r f =
    Confirms-if (not c.gateway_accepts) f _ _ (λ k. k)
      (Confirms-if c.fake_gateway f _ _ (λ k. complete_refund-Confirms r.id _ k) (λ k. k))

approve_found-Confirms :
    (c : RefundCall) (b : Bool) (r : Option Refund) (f : PaymentFile)
    → Confirms f (approve_found c b r f).0
unfolding approve_found
approve_found-Confirms c b none f = λ k. k
approve_found-Confirms c b (some r) f =
    Confirms-if_fst (not b && not c.may_approve) f _ _ (λ k. k)
      (Confirms-if_fst (not b && c.actor == r.requested_by) f _ _ (λ k. k)
        (Confirms-if_fst (not (is_requested r.status)) f _ _ (λ k. k)
          (submit_refund-Confirms c r f)))

pub approve_refund-Confirms :
    (c : RefundCall) (i : ℕ) (b : Bool) (f : PaymentFile) → Confirms f (approve_refund c i b f).0
unfolding approve_refund
approve_refund-Confirms c i b f = approve_found-Confirms c b (find_refund i f.refunds) f

follow_up-Confirms :
    (c : RefundCall) (i amount : ℕ) (f : PaymentFile) → Confirms f (follow_up c i amount f).0
unfolding follow_up
follow_up-Confirms c i amount f =
    Confirms-if_fst (ltb c.threshold amount) f _ _
      (Confirms-if_fst (not c.has_reason) f _ _ (λ k. k)
        (Confirms-if_fst c.dual_approval f _ _ (λ k. k) (approve_refund-Confirms c i true f)))
      (Confirms-if_fst c.may_approve f _ _ (approve_refund-Confirms c i true f) (λ k. k))

pub request_refund-Confirms :
    (c : RefundCall) (amount : ℕ) (b : Bool) (f : PaymentFile)
    → Confirms f (request_refund c amount b f).0
unfolding request_refund
request_refund-Confirms c amount b f =
    Confirms-if_fst (not c.may_create) f _ _ (λ k. k)
      (Confirms-if_fst (not (is_refundable f.payment.status)) f _ _ (λ k. k)
        (Confirms-if_fst (amount == 0 || ltb (f.payment.amount - f.payment.refunded_amount) amount)
          f _ _ (λ k. k) (follow_up-Confirms c (length f.refunds) amount _)))

pub reject_held_payment-Confirms :
    (c : RefundCall) (f : PaymentFile) → Confirms f (reject_held_payment c f).0
unfolding reject_held_payment
reject_held_payment-Confirms c f =
    Confirms-if_fst (is_success f.payment.status && c.may_create) f _ _
      (request_refund-Confirms c f.payment.amount true (record_entry hold_rejected f)) (λ k. k)

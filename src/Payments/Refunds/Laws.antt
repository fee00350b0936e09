-- ===== src/Payments/Refunds/Laws.antt =====
-- payments/service.py: refunds, against the contract of paid voting.
use flexyvotes.Base.{
  ℕ, ◌+◌, ◌-◌, ◌≡◌, refl, sym, subst, ◌∙◌, if_intro, Bool, false, true, ◌&&◌, ◌||◌, not, Option,
  none, some, List, [], ◌∷◌, ◌++◌, arith, ltb, leb, ◌==◌, length, if◌then◌else◌,
}
use flexyvotes.Payments.Model.{
  refund_source, PaymentFile, Refund, RefundStatus, refunded, partially_refunded, approved_refund,
  processing, processed, failed_refund, refund_requested, refund_refused, refund_submitted,
  hold_rejected,
}
use flexyvotes.Payments.Machine.{is_success, record_entry, transition}
use flexyvotes.Payments.Machine.Laws.{
  Advances, Advances-aside, Advances-refl, Advances-trans, Advances-if, Advances-if_fst,
  transition-Advances, reverse_votes-Advances, record_entry-Advances,
}
use flexyvotes.Payments.Refunds.Books.{
  IsNumbered, total_paid_back, update_refund-IsNumbered, update_refund-keeps_total,
  update_refund-pays, update_refund-found, find_refund-id, append-IsNumbered, append-total,
}
use flexyvotes.Payments.Refunds.{
  RefundError, RefundCall, is_refundable, is_requested, is_processed, find_refund, update_refund,
  set_refund_status, process_refund, complete_found, complete_refund, submit_refund, approve_found,
  approve_refund, new_refund, follow_up, request_refund, reject_held_payment,
}

-- The rows of the refunds may change as long as they stay numbered and pay nothing back.
pub with_refunds-Advances :
    (rs : List Refund) (f : PaymentFile)
    → (IsNumbered 0 f.refunds → IsNumbered 0 rs)
    → total_paid_back rs ≡ total_paid_back f.refunds
    → Advances f (record f { refunds = rs })
with_refunds-Advances rs f n t =
    Advances-aside f (record f { refunds = rs })
      (λ s. record {
        once = s.once;
        exact = s.exact;
        credited_after_success = s.credited_after_success;
        redeemed = s.redeemed;
        numbered = n s.numbered;
        accounted = s.accounted ∙ sym t;
      })
      refl refl

-- A row that is not processed gets another status.
pub unprocessed-Advances :
    (i : ℕ) (g : Refund → Refund) (r : Refund) (f : PaymentFile)
    → ((q : Refund) → (g q).id ≡ q.id)
    → find_refund i f.refunds ≡ some r
    → is_processed r.status ≡ false
    → is_processed (g r).status ≡ false
    → Advances f (record f { refunds = update_refund i g f.refunds })
unprocessed-Advances i g r f keeps found h h' =
    with_refunds-Advances (update_refund i g f.refunds) f
      (update_refund-IsNumbered i g 0 f.refunds keeps)
      (update_refund-keeps_total i g f.refunds r found h h')

-- The row is marked, and its amount is added to what was paid back.
pay_back-Advances :
    (r : Refund) (f : PaymentFile)
    → find_refund r.id f.refunds ≡ some r
    → is_processed r.status ≡ false
    → Advances f (record (set_refund_status r.id processed f) {
      payment = record f.payment { refunded_amount = f.payment.refunded_amount + r.amount };
    })
pay_back-Advances r f found h =
    Advances-aside f _
      (λ s. record {
        once = s.once;
        exact = s.exact;
        credited_after_success = s.credited_after_success;
        redeemed = s.redeemed;
        numbered =
            update_refund-IsNumbered r.id (λ q. record q { status = processed }) 0 f.refunds
              (λ q. refl) s.numbered;
        accounted = omega (
          arith,
          s.accounted,
          update_refund-pays r.id (λ q. record q { status = processed }) f.refunds r found h refl
              refl,
        );
      })
      refl refl

process_refund-Advances :
    (r : Refund) (f : PaymentFile)
    → find_refund r.id f.refunds ≡ some r
    → is_processed r.status ≡ false
    → Advances f (process_refund r f)
unfolding process_refund
process_refund-Advances r f found h =
    let marked : PaymentFile = set_refund_status r.id processed f in
    let total : ℕ = f.payment.refunded_amount + r.amount in
    let paid : PaymentFile = record marked {
      payment = record marked.payment { refunded_amount = total };
    } in
    let after : PaymentFile =
      (transition (if leb f.payment.amount total then refunded else partially_refunded)
        refund_source paid).0 in
    Advances-trans f paid _ (pay_back-Advances r f found h) (
      Advances-trans paid after _
        (transition-Advances (if leb f.payment.amount total then refunded else partially_refunded)
          refund_source paid)
        (Advances-if r.reverse_votes after _ _ (reverse_votes-Advances after)
          (Advances-refl after)))

own_row :
    (i : ℕ) (r : Refund) (rs : List Refund)
    → find_refund i rs ≡ some r
    → find_refund r.id rs ≡ some r
own_row i r rs e = subst (λ z. find_refund z rs ≡ some r) (sym (find_refund-id i rs r e)) e

complete_found-Advances :
    (i : ℕ) (r : Option Refund) (f : PaymentFile)
    → find_refund i f.refunds ≡ r
    → Advances f (complete_found r f)
unfolding complete_found
complete_found-Advances i none f e = Advances-refl f
complete_found-Advances i (some r) f e =
    if_intro (λ (g : PaymentFile). Advances f g) (is_processed r.status) _ _ (λ d. Advances-refl f)
      (process_refund-Advances r f (own_row i r f.refunds e))

pub complete_refund-Advances : (i : ℕ) (f : PaymentFile) → Advances f (complete_refund i f)
unfolding complete_refund
complete_refund-Advances i f = complete_found-Advances i (find_refund i f.refunds) f refl

submit_refund-Advances :
    (c : RefundCall) (r : Refund) (f : PaymentFile)
    → find_refund r.id f.refunds ≡ some r
    → is_processed r.status ≡ false
    → Advances f (submit_refund c r f)
unfolding submit_refund
submit_refund-Advances c r f found h =
    let grant : Refund → Refund =
      λ x. record x { status = approved_refund; approved_by = some c.actor } in
    let approved : PaymentFile = record f { refunds = update_refund r.id grant f.refunds } in
    let row = update_refund-found r.id grant f.refunds r (λ q. refl) found in
    let failing : PaymentFile = set_refund_status r.id failed_refund approved in
    let going : PaymentFile = set_refund_status r.id processing approved in
    let submitted : PaymentFile = record_entry (refund_submitted r.id) going in
    Advances-trans f approved _ (unprocessed-Advances r.id grant r f (λ q. refl) found h refl) (
      Advances-if (not c.gateway_accepts) approved _ _
        (Advances-trans approved failing _
          (unprocessed-Advances r.id (λ x. record x { status = failed_refund }) (grant r) approved
            (λ q. refl) row refl refl)
          (record_entry-Advances (refund_refused r.id) failing))
        (Advances-trans approved going _
          (unprocessed-Advances r.id (λ x. record x { status = processing }) (grant r) approved
            (λ q. refl) row refl refl)
          (Advances-trans going submitted _ (record_entry-Advances (refund_submitted r.id) going) (
            Advances-if c.fake_gateway submitted _ _ (complete_refund-Advances r.id submitted)
              (Advances-refl submitted)))))

requested_unprocessed :
    (st : RefundStatus) → not (is_requested st) ≡ false → is_processed st ≡ false
requested_unprocessed st h = ground arith

approve_found-Advances :
    (c : RefundCall) (i : ℕ) (b : Bool) (r : Option Refund) (f : PaymentFile)
    → find_refund i f.refunds ≡ r
    → Advances f (approve_found c b r f).0
unfolding approve_found
approve_found-Advances c i b none f e = Advances-refl f
approve_found-Advances c i b (some r) f e =
    Advances-if_fst (not b && not c.may_approve) f _ _ (Advances-refl f) (
      Advances-if_fst (not b && c.actor == r.requested_by) f _ _ (Advances-refl f) (
        if_intro (λ (g : PaymentFile × Option RefundError). Advances f g.0)
          (not (is_requested r.status)) _ _ (λ d. Advances-refl f)
          (λ d.
            submit_refund-Advances c r f (own_row i r f.refunds e)
              (requested_unprocessed r.status d))))

pub approve_refund-Advances :
    (c : RefundCall) (i : ℕ) (b : Bool) (f : PaymentFile) → Advances f (approve_refund c i b f).0
unfolding approve_refund
approve_refund-Advances c i b f = approve_found-Advances c i b (find_refund i f.refunds) f refl

follow_up-Advances :
    (c : RefundCall) (i amount : ℕ) (f : PaymentFile) → Advances f (follow_up c i amount f).0
unfolding follow_up
follow_up-Advances c i amount f =
    Advances-if_fst (ltb c.threshold amount) f _ _
      (Advances-if_fst (not c.has_reason) f _ _ (Advances-refl f) (
        Advances-if_fst c.dual_approval f _ _ (Advances-aside f _ (λ s. ground arith) refl refl)
          (approve_refund-Advances c i true f)))
      (Advances-if_fst c.may_approve f _ _ (approve_refund-Advances c i true f) (Advances-refl f))

-- The row of a request pays nothing back yet.
ask-Advances :
    (c : RefundCall) (amount : ℕ) (b : Bool) (f : PaymentFile)
    → Advances f (
        record_entry
          (refund_requested amount)
          (record f { refunds = f.refunds ++ (new_refund c amount b f ∷ []) }))
ask-Advances c amount b f =
    let asked : PaymentFile = record f { refunds = f.refunds ++ (new_refund c amount b f ∷ []) } in
    Advances-trans f asked _
      (with_refunds-Advances (f.refunds ++ (new_refund c amount b f ∷ [])) f
        (λ n. append-IsNumbered 0 f.refunds (new_refund c amount b f) n (omega arith))
        (omega (arith, append-total f.refunds (new_refund c amount b f))))
      (record_entry-Advances (refund_requested amount) asked)

pub request_refund-Advances :
    (c : RefundCall) (amount : ℕ) (b : Bool) (f : PaymentFile)
    → Advances f (request_refund c amount b f).0
unfolding request_refund
request_refund-Advances c amount b f =
    let noted : PaymentFile =
      record_entry (refund_requested amount)
        (record f { refunds = f.refunds ++ (new_refund c amount b f ∷ []) }) in
    Advances-if_fst (not c.may_create) f _ _ (Advances-refl f) (
      Advances-if_fst (not (is_refundable f.payment.status)) f _ _ (Advances-refl f) (
        Advances-if_fst (amount == 0 || ltb (f.payment.amount - f.payment.refunded_amount) amount) f
          _ _ (Advances-refl f)
          (Advances-trans f noted _ (ask-Advances c amount b f)
            (follow_up-Advances c (length f.refunds) amount noted))))

pub reject_held_payment-Advances :
    (c : RefundCall) (f : PaymentFile) → Advances f (reject_held_payment c f).0
unfolding reject_held_payment
reject_held_payment-Advances c f =
    Advances-trans f (record_entry hold_rejected f) _ (record_entry-Advances hold_rejected f) (
      Advances-if_fst (is_success f.payment.status && c.may_create) (record_entry hold_rejected f) _
        _ (request_refund-Advances c f.payment.amount true (record_entry hold_rejected f))
        (Advances-refl (record_entry hold_rejected f)))

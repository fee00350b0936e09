-- ===== src/Payments/Refunds.antt =====
-- payments/service.py: refunds. `RefundCall` says what the permission test, the settings and the
-- gateway answer to one call.
pub mod Books
pub mod Laws
pub mod Confirmed
use flexyvotes.Base.{
  ℕ, ◌+◌, ◌-◌, Bool, true, false, ◌&&◌, ◌||◌, not, Option, none, some, List, [], ◌∷◌, ◌++◌, ltb,
  leb, ◌==◌, if◌then◌else◌, length,
}
use flexyvotes.Payments.Model.{
  PaymentStatus, success, partially_refunded, refunded, disputed, Source, refund_source, Payment,
  PaymentFile, Refund, RefundStatus, requested, approved_refund, processing, processed,
  failed_refund, rejected, refund_requested, refund_refused, refund_submitted, hold_rejected,
}
use flexyvotes.Payments.Machine.{is_success, record_entry, transition, reverse_votes}

-- The permissions of the actor, whether the election wants dual approval, the threshold of the
-- settings, whether there is a reason, and the gateway: whether it takes the refund, and whether it
-- is the fake one.
pub record RefundCall : Type 0 where
  pub actor : ℕ
  pub may_create : Bool
  pub may_approve : Bool
  pub dual_approval : Bool
  pub threshold : ℕ
  pub has_reason : Bool
  pub gateway_accepts : Bool
  pub fake_gateway : Bool

-- `PermissionDenied`, the `PaymentError`s, and the IntegrityControlError for no reason.
pub data RefundError : Type 0 where
  no_permission not_refundable bad_amount needs_reason own_request unknown_refund : RefundError

abbrev pub is_refundable : PaymentStatus → Bool
is_refundable success = true
is_refundable partially_refunded = true
is_refundable disputed = true
is_refundable _ = false

abbrev pub is_requested : RefundStatus → Bool
is_requested requested = true
is_requested _ = false

abbrev pub is_processed : RefundStatus → Bool
is_processed processed = true
is_processed _ = false

-- `Refund.objects.get(pk=i)`
abbrev pub find_refund : ℕ → List Refund → Option Refund
find_refund i [] = none
find_refund i (r ∷ rs) = if r.id == i then some r else find_refund i rs

-- A save of the row `i`.
abbrev pub update_refund : ℕ → (Refund → Refund) → List Refund → List Refund
update_refund i g [] = []
update_refund i g (r ∷ rs) = if r.id == i then g r ∷ rs else r ∷ update_refund i g rs

abbrev pub set_refund_status : ℕ → RefundStatus → PaymentFile → PaymentFile
set_refund_status i st f = record f {
  refunds = update_refund i (λ r. record r { status = st }) f.refunds;
}

-- `_complete_refund` for a refund that is not processed yet.
unfoldable pub process_refund : Refund → PaymentFile → PaymentFile
unfolding transition reverse_votes
process_refund r f =
    let marked = set_refund_status r.id processed f in
    let total = f.payment.refunded_amount + r.amount in
    let paid_back = record marked { payment = record marked.payment { refunded_amount = total } } in
    let after =
      (transition (if leb f.payment.amount total then refunded else partially_refunded)
        refund_source paid_back).0 in
    if r.reverse_votes then (reverse_votes after).0 else after

-- `_complete_refund` for the row that it locks.
unfoldable pub complete_found : Option Refund → PaymentFile → PaymentFile
unfolding process_refund
complete_found none f = f
complete_found (some r) f = if is_processed r.status then f else process_refund r f

unfoldable pub complete_refund : ℕ → PaymentFile → PaymentFile
unfolding complete_found
complete_refund i f = complete_found (find_refund i f.refunds) f

-- `approve_refund` once it is known to be allowed.
unfoldable pub submit_refund : RefundCall → Refund → PaymentFile → PaymentFile
unfolding complete_refund
submit_refund c r f =
    let approved = record f {
      refunds =
          update_refund r.id
            (λ x. record x { status = approved_refund; approved_by = some c.actor }) f.refunds;
    } in
    if not c.gateway_accepts
    then record_entry (refund_refused r.id) (set_refund_status r.id failed_refund approved)
    else (let submitted =
          record_entry (refund_submitted r.id) (set_refund_status r.id processing approved) in
        if c.fake_gateway then complete_refund r.id submitted else submitted)

-- `approve_refund` for the row that it gets, and its error.
unfoldable pub approve_found :
    RefundCall → Bool → Option Refund → PaymentFile → PaymentFile × Option RefundError
unfolding submit_refund
approve_found c via_approval none f = (f, some unknown_refund)
approve_found c via_approval (some r) f =
    if not via_approval && not c.may_approve
    then (f, some no_permission)
    else if not via_approval && c.actor == r.requested_by
    then (f, some own_request)
    else if not (is_requested r.status)
    then (f, none)
    else (submit_refund c r f, none)

unfoldable pub approve_refund :
    RefundCall → ℕ → Bool → PaymentFile → PaymentFile × Option RefundError
unfolding approve_found
approve_refund c i via_approval f = approve_found c via_approval (find_refund i f.refunds) f

-- The new row.
abbrev pub new_refund : RefundCall → ℕ → Bool → PaymentFile → Refund
new_refund c amount reverse f = record {
  id = length f.refunds;
  amount = amount;
  status = requested;
  reverse_votes = reverse;
  requested_by = c.actor;
  approved_by = none;
}

-- The end of `request_refund`: `request_approval` of elections/integrity.py, which runs the refund at
-- once unless the election wants dual approval, or the approval of a small refund.
unfoldable pub follow_up : RefundCall → ℕ → ℕ → PaymentFile → PaymentFile × Option RefundError
unfolding approve_refund
follow_up c i amount f =
    if ltb c.threshold amount
    then (if not c.has_reason
        then (f, some needs_reason)
        else if c.dual_approval
        then (record f { approval_requests = f.approval_requests ++ (i ∷ []) }, none)
        else ((approve_refund c i true f).0, none))
    else if c.may_approve
    then approve_refund c i true f
    else (f, none)

unfoldable pub request_refund :
    RefundCall → ℕ → Bool → PaymentFile → PaymentFile × Option RefundError
unfolding follow_up
request_refund c amount reverse f =
    if not c.may_create
    then (f, some no_permission)
    else if not (is_refundable f.payment.status)
    then (f, some not_refundable)
    else if amount == 0 || ltb (f.payment.amount - f.payment.refunded_amount) amount
    then (f, some bad_amount)
    else follow_up c (length f.refunds) amount (
        record_entry (refund_requested amount)
          (record f { refunds = f.refunds ++ (new_refund c amount reverse f ∷ []) }))

-- `reject_held_payment`, with the rights of the analyst in `c`.
unfoldable pub reject_held_payment : RefundCall → PaymentFile → PaymentFile × Option RefundError
unfolding request_refund
reject_held_payment c f =
    let noted = record_entry hold_rejected f in
    if is_success f.payment.status && c.may_create
    then request_refund c f.payment.amount true noted
    else (noted, none)

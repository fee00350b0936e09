-- ===== src/Payments/Gateway/Order.antt =====
-- payments/service.py: a failure that is reported before a success, or after it.
use flexyvotes.Base.{
  ℕ, ◌≡◌, refl, ◌∙◌, sym, subst, ap, ◌⊎◌, inl, inr, Bool, true, false, ◌||◌, not, List, arith,
  is_some, Bool-cases,
}
use flexyvotes.Payments.Model.{
  PaymentStatus, success, failed, payment_abandoned, Source, PaymentFile, HistoryEntry,
}
use flexyvotes.Payments.Machine.{is_success, allowed_transition, transition}
use flexyvotes.Payments.Machine.Laws.{IsSound}
use flexyvotes.Payments.Gateway.{
  GatewayData, GatewayStatus, paid, declined, left_checkout, Risk, note_success, hold_if, deliver,
  settle_success, amounts_match, apply_status, apply_gateway_result,
}
use flexyvotes.Payments.Gateway.Results.{noted_rows}
use flexyvotes.Payments.Gateway.Again.{refused_again}
use flexyvotes.Payments.Gateway.Settled.{
  SameEffect, SameEffect-trans, takes_success, taken_transition, settle_taken, success_settles,
}

-- A failure or an abandoned checkout.
abbrev is_setback : PaymentStatus → Bool
is_setback failed = true
is_setback payment_abandoned = true
is_setback _ = false

abbrev moved_to : PaymentStatus → List HistoryEntry → PaymentFile → PaymentFile
moved_to st h f = record f { payment = record f.payment { status = st }; history = h }

-- A setback after the success, or where a success comes too late, has no effect.
late_setback :
    (to : PaymentStatus) (source : Source) (f : PaymentFile)
    → is_setback to ≡ true
    → is_success f.payment.status || not (takes_success f.payment.status) ≡ true
    → SameEffect f (transition to source f).0
unfolding transition
late_setback to source f h t = ground arith

setback_moves :
    (to : PaymentStatus) (source : Source) (f : PaymentFile)
    → is_setback to ≡ true
    → (transition to source f).0
        ≡ moved_to (transition to source f).0.payment.status (transition to source f).0.history f
      × takes_success (transition to source f).0.payment.status ≡ takes_success f.payment.status
unfolding transition
setback_moves to source f h = ground arith

taken_moves :
    (source : Source) (f : PaymentFile)
    → takes_success f.payment.status ≡ true
    → (transition success source f).0 ≡ moved_to success (transition success source f).0.history f
unfolding transition
taken_moves source f h = ground arith

deliver_history :
    (b : Bool) (now : ℕ) (risk : Risk) (h h' : List HistoryEntry) (f : PaymentFile)
    → SameEffect
        (deliver b now (hold_if b risk (moved_to success h f)))
        (deliver b now (hold_if b risk (moved_to success h' f)))
unfolding hold_if deliver
deliver_history b now risk h h' f = ground arith

SameEffect-sym : {f g : PaymentFile} → SameEffect f g → SameEffect g f
SameEffect-sym a = record {
  same_state = sym a.same_state;
  same_ledger = sym a.same_ledger;
  same_held = sym a.same_held;
  same_credit = sym a.same_credit;
  same_redemptions = sym a.same_redemptions;
  same_invoice = sym a.same_invoice;
}

-- The end of a successful result, from the rows that the transition leaves.
abbrev after_success : ℕ → GatewayData → Risk → PaymentFile → PaymentFile
after_success now d risk f =
    deliver (amounts_match d f.payment) now (hold_if (amounts_match d f.payment) risk f)

after_success_history :
    (now : ℕ) (d : GatewayData) (risk : Risk) (h h' : List HistoryEntry) (f : PaymentFile)
    → SameEffect
        (after_success now d risk (moved_to success h f))
        (after_success now d risk (moved_to success h' f))
unfolding amounts_match
after_success_history now d risk h h' f =
    deliver_history (amounts_match d f.payment) now risk h h' f

success_form :
    (now : ℕ) (source : Source) (d : GatewayData) (risk : Risk) (f : PaymentFile)
    → takes_success f.payment.status ≡ true
    → settle_success now d risk (transition success source f)
      ≡ after_success now d risk (moved_to success (transition success source f).0.history f)
success_form now source d risk f t =
    settle_taken now d risk (transition success source f) (taken_transition source f t).0
    ∙ ap (after_success now d risk) (taken_moves source f t)

moved_paid :
    (now : ℕ) (source : Source) (d : GatewayData) (risk : Risk) (st : PaymentStatus)
    (h : List HistoryEntry) (f : PaymentFile)
    → takes_success st ≡ true
    → takes_success f.payment.status ≡ true
    → SameEffect
        (apply_status paid now source d risk (moved_to st h f))
        (apply_status paid now source d risk f)
unfolding apply_status note_success
moved_paid now source d risk st h f t t' =
    rw
      (
        success_form now source d risk (noted_rows now d (moved_to st h f)) t,
        success_form now source d risk (noted_rows now d f) t',
      )
      (after_success_history now d risk
        (transition success source (noted_rows now d (moved_to st h f))).0.history
        (transition success source (noted_rows now d f)).0.history (noted_rows now d f))

or_left : (b c : Bool) → b ≡ true → b || c ≡ true
or_left b c h = rw h refl

or_not_right :
    (st : PaymentStatus) → takes_success st ≡ false → is_success st || not (takes_success st) ≡ true
unfolding allowed_transition
or_not_right st h = ground arith

setback_order :
    (to : PaymentStatus) (now : ℕ) (source source' : Source) (d : GatewayData) (risk : Risk)
    (f : PaymentFile)
    → is_setback to ≡ true
    → is_some f.ledger ≡ f.payment.votes_credited
    → SameEffect
        (apply_status paid now source d risk (transition to source' f).0)
        (transition to source' (apply_status paid now source d risk f)).0
unfolding apply_status note_success
setback_order to now source source' d risk f w o =
    let moved = setback_moves to source' f w in
    let g : PaymentFile = (transition to source' f).0 in
    let x : PaymentFile = apply_status paid now source d risk f in
    elim (Bool-cases (takes_success f.payment.status)) [
      | inl t ↦
          SameEffect-trans
            (subst (λ z. SameEffect (apply_status paid now source d risk z) x) (sym moved.0)
              (moved_paid now source d risk g.payment.status g.history f (moved.1 ∙ t) t))
            (late_setback to source' x w
              (or_left _ _ (success_settles now source d risk (noted_rows now d f) t o).is_final))
      | inr t ↦
          SameEffect-trans
            (SameEffect-sym (
              SameEffect-trans (late_setback to source' f w (or_not_right f.payment.status t))
                (refused_again now source d risk g (moved.1 ∙ t))))
            (SameEffect-trans (refused_again now source d risk f t) (
              late_setback to source' x w (
                or_not_right x.payment.status
                  (ap takes_success ((refused_again now source d risk f t).same_state) ∙ t))))
    ]

-- Two results that commute on `f`, by what the gateway reports.
abbrev Commute :
    ℕ
    → ℕ
    → Source
    → Source
    → GatewayData
    → GatewayData
    → Risk
    → Risk
    → PaymentFile
    → GatewayStatus
    → GatewayStatus
    → Type 0
Commute now now' source source' d d' risk risk' f g g' =
    SameEffect (apply_status g now source d risk (apply_status g' now' source' d' risk' f))
      (apply_status g' now' source' d' risk' (apply_status g now source d risk f))

Commute-setback :
    (now now' : ℕ) (source source' : Source) (d d' : GatewayData) (risk risk' : Risk)
    (f : PaymentFile) (g' : GatewayStatus)
    → is_some f.ledger ≡ f.payment.votes_credited
    → g' ≡ declined ⊎ g' ≡ left_checkout
    → Commute now now' source source' d d' risk risk' f paid g'
unfolding apply_status
Commute-setback now now' source source' d d' risk risk' f g' o (inl e) =
    subst (Commute now now' source source' d d' risk risk' f paid) (sym e)
      (setback_order failed now source source' d risk f refl o)
Commute-setback now now' source source' d d' risk risk' f g' o (inr e) =
    subst (Commute now now' source source' d d' risk risk' f paid) (sym e)
      (setback_order payment_abandoned now source source' d risk f refl o)

-- A success and a failure (or an abandoned checkout) that are reported for a payment with a sound
-- ledger leave the same status, ledger, hold, credit, redemptions and invoice in either order.
pub apply_gateway_result-order :
    (now now' : ℕ) (source source' : Source) (d d' : GatewayData) (risk risk' : Risk)
    (f : PaymentFile)
    → IsSound f
    → d.status ≡ paid
    → d'.status ≡ declined ⊎ d'.status ≡ left_checkout
    → SameEffect
        (apply_gateway_result now source d risk (apply_gateway_result now' source' d' risk' f))
        (apply_gateway_result now' source' d' risk' (apply_gateway_result now source d risk f))
unfolding apply_gateway_result
apply_gateway_result-order now now' source source' d d' risk risk' f s h e =
    subst (λ g. Commute now now' source source' d d' risk risk' f g d'.status) (sym h)
      (Commute-setback now now' source source' d d' risk risk' f d'.status s.once e)

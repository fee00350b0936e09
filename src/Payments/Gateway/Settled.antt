-- ===== src/Payments/Gateway/Settled.antt =====
-- payments/service.py: payments for which a successful result has nothing left to do.
use flexyvotes.Base.{
  ℕ, ◌≡◌, refl, ◌∙◌, sym, ap, Bool, true, false, ◌&&◌, ◌||◌, not, arith, if◌then◌else◌, is_some,
}
use flexyvotes.Payments.Model.{PaymentStatus, success, Source, PaymentFile}
use flexyvotes.Payments.Machine.{is_success, allowed_transition, transition}
use flexyvotes.Payments.Gateway.{
  GatewayData, Risk, is_vote, hold_if, deliver, settle_success, amounts_match,
}

-- Two states that differ at most in what was noted along the way.
pub record SameEffect (f g : PaymentFile) : Type 0 where
  pub same_state : g.payment.status ≡ f.payment.status
  pub same_ledger : g.ledger ≡ f.ledger
  pub same_held : g.payment.held ≡ f.payment.held
  pub same_credit : g.payment.votes_credited ≡ f.payment.votes_credited
  pub same_redemptions : g.redemptions ≡ f.redemptions
  pub same_invoice : g.invoice_paid ≡ f.invoice_paid

-- Nothing is left to do for a successful result.
pub record IsSettled (b : Bool) (f : PaymentFile) : Type 0 where
  pub is_final : is_success f.payment.status ≡ true
  pub holds_mismatch : b ≡ false → f.payment.held ≡ true
  pub credits :
      is_vote f.payment.purpose ≡ true → f.payment.held ≡ false → f.payment.votes_credited ≡ true
  pub pays : is_vote f.payment.purpose ≡ false → f.has_invoice && b ≡ true → f.invoice_paid ≡ true

hold_if_facts :
    (b : Bool) (risk : Risk) (f : PaymentFile)
    → (hold_if b risk f).payment.status ≡ f.payment.status
      × (hold_if b risk f).payment.votes_credited ≡ f.payment.votes_credited
      × (hold_if b risk f).ledger ≡ f.ledger
      × (b ≡ false → (hold_if b risk f).payment.held ≡ true)
unfolding hold_if
hold_if_facts b risk f = ground arith

deliver_settles :
    (b : Bool) (now : ℕ) (f : PaymentFile)
    → is_success f.payment.status ≡ true
    → is_some f.ledger ≡ f.payment.votes_credited
    → (b ≡ false → f.payment.held ≡ true)
    → IsSettled b (deliver b now f)
unfolding deliver
deliver_settles b now f s o h = ground arith

pub settled_stays :
    (b : Bool) (now : ℕ) (risk : Risk) (f : PaymentFile)
    → IsSettled b f
    → SameEffect f (deliver b now (hold_if b risk f))
unfolding hold_if deliver
settled_stays b now risk f s = ground arith

pub SameEffect-trans : {f g h : PaymentFile} → SameEffect f g → SameEffect g h → SameEffect f h
SameEffect-trans a b = record {
  same_state = b.same_state ∙ a.same_state;
  same_ledger = b.same_ledger ∙ a.same_ledger;
  same_held = b.same_held ∙ a.same_held;
  same_credit = b.same_credit ∙ a.same_credit;
  same_redemptions = b.same_redemptions ∙ a.same_redemptions;
  same_invoice = b.same_invoice ∙ a.same_invoice;
}

-- The states that a successful result moves on from, or stays in.
abbrev pub takes_success : PaymentStatus → Bool
takes_success st = is_success st || allowed_transition st success

if_else : {A : Type 0} (x y : A) (b : Bool) → b ≡ false → (if b then x else y) ≡ y
if_else x y b h = rw h refl

pub taken_transition :
    (source : Source) (f : PaymentFile)
    → takes_success f.payment.status ≡ true
    → not (transition success source f).1
          && not (is_success (transition success source f).0.payment.status)
        ≡ false
      × is_success (transition success source f).0.payment.status ≡ true
      × (transition success source f).0.ledger ≡ f.ledger
      × (transition success source f).0.payment.votes_credited ≡ f.payment.votes_credited
unfolding transition
taken_transition source f h = ground arith

pub refused_transition :
    (source : Source) (f : PaymentFile)
    → takes_success f.payment.status ≡ false
    → not (transition success source f).1
          && not (is_success (transition success source f).0.payment.status)
        ≡ true
      × SameEffect f (transition success source f).0
unfolding transition
refused_transition source f h = ground arith

pub success_stays :
    (source : Source) (f : PaymentFile)
    → is_success f.payment.status ≡ true
    → transition success source f ≡ (f, false)
unfolding transition
success_stays source f h = ground arith

pub settle_taken :
    (now : ℕ) (d : GatewayData) (risk : Risk) (r : PaymentFile × Bool)
    → not r.1 && not (is_success r.0.payment.status) ≡ false
    → settle_success now d risk r
      ≡ deliver (amounts_match d r.0.payment) now (hold_if (amounts_match d r.0.payment) risk r.0)
unfolding settle_success
settle_taken now d risk (f, changed) h = rw h refl

pub settle_refused :
    (now : ℕ) (d : GatewayData) (risk : Risk) (r : PaymentFile × Bool)
    → not r.1 && not (is_success r.0.payment.status) ≡ true
    → settle_success now d risk r ≡ r.0
unfolding settle_success
settle_refused now d risk (f, changed) h = rw h refl

pub deliver_amounts :
    (b : Bool) (now : ℕ) (d : GatewayData) (f : PaymentFile)
    → amounts_match d (deliver b now f).payment ≡ amounts_match d f.payment
unfolding deliver amounts_match
deliver_amounts b now d f = ground arith

pub hold_if_amounts :
    (b : Bool) (risk : Risk) (d : GatewayData) (f : PaymentFile)
    → amounts_match d (hold_if b risk f).payment ≡ amounts_match d f.payment
unfolding hold_if amounts_match
hold_if_amounts b risk d f = ground arith

settle_settles :
    (now : ℕ) (d : GatewayData) (risk : Risk) (f : PaymentFile)
    → is_success f.payment.status ≡ true
    → is_some f.ledger ≡ f.payment.votes_credited
    → IsSettled
        (amounts_match d f.payment)
        (deliver (amounts_match d f.payment) now (hold_if (amounts_match d f.payment) risk f))
settle_settles now d risk f s o =
    let b : Bool = amounts_match d f.payment in
    let facts = hold_if_facts b risk f in
    deliver_settles b now (hold_if b risk f) (ap is_success facts.0 ∙ s)
      (ap is_some facts.2 ∙ o ∙ sym facts.1) facts.3

pub success_settles :
    (now : ℕ) (source : Source) (d : GatewayData) (risk : Risk) (f : PaymentFile)
    → takes_success f.payment.status ≡ true
    → is_some f.ledger ≡ f.payment.votes_credited
    → IsSettled
        (amounts_match d (settle_success now d risk (transition success source f)).payment)
        (settle_success now d risk (transition success source f))
success_settles now source d risk f t o =
    let facts = taken_transition source f t in
    let g : PaymentFile = (transition success source f).0 in
    let b : Bool = amounts_match d g.payment in
    let held : PaymentFile = hold_if b risk g in
    rw
      (
        settle_taken now d risk (transition success source f) facts.0,
        deliver_amounts b now d held,
        hold_if_amounts b risk d g,
      )
      (settle_settles now d risk g facts.1 (ap is_some facts.2 ∙ o ∙ sym facts.3))

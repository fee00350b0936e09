-- ===== src/Payments/Gateway.antt =====
-- payments/service.py: what the gateway reports is applied to a payment, and the review of a payment
-- that is held.
pub mod Laws
pub mod Confirmed
pub mod Results
pub mod Again
pub mod Settled
pub mod Order
use flexyvotes.Base.{
  ℕ, ◌+◌, max, Bool, true, false, ◌&&◌, ◌||◌, not, Option, none, some, List, [], ◌∷◌, ◌++◌, leb,
  ◌==◌, if◌then◌else◌,
}
use flexyvotes.Payments.Model.{
  PaymentStatus, pending, success, failed, payment_abandoned, reversed_payment, Purpose,
  vote_purchase, invoice_payment, Source, Payment, PaymentFile, hold_released,
}
use flexyvotes.Payments.Machine.{is_success, record_entry, transition, credit_votes, reverse_votes}

-- `(data.get('status') or '').lower()`
pub data GatewayStatus : Type 0 where
  paid declined left_checkout taken_back other_status : GatewayStatus

-- `data`, from Paystack: the amount in hundredths, the currency in upper case, `none` for a key that
-- is missing, and `status_text` for the text of the status.
pub record GatewayData : Type 0 where
  pub status : GatewayStatus
  pub status_text : ℕ
  pub amount : ℕ
  pub currency : Option ℕ
  pub channel : Option ℕ
  pub signature : ℕ
  pub country : ℕ
  pub id : ℕ
  pub fees : Option ℕ
  pub paid_at : Option ℕ

-- What `assess` of fraud/engine.py says of the payment.
pub record Risk : Type 0 where
  pub score : ℕ
  pub decision : ℕ
  pub is_held : Bool

abbrev pub is_vote : Purpose → Bool
is_vote vote_purchase = true
is_vote invoice_payment = false

abbrev pub or_old {ℓ} : {A : Type ℓ} → Option A → A → A
or_old none old = old
or_old (some a) old = a

-- `x or 0`
abbrev pub or_zero : Option ℕ → ℕ
or_zero none = 0
or_zero (some n) = n

-- The fields that a successful result fills in.
unfoldable pub note_success : ℕ → GatewayData → Payment → Payment
note_success now d p = record p {
  channel = or_old d.channel p.channel;
  card_signature = d.signature;
  card_country = d.country;
  gateway_id = d.id;
  fees = elim d.fees [ none ↦ p.fees | some n ↦ some n ];
  gateway_paid_at = d.paid_at;
  verified_at = some now;
}

-- `amount_ok and currency_ok`
unfoldable pub amounts_match : GatewayData → Payment → Bool
amounts_match d p = d.amount == p.amount && or_old d.currency p.currency == p.currency

-- The fields that the assessment fills in.
unfoldable pub note_risk : Risk → Payment → Payment
note_risk risk p =
    let top = max (or_zero p.risk_score) risk.score in
    record p {
      risk_score = some top;
      risk_decision = if leb top risk.score then risk.decision else p.risk_decision;
      held = risk.is_held || p.held;
    }

-- The `if`s that may hold the payment.
unfoldable pub hold_if : Bool → Risk → PaymentFile → PaymentFile
unfolding note_risk
hold_if matching risk f =
    if not matching
    then record f { payment = record f.payment { held = true }; fraud_events = f.fraud_events + 1 }
    else if is_vote f.payment.purpose && (not f.payment.held && not f.payment.votes_credited)
    then record f { payment = note_risk risk f.payment }
    else f

-- The end of a successful result. `mark_invoice_paid` of billing/service.py leaves a paid invoice.
unfoldable pub deliver : Bool → ℕ → PaymentFile → PaymentFile
unfolding credit_votes
deliver matching now f =
    if is_vote f.payment.purpose && not f.payment.held
    then (credit_votes now f).0
    else if not (is_vote f.payment.purpose) && (f.has_invoice && matching)
    then record f { invoice_paid = true }
    else f

-- A successful result, after the fields are noted and the transition is tried.
unfoldable pub settle_success : ℕ → GatewayData → Risk → PaymentFile × Bool → PaymentFile
unfolding hold_if deliver amounts_match
settle_success now d risk (f, changed) =
    if not changed && not (is_success f.payment.status)
    then f
    else deliver (amounts_match d f.payment) now (hold_if (amounts_match d f.payment) risk f)

-- A reversal by the gateway, after the transition is tried.
unfoldable pub settle_reversal : PaymentFile × Bool → PaymentFile
unfolding reverse_votes
settle_reversal (f, changed) = if changed then (reverse_votes f).0 else f

-- `payment.gateway_status`, which only two of the branches save.
abbrev pub with_gateway_status : GatewayData → PaymentFile → PaymentFile
with_gateway_status d f = record f { payment = record f.payment { gateway_status = d.status_text } }

-- The branches of `apply_gateway_result`, by the gateway's status.
unfoldable pub apply_status :
    GatewayStatus → ℕ → Source → GatewayData → Risk → PaymentFile → PaymentFile
unfolding transition note_success settle_success settle_reversal
apply_status paid now source d risk f =
    let noted = record (with_gateway_status d f) {
      payment = note_success now d (with_gateway_status d f).payment;
    } in
    settle_success now d risk (transition success source noted)
apply_status declined now source d risk f = (transition failed source f).0
apply_status left_checkout now source d risk f = (transition payment_abandoned source f).0
apply_status taken_back now source d risk f = settle_reversal (transition reversed_payment source f)
apply_status other_status now source d risk f =
    (transition pending source (with_gateway_status d f)).0

-- `apply_gateway_result` on the rows of the payment, with what `assess` would say.
unfoldable pub apply_gateway_result : ℕ → Source → GatewayData → Risk → PaymentFile → PaymentFile
unfolding apply_status
apply_gateway_result now source d risk f = apply_status d.status now source d risk f

-- `release_held_payment`
unfoldable pub release_held_payment : ℕ → PaymentFile → PaymentFile
unfolding credit_votes
release_held_payment now f =
    (credit_votes now
      (record_entry hold_released (record f { payment = record f.payment { held = false } }))).0

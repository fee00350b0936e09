-- ===== src/Payments/Checkout.antt =====
-- payments/service.py: a checkout makes the payment and asks the gateway for its page. Calls are taken
-- one at a time, so that the IntegrityError of two calls with one key at once does not arise.
pub mod Laws
mod Tests
use flexyvotes.Base.{
  ℕ, ◌+◌, Bool, true, false, ◌&&◌, ◌||◌, not, Option, none, some, is_some, List, [], ◌∷◌, ◌++◌,
  ◌==◌, if◌then◌else◌,
}
use flexyvotes.Payments.Model.{
  pending, failed, initialized, init, vote_purchase, Payment, PaymentFile, payment_created,
}
use flexyvotes.Payments.Machine.{transition}
use flexyvotes.Payments.Gateway.{Risk}
use flexyvotes.Payments.Pricing.{PaidEvent, Contestant, QuoteError, Quote}
use flexyvotes.Payments.Pricing.Limits.{Payer, is_known, same_index, Purchase, Tables, quote}

-- A call: the settings of the provider, the key, the purchase, what the risk engine and the challenge
-- say, and the gateway's answer. `reference` is the new reference.
pub record CheckoutCall : Type 0 where
  pub configured : Bool
  pub idempotency_key : Option ℕ
  pub reference : ℕ
  pub event : PaidEvent
  pub contestant : Contestant
  pub payer : Payer
  pub purchase : Purchase
  pub channel_hint : ℕ
  pub risk : Risk
  pub challenged : Bool
  pub has_captcha : Bool
  pub captcha_passed : Bool
  pub gateway_accepts : Bool

-- A payment with the columns that stay as the checkout wrote them.
pub record CheckoutRow : Type 0 where
  pub idempotency_key : Option ℕ
  pub event : ℕ
  pub contestant : ℕ
  pub file : PaymentFile

pub data CheckoutError : Type 0 where
  unavailable idempotency_conflict no_contact challenge gateway_error : CheckoutError
  quoted : QuoteError → CheckoutError

pub data CheckoutAnswer : Type 0 where
  checked_out : CheckoutRow → CheckoutAnswer
  refused : CheckoutError → CheckoutAnswer

-- `Payment.objects.filter(idempotency_key=…).first()`
unfoldable pub row_with_key : Option ℕ → List CheckoutRow → Option CheckoutRow
unfolding same_index
row_with_key key [] = none
row_with_key key (r ∷ rs) =
    let rest = row_with_key key rs in if same_index key r.idempotency_key then some r else rest

-- The new payment.
unfoldable pub new_payment : CheckoutCall → Quote → Payment
new_payment c q = record {
  reference = c.reference;
  purpose = vote_purchase;
  candidate = c.contestant.id;
  votes = q.votes;
  bonus_votes = q.bonus_votes;
  amount = q.amount;
  currency = c.event.currency;
  has_discount = is_some q.discount_code;
  status = initialized;
  gateway_status = 0;
  gateway_id = 0;
  channel = c.channel_hint;
  card_signature = 0;
  card_country = 0;
  fees = none;
  gateway_paid_at = none;
  risk_score = some c.risk.score;
  risk_decision = c.risk.decision;
  held = c.risk.is_held;
  verified_at = none;
  credited_at = none;
  votes_credited = false;
  refunded_amount = 0;
}

unfoldable pub new_file : CheckoutCall → Quote → PaymentFile
unfolding new_payment
new_file c q = record {
  payment = new_payment c q;
  ledger = none;
  history = payment_created ∷ [];
  refunds = [];
  redemptions = 0;
  fraud_events = 0;
  approval_requests = [];
  has_invoice = false;
  invoice_paid = false;
}

-- The row, after the call of the gateway.
unfoldable pub new_row : CheckoutCall → Quote → CheckoutRow
unfolding new_file transition
new_row c q = record {
  idempotency_key = c.idempotency_key;
  event = c.event.event.id;
  contestant = c.contestant.id;
  file = (transition (if c.gateway_accepts then pending else failed) init (new_file c q)).0;
}

-- A checkout for a quote, from the test of its errors on.
unfoldable pub open_checkout :
    CheckoutCall → Quote → List QuoteError → List CheckoutRow → List CheckoutRow × CheckoutAnswer
unfolding new_row
open_checkout c q (e ∷ es) rows = (rows, refused (quoted e))
open_checkout c q [] rows =
    if not (is_known c.payer.email || is_known c.payer.phone)
    then (rows, refused no_contact)
    else if c.challenged && (c.has_captcha && not c.captcha_passed)
    then (rows, refused challenge)
    else (
      rows ++ (new_row c q ∷ []),
      if c.gateway_accepts then checked_out (new_row c q) else refused gateway_error,
    )

-- A payment that has the key already, or a new one.
unfoldable pub resume_checkout :
    CheckoutCall → Quote → Option CheckoutRow → List CheckoutRow → List CheckoutRow × CheckoutAnswer
unfolding open_checkout
resume_checkout c q none rows = open_checkout c q q.errors rows
resume_checkout c q (some r) rows =
    if not (r.event == c.event.event.id) || not (r.contestant == c.contestant.id)
    then (rows, refused idempotency_conflict)
    else (rows, checked_out r)

-- `initiate_vote_payment`
unfoldable pub initiate_vote_payment :
    ℕ → Tables → CheckoutCall → List CheckoutRow → List CheckoutRow × CheckoutAnswer
unfolding resume_checkout quote row_with_key
initiate_vote_payment now tables c rows =
    if not c.configured
    then (rows, refused unavailable)
    else resume_checkout c (quote c.event c.contestant now c.payer tables c.purchase)
        (row_with_key c.idempotency_key rows) rows

-- ===== src/Payments/Gateway/Results.antt =====
-- payments/service.py: what a result of the gateway does, and in which order results may come.
use flexyvotes.Base.{
  ℕ, ◌+◌, ◌≡◌, ◌≢◌, refl, ap, ◌∙◌, ◌⊎◌, inl, inr, Bool, true, false, ◌&&◌, not, Option, none, some,
  ◌==◌, ne→==, arith,
}
use flexyvotes.Payments.Model.{PaymentStatus, success, Source, Payment, PaymentFile}
use flexyvotes.Payments.Machine.{is_success, transition}
use flexyvotes.Payments.Gateway.{
  GatewayData, paid, Risk, note_success, or_old, hold_if, deliver, settle_success, amounts_match,
  with_gateway_status, apply_gateway_result,
}

-- The rows as `transition` gets them when a result is successful.
abbrev pub noted_rows : ℕ → GatewayData → PaymentFile → PaymentFile
noted_rows now d f = record (with_gateway_status d f) {
  payment = note_success now d (with_gateway_status d f).payment;
}

-- The payment keeps what a result must not change, and the ledger and the invoice stay as they are.
abbrev IsHeldBack : PaymentFile → PaymentFile → Type 0
IsHeldBack f f' =
    f'.ledger ≡ f.ledger
    × f'.invoice_paid ≡ f.invoice_paid
    × is_success f'.payment.status && not f'.payment.held ≡ false

deliver_held : (now : ℕ) (f : PaymentFile) → f.payment.held ≡ true → deliver false now f ≡ f
unfolding deliver
deliver_held now f h = ground arith

hold_if-false :
    (risk : Risk) (f : PaymentFile)
    → hold_if false risk f
      ≡ record f { payment = record f.payment { held = true }; fraud_events = f.fraud_events + 1 }
unfolding hold_if
hold_if-false risk f = refl

settle_success_mismatch :
    (now : ℕ) (d : GatewayData) (risk : Risk) (f : PaymentFile) (changed : Bool)
    → amounts_match d f.payment ≡ false
    → IsHeldBack f (settle_success now d risk (f, changed))
unfolding settle_success
settle_success_mismatch now d risk f changed m =
    rw
      (
        m,
        hold_if-false risk f,
        deliver_held now
            (record f {
              payment = record f.payment { held = true };
              fraud_events = f.fraud_events + 1;
            })
            refl,
      )
      ground arith

pub transition_aside :
    (to : PaymentStatus) (source : Source) (d : GatewayData) (f : PaymentFile)
    → (transition to source f).0.ledger ≡ f.ledger
      × (transition to source f).0.invoice_paid ≡ f.invoice_paid
      × amounts_match d (transition to source f).0.payment ≡ amounts_match d f.payment
unfolding transition amounts_match
transition_aside to source d f = ground arith

pub amounts_match_noted :
    (now : ℕ) (d : GatewayData) (f : PaymentFile)
    → amounts_match d (noted_rows now d f).payment ≡ amounts_match d f.payment
unfolding amounts_match note_success
amounts_match_noted now d f = refl

-- The gateway reports another amount, or a currency that is another one.
abbrev pub IsMismatch : GatewayData → Payment → Type 0
IsMismatch d p = d.amount ≢ p.amount ⊎ (d.currency ≢ none × d.currency ≢ some p.currency)

other_currency :
    (reported : Option ℕ) (expected : ℕ)
    → reported ≢ none
    → reported ≢ some expected
    → or_old reported expected == expected ≡ false
other_currency none expected h k = absurd (h refl)
other_currency (some c) expected h k = ne→== c expected (λ e. k (ap some e))

amounts_match_mismatch :
    (d : GatewayData) (p : Payment) → IsMismatch d p → amounts_match d p ≡ false
unfolding amounts_match
amounts_match_mismatch d p (inl h) = rw (ne→== d.amount p.amount h) refl
amounts_match_mismatch d p (inr h) =
    rw (other_currency d.currency p.currency h.0 h.1) (and_false (d.amount == p.amount))
  where
    and_false : (b : Bool) → b && false ≡ false
    and_false b = ground arith

-- A successful result with another amount or another currency than the payment credits no votes and
-- pays no invoice, and a payment that is successful afterwards is held for review.
pub apply_gateway_result-mismatch :
    (now : ℕ) (source : Source) (d : GatewayData) (risk : Risk) (f : PaymentFile)
    → d.status ≡ paid
    → IsMismatch d f.payment
    → (apply_gateway_result now source d risk f).ledger ≡ f.ledger
      × (apply_gateway_result now source d risk f).invoice_paid ≡ f.invoice_paid
      × is_success (apply_gateway_result now source d risk f).payment.status
          && not (apply_gateway_result now source d risk f).payment.held
        ≡ false
unfolding apply_gateway_result
apply_gateway_result-mismatch now source d risk f h m = rw h (
    held_back (transition success source (noted_rows now d f))
      (transition_aside success source d (noted_rows now d f)))
  where
    held_back :
        (r : PaymentFile × Bool)
        → r.0.ledger ≡ f.ledger
          × r.0.invoice_paid ≡ f.invoice_paid
          × amounts_match d r.0.payment ≡ amounts_match d (noted_rows now d f).payment
        → IsHeldBack f (settle_success now d risk r)
    held_back (g, changed) (l, i, a) =
        let b =
          settle_success_mismatch now d risk g changed
            (a ∙ amounts_match_noted now d f ∙ amounts_match_mismatch d f.payment m) in
        (b.0 ∙ l, b.1 ∙ i, b.2)

-- ===== src/Payments/Webhooks/Confirmed.antt =====
-- payments/service.py: webhooks lead from confirmed payments to confirmed ones, but for a dispute that is
-- resolved in favour of the merchant.
use flexyvotes.Base.{ℕ, ◌≡◌, refl, Bool, true, false, ◌&&◌, not, Option, none, some, is_some, arith}
use flexyvotes.Payments.Model.{PaymentFile, Refund, reversed_payment, disputed, webhook}
use flexyvotes.Payments.Machine.{transition}
use flexyvotes.Payments.Machine.Confirmed.{
  Confirms, Confirms-if, transition-Confirms, transition-verified, reverse_votes-Confirms,
}
use flexyvotes.Payments.Gateway.{declined, Risk}
use flexyvotes.Payments.Gateway.Confirmed.{apply_gateway_result-Confirms}
use flexyvotes.Payments.Refunds.Confirmed.{complete_refund-Confirms}
use flexyvotes.Payments.Webhooks.{
  WebhookType, charge_success, charge_failed, refund_processed, refund_failed, refund_other,
  dispute_created, dispute_resolved, dispute_other, other_type, last_open, RefundNews,
  news_processed, news_failed, news_other, refund_news, open_dispute, dispatch_webhook,
}

-- A dispute that the merchant wins over a payment that was never confirmed.
abbrev pub wins_unconfirmed : WebhookType → PaymentFile → Bool
wins_unconfirmed (dispute_resolved favours_merchant) f =
    favours_merchant && not (is_some f.payment.verified_at)
wins_unconfirmed _ f = false

refund_news-Confirms :
    (n : RefundNews) (r : Option Refund) (f : PaymentFile) → Confirms f (refund_news n r f).0
unfolding refund_news
refund_news-Confirms n none f = λ c. c
refund_news-Confirms news_processed (some r) f = complete_refund-Confirms r.id f
refund_news-Confirms news_failed (some r) f = λ c. c
refund_news-Confirms news_other (some r) f = λ c. c

open_dispute-Confirms : (r : PaymentFile × Bool) → Confirms r.0 (open_dispute r)
unfolding open_dispute
open_dispute-Confirms (f, changed) = Confirms-if changed f _ _ (reverse_votes-Confirms f) (λ c. c)

pub dispatch_webhook-Confirms :
    (now : ℕ) (risk : Risk) (t : WebhookType) (f : PaymentFile)
    → wins_unconfirmed t f ≡ false
    → Confirms f (dispatch_webhook now risk t f).0
unfolding dispatch_webhook
dispatch_webhook-Confirms now risk (charge_success d) f w =
    apply_gateway_result-Confirms now webhook d risk f
dispatch_webhook-Confirms now risk (charge_failed d) f w =
    apply_gateway_result-Confirms now webhook (record d { status = declined }) risk f
dispatch_webhook-Confirms now risk refund_processed f w =
    refund_news-Confirms news_processed (last_open f.refunds) f
dispatch_webhook-Confirms now risk refund_failed f w =
    refund_news-Confirms news_failed (last_open f.refunds) f
dispatch_webhook-Confirms now risk refund_other f w =
    refund_news-Confirms news_other (last_open f.refunds) f
dispatch_webhook-Confirms now risk dispute_created f w = λ c.
    open_dispute-Confirms (transition disputed webhook f)
      (transition-Confirms disputed webhook f refl c)
dispatch_webhook-Confirms now risk (dispute_resolved true) f w =
    λ c. transition-verified webhook f (ground arith)
dispatch_webhook-Confirms now risk (dispute_resolved false) f w =
    transition-Confirms reversed_payment webhook f refl
dispatch_webhook-Confirms now risk dispute_other f w = λ c. c
dispatch_webhook-Confirms now risk other_type f w = λ c. c

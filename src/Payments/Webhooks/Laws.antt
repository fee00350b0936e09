-- ===== src/Payments/Webhooks/Laws.antt =====
-- payments/service.py: webhooks, against the contract of paid voting.
use flexyvotes.Base.{◌≡◌, ℕ, refl, Bool, true, false, Option, none, some}
use flexyvotes.Payments.Model.{
  failed_refund, refund_failed_entry, success, disputed, reversed_payment, webhook, PaymentFile,
  Refund, refund_update,
}
use flexyvotes.Payments.Machine.{transition}
use flexyvotes.Payments.Machine.Laws.{
  Advances, Advances-aside, Advances-refl, Advances-trans, Advances-if, transition-Advances,
  reverse_votes-Advances, record_entry-Advances,
}
use flexyvotes.Payments.Gateway.{declined, Risk}
use flexyvotes.Payments.Gateway.Laws.{apply_gateway_result-Advances}
use flexyvotes.Payments.Refunds.Laws.{complete_refund-Advances, unprocessed-Advances}
use flexyvotes.Payments.Refunds.{set_refund_status}
use flexyvotes.Payments.Webhooks.Open.{last_open-found}
use flexyvotes.Payments.Webhooks.{
  WebhookType, charge_success, charge_failed, refund_processed, refund_failed, refund_other,
  dispute_created, dispute_resolved, dispute_other, other_type, last_open, RefundNews,
  news_processed, news_failed, news_other, refund_news, open_dispute, dispatch_webhook,
}

failed_refund-Advances :
    (r : Refund) (f : PaymentFile)
    → last_open f.refunds ≡ some r
    → Advances f (set_refund_status r.id failed_refund f)
failed_refund-Advances r f e =
    Advances-aside f (set_refund_status r.id failed_refund f)
      (λ s.
        let known = last_open-found 0 f.refunds r s.numbered e in
        (unprocessed-Advances r.id (λ q. record q { status = failed_refund }) r f (λ q. refl)
            known.0 known.1 refl).sound
          s)
      refl refl

refund_news-Advances :
    (n : RefundNews) (r : Option Refund) (f : PaymentFile)
    → last_open f.refunds ≡ r
    → Advances f (refund_news n r f).0
unfolding refund_news
refund_news-Advances n none f e = Advances-refl f
refund_news-Advances news_processed (some r) f e = complete_refund-Advances r.id f
refund_news-Advances news_failed (some r) f e =
    Advances-trans f (set_refund_status r.id failed_refund f) _ (failed_refund-Advances r f e)
      (record_entry-Advances refund_failed_entry (set_refund_status r.id failed_refund f))
refund_news-Advances news_other (some r) f e = record_entry-Advances refund_update f

open_dispute-Advances : (r : PaymentFile × Bool) → Advances r.0 (open_dispute r)
unfolding open_dispute
open_dispute-Advances (f, changed) =
    Advances-if changed f _ _ (reverse_votes-Advances f) (Advances-refl f)

pub dispatch_webhook-Advances :
    (now : ℕ) (risk : Risk) (t : WebhookType) (f : PaymentFile)
    → Advances f (dispatch_webhook now risk t f).0
unfolding dispatch_webhook
dispatch_webhook-Advances now risk (charge_success d) f =
    apply_gateway_result-Advances now webhook d risk f
dispatch_webhook-Advances now risk (charge_failed d) f =
    apply_gateway_result-Advances now webhook (record d { status = declined }) risk f
dispatch_webhook-Advances now risk refund_processed f =
    refund_news-Advances news_processed (last_open f.refunds) f refl
dispatch_webhook-Advances now risk refund_failed f =
    refund_news-Advances news_failed (last_open f.refunds) f refl
dispatch_webhook-Advances now risk refund_other f =
    refund_news-Advances news_other (last_open f.refunds) f refl
dispatch_webhook-Advances now risk dispute_created f =
    Advances-trans f (transition disputed webhook f).0 _ (transition-Advances disputed webhook f)
      (open_dispute-Advances (transition disputed webhook f))
dispatch_webhook-Advances now risk (dispute_resolved true) f = transition-Advances success webhook f
dispatch_webhook-Advances now risk (dispute_resolved false) f =
    transition-Advances reversed_payment webhook f
dispatch_webhook-Advances now risk dispute_other f = Advances-refl f
dispatch_webhook-Advances now risk other_type f = Advances-refl f

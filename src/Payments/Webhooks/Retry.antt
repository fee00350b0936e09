-- ===== src/Payments/Webhooks/Retry.antt =====
-- payments/service.py: `handle_webhook`, on webhooks whose handling raises, and that come again.
use flexyvotes.Base.{
  ℕ, ◌+◌, ◌≡◌, refl, ◌∙◌, ap, true, false, not, Option, none, some, is_some, if_intro, List, [],
  ◌∷◌, arith,
}
use flexyvotes.Payments.Model.{PaymentFile}
use flexyvotes.Payments.Gateway.{Risk}
use flexyvotes.Payments.Webhooks.{
  WebhookType, dispatch_webhook, failed_event, WebhookEvent, Inbox, Arrival, Outcome, done_failed,
  http_status, is_done, find_event, mark_event, process_webhook, receive, parse_webhook,
  handle_webhook,
}
use flexyvotes.Payments.Webhooks.Replay.{is_applied, done_event, found_append, found_update}

-- A call that fails: the rows are as the raise left them, and the event's row is there, not marked as
-- done.
abbrev HasFailed : ℕ → Option PaymentFile → Inbox × Outcome → Type 0
HasFailed h raises r =
    raises ≡ some r.0.file
    × is_some (find_event h r.0.events) ≡ true
    × done_event (find_event h r.0.events) ≡ false

-- The same under the hypothesis that the call fails.
abbrev IfFailed : ℕ → Option PaymentFile → Inbox × Outcome → Type 0
IfFailed h raises r = r.1 ≡ done_failed → HasFailed h raises r

failed_update :
    (now h : ℕ) (es : List WebhookEvent)
    → done_event (find_event h (mark_event now h failed_event es)) ≡ false
failed_update now h [] = refl
failed_update now h (e ∷ es) = ground (arith, failed_update now h es)

process-IfFailed :
    (now : ℕ) (risk : Risk) (h : ℕ) (b : Option PaymentFile) (t : WebhookType) (box : Inbox)
    → is_some (find_event h box.events) ≡ true
    → IfFailed h b (process_webhook now risk h b t box)
unfolding process_webhook
process-IfFailed now risk h (some rows) t box s = λ r. (
  refl,
  found_update h (λ e. record e { status = failed_event; processed_at = some now }) box.events
        (λ e. refl)
      ∙ s,
  failed_update now h box.events,
)
process-IfFailed now risk h none t box s =
    if_intro (IfFailed h none) (dispatch_webhook now risk t box.file).1 _ _ (λ i r. cc) (λ i r. cc)

receive-IfFailed :
    (now : ℕ) (risk : Risk) (h : ℕ) (b : Option PaymentFile) (t : WebhookType) (box : Inbox)
    (e : Option WebhookEvent)
    → find_event h box.events ≡ e
    → IfFailed h b (receive now risk h b t e box)
unfolding receive
receive-IfFailed now risk h b t box none q =
    process-IfFailed now risk h b t _ (found_append h _ box.events refl)
receive-IfFailed now risk h b t box (some e) q =
    if_intro (IfFailed h b) (is_done e.status) _ _ (λ d r. cc)
      (λ d. process-IfFailed now risk h b t _ (
        found_update h (λ x. record x { attempts = x.attempts + 1 }) box.events (λ x. refl)
        ∙ ap is_some q))

parse-IfFailed :
    (now : ℕ) (risk : Risk) (h : ℕ) (b : Option PaymentFile) (t : Option WebhookType) (box : Inbox)
    → IfFailed h b (parse_webhook now risk h b t box)
unfolding parse_webhook
parse-IfFailed now risk h b none box = λ r. cc
parse-IfFailed now risk h b (some t) box =
    receive-IfFailed now risk h b t box (find_event h box.events) refl

handle-IfFailed :
    (now : ℕ) (risk : Risk) (a : Arrival) (box : Inbox)
    → IfFailed a.payload_hash a.raises (handle_webhook now risk a box)
unfolding handle_webhook
handle-IfFailed now risk a box =
    if_intro (IfFailed a.payload_hash a.raises) (not a.signed) _ _ (λ s r. cc)
      (λ s. parse-IfFailed now risk a.payload_hash a.raises a.body box)

-- A call that handles the webhook on the rows `f`, with an answer that it need not come again.
abbrev IsHandled : ℕ → Risk → WebhookType → PaymentFile → Inbox × Outcome → Type 0
IsHandled now risk t f r =
    is_applied r.1 ≡ true × http_status r.1 ≡ 200 × r.0.file ≡ (dispatch_webhook now risk t f).0

process-IsHandled :
    (now : ℕ) (risk : Risk) (h : ℕ) (t : WebhookType) (box : Inbox)
    → IsHandled now risk t box.file (process_webhook now risk h none t box)
unfolding process_webhook http_status
process-IsHandled now risk h t box =
    if_intro (IsHandled now risk t box.file) (dispatch_webhook now risk t box.file).1 _ _
      (λ i. (refl, refl, refl)) (λ i. (refl, refl, refl))

handle-IsHandled :
    (now : ℕ) (risk : Risk) (a : Arrival) (t : WebhookType) (box : Inbox)
    → a.signed ≡ true
    → a.body ≡ some t
    → a.raises ≡ none
    → (e : Option WebhookEvent) → find_event a.payload_hash box.events ≡ e
    → is_some e ≡ true
    → done_event e ≡ false
    → IsHandled now risk t box.file (handle_webhook now risk a box)
unfolding handle_webhook parse_webhook receive
handle-IsHandled now risk a t box s b n none q i d = cc
handle-IsHandled now risk a t box s b n (some e) q i d =
    rw (s, b, n, q, d) (process-IsHandled now risk a.payload_hash t _)

-- What `handle_webhook-retry` states of a call that fails and of the one that follows.
pub record IsRetried (raises : Option PaymentFile) (now : ℕ) (risk : Risk) (t : WebhookType)
    (first again : Inbox × Outcome) : Type 0 where
  pub asks_again : http_status first.1 ≡ 500
  pub left_over : raises ≡ some first.0.file
  pub is_handled : is_applied again.1 ≡ true
  pub is_accepted : http_status again.1 ≡ 200
  pub dispatched : again.0.file ≡ (dispatch_webhook now risk t first.0.file).0

-- A webhook whose handling raises is answered with status 500, and the rows of the payment are as
-- the raise left them. If it comes again at any time, under the same digest, with a good signature
-- and a body that parses, and its handling does not raise then, it is not taken for a duplicate: it
-- is dispatched on the rows as they were left, and answered with status 200.
pub handle_webhook-retry :
    (now now' : ℕ) (risk risk' : Risk) (a a' : Arrival) (t : WebhookType) (box : Inbox)
    → (handle_webhook now risk a box).1 ≡ done_failed
    → a'.signed ≡ true
    → a'.body ≡ some t
    → a'.raises ≡ none
    → a'.payload_hash ≡ a.payload_hash
    → IsRetried a.raises now' risk' t
        (handle_webhook now risk a box)
        (handle_webhook now' risk' a' (handle_webhook now risk a box).0)
unfolding http_status
handle_webhook-retry now now' risk risk' a a' t box r s b n h =
    let first = handle_webhook now risk a box in
    let failed = handle-IfFailed now risk a box r in
    let again =
      handle-IsHandled now' risk' a' t first.0 s b n (find_event a'.payload_hash first.0.events)
        refl (rw h failed.1) (rw h failed.2) in
    record {
      asks_again = rw r refl;
      left_over = failed.0;
      is_handled = again.0;
      is_accepted = again.1;
      dispatched = again.2;
    }

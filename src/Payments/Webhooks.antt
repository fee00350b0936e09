-- ===== src/Payments/Webhooks.antt =====
-- payments/service.py: the webhooks of the gateway. A webhook is for the payment when it names its
-- reference; ticket purchases, which follow their own table, are left out.
pub mod Open
pub mod Laws
pub mod Confirmed
pub mod Replay
pub mod Retry
use flexyvotes.Base.{
  ℕ, ◌+◌, Bool, true, false, ◌&&◌, ◌||◌, not, Option, none, some, List, [], ◌∷◌, ◌++◌, ◌==◌,
  if◌then◌else◌,
}
use flexyvotes.Payments.Model.{
  PaymentStatus, success, disputed, reversed_payment, webhook, PaymentFile, Refund, RefundStatus,
  processed, rejected, failed_refund, refund_failed_entry, refund_update,
}
use flexyvotes.Payments.Machine.{record_entry, transition, reverse_votes}
use flexyvotes.Payments.Gateway.{GatewayData, declined, Risk, apply_gateway_result}
use flexyvotes.Payments.Refunds.{complete_refund, set_refund_status}

-- `event_type`, with what the branches read of the data; `favours_merchant` of a resolved dispute is
-- the test on the text of its resolution.
pub data WebhookType : Type 0 where
  charge_success charge_failed : GatewayData → WebhookType
  refund_processed refund_failed refund_other : WebhookType
  dispute_created : WebhookType
  dispute_resolved : (favours_merchant : Bool) → WebhookType
  dispute_other other_type : WebhookType

-- The refunds that `_webhook_refund` does not exclude.
abbrev pub is_open_refund : RefundStatus → Bool
is_open_refund processed = false
is_open_refund rejected = false
is_open_refund _ = true

-- The later of two refunds that is open.
unfoldable pub later_open : Option Refund → Refund → Option Refund
later_open (some q) r = some q
later_open none r = if is_open_refund r.status then some r else none

-- `.order_by('-requested_at').first()`: the last one.
unfoldable pub last_open : List Refund → Option Refund
unfolding later_open
last_open [] = none
last_open (r ∷ rs) = later_open (last_open rs) r

pub data RefundNews : Type 0 where
  news_processed news_failed news_other : RefundNews

-- `_webhook_refund`, and whether it was ignored.
unfoldable pub refund_news : RefundNews → Option Refund → PaymentFile → PaymentFile × Bool
unfolding complete_refund
refund_news n none f = (f, true)
refund_news news_processed (some r) f = (complete_refund r.id f, false)
refund_news news_failed (some r) f =
    (record_entry refund_failed_entry (set_refund_status r.id failed_refund f), false)
refund_news news_other (some r) f = (record_entry refund_update f, false)

-- The `if` after the transition to DISPUTED. The chargeback is noted for the fraud screening too.
unfoldable pub open_dispute : PaymentFile × Bool → PaymentFile
unfolding reverse_votes
open_dispute (f, changed) = if changed then (reverse_votes f).0 else f

-- `_dispatch_webhook`, and whether the outcome is "ignored".
unfoldable pub dispatch_webhook : ℕ → Risk → WebhookType → PaymentFile → PaymentFile × Bool
unfolding apply_gateway_result last_open refund_news open_dispute transition
dispatch_webhook now risk (charge_success d) f = (apply_gateway_result now webhook d risk f, false)
dispatch_webhook now risk (charge_failed d) f =
    (apply_gateway_result now webhook (record d { status = declined }) risk f, false)
dispatch_webhook now risk refund_processed f = refund_news news_processed (last_open f.refunds) f
dispatch_webhook now risk refund_failed f = refund_news news_failed (last_open f.refunds) f
dispatch_webhook now risk refund_other f = refund_news news_other (last_open f.refunds) f
dispatch_webhook now risk dispute_created f = (open_dispute (transition disputed webhook f), false)
dispatch_webhook now risk (dispute_resolved true) f = ((transition success webhook f).0, false)
dispatch_webhook now risk (dispute_resolved false) f =
    ((transition reversed_payment webhook f).0, false)
dispatch_webhook now risk dispute_other f = (f, false)
dispatch_webhook now risk other_type f = (f, true)

-- `WebhookEvent.Status`
pub data WebhookStatus : Type 0 where
  received processed_event ignored_event failed_event : WebhookStatus

pub record WebhookEvent : Type 0 where
  pub payload_hash : ℕ
  pub status : WebhookStatus
  pub attempts : ℕ
  pub processed_at : Option ℕ

-- What `handle_webhook` works on, and what it returns.
pub record Inbox : Type 0 where
  pub file : PaymentFile
  pub events : List WebhookEvent

pub data Outcome : Type 0 where
  invalid_signature malformed_body duplicate done_processed done_ignored done_failed : Outcome

-- The HTTP status of the answer.
unfoldable pub http_status : Outcome → ℕ
http_status invalid_signature = 401
http_status malformed_body = 400
http_status duplicate = 200
http_status done_processed = 200
http_status done_ignored = 200
http_status done_failed = 500

-- A webhook as it arrives: whether its signature is right, the digest of its body, what the body
-- says, `none` for no JSON, and, if the dispatch raises, the rows of the payment as they stand then:
-- no transaction surrounds the dispatch, so that a raise undoes only the block that it leaves.
pub record Arrival : Type 0 where
  pub signed : Bool
  pub payload_hash : ℕ
  pub body : Option WebhookType
  pub raises : Option PaymentFile

abbrev pub is_done : WebhookStatus → Bool
is_done processed_event = true
is_done ignored_event = true
is_done _ = false

abbrev pub find_event : ℕ → List WebhookEvent → Option WebhookEvent
find_event h [] = none
find_event h (e ∷ es) = if e.payload_hash == h then some e else find_event h es

abbrev pub update_event : ℕ → (WebhookEvent → WebhookEvent) → List WebhookEvent → List WebhookEvent
update_event h g [] = []
update_event h g (e ∷ es) = if e.payload_hash == h then g e ∷ es else e ∷ update_event h g es

-- The save of the event's row at the end of `handle_webhook`.
abbrev pub mark_event : ℕ → ℕ → WebhookStatus → List WebhookEvent → List WebhookEvent
mark_event now h st = update_event h (λ e. record e { status = st; processed_at = some now })

-- The end of `handle_webhook`, for the rows with the event's row in them.
unfoldable pub process_webhook :
    ℕ → Risk → ℕ → Option PaymentFile → WebhookType → Inbox → Inbox × Outcome
unfolding dispatch_webhook
process_webhook now risk h (some rows) t box =
    (record { file = rows; events = mark_event now h failed_event box.events }, done_failed)
process_webhook now risk h none t box =
    let result = dispatch_webhook now risk t box.file in
    if result.1
    then (
      record { file = result.0; events = mark_event now h ignored_event box.events },
      done_ignored,
    )
    else (
      record { file = result.0; events = mark_event now h processed_event box.events },
      done_processed,
    )

-- `get_or_create` and the test for a replay.
unfoldable pub receive :
    ℕ → Risk → ℕ → Option PaymentFile → WebhookType → Option WebhookEvent → Inbox → Inbox × Outcome
unfolding process_webhook
receive now risk h raises t none box =
    let row : WebhookEvent = record {
      payload_hash = h;
      status = received;
      attempts = 1;
      processed_at = none;
    } in
    process_webhook now risk h raises t (record box { events = box.events ++ (row ∷ []) })
receive now risk h raises t (some e) box =
    let counted = record box {
      events = update_event h (λ x. record x { attempts = x.attempts + 1 }) box.events;
    } in
    if is_done e.status then (counted, duplicate) else process_webhook now risk h raises t counted

-- The body is parsed after the signature is checked.
unfoldable pub parse_webhook :
    ℕ → Risk → ℕ → Option PaymentFile → Option WebhookType → Inbox → Inbox × Outcome
unfolding receive
parse_webhook now risk h raises none box = (box, malformed_body)
parse_webhook now risk h raises (some t) box =
    receive now risk h raises t (find_event h box.events) box

unfoldable pub handle_webhook : ℕ → Risk → Arrival → Inbox → Inbox × Outcome
unfolding parse_webhook
handle_webhook now risk a box =
    if not a.signed
    then (box, invalid_signature)
    else parse_webhook now risk a.payload_hash a.raises a.body box

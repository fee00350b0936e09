-- ===== src/Payments/Webhooks/Replay.antt =====
-- payments/service.py: `handle_webhook`, on webhooks that come again.
use flexyvotes.Base.{
  ℕ, ◌+◌, ◌≡◌, refl, ◌∙◌, sym, subst, ap, inl, inr, Bool, true, false, not, Option, none, some,
  is_some, Bool-cases, if_intro, List, [], ◌∷◌, ◌++◌, arith,
}
use flexyvotes.Payments.Model.{PaymentFile}
use flexyvotes.Payments.Gateway.{Risk}
use flexyvotes.Payments.Webhooks.{
  WebhookType, dispatch_webhook, received, processed_event, ignored_event, WebhookEvent, Inbox,
  Arrival, Outcome, duplicate, done_processed, done_ignored, http_status, is_done, find_event,
  update_event, process_webhook, receive, parse_webhook, handle_webhook,
}

-- The outcomes that apply the webhook.
abbrev pub is_applied : Outcome → Bool
is_applied done_processed = true
is_applied done_ignored = true
is_applied _ = false

abbrev pub done_event : Option WebhookEvent → Bool
done_event none = false
done_event (some e) = is_done e.status

find_update :
    (h : ℕ) (g : WebhookEvent → WebhookEvent) (es : List WebhookEvent)
    → ((e : WebhookEvent) → (g e).payload_hash ≡ e.payload_hash)
    → ((e : WebhookEvent) → is_done (g e).status ≡ true)
    → is_some (find_event h es) ≡ true
    → done_event (find_event h (update_event h g es)) ≡ true
find_update h g [] keep done s = cc
find_update h g (e ∷ es) keep done s = ground (arith, find_update h g es keep done, keep e, done e)

pub found_append :
    (h : ℕ) (e : WebhookEvent) (es : List WebhookEvent)
    → e.payload_hash ≡ h
    → is_some (find_event h (es ++ (e ∷ []))) ≡ true
found_append h e [] q = ground arith
found_append h e (x ∷ es) q = ground (arith, found_append h e es q)

pub found_update :
    (h : ℕ) (g : WebhookEvent → WebhookEvent) (es : List WebhookEvent)
    → ((e : WebhookEvent) → (g e).payload_hash ≡ e.payload_hash)
    → is_some (find_event h (update_event h g es)) ≡ is_some (find_event h es)
found_update h g [] keep = refl
found_update h g (e ∷ es) keep = ground (arith, found_update h g es keep, keep e)

process_marks :
    (now : ℕ) (risk : Risk) (h : ℕ) (b : Option PaymentFile) (t : WebhookType) (box : Inbox)
    → is_some (find_event h box.events) ≡ true
    → is_applied (process_webhook now risk h b t box).1 ≡ true
    → done_event (find_event h (process_webhook now risk h b t box).0.events) ≡ true
unfolding process_webhook
process_marks now risk h (some rows) t box s r = cc
process_marks now risk h none t box s r =
    elim (Bool-cases (dispatch_webhook now risk t box.file).1) [
      | inl i ↦ rw i (
          find_update h (λ e. record e { status = ignored_event; processed_at = some now })
            box.events (λ e. refl) (λ e. refl) s)
      | inr i ↦ rw i (
          find_update h (λ e. record e { status = processed_event; processed_at = some now })
            box.events (λ e. refl) (λ e. refl) s)
    ]

receive_marks :
    (now : ℕ) (risk : Risk) (h : ℕ) (b : Option PaymentFile) (t : WebhookType) (box : Inbox)
    (e : Option WebhookEvent)
    → find_event h box.events ≡ e
    → is_applied (receive now risk h b t e box).1 ≡ true
    → done_event (find_event h (receive now risk h b t e box).0.events) ≡ true
unfolding receive
receive_marks now risk h b t box none q =
    let row : WebhookEvent = record {
      payload_hash = h;
      status = received;
      attempts = 1;
      processed_at = none;
    } in
    process_marks now risk h b t (record box { events = box.events ++ (row ∷ []) })
      (found_append h row box.events refl)
receive_marks now risk h b t box (some e) q =
    let counted : Inbox = record box {
      events = update_event h (λ x. record x { attempts = x.attempts + 1 }) box.events;
    } in
    if_intro
      (λ (r : Inbox × Outcome). is_applied r.1 ≡ true → done_event (find_event h r.0.events) ≡ true)
      (is_done e.status) _ _ (λ d r. cc)
      (λ d. process_marks now risk h b t counted (
        found_update h (λ x. record x { attempts = x.attempts + 1 }) box.events (λ x. refl)
        ∙ ap is_some q))

parse_marks :
    (now : ℕ) (risk : Risk) (h : ℕ) (b : Option PaymentFile) (t : Option WebhookType) (box : Inbox)
    → is_applied (parse_webhook now risk h b t box).1 ≡ true
    → done_event (find_event h (parse_webhook now risk h b t box).0.events) ≡ true
unfolding parse_webhook
parse_marks now risk h b none box r = cc
parse_marks now risk h b (some t) box r =
    receive_marks now risk h b t box (find_event h box.events) refl r

handle_marks :
    (now : ℕ) (risk : Risk) (a : Arrival) (box : Inbox)
    → is_applied (handle_webhook now risk a box).1 ≡ true
    → done_event (find_event a.payload_hash (handle_webhook now risk a box).0.events) ≡ true
unfolding handle_webhook
handle_marks now risk a box =
    if_intro
      (λ (r : Inbox × Outcome).
        is_applied r.1 ≡ true → done_event (find_event a.payload_hash r.0.events) ≡ true)
      (not a.signed) _ _ (λ s r. cc) (λ s. parse_marks now risk a.payload_hash a.raises a.body box)

-- A call that is turned away without a change of the payment, by an answer that it need not come again.
abbrev pub IsDuplicate : Inbox → Inbox × Outcome → Type 0
IsDuplicate box r = r.1 ≡ duplicate × http_status r.1 ≡ 200 × r.0.file ≡ box.file

receive_done :
    (now : ℕ) (risk : Risk) (h : ℕ) (b : Option PaymentFile) (t : WebhookType)
    (e : Option WebhookEvent) (box : Inbox)
    → done_event e ≡ true
    → IsDuplicate box (receive now risk h b t e box)
unfolding receive http_status
receive_done now risk h b t none box d = cc
receive_done now risk h b t (some e) box d = rw d (refl, refl, refl)

handle_done :
    (now : ℕ) (risk : Risk) (a : Arrival) (t : WebhookType) (box : Inbox)
    → a.signed ≡ true
    → a.body ≡ some t
    → done_event (find_event a.payload_hash box.events) ≡ true
    → IsDuplicate box (handle_webhook now risk a box)
unfolding handle_webhook parse_webhook
handle_done now risk a t box s b d =
    rw (s, b)
      (receive_done now risk a.payload_hash a.raises t (find_event a.payload_hash box.events) box d)

-- A webhook that was applied and comes again, under the same digest, with a good signature and a body
-- that parses, is answered as a duplicate with status 200, at any time and even if its handling would
-- raise now, and the rows of the payment stay as the first one left them.
pub handle_webhook-replay :
    (now now' : ℕ) (risk risk' : Risk) (a a' : Arrival) (t : WebhookType) (box : Inbox)
    → is_applied (handle_webhook now risk a box).1 ≡ true
    → a'.signed ≡ true
    → a'.body ≡ some t
    → a'.payload_hash ≡ a.payload_hash
    → IsDuplicate
        (handle_webhook now risk a box).0
        (handle_webhook now' risk' a' (handle_webhook now risk a box).0)
handle_webhook-replay now now' risk risk' a a' t box r s b h =
    handle_done now' risk' a' t (handle_webhook now risk a box).0 s b (
      subst (λ z. done_event (find_event z (handle_webhook now risk a box).0.events) ≡ true) (sym h)
        (handle_marks now risk a box r))

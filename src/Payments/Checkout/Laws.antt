-- ===== src/Payments/Checkout/Laws.antt =====
-- payments/service.py: `initiate_vote_payment`, on the payments that it hands out.
use flexyvotes.Base.{
  ℕ, ◌≡◌, refl, ◌∙◌, sym, subst, Bool, true, false, ◌&&◌, ◌||◌, not, Option, none, some, List, [],
  ◌∷◌, ◌++◌, ◌==◌, if◌then◌else◌, if_intro, arith,
}
use flexyvotes.Payments.Model.{pending, init}
use flexyvotes.Payments.Machine.Laws.{IsSound, transition-Advances}
use flexyvotes.Payments.Pricing.{QuoteError, Quote}
use flexyvotes.Payments.Pricing.Limits.{is_known, same_index, Tables, quote}
use flexyvotes.Payments.Checkout.{
  CheckoutCall, CheckoutRow, CheckoutError, quoted, gateway_error, unavailable,
  idempotency_conflict, no_contact, challenge, CheckoutAnswer, checked_out, refused, row_with_key,
  new_file, new_row, open_checkout, resume_checkout, initiate_vote_payment,
}

-- What is handed to the customer: a payment that was there with the key, or a new one that waits for
-- the gateway, for the amount of a quote without errors, and that has bought nothing yet.
pub data IsHandedOut (c : CheckoutCall) (q : Quote) (rows rows' : List CheckoutRow)
    (r : CheckoutRow) : Type 0 where
  is_old :
      rows' ≡ rows
      → row_with_key c.idempotency_key rows ≡ some r
      → r.event ≡ c.event.event.id
      → r.contestant ≡ c.contestant.id
      → IsHandedOut c q rows rows' r
  is_new :
      rows' ≡ rows ++ (r ∷ [])
      → row_with_key c.idempotency_key rows ≡ none
      → r.idempotency_key ≡ c.idempotency_key
      → r.event ≡ c.event.event.id
      → r.contestant ≡ c.contestant.id
      → q.errors ≡ []
      → r.file.payment.amount ≡ q.amount
      → r.file.payment.status ≡ pending
      → r.file.ledger ≡ none
      → IsSound r.file
      → IsHandedOut c q rows rows' r

new_file-IsSound : (c : CheckoutCall) (q : Quote) → IsSound (new_file c q)
unfolding new_file
new_file-IsSound c q = record {
  once = refl;
  exact = tt;
  credited_after_success = refl;
  redeemed = refl;
  numbered = tt;
  accounted = refl;
}

new_row_facts :
    (c : CheckoutCall) (q : Quote)
    → c.gateway_accepts ≡ true
    → (new_row c q).file.payment.amount ≡ q.amount
      × (new_row c q).file.payment.status ≡ pending
      × (new_row c q).file.ledger ≡ none
      × IsSound (new_row c q).file
unfolding new_row
new_row_facts c q h = rw h (
  refl,
  refl,
  refl,
  (transition-Advances pending init (new_file c q)).sound (new_file-IsSound c q),
)

new_row_key :
    (c : CheckoutCall) (q : Quote)
    → (new_row c q).idempotency_key ≡ c.idempotency_key
      × (new_row c q).event ≡ c.event.event.id
      × (new_row c q).contestant ≡ c.contestant.id
unfolding new_row
new_row_key c q = (refl, refl, refl)

-- What is promised of an answer.
abbrev IsServed :
    CheckoutCall → Quote → List CheckoutRow → List CheckoutRow × CheckoutAnswer → Type 0
IsServed c q rows a = (r : CheckoutRow) → a.1 ≡ checked_out r → IsHandedOut c q rows a.0 r

refused-IsServed :
    (c : CheckoutCall) (q : Quote) (rows rows' : List CheckoutRow) (e : CheckoutError)
    → IsServed c q rows (rows', refused e)
refused-IsServed c q rows rows' e r h = cc

checked_out_injective : (r s : CheckoutRow) → checked_out r ≡ checked_out s → r ≡ s
checked_out_injective r s h = cc

accepted-IsServed :
    (c : CheckoutCall) (q : Quote) (rows : List CheckoutRow) (b : Bool)
    → row_with_key c.idempotency_key rows ≡ none
    → q.errors ≡ []
    → c.gateway_accepts ≡ b
    → IsServed c q rows
        (rows ++ (new_row c q ∷ []), if b then checked_out (new_row c q) else refused gateway_error)
accepted-IsServed c q rows false n e g r h = cc
accepted-IsServed c q rows true n e g r h =
    let facts = new_row_facts c q g in
    subst (IsHandedOut c q rows (rows ++ (new_row c q ∷ [])))
      (checked_out_injective (new_row c q) r h)
      (is_new refl n (new_row_key c q).0 (new_row_key c q).1 (new_row_key c q).2 e facts.0 facts.1
        facts.2 facts.3)

open-IsServed :
    (c : CheckoutCall) (q : Quote) (es : List QuoteError) (rows : List CheckoutRow)
    → row_with_key c.idempotency_key rows ≡ none
    → q.errors ≡ es
    → IsServed c q rows (open_checkout c q es rows)
unfolding open_checkout
open-IsServed c q (e ∷ es) rows n h = refused-IsServed c q rows rows (quoted e)
open-IsServed c q [] rows n h =
    if_intro (IsServed c q rows) (not (is_known c.payer.email || is_known c.payer.phone)) _ _
      (λ t. refused-IsServed c q rows rows no_contact)
      (λ t.
        if_intro (IsServed c q rows) (c.challenged && (c.has_captcha && not c.captcha_passed)) _ _
          (λ u. refused-IsServed c q rows rows challenge)
          (λ u. accepted-IsServed c q rows c.gateway_accepts n h refl))

not_or_not : (a b x y : ℕ) → not (a == b) || not (x == y) ≡ false → a ≡ b × x ≡ y
not_or_not a b x y h = ground arith

resume-IsServed :
    (c : CheckoutCall) (q : Quote) (old : Option CheckoutRow) (rows : List CheckoutRow)
    → row_with_key c.idempotency_key rows ≡ old
    → IsServed c q rows (resume_checkout c q old rows)
unfolding resume_checkout
resume-IsServed c q none rows h = open-IsServed c q q.errors rows h refl
resume-IsServed c q (some s) rows h =
    if_intro (IsServed c q rows)
      (not (s.event == c.event.event.id) || not (s.contestant == c.contestant.id)) _ _
      (λ t. refused-IsServed c q rows rows idempotency_conflict)
      (λ t r e.
        let same = not_or_not s.event c.event.event.id s.contestant c.contestant.id t in
        subst (IsHandedOut c q rows rows) (checked_out_injective s r e)
          (is_old refl h same.0 same.1))

-- A payment that a checkout hands out is the one that is stored under the idempotency key, for the
-- same election and contestant, and nothing is stored; or it is the one that is stored now, it is for
-- the amount of a quote without errors, it is pending, its rows are sound, and no votes are credited.
pub initiate_vote_payment-IsHandedOut :
    (now : ℕ) (tables : Tables) (c : CheckoutCall) (rows : List CheckoutRow) (r : CheckoutRow)
    → (initiate_vote_payment now tables c rows).1 ≡ checked_out r
    → IsHandedOut c
        (quote c.event c.contestant now c.payer tables c.purchase)
        rows
        (initiate_vote_payment now tables c rows).0
        r
unfolding initiate_vote_payment
initiate_vote_payment-IsHandedOut now tables c rows =
    let q : Quote = quote c.event c.contestant now c.payer tables c.purchase in
    if_intro (IsServed c q rows) (not c.configured) _ _
      (λ t. refused-IsServed c q rows rows unavailable)
      (λ t. resume-IsServed c q (row_with_key c.idempotency_key rows) rows refl)

row_with_key_append :
    (key : Option ℕ) (rows : List CheckoutRow) (r : CheckoutRow)
    → row_with_key key rows ≡ none
    → row_with_key key (rows ++ (r ∷ []))
      ≡ (if same_index key r.idempotency_key then some r else none)
unfolding row_with_key
row_with_key_append key [] r h = refl
row_with_key_append key (s ∷ rows) r h = ground (arith, row_with_key_append key rows r)

same_index_self : (k : ℕ) (i : Option ℕ) → i ≡ some k → same_index (some k) i ≡ true
unfolding same_index
same_index_self k i h = rw h ground arith

stored :
    (c : CheckoutCall) (q : Quote) (rows rows' : List CheckoutRow) (r : CheckoutRow) (k : ℕ)
    → c.idempotency_key ≡ some k
    → IsHandedOut c q rows rows' r
    → row_with_key (some k) rows' ≡ some r
      × r.event ≡ c.event.event.id
      × r.contestant ≡ c.contestant.id
stored c q rows rows' r k h (is_old e f v w) =
    (subst (λ z. row_with_key z rows' ≡ some r) h (rw e f), v, w)
stored c q rows rows' r k h (is_new e n i v w _ _ _ _ _) = (
  rw e (
      row_with_key_append (some k) rows r (subst (λ z. row_with_key z rows ≡ none) h n)
      ∙ rw (same_index_self k r.idempotency_key (i ∙ h)) refl),
  v,
  w,
)

same_tests : (a b x y : ℕ) → a ≡ b → x ≡ y → not (a == b) || not (x == y) ≡ false
same_tests a b x y h k = ground arith

same_again :
    (now : ℕ) (tables : Tables) (c : CheckoutCall) (rows : List CheckoutRow) (r : CheckoutRow)
    (k : ℕ)
    → c.configured ≡ true
    → c.idempotency_key ≡ some k
    → row_with_key (some k) rows ≡ some r
    → r.event ≡ c.event.event.id
    → r.contestant ≡ c.contestant.id
    → initiate_vote_payment now tables c rows ≡ (rows, checked_out r)
unfolding initiate_vote_payment resume_checkout
same_again now tables c rows r k g h f v w =
    rw (g, h, f, same_tests r.event c.event.event.id r.contestant c.contestant.id v w) refl

-- A checkout with an idempotency key that hands out a payment, called again with the same key for the
-- same election and contestant while the provider is configured (whatever else has changed: the
-- quote, the payer, the risk), hands out the same payment and stores nothing.
pub initiate_vote_payment-repeat :
    (now now' : ℕ) (tables tables' : Tables) (c c' : CheckoutCall) (rows : List CheckoutRow)
    (r : CheckoutRow) (k : ℕ)
    → c.idempotency_key ≡ some k
    → c'.idempotency_key ≡ some k
    → c'.configured ≡ true
    → c'.event.event.id ≡ c.event.event.id
    → c'.contestant.id ≡ c.contestant.id
    → (initiate_vote_payment now tables c rows).1 ≡ checked_out r
    → initiate_vote_payment now' tables' c' (initiate_vote_payment now tables c rows).0
      ≡ ((initiate_vote_payment now tables c rows).0, checked_out r)
initiate_vote_payment-repeat now now' tables tables' c c' rows r k h h' g v w a =
    let facts =
      stored c _ rows (initiate_vote_payment now tables c rows).0 r k h
        (initiate_vote_payment-IsHandedOut now tables c rows r a) in
    same_again now' tables' c' (initiate_vote_payment now tables c rows).0 r k g h' facts.0
      (facts.1 ∙ sym v) (facts.2 ∙ sym w)

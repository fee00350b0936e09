-- ===== src/Payments/Machine/Laws.antt =====
-- payments/service.py: the invariant of the rows of a payment and the contract of paid voting, for the
-- steps that all operations share.
use flexyvotes.Base.{
  ℕ, ◌≡◌, refl, ap, subst, ◌∙◌, inl, inr, Bool-cases, Bool, true, false, ◌&&◌, ◌||◌, not, Option,
  none, some, is_some, arith, if◌then◌else◌,
}
use flexyvotes.Payments.Model.{
  PaymentStatus, initialized, pending, failed, payment_abandoned, Source, Payment, total_votes,
  VoteTransaction, PaymentFile, HistoryEntry,
}
use flexyvotes.Payments.Refunds.Books.{IsNumbered, total_paid_back}
use flexyvotes.Payments.Machine.{
  is_success, transition, credit_votes, add_ledger, reverse_votes, reverse_row, record_entry,
}

-- The states that a payment has from its success on.
abbrev pub is_past_success : PaymentStatus → Bool
is_past_success initialized = false
is_past_success pending = false
is_past_success failed = false
is_past_success payment_abandoned = false
is_past_success _ = true

-- The ledger row is what the payment bought.
abbrev pub IsExact : Payment → Option VoteTransaction → Type 0
IsExact p none = Unit
IsExact p (some row) =
    (row.number_of_votes ≡ total_votes p) × (row.amount ≡ p.amount) × (row.candidate ≡ p.candidate)

pub record IsSound (f : PaymentFile) : Type 0 where
  pub once : is_some f.ledger ≡ f.payment.votes_credited
  pub exact : IsExact f.payment f.ledger
  pub credited_after_success :
      f.payment.votes_credited && not (is_past_success f.payment.status) ≡ false
  pub redeemed :
      f.redemptions ≡ (if f.payment.votes_credited && f.payment.has_discount then 1 else 0)
  pub numbered : IsNumbered 0 f.refunds
  pub accounted : f.payment.refunded_amount ≡ total_paid_back f.refunds

-- What the payment has bought: nothing yet, votes that count, or votes that have been taken back.
pub data Entitlement : Type 0 where
  nothing : Entitlement
  granted revoked : ℕ → Entitlement

abbrev pub row_entitlement : Option VoteTransaction → Entitlement
row_entitlement none = nothing
row_entitlement (some row) =
    if row.is_reversed then revoked row.number_of_votes else granted row.number_of_votes

abbrev pub entitlement : PaymentFile → Entitlement
entitlement f = row_entitlement f.ledger

-- The contract of paid voting: `n` votes are granted at most once, and may be taken back for good.
pub data EntitlementRun (n : ℕ) : Entitlement → Entitlement → Type 0 where
  stays : (e e' : Entitlement) → e ≡ e' → EntitlementRun n e e'
  grants : (e e' : Entitlement) → e ≡ nothing → e' ≡ granted n → EntitlementRun n e e'
  revokes : (m : ℕ) (e e' : Entitlement) → e ≡ granted m → e' ≡ revoked m → EntitlementRun n e e'
  follows :
      {e e' e'' : Entitlement}
      → EntitlementRun n e e'
      → EntitlementRun n e' e''
      → EntitlementRun n e e''

-- A step that keeps the invariant, the votes that the payment is for, and the contract.
pub record Advances (f f' : PaymentFile) : Type 0 where
  pub sound : IsSound f → IsSound f'
  pub same_votes : total_votes f'.payment ≡ total_votes f.payment
  pub run : EntitlementRun (total_votes f.payment) (entitlement f) (entitlement f')

-- Changes of the rows that neither the invariant nor the contract reads.
pub Advances-aside :
    (f f' : PaymentFile)
    → (IsSound f → IsSound f')
    → total_votes f'.payment ≡ total_votes f.payment
    → f.ledger ≡ f'.ledger
    → Advances f f'
Advances-aside f f' s v l = record {
  sound = s;
  same_votes = v;
  run = stays _ _ (ap row_entitlement l);
}

pub Advances-refl : (f : PaymentFile) → Advances f f
Advances-refl f = Advances-aside f f (λ s. s) refl refl

pub Advances-trans : (f f' f'' : PaymentFile) → Advances f f' → Advances f' f'' → Advances f f''
Advances-trans f f' f'' a b = record {
  sound = λ s. b.sound (a.sound s);
  same_votes = b.same_votes ∙ a.same_votes;
  run =
      follows a.run
        (subst (λ n. EntitlementRun n (entitlement f') (entitlement f'')) a.same_votes b.run);
}

pub Advances-if :
    (b : Bool) (f g h : PaymentFile) → Advances f g → Advances f h → Advances f (if b then g else h)
Advances-if true f g h a c = a
Advances-if false f g h a c = c

-- The same for an operation that also returns something.
pub Advances-if_fst {ℓ} :
    {R : Type ℓ} (b : Bool) (f : PaymentFile) (g h : PaymentFile × R)
    → Advances f g.0
    → Advances f h.0
    → Advances f (if b then g else h).0
Advances-if_fst true f g h a c = a
Advances-if_fst false f g h a c = c

pub record_entry-Advances :
    (entry : HistoryEntry) (f : PaymentFile) → Advances f (record_entry entry f)
record_entry-Advances entry f =
    Advances-aside f (record_entry entry f) (λ s. ground arith) refl refl

transition-IsSound :
    (to : PaymentStatus) (source : Source) (f : PaymentFile)
    → IsSound f
    → IsSound (transition to source f).0
unfolding transition
transition-IsSound to source f s = ground arith

transition-ledger :
    (to : PaymentStatus) (source : Source) (f : PaymentFile)
    → f.ledger ≡ (transition to source f).0.ledger
unfolding transition
transition-ledger to source f = ground arith

transition-total_votes :
    (to : PaymentStatus) (source : Source) (f : PaymentFile)
    → total_votes (transition to source f).0.payment ≡ total_votes f.payment
unfolding transition
transition-total_votes to source f = ground arith

pub transition-Advances :
    (to : PaymentStatus) (source : Source) (f : PaymentFile) → Advances f (transition to source f).0
transition-Advances to source f =
    Advances-aside f (transition to source f).0 (transition-IsSound to source f)
      (transition-total_votes to source f) (transition-ledger to source f)

credit_votes-IsSound : (now : ℕ) (f : PaymentFile) → IsSound f → IsSound (credit_votes now f).0
unfolding credit_votes
credit_votes-IsSound now f s = ground arith

add_ledger-run :
    (now : ℕ) (f : PaymentFile) (row : Option VoteTransaction)
    → f.ledger ≡ row
    → EntitlementRun (total_votes f.payment) (entitlement f) (entitlement (add_ledger now row f).0)
unfolding add_ledger
add_ledger-run now f none e = grants _ _ (ap row_entitlement e) refl
add_ledger-run now f (some row) e = stays _ _ refl

add_ledger-total_votes :
    (now : ℕ) (f : PaymentFile) (row : Option VoteTransaction)
    → total_votes (add_ledger now row f).0.payment ≡ total_votes f.payment
unfolding add_ledger
add_ledger-total_votes now f none = refl
add_ledger-total_votes now f (some row) = refl

credit_votes-total_votes :
    (now : ℕ) (f : PaymentFile) → total_votes (credit_votes now f).0.payment ≡ total_votes f.payment
unfolding credit_votes
credit_votes-total_votes now f = ground (arith, add_ledger-total_votes now f f.ledger)

credit_votes-run :
    (now : ℕ) (f : PaymentFile)
    → EntitlementRun (total_votes f.payment) (entitlement f) (entitlement (credit_votes now f).0)
unfolding credit_votes
credit_votes-run now f =
    if_run (f.payment.votes_credited || (not (is_success f.payment.status) || f.payment.held))
      (add_ledger-run now f f.ledger refl)
  where
    if_run :
        (b : Bool)
        → EntitlementRun
            (total_votes f.payment)
            (entitlement f)
            (entitlement (add_ledger now f.ledger f).0)
        → EntitlementRun
            (total_votes f.payment)
            (entitlement f)
            (entitlement (if b then (f, false) else add_ledger now f.ledger f).0)
    if_run true r = stays _ _ refl
    if_run false r = r

pub credit_votes-Advances : (now : ℕ) (f : PaymentFile) → Advances f (credit_votes now f).0
credit_votes-Advances now f = record {
  sound = credit_votes-IsSound now f;
  same_votes = credit_votes-total_votes now f;
  run = credit_votes-run now f;
}

reverse_votes-IsSound : (f : PaymentFile) → IsSound f → IsSound (reverse_votes f).0
unfolding reverse_votes
reverse_votes-IsSound f s = ground arith

reverse_votes-total_votes :
    (f : PaymentFile) → total_votes (reverse_votes f).0.payment ≡ total_votes f.payment
unfolding reverse_votes
reverse_votes-total_votes f = ground arith

reverse_row-run :
    (f : PaymentFile) (row : Option VoteTransaction)
    → f.ledger ≡ row
    → EntitlementRun (total_votes f.payment) (entitlement f) (entitlement (reverse_row row f).0)
unfolding reverse_row
reverse_row-run f none e = stays _ _ refl
reverse_row-run f (some row) e = elim (Bool-cases row.is_reversed) [
  | inl t ↦ rw t (stays _ _ refl)
  | inr c ↦ rw c (revokes row.number_of_votes _ _ (ap row_entitlement e ∙ rw c refl) refl)
]

pub reverse_votes-Advances : (f : PaymentFile) → Advances f (reverse_votes f).0
unfolding reverse_votes
reverse_votes-Advances f = record {
  sound = reverse_votes-IsSound f;
  same_votes = reverse_votes-total_votes f;
  run = reverse_row-run f f.ledger refl;
}

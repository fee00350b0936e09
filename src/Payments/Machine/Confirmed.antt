-- ===== src/Payments/Machine/Confirmed.antt =====
-- payments/service.py: payments that the gateway has confirmed, and the steps that all operations share.
use flexyvotes.Base.{ℕ, ◌≡◌, Bool, true, false, ◌||◌, not, Option, is_some, arith, if◌then◌else◌}
use flexyvotes.Payments.Model.{PaymentStatus, success, Source, PaymentFile, VoteTransaction}
use flexyvotes.Payments.Machine.{
  is_success, transition, add_ledger, credit_votes, reverse_row, reverse_votes,
}
use flexyvotes.Payments.Machine.Laws.{is_past_success}

-- A payment that is past its success, or that is credited, has the time at which the gateway's success
-- was noted.
abbrev pub is_confirmed : PaymentFile → Bool
is_confirmed f =
    is_some f.payment.verified_at
    || not (is_past_success f.payment.status || f.payment.votes_credited)

-- A step that leads from confirmed payments to confirmed ones.
abbrev pub Confirms : PaymentFile → PaymentFile → Type 0
Confirms f f' = is_confirmed f ≡ true → is_confirmed f' ≡ true

pub Confirms-if :
    (b : Bool) (f g h : PaymentFile) → Confirms f g → Confirms f h → Confirms f (if b then g else h)
Confirms-if true f g h a c = a
Confirms-if false f g h a c = c

pub Confirms-if_fst {ℓ} :
    {R : Type ℓ} (b : Bool) (f : PaymentFile) (g h : PaymentFile × R)
    → Confirms f g.0
    → Confirms f h.0
    → Confirms f (if b then g else h).0
Confirms-if_fst true f g h a c = a
Confirms-if_fst false f g h a c = c

-- Only a transition to success makes a payment one that has to be confirmed.
pub transition-Confirms :
    (to : PaymentStatus) (source : Source) (f : PaymentFile)
    → is_success to ≡ false
    → Confirms f (transition to source f).0
unfolding transition
transition-Confirms to source f n = ground arith

pub transition-verified :
    (source : Source) (f : PaymentFile)
    → is_some f.payment.verified_at ≡ true
    → is_confirmed (transition success source f).0 ≡ true
unfolding transition
transition-verified source f v = ground arith

add_ledger-Confirms :
    (now : ℕ) (row : Option VoteTransaction) (f : PaymentFile)
    → is_success f.payment.status ≡ true
    → Confirms f (add_ledger now row f).0
unfolding add_ledger
add_ledger-Confirms now row f s = ground arith

pub credit_votes-Confirms : (now : ℕ) (f : PaymentFile) → Confirms f (credit_votes now f).0
unfolding credit_votes
credit_votes-Confirms now f = ground (arith, add_ledger-Confirms now f.ledger f)

reverse_row-Confirms :
    (row : Option VoteTransaction) (f : PaymentFile) → Confirms f (reverse_row row f).0
unfolding reverse_row
reverse_row-Confirms row f = ground arith

pub reverse_votes-Confirms : (f : PaymentFile) → Confirms f (reverse_votes f).0
unfolding reverse_votes
reverse_votes-Confirms f = reverse_row-Confirms f.ledger f

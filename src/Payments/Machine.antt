-- ===== src/Payments/Machine.antt =====
-- payments/service.py: the payment state machine, the credit of votes and its reversal.
pub mod Laws
pub mod Confirmed
use flexyvotes.Base.{
  ℕ, ◌+◌, Bool, true, false, ◌&&◌, ◌||◌, not, Option, none, some, List, [], ◌∷◌, ◌++◌,
  if◌then◌else◌,
}
use flexyvotes.Payments.Model.{
  PaymentStatus, initialized, pending, success, failed, payment_abandoned, refunded,
  reversed_payment, partially_refunded, disputed, Source, Payment, total_votes, VoteTransaction,
  PaymentFile, HistoryEntry, moved, ignored, votes_credited_entry, votes_reversed_entry,
}

-- `payment.status == to_status`
unfoldable pub same_status : PaymentStatus → PaymentStatus → Bool
same_status initialized initialized = true
same_status pending pending = true
same_status success success = true
same_status failed failed = true
same_status payment_abandoned payment_abandoned = true
same_status refunded refunded = true
same_status reversed_payment reversed_payment = true
same_status partially_refunded partially_refunded = true
same_status disputed disputed = true
same_status _ _ = false

abbrev pub is_success : PaymentStatus → Bool
is_success success = true
is_success _ = false

-- `to_status in ALLOWED_TRANSITIONS.get(payment.status, set())`
unfoldable pub allowed_transition : PaymentStatus → PaymentStatus → Bool
allowed_transition initialized pending = true
allowed_transition initialized success = true
allowed_transition initialized failed = true
allowed_transition initialized payment_abandoned = true
allowed_transition pending success = true
allowed_transition pending failed = true
allowed_transition pending payment_abandoned = true
allowed_transition payment_abandoned success = true
allowed_transition payment_abandoned failed = true
allowed_transition failed success = true
allowed_transition success refunded = true
allowed_transition success partially_refunded = true
allowed_transition success reversed_payment = true
allowed_transition success disputed = true
allowed_transition partially_refunded refunded = true
allowed_transition partially_refunded disputed = true
allowed_transition partially_refunded reversed_payment = true
allowed_transition disputed success = true
allowed_transition disputed reversed_payment = true
allowed_transition disputed refunded = true
allowed_transition _ _ = false

-- `_record`
abbrev pub record_entry : HistoryEntry → PaymentFile → PaymentFile
record_entry entry f = record f { history = f.history ++ (entry ∷ []) }

abbrev pub with_status : PaymentStatus → PaymentFile → PaymentFile
with_status to f = record f { payment = record f.payment { status = to } }

-- `transition`, with what it returns.
unfoldable pub transition : PaymentStatus → Source → PaymentFile → PaymentFile × Bool
unfolding same_status allowed_transition
transition to source f =
    if same_status f.payment.status to
    then (f, false)
    else if not (allowed_transition f.payment.status to)
    then (record_entry (ignored source f.payment.status to) f, false)
    else (record_entry (moved source f.payment.status to) (with_status to f), true)

-- The ledger row that a payment buys.
abbrev pub bought_votes : Payment → VoteTransaction
bought_votes p = record {
  candidate = p.candidate;
  amount = p.amount;
  number_of_votes = total_votes p;
  is_reversed = false;
}

-- The rest of `credit_votes` after the checks. A ledger row that is there already is an
-- IntegrityError.
unfoldable pub add_ledger : ℕ → Option VoteTransaction → PaymentFile → PaymentFile × Bool
add_ledger now (some row) f = (f, false)
add_ledger now none f = (
  record f {
    payment = record f.payment { votes_credited = true; credited_at = some now };
    ledger = some (bought_votes f.payment);
    redemptions = if f.payment.has_discount then f.redemptions + 1 else f.redemptions;
    history = f.history ++ (votes_credited_entry (total_votes f.payment) ∷ []);
  },
  true,
)

-- `credit_votes`, and whether it returns a ledger row.
unfoldable pub credit_votes : ℕ → PaymentFile → PaymentFile × Bool
unfolding add_ledger
credit_votes now f =
    if f.payment.votes_credited || (not (is_success f.payment.status) || f.payment.held)
    then (f, false)
    else add_ledger now f.ledger f

-- The rest of `reverse_votes` for the ledger row, and how many rows it updates.
unfoldable pub reverse_row : Option VoteTransaction → PaymentFile → PaymentFile × ℕ
reverse_row none f = (f, 0)
reverse_row (some row) f = if row.is_reversed then (f, 0) else (
  record_entry votes_reversed_entry
      (record f { ledger = some (record row { is_reversed = true }) }),
  1,
)

unfoldable pub reverse_votes : PaymentFile → PaymentFile × ℕ
unfolding reverse_row
reverse_votes f = reverse_row f.ledger f

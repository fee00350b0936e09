-- ===== src/Payments/Model.antt =====
-- The rows of payments/models.py that belong to one payment, with its vote ledger row
-- (voting/models.py) and its invoice (billing/models.py). Amounts are in hundredths of the currency,
-- and so are exact; texts are numbers, and are not cut to the length of their column. Columns that
-- the service only stores for display are left out.
use flexyvotes.Base.{ℕ, ◌+◌, Bool, Option, List}

-- `Payment.Status`
pub data PaymentStatus : Type 0 where
  initialized pending success failed payment_abandoned refunded : PaymentStatus
  reversed_payment partially_refunded disputed : PaymentStatus

-- `Payment.Purpose`
pub data Purpose : Type 0 where
  vote_purchase invoice_payment : Purpose

-- `source`: where a change comes from.
pub data Source : Type 0 where
  init webhook verify reconcile expiry refund_source : Source

pub record Payment : Type 0 where
  pub reference : ℕ
  pub purpose : Purpose
  pub candidate : ℕ
  pub votes : ℕ
  pub bonus_votes : ℕ
  pub amount : ℕ
  pub currency : ℕ
  pub has_discount : Bool
  pub status : PaymentStatus
  pub gateway_status : ℕ
  pub gateway_id : ℕ
  pub channel : ℕ
  pub card_signature : ℕ
  pub card_country : ℕ
  pub fees : Option ℕ
  pub gateway_paid_at : Option ℕ
  pub risk_score : Option ℕ
  pub risk_decision : ℕ
  pub held : Bool
  pub verified_at : Option ℕ
  pub credited_at : Option ℕ
  pub votes_credited : Bool
  pub refunded_amount : ℕ

-- `Payment.total_votes`
abbrev pub total_votes : Payment → ℕ
total_votes p = p.votes + p.bonus_votes

-- A `VoteTransaction` of status Success, or Reversed when `is_reversed`.
pub record VoteTransaction : Type 0 where
  pub candidate : ℕ
  pub amount : ℕ
  pub number_of_votes : ℕ
  pub is_reversed : Bool

-- `Refund.Status`
pub data RefundStatus : Type 0 where
  requested approved_refund processing processed failed_refund rejected : RefundStatus

pub record Refund : Type 0 where
  pub id : ℕ
  pub amount : ℕ
  pub status : RefundStatus
  pub reverse_votes : Bool
  pub requested_by : ℕ
  pub approved_by : Option ℕ

-- A `PaymentEvent`, by the call of `_record` that wrote it.
pub data HistoryEntry : Type 0 where
  moved : Source → PaymentStatus → PaymentStatus → HistoryEntry
  ignored : Source → PaymentStatus → PaymentStatus → HistoryEntry
  votes_credited_entry : ℕ → HistoryEntry
  payment_created votes_reversed_entry hold_released hold_rejected : HistoryEntry
  refund_requested refund_refused refund_submitted : ℕ → HistoryEntry
  refund_failed_entry refund_update : HistoryEntry

-- The rows of one payment: its ledger row (`OneToOneField`), its history, its refunds in the order of
-- their requests, the redemptions of its discount code, the fraud events of a mismatch, the approval
-- requests for its refunds, and whether its invoice is paid.
pub record PaymentFile : Type 0 where
  pub payment : Payment
  pub ledger : Option VoteTransaction
  pub history : List HistoryEntry
  pub refunds : List Refund
  pub redemptions : ℕ
  pub fraud_events : ℕ
  pub approval_requests : List ℕ
  pub has_invoice : Bool
  pub invoice_paid : Bool

-- ===== src/Payments/Webhooks/Open.antt =====
-- payments/service.py: the refund that a webhook is taken to be about.
use flexyvotes.Base.{
  ℕ, suc, ◌≡◌, ap, ◌⊎◌, inl, inr, false, Option, none, some, List, [], ◌∷◌, arith, ne→==, eq→==,
}
use flexyvotes.Payments.Model.{Refund}
use flexyvotes.Payments.Refunds.{is_processed, find_refund}
use flexyvotes.Payments.Refunds.Books.{IsNumbered, find_refund-lower}
use flexyvotes.Payments.Webhooks.{later_open, last_open}

later_case :
    (x : Option Refund) (q r : Refund)
    → later_open x q ≡ some r
    → x ≡ some r ⊎ (q ≡ r × is_processed r.status ≡ false)
unfolding later_open
later_case none q r e = inr (ground arith)
later_case (some p) q r e = inl e

-- It is the row under its number, and it is not processed.
pub last_open-found :
    (k : ℕ) (rs : List Refund) (r : Refund)
    → IsNumbered k rs
    → last_open rs ≡ some r
    → find_refund r.id rs ≡ some r × is_processed r.status ≡ false
unfolding last_open
last_open-found k [] r n e = cc
last_open-found k (q ∷ rs) r n e = elim (later_case (last_open rs) q r e) [
  | inl rest ↦
      let known = last_open-found (suc k) rs r n.1 rest in
      let low = find_refund-lower (suc k) r.id rs r n.1 known.0 in
      (rw (ne→== q.id r.id (λ w. omega (arith, w, low, n.0))) known.0, known.1)
  | inr (same, p) ↦ (rw (eq→== q.id r.id (ap (λ (z : Refund). z.id) same)) (ap some same), p)
]

-- ===== src/Payments/Refunds/Books.antt =====
-- payments/service.py: the rows of the refunds of a payment, and what was paid back.
use flexyvotes.Base.{
  ℕ, suc, ◌+◌, ◌≤◌, ◌≡◌, refl, ap, subst, ◌∙◌, ◌⊎◌, inl, inr, Bool, true, false, Option, some, List,
  [], ◌∷◌, ◌++◌, length, ◌==◌, arith, if◌then◌else◌, Bool-cases, ==→eq, eq→==,
}
use flexyvotes.Payments.Model.{Refund}
use flexyvotes.Payments.Refunds.{is_processed, find_refund, update_refund}

-- The refunds are numbered in the order of their requests.
abbrev pub IsNumbered : ℕ → List Refund → Type 0
IsNumbered k [] = Unit
IsNumbered k (r ∷ rs) = r.id ≡ k × IsNumbered (suc k) rs

-- What a refund has paid back.
abbrev pub paid_back : Refund → ℕ
paid_back r = if is_processed r.status then r.amount else 0

abbrev pub total_paid_back : List Refund → ℕ
total_paid_back [] = 0
total_paid_back (r ∷ rs) = paid_back r + total_paid_back rs

pub update_refund-IsNumbered :
    (i : ℕ) (g : Refund → Refund) (k : ℕ) (rs : List Refund)
    → ((r : Refund) → (g r).id ≡ r.id)
    → IsNumbered k rs
    → IsNumbered k (update_refund i g rs)
update_refund-IsNumbered i g k [] keeps n = tt
update_refund-IsNumbered i g k (r ∷ rs) keeps n = elim (Bool-cases (r.id == i)) [
  | inl y ↦ rw y (keeps r ∙ n.0, n.1)
  | inr m ↦ rw m (n.0, update_refund-IsNumbered i g (suc k) rs keeps n.1)
]

found_case :
    (b : Bool) (q r : Refund) (x : Option Refund)
    → (if b then some q else x) ≡ some r
    → (b ≡ true × q ≡ r) ⊎ (b ≡ false × x ≡ some r)
found_case true q r x e = inl (refl, cc)
found_case false q r x e = inr (refl, e)

pub update_refund-total :
    (i : ℕ) (g : Refund → Refund) (rs : List Refund) (r : Refund)
    → find_refund i rs ≡ some r
    → total_paid_back (update_refund i g rs) + paid_back r ≡ total_paid_back rs + paid_back (g r)
update_refund-total i g [] r f = cc
update_refund-total i g (q ∷ rs) r f = elim (found_case (q.id == i) q r (find_refund i rs) f) [
  | inl (y, e) ↦ rw y (
      subst
        (λ z.
          paid_back (g q) + total_paid_back rs + paid_back z
          ≡ paid_back q + total_paid_back rs + paid_back (g z))
        e (omega arith))
  | inr (m, e) ↦ rw m (omega (arith, update_refund-total i g rs r e))
]

pub append-IsNumbered :
    (k : ℕ) (rs : List Refund) (r : Refund)
    → IsNumbered k rs
    → r.id ≡ k + length rs
    → IsNumbered k (rs ++ (r ∷ []))
append-IsNumbered k [] r n e = (omega (arith, e), tt)
append-IsNumbered k (q ∷ rs) r n e = (n.0, append-IsNumbered (suc k) rs r n.1 (omega (arith, e)))

pub append-total :
    (rs : List Refund) (r : Refund)
    → total_paid_back (rs ++ (r ∷ [])) ≡ total_paid_back rs + paid_back r
append-total [] r = omega arith
append-total (q ∷ rs) r = omega (arith, append-total rs r)

pub find_refund-id : (i : ℕ) (rs : List Refund) (r : Refund) → find_refund i rs ≡ some r → r.id ≡ i
find_refund-id i [] r f = cc
find_refund-id i (q ∷ rs) r f = ground (arith, find_refund-id i rs r)

pub find_refund-lower :
    (k i : ℕ) (rs : List Refund) (r : Refund) → IsNumbered k rs → find_refund i rs ≡ some r → k ≤ i
find_refund-lower k i [] r n f = cc
find_refund-lower k i (q ∷ rs) r n f = elim (found_case (q.id == i) q r (find_refund i rs) f) [
  | inl (y, e) ↦ omega (arith, ==→eq q.id i y, n.0)
  | inr (m, e) ↦ omega (arith, find_refund-lower (suc k) i rs r n.1 e)
]

pub update_refund-found :
    (i : ℕ) (g : Refund → Refund) (rs : List Refund) (r : Refund)
    → ((q : Refund) → (g q).id ≡ q.id)
    → find_refund i rs ≡ some r
    → find_refund i (update_refund i g rs) ≡ some (g r)
update_refund-found i g [] r keeps f = cc
update_refund-found i g (q ∷ rs) r keeps f =
    elim (found_case (q.id == i) q r (find_refund i rs) f) [
      | inl (y, e) ↦ rw (y, eq→== (g q).id i (keeps q ∙ ==→eq q.id i y)) (ap (λ z. some (g z)) e)
      | inr (m, e) ↦ rw (m, m) (update_refund-found i g rs r keeps e)
    ]

paid_back-zero : (r : Refund) → is_processed r.status ≡ false → paid_back r ≡ 0
paid_back-zero r h = rw h refl

-- A change of a row that is not processed, and is not afterwards, pays nothing back.
pub update_refund-keeps_total :
    (i : ℕ) (g : Refund → Refund) (rs : List Refund) (r : Refund)
    → find_refund i rs ≡ some r
    → is_processed r.status ≡ false
    → is_processed (g r).status ≡ false
    → total_paid_back (update_refund i g rs) ≡ total_paid_back rs
update_refund-keeps_total i g rs r f h h' =
    omega (arith, update_refund-total i g rs r f, paid_back-zero r h, paid_back-zero (g r) h')

-- The row that is marked as processed is paid back.
pub update_refund-pays :
    (i : ℕ) (g : Refund → Refund) (rs : List Refund) (r : Refund)
    → find_refund i rs ≡ some r
    → is_processed r.status ≡ false
    → is_processed (g r).status ≡ true
    → (g r).amount ≡ r.amount
    → total_paid_back (update_refund i g rs) ≡ total_paid_back rs + r.amount
update_refund-pays i g rs r f h h' a =
    omega (arith, update_refund-total i g rs r f, paid_back-zero r h, paid_of (g r) h', a)
  where
    paid_of : (q : Refund) → is_processed q.status ≡ true → paid_back q ≡ q.amount
    paid_of q t = rw t refl

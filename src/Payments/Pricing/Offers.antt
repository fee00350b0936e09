-- ===== src/Payments/Pricing/Offers.antt =====
-- payments/service.py: the price, the discount and the limits of a quote without errors.
use native.Mathlib.Nat.{mul-le-mul_left}
use flexyvotes.Base.{
  ℕ, ◌-◌, min, ◌≤◌, ◌<◌, ◌≡◌, refl, ◌∙◌, sym, ◌⊎◌, Bool, true, false, ◌||◌, not, Option, none, some,
  List, [], ◌∷◌, ◌++◌, ltb, ◌==◌, if_intro, arith,
}
use flexyvotes.Payments.Pricing.{
  PaidEvent, VotePackage, DiscountCode, DiscountKind, percent, fixed, bonus, QuoteError,
  package_unavailable, invalid_code, below_minimum, code_used, nothing_to_pay, Quote, error_if,
  reached, price_package, price_votes, percent_off, grant_discount, apply_discount, discount_quote,
  set_amount, is_code_available, is_package_available,
}
use flexyvotes.Payments.Pricing.Limits.{price}

pub append_empty : {A : Type 0} (xs ys : List A) → xs ++ ys ≡ [] → xs ≡ [] × ys ≡ []
append_empty [] ys h = (refl, h)
append_empty (x ∷ xs) ys h = cc

pub error_if_empty : (b : Bool) (e : QuoteError) → error_if b e ≡ [] → b ≡ false
error_if_empty b e h = ground arith

-- One more error.
pub append_error : {R : Type 0} (e : QuoteError) (es : List QuoteError) → es ++ (e ∷ []) ≡ [] → R
append_error e es h = error_not_empty (append_empty es (e ∷ []) h).1
  where
    error_not_empty : {R : Type 0} → e ∷ [] ≡ [] → R
    error_not_empty q = cc

pub percent_off_le : (gross value : ℕ) → percent_off gross value ≤ gross
unfolding percent_off
percent_off_le gross value = omega (arith, mul-le-mul_left gross (min_le value))
  where
    min_le : (v : ℕ) → min v 10000 ≤ 10000
    min_le v = omega arith

grant_discount_le :
    (k : DiscountKind) (value : ℕ) (q : Quote)
    → q.discount ≤ q.gross
    → (grant_discount k value q).discount ≤ (grant_discount k value q).gross
      × (grant_discount k value q).errors ≡ q.errors
unfolding grant_discount
grant_discount_le percent value q h = (percent_off_le q.gross value, refl)
grant_discount_le fixed value q h = (omega arith, refl)
grant_discount_le bonus value q h = (h, refl)

-- An offer that has no errors had none before, and its discount is within its price.
abbrev pub IsFair : Quote → Quote → Type 0
IsFair q r = r.errors ≡ [] → q.errors ≡ [] × r.discount ≤ r.gross

apply_discount-IsFair :
    (used : Option ℕ) (d : DiscountCode) (q : Quote)
    → q.discount ≤ q.gross
    → IsFair q (apply_discount used d q)
unfolding apply_discount
apply_discount-IsFair used d q h =
    if_intro (IsFair q) (elim d.min_amount [ none ↦ false | some m ↦ ltb q.gross m ]) _ _
      (λ t e. append_error below_minimum q.errors e)
      (λ t.
        if_intro (IsFair q) (elim used [ none ↦ false | some n ↦ reached d.per_payer_limit n ]) _ _
          (λ t e. append_error code_used q.errors e)
          (λ t e.
            let facts = grant_discount_le d.kind d.value (record q { discount_code = some d }) h in
            (sym facts.1 ∙ e, facts.0)))

pub discount_quote-IsFair :
    (now : ℕ) (given : Bool) (used : DiscountCode → Option ℕ) (d : Option DiscountCode) (q : Quote)
    → q.discount ≤ q.gross
    → IsFair q (discount_quote now given used d q)
unfolding discount_quote
discount_quote-IsFair now given used none q h =
    λ e. ((append_empty q.errors (error_if given invalid_code) e).0, h)
discount_quote-IsFair now given used (some d) q h =
    if_intro (IsFair q) (not (is_code_available d now)) _ _
      (λ t e. append_error invalid_code q.errors e) (λ t. apply_discount-IsFair (used d) d q h)

set_amount_empty :
    (es : List QuoteError) (amount : ℕ)
    → elim es [ [] ↦ error_if (amount == 0) nothing_to_pay | e ∷ es ↦ e ∷ es ] ≡ []
    → es ≡ [] × 0 < amount
set_amount_empty [] amount h = (refl, ground arith)
set_amount_empty (e ∷ es) amount h = cc

pub set_amount_pays :
    (q : Quote) → (set_amount q).errors ≡ [] → q.errors ≡ [] × 0 < q.gross - q.discount
unfolding set_amount
set_amount_pays q h = set_amount_empty q.errors (q.gross - q.discount) h

-- A price without errors had none before, and goes on.
abbrev GoesOn : Quote → Quote × Bool → Type 0
GoesOn q r = r.0.errors ≡ [] → q.errors ≡ [] × r.1 ≡ true

price_votes-GoesOn :
    (event : PaidEvent) (votes : ℕ) (q : Quote) → GoesOn q (price_votes event votes q, true)
unfolding price_votes
price_votes-GoesOn event votes q e = ((append_empty q.errors _ e).0, refl)

price_package-GoesOn :
    (event : PaidEvent) (now : ℕ) (k : VotePackage) (q : Quote)
    → GoesOn q (price_package event now k q)
unfolding price_package
price_package-GoesOn event now k q =
    if_intro (GoesOn q) (not (k.event == event.event.id) || not (is_package_available k now)) _ _
      (λ t e. append_error package_unavailable q.errors e) (λ t e. (e, refl))

pub price-GoesOn :
    (event : PaidEvent) (now votes : ℕ) (k : Option VotePackage) (q : Quote)
    → GoesOn q (price event now votes k q)
unfolding price
price-GoesOn event now votes none q = price_votes-GoesOn event votes q
price-GoesOn event now votes (some k) q = price_package-GoesOn event now k q

price_package_discount :
    (event : PaidEvent) (now : ℕ) (k : VotePackage) (q : Quote)
    → (price_package event now k q).0.discount ≡ q.discount
unfolding price_package
price_package_discount event now k q =
    if_intro (λ (r : Quote × Bool). r.0.discount ≡ q.discount)
      (not (k.event == event.event.id) || not (is_package_available k now)) _ _ (λ t. refl)
      (λ t. refl)

pub price_discount :
    (event : PaidEvent) (now votes : ℕ) (k : Option VotePackage) (q : Quote)
    → (price event now votes k q).0.discount ≡ q.discount
unfolding price price_votes
price_discount event now votes none q = refl
price_discount event now votes (some k) q = price_package_discount event now k q

-- Within a limit, which none and 0 do not set.
abbrev pub AtMost : ℕ → Option ℕ → Type 0
AtMost x none = Unit
AtMost x (some limit) = limit ≡ 0 ⊎ x ≤ limit

-- ===== src/Payments/Pricing/Limits.antt =====
-- payments/service.py: the payments that a payer has made, the limits for a payer, and the quote.
use flexyvotes.Base.{
  ℕ, ◌+◌, Bool, true, false, ◌&&◌, ◌||◌, not, Option, none, some, List, [], ◌∷◌, ◌++◌, ◌==◌, length,
  keep, total, if◌then◌else◌,
}
use flexyvotes.Elections.Model.{is_paid, accepting_votes}
use flexyvotes.Payments.Pricing.{
  PaidEvent, Category, Contestant, VotePackage, DiscountCode, QuoteError, not_paid_voting,
  invalid_contestant, not_accepting, voting_closed, voter_limit, candidate_limit, category_limit,
  spending_limit, package_limit, Quote, total_votes, add_errors, error_if, exceeds, reached,
  unit_price, find_discount, price_package, price_votes, discount_quote, set_amount,
}

-- A row of `Payment`, with the columns that the limits read. An index is `none` where it is empty.
pub record PriorPayment : Type 0 where
  pub event : ℕ
  pub candidate : ℕ
  pub category : Option ℕ
  pub vote_package : Option ℕ
  pub discount : Option ℕ
  pub email : Option ℕ
  pub phone : Option ℕ
  pub is_success : Bool
  pub votes_credited : Bool
  pub votes : ℕ
  pub bonus_votes : ℕ
  pub amount : ℕ

-- What the caller knows of the payer: the blind indexes of the email and the phone.
pub record Payer : Type 0 where
  pub email : Option ℕ
  pub phone : Option ℕ

abbrev pub is_known : Option ℕ → Bool
is_known none = false
is_known (some i) = true

-- Two columns that are both filled in, and equal.
unfoldable pub same_index : Option ℕ → Option ℕ → Bool
same_index none j = false
same_index (some i) none = false
same_index (some i) (some j) = i == j

-- `_payer_scope`
unfoldable pub payer_scope : ℕ → Payer → List PriorPayment → List PriorPayment
unfolding same_index
payer_scope event payer table =
    keep
      (λ p. p.event == event && (same_index payer.email p.email || same_index payer.phone p.phone))
      table

-- `prior`
unfoldable pub prior_payments : ℕ → Payer → List PriorPayment → List PriorPayment
unfolding payer_scope
prior_payments event payer table =
    keep (λ p. p.is_success && p.votes_credited) (payer_scope event payer table)

-- `Sum(F('votes') + F('bonus_votes'))`
abbrev pub votes_bought : List PriorPayment → ℕ
votes_bought prior = total (λ p. p.votes + p.bonus_votes) prior

-- How often the payer used a code, by email.
unfoldable pub uses_of : Payer → List PriorPayment → DiscountCode → Option ℕ
unfolding same_index
uses_of payer table d = elim payer.email [
  | none ↦ none
  | some e ↦ some (
      length (
        keep
          (λ p. same_index (some d.id) p.discount && (same_index (some e) p.email && p.is_success))
          table))
]

-- The limit of the contestant's category.
unfoldable pub category_error : Option Category → List PriorPayment → ℕ → List QuoteError
unfolding exceeds same_index
category_error none prior votes = []
category_error (some g) prior votes =
    error_if
      (exceeds g.max_votes_per_voter
        (votes_bought (keep (λ p. same_index (some g.id) p.category) prior) + votes))
      category_limit

-- The limit of the package.
unfoldable pub package_error : Option VotePackage → List PriorPayment → List QuoteError
unfolding reached same_index
package_error none prior = []
package_error (some k) prior =
    error_if
      (reached k.max_per_payer (length (keep (λ p. same_index (some k.id) p.vote_package) prior)))
      package_limit

-- The limits for the payer.
unfoldable pub limit_errors : PaidEvent → Contestant → List PriorPayment → Quote → List QuoteError
unfolding category_error package_error
limit_errors event c prior q =
    error_if (exceeds event.max_votes_per_voter (votes_bought prior + total_votes q)) voter_limit
    ++ (error_if
          (exceeds c.max_votes_per_voter
            (votes_bought (keep (λ p. p.candidate == c.id) prior) + total_votes q))
          candidate_limit
        ++ (category_error c.category prior (total_votes q)
            ++ (error_if
                  (exceeds event.max_spend_per_voter (total (λ p. p.amount) prior + q.amount))
                  spending_limit
                ++ package_error q.vote_package prior)))

-- What the caller wants to buy.
pub record Purchase : Type 0 where
  pub votes : ℕ
  pub vote_package : Option VotePackage
  pub discount_code : Option ℕ

-- The tables that a quote reads.
pub record Tables : Type 0 where
  pub codes : List DiscountCode
  pub payments : List PriorPayment

-- The price, and whether the quote goes on.
unfoldable pub price : PaidEvent → ℕ → ℕ → Option VotePackage → Quote → Quote × Bool
unfolding price_package price_votes
price event now votes none q = (price_votes event votes q, true)
price event now votes (some k) q = price_package event now k q

-- The discount, the amount and the limits.
unfoldable pub complete_quote :
    PaidEvent → Contestant → ℕ → Payer → Tables → Purchase → Quote → Quote
unfolding discount_quote find_discount set_amount uses_of limit_errors prior_payments
complete_quote event c now payer tables w q =
    let offered =
      discount_quote now (is_known w.discount_code) (uses_of payer tables.payments)
        (find_discount event tables.codes w.discount_code) q in
    let priced = set_amount offered in
    if is_known payer.email || is_known payer.phone
    then add_errors
        (limit_errors event c (prior_payments event.event.id payer tables.payments) priced) priced
    else priced

abbrev pub empty_quote : Quote
empty_quote = record {
  votes = 0;
  bonus_votes = 0;
  unit_price = 0;
  gross = 0;
  discount = 0;
  amount = 0;
  vote_package = none;
  discount_code = none;
  errors = [];
}

unfoldable pub quote : PaidEvent → Contestant → ℕ → Payer → Tables → Purchase → Quote
unfolding price complete_quote unit_price accepting_votes
quote event c now payer tables w =
    if not (is_paid event.event)
    then add_errors (not_paid_voting ∷ []) empty_quote
    else if not (c.event == event.event.id)
    then add_errors (invalid_contestant ∷ []) empty_quote
    else (let opened = record empty_quote {
      unit_price = unit_price event c;
      errors =
          error_if (not c.is_active) not_accepting
          ++ error_if (not (accepting_votes event.event now)) voting_closed;
    } in
        let priced = price event now w.votes w.vote_package opened in
        if priced.1 then complete_quote event c now payer tables w priced.0 else priced.0)

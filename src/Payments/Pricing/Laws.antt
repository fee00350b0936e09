-- ===== src/Payments/Pricing/Laws.antt =====
-- payments/service.py: `quote`, on the quotes without errors.
use flexyvotes.Base.{
  ℕ, ◌+◌, ◌≤◌, ◌<◌, ◌≡◌, refl, ◌⊎◌, inl, inr, Bool, true, false, ◌||◌, not, Option, none, some,
  List, [], ◌++◌, ◌==◌, keep, total, if◌then◌else◌, if_intro, arith,
}
use flexyvotes.Elections.Model.{is_paid, accepting_votes}
use flexyvotes.Payments.Pricing.{
  PaidEvent, Contestant, DiscountCode, not_paid_voting, invalid_contestant, not_accepting,
  voting_closed, voter_limit, candidate_limit, spending_limit, Quote, total_votes, error_if,
  exceeds, find_discount, discount_quote, set_amount,
}
use flexyvotes.Payments.Pricing.Limits.{
  PriorPayment, Payer, is_known, prior_payments, votes_bought, uses_of, category_error,
  limit_errors, Purchase, Tables, price, complete_quote, quote,
}
use flexyvotes.Payments.Pricing.Offers.{
  append_empty, error_if_empty, append_error, IsFair, discount_quote-IsFair, set_amount_pays,
  price-GoesOn, price_discount, AtMost,
}

-- What the limits on votes and spending say of a quote.
pub record IsWithin (event : PaidEvent) (prior : List PriorPayment) (q : Quote) : Type 0 where
  pub within_votes : AtMost (votes_bought prior + total_votes q) event.max_votes_per_voter
  pub within_spending : AtMost (total (λ p. p.amount) prior + q.amount) event.max_spend_per_voter

exceeds-false : (limit : Option ℕ) (x : ℕ) → exceeds limit x ≡ false → AtMost x limit
unfolding exceeds
exceeds-false none x h = tt
exceeds-false (some n) x h = ground arith

limits_hold :
    (event : PaidEvent) (c : Contestant) (prior : List PriorPayment) (q : Quote)
    → limit_errors event c prior q ≡ []
    → IsWithin event prior q
unfolding limit_errors
limits_hold event c prior q h =
    let first =
      append_empty
        (error_if (exceeds event.max_votes_per_voter (votes_bought prior + total_votes q))
          voter_limit)
        _ h in
    let second =
      append_empty
        (error_if
          (exceeds c.max_votes_per_voter
            (votes_bought (keep (λ p. p.candidate == c.id) prior) + total_votes q))
          candidate_limit)
        _ first.1 in
    let third = append_empty (category_error c.category prior (total_votes q)) _ second.1 in
    let fourth =
      append_empty
        (error_if (exceeds event.max_spend_per_voter (total (λ p. p.amount) prior + q.amount))
          spending_limit)
        _ third.1 in
    record {
      within_votes =
          exceeds-false event.max_votes_per_voter _ (error_if_empty _ voter_limit first.0);
      within_spending =
          exceeds-false event.max_spend_per_voter _ (error_if_empty _ spending_limit fourth.0);
    }

-- A quote that can be paid: there is something to pay, the amount and the discount make up the price,
-- and a payer who is known stays within the limits.
pub record IsPayable (event : PaidEvent) (payer : Payer) (tables : Tables) (q : Quote)
    : Type 0 where
  pub pays : 0 < q.amount
  pub adds_up : q.amount + q.discount ≡ q.gross
  pub within :
      (payer.email ≡ none × payer.phone ≡ none)
      ⊎ IsWithin event (prior_payments event.event.id payer tables.payments) q

set_amount_payable :
    (q offered : Quote)
    → IsFair q offered
    → (set_amount offered).errors ≡ []
    → q.errors ≡ []
      × 0 < (set_amount offered).amount
      × (set_amount offered).amount + (set_amount offered).discount ≡ (set_amount offered).gross
unfolding set_amount
set_amount_payable q offered fair e =
    let pays = set_amount_pays offered e in
    let facts = fair pays.0 in (facts.0, pays.1, omega (arith, facts.1))

complete_quote-IsPayable :
    (event : PaidEvent) (c : Contestant) (now : ℕ) (payer : Payer) (tables : Tables) (w : Purchase)
    (q : Quote)
    → q.discount ≤ q.gross
    → (complete_quote event c now payer tables w q).errors ≡ []
    → q.errors ≡ [] × IsPayable event payer tables (complete_quote event c now payer tables w q)
unfolding complete_quote
complete_quote-IsPayable event c now payer tables w q h =
    let prior : List PriorPayment = prior_payments event.event.id payer tables.payments in
    let code : Option DiscountCode = find_discount event tables.codes w.discount_code in
    let offered : Quote =
      discount_quote now (is_known w.discount_code) (uses_of payer tables.payments) code q in
    let fair : IsFair q offered =
      discount_quote-IsFair now (is_known w.discount_code) (uses_of payer tables.payments) code q
        h in
    if_intro (λ (r : Quote). r.errors ≡ [] → q.errors ≡ [] × IsPayable event payer tables r)
      (is_known payer.email || is_known payer.phone) _ _
      (λ k e.
        let parts =
          append_empty (set_amount offered).errors (limit_errors event c prior (set_amount offered))
            e in
        let facts = set_amount_payable q offered fair parts.0 in
        let limits = limits_hold event c prior (set_amount offered) parts.1 in
        (
          facts.0,
          record {
            pays = facts.1;
            adds_up = facts.2;
            within = inr record {
              within_votes = limits.within_votes;
              within_spending = limits.within_spending;
            };
          },
        ))
      (λ k e.
        let facts = set_amount_payable q offered fair e in
        (
          facts.0,
          record {
            pays = facts.1;
            adds_up = facts.2;
            within = inl (unknown payer.email payer.phone k);
          },
        ))
  where
    unknown : (e p : Option ℕ) → is_known e || is_known p ≡ false → e ≡ none × p ≡ none
    unknown e p h = ground arith

-- What the start of a quote checks.
opened_errors :
    (event : PaidEvent) (c : Contestant) (now : ℕ)
    → error_if (not c.is_active) not_accepting
        ++ error_if (not (accepting_votes event.event now)) voting_closed
      ≡ []
    → c.is_active ≡ true × accepting_votes event.event now ≡ true
opened_errors event c now h = ground arith

-- What a quote without errors promises.
abbrev IsOffered : PaidEvent → Contestant → ℕ → Payer → Tables → Quote → Type 0
IsOffered event c now payer tables q =
    is_paid event.event ≡ true
    × c.event ≡ event.event.id
    × c.is_active ≡ true
    × accepting_votes event.event now ≡ true
    × IsPayable event payer tables q

priced_offered :
    (event : PaidEvent) (c : Contestant) (now : ℕ) (payer : Payer) (tables : Tables) (w : Purchase)
    (opened : Quote)
    → opened.discount ≡ 0
    → let r : Quote =
        if (price event now w.votes w.vote_package opened).1
        then complete_quote event c now payer tables w
            (price event now w.votes w.vote_package opened).0
        else (price event now w.votes w.vote_package opened).0 in
      r.errors ≡ [] → opened.errors ≡ [] × IsPayable event payer tables r
priced_offered event c now payer tables w opened z =
    if_intro (λ (r : Quote). r.errors ≡ [] → opened.errors ≡ [] × IsPayable event payer tables r)
      (price event now w.votes w.vote_package opened).1 _ _
      (λ t e.
        let small : (price event now w.votes w.vote_package opened).0.discount
            ≤ (price event now w.votes w.vote_package opened).0.gross =
          omega (arith, price_discount event now w.votes w.vote_package opened, z) in
        let facts =
          complete_quote-IsPayable event c now payer tables w
            (price event now w.votes w.vote_package opened).0 small e in
        ((price-GoesOn event now w.votes w.vote_package opened facts.0).0, facts.1))
      (λ t e. absurd (true_not_false (price-GoesOn event now w.votes w.vote_package opened e).1 t))
  where
    true_not_false : {b : Bool} → b ≡ true → b ≡ false → ⊥
    true_not_false t f = cc

-- A quote without errors is for an active contestant of a paid election that accepts votes now; there
-- is something to pay, and the amount and the discount make up the price; and where the payer is known
-- by email or phone, the votes and the spending of the payer's earlier successful, credited payments
-- in the election together with these stay within the limits that the election sets.
pub quote-IsPayable :
    (event : PaidEvent) (c : Contestant) (now : ℕ) (payer : Payer) (tables : Tables) (w : Purchase)
    → (quote event c now payer tables w).errors ≡ []
    → is_paid event.event ≡ true
      × c.event ≡ event.event.id
      × c.is_active ≡ true
      × accepting_votes event.event now ≡ true
      × IsPayable event payer tables (quote event c now payer tables w)
unfolding quote
quote-IsPayable event c now payer tables w =
    if_intro Offered (not (is_paid event.event)) _ _ (λ t. append_error not_paid_voting [])
      (λ paid_voting.
        if_intro Offered (not (c.event == event.event.id)) _ _
          (λ t. append_error invalid_contestant [])
          (λ own e.
            let facts = priced_offered event c now payer tables w _ refl e in
            let checks = opened_errors event c now facts.0 in
            (not_false paid_voting, ground (arith, own), checks.0, checks.1, facts.1)))
  where
    Offered : Quote → Type 0
    Offered q = q.errors ≡ [] → IsOffered event c now payer tables q

    not_false : {b : Bool} → not b ≡ false → b ≡ true
    not_false h = ground arith

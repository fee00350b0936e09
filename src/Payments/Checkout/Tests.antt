-- ===== src/Payments/Checkout/Tests.antt =====
-- A purchase of ten votes at 1.20 with 10% off, twice under one key.
use flexyvotes.Base.{ℕ, ◌≡◌, refl, true, false, none, some, [], ◌∷◌}
use flexyvotes.Elections.Model.{Event, opened, pay_to_vote, system, is_paid, accepting_votes}
use flexyvotes.Payments.Pricing.{PaidEvent, Contestant, DiscountCode, percent}
use flexyvotes.Payments.Pricing.Limits.{PriorPayment, Payer, Purchase, Tables, quote}
use flexyvotes.Payments.Pricing.Laws.{IsPayable, quote-IsPayable}
use flexyvotes.Payments.Checkout.{
  CheckoutCall, CheckoutRow, checked_out, new_row, initiate_vote_payment,
}
use flexyvotes.Payments.Checkout.Laws.{
  IsHandedOut, initiate_vote_payment-IsHandedOut, initiate_vote_payment-repeat,
}

abbrev election : Event
election = record {
  id = 1;
  voting_mode = pay_to_vote;
  status = opened;
  start_date = 10;
  end_date = 9000;
  is_active = true;
  auth_methods = 1;
  allow_self_registration = false;
  dual_approval_required = false;
  config_frozen = true;
  ballot_frozen = true;
  candidates_frozen = true;
  voter_list_frozen = true;
  legal_hold = false;
  submitted_by = none;
  reviewed_by = none;
  key_custody = system;
  trustee_threshold = 0;
  record_constituency_on_ballot = false;
  vote_price = 120;
  opened_at = some 10;
  closed_at = none;
  certified_at = none;
  published_at = none;
  archived_at = none;
  positions = [];
  has_candidates = true;
  has_unassigned = false;
  trustee_count = 0;
  open_disputes = 0;
  snapshots = 0;
  has_voters = true;
  has_packages = false;
  has_ballot_key = true;
}

abbrev gala : PaidEvent
gala = record {
  event = election;
  organization = 1;
  currency = 1;
  max_votes_per_voter = some 50;
  min_votes_per_transaction = 1;
  max_votes_per_transaction = some 100;
  max_spend_per_voter = none;
}

abbrev contestant : Contestant
contestant = record {
  id = 3;
  event = 1;
  is_active = true;
  category = none;
  max_votes_per_voter = none;
}

abbrev ten_percent : DiscountCode
ten_percent = record {
  id = 4;
  organization = none;
  event = some 1;
  code = 8;
  kind = percent;
  value = 1000;
  max_redemptions = some 5;
  per_payer_limit = some 1;
  min_amount = none;
  starts_at = none;
  ends_at = none;
  is_active = true;
  redemptions_count = 0;
}

abbrev earlier : PriorPayment
earlier = record {
  event = 1;
  candidate = 3;
  category = none;
  vote_package = none;
  discount = none;
  email = some 21;
  phone = none;
  is_success = true;
  votes_credited = true;
  votes = 30;
  bonus_votes = 0;
  amount = 3600;
}

abbrev payer : Payer
payer = record { email = some 21; phone = none }

abbrev tables : Tables
tables = record { codes = ten_percent ∷ []; payments = earlier ∷ [] }

abbrev votes : ℕ → Purchase
votes n = record { votes = n; vote_package = none; discount_code = some 8 }

ten_votes : (quote gala contestant 100 payer tables (votes 10)).amount ≡ 1080
unfolding quote
ten_votes = refl

quote-IsPayable_example :
    is_paid election ≡ true
    × contestant.event ≡ election.id
    × contestant.is_active ≡ true
    × accepting_votes election 100 ≡ true
    × IsPayable gala payer tables (quote gala contestant 100 payer tables (votes 10))
unfolding quote
quote-IsPayable_example = quote-IsPayable gala contestant 100 payer tables (votes 10) refl

abbrev a_call : CheckoutCall
a_call = record {
  configured = true;
  idempotency_key = some 6;
  reference = 7;
  event = gala;
  contestant = contestant;
  payer = payer;
  purchase = votes 10;
  channel_hint = 0;
  risk = record { score = 10; decision = 0; is_held = false };
  challenged = false;
  has_captcha = true;
  captcha_passed = false;
  gateway_accepts = true;
}

abbrev a_row : CheckoutRow
a_row = new_row a_call (quote gala contestant 100 payer tables (votes 10))

initiate_vote_payment-IsHandedOut_example :
    IsHandedOut a_call
      (quote gala contestant 100 payer tables (votes 10))
      []
      (initiate_vote_payment 100 tables a_call []).0
      a_row
unfolding initiate_vote_payment
initiate_vote_payment-IsHandedOut_example =
    initiate_vote_payment-IsHandedOut 100 tables a_call [] a_row refl

initiate_vote_payment-repeat_example :
    initiate_vote_payment 200 tables a_call (initiate_vote_payment 100 tables a_call []).0
    ≡ ((initiate_vote_payment 100 tables a_call []).0, checked_out a_row)
unfolding initiate_vote_payment
initiate_vote_payment-repeat_example =
    initiate_vote_payment-repeat 100 200 tables tables a_call a_call [] a_row 6 refl refl refl refl
      refl refl

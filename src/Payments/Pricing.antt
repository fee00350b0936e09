-- ===== src/Payments/Pricing.antt =====
-- payments/service.py: the price of a vote purchase and its limits. A percentage is in hundredths of a
-- percent. A number of votes that is negative or is no number is 0 here; both are refused.
pub mod Limits
pub mod Laws
pub mod Offers
use flexyvotes.Base.{
  ℕ, ◌+◌, ◌-◌, ◌*◌, ◌/◌, min, max, Bool, true, false, ◌&&◌, ◌||◌, not, Option, none, some, List, [],
  ◌∷◌, ◌++◌, ltb, leb, ◌==◌, length, keep, total, if◌then◌else◌,
}
use flexyvotes.Elections.Model.{Event, is_paid, accepting_votes}

-- The columns of `Event` that only paid voting reads.
pub record PaidEvent : Type 0 where
  pub event : Event
  pub organization : ℕ
  pub currency : ℕ
  pub max_votes_per_voter : Option ℕ
  pub min_votes_per_transaction : ℕ
  pub max_votes_per_transaction : Option ℕ
  pub max_spend_per_voter : Option ℕ

pub record Category : Type 0 where
  pub id : ℕ
  pub vote_price : Option ℕ
  pub max_votes_per_voter : Option ℕ

pub record Contestant : Type 0 where
  pub id : ℕ
  pub event : ℕ
  pub is_active : Bool
  pub category : Option Category
  pub max_votes_per_voter : Option ℕ

pub record VotePackage : Type 0 where
  pub id : ℕ
  pub event : ℕ
  pub votes : ℕ
  pub bonus_votes : ℕ
  pub price : ℕ
  pub is_active : Bool
  pub starts_at : Option ℕ
  pub ends_at : Option ℕ
  pub max_per_payer : Option ℕ

pub data DiscountKind : Type 0 where
  percent fixed bonus : DiscountKind

pub record DiscountCode : Type 0 where
  pub id : ℕ
  pub organization : Option ℕ
  pub event : Option ℕ
  pub code : ℕ
  pub kind : DiscountKind
  pub value : ℕ
  pub max_redemptions : Option ℕ
  pub per_payer_limit : Option ℕ
  pub min_amount : Option ℕ
  pub starts_at : Option ℕ
  pub ends_at : Option ℕ
  pub is_active : Bool
  pub redemptions_count : ℕ

-- `starts_at` and `ends_at` of a package or a code.
unfoldable pub in_window : Option ℕ → Option ℕ → ℕ → Bool
in_window starts ends now =
    elim starts [ none ↦ true | some s ↦ leb s now ]
    && elim ends [ none ↦ true | some e ↦ ltb now e ]

-- `VotePackage.is_available`
abbrev pub is_package_available : VotePackage → ℕ → Bool
is_package_available p now = p.is_active && in_window p.starts_at p.ends_at now

-- `DiscountCode.is_available`
abbrev pub is_code_available : DiscountCode → ℕ → Bool
is_code_available d now =
    d.is_active
    && (in_window d.starts_at d.ends_at now
        && elim d.max_redemptions [ none ↦ true | some m ↦ ltb d.redemptions_count m ])

-- The messages of a quote.
pub data QuoteError : Type 0 where
  not_paid_voting invalid_contestant not_accepting voting_closed package_unavailable : QuoteError
  too_few_votes too_many_votes no_price invalid_code below_minimum code_used nothing_to_pay :
      QuoteError
  voter_limit candidate_limit category_limit spending_limit package_limit : QuoteError

pub record Quote : Type 0 where
  pub votes : ℕ
  pub bonus_votes : ℕ
  pub unit_price : ℕ
  pub gross : ℕ
  pub discount : ℕ
  pub amount : ℕ
  pub vote_package : Option VotePackage
  pub discount_code : Option DiscountCode
  pub errors : List QuoteError

-- `Quote.total_votes`
abbrev pub total_votes : Quote → ℕ
total_votes q = q.votes + q.bonus_votes

abbrev pub add_errors : List QuoteError → Quote → Quote
add_errors es q = record q { errors = q.errors ++ es }

-- `if b: q.errors.append(e)`
abbrev pub error_if : Bool → QuoteError → List QuoteError
error_if b e = if b then e ∷ [] else []

-- `limit and x > limit`
unfoldable pub exceeds : Option ℕ → ℕ → Bool
exceeds none x = false
exceeds (some limit) x = not (limit == 0) && ltb limit x

-- `limit and count >= limit`
unfoldable pub reached : Option ℕ → ℕ → Bool
reached none count = false
reached (some limit) count = not (limit == 0) && leb limit count

-- `unit_price`
unfoldable pub unit_price : PaidEvent → Contestant → ℕ
unit_price event c = elim c.category [
  | none ↦ event.event.vote_price
  | some g ↦ elim g.vote_price [ none ↦ event.event.vote_price | some p ↦ p ]
]

-- `DiscountCode.objects.filter(code=…).first()`, for a code that is stripped and in upper case.
abbrev pub code_named : ℕ → List DiscountCode → Option DiscountCode
code_named code [] = none
code_named code (d ∷ ds) = if d.code == code then some d else code_named code ds

-- The tests on the event and the organization of a code.
abbrev pub belongs_to : PaidEvent → DiscountCode → Bool
belongs_to event d =
    elim d.event [ none ↦ true | some e ↦ e == event.event.id ]
    && elim d.organization [ none ↦ true | some o ↦ o == event.organization ]

unfoldable pub if_belongs : PaidEvent → Option DiscountCode → Option DiscountCode
if_belongs event none = none
if_belongs event (some d) = if belongs_to event d then some d else none

-- `_find_discount`
unfoldable pub find_discount : PaidEvent → List DiscountCode → Option ℕ → Option DiscountCode
unfolding if_belongs
find_discount event table none = none
find_discount event table (some code) = if_belongs event (code_named code table)

-- The purchase of a package.
unfoldable pub price_package : PaidEvent → ℕ → VotePackage → Quote → Quote × Bool
unfolding in_window
price_package event now p q =
    if not (p.event == event.event.id) || not (is_package_available p now)
    then (add_errors (package_unavailable ∷ []) q, false)
    else (
      record q {
        vote_package = some p;
        votes = p.votes;
        bonus_votes = p.bonus_votes;
        gross = p.price;
      },
      true,
    )

-- The purchase of single votes.
unfoldable pub price_votes : PaidEvent → ℕ → Quote → Quote
unfolding exceeds
price_votes event votes q =
    let found =
      error_if (ltb votes (max 1 event.min_votes_per_transaction)) too_few_votes
      ++ (error_if (exceeds event.max_votes_per_transaction votes) too_many_votes
          ++ error_if (q.unit_price == 0) no_price) in
    add_errors found (record q { votes = votes; gross = q.unit_price * votes })

-- What a percentage takes off, rounded half up to hundredths.
unfoldable pub percent_off : ℕ → ℕ → ℕ
percent_off gross value = (gross * min value 10000 + 5000) / 10000

-- A code that is accepted.
unfoldable pub grant_discount : DiscountKind → ℕ → Quote → Quote
unfolding percent_off
grant_discount percent value q = record q { discount = percent_off q.gross value }
grant_discount fixed value q = record q { discount = min value q.gross }
grant_discount bonus value q = record q { bonus_votes = q.bonus_votes + value / 100 }

-- The `if discount is not None`, for a payer who has used the code `used` times, or who is not known by
-- email.
unfoldable pub apply_discount : Option ℕ → DiscountCode → Quote → Quote
unfolding grant_discount reached
apply_discount used d q =
    if elim d.min_amount [ none ↦ false | some m ↦ ltb q.gross m ]
    then add_errors (below_minimum ∷ []) q
    else if elim used [ none ↦ false | some n ↦ reached d.per_payer_limit n ]
    then add_errors (code_used ∷ []) q
    else grant_discount d.kind d.value (record q { discount_code = some d })

-- A code that was given, and the code that was found for it.
unfoldable pub discount_quote :
    (now : ℕ)
    → (given : Bool) → (used : DiscountCode → Option ℕ) → Option DiscountCode
    → Quote
    → Quote
unfolding apply_discount in_window
discount_quote now given used none q = add_errors (error_if given invalid_code) q
discount_quote now given used (some d) q =
    if not (is_code_available d now)
    then add_errors (invalid_code ∷ []) q
    else apply_discount (used d) d q

-- The amount, and the test that there is something to pay.
unfoldable pub set_amount : Quote → Quote
set_amount q =
    let amount = q.gross - q.discount in
    record q {
      amount = amount;
      errors = elim q.errors [ [] ↦ error_if (amount == 0) nothing_to_pay | e ∷ es ↦ e ∷ es ];
    }

-- ===== src/Lib.antt =====
-- A model of the core of flexyvotes, a Django platform for elections, in the parts whose logic
-- decides what an election is and what its result is.
--
-- The program's parts. `voting/models.py` declares elections (`Event`), positions (`Category`) and
-- candidates. `elections/ballot.py` derives the limits of a ballot and checks a configuration, and
-- `elections/lifecycle.py` moves an election through its states: its guards ask the configuration
-- checks and `elections/keys.py`, its effects freeze the election and date it, and `tick` opens
-- and closes it at its dates. `elections/casting.py` gives a voter a token for a ballot and takes
-- one ballot for it, which `elections/ballot.py` validates, while the election accepts votes.
-- `elections/tally.py` counts the decrypted selections of a position. `core/crypto.py` builds the
-- Merkle tree over the trackers of the ballots, which voters check. Paid elections sell votes:
-- `payments/service.py` prices a purchase, opens a checkout at the gateway, and credits the votes
-- of a payment when the gateway confirms it, by a webhook, a check, reconciliation or expiry;
-- refunds and disputes take the votes back. `core/audit.py` chains the entries of the audit log,
-- and `core/idempotency.py` keeps the keys of the requests of payments and votes.
--
-- Which file models which part:
--   Base: names of the library, Boolean tests on numbers, lists, association lists for dicts,
--     and insertion sort for `sorted`.
--   Core/Merkle: core/crypto.py, `_hash_pair`, `_leaf`, `merkle_root`, `merkle_proof`,
--     `verify_merkle_proof`. SHA-256, `bytes.fromhex` and `hmac.compare_digest` are parameters;
--     a text that is checked has any length.
--   Core/Audit: core/audit.py, `compute_hash`, `record` and `verify_chain`, for the rows and the
--     head of one chain. SHA-256 and the canonical JSON of the fields are parameters.
--   Core/Idempotency: core/idempotency.py, `valid_key`, `begin`, `complete` and `abandon` over
--     the rows of `IdempotencyRecord`. The fingerprint of a payload and the primary key of a new
--     row are arguments.
--   Elections/Model: voting/models.py, `Event`, `Category`, `Candidate` with their
--     enumerations, as far as the other parts read them.
--   Elections/Ballot: elections/ballot.py, `active_candidates`, `effective_limits`,
--     `configuration_problems`. Its child Validation models `normalize_selection` and
--     `validate_ballot`, with a value of the payload as what the code asks of it.
--   Elections/Lifecycle: elections/lifecycle.py, the table of actions with its guards and
--     effects, `transition`, `available_actions`, and `ensure_election_key` of
--     elections/keys.py. Its children Clock and Editing model `tick`, and `edit_policy` with
--     `require_editable`. An election is its event, the entries of its audit log that tell of
--     its status, and the tasks queued on commit; an exception is an error value, since it
--     undoes the transaction. core/rbac.py is the parameter `has_perm`.
--   Elections/Casting: elections/casting.py, `ensure_accepting`, `issue_authorization` and
--     `_cast`, over the rows of `Voter`, `VoteAuthorization` and `Ballot` (elections/models.py)
--     of one election. The rules of elections/eligibility.py, `validate_ballot`, the encryption
--     and the hashes are parameters.
--   Elections/Eligibility: elections/eligibility.py, `rule_passes`, `election_eligibility` and
--     `ballot_style`, and the paths of `Constituency` in elections/models.py. `str.lower` and
--     `str.strip` are parameters.
--   Elections/Tally: elections/tally.py. `_pct`, `_rank` and `_winners_with_ties` stand in the
--     parent; the children Plurality, Score, Referendum and Ranked are `plurality`, `score`,
--     `referendum` and `ranked`, with one function for each step of the loop of `ranked`.
--     Fraction is Python's `Fraction`. The lot of `ranked`, the SHA-256 of seed and candidate,
--     is the parameter `lot_key`, and the order in which Python enumerates a set, which decides
--     ties in the final order, is the parameter `in_set_order`.
--   Payments: payments/service.py, over payments/models.py and `VoteTransaction` of
--     voting/models.py. Model declares the rows of one payment (`PaymentFile`); Machine is
--     `transition`, `credit_votes` and `reverse_votes`; Gateway is `apply_gateway_result` and
--     `release_held_payment`; Refunds is `request_refund`, `approve_refund`, `_complete_refund`
--     and `reject_held_payment`; Webhooks is `handle_webhook` and `_dispatch_webhook`; Desk is
--     `reconcile` and `expire_abandoned` for one payment, and the relation of all the steps;
--     Pricing, with its child Limits, is `quote`; Checkout is `initiate_vote_payment`. What the
--     gateway, the risk engine and the permission tests answer is an argument of each call, and
--     so are the rows that the dispatch of a webhook leaves when it raises.
--     A call is one step: what the code does inside one transaction is not interleaved,
--     and a call that raises midway is no step of Desk.
--
-- Numbers. Ids, counts, instants and hundredths of a percent are natural numbers, and Python's
-- integers do not wrap. A percentage is the exact quotient to the nearest hundredth, ties to even,
-- where the code rounds a binary float; a set of candidates in a round is a list in their order;
-- amounts of money are in hundredths of the currency, and so are exact.
--
-- Fuel. The rounds of `ranked` have fuel for each candidate, and each round takes a candidate out
-- of the continuing ones or ends the count. The rounds of the Merkle tree have fuel for each leaf,
-- and each round shortens the level.
--
-- Not modelled: the request handlers, templates, exports and tasks; the pages of paid voting,
-- ticket purchases, billing and fraud screening; sign-in and roles; encryption and signatures, whose
-- primitives are of other packages; the dispatch by ballot type in elections/tally.py.
-- Texts of messages are left out, and so are the entries of the audit log about keys and snapshots.
pub mod Base
pub mod Core
pub mod Elections
pub mod Payments

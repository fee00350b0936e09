-- ===== src/Elections/Casting.antt =====
-- elections/casting.py: the issue of ballots to voters and the casting of one, over the rows of one
-- election. A transaction that raises leaves no rows. Texts, tokens, digests and ciphertexts are
-- numbers, and instants are seconds.
--
-- What other files do is a parameter: `keyed_hash` is the keyed hash of a token, `election_eligibility`
-- and `ballot_style` are the questions to elections/eligibility.py, `validate_ballot` is the one of
-- elections/ballot.py, whose `none` is a BallotError, `style_hash` and `seal` are the hash of a style
-- and the encryption of the plaintext with its nonce, and `sha256` gives the tracker.
pub mod Checks
pub mod Count
pub mod Tokens
mod Tests
use flexyvotes.Base.{
  ℕ, ◌+◌, ◌*◌, min, Bool, true, false, ◌&&◌, ◌||◌, not, Option, none, some, List, [], ◌∷◌, ◌++◌,
  map, ltb, leb, ◌==◌, if◌then◌else◌, elem,
}
use flexyvotes.Elections.Model.{Event, Status, paused, scheduled, approved, accepting_votes}

-- `Voter.Status`
pub data VoterStatus : Type 0 where
  eligible verified voted suspended ineligible : VoterStatus

pub record Voter : Type 0 where
  pub id : ℕ
  pub status : VoterStatus
  pub constituency_id : Option ℕ
  pub voted_at : Option ℕ
  pub credential_ciphertext : Option ℕ

-- `VoteAuthorization.Status`
pub data AuthorizationStatus : Type 0 where
  issued consumed revoked expired : AuthorizationStatus

pub record VoteAuthorization : Type 0 where
  pub voter_id : ℕ
  pub token_hash : ℕ
  pub status : AuthorizationStatus
  pub ballot_style : List ℕ
  pub issued_at : ℕ
  pub expires_at : ℕ
  pub consumed_at : Option ℕ

-- A `Ballot` row, which has no time and refers to no voter.
pub record CastBallot : Type 0 where
  pub ciphertext : ℕ
  pub tracker : ℕ
  pub style_hash : ℕ
  pub constituency_id : Option ℕ

-- The audit entries, by their voter.
pub data Entry : Type 0 where
  ballot_issued voter_voted : ℕ → Entry

-- The rows of one election. `confirmations` are the tasks that `_after_cast` queues.
pub record Store : Type 0 where
  pub event : Event
  pub voters : List Voter
  pub authorizations : List VoteAuthorization
  pub ballots : List CastBallot
  pub audit : List Entry
  pub confirmations : List ℕ

-- `CastError`, by its code; then a `BallotError`, and the errors of the database: no such voter, no
-- ballot key, and a token or a tracker that is not unique.
pub data Refusal : Type 0 where
  paused_voting not_open closed_voting already_voted not_eligible no_positions : Refusal
  invalid_token expired_session : Refusal
  invalid_ballot no_voter no_key not_unique : Refusal

pub data CastResult : Type 0 where
  refused : Refusal → CastResult
  recorded : Store → CastResult

abbrev pub has_voted : VoterStatus → Bool
has_voted voted = true
has_voted _ = false

-- `Voter.can_vote`
abbrev pub can_vote : VoterStatus → Bool
can_vote eligible = true
can_vote verified = true
can_vote _ = false

abbrev pub is_issued : AuthorizationStatus → Bool
is_issued issued = true
is_issued _ = false

abbrev pub is_consumed : AuthorizationStatus → Bool
is_consumed consumed = true
is_consumed _ = false

abbrev pub is_paused : Status → Bool
is_paused paused = true
is_paused _ = false

-- `event.status in (Event.Status.SCHEDULED, Event.Status.APPROVED)`
abbrev pub is_ahead : Status → Bool
is_ahead scheduled = true
is_ahead approved = true
is_ahead _ = false

-- `ensure_accepting`: the reason to refuse, if any.
unfoldable pub ensure_accepting : Event → ℕ → Option Refusal
unfolding accepting_votes
ensure_accepting e now =
    if accepting_votes e now
    then none
    else if is_paused e.status
    then some paused_voting
    else if is_ahead e.status || ltb now e.start_date
    then some not_open
    else some closed_voting

-- `Voter.objects.get(pk=i)`
abbrev pub find_voter : ℕ → List Voter → Option Voter
find_voter i [] = none
find_voter i (v ∷ vs) = if v.id == i then some v else find_voter i vs

-- `VoteAuthorization.objects.filter(token_hash=h).first()`
abbrev pub find_authorization : ℕ → List VoteAuthorization → Option VoteAuthorization
find_authorization h [] = none
find_authorization h (a ∷ as') = if a.token_hash == h then some a else find_authorization h as'

-- The voter's row after the cast.
abbrev pub mark_voted : ℕ → ℕ → List Voter → List Voter
mark_voted now i [] = []
mark_voted now i (v ∷ vs) =
    if v.id == i
    then (record v { status = voted; voted_at = some now; credential_ciphertext = none }) ∷ vs
    else v ∷ mark_voted now i vs

-- The update of the authorization of the token, whose hash is unique, after the cast.
abbrev pub consume : ℕ → ℕ → List VoteAuthorization → List VoteAuthorization
consume now h [] = []
consume now h (a ∷ as') =
    if a.token_hash == h
    then (record a { status = consumed; consumed_at = some now }) ∷ as'
    else a ∷ consume now h as'

-- The update of the voter's earlier authorizations that are unused.
abbrev pub revoke : ℕ → List VoteAuthorization → List VoteAuthorization
revoke i [] = []
revoke i (a ∷ as') =
    (if a.voter_id == i && is_issued a.status then record a { status = revoked } else a)
    ∷ revoke i as'

abbrev pub hashes : List VoteAuthorization → List ℕ
hashes [] = []
hashes (a ∷ as') = a.token_hash ∷ hashes as'

abbrev pub trackers : List CastBallot → List ℕ
trackers [] = []
trackers (b ∷ bs) = b.tracker ∷ trackers bs

-- `AUTHORIZATION_TTL`
abbrev pub authorization_ttl : ℕ
authorization_ttl = 30 * 60

module _ {Payload Selections : Type 0} (keyed_hash : ℕ → ℕ)
    (election_eligibility : Event → Voter → Bool) (ballot_style : Event → Voter → List ℕ)
    (validate_ballot : Event → List ℕ → Payload → Option Selections)
    (style_hash : Event → List ℕ → ℕ) (seal : Event → List ℕ → Selections → ℕ → ℕ)
    (sha256 : ℕ → ℕ) where
  -- `issue_authorization` once the voter and the style are known.
  unfoldable pub issue_to : ℕ → ℕ → Voter → List ℕ → Store → CastResult
  issue_to now token v [] s = refused no_positions
  issue_to now token v (p ∷ ps) s =
      if elem (keyed_hash token) (hashes s.authorizations)
      then refused not_unique
      else recorded (record s {
        authorizations =
            revoke v.id s.authorizations
            ++ (record {
              voter_id = v.id;
              token_hash = keyed_hash token;
              status = issued;
              ballot_style = p ∷ ps;
              issued_at = now;
              expires_at = min (now + authorization_ttl) s.event.end_date;
              consumed_at = none;
            }
                ∷ []);
        audit = s.audit ++ (ballot_issued v.id ∷ []);
      })

  -- The checks on the voter.
  unfoldable pub issue_for : ℕ → ℕ → Voter → Store → CastResult
  unfolding issue_to
  issue_for now token v s =
      if has_voted v.status
      then refused already_voted
      else if not (election_eligibility s.event v)
      then refused not_eligible
      else issue_to now token v (ballot_style s.event v) s

  -- `issue_authorization`, with the random token.
  unfoldable pub issue_authorization : ℕ → ℕ → ℕ → Store → CastResult
  unfolding ensure_accepting issue_for
  issue_authorization now token i s = elim (ensure_accepting s.event now) [
    | some r ↦ refused r
    | none ↦ elim (find_voter i s.voters) [
      | none ↦ refused no_voter
      | some v ↦ issue_for now token v s
    ]
  ]

  -- The row of the ballot.
  unfoldable pub ballot_for : Event → List ℕ → Selections → ℕ → Option ℕ → CastBallot
  ballot_for e style selections nonce constituency = record {
    ciphertext = seal e style selections nonce;
    tracker = sha256 (seal e style selections nonce);
    style_hash = style_hash e style;
    constituency_id = if e.record_constituency_on_ballot then constituency else none;
  }

  -- `_cast` once the selections are valid.
  unfoldable pub record_ballot : ℕ → ℕ → VoteAuthorization → Voter → Selections → Store → CastResult
  unfolding ballot_for
  record_ballot now nonce a v selections s =
      let b = ballot_for s.event a.ballot_style selections nonce v.constituency_id in
      if not s.event.has_ballot_key
      then refused no_key
      else if elem b.tracker (trackers s.ballots)
      then refused not_unique
      else recorded (record s {
        ballots = s.ballots ++ (b ∷ []);
        authorizations = consume now a.token_hash s.authorizations;
        voters = mark_voted now v.id s.voters;
        audit = s.audit ++ (voter_voted v.id ∷ []);
        confirmations = s.confirmations ++ (v.id ∷ []);
      })

  -- The checks on the voter and the ballot.
  unfoldable pub cast_for : ℕ → ℕ → Payload → VoteAuthorization → Voter → Store → CastResult
  unfolding record_ballot
  cast_for now nonce payload a v s =
      if has_voted v.status
      then refused already_voted
      else if not (can_vote v.status)
      then refused not_eligible
      else elim (validate_ballot s.event a.ballot_style payload) [
        | none ↦ refused invalid_ballot
        | some selections ↦ record_ballot now nonce a v selections s
      ]

  -- The checks on the authorization.
  unfoldable pub cast_with : ℕ → ℕ → Payload → VoteAuthorization → Store → CastResult
  unfolding ensure_accepting cast_for
  cast_with now nonce payload a s =
      if is_consumed a.status
      then refused already_voted
      else if not (is_issued a.status) || leb a.expires_at now
      then refused expired_session
      else elim (ensure_accepting s.event now) [
        | some r ↦ refused r
        | none ↦ elim (find_voter a.voter_id s.voters) [
          | none ↦ refused no_voter
          | some v ↦ cast_for now nonce payload a v s
        ]
      ]

  -- `_cast`, at `now`, with the token, the random nonce and the payload.
  unfoldable pub cast : ℕ → ℕ → ℕ → Payload → Store → CastResult
  unfolding cast_with
  cast now token nonce payload s = elim (find_authorization (keyed_hash token) s.authorizations) [
    | none ↦ refused invalid_token
    | some a ↦ cast_with now nonce payload a s
  ]

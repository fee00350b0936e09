-- ===== src/Elections/Casting/Checks.antt =====
-- What a cast that is recorded has checked, and what it leaves.
use flexyvotes.Base.{
  ℕ, ◌≡◌, refl, Bool, true, false, Option, none, some, List, [], ◌∷◌, ◌++◌, arith, ◌||◌, not,
  if◌then◌else◌, leb, elem,
}
use flexyvotes.Elections.Model.{Event, accepting_votes}
use flexyvotes.Elections.Casting.{
  Voter, VoteAuthorization, CastBallot, Store, CastResult, Refusal, recorded, refused, has_voted,
  can_vote, find_voter, find_authorization, mark_voted, consume, cast, record_ballot, ballot_for,
  ensure_accepting, is_consumed, is_issued, trackers,
}

-- A test that refuses has failed when the result is recorded.
pub if_step :
    (c : Bool) (r : Refusal) (k : CastResult) (s' : Store)
    → (if c then refused r else k) ≡ recorded s'
    → (c ≡ false) × (k ≡ recorded s')
if_step true r k s' h = cc
if_step false r k s' h = (refl, h)

-- A row that must be found was found.
pub some_step :
    {A : Type 0} (o : Option A) (r : Refusal) (f : A → CastResult) (s' : Store)
    → elim o [ none ↦ refused r | some x ↦ f x ] ≡ recorded s'
    → (x : A) × (o ≡ some x) × (f x ≡ recorded s')
some_step none r f s' h = cc
some_step (some x) r f s' h = (x, refl, h)

-- There was no reason to refuse.
pub none_step :
    (o : Option Refusal) (k : CastResult) (s' : Store)
    → elim o [ some r ↦ refused r | none ↦ k ] ≡ recorded s'
    → (o ≡ none) × (k ≡ recorded s')
none_step none k s' h = (refl, h)
none_step (some r) k s' h = cc

accepting_of_none :
    (e : Event) (now : ℕ) → ensure_accepting e now ≡ none → accepting_votes e now ≡ true
unfolding ensure_accepting
accepting_of_none e now h = ground arith

-- What the cast of the ballot `b` at `now` means, for the authorization `a` and the voter `v`.
pub record IsCast (now : ℕ) (a : VoteAuthorization) (v : Voter) (b : CastBallot) (s s' : Store)
    : Type 0 where
  pub unused : is_issued a.status ≡ true
  pub in_time : leb a.expires_at now ≡ false
  pub accepting : accepting_votes s.event now ≡ true
  pub holder : find_voter a.voter_id s.voters ≡ some v
  pub not_voted : has_voted v.status ≡ false
  pub may_vote : can_vote v.status ≡ true
  pub new_tracker : elem b.tracker (trackers s.ballots) ≡ false
  pub one_ballot : s'.ballots ≡ s.ballots ++ (b ∷ [])
  pub token_used : s'.authorizations ≡ consume now a.token_hash s.authorizations
  pub voter_marked : s'.voters ≡ mark_voted now v.id s.voters
  pub same_event : s'.event ≡ s.event

issued_of_tests :
    (a : VoteAuthorization) (late : Bool)
    → (not (is_issued a.status) || late) ≡ false
    → (is_issued a.status ≡ true) × (late ≡ false)
issued_of_tests a late h = ground arith

module _ {Payload Selections : Type 0} (keyed_hash : ℕ → ℕ)
    (election_eligibility : Event → Voter → Bool) (ballot_style : Event → Voter → List ℕ)
    (validate_ballot : Event → List ℕ → Payload → Option Selections)
    (style_hash : Event → List ℕ → ℕ) (seal : Event → List ℕ → Selections → ℕ → ℕ)
    (sha256 : ℕ → ℕ) where
  record_ballot-recorded :
      (now nonce : ℕ) (a : VoteAuthorization) (v : Voter) (selections : Selections) (s s' : Store)
      → record_ballot {Payload = Payload} keyed_hash election_eligibility ballot_style
          validate_ballot style_hash seal sha256 now nonce a v selections s
        ≡ recorded s'
      → let b =
          ballot_for {Payload = Payload} keyed_hash election_eligibility ballot_style
            validate_ballot style_hash seal sha256 s.event a.ballot_style selections nonce
            v.constituency_id in
        (elem b.tracker (trackers s.ballots) ≡ false)
        × (s'.ballots ≡ s.ballots ++ (b ∷ []))
        × (s'.authorizations ≡ consume now a.token_hash s.authorizations)
        × (s'.voters ≡ mark_voted now v.id s.voters)
        × (s'.event ≡ s.event)
  unfolding record_ballot
  record_ballot-recorded now nonce a v selections s s' h = ground arith

  -- A cast that is recorded has found an authorization with the hash of the token, unused and
  -- not expired, at a time at which the election accepts votes, and its voter, who has not voted
  -- and can vote. It leaves one ballot more, with a new tracker, the authorization consumed, the
  -- voter marked, and the event as it is.
  pub cast-IsCast :
      (now token nonce : ℕ) (payload : Payload) (s s' : Store)
      → cast keyed_hash election_eligibility ballot_style validate_ballot style_hash seal sha256 now
          token nonce payload s
        ≡ recorded s'
      → (a : VoteAuthorization) × (v : Voter) × (b : CastBallot) × (find_authorization
            (keyed_hash token)
            s.authorizations
          ≡ some a)
        × IsCast now a v b s s'
  unfolding cast
  cast-IsCast now token nonce payload s s' h =
      let (a, found, h1) =
        some_step (find_authorization (keyed_hash token) s.authorizations) _ _ s' h in
      let (unconsumed, h2) = if_step (is_consumed a.status) _ _ s' h1 in
      let (tests, h3) = if_step _ _ _ s' h2 in
      let (no_reason, h4) = none_step (ensure_accepting s.event now) _ s' h3 in
      let (v, holder, h5) = some_step (find_voter a.voter_id s.voters) _ _ s' h4 in
      let (fresh, h6) = if_step (has_voted v.status) _ _ s' h5 in
      let (may, h7) = if_step (not (can_vote v.status)) _ _ s' h6 in
      let (selections, valid, h8) =
        some_step (validate_ballot s.event a.ballot_style payload) _ _ s' h7 in
      let left = record_ballot-recorded now nonce a v selections s s' h8 in
      let issued = issued_of_tests a (leb a.expires_at now) tests in
      (
        a,
        v,
        ballot_for {Payload = Payload} keyed_hash election_eligibility ballot_style validate_ballot
            style_hash seal sha256 s.event a.ballot_style selections nonce v.constituency_id,
        found,
        record {
          unused = issued.0;
          in_time = issued.1;
          accepting = accepting_of_none s.event now no_reason;
          holder = holder;
          not_voted = fresh;
          may_vote = ground arith;
          new_tracker = left.0;
          one_ballot = left.1;
          token_used = left.2;
          voter_marked = left.3;
          same_event = left.4;
        },
      )

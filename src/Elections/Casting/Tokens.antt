-- ===== src/Elections/Casting/Tokens.antt =====
-- The tokens of elections/casting.py: each is used once, and a voter holds one at most.
use flexyvotes.Base.{
  ℕ, ◌+◌, ◌≡◌, refl, ap, subst, min, ◌∙◌, Bool, true, ◌&&◌, Option, none, some, List, [], ◌∷◌, ◌++◌,
  arith, ◌==◌, if◌then◌else◌,
}
use flexyvotes.Elections.Model.{Event}
use flexyvotes.Elections.Casting.{
  Voter, VoteAuthorization, Store, recorded, refused, already_voted, find_authorization,
  is_consumed, is_issued, consumed, consume, revoke, issue_authorization, issue_for, issue_to, cast,
  cast_with, find_voter, issued, ensure_accepting, has_voted, authorization_ttl,
}
use flexyvotes.Elections.Casting.Checks.{cast-IsCast, none_step, some_step, if_step}
use flexyvotes.Elections.Casting.Count.{find_voter-id}

find_authorization-hash :
    (h : ℕ) (as' : List VoteAuthorization) (a : VoteAuthorization)
    → find_authorization h as' ≡ some a
    → a.token_hash ≡ h
find_authorization-hash h [] a f = cc
find_authorization-hash h (x ∷ as') a f = ground (arith, find_authorization-hash h as' a)

-- After the update, the token finds its authorization consumed.
find_authorization-consume :
    (now h : ℕ) (as' : List VoteAuthorization) (a : VoteAuthorization)
    → find_authorization h as' ≡ some a
    → find_authorization h (consume now a.token_hash as')
      ≡ some (record a { status = consumed; consumed_at = some now })
find_authorization-consume now h [] a f = cc
find_authorization-consume now h (x ∷ as') a f =
    ground (arith, find_authorization-consume now h as' a, find_authorization-hash h (x ∷ as') a f)

-- How many unused authorizations the voter `i` holds.
abbrev pub issued_count : ℕ → List VoteAuthorization → ℕ
issued_count i [] = 0
issued_count i (a ∷ as') =
    (if a.voter_id == i && is_issued a.status then 1 else 0) + issued_count i as'

issued_count-revoke_self :
    (i : ℕ) (as' : List VoteAuthorization) → issued_count i (revoke i as') ≡ 0
issued_count-revoke_self i [] = refl
issued_count-revoke_self i (a ∷ as') = ground (arith, issued_count-revoke_self i as')

issued_count-append :
    (i : ℕ) (as' bs : List VoteAuthorization)
    → issued_count i (as' ++ bs) ≡ issued_count i as' + issued_count i bs
issued_count-append i [] bs = omega arith
issued_count-append i (a ∷ as') bs = omega (arith, issued_count-append i as' bs)

module _ {Payload Selections : Type 0} (keyed_hash : ℕ → ℕ)
    (election_eligibility : Event → Voter → Bool) (ballot_style : Event → Voter → List ℕ)
    (validate_ballot : Event → List ℕ → Payload → Option Selections)
    (style_hash : Event → List ℕ → ℕ) (seal : Event → List ℕ → Selections → ℕ → ℕ)
    (sha256 : ℕ → ℕ) where
  consumed-refused :
      (now nonce : ℕ) (payload : Payload) (a : VoteAuthorization) (s : Store)
      → is_consumed a.status ≡ true
      → cast_with keyed_hash election_eligibility ballot_style validate_ballot style_hash seal
          sha256 now nonce payload a s
        ≡ refused already_voted
  unfolding cast_with
  consumed-refused now nonce payload a s h = rw h refl

  found-refused :
      (now token nonce : ℕ) (payload : Payload) (a : VoteAuthorization) (s : Store)
      → find_authorization (keyed_hash token) s.authorizations ≡ some a
      → is_consumed a.status ≡ true
      → cast keyed_hash election_eligibility ballot_style validate_ballot style_hash seal sha256 now
          token nonce payload s
        ≡ refused already_voted
  unfolding cast
  found-refused now token nonce payload a s f h =
      rw (cast, f) (consumed-refused now nonce payload a s h)

  -- In the rows that a recorded cast leaves, a cast with the same token, at any time and with
  -- any payload, is refused with `already_voted`.
  pub cast-twice :
      (now token nonce : ℕ) (payload : Payload) (s s' : Store)
      → cast keyed_hash election_eligibility ballot_style validate_ballot style_hash seal sha256 now
          token nonce payload s
        ≡ recorded s'
      → (later nonce' : ℕ) (payload' : Payload)
      → cast keyed_hash election_eligibility ballot_style validate_ballot style_hash seal sha256
          later token nonce' payload' s'
        ≡ refused already_voted
  cast-twice now token nonce payload s s' h later nonce' payload' =
      let (a, v, b, found, c) =
        cast-IsCast keyed_hash election_eligibility ballot_style validate_ballot style_hash seal
          sha256 now token nonce payload s s' h in
      found-refused later token nonce' payload'
        (record a { status = consumed; consumed_at = some now }) s'
        (ap (find_authorization (keyed_hash token)) c.token_used
          ∙ find_authorization-consume now (keyed_hash token) s.authorizations a found)
        refl

  issue_to-issued_count :
      (now token : ℕ) (v : Voter) (style : List ℕ) (s s' : Store)
      → issue_to {Payload = Payload} {Selections = Selections} keyed_hash election_eligibility
          ballot_style validate_ballot style_hash seal sha256 now token v style s
        ≡ recorded s'
      → issued_count v.id s'.authorizations ≡ 1
  unfolding issue_to
  issue_to-issued_count now token v [] s s' h = cc
  issue_to-issued_count now token v (p ∷ ps) s s' h =
      let row : VoteAuthorization = record {
        voter_id = v.id;
        token_hash = keyed_hash token;
        status = issued;
        ballot_style = p ∷ ps;
        issued_at = now;
        expires_at = min (now + authorization_ttl) s.event.end_date;
        consumed_at = none;
      } in
      ground (
        arith,
        issued_count-append v.id (revoke v.id s.authorizations) (row ∷ []),
        issued_count-revoke_self v.id s.authorizations,
      )

  issued_count-found :
      (now token i : ℕ) (v : Voter) (s s' : Store)
      → find_voter i s.voters ≡ some v
      → issue_for {Payload = Payload} {Selections = Selections} keyed_hash election_eligibility
          ballot_style validate_ballot style_hash seal sha256 now token v s
        ≡ recorded s'
      → issued_count i s'.authorizations ≡ 1
  unfolding issue_for
  issued_count-found now token i v s s' found h =
      let (fresh, h1) = if_step (has_voted v.status) _ _ s' h in
      let (may, h2) = if_step _ _ _ s' h1 in
      subst (λ k. issued_count k s'.authorizations ≡ 1) (find_voter-id i s.voters v found)
        (issue_to-issued_count now token v (ballot_style s.event v) s s' h2)

  -- When `issue_authorization` succeeds for the voter `i`, the voter holds exactly one unused
  -- authorization afterwards.
  pub issue_authorization-issued_count :
      (now token i : ℕ) (s s' : Store)
      → issue_authorization {Payload = Payload} {Selections = Selections} keyed_hash
          election_eligibility ballot_style validate_ballot style_hash seal sha256 now token i s
        ≡ recorded s'
      → issued_count i s'.authorizations ≡ 1
  unfolding issue_authorization
  issue_authorization-issued_count now token i s s' h =
      let (no_reason, h1) = none_step (ensure_accepting s.event now) _ s' h in
      let (v, found, h2) = some_step (find_voter i s.voters) _ _ s' h1 in
      issued_count-found now token i v s s' found h2

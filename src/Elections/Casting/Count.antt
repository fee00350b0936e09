-- ===== src/Elections/Casting/Count.antt =====
-- As many ballots as voters who have voted, after any sequence of issues and casts.
use flexyvotes.Base.{
  ℕ, ◌+◌, ◌≡◌, sym, ap, ◌∙◌, Bool, false, Option, some, List, [], ◌∷◌, length, arith, length-append,
  if◌then◌else◌,
}
use flexyvotes.Elections.Model.{Event}
use flexyvotes.Elections.Casting.Checks.{IsCast, cast-IsCast}
use flexyvotes.Elections.Casting.{
  Voter, VoteAuthorization, CastBallot, Store, recorded, has_voted, find_voter, mark_voted,
  issue_authorization, cast,
}

-- How many voters have the status VOTED.
abbrev pub voted_count : List Voter → ℕ
voted_count [] = 0
voted_count (v ∷ vs) = (if has_voted v.status then 1 else 0) + voted_count vs

pub find_voter-id : (i : ℕ) (vs : List Voter) (v : Voter) → find_voter i vs ≡ some v → v.id ≡ i
find_voter-id i [] v f = cc
find_voter-id i (w ∷ vs) v f = ground (arith, find_voter-id i vs v)

-- The voter that was found has voted after the mark, and had not before.
voted_count-mark_voted :
    (now i : ℕ) (vs : List Voter) (v : Voter)
    → find_voter i vs ≡ some v
    → has_voted v.status ≡ false
    → voted_count (mark_voted now v.id vs) ≡ voted_count vs + 1
voted_count-mark_voted now i [] v f h = cc
voted_count-mark_voted now i (w ∷ vs) v f h =
    ground (arith, voted_count-mark_voted now i vs v, find_voter-id i (w ∷ vs) v f)

-- A cast and an issue have the same difference of the two counts.
abbrev pub Balanced : Store → Type 0
Balanced s = length s.ballots ≡ voted_count s.voters

module _ {Payload Selections : Type 0} (keyed_hash : ℕ → ℕ)
    (election_eligibility : Event → Voter → Bool) (ballot_style : Event → Voter → List ℕ)
    (validate_ballot : Event → List ℕ → Payload → Option Selections)
    (style_hash : Event → List ℕ → ℕ) (seal : Event → List ℕ → Selections → ℕ → ℕ)
    (sha256 : ℕ → ℕ) where
  -- The stores that issues and casts lead to, from an election in which nobody has voted.
  pub data Reachable : Store → Type 0 where
    created : (s : Store) → s.ballots ≡ [] → voted_count s.voters ≡ 0 → Reachable s
    issued_to :
        (s s' : Store) (now token i : ℕ)
        → Reachable s
        → issue_authorization {Payload = Payload} {Selections = Selections} keyed_hash
            election_eligibility ballot_style validate_ballot style_hash seal sha256 now token i s
          ≡ recorded s'
        → Reachable s'
    cast_by :
        (s s' : Store) (now token nonce : ℕ) (payload : Payload)
        → Reachable s
        → cast keyed_hash election_eligibility ballot_style validate_ballot style_hash seal sha256
            now token nonce payload s
          ≡ recorded s'
        → Reachable s'

  issue-Balanced :
      (now token i : ℕ) (s s' : Store)
      → issue_authorization {Payload = Payload} {Selections = Selections} keyed_hash
          election_eligibility ballot_style validate_ballot style_hash seal sha256 now token i s
        ≡ recorded s'
      → Balanced s
      → Balanced s'
  unfolding issue_authorization
  issue-Balanced now token i s s' h b = ground arith

  cast-Balanced :
      (s s' : Store) (now : ℕ) (a : VoteAuthorization) (v : Voter) (b : CastBallot)
      → IsCast now a v b s s'
      → Balanced s
      → Balanced s'
  cast-Balanced s s' now a v b c bal =
      ap length c.one_ballot
      ∙ length-append s.ballots (b ∷ [])
      ∙ ap (λ n. n + 1) bal
      ∙ sym (
          ap voted_count c.voter_marked
          ∙ voted_count-mark_voted now a.voter_id s.voters v c.holder c.not_voted)

  -- After any sequence of recorded issues and casts, from an election without ballots in which
  -- no voter has the status VOTED, there are as many ballots as voters with the status VOTED.
  pub Reachable-Balanced : (s : Store) → Reachable s → length s.ballots ≡ voted_count s.voters
  Reachable-Balanced _ (created s none_cast none_voted) = ap length none_cast ∙ sym none_voted
  Reachable-Balanced _ (issued_to s s' now token i before h) =
      issue-Balanced now token i s s' h (Reachable-Balanced s before)
  Reachable-Balanced _ (cast_by s s' now token nonce payload before h) =
      let (a, v, b, found, c) =
        cast-IsCast keyed_hash election_eligibility ballot_style validate_ballot style_hash seal
          sha256 now token nonce payload s s' h in
      cast-Balanced s s' now a v b c (Reachable-Balanced s before)

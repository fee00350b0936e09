-- ===== src/Elections/Model.antt =====
-- Elections, positions, candidates and selections: voting/models.py, and the shape of a selection
-- in elections/ballot.py. Primary keys are numbers and a text is the list of its code points.
use flexyvotes.Base.{ℕ, Bool, true, false, Option, List, ◌&&◌, not, leb, ltb}

-- `Category.BallotType`
pub data BallotType : Type 0 where
  single fptp multiple approval ranked score referendum : BallotType

abbrev pub is_referendum_type : BallotType → Bool
is_referendum_type BallotType.referendum = true
is_referendum_type _ = false

-- `Candidate.Status`
pub data CandidateStatus : Type 0 where
  active withdrawn disqualified eliminated : CandidateStatus

abbrev pub is_active : CandidateStatus → Bool
is_active CandidateStatus.active = true
is_active _ = false

pub record Candidate : Type 0 where
  pub id : ℕ
  pub name : List ℕ
  pub status : CandidateStatus

-- A position of an election (`Category`), with its candidates in display order. The threshold of a
-- referendum is in hundredths of a percent.
pub record Position : Type 0 where
  pub id : ℕ
  pub ballot_type : BallotType
  pub min_select : ℕ
  pub max_select : ℕ
  pub allow_abstain : Bool
  pub seats : ℕ
  pub max_score : ℕ
  pub referendum_threshold : ℕ
  pub candidates : List Candidate

-- A selection in its canonical form, as `normalize_selection` returns it: `None`, a list of
-- candidate ids, a dict of scores, or "YES" and "NO".
pub data Selection : Type 0 where
  abstained : Selection
  ids : List ℕ → Selection
  scores : List (ℕ × ℕ) → Selection
  yes_vote no_vote : Selection

-- `Event.Status`; `opened` is OPEN.
pub data Status : Type 0 where
  draft review approved scheduled opened paused closed tallying certified published archived :
      Status

-- `Event.VotingMode`
pub data VotingMode : Type 0 where
  pay_to_vote code_voting : VotingMode

-- `Event.KeyCustody`
pub data KeyCustody : Type 0 where
  system trustees : KeyCustody

-- `Event`, as far as the lifecycle and the casting of votes read it. Instants are numbers, and users
-- are their primary keys. The related rows that the code asks for stand here too: the positions
-- (`categories`), whether there are candidates, and candidates without a position, the number of
-- trustee shares, of disputes that are open or under review and of configuration snapshots, and
-- whether there is a voter, a vote package that is active and a ballot key.
pub record Event : Type 0 where
  pub id : ℕ
  pub voting_mode : VotingMode
  pub status : Status
  pub start_date : ℕ
  pub end_date : ℕ
  pub is_active : Bool
  pub auth_methods : ℕ
  pub allow_self_registration : Bool
  pub dual_approval_required : Bool
  pub config_frozen : Bool
  pub ballot_frozen : Bool
  pub candidates_frozen : Bool
  pub voter_list_frozen : Bool
  pub legal_hold : Bool
  pub submitted_by : Option ℕ
  pub reviewed_by : Option ℕ
  pub key_custody : KeyCustody
  pub trustee_threshold : ℕ
  pub record_constituency_on_ballot : Bool
  pub vote_price : ℕ
  pub opened_at : Option ℕ
  pub closed_at : Option ℕ
  pub certified_at : Option ℕ
  pub published_at : Option ℕ
  pub archived_at : Option ℕ
  pub positions : List Position
  pub has_candidates : Bool
  pub has_unassigned : Bool
  pub trustee_count : ℕ
  pub open_disputes : ℕ
  pub snapshots : ℕ
  pub has_voters : Bool
  pub has_packages : Bool
  pub has_ballot_key : Bool

abbrev pub is_pay_to_vote : VotingMode → Bool
is_pay_to_vote pay_to_vote = true
is_pay_to_vote code_voting = false

-- `Event.is_paid`
abbrev pub is_paid : Event → Bool
is_paid e = is_pay_to_vote e.voting_mode

-- `Event.is_institutional`
abbrev pub is_institutional : Event → Bool
is_institutional e = not (is_pay_to_vote e.voting_mode)

abbrev pub is_opened : Status → Bool
is_opened opened = true
is_opened _ = false

-- `Event.accepting_votes`
unfoldable pub accepting_votes : Event → ℕ → Bool
accepting_votes e now = is_opened e.status && (leb e.start_date now && ltb now e.end_date)

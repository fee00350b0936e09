-- ===== src/Elections/Tally/Ranked.antt =====
-- `ranked` of elections/tally.py: instant runoff for one seat, the single transferable vote for
-- more. `lot_key` is the number that the SHA-256 digest of `_lot_key` spells, for the seed of the
-- election; `hashlib` is not the repository's code, so it is a parameter. A Python set of
-- candidates is the list of its members in the candidates' order. The rounds compute sums, minima,
-- and lists sorted by a total order from it; the final order keeps ties in the order in which Python
-- enumerates the set, which is the parameter `in_set_order`. A snapshot keeps the exact fractions
-- that the code rounds for display.
pub mod Rounds
pub mod Seats
pub mod Rows
use flexyvotes.Base.{
  ℕ, zero, suc, ◌+◌, ◌-◌, min, max, Bool, true, false, ◌&&◌, ◌||◌, not, Option, none, some, List,
  [], ◌∷◌, ◌++◌, map, reverse, ltb, leb, ◌==◌, if◌then◌else◌, length, keep, elem, any,
}
use flexyvotes.Base.Dict.{Dict, get_or, update, constant, values}
use flexyvotes.Base.Sort.{sort_by}
use flexyvotes.Elections.Model.{Candidate, Selection, ids}
use flexyvotes.Elections.Tally.{pct, ids_of}
use flexyvotes.Elections.Tally.Fraction
use flexyvotes.Elections.Tally.Fraction.{Fraction, fraction}

-- A ballot of the count: the preferences and the weight.
pub record RankedBallot : Type 0 where
  pub prefs : List ℕ
  pub weight : Fraction

-- `rounds[n]`
pub record Snapshot : Type 0 where
  pub round : ℕ
  pub tallies : Dict Fraction
  pub exhausted : Fraction
  pub elected : List ℕ
  pub eliminated : List ℕ
  pub surplus_transferred : Option Fraction
  pub fills_remaining : Bool

pub record TieBreak : Type 0 where
  pub round : ℕ
  pub tied : List ℕ
  pub eliminated : ℕ
  pub by_lot : Bool

-- The variables of the `while` loop.
pub record Count : Type 0 where
  pub ballots : List RankedBallot
  pub continuing : List ℕ
  pub elected : List ℕ
  pub eliminated : List ℕ
  pub rounds : List Snapshot
  pub tie_breaks : List TieBreak

-- The first preference that is in the set, if one is.
unfoldable pub first_in : List ℕ → List ℕ → Option ℕ
first_in set [] = none
first_in set (cid ∷ prefs) = if elem cid set then some cid else first_in set prefs

-- The loop over the ballots in `current_tallies`: the tallies and the exhausted weight.
unfoldable pub tally_ballots :
    List ℕ → List RankedBallot → Dict Fraction → Fraction → Dict Fraction × Fraction
unfolding first_in Fraction.add
tally_ballots continuing [] tallies exhausted = (tallies, exhausted)
tally_ballots continuing (b ∷ bs) tallies exhausted = elim (first_in continuing b.prefs) [
  | none ↦ tally_ballots continuing bs tallies (Fraction.add exhausted b.weight)
  | some cid ↦
      tally_ballots continuing bs (update cid (λ t. Fraction.add t b.weight) tallies) exhausted
]

unfoldable pub current_tallies : List ℕ → List RankedBallot → Dict Fraction × Fraction
unfolding tally_ballots
current_tallies continuing ballots =
    tally_ballots continuing ballots (constant (fraction 0 1) continuing) (fraction 0 1)

-- `tallies[cid]`
abbrev pub tally_of : Dict Fraction → ℕ → Fraction
tally_of tallies cid = get_or (fraction 0 1) cid tallies

-- `continuing.discard(cid)`
abbrev pub discard : ℕ → List ℕ → List ℕ
discard cid set = keep (λ j. not (j == cid)) set

-- The preferences of a selection, without unknown candidates.
unfoldable pub prefs_of : List ℕ → Selection → List ℕ
prefs_of hopeful (ids is) = keep (λ cid. elem cid hopeful) is
prefs_of hopeful _ = []

-- The loop that reads the selections: the ballots and the number of abstentions.
unfoldable pub read_ballots : List ℕ → List Selection → List RankedBallot × ℕ
unfolding prefs_of
read_ballots hopeful [] = ([], 0)
read_ballots hopeful (s ∷ ss) =
    let rest = read_ballots hopeful ss in
    elim (prefs_of hopeful s) [
      | [] ↦ (rest.0, rest.1 + 1)
      | p ∷ ps ↦ (record { prefs = p ∷ ps; weight = fraction 1 1 } ∷ rest.0, rest.1)
    ]

-- `first_prefs`
unfoldable pub count_first : List RankedBallot → Dict ℕ → Dict ℕ
count_first [] counts = counts
count_first (b ∷ bs) counts =
    count_first bs (elim b.prefs [ [] ↦ counts | p ∷ ps ↦ update p (λ n. n + 1) counts ])

-- The weights after `winner` is elected: `new_weight` for the ballots that count for the winner.
unfoldable pub reweigh : List ℕ → ℕ → (Fraction → Fraction) → List RankedBallot → List RankedBallot
unfolding first_in
reweigh continuing winner new_weight [] = []
reweigh continuing winner new_weight (b ∷ bs) =
    elim (first_in (winner ∷ continuing) b.prefs) [
      | none ↦ b
      | some top ↦ if top == winner then record b { weight = new_weight b.weight } else b
    ]
    ∷ reweigh continuing winner new_weight bs

-- `threshold`, and the test of `winners_now`: the quota is reached, or half of the active total is
-- passed.
unfoldable pub reaches : Option Fraction → Fraction → Fraction → Bool
unfolding Fraction.le Fraction.lt Fraction.div
reaches (some quota) active_total tally = Fraction.le quota tally
reaches none active_total tally = Fraction.lt (Fraction.div active_total (fraction 2 1)) tally

-- The ballots after `winner` is elected: with a quota the winner's ballots keep the share of the
-- surplus, and nothing where there is none.
unfoldable pub transfer :
    Option Fraction → Fraction → List ℕ → ℕ → List RankedBallot → List RankedBallot
unfolding Fraction.lt Fraction.sub Fraction.div Fraction.mul reweigh
transfer none tally continuing winner ballots = ballots
transfer (some quota) tally continuing winner ballots =
    let surplus_ratio = Fraction.div (Fraction.sub tally quota) tally in
    if Fraction.lt quota tally
    then reweigh continuing winner (λ w. Fraction.mul w surplus_ratio) ballots
    else reweigh continuing winner (λ w. fraction 0 1) ballots

unfoldable pub surplus_of : Option Fraction → Fraction → Option Fraction
unfolding Fraction.lt Fraction.sub
surplus_of none tally = none
surplus_of (some quota) tally =
    if Fraction.lt quota tally then some (Fraction.sub tally quota) else none

-- A round that elects `winner`.
unfoldable pub elect : Option Fraction → Snapshot → ℕ → Count → Count
unfolding transfer surplus_of
elect quota snapshot winner s =
    let tally = tally_of snapshot.tallies winner in
    let continuing = discard winner s.continuing in
    record s {
      ballots = transfer quota tally continuing winner s.ballots;
      continuing = continuing;
      elected = s.elected ++ (winner ∷ []);
      rounds =
          s.rounds
          ++ (record snapshot {
            elected = winner ∷ [];
            surplus_transferred = surplus_of quota tally;
          }
              ∷ []);
    }

-- `candidates_lowest`
unfoldable pub lowest_of : Dict Fraction → List ℕ → List ℕ
unfolding Fraction.min_of Fraction.smaller Fraction.lt Fraction.eq
lowest_of tallies [] = []
lowest_of tallies (c ∷ cs) =
    let lowest = Fraction.min_of (tally_of tallies c) (map (tally_of tallies) cs) in
    keep (λ cid. Fraction.eq (tally_of tallies cid) lowest) (c ∷ cs)

-- `fewest_first`, from the first candidate on
unfoldable pub fewest_of : Dict ℕ → ℕ → List ℕ → ℕ
fewest_of first_prefs m [] = m
fewest_of first_prefs m (d ∷ ds) = fewest_of first_prefs (min m (get_or 0 d first_prefs)) ds

-- `narrowed`: of the tied candidates, those with the fewest first preferences
unfoldable pub narrow : Dict ℕ → List ℕ → List ℕ
unfolding fewest_of
narrow first_prefs [] = []
narrow first_prefs (c ∷ cs) =
    let fewest = fewest_of first_prefs (get_or 0 c first_prefs) cs in
    keep (λ cid. get_or 0 cid first_prefs == fewest) (c ∷ cs)

-- The elimination of `loser`.
unfoldable pub drop_loser : Snapshot → ℕ → Count → Count
drop_loser snapshot loser s = record s {
  continuing = discard loser s.continuing;
  eliminated = s.eliminated ++ (loser ∷ []);
  rounds = s.rounds ++ (record snapshot { eliminated = loser ∷ [] } ∷ []);
}

-- The elimination of the first of `lots`, the `narrowed` ones in the order of their lots. The first
-- case is an IndexError.
unfoldable pub break_tie : Snapshot → List ℕ → List ℕ → List ℕ → Count → Count
unfolding drop_loser sort_by
break_tie snapshot tied narrowed [] s = s
break_tie snapshot tied narrowed (loser ∷ others) s =
    let t = drop_loser snapshot loser s in
    record t {
      tie_breaks =
          t.tie_breaks
          ++ (record {
            round = snapshot.round;
            tied = sort_by leb tied;
            eliminated = loser;
            by_lot = ltb 1 (length narrowed);
          }
              ∷ []);
    }

module _ (lot_key : ℕ → ℕ) where
  -- The order of the key `(-tallies[cid], _lot_key(seed, cid))`.
  unfoldable pub by_tally : Dict Fraction → ℕ → ℕ → Bool
  unfolding Fraction.lt
  by_tally tallies a b =
      if Fraction.lt (tally_of tallies b) (tally_of tallies a)
      then true
      else if Fraction.lt (tally_of tallies a) (tally_of tallies b)
      then false
      else leb (lot_key a) (lot_key b)

  -- The order of `lot_order`.
  unfoldable pub by_lot : ℕ → ℕ → Bool
  by_lot a b = leb (lot_key a) (lot_key b)

  -- The elimination of a candidate among the ones with the lowest tally.
  unfoldable pub eliminate_from : Dict ℕ → Snapshot → List ℕ → Count → Count
  unfolding narrow by_lot sort_by drop_loser break_tie
  eliminate_from first_prefs snapshot [] s = s
  eliminate_from first_prefs snapshot (loser ∷ []) s = drop_loser snapshot loser s
  eliminate_from first_prefs snapshot (a ∷ b ∷ tied) s =
      let narrowed = narrow first_prefs (a ∷ b ∷ tied) in
      break_tie snapshot (a ∷ b ∷ tied) narrowed (sort_by by_lot narrowed) s

  -- The round that ends the count: the continuing candidates fill the seats. They stay in
  -- `continuing`.
  unfoldable pub fill : Snapshot → Count → Count
  unfolding by_tally sort_by
  fill snapshot s =
      let newly = sort_by (by_tally snapshot.tallies) s.continuing in
      record s {
        elected = s.elected ++ newly;
        rounds = s.rounds ++ (record snapshot { elected = newly; fills_remaining = true } ∷ []);
      }

  -- The start of `snapshot` in a round.
  unfoldable pub snapshot_of : Count → Snapshot
  unfolding current_tallies
  snapshot_of s =
      let (tallies, exhausted) = current_tallies s.continuing s.ballots in
      record {
        round = length s.rounds + 1;
        tallies = tallies;
        exhausted = exhausted;
        elected = [];
        eliminated = [];
        surplus_transferred = none;
        fills_remaining = false;
      }

  -- `winners_now`, sorted
  unfoldable pub winners_now : Option Fraction → Snapshot → List ℕ → List ℕ
  unfolding Fraction.sum reaches by_tally sort_by
  winners_now quota snapshot continuing =
      let active_total = Fraction.sum (values snapshot.tallies) in
      sort_by (by_tally snapshot.tallies)
        (keep (λ cid. reaches quota active_total (tally_of snapshot.tallies cid)) continuing)

  -- The rest of a round that does not end the count, for the sorted `winners_now`.
  unfoldable pub settle : Option Fraction → Dict ℕ → Snapshot → List ℕ → Count → Count
  unfolding elect lowest_of eliminate_from
  settle quota first_prefs snapshot [] s =
      eliminate_from first_prefs snapshot (lowest_of snapshot.tallies s.continuing) s
  settle quota first_prefs snapshot (winner ∷ others) s = elect quota snapshot winner s

  unfoldable pub play_round : Option Fraction → Dict ℕ → Snapshot → Count → Count
  unfolding winners_now settle
  play_round quota first_prefs snapshot s =
      settle quota first_prefs snapshot (winners_now quota snapshot s.continuing) s

  -- `while continuing and len(elected) < seats`, on fuel.
  unfoldable pub count_rounds : ℕ → Option Fraction → Dict ℕ → ℕ → Count → Count
  unfolding play_round fill snapshot_of
  count_rounds zero quota first_prefs seats s = s
  count_rounds (suc fuel) quota first_prefs seats s =
      let snapshot = snapshot_of s in
      let rest =
        count_rounds fuel quota first_prefs seats (play_round quota first_prefs snapshot s) in
      if ltb 0 (length s.continuing) && ltb (length s.elected) seats
      then (if leb (length s.continuing) (seats - length s.elected) then fill snapshot s else rest)
      else s

-- A row of the result; the percentage is in hundredths of a percent.
pub record RankedRow : Type 0 where
  pub candidate_id : ℕ
  pub votes : ℕ
  pub percentage : ℕ
  pub rank : ℕ
  pub elected : Bool

pub record RankedResult : Type 0 where
  pub is_stv : Bool
  pub seats : ℕ
  pub valid_ballots : ℕ
  pub abstentions : ℕ
  pub total_votes : ℕ
  pub quota : Option Fraction
  pub first_preferences : Dict ℕ
  pub rounds : List Snapshot
  pub candidates : List RankedRow
  pub winners : List ℕ
  pub tie_breaks : List TieBreak

unfoldable pub ranked_rows : ℕ → Dict ℕ → ℕ → List ℕ → List ℕ → List RankedRow
ranked_rows place first_prefs valid elected [] = []
ranked_rows place first_prefs valid elected (cid ∷ order) =
    let v = get_or 0 cid first_prefs in
    record {
      candidate_id = cid;
      votes = v;
      percentage = pct v valid;
      rank = place;
      elected = elem cid elected;
    }
    ∷ ranked_rows (place + 1) first_prefs valid elected order

-- `max(1, min(seats, len(hopeful))) if hopeful else 0`
unfoldable pub seats_for : ℕ → List ℕ → ℕ
seats_for seats [] = 0
seats_for seats (c ∷ cs) = max 1 (min seats (length (c ∷ cs)))

-- The order of `sorted(continuing, key=lambda c: -final_tallies.get(c, 0))`.
unfoldable pub by_final : Dict Fraction → ℕ → ℕ → Bool
unfolding Fraction.lt
by_final tallies a b = not (Fraction.lt (tally_of tallies a) (tally_of tallies b))

-- `order`, for the order in which the set `continuing` is enumerated; `sorted` is stable.
unfoldable pub final_order : (List ℕ → List ℕ) → Count → List ℕ
unfolding by_final sort_by current_tallies
final_order in_set_order s =
    s.elected
    ++ (sort_by (by_final (current_tallies s.continuing s.ballots).0) (in_set_order s.continuing)
        ++ reverse s.eliminated)

-- The variables before the first round.
unfoldable pub start_count : List ℕ → List RankedBallot → Count
start_count hopeful ballots = record {
  ballots = ballots;
  continuing = hopeful;
  elected = [];
  eliminated = [];
  rounds = [];
  tie_breaks = [];
}

unfoldable pub quota_for : ℕ → ℕ → Option Fraction
quota_for valid seats = if ltb 1 seats then some (fraction valid (seats + 1)) else none

module _ (lot_key : ℕ → ℕ) where
  -- The count: the `while` loop with as much fuel as there are candidates.
  unfoldable pub run_count : List Selection → List ℕ → ℕ → Count
  unfolding count_rounds seats_for read_ballots count_first start_count quota_for
  run_count selections hopeful seats =
      let ballots = (read_ballots hopeful selections).0 in
      let places = seats_for seats hopeful in
      count_rounds lot_key (length hopeful) (quota_for (length ballots) places)
        (count_first ballots (constant 0 hopeful)) places (start_count hopeful ballots)

  unfoldable pub ranked : (List ℕ → List ℕ) → List Selection → List Candidate → ℕ → RankedResult
  unfolding run_count final_order ranked_rows
  ranked in_set_order selections candidates seats =
      let hopeful = ids_of candidates in
      let (ballots, abstentions) = read_ballots hopeful selections in
      let valid = length ballots in
      let first_prefs = count_first ballots (constant 0 hopeful) in
      let places = seats_for seats hopeful in
      let s = run_count selections hopeful seats in
      record {
        is_stv = ltb 1 places;
        seats = places;
        valid_ballots = valid;
        abstentions = abstentions;
        total_votes = valid;
        quota = quota_for valid places;
        first_preferences = first_prefs;
        rounds = s.rounds;
        candidates = ranked_rows 1 first_prefs valid s.elected (final_order in_set_order s);
        winners = s.elected;
        tie_breaks = s.tie_breaks;
      }

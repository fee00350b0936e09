-- ===== src/Elections/Tally/Ranked/Rounds.antt =====
-- What one round of the count of ranked ballots does to the continuing and the elected candidates.
use flexyvotes.Base.{
  ℕ, ◌+◌, ◌≡◌, ◌≢◌, ◌⊎◌, inl, inr, refl, sym, ◌∙◌, Bool, true, min, Option, List, [], ◌∷◌, ◌++◌,
  map, ◌==◌, if◌then◌else◌, length, keep, elem, occurrences, elem-keep_sub, arith, eq→==,
}
use native.Mathlib.Decide.{dec_le}
use flexyvotes.Base.Dict.{Dict, get_or}
use flexyvotes.Base.Sort.{sort_by, elem-sort_by, sort_by_nonempty}
use flexyvotes.Elections.Tally.Fraction
use flexyvotes.Elections.Tally.Fraction.{Fraction}
use flexyvotes.Elections.Tally.Ranked.{
  Count, Snapshot, discard, tally_of, lowest_of, fewest_of, narrow, by_lot, drop_loser, break_tie,
  elect, eliminate_from, winners_now, settle, play_round,
}

pub occurrences-discard :
    (i w : ℕ) (l : List ℕ) → occurrences i (discard w l) ≡ (if i == w then 0 else occurrences i l)
occurrences-discard i w [] = ground arith
occurrences-discard i w (x ∷ l) = ground (arith, occurrences-discard i w l)

pub length-discard : (w : ℕ) (l : List ℕ) → length (discard w l) + occurrences w l ≡ length l
length-discard w [] = omega arith
length-discard w (x ∷ l) = ground (arith, length-discard w l)

-- The lowest tally is that of some candidate.
min_of-attained :
    (t : ℕ → Fraction) (set cs : List ℕ) (x : Fraction) (a : ℕ)
    → elem a set ≡ true
    → x ≡ t a
    → ((d : ℕ) → elem d cs ≡ true → elem d set ≡ true)
    → (d : ℕ) × (elem d set ≡ true) × (Fraction.min_of x (map t cs) ≡ t d)
unfolding Fraction.min_of
min_of-attained t set [] x a ha e sub = (a, ha, e)
min_of-attained t set (c ∷ cs) x a ha e sub = elim (Fraction.smaller-cases x (t c)) [
  | inl same ↦
      min_of-attained t set cs (Fraction.smaller x (t c)) a ha (same ∙ e)
        (λ d h. sub d (ground (arith, h)))
  | inr less ↦
      min_of-attained t set cs (Fraction.smaller x (t c)) c (sub c (ground arith)) less
        (λ d h. sub d (ground (arith, h)))
]

keep_nonempty :
    (p : ℕ → Bool) (d : ℕ) (xs : List ℕ) → elem d xs ≡ true → p d ≡ true → keep p xs ≢ []
keep_nonempty p d [] h e = cc
keep_nonempty p d (x ∷ xs) h e = grind (arith, keep_nonempty p d xs)

lowest_of_nonempty :
    (tallies : Dict Fraction) (c : ℕ) (cs : List ℕ) → lowest_of tallies (c ∷ cs) ≢ []
unfolding lowest_of
lowest_of_nonempty tallies c cs = found (
    min_of-attained (tally_of tallies) (c ∷ cs) cs (tally_of tallies c) c (ground arith) refl
      (λ d h. ground (arith, h)))
  where
    found :
        (d : ℕ) × (elem d (c ∷ cs) ≡ true)
          × (Fraction.min_of (tally_of tallies c) (map (tally_of tallies) cs) ≡ tally_of tallies d)
        → keep
            (λ cid.
              Fraction.eq
                (tally_of tallies cid)
                (Fraction.min_of (tally_of tallies c) (map (tally_of tallies) cs)))
            (c ∷ cs)
          ≢ []
    found (d, listed, e) =
        keep_nonempty
          (λ x.
            Fraction.eq (tally_of tallies x)
              (Fraction.min_of (tally_of tallies c) (map (tally_of tallies) cs)))
          d (c ∷ cs) listed (rw e (Fraction.eq_refl (tally_of tallies d)))

fewest_of-attained :
    (first_prefs : Dict ℕ) (set cs : List ℕ) (m a : ℕ)
    → elem a set ≡ true
    → m ≡ get_or 0 a first_prefs
    → ((d : ℕ) → elem d cs ≡ true → elem d set ≡ true)
    → (d : ℕ) × (elem d set ≡ true) × (fewest_of first_prefs m cs ≡ get_or 0 d first_prefs)
unfolding fewest_of
fewest_of-attained first_prefs set [] m a ha e sub = (a, ha, e)
fewest_of-attained first_prefs set (c ∷ cs) m a ha e sub =
    elim (dec_le m (get_or 0 c first_prefs)) [
      | yes p ↦
          fewest_of-attained first_prefs set cs (min m (get_or 0 c first_prefs)) a ha (omega arith)
            (λ d h. sub d (ground (arith, h)))
      | no np ↦
          fewest_of-attained first_prefs set cs (min m (get_or 0 c first_prefs)) c
            (sub c (ground arith)) (omega arith) (λ d h. sub d (ground (arith, h)))
    ]

narrow_nonempty : (first_prefs : Dict ℕ) (c : ℕ) (cs : List ℕ) → narrow first_prefs (c ∷ cs) ≢ []
unfolding narrow
narrow_nonempty first_prefs c cs = found (
    fewest_of-attained first_prefs (c ∷ cs) cs (get_or 0 c first_prefs) c (ground arith) refl
      (λ d h. ground (arith, h)))
  where
    found :
        (d : ℕ) × (elem d (c ∷ cs) ≡ true)
          × (fewest_of first_prefs (get_or 0 c first_prefs) cs ≡ get_or 0 d first_prefs)
        → keep
            (λ cid. get_or 0 cid first_prefs == fewest_of first_prefs (get_or 0 c first_prefs) cs)
            (c ∷ cs)
          ≢ []
    found (d, listed, e) =
        keep_nonempty
          (λ cid. get_or 0 cid first_prefs == fewest_of first_prefs (get_or 0 c first_prefs) cs) d
          (c ∷ cs) listed (eq→== _ _ (sym e))

narrow-sub :
    (first_prefs : Dict ℕ) (i : ℕ) (cs : List ℕ)
    → elem i (narrow first_prefs cs) ≡ true
    → elem i cs ≡ true
unfolding narrow
narrow-sub first_prefs i [] h = h
narrow-sub first_prefs i (c ∷ cs) h =
    elem-keep_sub
      (λ cid. get_or 0 cid first_prefs == fewest_of first_prefs (get_or 0 c first_prefs) cs) i
      (c ∷ cs) h

lowest_of-sub :
    (tallies : Dict Fraction) (i : ℕ) (cs : List ℕ)
    → elem i (lowest_of tallies cs) ≡ true
    → elem i cs ≡ true
unfolding lowest_of
lowest_of-sub tallies i [] h = h
lowest_of-sub tallies i (c ∷ cs) h =
    elem-keep_sub
      (λ cid.
        Fraction.eq (tally_of tallies cid)
          (Fraction.min_of (tally_of tallies c) (map (tally_of tallies) cs)))
      i (c ∷ cs) h

-- What a round that does not end the count does to the sets: one continuing candidate leaves, and
-- is elected or not.
abbrev pub Moves : Count → Count → Type 0
Moves s s' =
    (w : ℕ) × (elem w s.continuing ≡ true)
    × (s'.continuing ≡ discard w s.continuing)
    × ((s'.elected ≡ s.elected) ⊎ (s'.elected ≡ s.elected ++ (w ∷ [])))

drop_loser-Moves :
    (snapshot : Snapshot) (w : ℕ) (s : Count)
    → elem w s.continuing ≡ true
    → Moves s (drop_loser snapshot w s)
unfolding drop_loser
drop_loser-Moves snapshot w s h = (w, h, refl, inl refl)

break_tie-Moves :
    (snapshot : Snapshot) (tied narrowed lots : List ℕ) (s : Count)
    → lots ≢ []
    → ((i : ℕ) → elem i lots ≡ true → elem i s.continuing ≡ true)
    → Moves s (break_tie snapshot tied narrowed lots s)
unfolding break_tie
break_tie-Moves snapshot tied narrowed [] s ne sub = absurd (ne refl)
break_tie-Moves snapshot tied narrowed (loser ∷ others) s ne sub =
    (loser, sub loser (ground arith), refl, inl refl)

cons_nonempty : (x : ℕ) (xs : List ℕ) → x ∷ xs ≢ []
cons_nonempty x xs e = cc

elect-Moves :
    (quota : Option Fraction) (snapshot : Snapshot) (w : ℕ) (s : Count)
    → elem w s.continuing ≡ true
    → Moves s (elect quota snapshot w s)
unfolding elect
elect-Moves quota snapshot w s h = (w, h, refl, inr refl)

module _ (lot_key : ℕ → ℕ) where
  eliminate_from-Moves :
      (first_prefs : Dict ℕ) (snapshot : Snapshot) (lows : List ℕ) (s : Count)
      → lows ≢ []
      → ((i : ℕ) → elem i lows ≡ true → elem i s.continuing ≡ true)
      → Moves s (eliminate_from lot_key first_prefs snapshot lows s)
  unfolding eliminate_from
  eliminate_from-Moves first_prefs snapshot [] s ne sub = absurd (ne refl)
  eliminate_from-Moves first_prefs snapshot (loser ∷ []) s ne sub =
      drop_loser-Moves snapshot loser s (sub loser (ground arith))
  eliminate_from-Moves first_prefs snapshot (a ∷ b ∷ tied) s ne sub =
      let narrowed = narrow first_prefs (a ∷ b ∷ tied) in
      break_tie-Moves snapshot (a ∷ b ∷ tied) narrowed (sort_by (by_lot lot_key) narrowed) s
        (sort_by_nonempty (by_lot lot_key) narrowed (narrow_nonempty first_prefs a (b ∷ tied)))
        (λ i h.
          sub i
            (narrow-sub first_prefs i (a ∷ b ∷ tied) (elem-sort_by (by_lot lot_key) i narrowed h)))

  settle-Moves :
      (quota : Option Fraction) (first_prefs : Dict ℕ) (snapshot : Snapshot) (now : List ℕ)
      (s : Count)
      → s.continuing ≢ []
      → ((i : ℕ) → elem i now ≡ true → elem i s.continuing ≡ true)
      → Moves s (settle lot_key quota first_prefs snapshot now s)
  unfolding settle
  settle-Moves quota first_prefs snapshot [] s ne sub =
      eliminate_from-Moves first_prefs snapshot (lowest_of snapshot.tallies s.continuing) s
        (lowest s.continuing ne) (λ i h. lowest_of-sub snapshot.tallies i s.continuing h)
    where
      lowest : (set : List ℕ) → set ≢ [] → lowest_of snapshot.tallies set ≢ []
      lowest [] h = absurd (h refl)
      lowest (c ∷ cs) h = lowest_of_nonempty snapshot.tallies c cs
  settle-Moves quota first_prefs snapshot (winner ∷ others) s ne sub =
      elect-Moves quota snapshot winner s (sub winner (ground arith))

  -- Whatever the tallies are, a round moves one continuing candidate out.
  pub play_round-Moves :
      (quota : Option Fraction) (first_prefs : Dict ℕ) (snapshot : Snapshot) (s : Count)
      → s.continuing ≢ []
      → Moves s (play_round lot_key quota first_prefs snapshot s)
  unfolding play_round winners_now
  play_round-Moves quota first_prefs snapshot s ne =
      settle-Moves quota first_prefs snapshot (winners_now lot_key quota snapshot s.continuing) s ne
        (λ i h. elem-keep_sub _ i s.continuing (elem-sort_by _ i _ h))

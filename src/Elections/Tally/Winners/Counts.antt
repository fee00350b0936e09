-- ===== src/Elections/Tally/Winners/Counts.antt =====
-- How many candidates have at least some number of votes, and how many stand at the last seat.
use flexyvotes.Base.{
  ℕ, zero, suc, ◌+◌, ◌≤◌, ◌<◌, ◌≡◌, refl, ap, Bool, true, false, ◌&&◌, ◌||◌, not, List, [], ◌∷◌,
  ◌++◌, ltb, leb, ◌==◌, if◌then◌else◌, length, take, drop, keep, any, elem, All, Descending, arith,
}
use flexyvotes.Base.Dict.{Dict, get_or}
use flexyvotes.Elections.Model.{Candidate}
use flexyvotes.Elections.Tally.{ids_of, last_id}

-- How many candidates have at least `k` votes, and how many have more.
abbrev pub at_least : Dict ℕ → ℕ → List Candidate → ℕ
at_least counts k [] = 0
at_least counts k (c ∷ cs) = (if leb k (get_or 0 c.id counts) then 1 else 0) + at_least counts k cs

abbrev pub above : Dict ℕ → ℕ → List Candidate → ℕ
above counts k cs = at_least counts (suc k) cs

-- No id stands twice.
abbrev pub IsDistinct : List ℕ → Type 0
IsDistinct [] = Unit
IsDistinct (i ∷ is) = (elem i is ≡ false) × IsDistinct is

module _ (counts : Dict ℕ) where
  abbrev pub votes : ℕ → ℕ
  votes i = get_or 0 i counts

  abbrev pub cand_votes : Candidate → ℕ
  cand_votes c = get_or 0 c.id counts

  pub at_least-append :
      (k : ℕ) (xs ys : List Candidate)
      → at_least counts k (xs ++ ys) ≡ at_least counts k xs + at_least counts k ys
  at_least-append k [] ys = omega arith
  at_least-append k (x ∷ xs) ys = ground (arith, at_least-append k xs ys)

  pub at_least-le-length : (k : ℕ) (xs : List Candidate) → at_least counts k xs ≤ length xs
  at_least-le-length k [] = omega arith
  at_least-le-length k (x ∷ xs) = ground (arith, at_least-le-length k xs)

  pub at_least-All :
      (k : ℕ) (xs : List Candidate)
      → All (λ c. k ≤ cand_votes c) xs
      → at_least counts k xs ≡ length xs
  at_least-All k [] h = refl
  at_least-All k (x ∷ xs) h = ground (arith, at_least-All k xs h.1)

  pub at_least-none :
      (k : ℕ) (xs : List Candidate) → All (λ c. cand_votes c < k) xs → at_least counts k xs ≡ 0
  at_least-none k [] h = refl
  at_least-none k (x ∷ xs) h = ground (arith, at_least-none k xs h.1)

  pub at_least_mono :
      (k j : ℕ) (xs : List Candidate) → k ≤ j → at_least counts j xs ≤ at_least counts k xs
  at_least_mono k j [] h = omega arith
  at_least_mono k j (x ∷ xs) h = ground (arith, at_least_mono k j xs h)

  pub at_least-elem :
      (i : ℕ) (xs : List Candidate) → elem i (ids_of xs) ≡ true → 1 ≤ at_least counts (votes i) xs
  at_least-elem i [] h = cc
  at_least-elem i (x ∷ xs) h = ground (arith, at_least-elem i xs)

  -- Membership in a list that is filtered by the votes.
  pub elem-keep :
      (q : ℕ → Bool) (i : ℕ) (xs : List Candidate)
      → elem i (ids_of (keep (λ d. q (get_or 0 d.id counts)) xs))
        ≡ (elem i (ids_of xs) && q (votes i))
  elem-keep q i [] = refl
  elem-keep q i (x ∷ xs) = ground (arith, elem-keep q i xs)

pub elem-append :
    (i : ℕ) (xs ys : List Candidate)
    → elem i (ids_of (xs ++ ys)) ≡ (elem i (ids_of xs) || elem i (ids_of ys))
elem-append i [] ys = refl
elem-append i (x ∷ xs) ys = ground (arith, elem-append i xs ys)

pub take-drop {ℓ} : {A : Type ℓ} (n : ℕ) (xs : List A) → take n xs ++ drop n xs ≡ xs
take-drop zero xs = refl
take-drop (suc n) [] = refl
take-drop (suc n) (x ∷ xs) = ap (x ∷◌) (take-drop n xs)

pub length-take-le {ℓ} : {A : Type ℓ} (n : ℕ) (xs : List A) → length (take n xs) ≤ n
length-take-le zero xs = omega arith
length-take-le (suc n) [] = omega arith
length-take-le (suc n) (x ∷ xs) = omega (arith, length-take-le n xs)

pub length-take_full {ℓ} :
    {A : Type ℓ} (n : ℕ) (xs : List A) → 1 ≤ length (drop n xs) → length (take n xs) ≡ n
length-take_full zero xs h = refl
length-take_full (suc n) [] h = absurd (omega arith)
length-take_full (suc n) (x ∷ xs) h = omega (arith, length-take_full n xs h)

-- The list of candidates is split at the last seat: `c ∷ ws` take the seats and `rest` follows.
module _ (counts : Dict ℕ) (c : Candidate) where
  abbrev pub cutoff : List Candidate → ℕ
  cutoff ws = get_or 0 (last_id c.id ws) counts

-- The number of votes at the last seat parts the list.
pub cutoff-seated :
    (counts : Dict ℕ) (c : Candidate) (ws rest : List Candidate)
    → Descending (cand_votes counts) (c ∷ ws ++ rest)
    → All (λ d. cutoff counts c ws ≤ cand_votes counts d) (c ∷ ws)
cutoff-seated counts c [] rest h = (omega arith, tt)
cutoff-seated counts c (w ∷ ws) rest h =
    let ih = cutoff-seated counts w ws rest h.1 in (omega (arith, ih.0, h.0.0), ih)

pub cutoff-rest :
    (counts : Dict ℕ) (c : Candidate) (ws rest : List Candidate)
    → Descending (cand_votes counts) (c ∷ ws ++ rest)
    → All (λ d. cand_votes counts d ≤ cutoff counts c ws) rest
cutoff-rest counts c [] rest h = h.0
cutoff-rest counts c (w ∷ ws) rest h = cutoff-rest counts w ws rest h.1

pub above-cutoff :
    (counts : Dict ℕ) (c : Candidate) (ws : List Candidate)
    → above counts (cutoff counts c ws) (c ∷ ws) < length (c ∷ ws)
above-cutoff counts c [] = ground arith
above-cutoff counts c (w ∷ ws) = ground (arith, above-cutoff counts w ws)

-- The number tied at `k` is what `at_least` counts less what `above` counts.
pub length-tied :
    (counts : Dict ℕ) (k : ℕ) (zs : List Candidate)
    → above counts k zs + length (keep (λ d. get_or 0 d.id counts == k) zs) ≡ at_least counts k zs
length-tied counts k [] = omega arith
length-tied counts k (z ∷ zs) = ground (arith, length-tied counts k zs)

-- A candidate at the cutoff without a seat, as the code looks for one.
abbrev pub missed : Dict ℕ → ℕ → List ℕ → List Candidate → Bool
missed counts k seated zs =
    any (λ d. not (elem d.id seated)) (keep (λ d. get_or 0 d.id counts == k) zs)

module _ (counts : Dict ℕ) (k : ℕ) (seated : List ℕ) where
  pub missed-at_least :
      (zs : List Candidate) → missed counts k seated zs ≡ true → 1 ≤ at_least counts k zs
  missed-at_least [] h = cc
  missed-at_least (z ∷ zs) h = ground (arith, missed-at_least zs)

  pub missed-append :
      (xs ys : List Candidate)
      → All (λ d. elem d.id seated ≡ true) xs
      → missed counts k seated (xs ++ ys) ≡ missed counts k seated ys
  missed-append [] ys h = refl
  missed-append (x ∷ xs) ys h = ground (arith, missed-append xs ys h.1)

  pub missed-below :
      (zs : List Candidate)
      → missed counts k seated zs ≡ false
      → All (λ d. elem d.id seated ≡ false) zs
      → All (λ d. cand_votes counts d ≤ k) zs
      → All (λ d. cand_votes counts d < k) zs
  missed-below [] h n le = tt
  missed-below (z ∷ zs) h n le =
      (ground (arith, h, n.0, le.0), missed-below zs (ground (arith, h)) n.1 le.1)

pub All-seated :
    (xs : List Candidate) (seated : List ℕ)
    → ((i : ℕ) → elem i (ids_of xs) ≡ true → elem i seated ≡ true)
    → All (λ d. elem d.id seated ≡ true) xs
All-seated [] seated h = tt
All-seated (x ∷ xs) seated h =
    (h x.id (ground arith), All-seated xs seated (λ i e. h i (ground (arith, e))))

-- An id of the first part of a list without repetition is not in the second.
pub distinct_apart :
    (xs ys : List Candidate) (i : ℕ)
    → IsDistinct (ids_of (xs ++ ys))
    → elem i (ids_of ys) ≡ true
    → elem i (ids_of xs) ≡ false
distinct_apart [] ys i h e = refl
distinct_apart (x ∷ xs) ys i h e =
    ground (arith, distinct_apart xs ys i h.1 e, elem-append i xs ys, elem-append x.id xs ys)

pub All-apart :
    (xs zs : List Candidate)
    → ((i : ℕ) → elem i (ids_of zs) ≡ true → elem i (ids_of xs) ≡ false)
    → All (λ d. elem d.id (ids_of xs) ≡ false) zs
All-apart xs [] h = tt
All-apart xs (z ∷ zs) h = (h z.id (ground arith), All-apart xs zs (λ i e. h i (ground (arith, e))))

-- The two cases of the test, over the numbers that decide them: `v` votes against the cutoff `k`,
-- `a` candidates with at least `v` votes and `b` with more.
pub tied_numbers :
    (seated : Bool) (k v seats a b : ℕ)
    → (k < v → seated ≡ true)
    → (k < v → a ≤ seats)
    → (v ≤ k → seats < a)
    → (v ≡ k → b < seats)
    → (v < k → seats ≤ b)
    → ((seated && ltb k v) ≡ leb a seats) × ((v == k) ≡ (ltb b seats && ltb seats a))
tied_numbers seated k v seats a b h1 h2 h3 h4 h5 = ground arith

pub untied_numbers :
    (seated : Bool) (seats a b : ℕ)
    → (seated ≡ true → a ≤ seats)
    → (seated ≡ false → (seats < a) × (seats ≤ b))
    → (seated ≡ leb a seats) × (false ≡ (ltb b seats && ltb seats a))
untied_numbers seated seats a b h1 h2 = ground arith

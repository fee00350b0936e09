-- ===== src/Core/Merkle/Inclusion.antt =====
-- The proofs that `merkle_proof` builds are accepted by `verify_merkle_proof`.
use flexyvotes.Base.{
  ℕ, zero, suc, ◌+◌, ◌/◌, ◌%◌, ◌≤◌, ◌≡◌, refl, ◌∙◌, Bool, true, some, List, [], ◌∷◌, ◌++◌, map,
  length, get_elem?, ◌==◌, inl, inr, Bool-cases, arith, length-append, lt→ltb,
}
use flexyvotes.Core.Merkle.{
  Side, left, right, sibling_of, last_or, pad, leaf, pairs, next_level, reduce, root_of,
  merkle_root, proof_step, proof_from, merkle_proof, climb, climb_all, verify_merkle_proof,
}

module _ {A : Type 0} where
  get_elem?-append :
      (xs ys : List A) (i : ℕ) {a : A} → get_elem? xs i ≡ some a → get_elem? (xs ++ ys) i ≡ some a
  get_elem?-append [] ys i h = cc
  get_elem?-append (x ∷ xs) ys zero h = h
  get_elem?-append (x ∷ xs) ys (suc i) h = get_elem?-append xs ys i h

  -- A padded level holds what the level held, and has an even length.
  pub get_elem?-pad :
      (xs : List A) (i : ℕ) {a : A} → get_elem? xs i ≡ some a → get_elem? (pad xs) i ≡ some a
  unfolding pad
  get_elem?-pad [] i h = h
  get_elem?-pad (x ∷ xs) i h = elim (Bool-cases (length (x ∷ xs) % 2 == 0)) [
    | inl even ↦ rw even h
    | inr odd ↦ rw odd (get_elem?-append (x ∷ xs) (last_or x xs ∷ []) i h)
  ]

  pub length-pad : (xs : List A) → length (pad xs) ≡ length xs + length xs % 2
  unfolding pad
  length-pad [] = omega arith
  length-pad (x ∷ xs) = ground (arith, length-append xs (last_or x xs ∷ []))

sibling_of-suc-suc : (i : ℕ) → sibling_of (suc (suc i)) ≡ suc (suc (sibling_of i))
unfolding sibling_of
sibling_of-suc-suc i = ground arith

module _ {Digest : Type 0} (sha256 : List ℕ → Digest) (from_hex : Digest → List ℕ) where
  length-pairs : (xs : List Digest) → length (pairs sha256 from_hex xs) ≡ length xs / 2
  unfolding pairs
  length-pairs [] = omega arith
  length-pairs (x ∷ []) = omega arith
  length-pairs (x ∷ y ∷ rest) = omega (arith, length-pairs rest)

  pub length-next_level :
      (xs : List Digest) → length (next_level sha256 from_hex xs) ≡ (length xs + 1) / 2
  unfolding next_level
  length-next_level xs = omega (arith, length-pairs (pad xs), length-pad xs)

  -- At an even level every entry has a sibling, and climbing by it gives the parent.
  abbrev StepFound : List Digest → ℕ → Digest → Type 0
  StepFound p i c =
      (s : Digest × Side) × (proof_step p i ≡ some s)
      × (get_elem? (pairs sha256 from_hex p) (i / 2) ≡ some (climb sha256 from_hex c s))

  proof_step-suc-suc :
      (x y : Digest) (rest : List Digest) (i : ℕ)
      → proof_step (x ∷ y ∷ rest) (suc (suc i)) ≡ proof_step rest i
  unfolding proof_step
  proof_step-suc-suc x y rest i = ground (arith, sibling_of-suc-suc i)

  StepFound-suc-suc :
      (x y : Digest) (rest : List Digest) (i : ℕ) (c : Digest)
      → StepFound rest i c
      → StepFound (x ∷ y ∷ rest) (suc (suc i)) c
  unfolding proof_step pairs
  StepFound-suc-suc x y rest i c (s, found, parent) =
      let half : suc (suc i) / 2 ≡ suc (i / 2) = omega arith in
      (s, proof_step-suc-suc x y rest i ∙ found, rw half parent)

  step_found :
      (p : List Digest) (i : ℕ) {c : Digest}
      → length p % 2 ≡ 0
      → get_elem? p i ≡ some c
      → StepFound p i c
  unfolding proof_step pairs climb
  step_found [] i even h = cc
  step_found (x ∷ []) i even h = absurd (omega arith)
  step_found (x ∷ y ∷ rest) zero even h = ((y, right), ground arith, ground arith)
  step_found (x ∷ y ∷ rest) (suc zero) even h = ((x, left), ground arith, ground arith)
  step_found (x ∷ y ∷ rest) (suc (suc i)) {c} even h =
      StepFound-suc-suc x y rest i c (step_found rest i {c = c} (omega arith) h)

  -- Climbing from an entry of a level by the proof from there reaches the root of the level.
  abbrev Climbs : ℕ → List Digest → ℕ → Digest → Type 0
  Climbs f level i c =
      (proof : List (Digest × Side)) × (proof_from sha256 from_hex f level i ≡ some proof)
      × (climb_all sha256 from_hex c proof
          ≡ root_of sha256 from_hex (reduce sha256 from_hex f level))

  Climbs-step :
      (f : ℕ) (x y : Digest) (rest : List Digest) (i : ℕ) (c : Digest) (s : Digest × Side)
      → proof_step (pad (x ∷ y ∷ rest)) i ≡ some s
      → Climbs f (next_level sha256 from_hex (x ∷ y ∷ rest)) (i / 2) (climb sha256 from_hex c s)
      → Climbs (suc f) (x ∷ y ∷ rest) i c
  unfolding proof_from reduce climb_all
  Climbs-step f x y rest i c s stepped (proof, built, climbed) =
      let long = lt→ltb 1 (length (x ∷ y ∷ rest)) (omega arith) in
      (s ∷ proof, rw (long, stepped, built), rw (reduce, long) climbed)

  -- The induction hypothesis of the next lemmas, for every entry of a level.
  abbrev AllClimb : ℕ → List Digest → ℕ → Type 0
  AllClimb f level i =
      (c : Digest) → length level ≤ f → get_elem? level i ≡ some c → Climbs f level i c

  Climbs-of_found :
      (f : ℕ) (x y : Digest) (rest : List Digest) (i : ℕ) (c : Digest)
      → length (x ∷ y ∷ rest) ≤ suc f
      → StepFound (pad (x ∷ y ∷ rest)) i c
      → AllClimb f (next_level sha256 from_hex (x ∷ y ∷ rest)) (i / 2)
      → Climbs (suc f) (x ∷ y ∷ rest) i c
  unfolding next_level
  Climbs-of_found f x y rest i c bound (s, stepped, parent) ih =
      Climbs-step f x y rest i c s stepped
        (ih (climb sha256 from_hex c s) (omega (arith, length-next_level (x ∷ y ∷ rest))) parent)

  proof_from_climbs : (f : ℕ) (level : List Digest) (i : ℕ) → AllClimb f level i
  unfolding proof_from reduce climb_all root_of
  proof_from_climbs zero [] i c bound h = cc
  proof_from_climbs zero (x ∷ xs) i c bound h = absurd (omega arith)
  proof_from_climbs (suc f) [] i c bound h = cc
  proof_from_climbs (suc f) (x ∷ []) zero c bound h = ([], refl, ground arith)
  proof_from_climbs (suc f) (x ∷ []) (suc i) c bound h = cc
  proof_from_climbs (suc f) (x ∷ y ∷ rest) i c bound h =
      Climbs-of_found f x y rest i c bound
        (step_found (pad (x ∷ y ∷ rest)) i (omega (arith, length-pad (x ∷ y ∷ rest)))
          (get_elem?-pad (x ∷ y ∷ rest) i h))
        (proof_from_climbs f (next_level sha256 from_hex (x ∷ y ∷ rest)) (i / 2))

  get_elem?-map-leaf :
      (leaves : List Digest) (i : ℕ) {v : Digest}
      → get_elem? leaves i ≡ some v
      → get_elem? (map (leaf sha256 from_hex) leaves) i ≡ some (leaf sha256 from_hex v)
  get_elem?-map-leaf [] i h = cc
  get_elem?-map-leaf (x ∷ xs) zero h = ground arith
  get_elem?-map-leaf (x ∷ xs) (suc i) h = get_elem?-map-leaf xs i h

  module _ (digest_eq : Digest → Digest → Bool)
      (digest_eq_refl : (d : Digest) → digest_eq d d ≡ true) where
    -- What `verify-merkle_proof` states of one list, index and tracker.
    abbrev pub IsProvable : List Digest → ℕ → Digest → Type 0
    IsProvable leaves index v =
        (proof : List (Digest × Side)) × (merkle_proof sha256 from_hex leaves index ≡ some proof)
        × (verify_merkle_proof sha256 from_hex digest_eq v proof
              (merkle_root sha256 from_hex leaves)
            ≡ true)

    IsProvable-of_Climbs :
        (leaves : List Digest) (index : ℕ) (v : Digest)
        → Climbs
            (length (map (leaf sha256 from_hex) leaves))
            (map (leaf sha256 from_hex) leaves)
            index
            (leaf sha256 from_hex v)
        → IsProvable leaves index v
    unfolding merkle_proof merkle_root verify_merkle_proof
    IsProvable-of_Climbs leaves index v (proof, built, climbed) =
        (proof, built, rw climbed (digest_eq_refl _))

    -- For every list of trackers and every index in it, `merkle_proof` builds a proof, and
    -- `verify_merkle_proof` accepts that proof for the tracker that stands at the index, against
    -- the `merkle_root` of the list. `digest_eq` is a comparison that holds of equal digests.
    pub verify-merkle_proof :
        (leaves : List Digest) (index : ℕ) (v : Digest)
        → get_elem? leaves index ≡ some v
        → IsProvable leaves index v
    verify-merkle_proof leaves index v h =
        IsProvable-of_Climbs leaves index v
          (proof_from_climbs _ _ index _ (omega arith) (get_elem?-map-leaf leaves index h))

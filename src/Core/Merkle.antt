-- ===== src/Core/Merkle.antt =====
-- core/crypto.py, "Merkle tree (bulletin board of ballot trackers)": the root of a list of ballot
-- trackers, the inclusion proof of one of them, and the check of a proof.
--
-- `hashlib` and the hexadecimal encoding are not the repository's code: a section's parameter
-- `Digest` is the type of hexadecimal texts, of any length, `sha256` is
-- `hashlib.sha256(...).hexdigest()` over bytes, `from_hex` is `bytes.fromhex` on the texts that it
-- reads (of others it raises), and `digest_eq` is `hmac.compare_digest`.
pub mod Inclusion
pub mod Tree
pub mod Binding
pub mod Levels
mod Tests
use flexyvotes.Base.{
  ℕ, zero, suc, ◌+◌, ◌-◌, ◌/◌, ◌%◌, Bool, Option, none, some, List, [], ◌∷◌, ◌++◌, map, length,
  get_elem?, ltb, ◌==◌, if◌then◌else◌,
}

-- The `side` of a step of a proof.
pub data Side : Type 0 where
  left right : Side

-- `index ^ 1`: an even index has its sibling on the right, an odd one on the left.
unfoldable pub sibling_of : ℕ → ℕ
sibling_of index = if index % 2 == 0 then index + 1 else index - 1

module _ {Digest : Type 0} where
  -- `level[-1]`, for a level that is not empty
  abbrev pub last_or : Digest → List Digest → Digest
  last_or d [] = d
  last_or d (x ∷ xs) = last_or x xs

  -- `if len(level) % 2: level.append(level[-1])`
  unfoldable pub pad : List Digest → List Digest
  pad [] = []
  pad (x ∷ xs) = if length (x ∷ xs) % 2 == 0 then x ∷ xs else (x ∷ xs) ++ (last_or x xs ∷ [])

  -- The step of a proof for `index` at a padded level; `none` is an IndexError.
  unfoldable pub proof_step : List Digest → ℕ → Option (Digest × Side)
  unfolding sibling_of
  proof_step padded index = elim (get_elem? padded (sibling_of index)) [
    | none ↦ none
    | some h ↦ some (h, (if ltb (sibling_of index) index then left else right))
  ]

module _ {Digest : Type 0} (sha256 : List ℕ → Digest) (from_hex : Digest → List ℕ) where
  unfoldable pub hash_pair : Digest → Digest → Digest
  hash_pair l r = sha256 (from_hex l ++ from_hex r)

  unfoldable pub leaf : Digest → Digest
  leaf value = sha256 (0 ∷ from_hex value)

  -- `[_hash_pair(level[i], level[i + 1]) for i in range(0, len(level), 2)]`
  unfoldable pub pairs : List Digest → List Digest
  pairs [] = []
  pairs (x ∷ []) = []
  pairs (x ∷ y ∷ rest) = hash_pair x y ∷ pairs rest

  -- One round of the `while len(level) > 1` loops.
  unfoldable pub next_level : List Digest → List Digest
  unfolding pad pairs
  next_level level = pairs (pad level)

  -- The loop of `merkle_root`, on fuel; the level that it leaves.
  unfoldable pub reduce : ℕ → List Digest → List Digest
  reduce zero level = level
  reduce (suc fuel) level =
      let rest = reduce fuel (next_level level) in if ltb 1 (length level) then rest else level

  -- `level[0]`, or the hash of nothing for no leaves at all
  unfoldable pub root_of : List Digest → Digest
  root_of [] = sha256 []
  root_of (x ∷ xs) = x

  unfoldable pub merkle_root : List Digest → Digest
  unfolding reduce root_of
  merkle_root leaves = let level = map leaf leaves in root_of (reduce (length level) level)

  -- The loop of `merkle_proof`, on fuel.
  unfoldable pub proof_from : ℕ → List Digest → ℕ → Option (List (Digest × Side))
  proof_from zero level index = some []
  proof_from (suc fuel) level index =
      let rest = proof_from fuel (next_level level) (index / 2) in
      if ltb 1 (length level)
      then elim (proof_step (pad level) index) [
        | none ↦ none
        | some step ↦ elim rest [ none ↦ none | some steps ↦ some (step ∷ steps) ]
      ]
      else some []

  unfoldable pub merkle_proof : List Digest → ℕ → Option (List (Digest × Side))
  unfolding proof_from
  merkle_proof leaves index = let level = map leaf leaves in proof_from (length level) level index

  -- The body of the loop of `verify_merkle_proof`.
  unfoldable pub climb : Digest → Digest × Side → Digest
  unfolding hash_pair
  climb current (h, left) = hash_pair h current
  climb current (h, right) = hash_pair current h

  unfoldable pub climb_all : Digest → List (Digest × Side) → Digest
  unfolding climb
  climb_all current [] = current
  climb_all current (step ∷ proof) = climb_all (climb current step) proof

  module _ (digest_eq : Digest → Digest → Bool) where
    unfoldable pub verify_merkle_proof : Digest → List (Digest × Side) → Digest → Bool
    unfolding climb_all leaf
    verify_merkle_proof value proof root = digest_eq (climb_all (leaf value) proof) root

-- ===== src/Core/Merkle/Tests.antt =====
-- A board over a toy digest: a number, whose bytes are 32 copies of it.
use flexyvotes.Base.{
  ℕ, zero, suc, ◌+◌, ◌*◌, ◌≡◌, ◌⊎◌, refl, ap, Bool, some, List, [], ◌∷◌, ◌==◌, arith, ==_refl,
  ==→eq, foldl,
}
use mathlib.Core.List.{head?}
use mathlib.Core.Option.{some-injective}
use flexyvotes.Core.Merkle.{
  left, right, leaf, merkle_root, merkle_proof, verify_merkle_proof, proof_step, sibling_of, pad,
  next_level, hash_pair,
}
use flexyvotes.Core.Merkle.Inclusion.{IsProvable, verify-merkle_proof}
use flexyvotes.Core.Merkle.Tree.{Collision, IsListed}
use flexyvotes.Core.Merkle.Binding.{verify_merkle_proof-IsListed}
use flexyvotes.Core.Merkle.Levels.{merkle_root-duplicate}

toy_sha256 : List ℕ → ℕ
toy_sha256 = foldl (λ acc b. acc * 3 + b + 7) 1

abbrev copies : ℕ → ℕ → List ℕ
copies zero d = []
copies (suc n) d = d ∷ copies n d

abbrev toy_bytes : ℕ → List ℕ
toy_bytes d = copies 32 d

toy_bytes_injective : (a b : ℕ) → toy_bytes a ≡ toy_bytes b → a ≡ b
toy_bytes_injective a b e = some-injective a b (ap head? e)

abbrev toy_eq : ℕ → ℕ → Bool
toy_eq a b = a == b

abbrev board : List ℕ
board = 11 ∷ 12 ∷ 13 ∷ 14 ∷ 15 ∷ []

verify-merkle_proof_example : IsProvable toy_sha256 toy_bytes toy_eq ==_refl board 4 15
verify-merkle_proof_example =
    verify-merkle_proof toy_sha256 toy_bytes toy_eq ==_refl board 4 15 refl

-- The proof of the third tracker has a step for each of the three rounds.
merkle_proof_runs :
    merkle_proof toy_sha256 toy_bytes (1 ∷ 2 ∷ []) 1
    ≡ some ((leaf toy_sha256 toy_bytes 1, left) ∷ [])
unfolding merkle_proof leaf toy_sha256 proof_step sibling_of pad next_level
merkle_proof_runs = refl

verify_merkle_proof-IsListed_example :
    IsListed toy_sha256 toy_bytes (7 ∷ 9 ∷ []) 7 ⊎ Collision toy_sha256 toy_bytes
unfolding verify_merkle_proof merkle_root leaf toy_sha256 pad next_level hash_pair
verify_merkle_proof-IsListed_example =
    verify_merkle_proof-IsListed toy_sha256 toy_bytes (λ xs. refl)
      (λ xs ys e. toy_bytes_injective _ _ e) toy_eq ==→eq (7 ∷ 9 ∷ []) 7
      ((leaf toy_sha256 toy_bytes 9, right) ∷ []) refl (λ e. omega (arith, e)) refl refl

merkle_root-duplicate_example :
    merkle_root toy_sha256 toy_bytes (1 ∷ 2 ∷ 3 ∷ 3 ∷ [])
    ≡ merkle_root toy_sha256 toy_bytes (1 ∷ 2 ∷ 3 ∷ [])
merkle_root-duplicate_example =
    merkle_root-duplicate toy_sha256 toy_bytes 1 (2 ∷ 3 ∷ []) (omega arith) refl

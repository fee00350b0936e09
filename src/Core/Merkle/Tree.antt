-- ===== src/Core/Merkle/Tree.antt =====
-- core/crypto.py: the hashes that stand in the Merkle tree over a list of trackers.
use flexyvotes.Base.{
  ℕ, zero, suc, ◌%◌, ◌≡◌, ◌≢◌, ◌⊎◌, inl, inr, refl, ap, some, List, [], ◌∷◌, ◌++◌, map, length,
  get_elem?, ◌==◌, arith, Bool-cases, ltb, Bool, true, not, all,
}
use mathlib.Core.List.{tail}
use native.Mathlib.Decide.{ℕ_discrete}
use flexyvotes.Core.Merkle.{Side, last_or, pad, hash_pair, leaf, pairs, next_level, reduce}

pub bytes-discrete : Discrete (List ℕ)
bytes-discrete = hlevel ℕ_discrete

-- Two lists that start with equally long parts are equal only part by part.
pub append-injective :
    (xs ys us vs : List ℕ) → length xs ≡ length us → xs ++ ys ≡ us ++ vs → (xs ≡ us) × (ys ≡ vs)
append-injective [] ys [] vs l e = (refl, e)
append-injective [] ys (u ∷ us) vs l e = absurd (omega arith)
append-injective (x ∷ xs) ys [] vs l e = absurd (omega arith)
append-injective (x ∷ xs) ys (u ∷ us) vs l e =
    let (front, back) = append-injective xs ys us vs (omega arith) (ap tail e) in (cc, back)

module _ {Digest : Type 0} (sha256 : List ℕ → Digest) (from_hex : Digest → List ℕ) where
  -- Two different byte strings with one SHA-256 digest.
  pub record Collision : Type 0 where
    pub first : List ℕ
    pub second : List ℕ
    pub distinct : first ≢ second
    pub same_digest : sha256 first ≡ sha256 second

  -- What stands in the tree over `leaves`: hashed leaves, and hashed pairs of what stands in it.
  pub data InTree (leaves : List Digest) : Digest → Type 0 where
    at_leaf :
        (i : ℕ) (v : Digest) {d : Digest}
        → get_elem? leaves i ≡ some v
        → d ≡ leaf sha256 from_hex v
        → InTree leaves d
    at_node :
        (l r : Digest) {d : Digest}
        → InTree leaves l
        → InTree leaves r
        → d ≡ hash_pair sha256 from_hex l r
        → InTree leaves d

  abbrev pub AllInTree : List Digest → List Digest → Type 0
  AllInTree leaves [] = Unit
  AllInTree leaves (d ∷ ds) = InTree leaves d × AllInTree leaves ds

  pub map-leaf-AllInTree :
      (leaves rest : List Digest)
      → ((i : ℕ) (v : Digest) → get_elem? rest i ≡ some v → (j : ℕ) × (get_elem? leaves j ≡ some v))
      → AllInTree leaves (map (leaf sha256 from_hex) rest)
  map-leaf-AllInTree leaves [] found = tt
  map-leaf-AllInTree leaves (v ∷ rest) found =
      let (j, at) = found 0 v refl in
      (at_leaf j v at refl, map-leaf-AllInTree leaves rest (λ i w h. found (suc i) w h))

  last_or-InTree :
      (leaves : List Digest) (x : Digest) (xs : List Digest)
      → InTree leaves x
      → AllInTree leaves xs
      → InTree leaves (last_or x xs)
  last_or-InTree leaves x [] h hs = h
  last_or-InTree leaves x (y ∷ ys) h hs = last_or-InTree leaves y ys hs.0 hs.1

  append-AllInTree :
      (leaves xs ys : List Digest)
      → AllInTree leaves xs
      → AllInTree leaves ys
      → AllInTree leaves (xs ++ ys)
  append-AllInTree leaves [] ys hx hy = hy
  append-AllInTree leaves (x ∷ xs) ys hx hy = (hx.0, append-AllInTree leaves xs ys hx.1 hy)

  pad-AllInTree : (leaves xs : List Digest) → AllInTree leaves xs → AllInTree leaves (pad xs)
  unfolding pad
  pad-AllInTree leaves [] h = tt
  pad-AllInTree leaves (x ∷ xs) h = elim (Bool-cases (length (x ∷ xs) % 2 == 0)) [
    | inl even ↦ rw even h
    | inr odd ↦ rw odd (
        append-AllInTree leaves (x ∷ xs) (last_or x xs ∷ []) h
          (last_or-InTree leaves x xs h.0 h.1, tt))
  ]

  pairs-AllInTree :
      (leaves xs : List Digest) → AllInTree leaves xs → AllInTree leaves (pairs sha256 from_hex xs)
  unfolding pairs
  pairs-AllInTree leaves [] h = tt
  pairs-AllInTree leaves (x ∷ []) h = tt
  pairs-AllInTree leaves (x ∷ y ∷ rest) h =
      (at_node x y h.0 h.1.0 refl, pairs-AllInTree leaves rest h.1.1)

  pub reduce-AllInTree :
      (leaves : List Digest) (f : ℕ) (level : List Digest)
      → AllInTree leaves level
      → AllInTree leaves (reduce sha256 from_hex f level)
  unfolding reduce next_level
  reduce-AllInTree leaves zero level h = h
  reduce-AllInTree leaves (suc f) level h = elim (Bool-cases (ltb 1 (length level))) [
    | inl more ↦ rw more (
        reduce-AllInTree leaves f (next_level sha256 from_hex level)
          (pairs-AllInTree leaves (pad level) (pad-AllInTree leaves level h)))
    | inr done ↦ rw done h
  ]

  pub same_or_collision : (xs ys : List ℕ) → sha256 xs ≡ sha256 ys → (xs ≡ ys) ⊎ Collision
  same_or_collision xs ys h = elim (bytes-discrete xs ys) [
    | yes e ↦ inl e
    | no ne ↦ inr (record { first = xs; second = ys; distinct = ne; same_digest = h })
  ]

  -- Some bytes, at least one, with the digest `d`.
  abbrev pub IsHashed : Digest → Type 0
  IsHashed d = (b : ℕ) × (bytes : List ℕ) × (d ≡ sha256 (b ∷ bytes))

  pub IsHashed-of_bytes : (xs : List ℕ) (n : ℕ) → length xs ≡ suc n → IsHashed (sha256 xs)
  IsHashed-of_bytes [] n e = absurd (omega arith)
  IsHashed-of_bytes (b ∷ bytes) n e = (b, bytes, refl)

  pub leaf-IsHashed : (v : Digest) → IsHashed (leaf sha256 from_hex v)
  unfolding leaf
  leaf-IsHashed v = (0, from_hex v, refl)

  -- A tracker with the bytes of `v` stands on the board, at some index.
  abbrev pub IsListed : List Digest → Digest → Type 0
  IsListed leaves v =
      (i : ℕ) × (w : Digest) × (get_elem? leaves i ≡ some w) × (from_hex w ≡ from_hex v)

  -- Every tracker of the board has 32 bytes.
  abbrev pub has_digests : List Digest → Bool
  has_digests leaves = all (λ w. length (from_hex w) == 32) leaves

  -- No hash of the proof has a single byte.
  abbrev pub has_no_byte : List (Digest × Side) → Bool
  has_no_byte proof = all (λ s. not (length (from_hex s.0) == 1)) proof

  pub tracker_bytes :
      (leaves : List Digest) (i : ℕ) (w : Digest)
      → has_digests leaves ≡ true
      → get_elem? leaves i ≡ some w
      → length (from_hex w) ≡ 32
  tracker_bytes [] i w h at = cc
  tracker_bytes (x ∷ xs) zero w h at = ground arith
  tracker_bytes (x ∷ xs) (suc i) w h at = tracker_bytes xs i w (ground arith) at

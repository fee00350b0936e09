-- ===== src/Core/Merkle/Levels.antt =====
-- The loop of `merkle_root`: its fuel is enough, and the last tracker of an odd board may be listed
-- twice without a change of the root.
use flexyvotes.Base.{
  ℕ, zero, suc, ◌%◌, ◌≤◌, ◌<◌, ◌≡◌, refl, ◌∙◌, ap, List, [], ◌∷◌, ◌++◌, map, inl, inr, length, ltb,
  arith, Bool-cases, lt→ltb, ltb→lt, length-map, eq→==, ne→==,
}
use mathlib.Core.List.{map-append}
use flexyvotes.Core.Merkle.{last_or, pad, leaf, next_level, reduce, root_of, merkle_root, pairs}
use flexyvotes.Core.Merkle.Inclusion.{length-pad, length-next_level}

module _ {Digest : Type 0} (sha256 : List ℕ → Digest) (from_hex : Digest → List ℕ) where
  -- With fuel for every entry, the rounds end at one digest, or at none for an empty level.
  pub length-reduce :
      (f : ℕ) (level : List Digest) → length level ≤ f → length (reduce sha256 from_hex f level) ≤ 1
  unfolding reduce
  length-reduce zero level h = omega arith
  length-reduce (suc f) level h = elim (Bool-cases (ltb 1 (length level))) [
    | inl more ↦ rw more (
        length-reduce f (next_level sha256 from_hex level)
          (omega (arith, length-next_level sha256 from_hex level, ltb→lt 1 (length level) more)))
    | inr done ↦ rw done (ground arith)
  ]

  -- More fuel than that changes nothing.
  reduce-fuel :
      (f g : ℕ) (level : List Digest)
      → length level ≤ f
      → length level ≤ g
      → reduce sha256 from_hex f level ≡ reduce sha256 from_hex g level
  unfolding reduce
  reduce-fuel zero zero level h k = refl
  reduce-fuel zero (suc g) level h k = ground arith
  reduce-fuel (suc f) zero level h k = ground arith
  reduce-fuel (suc f) (suc g) level h k = elim (Bool-cases (ltb 1 (length level))) [
    | inl more ↦ rw more (
        reduce-fuel f g (next_level sha256 from_hex level)
          (omega (arith, length-next_level sha256 from_hex level, ltb→lt 1 (length level) more))
          (omega (arith, length-next_level sha256 from_hex level, ltb→lt 1 (length level) more)))
    | inr done ↦ rw done
  ]

  pad-even : (level : List Digest) → length level % 2 ≡ 0 → pad level ≡ level
  unfolding pad
  pad-even [] h = refl
  pad-even (x ∷ xs) h = rw (eq→== (length (x ∷ xs) % 2) 0 h)

  pad-odd :
      (x : Digest) (xs : List Digest)
      → length (x ∷ xs) % 2 ≡ 1
      → pad (x ∷ xs) ≡ x ∷ xs ++ (last_or x xs ∷ [])
  unfolding pad
  pad-odd x xs h = rw (ne→== (length (x ∷ xs) % 2) 0 (omega arith))

  next_level-pad :
      (level : List Digest)
      → next_level sha256 from_hex (pad level) ≡ next_level sha256 from_hex level
  unfolding next_level
  next_level-pad level =
      ap (pairs sha256 from_hex) (pad-even (pad level) (omega (arith, length-pad level)))

  reduce-pad :
      (f : ℕ) (level : List Digest)
      → 1 < length level
      → reduce sha256 from_hex (suc f) (pad level) ≡ reduce sha256 from_hex (suc f) level
  unfolding reduce
  reduce-pad f level long = rw (
    lt→ltb 1 (length level) long,
    lt→ltb 1 (length (pad level)) (omega (arith, length-pad level)),
    next_level-pad level,
  )

  last_or-map-leaf :
      (x : Digest) (xs : List Digest)
      → last_or (leaf sha256 from_hex x) (map (leaf sha256 from_hex) xs)
        ≡ leaf sha256 from_hex (last_or x xs)
  last_or-map-leaf x [] = refl
  last_or-map-leaf x (y ∷ ys) = last_or-map-leaf y ys

  map-leaf-duplicate :
      (x : Digest) (xs : List Digest)
      → length (x ∷ xs) % 2 ≡ 1
      → map (leaf sha256 from_hex) (x ∷ xs ++ (last_or x xs ∷ []))
        ≡ pad (map (leaf sha256 from_hex) (x ∷ xs))
  map-leaf-duplicate x xs h =
      rw
        (
          pad-odd (leaf sha256 from_hex x) (map (leaf sha256 from_hex) xs)
              (omega (arith, length-map {0, 0} (leaf sha256 from_hex) xs)),
          last_or-map-leaf x xs,
        )
        (ap (leaf sha256 from_hex x ∷◌) (map-append _ xs (last_or x xs ∷ [])))

  reduce-pad_self :
      (level : List Digest)
      → 1 < length level
      → reduce sha256 from_hex (length (pad level)) (pad level)
        ≡ reduce sha256 from_hex (length level) level
  reduce-pad_self level long =
      let n = length (pad level) in
      reduce-fuel n (suc n) (pad level) (omega arith) (omega arith)
      ∙ reduce-pad n level long
      ∙ reduce-fuel (suc n) (length level) level (omega (arith, length-pad level)) (omega arith)

  -- The root does not fix how many trackers there are: for every odd number of trackers above one,
  -- the board that lists the last tracker once more has the same `merkle_root`.
  pub merkle_root-duplicate :
      (x : Digest) (xs : List Digest)
      → 1 < length (x ∷ xs)
      → length (x ∷ xs) % 2 ≡ 1
      → merkle_root sha256 from_hex (x ∷ xs ++ (last_or x xs ∷ []))
        ≡ merkle_root sha256 from_hex (x ∷ xs)
  unfolding merkle_root
  merkle_root-duplicate x xs long odd =
      ap (λ level. root_of sha256 from_hex (reduce sha256 from_hex (length level) level))
        (map-leaf-duplicate x xs odd)
      ∙ ap (root_of sha256 from_hex) (
          reduce-pad_self (map (leaf sha256 from_hex) (x ∷ xs))
            (omega (arith, length-map {0, 0} (leaf sha256 from_hex) xs)))

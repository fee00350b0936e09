-- ===== src/Core/Merkle/Binding.antt =====
-- A proof that `verify_merkle_proof` accepts, and the trackers on the board.
use flexyvotes.Base.{
  ℕ, suc, ◌+◌, ◌≡◌, ◌≢◌, ◌⊎◌, inl, inr, refl, sym, ◌∙◌, ap, Bool, true, List, [], ◌∷◌, ◌++◌, map,
  length, arith, length-append,
}
use mathlib.Core.List.{tail}
use flexyvotes.Core.Merkle.{
  Side, left, right, hash_pair, leaf, reduce, root_of, merkle_root, climb, climb_all,
  verify_merkle_proof,
}
use flexyvotes.Core.Merkle.Tree.{
  append-injective, Collision, InTree, at_leaf, at_node, AllInTree, map-leaf-AllInTree,
  reduce-AllInTree, same_or_collision, IsHashed, IsHashed-of_bytes, leaf-IsHashed, IsListed,
  has_digests, has_no_byte, tracker_bytes,
}

module _ {Digest : Type 0} (sha256 : List ℕ → Digest) (from_hex : Digest → List ℕ) where
  module _ (length_sha256 : (xs : List ℕ) → length (from_hex (sha256 xs)) ≡ 32)
      (from_hex_sha256 : (xs ys : List ℕ)
        → from_hex (sha256 xs) ≡ from_hex (sha256 ys)
        → sha256 xs ≡ sha256 ys) where
    IsHashed-length : (d : Digest) → IsHashed sha256 from_hex d → length (from_hex d) ≡ 32
    IsHashed-length d (b, bytes, e) = rw e (length_sha256 (b ∷ bytes))

    same_text :
        (a b : Digest)
        → IsHashed sha256 from_hex a
        → IsHashed sha256 from_hex b
        → from_hex a ≡ from_hex b
        → a ≡ b
    same_text a b (x, xs, e) (y, ys, q) h =
        e ∙ from_hex_sha256 (x ∷ xs) (y ∷ ys) (ap from_hex (sym e) ∙ h ∙ ap from_hex q) ∙ sym q

    length-pair :
        (a b : Digest)
        → length (from_hex a ++ from_hex b) ≡ length (from_hex a) + length (from_hex b)
    length-pair a b = length-append (from_hex a) (from_hex b)

    -- A pair one of which is a digest has a byte.
    pair-IsHashed :
        (a b : Digest)
        → IsHashed sha256 from_hex a ⊎ IsHashed sha256 from_hex b
        → IsHashed sha256 from_hex (hash_pair sha256 from_hex a b)
    unfolding hash_pair
    pair-IsHashed a b (inl h) =
        IsHashed-of_bytes sha256 from_hex _ (31 + length (from_hex b))
          (omega (arith, length-pair a b, IsHashed-length a h))
    pair-IsHashed a b (inr h) =
        IsHashed-of_bytes sha256 from_hex _ (31 + length (from_hex a))
          (omega (arith, length-pair a b, IsHashed-length b h))

    InTree-IsHashed :
        (leaves : List Digest) (d : Digest)
        → InTree sha256 from_hex leaves d
        → IsHashed sha256 from_hex d
    InTree-IsHashed leaves d (at_leaf i v at e) = rw e (leaf-IsHashed sha256 from_hex v)
    InTree-IsHashed leaves d (at_node l r hl hr e) =
        rw e (pair-IsHashed l r (inl (InTree-IsHashed leaves l hl)))

    -- A hashed pair is a hashed leaf only if it is as long.
    leaf_or_collision :
        (l r v : Digest)
        → length (from_hex l) + length (from_hex r) ≢ suc (length (from_hex v))
        → hash_pair sha256 from_hex l r ≡ leaf sha256 from_hex v
        → Collision sha256 from_hex
    unfolding hash_pair leaf
    leaf_or_collision l r v n h = elim (same_or_collision sha256 from_hex _ _ h) [
      | inl e ↦ absurd (n (sym (length-pair l r) ∙ ap length e))
      | inr c ↦ c
    ]

    -- Two hashed pairs that are equal have the same bytes in each part, if those parts are as long.
    pair_or_collision :
        (a b l r : Digest)
        → length (from_hex a) ≡ length (from_hex l) ⊎ (length (from_hex b) ≡ length (from_hex r))
        → hash_pair sha256 from_hex a b ≡ hash_pair sha256 from_hex l r
        → ((from_hex a ≡ from_hex l) × (from_hex b ≡ from_hex r)) ⊎ Collision sha256 from_hex
    unfolding hash_pair
    pair_or_collision a b l r s h = elim (same_or_collision sha256 from_hex _ _ h) [
      | inl e ↦ inl (append-injective _ _ _ _ (front (ap length e) s) e)
      | inr c ↦ inr c
    ]
      where
        front :
            length (from_hex a ++ from_hex b) ≡ length (from_hex l ++ from_hex r)
            → length (from_hex a) ≡ length (from_hex l)
              ⊎ (length (from_hex b) ≡ length (from_hex r))
            → length (from_hex a) ≡ length (from_hex l)
        front e (inl q) = q
        front e (inr q) = omega (arith, length-pair a b, length-pair l r)

    climb-IsHashed :
        (c : Digest) (s : Digest × Side)
        → IsHashed sha256 from_hex c
        → IsHashed sha256 from_hex (climb sha256 from_hex c s)
    unfolding climb
    climb-IsHashed c (h, left) k = pair-IsHashed h c (inr k)
    climb-IsHashed c (h, right) k = pair-IsHashed c h (inl k)

    climb_all-IsHashed :
        (c : Digest) (proof : List (Digest × Side))
        → IsHashed sha256 from_hex c
        → IsHashed sha256 from_hex (climb_all sha256 from_hex c proof)
    unfolding climb_all
    climb_all-IsHashed c [] h = h
    climb_all-IsHashed c (s ∷ proof) h =
        climb_all-IsHashed (climb sha256 from_hex c s) proof (climb-IsHashed c s h)

    empty-Collision :
        (d : Digest) → IsHashed sha256 from_hex d → d ≡ sha256 [] → Collision sha256 from_hex
    empty-Collision d (b, bytes, e) h =
        elim (same_or_collision sha256 from_hex (b ∷ bytes) [] (sym e ∙ h)) [
          | inl p ↦ cc
          | inr k ↦ k
        ]

    module _ (leaves : List Digest) (digests : has_digests sha256 from_hex leaves ≡ true) where
      -- A digest with the bytes of one that stands in the tree stands in it too.
      as-InTree :
          (l c : Digest)
          → InTree sha256 from_hex leaves l
          → IsHashed sha256 from_hex c
          → from_hex c ≡ from_hex l
          → InTree sha256 from_hex leaves c
      as-InTree l c t k e = rw (same_text c l k (InTree-IsHashed leaves l t) e) t

      climb-InTree :
          (c : Digest) (s : Digest × Side) (d : Digest)
          → IsHashed sha256 from_hex c
          → length (from_hex s.0) ≢ 1
          → InTree sha256 from_hex leaves d
          → d ≡ climb sha256 from_hex c s
          → InTree sha256 from_hex leaves c ⊎ Collision sha256 from_hex
      unfolding climb
      climb-InTree c (h, left) d k n (at_leaf i v at e) q = inr (
          leaf_or_collision h c v
            (λ z. n (
              omega (
                arith,
                IsHashed-length c k,
                tracker_bytes sha256 from_hex leaves i v digests at,
                z,
              )))
            (sym q ∙ e))
      climb-InTree c (h, right) d k n (at_leaf i v at e) q = inr (
          leaf_or_collision c h v
            (λ z. n (
              omega (
                arith,
                IsHashed-length c k,
                tracker_bytes sha256 from_hex leaves i v digests at,
                z,
              )))
            (sym q ∙ e))
      climb-InTree c (h, left) d k n (at_node l r hl hr e) q =
          elim (pair_or_collision h c l r
            (inr (IsHashed-length c k ∙ sym (IsHashed-length r (InTree-IsHashed leaves r hr))))
            (sym q ∙ e)) [ inl p ↦ inl (as-InTree r c hr k p.1) | inr x ↦ inr x ]
      climb-InTree c (h, right) d k n (at_node l r hl hr e) q =
          elim (pair_or_collision c h l r
            (inl (IsHashed-length c k ∙ sym (IsHashed-length l (InTree-IsHashed leaves l hl))))
            (sym q ∙ e)) [ inl p ↦ inl (as-InTree l c hl k p.0) | inr x ↦ inr x ]

      not_byte :
          (s : Digest × Side) (proof : List (Digest × Side))
          → has_no_byte sha256 from_hex (s ∷ proof) ≡ true
          → (length (from_hex s.0) ≢ 1) × (has_no_byte sha256 from_hex proof ≡ true)
      not_byte s proof h = ground arith

      climb_all-InTree :
          (c : Digest) (proof : List (Digest × Side))
          → IsHashed sha256 from_hex c
          → has_no_byte sha256 from_hex proof ≡ true
          → InTree sha256 from_hex leaves (climb_all sha256 from_hex c proof)
          → InTree sha256 from_hex leaves c ⊎ Collision sha256 from_hex
      unfolding climb_all
      climb_all-InTree c [] k n t = inl t
      climb_all-InTree c (s ∷ proof) k n t =
          elim (climb_all-InTree (climb sha256 from_hex c s) proof (climb-IsHashed c s k)
            (not_byte s proof n).1 t) [
              | inl u ↦ climb-InTree c s _ k (not_byte s proof n).0 u refl
              | inr x ↦ inr x
            ]

      leaf-InTree :
          (v d : Digest)
          → length (from_hex v) ≢ 63
          → InTree sha256 from_hex leaves d
          → d ≡ leaf sha256 from_hex v
          → IsListed sha256 from_hex leaves v ⊎ Collision sha256 from_hex
      unfolding leaf
      leaf-InTree v d n (at_leaf i w at e) h =
          elim (same_or_collision sha256 from_hex _ _ (sym e ∙ h)) [
            | inl p ↦ inl (i, w, at, ap tail p)
            | inr k ↦ inr k
          ]
      leaf-InTree v d n (at_node l r hl hr e) h = inr (
          leaf_or_collision l r v
            (λ z. n (
              omega (
                arith,
                IsHashed-length l (InTree-IsHashed leaves l hl),
                IsHashed-length r (InTree-IsHashed leaves r hr),
                z,
              )))
            (sym e ∙ h))

      root-InTree :
          (level : List Digest) (d : Digest)
          → AllInTree sha256 from_hex leaves level
          → IsHashed sha256 from_hex d
          → d ≡ root_of sha256 from_hex level
          → InTree sha256 from_hex leaves d ⊎ Collision sha256 from_hex
      unfolding root_of
      root-InTree [] d h b e = inr (empty-Collision d b e)
      root-InTree (x ∷ xs) d h b e = inl (rw e h.0)

      climbed-InTree :
          (v : Digest) (proof : List (Digest × Side))
          → climb_all sha256 from_hex (leaf sha256 from_hex v) proof
            ≡ merkle_root sha256 from_hex leaves
          → InTree sha256 from_hex leaves (climb_all sha256 from_hex (leaf sha256 from_hex v) proof)
            ⊎ Collision sha256 from_hex
      unfolding merkle_root
      climbed-InTree v proof e =
          root-InTree
            (reduce sha256 from_hex (length (map (leaf sha256 from_hex) leaves))
              (map (leaf sha256 from_hex) leaves))
            _
            (reduce-AllInTree sha256 from_hex leaves (length (map (leaf sha256 from_hex) leaves)) _
              (map-leaf-AllInTree sha256 from_hex leaves leaves (λ i w h. (i, h))))
            (climb_all-IsHashed _ proof (leaf-IsHashed sha256 from_hex v)) e

      IsListed-of_root :
          (v : Digest) (proof : List (Digest × Side))
          → length (from_hex v) ≢ 63
          → has_no_byte sha256 from_hex proof ≡ true
          → climb_all sha256 from_hex (leaf sha256 from_hex v) proof
            ≡ merkle_root sha256 from_hex leaves
          → IsListed sha256 from_hex leaves v ⊎ Collision sha256 from_hex
      IsListed-of_root v proof n clean e = elim (climbed-InTree v proof e) [
        | inl t ↦ elim (climb_all-InTree _ proof (leaf-IsHashed sha256 from_hex v) clean t) [
          | inl u ↦ leaf-InTree v _ n u refl
          | inr x ↦ inr x
        ]
        | inr x ↦ inr x
      ]

    module _ (digest_eq : Digest → Digest → Bool)
        (digest_eq_sound : (a b : Digest) → digest_eq a b ≡ true → a ≡ b) where
      -- Let every tracker of a board have 32 bytes. If `verify_merkle_proof` accepts a proof for `v`
      -- against the `merkle_root` of the board, and neither `v` has 63 bytes nor a hash of the proof
      -- a single one, then a tracker with the bytes of `v` stands on the board, or two different
      -- byte strings with the same SHA-256 digest are at hand. The texts of `v` and of the proof
      -- may have any other length. A SHA-256 digest has 32 bytes, two digests with the same bytes
      -- are the same text, and `digest_eq` accepts equal texts only.
      pub verify_merkle_proof-IsListed :
          (leaves : List Digest) (v : Digest) (proof : List (Digest × Side))
          → has_digests sha256 from_hex leaves ≡ true
          → length (from_hex v) ≢ 63
          → has_no_byte sha256 from_hex proof ≡ true
          → verify_merkle_proof sha256 from_hex digest_eq v proof
              (merkle_root sha256 from_hex leaves)
            ≡ true
          → IsListed sha256 from_hex leaves v ⊎ Collision sha256 from_hex
      unfolding verify_merkle_proof
      verify_merkle_proof-IsListed leaves v proof digests n clean h =
          IsListed-of_root leaves digests v proof n clean (digest_eq_sound _ _ h)

  -- Without a check of lengths: the hash of a tracker `v`, put on a board of its own, passes for the
  -- hash of its leaf, so that a proof with one hash of one zero byte is accepted for `v`.
  forged :
      (digest_eq : Digest → Digest → Bool)
      → ((d : Digest) → digest_eq d d ≡ true)
      → (v zero_byte : Digest) → from_hex zero_byte ≡ 0 ∷ []
      → verify_merkle_proof sha256 from_hex digest_eq v
          ((zero_byte, left) ∷ [])
          (merkle_root sha256 from_hex (leaf sha256 from_hex v ∷ []))
        ≡ true
  unfolding verify_merkle_proof climb_all climb merkle_root reduce root_of leaf hash_pair
  forged digest_eq same v zero_byte z = rw z (same _)

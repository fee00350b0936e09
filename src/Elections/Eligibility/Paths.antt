-- ===== src/Elections/Eligibility/Paths.antt =====
-- `is_within` of elections/models.py: the materialized paths of constituencies.
use flexyvotes.Base.{
  ℕ, ◌≡◌, ◌≢◌, refl, sym, ap, ◌∙◌, ◌⊎◌, inl, inr, Bool, true, false, ◌&&◌, none, some, List, [],
  ◌∷◌, ◌++◌, All, ◌==◌, append_assoc, ==→eq, eq→==, ne→==, Bool-cases,
}
use flexyvotes.Elections.Eligibility.{Text, starts_with, Constituency, is_within, path_of}

-- The ids from the root down that a path spells.
abbrev pub spell : (ℕ → Text) → List ℕ → Text
spell str [] = []
spell str (i ∷ ids) = str i ++ (47 ∷ spell str ids)

-- The first ids of `xs` are `ys`.
abbrev pub is_below : List ℕ → List ℕ → Bool
is_below xs [] = true
is_below [] (y ∷ ys) = false
is_below (x ∷ xs) (y ∷ ys) = x == y && is_below xs ys

-- No slash in a text.
abbrev pub NoSlash : Text → Type 0
NoSlash v = All (λ a. a ≢ 47) v

starts_with_nil : (s : Text) → starts_with s [] ≡ true
starts_with_nil [] = refl
starts_with_nil (a ∷ s) = refl

nil_starts_with : (v t : Text) → starts_with [] (v ++ (47 ∷ t)) ≡ false
nil_starts_with [] t = refl
nil_starts_with (b ∷ v) t = refl

-- A number without a slash is compared as a whole.
starts_with_number :
    (v w s t : Text)
    → NoSlash v
    → NoSlash w
    → (v ≡ w × starts_with (v ++ (47 ∷ s)) (w ++ (47 ∷ t)) ≡ starts_with s t)
      ⊎ (v ≢ w × starts_with (v ++ (47 ∷ s)) (w ++ (47 ∷ t)) ≡ false)
starts_with_number [] [] s t n m = inl (refl, refl)
starts_with_number [] (b ∷ w) s t n m = inr ((λ e. cc), rw (ne→== 47 b (λ e. m.0 (sym e))) refl)
starts_with_number (a ∷ v) [] s t n m = inr ((λ e. cc), rw (ne→== a 47 n.0) refl)
starts_with_number (a ∷ v) (b ∷ w) s t n m = elim (Bool-cases (a == b)) [
  | inr differ ↦ inr ((λ e. let q : a ≡ b = cc in let r = eq→== a b q in cc), rw differ refl)
  | inl same ↦ elim (starts_with_number v w s t n.1 m.1) [
    | inl (e, h) ↦ inl (let q = ==→eq a b same in cc, rw same h)
    | inr (e, h) ↦ inr ((λ q. e cc), rw same h)
  ]
]

module _ (str : ℕ → Text) (str_injective : (i j : ℕ) → str i ≡ str j → i ≡ j)
    (str_no_slash : (i : ℕ) → NoSlash (str i)) where
  starts_with-spell : (xs ys : List ℕ) → starts_with (spell str xs) (spell str ys) ≡ is_below xs ys
  starts_with-spell [] [] = refl
  starts_with-spell (x ∷ xs) [] = starts_with_nil (str x ++ (47 ∷ spell str xs))
  starts_with-spell [] (y ∷ ys) = nil_starts_with (str y) (spell str ys)
  starts_with-spell (x ∷ xs) (y ∷ ys) =
      elim (starts_with_number (str x) (str y) (spell str xs) (spell str ys) (str_no_slash x)
        (str_no_slash y)) [
          | inl (e, h) ↦ h ∙ starts_with-spell xs ys ∙ rw (eq→== x y (str_injective x y e)) refl
          | inr (e, h) ↦ h ∙ rw (ne→== x y (λ q. e (ap str q))) refl
        ]

  spell-append :
      (xs : List ℕ) (i : ℕ) → spell str xs ++ (str i ++ (47 ∷ [])) ≡ spell str (xs ++ (i ∷ []))
  spell-append [] i = refl
  spell-append (x ∷ xs) i =
      append_assoc (str x) (47 ∷ spell str xs) (str i ++ (47 ∷ []))
      ∙ ap (λ t. str x ++ (47 ∷ t)) (spell-append xs i)

  -- A constituency that `save` wrote, under parents that it wrote, with the ids from the root down to it.
  pub data IsSaved : Constituency → List ℕ → Type 0 where
    is_root : (c : Constituency) → c.path ≡ path_of str none c.id → IsSaved c (c.id ∷ [])
    is_child :
        (c parent : Constituency) (ids : List ℕ)
        → IsSaved parent ids
        → c.path ≡ path_of str (some parent) c.id
        → IsSaved c (ids ++ (c.id ∷ []))

  path-spell : {c : Constituency} {ids : List ℕ} → IsSaved c ids → c.path ≡ spell str ids
  path-spell (is_root c e) = e
  path-spell (is_child c parent ids s e) =
      e ∙ ap (λ t. t ++ (str c.id ++ (47 ∷ []))) (path-spell s) ∙ spell-append ids c.id

  -- For constituencies whose paths `save` wrote, `is_within`, which compares the texts of the paths, says
  -- whether the one is the other or lies below it in the tree. Different numbers have different decimal
  -- texts, and these have no slash.
  pub is_within-is_below :
      {c ancestor : Constituency} {xs ys : List ℕ}
      → IsSaved c xs
      → IsSaved ancestor ys
      → is_within c ancestor ≡ is_below xs ys
  is_within-is_below {c} {ancestor} {xs} {ys} s t =
      rw (path-spell s, path-spell t) (starts_with-spell xs ys)

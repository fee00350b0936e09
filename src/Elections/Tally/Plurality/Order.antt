-- ===== src/Elections/Tally/Plurality/Order.antt =====
-- The order of the ballots does not matter to `plurality`.
use flexyvotes.Base.{ℕ, ◌+◌, ◌≡◌, refl, sym, ◌∙◌, ap, List, [], ◌∷◌, arith, inl, inr, Bool-cases}
use mathlib.Core.List.{Permᴰ}
use flexyvotes.Base.Dict.{Dict, update}
use flexyvotes.Elections.Model.{Candidate, Selection}
use flexyvotes.Elections.Tally.{truthy}
use flexyvotes.Elections.Tally.Plurality.{
  Tallies, marks, count_marks, count_selection, count_selections, plurality,
}

abbrev bump : ℕ → Dict ℕ → Dict ℕ
bump i d = update i (λ n. n + 1) d

bump_comm : (i j : ℕ) (d : Dict ℕ) → bump i (bump j d) ≡ bump j (bump i d)
bump_comm i j [] = refl
bump_comm i j ((k, v) ∷ d) = ground (arith, bump_comm i j d)

count_marks-bump :
    (js : List ℕ) (i : ℕ) (d : Dict ℕ) → count_marks js (bump i d) ≡ bump i (count_marks js d)
unfolding count_marks
count_marks-bump [] i d = refl
count_marks-bump (j ∷ js) i d =
    ap (count_marks js) (bump_comm j i d) ∙ count_marks-bump js i (bump j d)

count_marks_comm :
    (is js : List ℕ) (d : Dict ℕ)
    → count_marks is (count_marks js d) ≡ count_marks js (count_marks is d)
unfolding count_marks
count_marks_comm [] js d = refl
count_marks_comm (i ∷ is) js d =
    ap (count_marks is) (sym (count_marks-bump js i d)) ∙ count_marks_comm is js (bump i d)

count_selection_comm :
    (t : Tallies) (a b : Selection)
    → count_selection (count_selection t a) b ≡ count_selection (count_selection t b) a
unfolding count_selection
count_selection_comm t a b = elim (Bool-cases (truthy a)) [
  | inl p ↦ elim (Bool-cases (truthy b)) [
    | inl q ↦
        rw (p, q)
          (ap (λ d. record { counts = d; abstentions = t.abstentions; valid = t.valid + 1 + 1 })
            (count_marks_comm (marks b) (marks a) t.counts))
    | inr q ↦ rw (p, q)
  ]
  | inr p ↦ elim (Bool-cases (truthy b)) [ inl q ↦ rw (p, q) | inr q ↦ rw (p, q) ]
]

count_selections-perm :
    {ss ss' : List Selection} (p : Permᴰ ss ss') (t : Tallies)
    → count_selections ss t ≡ count_selections ss' t
unfolding count_selections
count_selections-perm Permᴰ.nil t = refl
count_selections-perm (Permᴰ.cons {a = a} {l₂ = l} e p) t =
    count_selections-perm p (count_selection t a)
    ∙ ap (λ s. count_selections l (count_selection t s)) e
count_selections-perm (Permᴰ.swap {a = a} {b = b} {a' = a'} {l = l} e f) t =
    ap (count_selections l) (count_selection_comm t a b)
    ∙ ap (λ s. count_selections l (count_selection (count_selection t s) a)) f
    ∙ ap (λ s. count_selections l (count_selection (count_selection t a') s)) e
count_selections-perm (Permᴰ.trans p q) t = count_selections-perm p t ∙ count_selections-perm q t

-- Two lists of ballots that are permutations of one another have the same result of `plurality`,
-- every row of it included.
pub plurality-perm :
    {ss ss' : List Selection} (cands : List Candidate) (seats : ℕ)
    → Permᴰ ss ss'
    → plurality ss cands seats ≡ plurality ss' cands seats
unfolding plurality
plurality-perm cands seats p = rw (count_selections-perm p _)

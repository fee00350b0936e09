-- ===== src/Base/Dict.antt =====
-- Python's `dict` with numbers for keys, as its items in the order in which they were inserted.
use Prim.Native.Nat.{ℕ}
use mathlib.Core.Bool.{Bool, false, ◌||◌}
use mathlib.Core.List.{List, [], ◌∷◌}
use flexyvotes.Base.Tests.{◌==◌, if◌then◌else◌}

abbrev pub Dict {ℓ} : (V : Type ℓ) → Type ℓ
Dict V = List (ℕ × V)

module _ {ℓ} {V : Type ℓ} where
  -- `d.get(k, default)`
  abbrev pub get_or : V → ℕ → Dict V → V
  get_or z k [] = z
  get_or z k ((j, v) ∷ d) = if k == j then v else get_or z k d

  -- `k in d`
  abbrev pub contains : ℕ → Dict V → Bool
  contains k [] = false
  contains k ((j, v) ∷ d) = k == j || contains k d

  -- `if k in d: d[k] = f(d[k])`
  abbrev pub update : ℕ → (V → V) → Dict V → Dict V
  update k f [] = []
  update k f ((j, v) ∷ d) = if k == j then (j, f v) ∷ d else (j, v) ∷ update k f d

  -- `{k: v for k in ks}`, for distinct keys
  abbrev pub constant : V → List ℕ → Dict V
  constant v [] = []
  constant v (k ∷ ks) = (k, v) ∷ constant v ks

  abbrev pub keys : Dict V → List ℕ
  keys [] = []
  keys ((k, v) ∷ d) = k ∷ keys d

  abbrev pub values : Dict V → List V
  values [] = []
  values ((k, v) ∷ d) = v ∷ values d

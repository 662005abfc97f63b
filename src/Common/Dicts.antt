-- ===== src/Common/Dicts.antt =====
-- Python's `dict` with text keys: its items in insertion order. An assignment to a known key keeps
-- the key's place.
use Prim.Native.String.{String}
use mathlib.Core.Path.{◌≡◌, refl}
use mathlib.Core.Bool.{Bool, true, false, ◌||◌}
use mathlib.Core.Option.{Option, none, some}
use mathlib.Core.List.{List, [], ◌∷◌}
use native.Mathlib.Omega.{arith}
use text.Mathlib.Text.{◌==◌}
use text.Mathlib.TextEquality.{eq_iff}
use precis_finance_mcp.Common.Tests.{if◌then◌else◌}
use precis_finance_mcp.Common.Sets.{mem}

abbrev pub Dict {ℓ} : Type ℓ → Type ℓ
Dict V = List (String × V)

module _ {ℓ} {V : Type ℓ} where
  -- `d.get(k)`
  abbrev pub lookup : String → Dict V → Option V
  lookup k [] = none
  lookup k ((j, v) ∷ d) = if j == k then some v else lookup k d

  -- `k in d`
  abbrev pub has_key : String → Dict V → Bool
  has_key k [] = false
  has_key k ((j, v) ∷ d) = j == k || has_key k d

  -- `d[k] = v`
  abbrev pub put : String → V → Dict V → Dict V
  put k v [] = (k, v) ∷ []
  put k v ((j, w) ∷ d) = if j == k then (j, v) ∷ d else (j, w) ∷ put k v d

  -- `d.keys()`
  abbrev pub keys : Dict V → List String
  keys [] = []
  keys ((j, v) ∷ d) = j ∷ keys d

  -- `d.values()`
  abbrev pub values : Dict V → List V
  values [] = []
  values ((j, v) ∷ d) = v ∷ values d

  -- No key stands twice: what every Python dict satisfies.
  abbrev pub Distinct : Dict V → Type 0
  Distinct [] = Unit
  Distinct ((j, v) ∷ d) = (has_key j d ≡ false) × Distinct d

  pub lookup-put :
      (k j : String) (v : V) (d : Dict V)
      → lookup j (put k v d) ≡ (if k == j then some v else lookup j d)
  lookup-put k j v [] = refl
  lookup-put k j v ((i, w) ∷ d) =
      ground (arith, eq_iff k j, eq_iff i k, eq_iff i j, lookup-put k j v d)

  pub has_key-put :
      (k j : String) (v : V) (d : Dict V) → has_key j (put k v d) ≡ (k == j || has_key j d)
  has_key-put k j v [] = ground arith
  has_key-put k j v ((i, w) ∷ d) =
      ground (arith, eq_iff k j, eq_iff i k, eq_iff i j, has_key-put k j v d)

  pub put-Distinct : (k : String) (v : V) (d : Dict V) → Distinct d → Distinct (put k v d)
  put-Distinct k v [] h = (refl, tt)
  put-Distinct k v ((i, w) ∷ d) h =
      ground (arith, eq_iff i k, eq_iff k i, has_key-put k i v d, put-Distinct k v d h.1)

  pub mem-keys : (k : String) (d : Dict V) → mem k (keys d) ≡ has_key k d
  mem-keys k [] = refl
  mem-keys k ((j, v) ∷ d) = ground (arith, mem-keys k d)

  -- A key is there exactly when a lookup finds a value.
  pub lookup-has_key :
      (k : String) (d : Dict V) → has_key k d ≡ elim (lookup k d) [ none ↦ false | some _ ↦ true ]
  lookup-has_key k [] = refl
  lookup-has_key k ((j, v) ∷ d) = ground (arith, lookup-has_key k d)

  pub lookup-eq-none : (k : String) (d : Dict V) → has_key k d ≡ false → lookup k d ≡ none
  lookup-eq-none k d h = ground (arith, lookup-has_key k d)

  -- In a dict no later entry is hidden by the first.
  pub lookup_cons_of_Distinct :
      (k j : String) (v w : V) (d : Dict V)
      → Distinct ((k, v) ∷ d)
      → lookup j d ≡ some w
      → lookup j ((k, v) ∷ d) ≡ some w
  lookup_cons_of_Distinct k j v w d h found = ground (arith, eq_iff k j, lookup-has_key j d)

-- ===== src/Common/Sort.antt =====
-- `sorted` on texts and on a dict's items by key. Python orders texts by code points, as the native
-- comparison does.
use Prim.Native.String.{String, compare}
use mathlib.Core.Path.{◌≡◌, refl}
use mathlib.Core.Logic.{inl, inr}
use mathlib.Core.Bool.{Bool, false, not, ◌&&◌, ◌||◌}
use mathlib.Core.Option.{some}
use mathlib.Core.List.{List, [], ◌∷◌}
use native.Mathlib.Omega.{arith}
use text.Mathlib.Text.{◌==◌, is_le}
use text.Mathlib.TextEquality.{eq_iff}
use precis_finance_mcp.Common.Tests.{if◌then◌else◌, Bool-cases}
use precis_finance_mcp.Common.Sets.{mem, is_set}
use precis_finance_mcp.Common.Dicts.{Dict, lookup, lookup-has_key, has_key, Distinct}

abbrev pub le_text : String → String → Bool
le_text s t = is_le (compare s t)

insert : String → List String → List String
insert x [] = x ∷ []
insert x (y ∷ ys) = if le_text x y then x ∷ y ∷ ys else y ∷ insert x ys

unfoldable pub sort : List String → List String
unfolding insert
sort [] = []
sort (x ∷ xs) = insert x (sort xs)

mem-insert : (x y : String) (ys : List String) → mem x (insert y ys) ≡ (y == x || mem x ys)
unfolding insert
mem-insert x y [] = refl
mem-insert x y (z ∷ zs) = ground (arith, mem-insert x y zs)

pub mem-sort : (x : String) (ys : List String) → mem x (sort ys) ≡ mem x ys
unfolding sort
mem-sort x [] = refl
mem-sort x (y ∷ ys) = ground (arith, mem-insert x y (sort ys), mem-sort x ys)

is_set-insert :
    (y : String) (ys : List String) → is_set (insert y ys) ≡ (not (mem y ys) && is_set ys)
unfolding insert
is_set-insert y [] = refl
is_set-insert y (z ∷ zs) =
    ground (arith, eq_iff y z, eq_iff z y, mem-insert z y zs, is_set-insert y zs)

pub is_set-sort : (ys : List String) → is_set (sort ys) ≡ is_set ys
unfolding sort
is_set-sort [] = refl
is_set-sort (y ∷ ys) = ground (arith, is_set-insert y (sort ys), mem-sort y ys, is_set-sort ys)

module _ {ℓ} {V : Type ℓ} where
  insert_item : String × V → Dict V → Dict V
  insert_item e [] = e ∷ []
  insert_item e (f ∷ d) = if le_text e.0 f.0 then e ∷ f ∷ d else f ∷ insert_item e d

  -- `sorted(d.items())`: the keys of a dict are distinct, so the values are never compared.
  unfoldable pub sort_items : Dict V → Dict V
  unfolding insert_item
  sort_items [] = []
  sort_items (e ∷ d) = insert_item e (sort_items d)

  has_key-insert_item :
      (j k : String) (v : V) (d : Dict V)
      → has_key j (insert_item (k, v) d) ≡ (k == j || has_key j d)
  unfolding insert_item
  has_key-insert_item j k v [] = refl
  has_key-insert_item j k v (f ∷ d) = ground (arith, has_key-insert_item j k v d)

  pub has_key-sort_items : (j : String) (d : Dict V) → has_key j (sort_items d) ≡ has_key j d
  unfolding sort_items
  has_key-sort_items j [] = refl
  has_key-sort_items j ((k, v) ∷ d) =
      ground (arith, has_key-insert_item j k v (sort_items d), has_key-sort_items j d)

  lookup-insert_item :
      (j k : String) (v : V) (d : Dict V)
      → has_key k d ≡ false
      → lookup j (insert_item (k, v) d) ≡ (if k == j then some v else lookup j d)
  unfolding insert_item
  lookup-insert_item j k v [] h = refl
  lookup-insert_item j k v (f ∷ d) h =
      ground (arith, eq_iff k j, eq_iff f.0 j, eq_iff f.0 k, lookup-insert_item j k v d)

  pub lookup-sort_items :
      (j : String) (d : Dict V) → Distinct d → lookup j (sort_items d) ≡ lookup j d
  unfolding sort_items
  lookup-sort_items j [] h = refl
  lookup-sort_items j ((k, v) ∷ d) h = ground (
    arith,
    has_key-sort_items k d,
    lookup-insert_item j k v (sort_items d),
    lookup-sort_items j d h.1,
  )

  -- Every value of a dict.
  abbrev pub EachValue {κ} : (V → Type κ) → Dict V → Type κ
  EachValue P [] = Unit
  EachValue P ((k, v) ∷ d) = P v × EachValue P d

  insert_item-EachValue {κ} :
      (P : V → Type κ) (k : String) (v : V) (d : Dict V)
      → P v
      → EachValue P d
      → EachValue P (insert_item (k, v) d)
  unfolding insert_item
  insert_item-EachValue P k v [] own each = (own, tt)
  insert_item-EachValue P k v ((j, w) ∷ d) own each = elim (Bool-cases (le_text k j)) [
    | inl first ↦ rw (insert_item, first) (own, each)
    | inr later ↦ rw (insert_item, later) (each.0, insert_item-EachValue P k v d own each.1)
  ]

  pub sort_items-EachValue {κ} :
      (P : V → Type κ) (d : Dict V) → EachValue P d → EachValue P (sort_items d)
  unfolding sort_items
  sort_items-EachValue P [] each = tt
  sort_items-EachValue P ((k, v) ∷ d) (own, rest) =
      insert_item-EachValue P k v (sort_items d) own (sort_items-EachValue P d rest)

  -- Where no key stands twice, every value is found under its key.
  pub EachValue-of_lookup {κ} :
      (P : V → Type κ) (d : Dict V)
      → Distinct d
      → ((k : String) (v : V) → lookup k d ≡ some v → P v)
      → EachValue P d
  EachValue-of_lookup P [] once each = tt
  EachValue-of_lookup P ((k, v) ∷ d) once each = (
    each k v (ground (arith, eq_iff k k)),
    EachValue-of_lookup P d once.1
        (λ j w found. each j w (ground (arith, lookup-has_key j d, eq_iff k j))),
  )

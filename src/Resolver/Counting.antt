-- ===== src/Resolver/Counting.antt =====
-- Lists without repetition, their sizes, and what of a list is still to come.
use precis_finance_mcp.Common.{
  ◌+◌, ◌≤◌, ◌<◌, ◌≡◌, refl, arith, String, Bool, true, false, not, ◌&&◌, List, [], ◌∷◌, ◌++◌, ◌==◌,
  eq_iff, is_set, mem, keep, mem-keep, mem-append, inl, inr, Bool-cases, to_set,
}
use precis_finance_mcp.Resolver.{size}

pub is_set-snoc :
    (xs : List String) (y : String) → is_set (xs ++ y ∷ []) ≡ (is_set xs && not (mem y xs))
is_set-snoc [] y = refl
is_set-snoc (x ∷ xs) y =
    ground (arith, eq_iff x y, eq_iff y x, mem-append x xs (y ∷ []), is_set-snoc xs y)

pub is_set-keep :
    (p : String → Bool) (xs : List String) → is_set xs ≡ true → is_set (keep p xs) ≡ true
is_set-keep p [] h = refl
is_set-keep p (x ∷ xs) h = ground (arith, mem-keep p x xs, is_set-keep p xs)

pub is_set-to_set : (xs : List String) → is_set (to_set xs) ≡ true
is_set-to_set [] = refl
is_set-to_set (x ∷ xs) = ground (arith, is_set-to_set xs)

pub size-snoc : (xs : List String) (y : String) → size (xs ++ y ∷ []) ≡ size xs + 1
size-snoc [] y = refl
size-snoc (x ∷ xs) y = omega (arith, size-snoc xs y)

abbrev without : String → List String → List String
without x = keep (λ y. not (x == y))

size-without : (x : String) (ys : List String) → mem x ys ≡ true → size (without x ys) < size ys
size-without x [] h = cc
size-without x (y ∷ ys) h =
    ground (arith, eq_iff x y, eq_iff y x, size-without x ys, size-without-le x ys)
  where
    size-without-le : (x : String) (ys : List String) → size (without x ys) ≤ size ys
    size-without-le x [] = omega arith
    size-without-le x (y ∷ ys) = ground (arith, size-without-le x ys)

abbrev pub Within : List String → List String → Type 0
Within xs ys = (x : String) → mem x xs ≡ true → mem x ys ≡ true

Within-without :
    (x : String) (xs ys : List String)
    → Within (x ∷ xs) ys
    → mem x xs ≡ false
    → Within xs (without x ys)
Within-without x xs ys h fresh y there =
    ground (arith, mem-keep (λ z. not (x == z)) y ys, eq_iff x y, h y)

-- A list without repetition is no longer than a list that has all its members,
pub size-Within : (xs ys : List String) → is_set xs ≡ true → Within xs ys → size xs ≤ size ys
size-Within [] ys s h = omega arith
size-Within (x ∷ xs) ys s h = ground (
  arith,
  size-without x ys (ground (arith, h x, eq_iff x x)),
  size-Within xs (without x ys) (ground arith) (Within-without x xs ys h (ground arith)),
)

-- and if it is as long, it has all of the other's.
pub Within-of_size :
    (xs ys : List String) → is_set xs ≡ true → Within xs ys → size ys ≤ size xs → Within ys xs
Within-of_size xs ys s h long y there = elim (Bool-cases (mem y xs)) [
  | inl found ↦ found
  | inr missing ↦
      let more : is_set (y ∷ xs) ≡ true = ground arith in
      let within : Within (y ∷ xs) ys = λ z there_z. ground (arith, h z, eq_iff y z) in
      absurd (omega (arith, size-Within (y ∷ xs) ys more within))
]

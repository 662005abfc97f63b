-- ===== src/Common/Sets.antt =====
-- Python's sets of texts, as lists: `x in s`, `set(xs)`, `s & t`, `s - t` and `s | t`, each with
-- the law that says which members it has. The order of a set is never observed by the program
-- before `sorted`.
use Prim.Native.String.{String}
use mathlib.Core.Path.{◌≡◌, refl}
use mathlib.Core.Bool.{Bool, true, false, not, ◌&&◌, ◌||◌}
use mathlib.Core.List.{List, [], ◌∷◌, ◌++◌}
use native.Mathlib.Omega.{arith}
use text.Mathlib.Text.{◌==◌}
use text.Mathlib.TextEquality.{eq_iff}
use precis_finance_mcp.Common.Tests.{if◌then◌else◌}

abbrev pub mem : String → List String → Bool
mem x [] = false
mem x (y ∷ ys) = y == x || mem x ys

abbrev pub keep {ℓ} : {A : Type ℓ} → (A → Bool) → List A → List A
keep p [] = []
keep p (x ∷ xs) = if p x then x ∷ keep p xs else keep p xs

-- `any` and `all` over a list.
abbrev pub any {ℓ} : {A : Type ℓ} → (A → Bool) → List A → Bool
any p [] = false
any p (x ∷ xs) = p x || any p xs

abbrev pub all {ℓ} : {A : Type ℓ} → (A → Bool) → List A → Bool
all p [] = true
all p (x ∷ xs) = p x && all p xs

-- No text stands twice.
abbrev pub is_set : List String → Bool
is_set [] = true
is_set (x ∷ xs) = not (mem x xs) && is_set xs

-- `set(xs)`.
abbrev pub to_set : List String → List String
to_set [] = []
to_set (x ∷ xs) = let rest = to_set xs in if mem x rest then rest else x ∷ rest

abbrev pub inter : List String → List String → List String
inter xs ys = keep (λ x. mem x ys) xs

abbrev pub diff : List String → List String → List String
diff xs ys = keep (λ x. not (mem x ys)) xs

abbrev pub union : List String → List String → List String
union xs ys = xs ++ diff ys xs

pub mem-keep :
    (p : String → Bool) (x : String) (ys : List String) → mem x (keep p ys) ≡ (mem x ys && p x)
mem-keep p x [] = refl
mem-keep p x (y ∷ ys) = ground (arith, eq_iff y x, mem-keep p x ys)

pub mem-append : (x : String) (ys zs : List String) → mem x (ys ++ zs) ≡ (mem x ys || mem x zs)
mem-append x [] zs = refl
mem-append x (y ∷ ys) zs = ground (arith, mem-append x ys zs)

pub mem-to_set : (x : String) (ys : List String) → mem x (to_set ys) ≡ mem x ys
mem-to_set x [] = refl
mem-to_set x (y ∷ ys) = ground (arith, eq_iff y x, mem-to_set x ys, mem-to_set y ys)

pub mem-inter : (x : String) (ys zs : List String) → mem x (inter ys zs) ≡ (mem x ys && mem x zs)
mem-inter x ys zs = mem-keep (λ y. mem y zs) x ys

pub mem-diff :
    (x : String) (ys zs : List String) → mem x (diff ys zs) ≡ (mem x ys && not (mem x zs))
mem-diff x ys zs = mem-keep (λ y. not (mem y zs)) x ys

pub mem-union : (x : String) (ys zs : List String) → mem x (union ys zs) ≡ (mem x ys || mem x zs)
mem-union x ys zs = ground (arith, mem-append x ys (diff zs ys), mem-diff x zs ys)

pub ruleset set_laws = (mem-append, mem-to_set, mem-inter, mem-diff, mem-union)

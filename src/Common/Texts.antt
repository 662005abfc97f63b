-- ===== src/Common/Texts.antt =====
-- Python's text methods as the code uses them: `removeprefix` and `removesuffix` where the affix is
-- there, `in`, and `split(sep, 1)`, with the laws that take texts apart and put them together again.
use Prim.Native.String.{String, ◌++◌}
use Prim.Native.Char.{Char}
use Prim.Native.Nat.{ℕ, suc, ◌+◌, ◌≤◌}
use mathlib.Core.Path.{◌≡◌, refl, sym, ap, ◌∙◌, subst}
use mathlib.Core.Logic.{inl, inr}
use mathlib.Core.Bool.{false}
use mathlib.Core.Option.{Option, none, some}
use native.Mathlib.Omega.{arith}
use text.Mathlib.Text.{◌==◌}
use text.Mathlib.TextPositions.{eq_refl}
use text.Mathlib.TextLemmas.{
  nil-append, cons-append, append_assoc, head-eq_of_cons-eq, cons-eq-cons,
}
use precis_finance_mcp.Common.Tests.{if◌then◌else◌, text_cases, Bool-cases, Option-cases, some-inj}

-- `len(s)`, by which the recursions of the code on texts end.
unfoldable pub text_size : String → ℕ
text_size String.[] = 0
text_size (String.◌∷◌ c s) = suc (text_size s)

unfoldable pub strip_prefix : String → String → Option String
strip_prefix String.[] s = some s
strip_prefix (String.◌∷◌ c p) String.[] = none
strip_prefix (String.◌∷◌ c p) (String.◌∷◌ d s) =
    if String.◌∷◌ c "" == String.◌∷◌ d "" then strip_prefix p s else none

abbrev pub in_front : Char → Option String → Option String
in_front c none = none
in_front c (some s) = some (String.◌∷◌ c s)

unfoldable pub strip_suffix : String → String → Option String
strip_suffix x String.[] = if "" == x then some "" else none
strip_suffix x (String.◌∷◌ c s) =
    let shorter = in_front c (strip_suffix x s) in if String.◌∷◌ c s == x then some "" else shorter

abbrev pub left_longer : Char → Option (String × String) → Option (String × String)
left_longer c none = none
left_longer c (some (left, right)) = some (String.◌∷◌ c left, right)

-- The text before and after the first occurrence of the separator, where there is one.
unfoldable pub split_once : String → String → Option (String × String)
unfolding strip_prefix
split_once sep String.[] = elim (strip_prefix sep "") [ some rest ↦ some ("", rest) | none ↦ none ]
split_once sep (String.◌∷◌ c s) = elim (strip_prefix sep (String.◌∷◌ c s)) [
  | some rest ↦ some ("", rest)
  | none ↦ left_longer c (split_once sep s)
]

pub text_size-append : (s t : String) → text_size (s ++ t) ≡ text_size s + text_size t
unfolding text_size
text_size-append String.[] t = rw (nil-append t) (omega arith)
text_size-append (String.◌∷◌ c s) t = rw (cons-append c s t) (omega (arith, text_size-append s t))

pub strip_prefix-append : (p s : String) → strip_prefix p (p ++ s) ≡ some s
unfolding strip_prefix
strip_prefix-append String.[] s = ap some (nil-append s)
strip_prefix-append (String.◌∷◌ c p) s =
    rw (cons-append c p s, strip_prefix, eq_refl (String.◌∷◌ c "")) (strip_prefix-append p s)

pub append_of_strip_prefix :
    (p s : String) {rest : String} → strip_prefix p s ≡ some rest → s ≡ p ++ rest
unfolding strip_prefix
append_of_strip_prefix String.[] s {rest} h = some-inj h ∙ sym (nil-append rest)
append_of_strip_prefix (String.◌∷◌ c p) String.[] h = cc
append_of_strip_prefix (String.◌∷◌ c p) (String.◌∷◌ d s) {rest} h =
    elim (text_cases (String.◌∷◌ c "") (String.◌∷◌ d "")) [
      | inl (e, t) ↦
          cons-eq-cons.1
            (sym (head-eq_of_cons-eq e), append_of_strip_prefix p s (rw (t, strip_prefix) at h))
          ∙ sym (cons-append c p rest)
      | inr ne ↦ cc (rw (ne, strip_prefix) at h)
    ]

longer_ne : (c : Char) (s x : String) → text_size x ≤ text_size s → (String.◌∷◌ c s == x) ≡ false
unfolding text_size
longer_ne c s x le = elim (text_cases (String.◌∷◌ c s) x) [
  | inl (e, _) ↦ absurd (omega (arith, ap text_size e))
  | inr ne ↦ ne
]

pub strip_suffix-append : (s x : String) → strip_suffix x (s ++ x) ≡ some s
unfolding strip_suffix
strip_suffix-append String.[] String.[] = refl
strip_suffix-append String.[] (String.◌∷◌ c x) =
    rw (nil-append (String.◌∷◌ c x), strip_suffix, eq_refl (String.◌∷◌ c x)) refl
strip_suffix-append (String.◌∷◌ c s) x =
    rw
      (
        cons-append c s x,
        strip_suffix,
        longer_ne c (s ++ x) x (omega (arith, text_size-append s x)),
        strip_suffix-append s x,
      )
      refl

pub append_of_strip_suffix :
    (x s : String) {rest : String} → strip_suffix x s ≡ some rest → s ≡ rest ++ x
unfolding strip_suffix
append_of_strip_suffix x String.[] {rest} h = elim (text_cases "" x) [
  | inl (e, t) ↦
      let none_left : "" ≡ rest = some-inj (rw (t, strip_suffix) at h) in
      e ∙ (sym (nil-append x) ∙ ap (λ (left : String). left ++ x) none_left)
  | inr ne ↦ cc (rw (ne, strip_suffix) at h)
]
append_of_strip_suffix x (String.◌∷◌ c s) {rest} h = elim (text_cases (String.◌∷◌ c s) x) [
  | inl (e, t) ↦
      let none_left : "" ≡ rest = some-inj (rw (t, strip_suffix) at h) in
      e ∙ (sym (nil-append x) ∙ ap (λ (left : String). left ++ x) none_left)
  | inr ne ↦ elim (Option-cases (strip_suffix x s)) [
    | inl nothing ↦ cc (rw (ne, nothing, strip_suffix) at h)
    | inr (shorter, found) ↦
        let left : String.◌∷◌ c shorter ≡ rest = some-inj (rw (ne, found, strip_suffix) at h) in
        cons-eq-cons.1 (refl, append_of_strip_suffix x s found)
        ∙ (sym (cons-append c shorter x) ∙ ap (λ (l : String). l ++ x) left)
  ]
]

pub append_of_split_once :
    (sep s : String) {left right : String}
    → split_once sep s ≡ some (left, right)
    → s ≡ left ++ (sep ++ right)
unfolding split_once
append_of_split_once sep String.[] {left} {right} h = elim (Option-cases (strip_prefix sep "")) [
  | inr (rest, found) ↦
      let parts = some-inj (rw (found, split_once) at h) in
      append_of_strip_prefix sep "" found
      ∙ (sym (nil-append (sep ++ rest)) ∙ ap (λ (q : String × String). q.0 ++ (sep ++ q.1)) parts)
  | inl other ↦ cc (rw (other, split_once) at h)
]
append_of_split_once sep (String.◌∷◌ c s) {left} {right} h =
    elim (Option-cases (strip_prefix sep (String.◌∷◌ c s))) [
      | inr (rest, found) ↦
          let parts = some-inj (rw (found, split_once) at h) in
          append_of_strip_prefix sep (String.◌∷◌ c s) found
          ∙ (sym (nil-append (sep ++ rest))
              ∙ ap (λ (q : String × String). q.0 ++ (sep ++ q.1)) parts)
      | inl other ↦ elim (Option-cases (split_once sep s)) [
        | inl nothing ↦ cc (rw (other, nothing, split_once) at h)
        | inr ((l, r), found) ↦
            let parts = some-inj (rw (other, found, split_once) at h) in
            cons-eq-cons.1 (refl, append_of_split_once sep s found)
            ∙ (sym (cons-append c l (sep ++ r))
                ∙ ap (λ (q : String × String). q.0 ++ (sep ++ q.1)) parts)
      ]
    ]

strip_prefix-longer :
    (p s t : String)
    → strip_prefix p s ≡ none
    → text_size p ≤ text_size s
    → strip_prefix p (s ++ t) ≡ none
unfolding strip_prefix text_size
strip_prefix-longer String.[] s t h le = cc
strip_prefix-longer (String.◌∷◌ c p) String.[] t h le = absurd (omega arith)
strip_prefix-longer (String.◌∷◌ c p) (String.◌∷◌ d s) t h le =
    elim (Bool-cases (String.◌∷◌ c "" == String.◌∷◌ d "")) [
      | inl same ↦
          rw (cons-append d s t, strip_prefix, same)
            (strip_prefix-longer p s t (rw (same, strip_prefix) at h) (omega arith))
      | inr other ↦ rw (cons-append d s t, strip_prefix, other) refl
    ]

split_once-head :
    (sep s : String) {rest : String}
    → strip_prefix sep s ≡ some rest
    → split_once sep s ≡ some ("", rest)
unfolding split_once
split_once-head sep String.[] h = rw (h, split_once) refl
split_once-head sep (String.◌∷◌ c s) h = rw (h, split_once) refl

-- Where there is no separator, there is none at the front and none later.
split_once-none :
    (sep : String) (c : Char) (s : String)
    → split_once sep (String.◌∷◌ c s) ≡ none
    → (strip_prefix sep (String.◌∷◌ c s) ≡ none) × (split_once sep s ≡ none)
unfolding split_once
split_once-none sep c s h = elim (Option-cases (strip_prefix sep (String.◌∷◌ c s))) [
  | inr (rest, found) ↦ cc (rw (found, split_once) at h)
  | inl other ↦ elim (Option-cases (split_once sep s)) [
    | inl nothing ↦ (other, nothing)
    | inr (parts, found) ↦ cc (rw (other, found, split_once) at h)
  ]
]

module _ (c : Char) (inner : String) where
  abbrev sep : String
  sep = inner ++ String.◌∷◌ c ""

  split_later :
      (d : Char) (left right : String)
      → strip_prefix sep (String.◌∷◌ d left ++ inner) ≡ none
      → strip_prefix sep (String.◌∷◌ d left ++ (sep ++ right)) ≡ none
  unfolding text_size
  split_later d left right h =
      let pieces : (String.◌∷◌ d left ++ inner) ++ (String.◌∷◌ c "" ++ right)
          ≡ String.◌∷◌ d left ++ (sep ++ right) =
        append_assoc (String.◌∷◌ d left) inner (String.◌∷◌ c "" ++ right)
        ∙ ap (λ (t : String). String.◌∷◌ d left ++ t)
            (sym (append_assoc inner (String.◌∷◌ c "") right)) in
      subst (λ (t : String). strip_prefix sep t ≡ none) pieces
        (strip_prefix-longer sep (String.◌∷◌ d left ++ inner) (String.◌∷◌ c "" ++ right) h (
          omega (
            arith,
            text_size-append (String.◌∷◌ d left) inner,
            text_size-append inner (String.◌∷◌ c ""),
          )))

  -- The separator is first found where it was put, unless it overlaps with the text before it.
  pub split_once-append :
      (left right : String)
      → split_once sep (left ++ inner) ≡ none
      → split_once sep (left ++ (sep ++ right)) ≡ some (left, right)
  unfolding split_once
  split_once-append String.[] right h =
      rw (nil-append (sep ++ right))
        (split_once-head sep (sep ++ right) (strip_prefix-append sep right))
  split_once-append (String.◌∷◌ d left) right h =
      let (front, later) =
        split_once-none sep d (left ++ inner) (rw (cons-append d left inner) at h) in
      let moved = split_later d left right (rw (← cons-append d left inner) at front) in
      rw
        (
          cons-append d left (sep ++ right),
          split_once,
          rw (cons-append d left (sep ++ right)) at moved,
          split_once-append left right later,
        )
        refl

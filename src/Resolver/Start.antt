-- ===== src/Resolver/Start.antt =====
-- The state that the loop starts in, and what it ends with where no dependencies go in a circle.
use precis_finance_mcp.Common.{
  ℕ, ◌<◌, zero, suc, ◌≡◌, refl, arith, String, Bool, true, ◌&&◌, ◌||◌, List, [], ◌∷◌, ◌++◌, eq_iff,
  eqb, is_set, mem, all, has_key, Distinct, inl, inr, ◌∙◌, sym, ap, text_cases, subst, &&-eq-true,
}
use precis_finance_mcp.Resolver.{size, Graph, degree_of, in_degrees, without_dependencies}
use precis_finance_mcp.Resolver.Sorting.{deps_of, waiting, waiting_of_all, Inv, IsSorted, in_order}

waiting-nil : (deps : List String) → waiting deps [] ≡ size deps
waiting-nil [] = refl
waiting-nil (d ∷ deps) = ap suc (waiting-nil deps)

degree_of-in_degrees :
    (k : String) (graph : Graph) → degree_of k (in_degrees graph) ≡ size (deps_of k graph)
degree_of-in_degrees k [] = refl
degree_of-in_degrees k ((j, deps) ∷ graph) = ground (arith, degree_of-in_degrees k graph)

mem-without_dependencies :
    (k : String) (graph : Graph)
    → Distinct graph
    → mem k (without_dependencies (in_degrees graph))
      ≡ (has_key k graph && eqb (size (deps_of k graph)) 0)
mem-without_dependencies k [] d = refl
mem-without_dependencies k ((j, deps) ∷ graph) d =
    ground (arith, eq_iff j k, mem-without_dependencies k graph d.1)

is_set-without_dependencies :
    (graph : Graph) → Distinct graph → is_set (without_dependencies (in_degrees graph)) ≡ true
is_set-without_dependencies [] d = refl
is_set-without_dependencies ((j, deps) ∷ graph) d =
    ground (arith, mem-without_dependencies j graph d.1, is_set-without_dependencies graph d.1)

-- The queue starts with the keys without dependencies, in any order.
pub Inv-start :
    (graph : Graph) (queue : List String)
    → Distinct graph
    → ((k : String) → mem k queue ≡ mem k (without_dependencies (in_degrees graph)))
    → is_set queue ≡ is_set (without_dependencies (in_degrees graph))
    → Inv graph (record { in_degree = in_degrees graph; queue = queue }) []
Inv-start graph queue d members once = record {
  counts = λ k there. degree_of-in_degrees k graph ∙ sym (waiting-nil (deps_of k graph));
  queued = λ k.
      ground (arith, members k, mem-without_dependencies k graph d, waiting-nil (deps_of k graph));
  settled = λ k there. cc;
  separate = once ∙ is_set-without_dependencies graph d;
  placed = record { once = refl; known = λ k there. cc; ordered = refl };
}

pub all_of_each :
    (p : String → Bool) (xs : List String)
    → ((x : String) → mem x xs ≡ true → p x ≡ true)
    → all p xs ≡ true
all_of_each p [] h = refl
all_of_each p (x ∷ xs) h =
    ground (arith, h x, eq_iff x x, all_of_each p xs (λ y there. h y (ground arith)))

pub each_of_all :
    (p : String → Bool) (xs : List String) (x : String)
    → all p xs ≡ true
    → mem x xs ≡ true
    → p x ≡ true
each_of_all p [] x h there = cc
each_of_all p (y ∷ xs) x h there = elim (text_cases y x) [
  | inl (e, _) ↦ subst (λ (z : String). p z ≡ true) e (&&-eq-true (p y) (all p xs) h).0
  | inr other ↦ each_of_all p xs x (&&-eq-true (p y) (all p xs) h).1 (rw other at there)
]

-- The dependencies go down in some ranking, so they go in no circle.
abbrev pub GoesDown : Graph → (String → ℕ) → Type 0
GoesDown graph rank =
    (k d : String) → mem d (deps_of k graph) ≡ true → (rank d < rank k) × (has_key d graph ≡ true)

module _ (graph : Graph) (distinct : Distinct graph)
    (sets : (k : String) → is_set (deps_of k graph) ≡ true) (rank : String → ℕ)
    (down : GoesDown graph rank) (result : List String)
    (sorted : IsSorted graph distinct sets result) where
  complete_below : (n : ℕ) (k : String) → rank k < n → has_key k graph ≡ true → mem k result ≡ true
  complete_below zero k below there = absurd (omega arith)
  complete_below (suc n) k below there =
      let done =
        all_of_each (λ d. mem d result) (deps_of k graph)
          (λ d needs.
            let (lower, known) = down k d needs in complete_below n d (omega arith) known) in
      sorted.closed k (ground (arith, waiting_of_all (deps_of k graph) result done))

  pub complete : (k : String) → has_key k graph ≡ true → mem k result ≡ true
  complete k = complete_below (suc (rank k)) k (omega arith)

-- In an order, what a key depends on stands before it.
pub before_in_order :
    (graph : Graph) (seen before rest : List String) (k d : String)
    → in_order graph seen (before ++ k ∷ rest) ≡ true
    → mem d (deps_of k graph) ≡ true
    → (mem d seen || mem d before) ≡ true
before_in_order graph seen [] rest k d h needs =
    ground (arith, each_of_all (λ x. mem x seen) (deps_of k graph) d (ground arith) needs)
before_in_order graph seen (n ∷ before) rest k d h needs =
    ground (arith, before_in_order graph (n ∷ seen) before rest k d (ground arith) needs)

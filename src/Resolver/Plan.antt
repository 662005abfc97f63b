-- ===== src/Resolver/Plan.antt =====
-- `_resolve_metric_dependencies` orders the metrics so that the formulas can be computed one after
-- the other, as `compute_derived_metrics` does.
use precis_finance_mcp.Common.{
  ℕ, ◌<◌, ◌≡◌, refl, arith, String, true, not, Option, none, some, List, [], ◌∷◌, ◌++◌, eq_iff,
  is_set, mem, mem-append, mem-inter, inter, to_set, Dict, lookup, lookup-eq-none, has_key, keys,
  mem-keys, Distinct, Bool-cases, Option-cases, inl, inr, ok, >>=-eq-ok, ok-injective, subst,
  text_cases, sym, ap, ◌∙◌,
}
use precis_finance_mcp.Common.Sort.{sort}
use precis_finance_mcp.Formulas.{
  Expr, Exprs, constant, other_constant, name, unary_op, bin_op, call, if_exp, attribute,
  other_node, end, entry, Parser, Metric, base_metric, derived_metric,
}
use precis_finance_mcp.Formulas.Agreement.{names, all_names}
use precis_finance_mcp.Resolver.{size, Graph, in_degrees, without_dependencies, as_is}
use precis_finance_mcp.Resolver.Counting.{is_set-keep, is_set-to_set}
use precis_finance_mcp.Resolver.Sorting.{
  deps_of, in_order, IsSorted, kahn-IsSorted, sort-Rearranges, as_is-Rearranges,
}
use precis_finance_mcp.Resolver.Start.{Inv-start, GoesDown, complete, before_in_order}
use precis_finance_mcp.Resolver.Metrics.{
  walk_names, walk_all, python_builtins, extract_names_from_formula, metric_refs, refs_of,
  metric_graph, sort_metrics,
}
use precis_finance_mcp.Resolver.Closure.{IsClosure}

module _ {F : Type 0} where
  mutual
    unfolding names walk_names

    -- What evaluation may read is among the names of the tree.
    pub names_walked :
        (e : Expr F) (n : String) → mem n (names e) ≡ true → mem n (walk_names e) ≡ true
    names_walked (constant value) n there = there
    names_walked other_constant n there = there
    names_walked (name id) n there = there
    names_walked (unary_op op operand) n there = names_walked operand n there
    names_walked (bin_op op left right) n there = ground (
      arith,
      mem-append n (names left) (names right),
      mem-append n (walk_names left) (walk_names right),
      names_walked left n,
      names_walked right n,
    )
    names_walked (call func args keywords) n there = ground (
      arith,
      mem-append n (walk_names func) (walk_all args ++ walk_all keywords),
      mem-append n (walk_all args) (walk_all keywords),
      all_names_walked args n there,
    )
    names_walked (if_exp test body orelse) n there = ground (
      arith,
      mem-append n (names test) (names body ++ names orelse),
      mem-append n (names body) (names orelse),
      mem-append n (walk_names test) (walk_names body ++ walk_names orelse),
      mem-append n (walk_names body) (walk_names orelse),
      names_walked test n,
      names_walked body n,
      names_walked orelse n,
    )
    names_walked (attribute value) n there = cc
    names_walked (other_node children) n there = cc

    all_names_walked :
        (es : Exprs F) (n : String) → mem n (all_names es) ≡ true → mem n (walk_all es) ≡ true
    all_names_walked end n there = there
    all_names_walked (entry node nodes) n there = ground (
      arith,
      mem-append n (names node) (all_names nodes),
      mem-append n (walk_names node) (walk_all nodes),
      names_walked node n,
      all_names_walked nodes n,
    )

module _ {F : Type 0} (parse : Parser F) (metrics : Dict Metric) where
  pub refs_of-is_set :
      (metric : Option Metric) {refs : List String}
      → refs_of parse metric ≡ ok refs
      → is_set refs ≡ true
  unfolding refs_of metric_refs extract_names_from_formula
  refs_of-is_set none h = cc
  refs_of-is_set (some base_metric) h = rw (← ok-injective h) refl
  refs_of-is_set (some (derived_metric formula)) h = elim (Option-cases (parse formula)) [
    | inl broken ↦ cc (rw (broken, extract_names_from_formula) at h)
    | inr (tree, parsed) ↦
        let known = ok-injective (rw (parsed, extract_names_from_formula) at h) in
        rw (← known) (
          is_set-keep (λ x. not (mem x python_builtins)) (to_set (walk_names tree))
            (is_set-to_set (walk_names tree)))
  ]

  -- The graph has the collected keys in their order, each with its references among them.
  metric_graph-keys :
      (all_keys ks : List String) {graph : Graph}
      → metric_graph parse metrics all_keys ks ≡ ok graph
      → keys graph ≡ ks
  unfolding metric_graph
  metric_graph-keys all_keys [] h = rw (← ok-injective h) refl
  metric_graph-keys all_keys (k ∷ ks) h =
      let (refs, own, h₁) = >>=-eq-ok (refs_of parse (lookup k metrics)) _ h in
      let (rest, later, answer) = >>=-eq-ok (metric_graph parse metrics all_keys ks) _ h₁ in
      rw (← ok-injective answer)
        (ap (λ (xs : List String). k ∷ xs) (metric_graph-keys all_keys ks later))

  metric_graph-deps :
      (all_keys ks : List String) {graph : Graph} (k : String)
      → metric_graph parse metrics all_keys ks ≡ ok graph
      → mem k ks ≡ true
      → (refs : List String) × (refs_of parse (lookup k metrics) ≡ ok refs)
        × (deps_of k graph ≡ inter refs all_keys)
  unfolding metric_graph
  metric_graph-deps all_keys [] k h there = cc
  metric_graph-deps all_keys (j ∷ ks) k h there =
      let (refs, own, h₁) = >>=-eq-ok (refs_of parse (lookup j metrics)) _ h in
      let (rest, later, answer) = >>=-eq-ok (metric_graph parse metrics all_keys ks) _ h₁ in
      elim (text_cases j k) [
        | inl (e, t) ↦ (
          refs,
          subst (λ (x : String). refs_of parse (lookup x metrics) ≡ ok refs) e own,
          subst (λ (g : Graph). deps_of k g ≡ inter refs all_keys) (ok-injective answer)
              (ground arith),
        )
        | inr other ↦
            let (found, own_found, deps) =
              metric_graph-deps all_keys ks k later (rw other at there) in
            (
              found,
              own_found,
              subst (λ (g : Graph). deps_of k g ≡ inter found all_keys) (ok-injective answer)
                  (ground arith),
            )
      ]

  pub metric_graph-ends :
      (all_keys ks : List String)
      → ((k : String)
          → mem k ks ≡ true
          → (refs : List String) × (refs_of parse (lookup k metrics) ≡ ok refs))
      → (graph : Graph) × (metric_graph parse metrics all_keys ks ≡ ok graph)
  unfolding metric_graph
  metric_graph-ends all_keys [] each = ([], refl)
  metric_graph-ends all_keys (k ∷ ks) each =
      let (refs, own) = each k (ground (arith, eq_iff k k)) in
      let (graph, later) = metric_graph-ends all_keys ks (λ j there. each j (ground arith)) in
      ((k, inter refs all_keys) ∷ graph, rw (own, later) refl)

  Distinct_of_is_set : (graph : Graph) → is_set (keys graph) ≡ true → Distinct graph
  Distinct_of_is_set [] h = tt
  Distinct_of_is_set ((k, deps) ∷ graph) h =
      ground (arith, mem-keys k graph, Distinct_of_is_set graph)

  module _ (metric_keys : List String) (collected : List String) (graph : Graph)
      (closure : IsClosure parse metrics metric_keys collected)
      (graphs : metric_graph parse metrics collected collected ≡ ok graph) where
    pub graph-Distinct : Distinct graph
    graph-Distinct =
        Distinct_of_is_set graph (rw (metric_graph-keys collected collected graphs) closure.once)

    pub has_key-graph : (k : String) → has_key k graph ≡ mem k collected
    has_key-graph k =
        sym (mem-keys k graph) ∙ ap (mem k) (metric_graph-keys collected collected graphs)

    -- The dependencies of a collected metric are its references.
    pub mem-deps_of-graph :
        (k : String)
        → mem k collected ≡ true
        → (refs : List String) × (refs_of parse (lookup k metrics) ≡ ok refs)
          × ((d : String) → mem d (deps_of k graph) ≡ mem d refs)
          × (is_set (deps_of k graph) ≡ true)
    mem-deps_of-graph k there =
        let (refs, own, deps) = metric_graph-deps collected collected k graphs there in
        let (known, found, inside) = closure.closed k there in
        let same : known ≡ refs = ok-injective (sym found ∙ own) in
        (
          refs,
          own,
          λ d. ground (arith, deps, mem-inter d refs collected, inside d, same),
          rw deps (is_set-keep (λ x. mem x collected) refs (refs_of-is_set (lookup k metrics) own)),
        )

    pub deps_are_sets : (k : String) → is_set (deps_of k graph) ≡ true
    deps_are_sets k = elim (Bool-cases (mem k collected)) [
      | inl there ↦ (mem-deps_of-graph k there).3
      | inr other ↦ ground (arith, lookup-eq-none k graph, has_key-graph k)
    ]

    pub result-IsSorted : IsSorted graph graph-Distinct deps_are_sets (sort_metrics graph)
    unfolding sort_metrics
    result-IsSorted =
        kahn-IsSorted graph graph-Distinct deps_are_sets sort as_is sort-Rearranges as_is-Rearranges
          (size graph) _ [] (omega arith)
          (Inv-start graph (without_dependencies (in_degrees graph)) graph-Distinct (λ k. refl)
            refl)

    pub result_within : (k : String) → mem k (sort_metrics graph) ≡ true → mem k collected ≡ true
    result_within k there =
        ground (arith, result-IsSorted.placed.known k, mem-keys k graph, has_key-graph k)

    -- In the result every reference stands before its metric.
    pub reference_before :
        (before rest refs : List String) (k r : String)
        → sort_metrics graph ≡ before ++ k ∷ rest
        → refs_of parse (lookup k metrics) ≡ ok refs
        → mem r refs ≡ true
        → mem r before ≡ true
    reference_before before rest refs k r split own named =
        let in_place : in_order graph [] (before ++ k ∷ rest) ≡ true =
          subst (λ (o : List String). in_order graph [] o ≡ true) split
            result-IsSorted.placed.ordered in
        let there : mem k (sort_metrics graph) ≡ true =
          rw split (ground (arith, mem-append k before (k ∷ rest), eq_iff k k)) in
        let (known, found, deps, _) = mem-deps_of-graph k (result_within k there) in
        let same : known ≡ refs = ok-injective (sym found ∙ own) in
        ground (arith, before_in_order graph [] before rest k r in_place, deps r, same)

    -- Where references go in no circle, every collected metric is in the result.
    pub all_sorted :
        (rank : String → ℕ)
        → ((k r : String) (refs : List String)
            → refs_of parse (lookup k metrics) ≡ ok refs
            → mem r refs ≡ true
            → rank r < rank k)
        → (k : String) → mem k collected ≡ true
        → mem k (sort_metrics graph) ≡ true
    all_sorted rank acyclic k there =
        let down : GoesDown graph rank = λ j d needs. elim (Bool-cases (mem j collected)) [
          | inl known ↦
              let (refs, own, deps, _) = mem-deps_of-graph j known in
              let (found_refs, found, inside) = closure.closed j known in
              let same : found_refs ≡ refs = ok-injective (sym found ∙ own) in
              (
                acyclic j d refs own (ground (arith, deps d)),
                ground (arith, has_key-graph d, deps d, inside d, same),
              )
          | inr other ↦ absurd (ground (arith, lookup-eq-none j graph, has_key-graph j))
        ] in
        complete graph graph-Distinct deps_are_sets rank down (sort_metrics graph) result-IsSorted k
          (has_key-graph k ∙ there)

-- ===== src/Resolver/Order.antt =====
-- What `_resolve_metric_dependencies` answers, and what it means for the computation of the metrics.
use precis_finance_mcp.Common.{
  ℕ, ◌<◌, ◌≡◌, ◌⊎◌, refl, arith, String, true, false, not, ◌&&◌, ◌||◌, Option, none, some, List, [],
  ◌∷◌, ◌++◌, eq_iff, is_set, mem, mem-to_set, mem-diff, to_set, all, Dict, lookup, has_key,
  lookup-has_key, keys, Distinct, Option-cases, inl, inr, ok, >>=-eq-ok, ok-injective, subst, sym,
  ap, ◌∙◌,
}
use precis_finance_mcp.Formulas.{
  Floats, Parser, Metric, base_metric, derived_metric, Row, ScenarioData, derived_formulas,
  compute_derived_metrics, evaluate_expression,
}
use precis_finance_mcp.Formulas.Agreement.{formula_names}
use precis_finance_mcp.Formulas.Derived.{IsOrdered, compute_derived_metrics-fixed}
use precis_finance_mcp.Resolver.{Graph}
use precis_finance_mcp.Resolver.Sorting.{in_order, deps_of}
use precis_finance_mcp.Resolver.Start.{all_of_each, each_of_all}
use precis_finance_mcp.Resolver.Metrics.{
  walk_names, python_builtins, extract_names_from_formula, metric_refs, refs_of, metric_graph,
  MetricOrder, metric_order, sort_metrics, needed_metrics, resolve_metric_dependencies,
}
use precis_finance_mcp.Resolver.Closure.{
  IsClosure, IsClosed, needed_metrics-IsClosure, needed_metrics-ends,
}
use precis_finance_mcp.Resolver.Plan.{
  names_walked, metric_graph-ends, result-IsSorted, result_within, reference_before, all_sorted,
  mem-deps_of-graph,
}

Metric-cases :
    (metric : Option Metric)
    → (metric ≡ none)
      ⊎ (metric ≡ some base_metric)
      ⊎ ((formula : String) × (metric ≡ some (derived_metric formula)))
Metric-cases none = inl refl
Metric-cases (some base_metric) = inr (inl refl)
Metric-cases (some (derived_metric formula)) = inr (inr (formula, refl))

module _ {F : Type 0} (parse : Parser F) (metrics : Dict Metric) where
  -- An answer comes from the collected metrics and their graph.
  parts_of_order :
      (metric_keys : List String) {order : MetricOrder}
      → Distinct metrics
      → resolve_metric_dependencies parse metric_keys metrics ≡ ok order
      → (collected : List String) × (graph : Graph) × IsClosure parse metrics metric_keys collected
        × (metric_graph parse metrics collected collected ≡ ok graph)
        × (sort_metrics graph ≡ order.all_keys)
  unfolding resolve_metric_dependencies
  parts_of_order metric_keys {order} distinct h =
      let (collected, found, h₁) = >>=-eq-ok (needed_metrics parse metric_keys metrics) _ h in
      let (graph, graphs, answer) =
        >>=-eq-ok (metric_graph parse metrics collected collected) _ h₁ in
      (
        collected,
        graph,
        needed_metrics-IsClosure parse metrics metric_keys distinct found,
        graphs,
        ap (λ (o : MetricOrder). o.all_keys) (ok-injective answer),
      )

  -- If no key stands twice in the catalogue and the metrics resolve, then where a metric stands in
  -- their order, every metric that its formula refers to stands before.
  pub resolve_metric_dependencies-before :
      (metric_keys before rest refs : List String) (order : MetricOrder) (k r : String)
      → Distinct metrics
      → resolve_metric_dependencies parse metric_keys metrics ≡ ok order
      → order.all_keys ≡ before ++ k ∷ rest
      → refs_of parse (lookup k metrics) ≡ ok refs
      → mem r refs ≡ true
      → mem r before ≡ true
  resolve_metric_dependencies-before metric_keys before rest refs order k r distinct h split own
        named =
      let (collected, graph, closure, graphs, sorts) = parts_of_order metric_keys distinct h in
      reference_before parse metrics metric_keys collected graph closure graphs before rest refs k r
        (sorts ∙ split) own named

  -- If no key stands twice in the catalogue, references go down in some ranking, so that they go in
  -- no circle, and the requested metrics lie in some set of metrics with formulas that parse and that
  -- refer to that set alone: the metrics resolve, and their order is the least such set, each once.
  pub resolve_metric_dependencies-ends :
      (metric_keys set : List String) (rank : String → ℕ)
      → Distinct metrics
      → ((k : String) → mem k metric_keys ≡ true → mem k set ≡ true)
      → IsClosed parse metrics set
      → ((k r : String) (refs : List String)
          → refs_of parse (lookup k metrics) ≡ ok refs
          → mem r refs ≡ true
          → rank r < rank k)
      → (order : MetricOrder) × (resolve_metric_dependencies parse metric_keys metrics ≡ ok order)
        × IsClosure parse metrics metric_keys order.all_keys
  unfolding resolve_metric_dependencies
  resolve_metric_dependencies-ends metric_keys set rank distinct asked known acyclic =
      let (collected, found) = needed_metrics-ends parse metrics metric_keys set asked known in
      let closure = needed_metrics-IsClosure parse metrics metric_keys distinct found in
      let (graph, graphs) =
        metric_graph-ends parse metrics collected collected
          (λ k there. let (refs, own, _) = closure.closed k there in (refs, own)) in
      let result = sort_metrics graph in
      let inside = result_within parse metrics metric_keys collected graph closure graphs in
      let there =
        all_sorted parse metrics metric_keys collected graph closure graphs rank acyclic in
      let sorted = result-IsSorted parse metrics metric_keys collected graph closure graphs in
      (
        metric_order metrics result,
        rw (found, graphs) refl,
        record {
          once = sorted.placed.once;
          has_requested = λ k asks. there k (closure.has_requested k asks);
          closed = λ k named.
              let (refs, own, has) = closure.closed k (inside k named) in
              (refs, own, λ r refers. there r (has r refers));
          least = λ other asks closed k named. closure.least other asks closed k (inside k named);
        },
      )

  -- The names that the code asks whether they are builtins are no metrics.
  abbrev NoBuiltins : Type 0
  NoBuiltins = (n : String) → mem n python_builtins ≡ true → has_key n metrics ≡ false

  module _ (floats : Floats F) (no_builtins : NoBuiltins) where
    -- What a formula names is a reference of its metric, or no metric at all.
    named_is_reference :
        (formula n : String) {refs : List String}
        → refs_of parse (some (derived_metric formula)) ≡ ok refs
        → mem n (formula_names floats parse formula) ≡ true
        → (mem n refs || not (has_key n metrics)) ≡ true
    unfolding refs_of metric_refs extract_names_from_formula
    named_is_reference formula n h named = elim (Option-cases (parse formula)) [
      | inl broken ↦ cc (rw (broken, extract_names_from_formula) at h)
      | inr (tree, parsed) ↦
          let known = ok-injective (rw (parsed, extract_names_from_formula) at h) in
          rw (← known) (
            ground (
              arith,
              mem-diff n (to_set (walk_names tree)) python_builtins,
              mem-to_set n (walk_names tree),
              names_walked tree n (rw parsed at named),
              no_builtins n,
            ))
    ]

    -- A formula is computed after all the metrics that it names.
    abbrev Settles : Graph → List String → Type 0
    Settles graph ks =
        (k formula n : String)
        → mem k ks ≡ true
        → lookup k metrics ≡ some (derived_metric formula)
        → mem n (formula_names floats parse formula) ≡ true
        → (mem n (deps_of k graph) || not (has_key n metrics)) ≡ true

    abbrev Separate : List String → List String → Type 0
    Separate seen ks = (k : String) → mem k seen ≡ true → mem k ks ≡ false

    key-derived_formulas :
        (ks : List String) (k : String)
        → mem k (keys (derived_formulas floats parse metrics ks)) ≡ true
        → (mem k ks && has_key k metrics) ≡ true
    unfolding derived_formulas
    key-derived_formulas [] k there = cc
    key-derived_formulas (j ∷ ks) k there =
        ground (arith, key-derived_formulas ks k, lookup-has_key k metrics, eq_iff j k)

    derived_formulas-cases :
        (k : String) (ks : List String)
        → (derived_formulas floats parse metrics (k ∷ ks)
            ≡ derived_formulas floats parse metrics ks)
          ⊎ ((formula : String) × (lookup k metrics ≡ some (derived_metric formula))
              × (derived_formulas floats parse metrics (k ∷ ks)
                  ≡ (k, formula) ∷ derived_formulas floats parse metrics ks))
    unfolding derived_formulas
    derived_formulas-cases k ks = elim (Metric-cases (lookup k metrics)) [
      | inl unknown ↦ inl (rw (derived_formulas, unknown) refl)
      | inr (inl base) ↦ inl (rw (derived_formulas, base) refl)
      | inr (inr (formula, found)) ↦ inr (formula, found, rw (derived_formulas, found) refl)
    ]

    ahead_of :
        (graph : Graph) (seen ks : List String) (k formula : String)
        → all (λ d. mem d seen) (deps_of k graph) ≡ true
        → Separate seen (k ∷ ks)
        → Settles graph (k ∷ ks)
        → lookup k metrics ≡ some (derived_metric formula)
        → all
            (λ n. not (mem n (k ∷ keys (derived_formulas floats parse metrics ks))))
            (formula_names floats parse formula)
          ≡ true
    ahead_of graph seen ks k formula ready separate settles found =
        all_of_each (λ n. not (mem n (k ∷ keys (derived_formulas floats parse metrics ks))))
          (formula_names floats parse formula)
          (λ n named. ground (
            arith,
            settles k formula n (ground (arith, eq_iff k k)) found named,
            each_of_all (λ d. mem d seen) (deps_of k graph) n ready,
            separate n,
            key-derived_formulas ks n,
            lookup-has_key k metrics,
            found,
            eq_iff k n,
          ))

    derived_formulas-IsOrdered :
        (graph : Graph) (seen ks : List String)
        → in_order graph seen ks ≡ true
        → is_set ks ≡ true
        → Separate seen ks
        → Settles graph ks
        → IsOrdered floats parse (derived_formulas floats parse metrics ks)
    unfolding derived_formulas
    derived_formulas-IsOrdered graph seen [] ordered once separate settles = tt
    derived_formulas-IsOrdered graph seen (k ∷ ks) ordered once separate settles =
        let later =
          derived_formulas-IsOrdered graph (k ∷ seen) ks (ground arith) (ground arith)
            (λ n there. ground (arith, separate n, eq_iff k n))
            (λ j formula n there. settles j formula n (ground arith)) in
        elim (derived_formulas-cases k ks) [
          | inl same ↦ subst (IsOrdered floats parse) (sym same) later
          | inr (formula, found, more) ↦ subst (IsOrdered floats parse) (sym more) (
            ahead_of graph seen ks k formula (ground arith) separate settles found,
            ground (arith, key-derived_formulas ks k),
            later,
          )
        ]

    lookup-derived_formulas :
        (ks : List String) (k formula : String)
        → mem k ks ≡ true
        → lookup k metrics ≡ some (derived_metric formula)
        → lookup k (derived_formulas floats parse metrics ks) ≡ some formula
    unfolding derived_formulas
    lookup-derived_formulas [] k formula there found = cc
    lookup-derived_formulas (j ∷ ks) k formula there found =
        ground (arith, eq_iff j k, lookup-derived_formulas ks k formula, found)

    -- If no key stands twice in the catalogue, no metric has the name of a builtin, the metrics resolve,
    -- and the derived ones are computed in their order without an error: in every row of the result,
    -- every derived metric in the order has a value, and it is what its formula gives at that row.
    pub resolve_metric_dependencies-computes :
        (metric_keys : List String) (order : MetricOrder) (scenario_data after : ScenarioData F)
        (dim_key key formula : String) (row : Row F)
        → Distinct metrics
        → resolve_metric_dependencies parse metric_keys metrics ≡ ok order
        → compute_derived_metrics floats parse metrics order.all_keys scenario_data ≡ ok after
        → lookup dim_key after ≡ some row
        → mem key order.all_keys ≡ true
        → lookup key metrics ≡ some (derived_metric formula)
        → (value : Option F) × (lookup key row ≡ some value)
          × (evaluate_expression floats parse formula row ≡ ok value)
    resolve_metric_dependencies-computes metric_keys order scenario_data after dim_key key formula
          row distinct h computes there named found =
        let (collected, graph, closure, graphs, sorts) = parts_of_order metric_keys distinct h in
        let sorted = result-IsSorted parse metrics metric_keys collected graph closure graphs in
        let inside = result_within parse metrics metric_keys collected graph closure graphs in
        let settles : Settles graph (sort_metrics graph) = λ k f n listed is_f names_n.
          let (refs, own, deps, _) =
            mem-deps_of-graph parse metrics metric_keys collected graph closure graphs k
              (inside k listed) in
          ground (arith, deps n, named_is_reference f n (rw is_f at own) names_n) in
        let ordered =
          derived_formulas-IsOrdered graph [] (sort_metrics graph) sorted.placed.ordered
            sorted.placed.once (λ k never. cc) settles in
        compute_derived_metrics-fixed floats parse metrics order.all_keys scenario_data after
          dim_key key formula row
          (subst
            (λ (ks : List String).
              IsOrdered floats parse (derived_formulas floats parse metrics ks))
            sorts ordered)
          computes there (lookup-derived_formulas order.all_keys key formula named found)

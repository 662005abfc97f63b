-- ===== src/Tests/Planning.antt =====
-- The orders of metrics and of computed scenarios at concrete inputs.
use precis_finance_mcp.Common.{
  ℕ, ◌<◌, String, ◌≡◌, refl, arith, ◌∙◌, Bool, true, false, not, Option, some, List, [], ◌∷◌, ◌==◌,
  if◌then◌else◌, is_set, mem, all, ltb, ltb→lt, keys, mem-keys, lookup-eq-none, Bool-cases,
  Result-cases, ok, err, lookup, has_key, Distinct, inl, inr,
}
use precis_finance_mcp.Common.Sort.{sort}
use precis_finance_mcp.Catalogue.{resolver}
use precis_finance_mcp.Formulas.{compute_derived_metrics, eval_node, evaluate_expression}
use precis_finance_mcp.Resolver.{topological_sort_dependencies}
use precis_finance_mcp.Resolver.Start.{each_of_all}
use precis_finance_mcp.Resolver.Computed.{
  topological_sort-members, topological_sort-before, topological_sort-ends,
}
use precis_finance_mcp.Resolver.Metrics.{
  python_builtins, refs_of, MetricOrder, metric_order, needed_metrics, resolve_metric_dependencies,
}
use precis_finance_mcp.Resolver.Closure.{IsClosure, IsClosed, needed_metrics-IsClosure}
use precis_finance_mcp.Resolver.Order.{
  resolve_metric_dependencies-before, resolve_metric_dependencies-ends,
  resolve_metric_dependencies-computes,
}
use precis_finance_mcp.Tests.Computing.{
  naturals, parse, metrics, data_before, data_after, south_after,
}

abbrev computed_keys : List String
computed_keys = "growth" ∷ "actuals_vs_budget" ∷ "actuals_vs_budget_pct" ∷ []

abbrev dependency_fn : String → List String
dependency_fn key =
    if key == "growth"
    then "actuals_vs_budget_pct" ∷ "actuals" ∷ []
    else if key == "actuals_vs_budget_pct"
    then "actuals_vs_budget" ∷ "budget" ∷ []
    else if key == "actuals_vs_budget"
    then "actuals" ∷ "budget" ∷ []
    else []

abbrev evaluation_order : List String
evaluation_order = "actuals_vs_budget" ∷ "actuals_vs_budget_pct" ∷ "growth" ∷ []

sorts_scenarios : topological_sort_dependencies computed_keys dependency_fn ≡ ok evaluation_order
unfolding topological_sort_dependencies sort
sorts_scenarios = refl

refuses_circle :
    topological_sort_dependencies
      ("a" ∷ "b" ∷ [])
      (λ key. if key == "a" then "b" ∷ [] else "a" ∷ [])
    ≡ err resolver
unfolding topological_sort_dependencies sort
refuses_circle = refl

topological_sort-members_example :
    (is_set evaluation_order ≡ true) × ((k : String) → mem k evaluation_order ≡ mem k computed_keys)
topological_sort-members_example =
    topological_sort-members computed_keys dependency_fn evaluation_order sorts_scenarios

topological_sort-before_example :
    mem "actuals_vs_budget_pct" ("actuals_vs_budget" ∷ "actuals_vs_budget_pct" ∷ []) ≡ true
topological_sort-before_example =
    topological_sort-before computed_keys dependency_fn evaluation_order
      ("actuals_vs_budget" ∷ "actuals_vs_budget_pct" ∷ []) [] "growth" "actuals_vs_budget_pct"
      sorts_scenarios refl refl refl

abbrev rank : String → ℕ
rank key = if key == "growth" then 2 else if key == "actuals_vs_budget_pct" then 1 else 0

abbrev lower : String → String → Bool
lower k d = if mem d computed_keys then ltb (rank d) (rank k) else true

goes_down :
    (k d : String)
    → mem k computed_keys ≡ true
    → mem d (dependency_fn k) ≡ true
    → mem d computed_keys ≡ true
    → rank d < rank k
goes_down k d computed needs there =
    let each = each_of_all (λ x. all (lower x) (dependency_fn x)) computed_keys k refl computed in
    let below = each_of_all (lower k) (dependency_fn k) d each needs in
    ltb→lt (rank d) (rank k) (rw there at below)

topological_sort-ends_example :
    (order : List String) × (topological_sort_dependencies computed_keys dependency_fn ≡ ok order)
topological_sort-ends_example =
    topological_sort-ends computed_keys dependency_fn rank refl goes_down

abbrev metrics_Distinct : Distinct metrics
metrics_Distinct = (refl, (refl, (refl, (refl, tt))))

abbrev planned : List String
planned = "cost" ∷ "revenue" ∷ "margin" ∷ "rate" ∷ []

resolves_metrics :
    resolve_metric_dependencies parse ("rate" ∷ []) metrics ≡ ok (metric_order metrics planned)
unfolding resolve_metric_dependencies sort
resolves_metrics = refl

collects_metrics :
    needed_metrics parse ("rate" ∷ []) metrics ≡ ok ("cost" ∷ "revenue" ∷ "margin" ∷ "rate" ∷ [])
unfolding needed_metrics
collects_metrics = refl

abbrev metric_keys : List String
metric_keys = "rate" ∷ []

-- Whether a metric's references all pass a test.
abbrev refs_pass : (String → String → Bool) → String → Bool
refs_pass p k = elim (refs_of parse (lookup k metrics)) [ err _ ↦ false | ok refs ↦ all (p k) refs ]

planned_IsClosed : IsClosed parse metrics planned
unfolding refs_of
planned_IsClosed k there =
    let passes = each_of_all (refs_pass (λ j r. mem r planned)) planned k refl there in
    elim (Result-cases (refs_of parse (lookup k metrics))) [
      | inl (refs, own) ↦ (
        refs,
        own,
        λ r named. each_of_all (λ x. mem x planned) refs r (rw (own, refs_pass) at passes) named,
      )
      | inr (raised, own) ↦ cc (rw (own, refs_pass) at passes)
    ]

abbrev depth : String → ℕ
depth key = if key == "rate" then 2 else if key == "margin" then 1 else 0

refs_go_down :
    (k r : String) (refs : List String)
    → refs_of parse (lookup k metrics) ≡ ok refs
    → mem r refs ≡ true
    → depth r < depth k
unfolding refs_of
refs_go_down k r refs own named = elim (Bool-cases (has_key k metrics)) [
  | inl known ↦
      let passes =
        each_of_all (refs_pass (λ x y. ltb (depth y) (depth x))) (keys metrics) k refl
          (mem-keys k metrics ∙ known) in
      ltb→lt (depth r) (depth k)
        (each_of_all (λ y. ltb (depth y) (depth k)) refs r (rw (own, refs_pass) at passes) named)
  | inr unknown ↦ cc (rw (lookup-eq-none k metrics unknown) at own)
]

no_builtins : (n : String) → mem n python_builtins ≡ true → has_key n metrics ≡ false
no_builtins n h =
    ground (arith, each_of_all (λ x. not (has_key x metrics)) python_builtins n refl h)

needed_metrics-IsClosure_example : IsClosure parse metrics metric_keys planned
needed_metrics-IsClosure_example =
    needed_metrics-IsClosure parse metrics metric_keys metrics_Distinct collects_metrics

resolve_metric_dependencies-before_example :
    mem "margin" ("cost" ∷ "revenue" ∷ "margin" ∷ []) ≡ true
unfolding refs_of
resolve_metric_dependencies-before_example =
    resolve_metric_dependencies-before parse metrics metric_keys
      ("cost" ∷ "revenue" ∷ "margin" ∷ []) [] ("margin" ∷ "revenue" ∷ [])
      (metric_order metrics planned) "rate" "margin" metrics_Distinct resolves_metrics refl refl
      refl

resolve_metric_dependencies-ends_example :
    (order : MetricOrder) × (resolve_metric_dependencies parse metric_keys metrics ≡ ok order)
    × IsClosure parse metrics metric_keys order.all_keys
resolve_metric_dependencies-ends_example =
    resolve_metric_dependencies-ends parse metrics metric_keys planned depth metrics_Distinct
      (λ k asked. ground (arith, asked)) planned_IsClosed refs_go_down

computes_in_order :
    compute_derived_metrics naturals parse metrics planned data_before ≡ ok data_after
unfolding compute_derived_metrics eval_node
computes_in_order = refl

resolve_metric_dependencies-computes_example :
    (value : Option ℕ) × (lookup "rate" south_after ≡ some value)
    × (evaluate_expression naturals parse "margin / revenue" south_after ≡ ok value)
resolve_metric_dependencies-computes_example =
    resolve_metric_dependencies-computes parse metrics naturals no_builtins metric_keys
      (metric_order metrics planned) data_before data_after "south" "rate" "margin / revenue"
      south_after metrics_Distinct resolves_metrics computes_in_order refl refl refl

-- ===== src/Resolver/Metrics.antt =====
-- `_resolve_metric_dependencies`: the metrics that a request needs, and the order to compute them
-- in. `_metric_refs` (precis_mcp/engine/catalogue.py) reads the names of a formula off its tree; a set
-- of names is a list in the order of the tree.
use precis_finance_mcp.Common.{
  ℕ, ◌+◌, zero, suc, String, Bool, true, false, Option, none, some, List, [], ◌∷◌, ◌++◌,
  if◌then◌else◌, mem, keep, to_set, inter, diff, Dict, lookup, Result, ok, err, ◌>>=◌,
}
use precis_finance_mcp.Common.Sort.{sort}
use precis_finance_mcp.Catalogue.{Error, resolver, catalogue_error}
use precis_finance_mcp.Formulas.{
  Expr, Exprs, constant, other_constant, name, unary_op, bin_op, call, if_exp, attribute,
  other_node, end, entry, Parser, Metric, base_metric, derived_metric,
}
use precis_finance_mcp.Resolver.{size, Graph, in_degrees, without_dependencies, kahn, as_is}

-- The names of `ast.walk`.
unfoldable mutual
  pub walk_names : {F : Type 0} → Expr F → List String
  walk_names (constant value) = []
  walk_names other_constant = []
  walk_names (name id) = id ∷ []
  walk_names (unary_op op operand) = walk_names operand
  walk_names (bin_op op left right) = walk_names left ++ walk_names right
  walk_names (call func args keywords) = walk_names func ++ (walk_all args ++ walk_all keywords)
  walk_names (if_exp test body orelse) = walk_names test ++ (walk_names body ++ walk_names orelse)
  walk_names (attribute value) = walk_names value
  walk_names (other_node children) = walk_all children

  pub walk_all : {F : Type 0} → Exprs F → List String
  walk_all end = []
  walk_all (entry node nodes) = walk_names node ++ walk_all nodes

-- `_PYTHON_BUILTINS`
abbrev pub python_builtins : List String
python_builtins = "abs" ∷ "round" ∷ "min" ∷ "max" ∷ "sum" ∷ "len" ∷ "int" ∷ "float" ∷ "bool" ∷ []

pub record MetricOrder : Type 0 where
  pub all_keys : List String
  pub base_keys : List String
  pub derived_keys : List String

abbrev pub is_base : Dict Metric → String → Bool
is_base metrics key = elim (lookup key metrics) [
  | none ↦ false
  | some metric ↦ elim metric [ base_metric ↦ true | derived_metric _ ↦ false ]
]

abbrev pub is_derived : Dict Metric → String → Bool
is_derived metrics key = elim (lookup key metrics) [
  | none ↦ false
  | some metric ↦ elim metric [ base_metric ↦ false | derived_metric _ ↦ true ]
]

-- The sorted keys, and the base and the derived metrics among them.
abbrev pub metric_order : Dict Metric → List String → MetricOrder
metric_order metrics sorted_keys = record {
  all_keys = sorted_keys;
  base_keys = keep (is_base metrics) sorted_keys;
  derived_keys = keep (is_derived metrics) sorted_keys;
}

-- The queue is sorted before each node is taken.
unfoldable pub sort_metrics : Graph → List String
unfolding kahn
sort_metrics graph =
    let in_degree = in_degrees graph in
    kahn sort as_is graph (size graph)
      (record { in_degree = in_degree; queue = without_dependencies in_degree }) []

module _ {F : Type 0} (parse : Parser F) where
  unfoldable pub extract_names_from_formula : String → Result Error (List String)
  unfolding walk_names
  extract_names_from_formula formula = elim (parse formula) [
    | none ↦ err catalogue_error
    | some tree ↦ ok (to_set (walk_names tree))
  ]

  unfoldable pub metric_refs : String → Result Error (List String)
  unfolding extract_names_from_formula
  metric_refs formula =
      extract_names_from_formula formula >>= λ names. ok (diff names python_builtins)

  -- What a metric refers to; a key that is no metric is an error.
  unfoldable pub refs_of : Option Metric → Result Error (List String)
  unfolding metric_refs
  refs_of none = err resolver
  refs_of (some base_metric) = ok []
  refs_of (some (derived_metric formula)) = metric_refs formula

  -- The `while to_visit` loop, on fuel. The end of the code's list is the head of this one.
  unfoldable pub collect_metrics :
      ℕ → Dict Metric → List String → List String → Result Error (List String)
  unfolding refs_of
  collect_metrics zero metrics to_visit all_keys = ok all_keys
  collect_metrics (suc fuel) metrics [] all_keys = ok all_keys
  collect_metrics (suc fuel) metrics (key ∷ to_visit) all_keys = elim (mem key all_keys) [
    | true ↦ collect_metrics fuel metrics to_visit all_keys
    | false ↦ refs_of (lookup key metrics) >>= λ refs.
        collect_metrics fuel metrics (diff refs (key ∷ all_keys) ++ to_visit) (key ∷ all_keys)
  ]

  -- `dep_graph`
  unfoldable pub metric_graph : Dict Metric → List String → List String → Result Error Graph
  unfolding refs_of
  metric_graph metrics all_keys [] = ok []
  metric_graph metrics all_keys (key ∷ keys) = do
    refs ← refs_of (lookup key metrics)
    rest ← metric_graph metrics all_keys keys
    ok ((key, inter refs all_keys) ∷ rest)

  -- How many references the metrics have that are not collected yet.
  abbrev pub ref_count : Result Error (List String) → ℕ
  ref_count (ok refs) = size refs
  ref_count (err _) = 0

  abbrev pub open_refs : Dict Metric → List String → ℕ
  open_refs [] all_keys = 0
  open_refs ((key, metric) ∷ metrics) all_keys =
      (if mem key all_keys then 0 else ref_count (refs_of (some metric)))
      + open_refs metrics all_keys

  unfoldable pub needed_metrics : List String → Dict Metric → Result Error (List String)
  unfolding collect_metrics
  needed_metrics metric_keys metrics =
      collect_metrics (size metric_keys + open_refs metrics []) metrics metric_keys []

  unfoldable pub resolve_metric_dependencies : List String → Dict Metric → Result Error MetricOrder
  unfolding needed_metrics metric_graph sort_metrics
  resolve_metric_dependencies metric_keys metrics = do
    all_keys ← needed_metrics metric_keys metrics
    dep_graph ← metric_graph metrics all_keys all_keys
    ok (metric_order metrics (sort_metrics dep_graph))

-- ===== src/Formulas.antt =====
-- The transformer (precis_mcp/engine/transformer.py): formulas of derived metrics and of computed
-- scenarios. Floats are a parameter, with the operations that the code uses, and so is `ast.parse`,
-- which gives the tree of a formula or a syntax error.
pub mod Agreement
pub mod Derived
pub mod Meaning
pub mod Refined
use precis_finance_mcp.Common.{
  String, Bool, true, false, ◌&&◌, ◌||◌, Option, none, some, List, [], ◌∷◌, ◌==◌, if◌then◌else◌,
  keep, mem, union, Dict, lookup, has_key, put, keys, is_none, Result, ok, err, ◌>>=◌, ◌>>◌,
  raise_if,
}
use precis_finance_mcp.Catalogue.{Error, expression}

pub record Floats (F : Type 0) : Type 0 where
  pub add : F → F → F
  pub sub : F → F → F
  pub mult : F → F → F
  pub div : F → F → F
  pub neg : F → F
  pub abs : F → F
  pub is_zero : F → Bool

pub data UnaryOp : Type 0 where
  usub uadd other_unary : UnaryOp

pub data BinaryOp : Type 0 where
  add sub mult div other_binary : BinaryOp

-- `ast.expr`: a node of any other type has its children in a list.
mutual
  pub data Expr (F : Type 0) : Type 0 where
    constant : F → Expr F
    other_constant : Expr F
    name : String → Expr F
    unary_op : UnaryOp → Expr F → Expr F
    bin_op : BinaryOp → Expr F → Expr F → Expr F
    call : Expr F → Exprs F → Exprs F → Expr F
    if_exp : Expr F → Expr F → Expr F → Expr F
    attribute : Expr F → Expr F
    other_node : Exprs F → Expr F

  pub data Exprs (F : Type 0) : Type 0 where
    end : Exprs F
    entry : Expr F → Exprs F → Exprs F

abbrev pub Parser : Type 0 → Type 0
Parser F = String → Option (Expr F)

module _ {F : Type 0} (floats : Floats F) where
  abbrev pub Value : Type 0
  Value = Result Error (Option F)

  abbrev pub negated : Option F → Option F
  negated none = none
  negated (some x) = some (floats.neg x)

  abbrev pub unary_value : UnaryOp → Value → Value
  unary_value usub operand = operand >>= λ x. ok (negated x)
  unary_value uadd operand = operand
  unary_value other_unary operand = err expression

  abbrev pub apply : BinaryOp → F → F → Value
  apply add left right = ok (some (floats.add left right))
  apply sub left right = ok (some (floats.sub left right))
  apply mult left right = ok (some (floats.mult left right))
  apply div left right = ok (if floats.is_zero right then none else some (floats.div left right))
  apply other_binary left right = err expression

  -- A missing operand gives a missing value, before the operator is looked at.
  abbrev pub binary_value : BinaryOp → Option F → Option F → Value
  binary_value op (some left) (some right) = apply op left right
  binary_value op none right = ok none
  binary_value op (some left) none = ok none

  abbrev pub absolute : Option F → Option F
  absolute none = none
  absolute (some x) = some (floats.abs x)

  abbrev pub holds : Option F → Bool
  holds none = false
  holds (some x) = if floats.is_zero x then false else true

  abbrev pub variable : Option (Option F) → Value
  variable none = err expression
  variable (some value) = ok value

  abbrev pub is_abs : Expr F → Bool
  is_abs (name func) = func == "abs"
  is_abs _ = false

  unfoldable mutual
    -- `_eval_node`
    pub eval_node : Expr F → Dict (Option F) → Value
    eval_node (constant value) variables = ok (some value)
    eval_node other_constant variables = err expression
    eval_node (name id) variables = variable (lookup id variables)
    eval_node (unary_op op operand) variables = unary_value op (eval_node operand variables)
    eval_node (bin_op op left right) variables = do
      l ← eval_node left variables
      r ← eval_node right variables
      binary_value op l r
    eval_node (call func args keywords) variables =
        if is_abs func then eval_args args keywords variables else err expression
    eval_node (if_exp test body orelse) variables = do
      t ← eval_node test variables
      if holds t then eval_node body variables else eval_node orelse variables
    eval_node (attribute value) variables = err expression
    eval_node (other_node children) variables = err expression

    -- `abs` takes exactly one argument, and no keyword.
    eval_args : Exprs F → Exprs F → Dict (Option F) → Value
    eval_args end keywords variables = err expression
    eval_args (entry arg end) end variables = eval_node arg variables >>= λ x. ok (absolute x)
    eval_args (entry arg end) (entry keyword keywords) variables = err expression
    eval_args (entry arg (entry more args)) keywords variables = err expression

-- `any(isinstance(node, ast.Attribute) for node in ast.walk(tree))`
unfoldable mutual
  pub has_attribute : {F : Type 0} → Expr F → Bool
  has_attribute (constant value) = false
  has_attribute other_constant = false
  has_attribute (name id) = false
  has_attribute (unary_op op operand) = has_attribute operand
  has_attribute (bin_op op left right) = has_attribute left || has_attribute right
  has_attribute (call func args keywords) =
      has_attribute func || (any_attribute args || any_attribute keywords)
  has_attribute (if_exp test body orelse) =
      has_attribute test || (has_attribute body || has_attribute orelse)
  has_attribute (attribute value) = true
  has_attribute (other_node children) = any_attribute children

  any_attribute : {F : Type 0} → Exprs F → Bool
  any_attribute end = false
  any_attribute (entry node nodes) = has_attribute node || any_attribute nodes

pub data Metric : Type 0 where
  base_metric : Metric
  derived_metric : (formula : String) → Metric

-- A dimension key, a tuple in the source, is one text here.
abbrev pub Row : Type 0 → Type 0
Row F = Dict (Option F)

abbrev pub ScenarioData : Type 0 → Type 0
ScenarioData F = Dict (Row F)

module _ {F : Type 0} (floats : Floats F) (parse : Parser F) where
  unfoldable pub evaluate_expression : String → Row F → Result Error (Option F)
  unfolding has_attribute
  evaluate_expression formula variables = elim (parse formula) [
    | none ↦ err expression
    | some tree ↦ raise_if (has_attribute tree) expression >> eval_node floats tree variables
  ]

  -- The formulas of the derived ones among the metric keys, in their order.
  unfoldable pub derived_formulas : Dict Metric → List String → List (String × String)
  derived_formulas metrics [] = []
  derived_formulas metrics (key ∷ metric_keys) =
      let rest = derived_formulas metrics metric_keys in
      elim (lookup key metrics) [
        | none ↦ rest
        | some metric ↦ elim metric [
          | base_metric ↦ rest
          | derived_metric formula ↦ (key, formula) ∷ rest
        ]
      ]

  -- The inner loop of `compute_derived_metrics`, over one row.
  unfoldable pub compute_row : List (String × String) → Row F → Result Error (Row F)
  unfolding evaluate_expression
  compute_row [] metric_dict = ok metric_dict
  compute_row ((metric_key, formula) ∷ derived) metric_dict =
      evaluate_expression formula metric_dict >>= λ result.
      compute_row derived (put metric_key result metric_dict)

  unfoldable pub compute_rows :
      List (String × String) → ScenarioData F → Result Error (ScenarioData F)
  unfolding compute_row
  compute_rows derived [] = ok []
  compute_rows derived ((dim_key, metric_dict) ∷ scenario_data) = do
    row ← compute_row derived metric_dict
    rows ← compute_rows derived scenario_data
    ok ((dim_key, row) ∷ rows)

  unfoldable pub compute_derived_metrics :
      Dict Metric → List String → ScenarioData F → Result Error (ScenarioData F)
  unfolding derived_formulas compute_rows
  compute_derived_metrics metrics metric_keys scenario_data =
      compute_rows (derived_formulas metrics metric_keys) scenario_data

  -- `scen_data.get(dim_key, {}).get(metric_key)`
  abbrev pub value_at : String → String → ScenarioData F → Option F
  value_at dim_key metric_key scen_data = elim (lookup dim_key scen_data) [
    | none ↦ none
    | some row ↦ elim (lookup metric_key row) [ none ↦ none | some value ↦ value ]
  ]

  -- The variables of a scenario formula: every other scenario's value.
  unfoldable pub scenario_variables : String → String → String → Dict (ScenarioData F) → Row F
  scenario_variables scenario_key dim_key metric_key [] = []
  scenario_variables scenario_key dim_key metric_key ((scen_name, scen_data) ∷ results) =
      let rest = scenario_variables scenario_key dim_key metric_key results in
      if scen_name == scenario_key
      then rest
      else (scen_name, value_at dim_key metric_key scen_data) ∷ rest

  -- The inner loop of `compute_scenario`: the new scenario's row at one dimension key.
  unfoldable pub compute_cells :
      String → String → String → List String → Dict (ScenarioData F) → Row F → Result Error (Row F)
  unfolding scenario_variables evaluate_expression
  compute_cells scenario_key formula dim_key [] results row = ok row
  compute_cells scenario_key formula dim_key (metric_key ∷ metric_keys) results row =
      evaluate_expression formula (scenario_variables scenario_key dim_key metric_key results)
      >>= λ result.
          compute_cells scenario_key formula dim_key metric_keys results (put metric_key result row)

  abbrev pub row_at : String → ScenarioData F → Row F
  row_at dim_key scen_data = elim (lookup dim_key scen_data) [ none ↦ [] | some row ↦ row ]

  unfoldable pub compute_dims :
      String
      → String
      → List String
      → List String
      → Dict (ScenarioData F)
      → ScenarioData F
      → Result Error (ScenarioData F)
  unfolding compute_cells
  compute_dims scenario_key formula metric_keys [] results computed = ok computed
  compute_dims scenario_key formula metric_keys (dim_key ∷ dim_keys) results computed = do
    row ← compute_cells scenario_key formula dim_key metric_keys results (row_at dim_key computed)
    compute_dims scenario_key formula metric_keys dim_keys results (put dim_key row computed)

  -- The dimension keys of all scenarios.
  abbrev pub all_dim_keys : Dict (ScenarioData F) → List String
  all_dim_keys [] = []
  all_dim_keys ((_, scen_data) ∷ results) = union (keys scen_data) (all_dim_keys results)

  unfoldable pub compute_scenario :
      String → String → List String → Dict (ScenarioData F) → Result Error (Dict (ScenarioData F))
  unfolding compute_dims
  compute_scenario scenario_key formula metric_keys results =
      compute_dims scenario_key formula metric_keys (all_dim_keys results) results
        (elim (lookup scenario_key results) [ none ↦ [] | some scen_data ↦ scen_data ])
      >>= λ computed. ok (put scenario_key computed results)

  unfoldable pub derive_all :
      Dict Metric → List String → Dict (ScenarioData F) → Result Error (Dict (ScenarioData F))
  unfolding compute_derived_metrics
  derive_all metrics metric_keys [] = ok []
  derive_all metrics metric_keys ((scenario_key, scenario_data) ∷ results) = do
    derived ← compute_derived_metrics metrics metric_keys scenario_data
    rest ← derive_all metrics metric_keys results
    ok ((scenario_key, derived) ∷ rest)

  -- The computed scenarios, each a key and its formula.
  unfoldable pub compute_all :
      List (String × String)
      → List String
      → Dict (ScenarioData F)
      → Result Error (Dict (ScenarioData F))
  unfolding compute_scenario
  compute_all [] metric_keys results = ok results
  compute_all ((scenario_key, formula) ∷ computed_evals) metric_keys results =
      compute_scenario scenario_key formula metric_keys results
      >>= compute_all computed_evals metric_keys

  unfoldable pub transform :
      Dict Metric
      → List (String × String)
      → List String
      → Dict (ScenarioData F)
      → Result Error (Dict (ScenarioData F))
  unfolding derive_all compute_all
  transform metrics computed_evals metric_keys raw_results =
      derive_all metrics metric_keys raw_results >>= compute_all computed_evals metric_keys

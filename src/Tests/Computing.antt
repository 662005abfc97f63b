-- ===== src/Tests/Computing.antt =====
-- Formulas at concrete inputs, with numbers for floats.
use precis_finance_mcp.Common.{
  ℕ, ◌+◌, ◌-◌, ◌*◌, ◌/◌, String, ◌≡◌, refl, none, some, List, [], ◌∷◌, ◌==◌, if◌then◌else◌, eqb, ok,
  err, Dict,
}
use precis_finance_mcp.Catalogue.{expression}
use precis_finance_mcp.Formulas.{
  Floats, Expr, constant, name, bin_op, if_exp, attribute, BinaryOp, Parser, Metric, base_metric,
  derived_metric, Row, ScenarioData, evaluate_expression, derived_formulas, compute_derived_metrics,
  eval_node,
}
use precis_finance_mcp.Formulas.Agreement.{names}
use precis_finance_mcp.Formulas.Derived.{IsOrdered}

abbrev pub naturals : Floats ℕ
naturals = record {
  add = λ x y. x + y;
  sub = λ x y. x - y;
  mult = λ x y. x * y;
  div = λ x y. x / y;
  neg = λ x. 0 - x;
  abs = λ x. x;
  is_zero = λ x. eqb x 0;
}

abbrev pub parse : Parser ℕ
parse formula =
    if formula == "revenue - cost"
    then some (bin_op BinaryOp.sub (name "revenue") (name "cost"))
    else if formula == "margin / revenue"
    then some (bin_op BinaryOp.div (name "margin") (name "revenue"))
    else none

abbrev pub metrics : Dict Metric
metrics =
    ("revenue", base_metric)
    ∷ ("cost", base_metric)
    ∷ ("margin", derived_metric "revenue - cost")
    ∷ ("rate", derived_metric "margin / revenue")
    ∷ []

abbrev metric_keys : List String
metric_keys = "revenue" ∷ "cost" ∷ "margin" ∷ "rate" ∷ []

abbrev pub data_before : ScenarioData ℕ
data_before =
    ("north", ("revenue", some 8) ∷ ("cost", some 2) ∷ [])
    ∷ ("south", ("revenue", some 0) ∷ ("cost", some 0) ∷ [])
    ∷ []

abbrev pub south_after : Row ℕ
south_after = ("revenue", some 0) ∷ ("cost", some 0) ∷ ("margin", some 0) ∷ ("rate", none) ∷ []

abbrev pub data_after : ScenarioData ℕ
data_after =
    ("north", ("revenue", some 8) ∷ ("cost", some 2) ∷ ("margin", some 6) ∷ ("rate", some 0) ∷ [])
    ∷ ("south", south_after)
    ∷ []

computes : compute_derived_metrics naturals parse metrics metric_keys data_before ≡ ok data_after
unfolding compute_derived_metrics eval_node
computes = refl

no_attributes :
    evaluate_expression naturals (λ _. some (attribute (name "os"))) "os.x" [] ≡ err expression
unfolding evaluate_expression
no_attributes = refl

in_order : IsOrdered naturals parse (derived_formulas naturals parse metrics metric_keys)
unfolding derived_formulas names
in_order = (refl, refl, (refl, refl, tt))

abbrev share_tree : Expr ℕ
share_tree =
    if_exp (name "revenue") (bin_op BinaryOp.div (name "cost") (name "revenue")) (constant 0)

abbrev parse_share : Parser ℕ
parse_share formula =
    if formula == "cost / revenue if revenue else 0" then some share_tree else none

abbrev row : Row ℕ
row = ("revenue", some 2) ∷ ("cost", some 8) ∷ []

takes_branch :
    evaluate_expression naturals parse_share "cost / revenue if revenue else 0" row ≡ ok (some 4)
unfolding evaluate_expression eval_node
takes_branch = refl

leaves_branch :
    evaluate_expression naturals parse_share "cost / revenue if revenue else 0"
      (("revenue", none) ∷ ("cost", some 8) ∷ [])
    ≡ ok (some 0)
unfolding evaluate_expression eval_node
leaves_branch = refl

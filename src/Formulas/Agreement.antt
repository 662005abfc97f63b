-- ===== src/Formulas/Agreement.antt =====
-- A formula's value depends on the variables that it names alone.
use precis_finance_mcp.Common.{
  String, ◌≡◌, refl, arith, true, Option, none, some, List, [], ◌∷◌, ◌++◌, eq_refl, mem, mem-append,
  lookup, Option-cases, inl, inr,
}
use precis_finance_mcp.Formulas.{
  Floats, Expr, Exprs, constant, other_constant, name, unary_op, bin_op, call, if_exp, attribute,
  other_node, end, entry, Row, Parser, eval_node, eval_args, evaluate_expression,
}

module _ {F : Type 0} where
  unfoldable mutual
    -- The variables that evaluation may read.
    pub names : Expr F → List String
    names (constant value) = []
    names other_constant = []
    names (name id) = id ∷ []
    names (unary_op op operand) = names operand
    names (bin_op op left right) = names left ++ names right
    names (call func args keywords) = all_names args
    names (if_exp test body orelse) = names test ++ (names body ++ names orelse)
    names (attribute value) = []
    names (other_node children) = []

    pub all_names : Exprs F → List String
    all_names end = []
    all_names (entry node nodes) = names node ++ all_names nodes

  abbrev pub SameOn : List String → Row F → Row F → Type 0
  SameOn ks v w = (k : String) → mem k ks ≡ true → lookup k v ≡ lookup k w

  left_part : (ks js : List String) (v w : Row F) → SameOn (ks ++ js) v w → SameOn ks v w
  left_part ks js v w same k there = same k (ground (arith, mem-append k ks js))

  right_part : (ks js : List String) (v w : Row F) → SameOn (ks ++ js) v w → SameOn js v w
  right_part ks js v w same k there = same k (ground (arith, mem-append k ks js))

  module _ (floats : Floats F) where
    mutual
      unfolding eval_node names

      pub eval_node-SameOn :
          (e : Expr F) (v w : Row F)
          → SameOn (names e) v w
          → eval_node floats e v ≡ eval_node floats e w
      eval_node-SameOn (constant value) v w same = refl
      eval_node-SameOn other_constant v w same = refl
      eval_node-SameOn (name id) v w same = rw (same id (ground (arith, eq_refl id))) refl
      eval_node-SameOn (unary_op op operand) v w same = rw (eval_node-SameOn operand v w same) refl
      eval_node-SameOn (bin_op op left right) v w same =
          rw
            (
              eval_node-SameOn left v w (left_part (names left) (names right) v w same),
              eval_node-SameOn right v w (right_part (names left) (names right) v w same),
            )
            refl
      eval_node-SameOn (call func args keywords) v w same =
          rw (eval_args-SameOn args keywords v w same) refl
      eval_node-SameOn (if_exp test body orelse) v w same =
          let branches = right_part (names test) (names body ++ names orelse) v w same in
          rw
            (
              eval_node-SameOn test v w
                  (left_part (names test) (names body ++ names orelse) v w same),
              eval_node-SameOn body v w (left_part (names body) (names orelse) v w branches),
              eval_node-SameOn orelse v w (right_part (names body) (names orelse) v w branches),
            )
            refl
      eval_node-SameOn (attribute value) v w same = refl
      eval_node-SameOn (other_node children) v w same = refl

      eval_args-SameOn :
          (args keywords : Exprs F) (v w : Row F)
          → SameOn (all_names args) v w
          → eval_args floats args keywords v ≡ eval_args floats args keywords w
      eval_args-SameOn end keywords v w same = refl
      eval_args-SameOn (entry arg end) end v w same =
          rw (eval_node-SameOn arg v w (left_part (names arg) [] v w same)) refl
      eval_args-SameOn (entry arg end) (entry keyword keywords) v w same = refl
      eval_args-SameOn (entry arg (entry more args)) keywords v w same = refl

    abbrev names_of : Option (Expr F) → List String
    names_of none = []
    names_of (some tree) = names tree

    abbrev pub formula_names : Parser F → String → List String
    formula_names parse formula = names_of (parse formula)

    -- Two rows that agree on the variables that the formula names, in the parts that can be
    -- evaluated, give it the same value, or the same error.
    pub evaluate_expression-SameOn :
        (parse : Parser F) (formula : String) (v w : Row F)
        → SameOn (formula_names parse formula) v w
        → evaluate_expression floats parse formula v ≡ evaluate_expression floats parse formula w
    unfolding evaluate_expression
    evaluate_expression-SameOn parse formula v w same = elim (Option-cases (parse formula)) [
      | inl broken ↦ rw (evaluate_expression, broken) refl
      | inr (tree, parsed) ↦
          rw (evaluate_expression, parsed, eval_node-SameOn tree v w (rw parsed at same)) refl
    ]

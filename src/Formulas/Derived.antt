-- ===== src/Formulas/Derived.antt =====
-- `compute_derived_metrics` leaves every derived metric equal to its formula at the final row.
use precis_finance_mcp.Common.{
  String, ◌≡◌, arith, Bool, true, false, Option, some, some-inj, List, [], ◌∷◌, ◌==◌, eq_iff,
  eq_refl, mem, all, not, &&-eq-true, Dict, lookup, put, lookup-put, keys, ok, >>=-eq-ok,
  ok-injective, ap, sym, ◌∙◌, subst, Bool-cases, text_cases, inl, inr,
}
use precis_finance_mcp.Formulas.{
  Floats, Row, ScenarioData, Parser, Metric, evaluate_expression, derived_formulas, compute_row,
  compute_rows, compute_derived_metrics,
}
use precis_finance_mcp.Formulas.Agreement.{SameOn, formula_names, evaluate_expression-SameOn}

all-member :
    (p : String → Bool) (xs : List String) (x : String)
    → all p xs ≡ true
    → mem x xs ≡ true
    → p x ≡ true
all-member p [] x h there = cc
all-member p (y ∷ xs) x h there = elim (text_cases y x) [
  | inl (e, _) ↦ subst (λ (z : String). p z ≡ true) e (&&-eq-true (p y) (all p xs) h).0
  | inr other ↦ all-member p xs x (&&-eq-true (p y) (all p xs) h).1 (rw other at there)
]

module _ {F : Type 0} (floats : Floats F) (parse : Parser F) where
  -- No formula names its own metric or a later one, and no metric comes twice.
  abbrev pub IsOrdered : Dict String → Type 0
  IsOrdered [] = Unit
  IsOrdered ((key, formula) ∷ derived) =
      (all (λ k. not (mem k (key ∷ keys derived))) (formula_names floats parse formula) ≡ true)
      × (mem key (keys derived) ≡ false)
      × IsOrdered derived

  compute_row-kept :
      (derived : Dict String) (row : Row F) {after : Row F} (k : String)
      → mem k (keys derived) ≡ false
      → compute_row floats parse derived row ≡ ok after
      → lookup k after ≡ lookup k row
  unfolding compute_row
  compute_row-kept [] row k other h = ap (lookup k) (sym (ok-injective h))
  compute_row-kept ((key, formula) ∷ derived) row k other h =
      let (result, _, rest) = >>=-eq-ok (evaluate_expression floats parse formula row) _ h in
      compute_row-kept derived (put key result row) k (ground arith) rest
      ∙ ground (arith, lookup-put key k result row, eq_iff key k)

  compute_row-fixed :
      (derived : Dict String) (row : Row F) {after : Row F} (key formula : String)
      → IsOrdered derived
      → compute_row floats parse derived row ≡ ok after
      → lookup key derived ≡ some formula
      → (value : Option F) × (lookup key after ≡ some value)
        × (evaluate_expression floats parse formula after ≡ ok value)
  unfolding compute_row
  compute_row-fixed [] row key formula o h there = cc
  compute_row-fixed ((k, f) ∷ derived) row {after} key formula (ahead, once, later) h there =
      let (result, evaluates, rest) = >>=-eq-ok (evaluate_expression floats parse f row) _ h in
      elim (text_cases k key) [
        | inl (e, t) ↦
            let is_f : f ≡ formula = some-inj (rw t at there) in
            let first =
              all-member (λ n. not (mem n (k ∷ keys derived))) (formula_names floats parse f) in
            let unchanged : SameOn (formula_names floats parse f) after row = λ n named.
              compute_row-kept derived (put k result row) n (ground (arith, first n ahead named))
                rest
              ∙ ground (arith, lookup-put k n result row, first n ahead named, eq_iff k n) in
            (
              result,
              rw (← e) (
                  compute_row-kept derived (put k result row) k once rest
                  ∙ ground (arith, lookup-put k k result row, eq_refl k)),
              rw (← is_f)
                  (evaluate_expression-SameOn floats parse f after row unchanged ∙ evaluates),
            )
        | inr other ↦
            compute_row-fixed derived (put k result row) key formula later rest (rw other at there)
      ]

  row_of_compute_rows :
      (derived : Dict String) (scenario_data : ScenarioData F) {after : ScenarioData F}
      (dim_key : String) (row : Row F)
      → compute_rows floats parse derived scenario_data ≡ ok after
      → lookup dim_key after ≡ some row
      → (before : Row F) × (compute_row floats parse derived before ≡ ok row)
  unfolding compute_rows
  row_of_compute_rows derived [] dim_key row h there = cc (rw (← ok-injective h) at there)
  row_of_compute_rows derived ((k, before) ∷ scenario_data) dim_key row h there =
      let (r, own, h₁) = >>=-eq-ok (compute_row floats parse derived before) _ h in
      let (rows, others, answer) =
        >>=-eq-ok (compute_rows floats parse derived scenario_data) _ h₁ in
      let found = rw (← ok-injective answer) at there in
      elim (Bool-cases (k == dim_key)) [
        | inl here ↦ (before, own ∙ ap (λ (o : Row F). ok o) (some-inj (rw here at found)))
        | inr past ↦ row_of_compute_rows derived scenario_data dim_key row others (rw past at found)
      ]

  -- If the derived metrics among the keys are in dependency order, each once, and their computation
  -- ends without an error: in every row of the result, every derived metric has a value, and it is
  -- what its formula gives at that same final row.
  pub compute_derived_metrics-fixed :
      (metrics : Dict Metric) (metric_keys : List String) (scenario_data after : ScenarioData F)
      (dim_key key formula : String) (row : Row F)
      → IsOrdered (derived_formulas floats parse metrics metric_keys)
      → compute_derived_metrics floats parse metrics metric_keys scenario_data ≡ ok after
      → lookup dim_key after ≡ some row
      → lookup key (derived_formulas floats parse metrics metric_keys) ≡ some formula
      → (value : Option F) × (lookup key row ≡ some value)
        × (evaluate_expression floats parse formula row ≡ ok value)
  unfolding compute_derived_metrics
  compute_derived_metrics-fixed metrics metric_keys scenario_data after dim_key key formula row
        ordered h there derived =
      let (before, own) =
        row_of_compute_rows (derived_formulas floats parse metrics metric_keys) scenario_data
          dim_key row h there in
      compute_row-fixed (derived_formulas floats parse metrics metric_keys) before key formula
        ordered own derived

-- ===== src/Tests/Stating.antt =====
-- Statements at concrete inputs.
use precis_finance_mcp.Common.{
  ℕ, String, ◌≡◌, refl, arith, none, some, List, [], ◌∷◌, ◌==◌, if◌then◌else◌, Dict, ok, err,
  text_cases, inl, inr, ap, sym, subst, some-inj,
}
use precis_finance_mcp.Catalogue.{catalogue_error}
use precis_finance_mcp.Statements.{
  Statement, resolve_statement, IsFounded, GoesDown, resolve_statement-ends,
}

abbrev of_lines : List String → Statement
of_lines lines = record { lines = some lines; concat = none }

abbrev of_statements : List String → Statement
of_statements entries = record { lines = none; concat = some entries }

abbrev statements : Dict Statement
statements =
    ("income", of_lines ("revenue" ∷ "cost" ∷ []))
    ∷ ("full", of_statements ("income" ∷ "separator" ∷ "income" ∷ []))
    ∷ []

expands :
    resolve_statement statements "full"
    ≡ ok ("revenue" ∷ "cost" ∷ "separator" ∷ "revenue" ∷ "cost" ∷ [])
unfolding resolve_statement
expands = refl

refuses_circle :
    resolve_statement (("a", of_statements ("b" ∷ [])) ∷ ("b", of_statements ("a" ∷ [])) ∷ []) "a"
    ≡ err catalogue_error
unfolding resolve_statement
refuses_circle = refl

abbrev rank : String → ℕ
rank name = if name == "full" then 1 else 0

founded : IsFounded rank statements
founded name stmt found no_lines = elim (text_cases "income" name) [
  | inl (_, t) ↦ cc (rw t at found)
  | inr a ↦ elim (text_cases "full" name) [
    | inl (e, t) ↦ (
      "income" ∷ "separator" ∷ "income" ∷ [],
      ap (λ (s : Statement). s.concat) (sym (some-inj (rw (a, t) at found))),
      subst
          (λ (x : String).
            GoesDown rank statements (rank x) ("income" ∷ "separator" ∷ "income" ∷ []))
          e ((refl, (λ s. omega arith), (refl, (λ s. cc), (refl, (λ s. omega arith), tt)))),
    )
    | inr b ↦ cc (rw (a, b) at found)
  ]
]

resolve_statement-ends_example :
    (items : List String) × (resolve_statement statements "full" ≡ ok items)
resolve_statement-ends_example = resolve_statement-ends rank statements founded "full" refl

-- ===== src/Statements.antt =====
-- `resolve_statement` (precis_mcp/engine/catalogue.py): a statement's metrics, with the statements that
-- it is composed of in their places.
use precis_finance_mcp.Common.{
  ℕ, ◌+◌, ◌<◌, zero, suc, String, ◌≡◌, refl, arith, true, false, not, ◌||◌, Option, none, some,
  List, [], ◌∷◌, ◌++◌, ◌==◌, eq_iff, if◌then◌else◌, is_set, mem, Dict, lookup, has_key,
  lookup-has_key, keys, mem-keys, Result, ok, err, ◌>>=◌, ◌>>◌, raise_if, Bool-cases, Option-cases,
  inl, inr, text_cases, subst, ap, sym, ◌∙◌,
}
use precis_finance_mcp.Catalogue.{Error, catalogue_error, missing_key, assertion}
use precis_finance_mcp.Resolver.{size}
use precis_finance_mcp.Resolver.Counting.{Within, size-Within}

-- A statement has lines, or the names of other statements; its name, label and description are left
-- out, since nothing here reads them.
pub record Statement : Type 0 where
  pub lines : Option (List String)
  pub concat : Option (List String)

-- The loop over `stmt.concat`, with `_resolve` as it is called on an entry.
unfoldable pub resolve_entries :
    (String → Result Error (List String)) → List String → Result Error (List String)
resolve_entries resolve [] = ok []
resolve_entries resolve (entry ∷ entries) = do
  part ← if entry == "separator" then ok ("separator" ∷ []) else resolve entry
  rest ← resolve_entries resolve entries
  ok (part ++ rest)

unfoldable pub resolve_body :
    (String → Result Error (List String)) → Statement → Result Error (List String)
unfolding resolve_entries
resolve_body resolve stmt = elim stmt.lines [
  | some lines ↦ ok lines
  | none ↦ elim stmt.concat [ none ↦ err assertion | some concat ↦ resolve_entries resolve concat ]
]

-- `_resolve` on fuel; the names that are being resolved differ, so there are at most as many as
-- statements.
unfoldable pub resolve_within :
    ℕ → Dict Statement → List String → String → Result Error (List String)
unfolding resolve_body
resolve_within zero statements visiting name = err assertion
resolve_within (suc fuel) statements visiting name = elim (mem name visiting) [
  | true ↦ err catalogue_error
  | false ↦ elim (lookup name statements) [
    | none ↦ err missing_key
    | some stmt ↦ resolve_body (resolve_within fuel statements (name ∷ visiting)) stmt
  ]
]

unfoldable pub resolve_statement : Dict Statement → String → Result Error (List String)
unfolding resolve_within
resolve_statement statements statement_name =
    raise_if (not (has_key statement_name statements)) catalogue_error
    >> resolve_within (suc (size statements)) statements [] statement_name

size-keys : (statements : Dict Statement) → size (keys statements) ≡ size statements
size-keys [] = refl
size-keys (e ∷ statements) = ap suc (size-keys statements)

-- Every entry is a separator, or a statement of a lower rank.
abbrev pub GoesDown : (String → ℕ) → Dict Statement → ℕ → List String → Type 0
GoesDown rank statements n [] = Unit
GoesDown rank statements n (entry ∷ entries) =
    ((entry == "separator" || has_key entry statements) ≡ true)
    × ((entry == "separator") ≡ false → rank entry < n)
    × GoesDown rank statements n entries

-- A statement has lines, or entries that go down.
abbrev pub IsFounded : (String → ℕ) → Dict Statement → Type 0
IsFounded rank statements =
    (name : String) (stmt : Statement)
    → lookup name statements ≡ some stmt
    → stmt.lines ≡ none
    → (concat : List String) × (stmt.concat ≡ some concat)
      × GoesDown rank statements (rank name) concat

module _ (rank : String → ℕ) (statements : Dict Statement)
    (founded : IsFounded rank statements) where
  abbrev Above : ℕ → List String → Type 0
  Above n visiting = (v : String) → mem v visiting ≡ true → n < rank v

  resolve_entries-ends :
      (resolve : String → Result Error (List String)) (n : ℕ) (entries : List String)
      → ((entry : String)
          → has_key entry statements ≡ true
          → rank entry < n
          → (items : List String) × (resolve entry ≡ ok items))
      → GoesDown rank statements n entries
      → (items : List String) × (resolve_entries resolve entries ≡ ok items)
  unfolding resolve_entries
  resolve_entries-ends resolve n [] each down = ([], refl)
  resolve_entries-ends resolve n (entry ∷ entries) each (known, lower, later) =
      let (rest, ends) = resolve_entries-ends resolve n entries each later in
      elim (Bool-cases (entry == "separator")) [
        | inl separator ↦ ("separator" ∷ rest, rw (separator, ◌>>=◌, ends) refl)
        | inr other ↦
            let (part, own) = each entry (rw other at known) (lower other) in
            (part ++ rest, rw (other, own, ◌>>=◌, ends) refl)
      ]

  resolve_body-ends :
      (resolve : String → Result Error (List String)) (name : String) (stmt : Statement)
      → lookup name statements ≡ some stmt
      → ((entry : String)
          → has_key entry statements ≡ true
          → rank entry < rank name
          → (items : List String) × (resolve entry ≡ ok items))
      → (items : List String) × (resolve_body resolve stmt ≡ ok items)
  unfolding resolve_body
  resolve_body-ends resolve name stmt found each = elim (Option-cases stmt.lines) [
    | inr (lines, own) ↦ (lines, rw (resolve_body, own) refl)
    | inl no_lines ↦
        let (concat, own, down) = founded name stmt found no_lines in
        rw (resolve_body, no_lines, own) (resolve_entries-ends resolve (rank name) concat each down)
  ]

  Above-next :
      (name entry : String) (visiting : List String)
      → Above (rank name) visiting
      → rank entry < rank name
      → Above (rank entry) (name ∷ visiting)
  Above-next name entry visiting above lower v listed = elim (text_cases name v) [
    | inl (e, _) ↦ subst (λ (x : String). rank entry < rank x) e lower
    | inr other ↦ omega (arith, above v (rw other at listed), lower)
  ]

  resolve_within-ends :
      (fuel : ℕ) (visiting : List String) (name : String)
      → size statements < fuel + size visiting
      → is_set visiting ≡ true
      → Within visiting (keys statements)
      → Above (rank name) visiting
      → has_key name statements ≡ true
      → (items : List String) × (resolve_within fuel statements visiting name ≡ ok items)
  unfolding resolve_within
  resolve_within-ends zero visiting name enough once inside above known =
      absurd
        (omega (arith, size-Within visiting (keys statements) once inside, size-keys statements))
  resolve_within-ends (suc fuel) visiting name enough once inside above known =
      elim (Bool-cases (mem name visiting)) [
        | inl again ↦ absurd (omega (arith, above name again))
        | inr fresh ↦ elim (Option-cases (lookup name statements)) [
          | inl unknown ↦ cc (rw unknown at (sym (lookup-has_key name statements) ∙ known))
          | inr (stmt, found) ↦
              let visiting' = name ∷ visiting in
              rw (fresh, resolve_within, found)
                (resolve_body-ends (resolve_within fuel statements visiting') name stmt found
                  (λ entry there lower.
                    resolve_within-ends fuel visiting' entry (omega arith)
                      (ground (arith, fresh, once))
                      (λ v listed.
                        ground (arith, inside v, eq_iff name v, mem-keys v statements, known))
                      (λ v listed. Above-next name entry visiting above lower v listed) there))
        ]
      ]

  -- If statements refer down in some ranking to statements that are there, so that they go in no circle,
  -- and a statement without lines has entries, then every statement that is there resolves.
  pub resolve_statement-ends :
      (statement_name : String)
      → has_key statement_name statements ≡ true
      → (items : List String) × (resolve_statement statements statement_name ≡ ok items)
  unfolding resolve_statement
  resolve_statement-ends statement_name known =
      rw (known, resolve_statement, ◌>>=◌)
        (resolve_within-ends (suc (size statements)) [] statement_name (omega arith) refl
          (λ v listed. cc) (λ v listed. cc) known)

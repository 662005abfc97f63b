-- ===== src/Locks/Cells.antt =====
-- A cell is locked exactly when it lies within some lock condition of its scenario.
use precis_finance_mcp.Common.{
  String, ◌≡◌, refl, arith, true, false, ◌||◌, ◌↔◌, ◌⊎◌, inl, inr, Option, none, some, List, [],
  ◌∷◌, ◌==◌, if◌then◌else◌, is_empty, mem, Dict, lookup, has_key, Distinct, put-Distinct, Result,
  ok, >>=-eq-ok, ok-injective, ◌∙◌, sym, Bool-cases, text_cases, subst, eq_refl,
}
use precis_finance_mcp.Catalogue.{Error, Catalogue, Client}
use precis_finance_mcp.Filters.{resolve_single_value}
use precis_finance_mcp.Scope.{items_of}
use precis_finance_mcp.Locks.Conditions.{
  condition_reaches, condition_lists, entries_reach, periods_of, resolve_lock_condition-unites,
}
use precis_finance_mcp.Locks.{
  LockValue, one, many, LockCondition, add_leaves, try_resolve, collect_values, add_union,
  add_found, resolve_entry, is_special, resolve_entries, with_periods, resolve_lock_condition,
  load_scenario_locks, resolve_conditions, resolve_scenario_locks, matches_all_dims, is_cell_locked,
}
use precis_finance_mcp.Locks.Matching.{matches_all_dims-Matches, true_of_Matches}

add_leaves-Distinct :
    (l : String) (leaves : List String) (resolved : Dict (List String))
    → Distinct resolved
    → Distinct (add_leaves l leaves resolved)
unfolding add_leaves
add_leaves-Distinct l leaves resolved d = put-Distinct l _ resolved d

add_union-Distinct :
    (l : Option String) (all : List String) (resolved : Dict (List String))
    → Distinct resolved
    → Distinct (add_union l all resolved)
unfolding add_union
add_union-Distinct none all resolved d = d
add_union-Distinct (some l) all resolved d = elim (Bool-cases (l == "" || is_empty all)) [
  | inl skipped ↦ rw (skipped, add_union) d
  | inr added ↦ rw (added, add_union) (add_leaves-Distinct l all resolved d)
]

add_found-Distinct :
    (found : Option (String × List String)) (resolved : Dict (List String))
    → Distinct resolved
    → Distinct (add_found found resolved)
unfolding add_found
add_found-Distinct none resolved d = d
add_found-Distinct (some r) resolved d = add_leaves-Distinct r.0 _ resolved d

is_empty_of_key : (k : String) (d : Dict (List String)) → has_key k d ≡ true → is_empty d ≡ false
is_empty_of_key k [] h = cc
is_empty_of_key k (e ∷ d) h = refl

module _ (catalogue : Catalogue) (client : Client) where
  resolve_entry-Distinct :
      (key : String) (value : LockValue) (resolved : Dict (List String))
      {after : Dict (List String)}
      → Distinct resolved
      → resolve_entry key value catalogue client resolved ≡ ok after
      → Distinct after
  unfolding resolve_entry
  resolve_entry-Distinct key (one v) resolved d h =
      let (found, _, answer) =
        >>=-eq-ok (try_resolve (resolve_single_value key v catalogue client)) _ h in
      subst Distinct (ok-injective answer) (add_found-Distinct found resolved d)
  resolve_entry-Distinct key (many vs) resolved d h =
      let (c, _, answer) = >>=-eq-ok (collect_values key vs catalogue client none []) _ h in
      subst Distinct (ok-injective answer) (add_union-Distinct c.0 c.1 resolved d)

  resolve_entries-Distinct :
      (entries : Dict LockValue) (resolved : Dict (List String)) {after : Dict (List String)}
      → Distinct resolved
      → resolve_entries entries catalogue client resolved ≡ ok after
      → Distinct after
  unfolding resolve_entries
  resolve_entries-Distinct [] resolved d h = subst Distinct (ok-injective h) d
  resolve_entries-Distinct ((key, value) ∷ entries) resolved d h =
      elim (Bool-cases (is_special key)) [
        | inl special ↦ resolve_entries-Distinct entries resolved d (rw special at h)
        | inr plain ↦
            let (next, own, rest) =
              >>=-eq-ok (resolve_entry key value catalogue client resolved) _ (rw plain at h) in
            resolve_entries-Distinct entries next (resolve_entry-Distinct key value resolved d own)
              rest
      ]

  with_periods-Distinct : (o : Option (List String)) → Distinct (with_periods o)
  with_periods-Distinct none = tt
  with_periods-Distinct (some ids) = (refl, tt)

  resolve_lock_condition-Distinct :
      (c : LockCondition) {resolved : Dict (List String)}
      → resolve_lock_condition c catalogue client ≡ ok resolved
      → Distinct resolved
  unfolding resolve_lock_condition
  resolve_lock_condition-Distinct c h =
      let (periods, _, rest) = >>=-eq-ok (periods_of catalogue client "" c) _ h in
      resolve_entries-Distinct c.entries (with_periods periods) (with_periods-Distinct periods) rest

  -- No value of the condition reaches a leaf dimension without a name.
  abbrev pub IsNamed : LockCondition → Type 0
  IsNamed c = entries_reach catalogue client "" c.entries ≡ false

  -- The condition restricts something, and the cell lies within it.
  abbrev pub Covers : Dict String → LockCondition → Type 0
  Covers cell c =
      ((leaf : String) × (condition_reaches catalogue client leaf c ≡ true))
      × ((leaf : String)
          → condition_reaches catalogue client leaf c ≡ true
          → (x : String) × (lookup leaf cell ≡ some x)
            × (condition_lists catalogue client leaf c x ≡ true))

  abbrev pub AllNamed : List LockCondition → Type 0
  AllNamed [] = Unit
  AllNamed (c ∷ cs) = IsNamed c × AllNamed cs

  abbrev pub SomeCovers : Dict String → List LockCondition → Type 0
  SomeCovers cell [] = ⊥
  SomeCovers cell (c ∷ cs) = Covers cell c ⊎ SomeCovers cell cs

  unites :
      (c : LockCondition) (leaf : String) {resolved : Dict (List String)}
      → IsNamed c
      → resolve_lock_condition c catalogue client ≡ ok resolved
      → (has_key leaf resolved ≡ condition_reaches catalogue client leaf c)
        × ((x : String)
            → mem x (items_of (lookup leaf resolved)) ≡ condition_lists catalogue client leaf c x)
  unites c leaf named h =
      resolve_lock_condition-unites catalogue client leaf c
        (elim (text_cases leaf "") [ inl (e, t) ↦ rw e named | inr other ↦ rw other refl ]) h

  lock-Covers :
      (cell : Dict String) (c : LockCondition) (k : String) (ids : List String)
      (rest : Dict (List String))
      → IsNamed c
      → resolve_lock_condition c catalogue client ≡ ok ((k, ids) ∷ rest)
      → matches_all_dims cell ((k, ids) ∷ rest) ≡ true
      → Covers cell c
  lock-Covers cell c k ids rest named h m = (
    (k, sym (unites c k named h).0 ∙ ground (arith, eq_refl k)),
    λ leaf reached.
        let (has, lists) = unites c leaf named h in
        let (x, found, listed) =
          matches_all_dims-Matches cell ((k, ids) ∷ rest) m leaf (has ∙ reached) in
        (x, found, sym (lists x) ∙ listed),
  )

  lock_of_Covers :
      (cell : Dict String) (c : LockCondition) {resolved : Dict (List String)}
      → IsNamed c
      → resolve_lock_condition c catalogue client ≡ ok resolved
      → Covers cell c
      → (is_empty resolved ≡ false) × (matches_all_dims cell resolved ≡ true)
  lock_of_Covers cell c {resolved} named h ((leaf, reached), within) = (
    is_empty_of_key leaf resolved ((unites c leaf named h).0 ∙ reached),
    true_of_Matches cell resolved (resolve_lock_condition-Distinct c h) (λ l there.
        let (has, lists) = unites c l named h in
        let (x, found, listed) = within l (sym has ∙ there) in (x, found, lists x ∙ listed)),
  )

  first_or_later :
      (cell : Dict String) (c : LockCondition) (r : Dict (List String)) (Later : Type 0)
      (locks : List (Dict (List String)))
      → IsNamed c
      → resolve_lock_condition c catalogue client ≡ ok r
      → (is_cell_locked cell locks ≡ true → Later)
      → is_cell_locked cell (if is_empty r then locks else r ∷ locks) ≡ true
      → Covers cell c ⊎ Later
  unfolding is_cell_locked
  first_or_later cell c [] Later locks named own later locked = inr (later locked)
  first_or_later cell c ((k, ids) ∷ rest) Later locks named own later locked =
      elim (Bool-cases (matches_all_dims cell ((k, ids) ∷ rest))) [
        | inl matches ↦ inl (lock-Covers cell c k ids rest named own matches)
        | inr misses ↦ inr (later (ground arith))
      ]

  locked-SomeCovers :
      (cell : Dict String) (raw_locks : List LockCondition) {locks : List (Dict (List String))}
      → AllNamed raw_locks
      → resolve_conditions raw_locks catalogue client ≡ ok locks
      → is_cell_locked cell locks ≡ true
      → SomeCovers cell raw_locks
  unfolding resolve_conditions is_cell_locked
  locked-SomeCovers cell [] named h locked = cc (rw (← ok-injective h) at locked)
  locked-SomeCovers cell (c ∷ raw_locks) named h locked =
      let (r, own, h₁) = >>=-eq-ok (resolve_lock_condition c catalogue client) _ h in
      let (locks, others, answer) =
        >>=-eq-ok (resolve_conditions raw_locks catalogue client) _ h₁ in
      let later = locked-SomeCovers cell raw_locks {locks = locks} named.1 others in
      first_or_later cell c r (SomeCovers cell raw_locks) locks named.0 own later
        (rw (← ok-injective answer) at locked)

  locked_of_SomeCovers :
      (cell : Dict String) (raw_locks : List LockCondition) {locks : List (Dict (List String))}
      → AllNamed raw_locks
      → resolve_conditions raw_locks catalogue client ≡ ok locks
      → SomeCovers cell raw_locks
      → is_cell_locked cell locks ≡ true
  unfolding resolve_conditions is_cell_locked
  locked_of_SomeCovers cell [] named h covers = absurd covers
  locked_of_SomeCovers cell (c ∷ raw_locks) named h covers =
      let (r, own, h₁) = >>=-eq-ok (resolve_lock_condition c catalogue client) _ h in
      let (locks, others, answer) =
        >>=-eq-ok (resolve_conditions raw_locks catalogue client) _ h₁ in
      rw (← ok-injective answer) (elim covers [
        | inl here ↦
            let (restricts, matches) = lock_of_Covers cell c named.0 own here in
            rw (restricts, matches) refl
        | inr there ↦
            ground (arith, locked_of_SomeCovers cell raw_locks {locks = locks} named.1 others there)
      ])

  -- Where the lock conditions of a scenario resolve, and none of their values reaches a leaf dimension
  -- without a name: a cell is locked exactly when some condition restricts a leaf dimension and, on
  -- every leaf dimension that it restricts, the cell has a value that the condition lists there.
  pub is_cell_locked-SomeCovers :
      (get_locks_metadata : String → Result Error (Option (List LockCondition)))
      (scenario_id : String) (cell : Dict String) {locks : List (Dict (List String))}
      → AllNamed (load_scenario_locks get_locks_metadata scenario_id)
      → resolve_scenario_locks get_locks_metadata scenario_id catalogue client ≡ ok locks
      → (is_cell_locked cell locks ≡ true)
        ↔ SomeCovers cell (load_scenario_locks get_locks_metadata scenario_id)
  unfolding resolve_scenario_locks
  is_cell_locked-SomeCovers get_locks_metadata scenario_id cell named h = (
    locked-SomeCovers cell (load_scenario_locks get_locks_metadata scenario_id) named h,
    locked_of_SomeCovers cell (load_scenario_locks get_locks_metadata scenario_id) named h,
  )

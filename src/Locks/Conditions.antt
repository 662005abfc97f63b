-- ===== src/Locks/Conditions.antt =====
-- What a lock condition resolves to: for each leaf dimension that a key of the condition reaches,
-- the IDs that some key reaching it lists.
use precis_finance_mcp.Common.{
  String, ◌≡◌, refl, arith, Bool, true, false, ◌&&◌, ◌||◌, Option, none, some, List, [], ◌∷◌, ◌==◌,
  eq_iff, if◌then◌else◌, mem, any, to_set, mem-to_set, union, mem-union, Dict, lookup, has_key,
  lookup-put, has_key-put, Result, ok, >>=-eq-ok, ok-injective, ◌∙◌, ap, inl, inr, Bool-cases,
  Option-cases,
}
use precis_finance_mcp.Catalogue.{Error, Catalogue, Client}
use precis_finance_mcp.Filters.{resolve_single_value}
use precis_finance_mcp.Scope.{items_of}
use precis_finance_mcp.Locks.Values.{
  value_reaches, value_lists, adds, adds_key, Agrees, passed_over, taken, collect_values-Collects,
}
use precis_finance_mcp.Locks.{
  LockValue, one, many, LockCondition, truthy, period_set, add_leaves, try_resolve, collect_values,
  add_union, add_found, resolve_entry, is_special, resolve_entries, with_periods,
  resolve_lock_condition,
}

module _ (catalogue : Catalogue) (client : Client) (leaf : String) where
  abbrev pub values_of : LockValue → List String
  values_of (one v) = v ∷ []
  values_of (many vs) = vs

  -- The entries of a condition, but the special ones.
  abbrev pub entries_reach : Dict LockValue → Bool
  entries_reach [] = false
  entries_reach ((key, value) ∷ entries) =
      if is_special key
      then entries_reach entries
      else any
          (λ v. value_reaches catalogue client leaf (resolve_single_value key v catalogue client))
          (values_of value)
        || entries_reach entries

  abbrev pub entries_list : String → Dict LockValue → Bool
  entries_list x [] = false
  entries_list x ((key, value) ∷ entries) =
      if is_special key
      then entries_list x entries
      else any
          (λ v. value_lists catalogue client leaf x (resolve_single_value key v catalogue client))
          (values_of value)
        || entries_list x entries

  abbrev pub lists_in : Dict (List String) → String → Bool
  lists_in resolved x = mem x (items_of (lookup leaf resolved))

  lists_in-add_leaves :
      (l : String) (leaves : List String) (resolved : Dict (List String)) (x : String)
      → lists_in (add_leaves l leaves resolved) x
        ≡ (lists_in resolved x || (l == leaf && mem x leaves))
  unfolding add_leaves
  lists_in-add_leaves l leaves resolved x = elim (Option-cases (lookup l resolved)) [
    | inl free ↦ rw (free, add_leaves, lookup-put) (ground (arith, eq_iff l leaf, free))
    | inr (ids, there) ↦
        rw (there, add_leaves, lookup-put)
          (ground (arith, eq_iff l leaf, there, mem-union x ids leaves))
  ]

  has_key-add_leaves :
      (l : String) (leaves : List String) (resolved : Dict (List String))
      → has_key leaf (add_leaves l leaves resolved) ≡ (has_key leaf resolved || l == leaf)
  unfolding add_leaves
  has_key-add_leaves l leaves resolved = ground (
    arith,
    has_key-put l leaf (elim (lookup l resolved) [ none ↦ leaves | some ids ↦ union ids leaves ])
        resolved,
  )

  abbrev Adds : Dict (List String) → Bool → (String → Bool) → Dict (List String) → Type 0
  Adds before reaches lists resolved =
      (has_key leaf resolved ≡ (has_key leaf before || reaches))
      × ((x : String) → lists_in resolved x ≡ (lists_in before x || lists x))

  add_union-Adds :
      (key : String) (l : Option String) (all : List String) (resolved : Dict (List String))
      → (leaf == "" && adds_key catalogue client leaf l) ≡ false
      → Agrees catalogue client leaf key l all
      → Adds resolved
          (adds_key catalogue client leaf l)
          (adds catalogue client leaf l all)
          (add_union l all resolved)
  unfolding add_union
  add_union-Adds key none all resolved named a = (ground arith, λ x. ground arith)
  add_union-Adds key (some l) all resolved named a = elim (Bool-cases (l == "")) [
    | inl unnamed ↦
        let elsewhere : (l == leaf) ≡ false =
          ground (arith, eq_iff l "", eq_iff l leaf, eq_iff leaf "") in
        rw (unnamed, add_union, elsewhere) (ground arith, λ x. ground arith)
    | inr other ↦
        rw (other, add_union, a.1)
          (has_key-add_leaves l all resolved, λ x. lists_in-add_leaves l all resolved x)
  ]

  resolve_entry-Adds :
      (key : String) (value : LockValue) (resolved : Dict (List String))
      {after : Dict (List String)}
      → (leaf == ""
          && any
              (λ v.
                value_reaches catalogue client leaf (resolve_single_value key v catalogue client))
              (values_of value))
        ≡ false
      → resolve_entry key value catalogue client resolved ≡ ok after
      → Adds resolved
          (any
            (λ v. value_reaches catalogue client leaf (resolve_single_value key v catalogue client))
            (values_of value))
          (λ x.
            any
              (λ v.
                value_lists catalogue client leaf x (resolve_single_value key v catalogue client))
              (values_of value))
          after
  unfolding resolve_entry add_found
  resolve_entry-Adds key (many values) resolved named h =
      let (c, collected, answer) =
        >>=-eq-ok (collect_values key values catalogue client none []) _ h in
      let (agrees, keyed, listed) =
        collect_values-Collects catalogue client leaf key values none [] refl collected in
      let (there, lists) = add_union-Adds key c.0 c.1 resolved (ground (arith, keyed)) agrees in
      rw (← ok-injective answer)
        (ground (arith, there, keyed), λ x. ground (arith, lists x, listed x))
  resolve_entry-Adds key (one v) resolved named h =
      let (tried, is_tried, answer) =
        >>=-eq-ok (try_resolve (resolve_single_value key v catalogue client)) _ h in
      elim (Option-cases tried) [
        | inl is_none ↦
            let (unreached, unlisted) =
              passed_over catalogue client leaf (resolve_single_value key v catalogue client)
                (is_tried ∙ ap (λ (o : Option (String × List String)). ok o) is_none) in
            rw (← ok-injective answer, is_none)
              (ground (arith, unreached), λ x. ground (arith, unlisted x))
        | inr (r, is_some) ↦
            let found =
              taken catalogue client leaf (resolve_single_value key v catalogue client)
                (is_tried ∙ ap (λ (o : Option (String × List String)). ok o) is_some) in
            rw (← ok-injective answer, is_some)
              (
                ground (arith, has_key-add_leaves r.0 (to_set r.1) resolved, found),
                λ x. ground (
                  arith,
                  lists_in-add_leaves r.0 (to_set r.1) resolved x,
                  mem-to_set x r.1,
                  found,
                ),
              )
      ]

  resolve_entries-Adds :
      (entries : Dict LockValue) (resolved : Dict (List String)) {after : Dict (List String)}
      → (leaf == "" && entries_reach entries) ≡ false
      → resolve_entries entries catalogue client resolved ≡ ok after
      → Adds resolved (entries_reach entries) (λ x. entries_list x entries) after
  unfolding resolve_entries
  resolve_entries-Adds [] resolved named h = rw (← ok-injective h) (ground arith, λ x. ground arith)
  resolve_entries-Adds ((key, value) ∷ entries) resolved named h =
      elim (Bool-cases (is_special key)) [
        | inl special ↦
            rw special
              (resolve_entries-Adds entries resolved (rw special at named) (rw special at h))
        | inr plain ↦
            let (next, own, rest) =
              >>=-eq-ok (resolve_entry key value catalogue client resolved) _ (rw plain at h) in
            let (there, lists) = resolve_entry-Adds key value resolved (ground arith) own in
            let (later, listed) = resolve_entries-Adds entries next (ground arith) rest in
            rw plain (ground (arith, there, later), λ x. ground (arith, lists x, listed x))
      ]

  -- The periods of the two bounds.
  abbrev pub periods_of : LockCondition → Result Error (Option (List String))
  periods_of c = period_set (truthy c.period_from) (truthy c.period_to) catalogue client

  abbrev pub has_periods : Result Error (Option (List String)) → Bool
  has_periods (ok (some ids)) = true
  has_periods _ = false

  abbrev pub in_periods : String → Result Error (Option (List String)) → Bool
  in_periods x (ok (some ids)) = mem x ids
  in_periods x _ = false

  abbrev pub condition_reaches : LockCondition → Bool
  condition_reaches c = leaf == "period" && has_periods (periods_of c) || entries_reach c.entries

  abbrev pub condition_lists : LockCondition → String → Bool
  condition_lists c x = leaf == "period" && in_periods x (periods_of c) || entries_list x c.entries

  has_key-with_periods :
      (o : Option (List String))
      → has_key leaf (with_periods o) ≡ (leaf == "period" && has_periods (ok o))
  has_key-with_periods none = ground arith
  has_key-with_periods (some ids) = ground (arith, eq_iff leaf "period", eq_iff "period" leaf)

  lists_in-with_periods :
      (o : Option (List String)) (x : String)
      → lists_in (with_periods o) x ≡ (leaf == "period" && in_periods x (ok o))
  lists_in-with_periods none x = ground arith
  lists_in-with_periods (some ids) x = ground (arith, eq_iff leaf "period", eq_iff "period" leaf)

  -- If a condition resolves, and the leaf dimension has a name or no value reaches it: the resolved
  -- condition has the leaf dimension exactly when the bounds or a value reach it, with the IDs that
  -- the bounds or some value reaching it list; a value that does not resolve reaches nothing.
  pub resolve_lock_condition-unites :
      (c : LockCondition) {resolved : Dict (List String)}
      → (leaf == "" && entries_reach c.entries) ≡ false
      → resolve_lock_condition c catalogue client ≡ ok resolved
      → (has_key leaf resolved ≡ condition_reaches c)
        × ((x : String) → mem x (items_of (lookup leaf resolved)) ≡ condition_lists c x)
  unfolding resolve_lock_condition
  resolve_lock_condition-unites c named h =
      let (periods, of_bounds, rest) = >>=-eq-ok (periods_of c) _ h in
      let (there, lists) = resolve_entries-Adds c.entries (with_periods periods) named rest in
      rw of_bounds (
        ground (arith, there, has_key-with_periods periods),
        λ x. ground (arith, lists x, lists_in-with_periods periods x),
      )

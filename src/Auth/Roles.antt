-- ===== src/Auth/Roles.antt =====
-- Which block a tool type's scope is taken from: the lowest declared role at or above the tool
-- type's minimum, whatever the order of the blocks, and never a union of blocks.
use precis_finance_mcp.Common.{
  ℕ, String, ◌≡◌, refl, true, false, Option, [], ◌∷◌, ◌==◌, arith, if◌then◌else◌, leb, ltb, ◌≤◌,
  keep, Dict, lookup, has_key, put, keys, mem-keys, is_none, inl, inr, ◌∙◌, text_cases, Bool-cases,
  sym, Option-cases, ltb→lt,
}
use precis_finance_mcp.Auth.{
  ScopeSpec, RoleBlock, Profile, role_rank, rank_of, parse_blocks, parse_scope,
  resolve_profile_blocks, resolve_profile_for_scenario, max_role, choose_scope, set_scope,
  scopes_of_tools, compute_tool_scopes, tool_type_min_rank,
}
use precis_finance_mcp.Auth.Choice.{
  nearest, IsRole, AllRoles, mem-max_role, choose_read, choose_write, choose_plan_manager,
  choose_above,
}

-- Each of the three entries is found under its own key.
lookup-set_scope_three :
    (a b c : Option (Option ScopeSpec))
    → let ts = set_scope "plan_manager" c (set_scope "write" b (set_scope "read" a [])) in
      (lookup "read" ts ≡ a) × (lookup "write" ts ≡ b) × (lookup "plan_manager" ts ≡ c)
unfolding set_scope
lookup-set_scope_three a b c = ground arith

-- Skipping a tool type that is above every role is choosing nothing for it.
skip_or_set :
    (blocks : Dict (Option ScopeSpec)) (greatest min_rank : ℕ) (t : String)
    (ts : Dict (Option ScopeSpec))
    → AllRoles (keys blocks)
    → ((role : String) → has_key role blocks ≡ true → rank_of role ≤ greatest)
    → (if ltb greatest min_rank
        then ts
        else set_scope t
            (choose_scope blocks (keep (λ role. leb min_rank (rank_of role)) (keys blocks)))
            ts)
      ≡ set_scope t
          (choose_scope blocks (keep (λ role. leb min_rank (rank_of role)) (keys blocks)))
          ts
skip_or_set blocks greatest min_rank t ts known bound = elim (Bool-cases (ltb greatest min_rank)) [
  | inl above ↦
      rw (above, choose_above blocks known min_rank greatest bound (ltb→lt greatest min_rank above))
        (unfold set_scope in refl)
  | inr within ↦ rw within
]

-- The scopes of the three tool types.
abbrev pub AreNearest : Dict (Option ScopeSpec) → Dict (Option ScopeSpec) → Type 0
AreNearest blocks tool_scopes =
    (lookup "read" tool_scopes ≡ nearest ("analyst" ∷ "planner" ∷ "manager" ∷ []) blocks)
    × (lookup "write" tool_scopes ≡ nearest ("planner" ∷ "manager" ∷ []) blocks)
    × (lookup "plan_manager" tool_scopes ≡ nearest ("manager" ∷ []) blocks)

scopes_of_tools-AreNearest :
    (blocks : Dict (Option ScopeSpec)) (greatest : ℕ)
    → AllRoles (keys blocks)
    → ((role : String) → has_key role blocks ≡ true → rank_of role ≤ greatest)
    → AreNearest blocks (scopes_of_tools tool_type_min_rank blocks greatest [])
unfolding scopes_of_tools
scopes_of_tools-AreNearest blocks greatest known bound =
    let skip = λ (m : ℕ) (t : String) (ts : Dict (Option ScopeSpec)).
      skip_or_set blocks greatest m t ts known bound in
    rw (skip 0 "read" [], skip 1 "write" _, skip 2 "plan_manager" _)
      (rw (choose_read blocks known, choose_write blocks known, choose_plan_manager blocks known)
        (lookup-set_scope_three (nearest ("analyst" ∷ "planner" ∷ "manager" ∷ []) blocks)
          (nearest ("planner" ∷ "manager" ∷ []) blocks) (nearest ("manager" ∷ []) blocks)))

compute_tool_scopes-AreNearest :
    (blocks : Dict (Option ScopeSpec))
    → AllRoles (keys blocks)
    → AreNearest blocks (compute_tool_scopes blocks).tool_scopes
unfolding compute_tool_scopes
compute_tool_scopes-AreNearest [] known = (refl, refl, refl)
compute_tool_scopes-AreNearest ((role, scope) ∷ rest) known =
    scopes_of_tools-AreNearest ((role, scope) ∷ rest) (rank_of (max_role role (keys rest))) known
      (λ r there. mem-max_role role (keys rest) r (mem-keys r ((role, scope) ∷ rest) ∙ there))

known-IsRole : (role : String) → is_none (lookup role role_rank) ≡ false → IsRole role
known-IsRole role h = elim (text_cases "analyst" role) [
  | inl (e, _) ↦ inl (sym e)
  | inr ne ↦ elim (text_cases "planner" role) [
    | inl (e, _) ↦ inr (inl (sym e))
    | inr ne' ↦ elim (text_cases "manager" role) [
      | inl (e, _) ↦ inr (inr (sym e))
      | inr ne'' ↦ absurd (ground arith)
    ]
  ]
]

put-AllRoles :
    (role : String) (scope : Option ScopeSpec) (blocks : Dict (Option ScopeSpec))
    → IsRole role
    → AllRoles (keys blocks)
    → AllRoles (keys (put role scope blocks))
put-AllRoles role scope [] h known = (h, tt)
put-AllRoles role scope ((r, s) ∷ blocks) h known = elim (Bool-cases (r == role)) [
  | inl e ↦ rw e known
  | inr e ↦ rw e (known.0, put-AllRoles role scope blocks h known.1)
]

-- Unknown roles are dropped.
parse_blocks-AllRoles :
    (entry : Dict (Option RoleBlock)) (blocks : Dict (Option ScopeSpec))
    → AllRoles (keys blocks)
    → AllRoles (keys (parse_blocks entry blocks))
unfolding parse_blocks
parse_blocks-AllRoles [] blocks known = known
parse_blocks-AllRoles ((role, block) ∷ entry) blocks known =
    elim (Bool-cases (is_none (lookup role role_rank))) [
      | inl unknown ↦ rw unknown (parse_blocks-AllRoles entry blocks known)
      | inr found ↦ rw found (
          parse_blocks-AllRoles entry (put role (parse_scope block) blocks)
            (put-AllRoles role (parse_scope block) blocks (known-IsRole role found) known))
    ]

resolve_profile_blocks-AllRoles :
    (profile_def : Profile) (scenario_id scenario_kind : String)
    → AllRoles (keys (resolve_profile_blocks profile_def scenario_id scenario_kind))
unfolding resolve_profile_blocks
resolve_profile_blocks-AllRoles profile_def scenario_id scenario_kind =
    elim (Option-cases (resolve_profile_for_scenario profile_def scenario_id scenario_kind)) [
      | inl unmatched ↦ rw (unmatched, resolve_profile_blocks) tt
      | inr (entry, matched) ↦
          rw (matched, resolve_profile_blocks) (parse_blocks-AllRoles entry [] tt)
    ]

-- For every profile and scenario: the read scope is that of the lowest declared of analyst, planner
-- and manager, the write scope that of the lowest of planner and manager, the plan manager's scope
-- is the manager's; a tool type has no scope entry when none of its roles is declared.
pub tool_scopes_nearest :
    (profile_def : Profile) (scenario_id scenario_kind : String)
    → let blocks = resolve_profile_blocks profile_def scenario_id scenario_kind in
      AreNearest blocks (compute_tool_scopes blocks).tool_scopes
tool_scopes_nearest profile_def scenario_id scenario_kind =
    compute_tool_scopes-AreNearest (resolve_profile_blocks profile_def scenario_id scenario_kind)
      (resolve_profile_blocks-AllRoles profile_def scenario_id scenario_kind)

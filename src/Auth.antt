-- ===== src/Auth.antt =====
-- Permissions (precis_mcp/auth.py): the scope data model, and how a profile's blocks become the
-- scopes of the tool types for one scenario. A profile definition is read as JSON of the documented
-- shape; a missing key and a JSON null are both `none`.
pub mod Choice
pub mod Roles
pub mod Patterns
use precis_finance_mcp.Common.{
  ℕ, String, Bool, true, false, Option, none, some, List, [], ◌∷◌, ◌==◌, if◌then◌else◌, leb, ltb,
  mem, keep, is_none, ◌&&◌, Dict, lookup, put, keys,
}

pub record DimensionScope : Type 0 where
  pub allow : Option (Dict (List String))
  pub deny : Option (Dict (List String))

pub record DomainScope : Type 0 where
  pub allow : Option (List String)
  pub deny : Option (List String)

pub record ScopeSpec : Type 0 where
  pub dimensions : Option DimensionScope
  pub domains : Option DomainScope

pub record ScenarioPermissions : Type 0 where
  pub effective_role : String
  -- A missing key: the role is below the tool type's minimum. `none`: unrestricted.
  pub tool_scopes : Dict (Option ScopeSpec)

pub record UserPermissions : Type 0 where
  pub user_id : String
  pub is_admin : Bool
  pub scenarios : Dict ScenarioPermissions

-- One role block of a profile definition, as JSON.
pub record RoleBlock : Type 0 where
  pub domains : Option DomainScope
  pub dimensions : Option DimensionScope

abbrev pub Profile : Type 0
Profile = Dict (Dict (Option RoleBlock))

domain_axis : Option DomainScope → Option DomainScope
domain_axis none = none
domain_axis (some raw) = if is_none raw.allow && is_none raw.deny then none else some raw

dimension_axis : Option DimensionScope → Option DimensionScope
dimension_axis none = none
dimension_axis (some raw) = if is_none raw.allow && is_none raw.deny then none else some raw

unfoldable pub parse_scope : Option RoleBlock → Option ScopeSpec
unfolding domain_axis dimension_axis
parse_scope none = none
parse_scope (some block) =
    let domains = domain_axis block.domains in
    let dimensions = dimension_axis block.dimensions in
    if is_none domains && is_none dimensions
    then none
    else some (record { dimensions = dimensions; domains = domains })

-- `CATEGORY_TOKENS`
abbrev pub category_tokens : Dict (List String)
category_tokens =
    ("ACTUAL", "ACTUAL" ∷ [])
    ∷ ("BUDGET", "BUDGET" ∷ [])
    ∷ ("FORECAST", "FORECAST" ∷ [])
    ∷ ("PLAN", "BUDGET" ∷ "FORECAST" ∷ [])
    ∷ []

unfoldable pub pattern_match_rank : String → String → String → Option ℕ
pattern_match_rank pattern scenario_id scenario_kind =
    if pattern == scenario_id
    then some 4
    else if pattern == "*"
    then some 1
    else elim (lookup pattern category_tokens) [
      | none ↦ none
      | some members ↦
          if mem scenario_kind members then some (if pattern == "PLAN" then 2 else 3) else none
    ]

-- `best_rank` starts below every rank.
abbrev pub Best : Type 0 → Type 0
Best A = Option (ℕ × A)

abbrev pub exceeds : {A : Type 0} → ℕ → Best A → Bool
exceeds rank none = true
exceeds rank (some (best_rank, _)) = ltb best_rank rank

better : {A : Type 0} → Option ℕ → A → Best A → Best A
better none entry best = best
better (some rank) entry best = if exceeds rank best then some (rank, entry) else best

unfoldable pub best_entry : {A : Type 0} → Dict A → String → String → Best A → Best A
unfolding pattern_match_rank better
best_entry [] scenario_id scenario_kind best = best
best_entry ((pattern, entry) ∷ scenarios) scenario_id scenario_kind best =
    best_entry scenarios scenario_id scenario_kind
      (better (pattern_match_rank pattern scenario_id scenario_kind) entry best)

unfoldable pub resolve_profile_for_scenario : {A : Type 0} → Dict A → String → String → Option A
unfolding best_entry
resolve_profile_for_scenario profile_def scenario_id scenario_kind =
    elim (best_entry profile_def scenario_id scenario_kind none) [
      | none ↦ none
      | some (_, entry) ↦ some entry
    ]

-- `ROLE_RANK` and `TOOL_TYPE_MIN_RANK`
abbrev pub role_rank : Dict ℕ
role_rank = ("analyst", 0) ∷ ("planner", 1) ∷ ("manager", 2) ∷ []

abbrev pub tool_type_min_rank : Dict ℕ
tool_type_min_rank = ("read", 0) ∷ ("write", 1) ∷ ("plan_manager", 2) ∷ []

-- `ROLE_RANK[role]`, for a role that is known.
unfoldable pub rank_of : String → ℕ
rank_of role = elim (lookup role role_rank) [ none ↦ 0 | some rank ↦ rank ]

unfoldable pub parse_blocks :
    Dict (Option RoleBlock) → Dict (Option ScopeSpec) → Dict (Option ScopeSpec)
unfolding parse_scope
parse_blocks [] blocks = blocks
parse_blocks ((role, block) ∷ entry) blocks =
    parse_blocks entry
      (if is_none (lookup role role_rank) then blocks else put role (parse_scope block) blocks)

unfoldable pub resolve_profile_blocks : Profile → String → String → Dict (Option ScopeSpec)
unfolding resolve_profile_for_scenario parse_blocks
resolve_profile_blocks profile_def scenario_id scenario_kind =
    elim (resolve_profile_for_scenario profile_def scenario_id scenario_kind) [
      | none ↦ []
      | some entry ↦ parse_blocks entry []
    ]

-- `max(blocks, key=rank)` and `min(candidates, key=rank)`: the first of the extreme ones.
unfoldable pub max_role : String → List String → String
max_role best [] = best
max_role best (role ∷ roles) =
    max_role (if ltb (rank_of best) (rank_of role) then role else best) roles

unfoldable pub min_role : String → List String → String
min_role best [] = best
min_role best (role ∷ roles) =
    min_role (if ltb (rank_of role) (rank_of best) then role else best) roles

-- The scope of one tool type: none of it where no role is high enough.
pub choose_scope : Dict (Option ScopeSpec) → List String → Option (Option ScopeSpec)
unfolding min_role
choose_scope blocks [] = none
choose_scope blocks (role ∷ candidates) = lookup (min_role role candidates) blocks

set_scope : String → Option (Option ScopeSpec) → Dict (Option ScopeSpec) → Dict (Option ScopeSpec)
set_scope tool_type none tool_scopes = tool_scopes
set_scope tool_type (some scope) tool_scopes = put tool_type scope tool_scopes

unfoldable pub scopes_of_tools :
    Dict ℕ → Dict (Option ScopeSpec) → ℕ → Dict (Option ScopeSpec) → Dict (Option ScopeSpec)
unfolding choose_scope set_scope
scopes_of_tools [] blocks effective_rank tool_scopes = tool_scopes
scopes_of_tools ((tool_type, min_rank) ∷ tool_types) blocks effective_rank tool_scopes =
    scopes_of_tools tool_types blocks effective_rank (
      if ltb effective_rank min_rank
      then tool_scopes
      else set_scope tool_type
          (choose_scope blocks (keep (λ role. leb min_rank (rank_of role)) (keys blocks)))
          tool_scopes)

unfoldable pub compute_tool_scopes : Dict (Option ScopeSpec) → ScenarioPermissions
unfolding scopes_of_tools max_role
compute_tool_scopes [] = record { effective_role = "analyst"; tool_scopes = [] }
compute_tool_scopes ((role, scope) ∷ rest) =
    let blocks = (role, scope) ∷ rest in
    let effective_role = max_role role (keys rest) in
    record {
      effective_role = effective_role;
      tool_scopes = scopes_of_tools tool_type_min_rank blocks (rank_of effective_role) [];
    }

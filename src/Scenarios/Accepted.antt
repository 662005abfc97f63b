-- ===== src/Scenarios/Accepted.antt =====
-- Which lists of scenarios a registry is built from, and which error the others end with.
use precis_finance_mcp.Common.{
  String, ◌≡◌, refl, arith, Bool, true, false, not, ◌&&◌, List, [], ◌∷◌, ◌==◌, eq_iff,
  if◌then◌else◌, all, any, ◌∙◌, mem, is_set, Dict, has_key, has_key-put, put, Result, ok, err,
  Bool-cases, inl, inr,
}
use precis_finance_mcp.Catalogue.{Error, invalid_alias}
use precis_finance_mcp.Scenarios.{
  RealScenarioRef, validate_alias, compatibility_aliases, reserved_alias_suffixes, ends_with,
  has_fragment, ScenarioRegistry, no_scenarios, register, register_all, scenario_registry,
}

abbrev pub succeeds {κ} : {V : Type κ} → Result Error V → Bool
succeeds (ok value) = true
succeeds (err raised) = false

abbrev pub aliases_of : List RealScenarioRef → List String
aliases_of [] = []
aliases_of (s ∷ scenarios) = s.alias ∷ aliases_of scenarios

abbrev pub ids_of : List RealScenarioRef → List String
ids_of [] = []
ids_of (s ∷ scenarios) = s.scenario_id ∷ ids_of scenarios

abbrev all_new : Dict RealScenarioRef → List String → Bool
all_new d = all (λ k. not (has_key k d))

all_new-put :
    (k : String) (s : RealScenarioRef) (d : Dict RealScenarioRef) (ks : List String)
    → all_new (put k s d) ks ≡ (all_new d ks && not (mem k ks))
all_new-put k s d [] = refl
all_new-put k s d (j ∷ ks) =
    ground (arith, has_key-put k j s d, eq_iff k j, eq_iff j k, all_new-put k s d ks)

all_new-nil : (ks : List String) → all_new [] ks ≡ true
all_new-nil [] = refl
all_new-nil (k ∷ ks) = all_new-nil ks

-- Not empty, without the separator of comparisons, without a generated suffix, and no old name.
abbrev pub is_valid_alias : String → Bool
is_valid_alias alias =
    not (alias == "")
    && (not (has_fragment "_vs_" alias)
        && (not (any (ends_with alias) reserved_alias_suffixes)
            && not (has_key alias compatibility_aliases)))

pub validate_alias_lem :
    (alias : String)
    → validate_alias alias ≡ (if is_valid_alias alias then ok tt else err invalid_alias)
unfolding validate_alias
validate_alias_lem alias = ground arith

abbrev added : RealScenarioRef → ScenarioRegistry → ScenarioRegistry
added s registry = record {
  aliases = put s.alias s registry.aliases;
  ids = put s.scenario_id s registry.ids;
}

abbrev admits_one : RealScenarioRef → ScenarioRegistry → Bool
admits_one s registry =
    is_valid_alias s.alias
    && (not (has_key s.alias registry.aliases) && not (has_key s.scenario_id registry.ids))

register_lem :
    (s : RealScenarioRef) (registry : ScenarioRegistry)
    → register s registry
      ≡ (if admits_one s registry then ok (added s registry) else err invalid_alias)
unfolding register
register_lem s registry = ground (arith, validate_alias_lem s.alias)

abbrev admits : ScenarioRegistry → List RealScenarioRef → Bool
admits registry scenarios =
    all is_valid_alias (aliases_of scenarios)
    && ((is_set (aliases_of scenarios) && all_new registry.aliases (aliases_of scenarios))
        && (is_set (ids_of scenarios) && all_new registry.ids (ids_of scenarios)))

register_all-admits :
    (scenarios : List RealScenarioRef) (registry : ScenarioRegistry)
    → succeeds (register_all scenarios registry) ≡ admits registry scenarios
unfolding register_all
register_all-admits [] registry = refl
register_all-admits (s ∷ scenarios) registry = elim (Bool-cases (admits_one s registry)) [
  | inl fine ↦ rw (rw fine at (register_lem s registry)) (
      register_all-admits scenarios (added s registry)
      ∙ ground (
        arith,
        fine,
        all_new-put s.alias s registry.aliases (aliases_of scenarios),
        all_new-put s.scenario_id s registry.ids (ids_of scenarios),
      ))
  | inr wrong ↦ rw (rw wrong at (register_lem s registry)) (ground (arith, wrong))
]

register_all-error :
    (scenarios : List RealScenarioRef) (registry : ScenarioRegistry) {e : Error}
    → register_all scenarios registry ≡ err e
    → e ≡ invalid_alias
unfolding register_all
register_all-error [] registry h = cc
register_all-error (s ∷ scenarios) registry h = elim (Bool-cases (admits_one s registry)) [
  | inl fine ↦
      register_all-error scenarios (added s registry)
        (rw (rw fine at (register_lem s registry)) at h)
  | inr wrong ↦ cc (rw (rw wrong at (register_lem s registry)) at h)
]

-- A registry is built exactly when every alias is valid and no alias and no id is given twice.
pub scenario_registry-succeeds :
    (scenarios : List RealScenarioRef)
    → succeeds (scenario_registry scenarios) ≡ (
        all is_valid_alias (aliases_of scenarios)
        && (is_set (aliases_of scenarios) && is_set (ids_of scenarios)))
unfolding scenario_registry
scenario_registry-succeeds scenarios =
    register_all-admits scenarios no_scenarios
    ∙ ground (arith, all_new-nil (aliases_of scenarios), all_new-nil (ids_of scenarios))

-- The only error that the building of a registry ends with is that of an invalid or repeated alias.
pub scenario_registry-error :
    (scenarios : List RealScenarioRef) {e : Error}
    → scenario_registry scenarios ≡ err e
    → e ≡ invalid_alias
unfolding scenario_registry
scenario_registry-error scenarios h = register_all-error scenarios no_scenarios h

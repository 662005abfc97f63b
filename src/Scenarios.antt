-- ===== src/Scenarios.antt =====
-- The scenario registry (precis_mcp/engine/scenario_registry.py): the real scenarios, and the keys of
-- shifted and compared ones that are generated from their aliases.
pub mod Registry
pub mod Accepted
pub mod Resolve
pub mod Calls
pub mod Keys
pub mod Compared
pub mod Dependencies
pub mod Writable
pub mod Vocabulary
pub mod Visible
use Prim.Native.String.{◌++◌}
use precis_finance_mcp.Common.{
  ℕ, String, Bool, true, false, Option, none, some, List, [], ◌∷◌, ◌==◌, if◌then◌else◌, any, Dict,
  lookup, has_key, put, Result, ok, err, ◌>>=◌, ◌>>◌, raise_if,
}
use precis_finance_mcp.Common.Texts.{strip_suffix, split_once}
use precis_finance_mcp.Catalogue.{Error, invalid_alias, missing_key}

abbrev pub compatibility_aliases : Dict String
compatibility_aliases = ("prior_year", "actuals_py") ∷ ("prior_period", "actuals_pp") ∷ []

abbrev pub reserved_alias_suffixes : List String
reserved_alias_suffixes = "_py" ∷ "_pp" ∷ "_pct" ∷ []

-- The times of creation and of the last change are texts here.
pub record RealScenarioRef : Type 0 where
  pub key : String
  pub scenario_id : String
  pub alias : String
  pub name : String
  pub description : String
  pub kind : String
  pub status : String
  pub base_scenario : Option String
  pub variant_of : Option String
  pub horizon_start : String
  pub horizon_end : String
  pub actuals_cutoff : Option String
  pub granularity : String
  pub owner_user_id : String
  pub locks : String
  pub created_by : String
  pub created_at : Option String
  pub updated_at : Option String

pub data ShiftOp : Type 0 where
  year_shift period_step : ShiftOp

-- The offset is a number of months back.
pub record ShiftedScenarioRef : Type 0 where
  pub key : String
  pub base : RealScenarioRef
  pub months_back : ℕ
  pub label : String
  pub description : String
  pub shift_op : ShiftOp

-- `RealScenarioRef | ShiftedScenarioRef`
pub data SimpleRef : Type 0 where
  real : RealScenarioRef → SimpleRef
  shifted : ShiftedScenarioRef → SimpleRef

pub record VarianceScenarioRef : Type 0 where
  pub key : String
  pub left : SimpleRef
  pub right : SimpleRef
  pub label : String
  pub description : String

pub data ScenarioRef : Type 0 where
  simple : SimpleRef → ScenarioRef
  variance : VarianceScenarioRef → ScenarioRef
  variance_pct : VarianceScenarioRef → ScenarioRef

abbrev pub is_there {ℓ} : {A : Type ℓ} → Option A → Bool
is_there none = false
is_there (some _) = true

-- `fragment in s`, `s.endswith(suffix)`
abbrev pub has_fragment : String → String → Bool
has_fragment fragment s = is_there (split_once fragment s)

abbrev pub ends_with : String → String → Bool
ends_with s suffix = is_there (strip_suffix suffix s)

unfoldable pub validate_alias : String → Result Error (Unit {0})
unfolding split_once strip_suffix
validate_alias alias = do
  raise_if (alias == "") invalid_alias
  raise_if (has_fragment "_vs_" alias) invalid_alias
  raise_if (any (ends_with alias) reserved_alias_suffixes) invalid_alias
  raise_if (has_key alias compatibility_aliases) invalid_alias

-- `_aliases` and `_ids`
pub record ScenarioRegistry : Type 0 where
  pub aliases : Dict RealScenarioRef
  pub ids : Dict RealScenarioRef

abbrev pub no_scenarios : ScenarioRegistry
no_scenarios = record { aliases = []; ids = [] }

-- One turn of the loop of `__init__`.
unfoldable pub register : RealScenarioRef → ScenarioRegistry → Result Error ScenarioRegistry
unfolding validate_alias
register scenario registry = do
  validate_alias scenario.alias
  raise_if (has_key scenario.alias registry.aliases) invalid_alias
  raise_if (has_key scenario.scenario_id registry.ids) invalid_alias
  ok (record {
    aliases = put scenario.alias scenario registry.aliases;
    ids = put scenario.scenario_id scenario registry.ids;
  })

unfoldable pub register_all :
    List RealScenarioRef → ScenarioRegistry → Result Error ScenarioRegistry
unfolding register
register_all [] registry = ok registry
register_all (scenario ∷ real_scenarios) registry =
    register scenario registry >>= register_all real_scenarios

-- `ScenarioRegistry(real_scenarios)`
unfoldable pub scenario_registry : List RealScenarioRef → Result Error ScenarioRegistry
unfolding register_all
scenario_registry real_scenarios = register_all real_scenarios no_scenarios

-- `self._aliases.get(key) or self._ids.get(key)`
abbrev pub registered : ScenarioRegistry → String → Option RealScenarioRef
registered registry key = elim (lookup key registry.aliases) [
  | some scenario ↦ some scenario
  | none ↦ lookup key registry.ids
]

-- A row of the database: texts, or None.
abbrev pub ScenarioRow : Type 0
ScenarioRow = Dict (Option String)

-- `str(row.get(column) or default)`
abbrev pub text_or : String → ScenarioRow → String → String
text_or column row default = elim (lookup column row) [
  | none ↦ default
  | some value ↦ elim value [ none ↦ default | some text ↦ if text == "" then default else text ]
]

-- `row.get(column)`
abbrev pub value_or_none : String → ScenarioRow → Option String
value_or_none column row = elim (lookup column row) [ none ↦ none | some value ↦ value ]

-- `str(value)`
abbrev pub text_of : Option String → String
text_of none = "None"
text_of (some text) = text

-- `_real_from_row`; a row without a scenario_id is a KeyError.
unfoldable pub real_from_row : ScenarioRow → Result Error RealScenarioRef
real_from_row row = elim (lookup "scenario_id" row) [
  | none ↦ err missing_key
  | some value ↦
      let scenario_id = text_of value in
      let alias = text_or "alias" row "" in
      ok (record {
        key = alias;
        scenario_id = scenario_id;
        alias = alias;
        name = text_or "name" row (if alias == "" then scenario_id else alias);
        description = text_or "description" row "";
        kind = text_or "kind" row "";
        status = text_or "status" row "";
        base_scenario = value_or_none "base_scenario" row;
        variant_of = value_or_none "variant_of" row;
        horizon_start = text_or "horizon_start" row "";
        horizon_end = text_or "horizon_end" row "";
        actuals_cutoff = value_or_none "actuals_cutoff" row;
        granularity = text_or "granularity" row "monthly";
        owner_user_id = text_or "owner_user_id" row "";
        locks = text_or "locks" row "[]";
        created_by = text_or "created_by" row "";
        created_at = value_or_none "created_at" row;
        updated_at = value_or_none "updated_at" row;
      })
]

unfoldable pub real_from_rows : List ScenarioRow → Result Error (List RealScenarioRef)
unfolding real_from_row
real_from_rows [] = ok []
real_from_rows (row ∷ rows) = do
  scenario ← real_from_row row
  scenarios ← real_from_rows rows
  ok (scenario ∷ scenarios)

unfoldable pub from_rows : List ScenarioRow → Result Error ScenarioRegistry
unfolding real_from_rows scenario_registry
from_rows rows = real_from_rows rows >>= scenario_registry

-- ===== src/Lib.antt =====
-- The rules of Precis Finance MCP: what a user may see and write, and for which periods; how the
-- scenarios of a request are named; in which order its figures are computed, and by which formulas;
-- how many reads run at once, and which backups are kept.
--
-- A query or a write names dimension members at any level of a hierarchy. The catalogue says which
-- dimensions there are and how they reach leaf dimensions; the filter resolver turns names into leaf
-- IDs and view columns; permissions give each user a scope per scenario and tool type; the scope
-- enforcer turns scopes into filters and merges them with the user's. A report names scenarios by
-- keys, which the scenario registry resolves to real scenarios and to shifted and compared ones; the
-- resolver collects the metrics that the request needs and orders them, and the transformer computes
-- the derived ones in that order. Reads pass a limiter with a cap for each user and one for all.
--
-- Files and the code they are about:
--   Common          Python's dicts, sets, sorting and exceptions as the code uses them
--   Catalogue       precis_mcp/engine/catalogue.py: Dimension, CubeDimension, DomainCatalogue, and
--                   the queries that the database client answers
--   Filters         precis_mcp/engine/filter_resolver.py: _find_filter_target, _resolve_*_filter,
--                   resolve_single_value; Filters.Column has _map_to_view_column, Filters.Resolve has
--                   resolve_filters, Filters.Intersect its meaning
--   Auth            precis_mcp/auth.py: the scope data model, _parse_scope, _pattern_match_rank,
--                   _resolve_profile_for_scenario, _resolve_profile_blocks, _compute_tool_scopes;
--                   Auth.Patterns is about the choice of the profile's entry, Auth.Choice and
--                   Auth.Roles about the scopes of tool types
--   Scope           precis_mcp/engine/scope_enforcer.py: check_domain_access, _resolve_scope_members;
--                   Scope.Resolve has resolve_scope_filters, resolve_scope_leaf_sets and
--                   resolve_write_scope, Scope.Merge merge_dimension_filters, Scope.Cross
--                   enforce_cross_scenario_scope, Scope.Union union_read_member_sets;
--                   Scope.Members, Scope.Effective, Scope.Visible and Scope.LeafSets say what a
--                   scope leaves visible, Scope.Normal, Scope.Agree and Scope.Least what scenarios
--                   share
--   Periods         precis_mcp/ingestion/period_selection.py: calendar months as texts and their
--                   reading; Periods.Select has shift_month and select_periods, Periods.Windows what
--                   they select. Periods.Codes and Periods.Printed are about
--                   precis_mcp/engine/period_codes.py: _GRAMMARS, detect_grain, parse; Periods.Shift
--                   about shift_period of precis_mcp/engine/resolver.py beside shift_month
--   Locks           precis_mcp/scope_resolver.py: _generate_monthly_range, _expand_period_range,
--                   resolve_lock_condition, resolve_scenario_locks, is_cell_locked; Locks.Ranges is
--                   about the ranges, Locks.Values and Locks.Conditions about what a condition
--                   resolves to, Locks.Matching and Locks.Cells about cells
--   Formulas        precis_mcp/engine/transformer.py: _eval_node, evaluate_expression,
--                   compute_derived_metrics, compute_scenario, transform; Formulas.Meaning is a
--                   relation that says what an expression means, Formulas.Refined about formulas
--                   as texts, Formulas.Agreement and Formulas.Derived about rows. Floats and
--                   ast.parse are parameters
--   Statements      precis_mcp/engine/catalogue.py: resolve_statement
--   Resolver        precis_mcp/engine/resolver.py: _topological_sort_dependencies, with the loop of
--                   Kahn's algorithm; Resolver.Metrics has _resolve_metric_dependencies, and
--                   _extract_names_from_formula and _metric_refs of precis_mcp/engine/catalogue.py.
--                   Resolver.Counting, Release, Sorting and Start are about the loop,
--                   Resolver.Computed about computed scenarios, Resolver.Closure, Plan and Order
--                   about metrics
--   Scenarios       precis_mcp/engine/scenario_registry.py: the data model, _validate_alias and the
--                   building of a registry; Scenarios.Resolve has resolve_key and what rests on it,
--                   Scenarios.Vocabulary to_reporting_vocabulary, readable_scenario_ids and
--                   filter_reporting_vocabulary. Scenarios.Registry and Accepted are about the
--                   building, Calls, Keys, Compared and Dependencies about resolve_key, Writable about
--                   resolve_writable, Visible about the vocabulary
--   Concurrency     precis_mcp/concurrency.py: ReadConcurrencyLimiter, as steps of tasks in a schedule;
--                   Concurrency.Slots and Concurrency.Turns are about the schedules
--   Backup          precis_mcp/backup/prune.py: prune_bundles, with the manifests of
--                   precis_mcp/backup/manifest.py; Backup.Kept and Backup.Protected are about it
--   Tests           concrete runs, and each theorem applied to a concrete input
--
-- A dict is an association list in insertion order, a set a list without order in the statements, an
-- exception an error value. The database client is a parameter: a function from structured queries
-- to the first column of their rows, or an exception. Nothing is assumed of what it answers.
-- Where the code runs through a set of keys, the model takes them in the order they are first seen.
--
-- A schedule of the limiter is a list of events that may come in any order; a semaphore is the number
-- of its free slots, and who is woken first is left to the schedule. The destination of backups is
-- the list of its objects; the deletes that it denies are a parameter, and so are the calls of size_of
-- that fail in a manifest's turn, which _exists takes for a missing object. A delete that fails for
-- another reason than a denial, which ends the pruning, is not modelled. Times are numbers of seconds.
--
-- Texts are ASCII, and `int` is modelled on texts of digits. The loop over the months of a range runs
-- on fuel, thirteen turns for each year from the start to the end, and a theorem says that this is
-- enough; the watermark loop of the period selection runs on its own safety counter. The loop of
-- Kahn's algorithm has a turn for each key, since no key is placed twice. The collection of metrics
-- has a turn for each requested metric and for each reference of a metric, which is enough since a
-- metric's references are visited once. resolve_key has the length of the text and one more, since the
-- sides of a comparison are shorter than its key; a theorem says that the fuel never runs out.
-- A statement resolves on one unit of fuel more than there are statements, since the names that are
-- being resolved differ.
--
-- Not modelled: error messages, logging, SQL text, the loading of catalogues and permissions, the
-- cache of the scenario registry and its accessors of single fields, the expansion of a report request
-- into data queries, the runner of backups and restores, the runs and checks of ingestion, and
-- the parts of the repository around these rules (servers, tools, rendering, deployment).
pub mod Common
pub mod Catalogue
pub mod Filters
pub mod Auth
pub mod Scope
pub mod Periods
pub mod Locks
pub mod Formulas
pub mod Resolver
pub mod Scenarios
pub mod Concurrency
pub mod Backup
pub mod Statements
mod Tests

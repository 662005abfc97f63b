-- ===== src/Resolver.antt =====
-- The resolver of report requests (precis_mcp/engine/resolver.py): the order in which metrics and
-- computed scenarios are evaluated. Both functions run Kahn's algorithm; they differ in when they
-- sort the queue.
pub mod Counting
pub mod Release
pub mod Sorting
pub mod Start
pub mod Computed
pub mod Metrics
pub mod Closure
pub mod Plan
pub mod Order
use precis_finance_mcp.Common.{
  ℕ, ◌+◌, ◌-◌, zero, suc, String, Bool, true, false, not, ◌&&◌, Option, none, some, List, [], ◌∷◌,
  ◌++◌, if◌then◌else◌, eqb, mem, keep, to_set, inter, Dict, lookup, put, keys, Result, ok, err,
}
use precis_finance_mcp.Common.Sort.{sort}
use precis_finance_mcp.Catalogue.{Error, resolver}

-- `len(xs)`
abbrev pub size {ℓ} : {A : Type ℓ} → List A → ℕ
size [] = 0
size (_ ∷ xs) = suc (size xs)

-- `dep_graph`: the dependencies of each key, all of them keys themselves.
abbrev pub Graph : Type 0
Graph = Dict (List String)

-- `in_degree`, counted from zero.
abbrev pub in_degrees : Graph → Dict ℕ
in_degrees [] = []
in_degrees ((key, deps) ∷ graph) = (key, size deps) ∷ in_degrees graph

abbrev pub degree_of : String → Dict ℕ → ℕ
degree_of key in_degree = elim (lookup key in_degree) [ none ↦ 0 | some d ↦ d ]

abbrev pub without_dependencies : Dict ℕ → List String
without_dependencies [] = []
without_dependencies ((key, degree) ∷ in_degree) =
    if eqb degree 0 then key ∷ without_dependencies in_degree else without_dependencies in_degree

pub record Progress : Type 0 where
  pub in_degree : Dict ℕ
  pub queue : List String

-- A key that waits for the node waits for one less, and is queued when it waits for none.
unfoldable pub release_one : String → String → List String → Progress → Progress
release_one node key deps st =
    let degree = degree_of key st.in_degree - 1 in
    if mem node deps
    then record {
      in_degree = put key degree st.in_degree;
      queue = if eqb degree 0 then st.queue ++ key ∷ [] else st.queue;
    }
    else st

-- `for key, deps in dep_graph.items()`
unfoldable pub release : String → Graph → Progress → Progress
unfolding release_one
release node [] st = st
release node ((key, deps) ∷ graph) st = release node graph (release_one node key deps st)

-- The `while queue` loop, with what is done to the queue before a node is taken from it and at the
-- end of a turn.
module _ (before after : List String → List String) (graph : Graph) where
  unfoldable pub kahn : ℕ → Progress → List String → List String
  unfolding release
  kahn zero st result = result
  kahn (suc fuel) st result = elim (before st.queue) [
    | [] ↦ result
    | node ∷ rest ↦
        let next = release node graph (record st { queue = rest }) in
        kahn fuel (record next { queue = after next.queue }) (result ++ node ∷ [])
  ]

abbrev pub as_is : List String → List String
as_is queue = queue

-- `{key: set(dependency_fn(key)) & computed_set for key in computed_keys}`
unfoldable pub dependency_graph : List String → (String → List String) → List String → Graph → Graph
dependency_graph computed_set dependency_fn [] graph = graph
dependency_graph computed_set dependency_fn (key ∷ computed_keys) graph =
    dependency_graph computed_set dependency_fn computed_keys
      (put key (inter (to_set (dependency_fn key)) computed_set) graph)

-- `_topological_sort_dependencies`: every turn of the loop takes another key, so there are at most as
-- many turns as keys.
unfoldable pub sorted_nodes : Graph → List String
unfolding kahn
sorted_nodes graph =
    let in_degree = in_degrees graph in
    kahn as_is sort graph (size graph)
      (record { in_degree = in_degree; queue = sort (without_dependencies in_degree) }) []

unfoldable pub topological_sort_dependencies :
    List String → (String → List String) → Result Error (List String)
unfolding sorted_nodes dependency_graph
topological_sort_dependencies computed_keys dependency_fn =
    let result = sorted_nodes (dependency_graph computed_keys dependency_fn computed_keys []) in
    if eqb (size result) (size computed_keys) then ok result else err resolver

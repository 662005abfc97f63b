-- ===== src/Resolver/Computed.antt =====
-- `_topological_sort_dependencies`: the order of the computed scenarios.
use precis_finance_mcp.Common.{
  ℕ, ◌<◌, ◌≡◌, refl, arith, String, true, ◌&&◌, some, List, [], ◌∷◌, ◌++◌, eq_iff, if◌then◌else◌,
  eqb, is_set, mem, to_set, mem-to_set, mem-append, inter, mem-inter, lookup, lookup-put, has_key,
  lookup-has_key, mem-keys, put, Distinct, put-Distinct, Bool-cases, inl, inr, ◌∙◌, ok,
  ok-injective, subst,
}
use precis_finance_mcp.Common.Sort.{sort, mem-sort, is_set-sort}
use precis_finance_mcp.Resolver.{
  size, Graph, in_degrees, without_dependencies, as_is, dependency_graph, sorted_nodes,
  topological_sort_dependencies,
}
use precis_finance_mcp.Resolver.Counting.{
  is_set-keep, is_set-to_set, Within, size-Within, Within-of_size,
}
use precis_finance_mcp.Resolver.Sorting.{
  deps_of, in_order, IsSorted, kahn-IsSorted, sort-Rearranges, as_is-Rearranges,
}
use precis_finance_mcp.Resolver.Start.{Inv-start, GoesDown, complete, before_in_order}

pub sorted_nodes-IsSorted :
    (graph : Graph) (d : Distinct graph) (s : (k : String) → is_set (deps_of k graph) ≡ true)
    → IsSorted graph d s (sorted_nodes graph)
unfolding sorted_nodes
sorted_nodes-IsSorted graph d s =
    let first = without_dependencies (in_degrees graph) in
    kahn-IsSorted graph d s as_is sort as_is-Rearranges sort-Rearranges (size graph) _ []
      (omega arith) (Inv-start graph (sort first) d (λ k. mem-sort k first) (is_set-sort first))

module _ (computed_set : List String) (dependency_fn : String → List String) where
  abbrev wanted : String → List String
  wanted k = inter (to_set (dependency_fn k)) computed_set

  lookup-dependency_graph :
      (computed_keys : List String) (graph : Graph) (k : String)
      → lookup k (dependency_graph computed_set dependency_fn computed_keys graph)
        ≡ (if mem k computed_keys then some (wanted k) else lookup k graph)
  unfolding dependency_graph
  lookup-dependency_graph [] graph k = refl
  lookup-dependency_graph (key ∷ computed_keys) graph k =
      lookup-dependency_graph computed_keys (put key (wanted key) graph) k
      ∙ ground (arith, lookup-put key k (wanted key) graph, eq_iff key k)

  dependency_graph-Distinct :
      (computed_keys : List String) (graph : Graph)
      → Distinct graph
      → Distinct (dependency_graph computed_set dependency_fn computed_keys graph)
  unfolding dependency_graph
  dependency_graph-Distinct [] graph d = d
  dependency_graph-Distinct (key ∷ computed_keys) graph d =
      dependency_graph-Distinct computed_keys (put key (wanted key) graph)
        (put-Distinct key (wanted key) graph d)

module _ (computed_keys : List String) (dependency_fn : String → List String) where
  abbrev graph : Graph
  graph = dependency_graph computed_keys dependency_fn computed_keys []

  abbrev result : List String
  result = sorted_nodes graph

  graph-Distinct : Distinct graph
  graph-Distinct = dependency_graph-Distinct computed_keys dependency_fn computed_keys [] tt

  deps_of-graph :
      (k : String)
      → deps_of k graph ≡ (if mem k computed_keys then wanted computed_keys dependency_fn k else [])
  deps_of-graph k =
      ground (arith, lookup-dependency_graph computed_keys dependency_fn computed_keys [] k)

  has_key-graph : (k : String) → has_key k graph ≡ mem k computed_keys
  has_key-graph k = ground (
    arith,
    lookup-has_key k graph,
    lookup-dependency_graph computed_keys dependency_fn computed_keys [] k,
  )

  deps_are_sets : (k : String) → is_set (deps_of k graph) ≡ true
  deps_are_sets k = ground (
    arith,
    deps_of-graph k,
    is_set-keep (λ x. mem x computed_keys) (to_set (dependency_fn k))
        (is_set-to_set (dependency_fn k)),
  )

  result-IsSorted : IsSorted graph graph-Distinct deps_are_sets result
  result-IsSorted = sorted_nodes-IsSorted graph graph-Distinct deps_are_sets

  result-Within : Within result computed_keys
  result-Within k there =
      ground (arith, result-IsSorted.placed.known k, mem-keys k graph, has_key-graph k)

  mem-deps_of :
      (k d : String)
      → mem d (deps_of k graph)
        ≡ (mem k computed_keys && (mem d (dependency_fn k) && mem d computed_keys))
  mem-deps_of k d = ground (
    arith,
    deps_of-graph k,
    mem-inter d (to_set (dependency_fn k)) computed_keys,
    mem-to_set d (dependency_fn k),
  )

  result_of_order :
      {order : List String}
      → topological_sort_dependencies computed_keys dependency_fn ≡ ok order
      → (result ≡ order) × (size result ≡ size computed_keys)
  unfolding topological_sort_dependencies
  result_of_order h = elim (Bool-cases (eqb (size result) (size computed_keys))) [
    | inr short ↦ cc (rw short at h)
    | inl full ↦ (ok-injective (rw full at h), ground arith)
  ]

  -- If the sort ends without an error, its order has exactly the computed keys, each once.
  pub topological_sort-members :
      (order : List String)
      → topological_sort_dependencies computed_keys dependency_fn ≡ ok order
      → (is_set order ≡ true) × ((k : String) → mem k order ≡ mem k computed_keys)
  topological_sort-members order h =
      let (is_result, full) = result_of_order h in
      let all_there : Within computed_keys result =
        Within-of_size result computed_keys result-IsSorted.placed.once result-Within
          (omega arith) in
      (
        rw (← is_result) result-IsSorted.placed.once,
        λ k. rw (← is_result) (ground (arith, all_there k, result-Within k)),
      )

  -- If the sort ends without an error, then where a key stands in its order, every computed key that
  -- it depends on stands before.
  pub topological_sort-before :
      (order before rest : List String) (k d : String)
      → topological_sort_dependencies computed_keys dependency_fn ≡ ok order
      → order ≡ before ++ k ∷ rest
      → mem d (dependency_fn k) ≡ true
      → mem d computed_keys ≡ true
      → mem d before ≡ true
  topological_sort-before order before rest k d h split needs computed =
      let (is_result, _) = result_of_order h in
      let in_place : in_order graph [] (before ++ k ∷ rest) ≡ true =
        subst (λ (o : List String). in_order graph [] o ≡ true) (is_result ∙ split)
          result-IsSorted.placed.ordered in
      let there : mem k result ≡ true =
        rw is_result (rw split (ground (arith, mem-append k before (k ∷ rest), eq_iff k k))) in
      let wanted : mem d (deps_of k graph) ≡ true =
        ground (arith, mem-deps_of k d, result-Within k there) in
      before_in_order graph [] before rest k d in_place wanted

  -- If no computed key is named twice, and their dependencies on each other go down in some ranking,
  -- so that they go in no circle, then the sort ends without an error.
  pub topological_sort-ends :
      (rank : String → ℕ)
      → is_set computed_keys ≡ true
      → ((k d : String)
          → mem k computed_keys ≡ true
          → mem d (dependency_fn k) ≡ true
          → mem d computed_keys ≡ true
          → rank d < rank k)
      → (order : List String) × (topological_sort_dependencies computed_keys dependency_fn
          ≡ ok order)
  unfolding topological_sort_dependencies
  topological_sort-ends rank once acyclic =
      let down : GoesDown graph rank =
        λ k d needs. ground (arith, acyclic k d, mem-deps_of k d, has_key-graph d) in
      let all_there : Within computed_keys result = λ k there.
        complete graph graph-Distinct deps_are_sets rank down result result-IsSorted k
          (has_key-graph k ∙ there) in
      let full : eqb (size result) (size computed_keys) ≡ true = ground (
        arith,
        size-Within result computed_keys result-IsSorted.placed.once result-Within,
        size-Within computed_keys result once all_there,
      ) in
      (result, rw full refl)

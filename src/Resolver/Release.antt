-- ===== src/Resolver/Release.antt =====
-- What releasing a node does to the counts and to the queue.
use precis_finance_mcp.Common.{
  ◌-◌, ◌≡◌, refl, arith, String, Bool, true, false, ◌&&◌, ◌||◌, none, some, List, [], ◌∷◌, ◌==◌,
  eq_iff, if◌then◌else◌, eqb, is_set, mem, mem-append, lookup, lookup-eq-none, lookup-put, Distinct,
}
use precis_finance_mcp.Resolver.{Graph, degree_of, Progress, release_one, release}
use precis_finance_mcp.Resolver.Counting.{is_set-snoc}

module _ (node : String) where
  -- The entry of the key waits for the node.
  abbrev pub waits : Graph → String → Bool
  waits graph k = elim (lookup k graph) [ none ↦ false | some deps ↦ mem node deps ]

  -- The key's count falls to zero.
  abbrev pub falls : Graph → Progress → String → Bool
  falls graph st k = waits graph k && eqb (degree_of k st.in_degree - 1) 0

  lookup-release_one :
      (key : String) (deps : List String) (st : Progress) (k : String)
      → lookup k (release_one node key deps st).in_degree ≡ (
          if mem node deps && key == k
          then some (degree_of key st.in_degree - 1)
          else lookup k st.in_degree)
  unfolding release_one
  lookup-release_one key deps st k =
      ground (arith, lookup-put key k (degree_of key st.in_degree - 1) st.in_degree)

  mem-release_one :
      (key : String) (deps : List String) (st : Progress) (k : String)
      → mem k (release_one node key deps st).queue ≡ (
          mem k st.queue || (key == k && (mem node deps && eqb (degree_of key st.in_degree - 1) 0)))
  unfolding release_one
  mem-release_one key deps st k = ground (arith, mem-append k st.queue (key ∷ []))

  is_set-release_one :
      (key : String) (deps : List String) (st : Progress)
      → is_set st.queue ≡ true
      → (mem node deps && mem key st.queue) ≡ false
      → is_set (release_one node key deps st).queue ≡ true
  unfolding release_one
  is_set-release_one key deps st s fresh = ground (arith, is_set-snoc st.queue key)

  pub lookup-release :
      (graph : Graph) (st : Progress) (k : String)
      → Distinct graph
      → lookup k (release node graph st).in_degree
        ≡ (if waits graph k then some (degree_of k st.in_degree - 1) else lookup k st.in_degree)
  unfolding release
  lookup-release [] st k d = refl
  lookup-release ((key, deps) ∷ graph) st k d = ground (
    arith,
    eq_iff key k,
    lookup-release graph (release_one node key deps st) k d.1,
    lookup-release_one key deps st k,
    lookup-eq-none k graph,
  )

  pub mem-release :
      (graph : Graph) (st : Progress) (k : String)
      → Distinct graph
      → mem k (release node graph st).queue ≡ (mem k st.queue || falls graph st k)
  unfolding release
  mem-release [] st k d = ground arith
  mem-release ((key, deps) ∷ graph) st k d = ground (
    arith,
    eq_iff key k,
    mem-release graph (release_one node key deps st) k d.1,
    mem-release_one key deps st k,
    lookup-release_one key deps st k,
    lookup-eq-none k graph,
  )

  pub is_set-release :
      (graph : Graph) (st : Progress)
      → Distinct graph
      → is_set st.queue ≡ true
      → ((k : String) → waits graph k ≡ true → mem k st.queue ≡ false)
      → is_set (release node graph st).queue ≡ true
  unfolding release
  is_set-release [] st d s fresh = s
  is_set-release ((key, deps) ∷ graph) st d s fresh =
      is_set-release graph (release_one node key deps st) d.1
        (is_set-release_one key deps st s (ground (arith, fresh key, eq_iff key key)))
        (λ k later.
          ground
            (arith, fresh k, eq_iff key k, mem-release_one key deps st k, lookup-eq-none k graph))

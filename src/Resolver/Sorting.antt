-- ===== src/Resolver/Sorting.antt =====
-- The order that Kahn's algorithm finds: every key after its dependencies, and every key whose
-- dependencies are all there.
use precis_finance_mcp.Common.{
  ℕ, ◌+◌, ◌≤◌, zero, suc, ◌≡◌, refl, arith, String, Bool, true, false, not, ◌&&◌, ◌||◌, none, some,
  List, [], ◌∷◌, ◌++◌, ◌==◌, eq_iff, if◌then◌else◌, eqb, is_set, mem, mem-append, diff, all, lookup,
  has_key, lookup-has_key, keys, mem-keys, Distinct, Bool-cases, inl, inr, ◌∙◌, sym, ap, ◌⊎◌,
}
use precis_finance_mcp.Resolver.{size, Graph, degree_of, Progress, release, kahn, as_is}
use precis_finance_mcp.Common.Sort.{sort, mem-sort, is_set-sort}
use precis_finance_mcp.Resolver.Counting.{is_set-snoc, size-snoc, Within, size-Within}
use precis_finance_mcp.Resolver.Release.{lookup-release, mem-release, is_set-release}

List-cases {ℓ} :
    {A : Type ℓ} (xs : List A) → (xs ≡ []) ⊎ ((x : A) × (rest : List A) × (xs ≡ x ∷ rest))
List-cases [] = inl refl
List-cases (x ∷ xs) = inr (x, xs, refl)

abbrev pub deps_of : String → Graph → List String
deps_of k graph = elim (lookup k graph) [ none ↦ [] | some deps ↦ deps ]

-- How many dependencies are still to come.
abbrev pub waiting : List String → List String → ℕ
waiting deps done = size (diff deps done)

waiting-snoc :
    (node : String) (deps done : List String)
    → is_set deps ≡ true
    → mem node done ≡ false
    → waiting deps (done ++ node ∷ []) + (if mem node deps then 1 else 0) ≡ waiting deps done
waiting-snoc node [] done s fresh = refl
waiting-snoc node (d ∷ deps) done s fresh = ground (
  arith,
  eq_iff d node,
  eq_iff node d,
  mem-append d done (node ∷ []),
  waiting-snoc node deps done (ground arith) fresh,
)

all_of_waiting :
    (deps done : List String) → waiting deps done ≡ 0 → all (λ d. mem d done) deps ≡ true
all_of_waiting [] done h = refl
all_of_waiting (d ∷ deps) done h = ground (arith, all_of_waiting deps done)

pub waiting_of_all :
    (deps done : List String) → all (λ d. mem d done) deps ≡ true → waiting deps done ≡ 0
waiting_of_all [] done h = refl
waiting_of_all (d ∷ deps) done h = ground (arith, waiting_of_all deps done)

-- No key stands before one of its dependencies, or without it.
abbrev pub in_order : Graph → List String → List String → Bool
in_order graph seen [] = true
in_order graph seen (k ∷ ks) =
    all (λ d. mem d seen) (deps_of k graph) && in_order graph (k ∷ seen) ks

all-ext :
    (p q : String → Bool) (xs : List String) → ((x : String) → p x ≡ q x) → all p xs ≡ all q xs
all-ext p q [] h = refl
all-ext p q (x ∷ xs) h = ground (arith, h x, all-ext p q xs h)

in_order-snoc :
    (graph : Graph) (seen done : List String) (k : String)
    → in_order graph seen (done ++ k ∷ [])
      ≡ (in_order graph seen done && all (λ d. mem d seen || mem d done) (deps_of k graph))
in_order-snoc graph seen [] k = ground (
  arith,
  all-ext (λ d. mem d seen) (λ d. mem d seen || false) (deps_of k graph) (λ x. ground arith),
)
in_order-snoc graph seen (n ∷ done) k = ground (
  arith,
  in_order-snoc graph (n ∷ seen) done k,
  all-ext (λ d. mem d (n ∷ seen) || mem d done) (λ d. mem d seen || mem d (n ∷ done))
      (deps_of k graph) (λ x. ground arith),
)

size-keys : (graph : Graph) → size (keys graph) ≡ size graph
size-keys [] = refl
size-keys (e ∷ graph) = ap suc (size-keys graph)

-- A list is only put into another order.
pub record Rearranges (f : List String → List String) : Type 0 where
  pub members : (x : String) (xs : List String) → mem x (f xs) ≡ mem x xs
  pub once : (xs : List String) → is_set (f xs) ≡ is_set xs

module _ (graph : Graph) where
  abbrev pub ready : List String → String → Bool
  ready done k = has_key k graph && eqb (waiting (deps_of k graph) done) 0

  pub record IsPlaced (done : List String) : Type 0 where
    pub once : is_set done ≡ true
    pub known : Within done (keys graph)
    pub ordered : in_order graph [] done ≡ true

  pub record Inv (st : Progress) (done : List String) : Type 0 where
    pub counts :
        (k : String)
        → has_key k graph ≡ true
        → degree_of k st.in_degree ≡ waiting (deps_of k graph) done
    pub queued : (k : String) → mem k st.queue ≡ (ready done k && not (mem k done))
    pub settled : (k : String) → mem k done ≡ true → waiting (deps_of k graph) done ≡ 0
    pub separate : is_set st.queue ≡ true
    pub placed : IsPlaced done

  IsPlaced-snoc :
      (done : List String) (node : String)
      → IsPlaced done
      → (ready done node && not (mem node done)) ≡ true
      → IsPlaced (done ++ node ∷ [])
  IsPlaced-snoc done node p h = record {
    once = ground (arith, is_set-snoc done node, p.once);
    known = λ k there.
        ground (arith, mem-append k done (node ∷ []), p.known k, eq_iff node k, mem-keys k graph);
    ordered = ground (
      arith,
      in_order-snoc graph [] done node,
      p.ordered,
      all_of_waiting (deps_of node graph) done,
      all-ext (λ d. mem d done) (λ d. mem d [] || mem d done) (deps_of node graph)
          (λ x. ground arith),
    );
  }

  module _ (distinct : Distinct graph) (sets : (k : String) → is_set (deps_of k graph) ≡ true) where
    Inv-turn :
        (st : Progress) (done : List String) (node : String) (rest : List String)
        → (after : List String → List String) → Rearranges after
        → Inv st done
        → ((k : String) → mem k st.queue ≡ (node == k || mem k rest))
        → is_set (node ∷ rest) ≡ true
        → let next = release node graph (record st { queue = rest }) in
          Inv (record next { queue = after next.queue }) (done ++ node ∷ [])
    Inv-turn st done node rest after keeps inv taken separate =
        let start = record st { queue = rest } in
        let is_ready : (ready done node && not (mem node done)) ≡ true =
          ground (arith, inv.queued node, taken node, eq_iff node node) in
        let fewer =
          λ (k : String). waiting-snoc node (deps_of k graph) done (sets k) (ground arith) in
        record {
          counts = λ k there.
              ground
                (arith, inv.counts k there, lookup-release node graph start k distinct, fewer k);
          queued = λ k. ground (
            arith,
            keeps.members k (release node graph start).queue,
            mem-release node graph start k distinct,
            inv.counts k,
            inv.settled k,
            taken k,
            inv.queued k,
            fewer k,
            mem-append k done (node ∷ []),
            eq_iff node k,
            lookup-has_key k graph,
          );
          settled = λ k there. ground (
            arith,
            mem-append k done (node ∷ []),
            inv.settled k,
            eq_iff node k,
            fewer k,
            is_ready,
          );
          separate = rw (keeps.once) (
              is_set-release node graph start distinct (ground arith)
                (λ k w. ground (arith, taken k, inv.queued k, fewer k, lookup-has_key k graph)));
          placed = IsPlaced-snoc done node inv.placed is_ready;
        }

    pub record IsSorted (result : List String) : Type 0 where
      pub placed : IsPlaced result
      pub closed : (k : String) → ready result k ≡ true → mem k result ≡ true

    IsSorted-of_idle :
        (st : Progress) (done : List String)
        → Inv st done
        → ((k : String) → mem k st.queue ≡ false)
        → IsSorted done
    IsSorted-of_idle st done inv idle = record {
      placed = inv.placed;
      closed = λ k is_ready. ground (arith, inv.queued k, idle k);
    }

    -- When every key is placed, nothing is in the queue.
    idle_of_full :
        (st : Progress) (done : List String) (k : String)
        → Inv st done
        → size graph ≤ size done
        → mem k st.queue ≡ false
    idle_of_full st done k inv full = elim (Bool-cases (mem k st.queue)) [
      | inr idle ↦ idle
      | inl queued ↦
          let more = IsPlaced-snoc done k inv.placed (ground (arith, inv.queued k)) in
          absurd (
            omega (
              arith,
              size-Within (done ++ k ∷ []) (keys graph) more.once more.known,
              size-snoc done k,
              size-keys graph,
            ))
    ]

    taken_of :
        (before : List String → List String) (queue : List String) (node : String)
        (rest : List String)
        → Rearranges before
        → before queue ≡ node ∷ rest
        → is_set queue ≡ true
        → ((k : String) → mem k queue ≡ (node == k || mem k rest)) × (is_set (node ∷ rest) ≡ true)
    taken_of before queue node rest keeps e s =
        (λ k. sym (keeps.members k queue) ∙ rw e refl, ap is_set (sym e) ∙ (keeps.once queue ∙ s))

    pub kahn-IsSorted :
        (before after : List String → List String)
        → Rearranges before
        → Rearranges after
        → (fuel : ℕ) (st : Progress) (done : List String) → size graph ≤ fuel + size done
        → Inv st done
        → IsSorted (kahn before after graph fuel st done)
    unfolding kahn
    kahn-IsSorted before after kb ka zero st done enough inv =
        IsSorted-of_idle st done inv (λ k. idle_of_full st done k inv (omega arith))
    kahn-IsSorted before after kb ka (suc fuel) st done enough inv =
        elim (List-cases (before st.queue)) [
          | inl empty ↦
              rw (empty, kahn)
                (IsSorted-of_idle st done inv (λ k. sym (kb.members k st.queue) ∙ rw empty refl))
          | inr (node, rest, e) ↦
              let (taken, separate) = taken_of before st.queue node rest kb e inv.separate in
              rw (e, kahn)
                (kahn-IsSorted before after kb ka fuel _ (done ++ node ∷ [])
                  (omega (arith, size-snoc done node))
                  (Inv-turn st done node rest after ka inv taken separate))
        ]

pub sort-Rearranges : Rearranges sort
sort-Rearranges = record { members = mem-sort; once = is_set-sort }

pub as_is-Rearranges : Rearranges as_is
as_is-Rearranges = record { members = λ x xs. refl; once = λ xs. refl }

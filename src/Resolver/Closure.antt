-- ===== src/Resolver/Closure.antt =====
-- `_resolve_metric_dependencies` collects the least set of metrics that has the requested ones and is
-- closed under references, and the fuel of the loop is enough.
use precis_finance_mcp.Common.{
  ℕ, ◌+◌, ◌≤◌, zero, suc, ◌≡◌, refl, arith, String, true, false, ◌||◌, List, [], ◌∷◌, ◌++◌, eq_iff,
  is_set, mem, mem-append, mem-diff, diff, Dict, lookup, lookup-eq-none, Distinct, Bool-cases, inl,
  inr, Result, ok, >>=-eq-ok, ok-injective, subst, text_cases, sym, ◌∙◌,
}
use precis_finance_mcp.Catalogue.{Error}
use precis_finance_mcp.Formulas.{Parser, Metric}
use precis_finance_mcp.Resolver.{size}
use precis_finance_mcp.Resolver.Metrics.{
  refs_of, ref_count, open_refs, collect_metrics, needed_metrics,
}

size-append : (xs ys : List String) → size (xs ++ ys) ≡ size xs + size ys
size-append [] ys = omega arith
size-append (x ∷ xs) ys = omega (arith, size-append xs ys)

size-diff-le : (xs ys : List String) → size (diff xs ys) ≤ size xs
size-diff-le [] ys = omega arith
size-diff-le (x ∷ xs) ys = ground (arith, size-diff-le xs ys)

module _ {F : Type 0} (parse : Parser F) (metrics : Dict Metric) where
  -- A metric's references are no longer open once it is collected.
  open_refs-collect :
      (ms : Dict Metric) (key : String) (all_keys : List String)
      → Distinct ms
      → mem key all_keys ≡ false
      → open_refs parse ms (key ∷ all_keys) + ref_count parse (refs_of parse (lookup key ms))
        ≡ open_refs parse ms all_keys
  unfolding refs_of
  open_refs-collect [] key all_keys d fresh = refl
  open_refs-collect ((k, metric) ∷ ms) key all_keys d fresh = ground (
    arith,
    eq_iff k key,
    eq_iff key k,
    lookup-eq-none k ms d.0,
    open_refs-collect ms key all_keys d.1 fresh,
  )

  -- Every collected key is a metric, whose references are collected or still to visit.
  abbrev Explained : List String → List String → Type 0
  Explained all_keys to_visit =
      (k : String)
      → mem k all_keys ≡ true
      → (refs : List String) × (refs_of parse (lookup k metrics) ≡ ok refs)
        × ((r : String) → mem r refs ≡ true → (mem r all_keys || mem r to_visit) ≡ true)

  -- A set of metrics that has all that its members refer to.
  abbrev pub IsClosed : List String → Type 0
  IsClosed set =
      (k : String)
      → mem k set ≡ true
      → (refs : List String) × (refs_of parse (lookup k metrics) ≡ ok refs)
        × ((r : String) → mem r refs ≡ true → mem r set ≡ true)

  pub record IsClosure (requested result : List String) : Type 0 where
    pub once : is_set result ≡ true
    pub has_requested : (k : String) → mem k requested ≡ true → mem k result ≡ true
    pub closed : IsClosed result
    pub least :
        (set : List String)
        → ((k : String) → mem k requested ≡ true → mem k set ≡ true)
        → IsClosed set
        → (k : String) → mem k result ≡ true
        → mem k set ≡ true

  Explained-skip :
      (key : String) (to_visit all_keys : List String)
      → Explained all_keys (key ∷ to_visit)
      → mem key all_keys ≡ true
      → Explained all_keys to_visit
  Explained-skip key to_visit all_keys explained seen k there =
      let (refs, found, later) = explained k there in
      (refs, found, λ r named. ground (arith, later r named, eq_iff key r))

  Explained-visit :
      (key : String) (refs to_visit all_keys : List String)
      → Explained all_keys (key ∷ to_visit)
      → refs_of parse (lookup key metrics) ≡ ok refs
      → Explained (key ∷ all_keys) (diff refs (key ∷ all_keys) ++ to_visit)
  Explained-visit key refs to_visit all_keys explained own k there =
      let next = λ (r : String). mem-append r (diff refs (key ∷ all_keys)) to_visit in
      elim (text_cases key k) [
        | inl (e, _) ↦ (
          refs,
          subst (λ (x : String). refs_of parse (lookup x metrics) ≡ ok refs) e own,
          λ r named. ground (arith, next r, mem-diff r refs (key ∷ all_keys)),
        )
        | inr other ↦
            let (found_refs, found, later) = explained k (rw other at there) in
            (found_refs, found, λ r named. ground (arith, later r named, next r))
      ]

  module _ (distinct : Distinct metrics) where
    visits_fewer :
        (key : String) (refs to_visit all_keys : List String) (fuel : ℕ)
        → mem key all_keys ≡ false
        → refs_of parse (lookup key metrics) ≡ ok refs
        → size (key ∷ to_visit) + open_refs parse metrics all_keys ≤ suc fuel
        → size (diff refs (key ∷ all_keys) ++ to_visit) + open_refs parse metrics (key ∷ all_keys)
          ≤ fuel
    visits_fewer key refs to_visit all_keys fuel fresh own enough =
        let spent : open_refs parse metrics (key ∷ all_keys) + size refs
            ≡ open_refs parse metrics all_keys =
          rw own at (open_refs-collect metrics key all_keys distinct fresh) in
        omega (
          arith,
          spent,
          size-append (diff refs (key ∷ all_keys)) to_visit,
          size-diff-le refs (key ∷ all_keys),
        )

    -- What holds when nothing is left to visit.
    collected :
        (all_keys : List String) {result : List String}
        → is_set all_keys ≡ true
        → Explained all_keys []
        → ◌≡◌ {A = Result Error (List String)} (ok all_keys) (ok result)
        → (is_set result ≡ true)
          × ((k : String) → (mem k [] || mem k all_keys) ≡ true → mem k result ≡ true)
          × IsClosed result
    collected all_keys {result} once explained h =
        let same = ok-injective h in
        (
          rw (← same) once,
          λ k there. rw (← same) there,
          subst IsClosed same (λ k there.
              let (refs, found, later) = explained k there in
              (refs, found, λ r named. ground (arith, later r named))),
        )

    collect_metrics-IsClosed :
        (fuel : ℕ) (to_visit all_keys : List String) {result : List String}
        → size to_visit + open_refs parse metrics all_keys ≤ fuel
        → is_set all_keys ≡ true
        → Explained all_keys to_visit
        → collect_metrics parse fuel metrics to_visit all_keys ≡ ok result
        → (is_set result ≡ true)
          × ((k : String) → (mem k to_visit || mem k all_keys) ≡ true → mem k result ≡ true)
          × IsClosed result
    unfolding collect_metrics
    collect_metrics-IsClosed zero [] all_keys enough once explained h =
        collected all_keys once explained h
    collect_metrics-IsClosed zero (key ∷ to_visit) all_keys enough once explained h =
        absurd (omega arith)
    collect_metrics-IsClosed (suc fuel) [] all_keys enough once explained h =
        collected all_keys once explained h
    collect_metrics-IsClosed (suc fuel) (key ∷ to_visit) all_keys enough once explained h =
        elim (Bool-cases (mem key all_keys)) [
          | inl seen ↦
              let (set, there, closed) =
                collect_metrics-IsClosed fuel to_visit all_keys (omega arith) once
                  (Explained-skip key to_visit all_keys explained seen)
                  (rw (seen, collect_metrics) at h) in
              (set, λ k named. there k (ground (arith, eq_iff key k)), closed)
          | inr fresh ↦
              let (refs, own, rest) =
                >>=-eq-ok (refs_of parse (lookup key metrics)) _
                  (rw (fresh, collect_metrics) at h) in
              let next = diff refs (key ∷ all_keys) ++ to_visit in
              let (set, there, closed) =
                collect_metrics-IsClosed fuel next (key ∷ all_keys)
                  (visits_fewer key refs to_visit all_keys fuel fresh own enough) (ground arith)
                  (Explained-visit key refs to_visit all_keys explained own) rest in
              (
                set,
                λ k named.
                    there k (ground (arith, mem-append k (diff refs (key ∷ all_keys)) to_visit)),
                closed,
              )
        ]

  module _ (set : List String) (closed : IsClosed set) where
    abbrev Inside : List String → Type 0
    Inside xs = (k : String) → mem k xs ≡ true → mem k set ≡ true

    Inside-next :
        (key : String) (refs to_visit all_keys : List String)
        → Inside (key ∷ to_visit)
        → refs_of parse (lookup key metrics) ≡ ok refs
        → Inside (diff refs (key ∷ all_keys) ++ to_visit)
    Inside-next key refs to_visit all_keys inside own k there =
        let (known, found, has) = closed key (inside key (ground (arith, eq_iff key key))) in
        let same : known ≡ refs = ok-injective (sym found ∙ own) in
        ground (
          arith,
          mem-append k (diff refs (key ∷ all_keys)) to_visit,
          mem-diff k refs (key ∷ all_keys),
          inside k,
          has k,
          same,
        )

    Inside-rest :
        (key : String) (to_visit : List String) → Inside (key ∷ to_visit) → Inside to_visit
    Inside-rest key to_visit inside k there = inside k (ground arith)

    collect_metrics-least :
        (fuel : ℕ) (to_visit all_keys : List String) {result : List String}
        → Inside to_visit
        → Inside all_keys
        → collect_metrics parse fuel metrics to_visit all_keys ≡ ok result
        → Inside result
    unfolding collect_metrics
    collect_metrics-least zero to_visit all_keys asked inside h =
        subst Inside (ok-injective h) inside
    collect_metrics-least (suc fuel) [] all_keys asked inside h =
        subst Inside (ok-injective h) inside
    collect_metrics-least (suc fuel) (key ∷ to_visit) all_keys asked inside h =
        elim (Bool-cases (mem key all_keys)) [
          | inl seen ↦
              collect_metrics-least fuel to_visit all_keys (Inside-rest key to_visit asked) inside
                (rw (seen, collect_metrics) at h)
          | inr fresh ↦
              let (refs, own, rest) =
                >>=-eq-ok (refs_of parse (lookup key metrics)) _
                  (rw (fresh, collect_metrics) at h) in
              collect_metrics-least fuel (diff refs (key ∷ all_keys) ++ to_visit) (key ∷ all_keys)
                (Inside-next key refs to_visit all_keys asked own)
                (λ k there. ground (arith, inside k, asked k)) rest
        ]

    collect_metrics-ends :
        (fuel : ℕ) (to_visit all_keys : List String)
        → Inside to_visit
        → (result : List String) × (collect_metrics parse fuel metrics to_visit all_keys
            ≡ ok result)
    unfolding collect_metrics
    collect_metrics-ends zero to_visit all_keys asked = (all_keys, refl)
    collect_metrics-ends (suc fuel) [] all_keys asked = (all_keys, refl)
    collect_metrics-ends (suc fuel) (key ∷ to_visit) all_keys asked =
        elim (Bool-cases (mem key all_keys)) [
          | inl seen ↦
              rw (seen, collect_metrics)
                (collect_metrics-ends fuel to_visit all_keys (Inside-rest key to_visit asked))
          | inr fresh ↦
              let (refs, own, _) = closed key (asked key (ground (arith, eq_iff key key))) in
              rw (fresh, collect_metrics, own)
                (collect_metrics-ends fuel (diff refs (key ∷ all_keys) ++ to_visit) (key ∷ all_keys)
                  (Inside-next key refs to_visit all_keys asked own))
        ]

  -- If no key stands twice in the catalogue and the needed metrics are found, they are the least set
  -- that has the requested ones and what its formulas refer to, without repetition.
  pub needed_metrics-IsClosure :
      (metric_keys : List String) {result : List String}
      → Distinct metrics
      → needed_metrics parse metric_keys metrics ≡ ok result
      → IsClosure metric_keys result
  unfolding needed_metrics
  needed_metrics-IsClosure metric_keys distinct h =
      let (once, there, closed) =
        collect_metrics-IsClosed distinct (size metric_keys + open_refs parse metrics [])
          metric_keys [] (omega arith) refl (λ k never. cc) h in
      record {
        once = once;
        has_requested = λ k asked. there k (ground arith);
        closed = closed;
        least = λ set asked known.
            collect_metrics-least set known (size metric_keys + open_refs parse metrics [])
              metric_keys [] asked (λ k never. cc) h;
      }

  pub needed_metrics-ends :
      (metric_keys set : List String)
      → ((k : String) → mem k metric_keys ≡ true → mem k set ≡ true)
      → IsClosed set
      → (result : List String) × (needed_metrics parse metric_keys metrics ≡ ok result)
  unfolding needed_metrics
  needed_metrics-ends metric_keys set asked closed =
      collect_metrics-ends set closed (size metric_keys + open_refs parse metrics []) metric_keys []
        asked

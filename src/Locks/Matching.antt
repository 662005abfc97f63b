-- ===== src/Locks/Matching.antt =====
-- When a cell matches all dimensions of a resolved lock.
use precis_finance_mcp.Common.{
  String, ◌≡◌, refl, arith, true, inl, inr, some, List, [], ◌∷◌, mem, Dict, lookup, has_key,
  Distinct, Option-cases, text_cases, eq_refl,
}
use precis_finance_mcp.Scope.{items_of}
use precis_finance_mcp.Locks.{matches_all_dims}

-- The cell has a locked value on every dimension.
abbrev Matches : Dict String → Dict (List String) → Type 0
Matches cell locked =
    (leaf : String)
    → has_key leaf locked ≡ true
    → (x : String) × (lookup leaf cell ≡ some x) × (mem x (items_of (lookup leaf locked)) ≡ true)

pub matches_all_dims-Matches :
    (cell : Dict String) (locked : Dict (List String))
    → matches_all_dims cell locked ≡ true
    → Matches cell locked
unfolding matches_all_dims
matches_all_dims-Matches cell [] h leaf there = cc
matches_all_dims-Matches cell ((k, ids) ∷ locked) h leaf there =
    elim (Option-cases (lookup k cell)) [
      | inl missing ↦ cc (rw (missing, matches_all_dims) at h)
      | inr (v, found) ↦ elim (text_cases k leaf) [
        | inl (e, t) ↦ (v, rw (← e) found, rw t (ground (arith, found)))
        | inr other ↦
            let (x, at_leaf, listed) =
              matches_all_dims-Matches cell locked (ground (arith, found)) leaf
                (rw other at there) in
            (x, at_leaf, rw other listed)
      ]
    ]

pub true_of_Matches :
    (cell : Dict String) (locked : Dict (List String))
    → Distinct locked
    → Matches cell locked
    → matches_all_dims cell locked ≡ true
unfolding matches_all_dims
true_of_Matches cell [] d h = refl
true_of_Matches cell ((k, ids) ∷ locked) d h =
    let (x, found, listed) = h k (ground (arith, eq_refl k)) in
    let rest : Matches cell locked = λ leaf there. elim (text_cases k leaf) [
      | inl (e, _) ↦ ground (arith, e)
      | inr other ↦
          let (y, at_leaf, in_rest) = h leaf (ground arith) in (y, at_leaf, rw other at in_rest)
    ] in
    let here : mem x ids ≡ true = ground (arith, eq_refl k) in
    rw (found, matches_all_dims, here) (true_of_Matches cell locked d.1 rest)

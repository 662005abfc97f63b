-- ===== src/Auth/Choice.antt =====
-- The block that a tool type chooses among the declared roles: the lowest at or above its minimum.
use precis_finance_mcp.Common.{
  ℕ, String, ◌≡◌, refl, Bool, true, false, Option, none, some, List, [], ◌∷◌, eq_iff, arith,
  if◌then◌else◌, leb, ltb, ◌&&◌, ◌||◌, ◌≤◌, ◌<◌, mem, keep, mem-keep, Dict, lookup, has_key, keys,
  mem-keys, lookup-has_key, ◌⊎◌, inl, inr, ◌∙◌, text_cases, Bool-cases, is_empty, not,
}
use precis_finance_mcp.Auth.{ScopeSpec, rank_of, max_role, min_role, choose_scope}

-- The first of the roles that has a block.
abbrev pub nearest : List String → Dict (Option ScopeSpec) → Option (Option ScopeSpec)
nearest [] blocks = none
nearest (role ∷ roles) blocks = elim (lookup role blocks) [
  | none ↦ nearest roles blocks
  | some scope ↦ some scope
]

abbrev pub IsRole : String → Type 0
IsRole role = (role ≡ "analyst") ⊎ ((role ≡ "planner") ⊎ (role ≡ "manager"))

abbrev pub AllRoles : List String → Type 0
AllRoles [] = Unit
AllRoles (role ∷ roles) = IsRole role × AllRoles roles

abbrev pub lowest : List String → String
lowest roles =
    if mem "analyst" roles then "analyst" else if mem "planner" roles then "planner" else "manager"

lowest_swap :
    (a b : String) (roles : List String)
    → IsRole a
    → IsRole b
    → lowest ((if ltb (rank_of b) (rank_of a) then b else a) ∷ roles) ≡ lowest (a ∷ b ∷ roles)
unfolding rank_of
lowest_swap a b roles (inl p) (inl q) = rw (p, q) (ground arith)
lowest_swap a b roles (inl p) (inr (inl q)) = rw (p, q) (ground arith)
lowest_swap a b roles (inl p) (inr (inr q)) = rw (p, q) (ground arith)
lowest_swap a b roles (inr (inl p)) (inl q) = rw (p, q) (ground arith)
lowest_swap a b roles (inr (inl p)) (inr (inl q)) = rw (p, q) (ground arith)
lowest_swap a b roles (inr (inl p)) (inr (inr q)) = rw (p, q) (ground arith)
lowest_swap a b roles (inr (inr p)) (inl q) = rw (p, q) (ground arith)
lowest_swap a b roles (inr (inr p)) (inr (inl q)) = rw (p, q) (ground arith)
lowest_swap a b roles (inr (inr p)) (inr (inr q)) = rw (p, q) (ground arith)

either_IsRole : (t : Bool) (a b : String) → IsRole a → IsRole b → IsRole (if t then b else a)
either_IsRole true a b p q = q
either_IsRole false a b p q = p

lowest_single : (a : String) → IsRole a → a ≡ lowest (a ∷ [])
lowest_single a (inl p) = rw p refl
lowest_single a (inr (inl p)) = rw p refl
lowest_single a (inr (inr p)) = rw p refl

min_role-lowest :
    (best : String) (roles : List String)
    → IsRole best
    → AllRoles roles
    → min_role best roles ≡ lowest (best ∷ roles)
unfolding min_role
min_role-lowest best [] p h = lowest_single best p
min_role-lowest best (role ∷ roles) p h =
    min_role-lowest (if ltb (rank_of role) (rank_of best) then role else best) roles
      (either_IsRole (ltb (rank_of role) (rank_of best)) best role p h.0) h.1
    ∙ lowest_swap best role roles p h.0

-- The greater of two, and no role of the list ranks above the greatest.
rank_of-greater :
    (a b : String)
    → let c = if ltb (rank_of a) (rank_of b) then b else a in
      (rank_of a ≤ rank_of c) × (rank_of b ≤ rank_of c)
rank_of-greater a b = ground arith

rank_of-max_role :
    (best : String) (roles : List String) → rank_of best ≤ rank_of (max_role best roles)
unfolding max_role
rank_of-max_role best [] = omega arith
rank_of-max_role best (role ∷ roles) =
    let c = if ltb (rank_of best) (rank_of role) then role else best in
    omega (arith, rank_of-greater best role, rank_of-max_role c roles)

pub mem-max_role :
    (best : String) (roles : List String) (x : String)
    → mem x (best ∷ roles) ≡ true
    → rank_of x ≤ rank_of (max_role best roles)
unfolding max_role
mem-max_role best [] x h = ground (arith, eq_iff best x)
mem-max_role best (role ∷ roles) x h =
    let c = if ltb (rank_of best) (rank_of role) then role else best in
    let (first, second) = rank_of-greater best role in
    let greatest = rank_of-max_role c roles in
    elim (text_cases best x) [
      | inl (e, _) ↦ rw (← e) (omega arith)
      | inr ne ↦ elim (text_cases role x) [
        | inl (e, _) ↦ rw (← e) (omega arith)
        | inr ne' ↦
            let tail : mem x roles ≡ true = rw (ne, ne') at h in
            mem-max_role c roles x (rw tail (ground arith))
      ]
    ]

-- A list of roles is empty when none of the three is in it.
is_empty_of_roles :
    (roles : List String)
    → AllRoles roles
    → is_empty roles ≡ not (mem "analyst" roles || (mem "planner" roles || mem "manager" roles))
is_empty_of_roles [] h = refl
is_empty_of_roles (role ∷ roles) (inl e, rest) = rw e (ground arith)
is_empty_of_roles (role ∷ roles) (inr (inl e), rest) = rw e (ground arith)
is_empty_of_roles (role ∷ roles) (inr (inr e), rest) = rw e (ground arith)

module _ (blocks : Dict (Option ScopeSpec)) (known : AllRoles (keys blocks)) where
  abbrev candidates : ℕ → List String
  candidates min_rank = keep (λ role. leb min_rank (rank_of role)) (keys blocks)

  candidates-AllRoles :
      (p : String → Bool) (roles : List String) → AllRoles roles → AllRoles (keep p roles)
  candidates-AllRoles p [] h = tt
  candidates-AllRoles p (role ∷ roles) h = elim (Bool-cases (p role)) [
    | inl e ↦ rw e (h.0, candidates-AllRoles p roles h.1)
    | inr e ↦ rw e (candidates-AllRoles p roles h.1)
  ]

  mem-candidates :
      (min_rank : ℕ) (role : String)
      → mem role (candidates min_rank) ≡ (has_key role blocks && leb min_rank (rank_of role))
  mem-candidates min_rank role =
      ground
        (arith, mem-keep (λ r. leb min_rank (rank_of r)) role (keys blocks), mem-keys role blocks)

  -- The lowest of the candidates is the one chosen.
  choose_scope-lowest :
      (roles : List String)
      → AllRoles roles
      → choose_scope blocks roles ≡ (if is_empty roles then none else lookup (lowest roles) blocks)
  unfolding choose_scope
  choose_scope-lowest [] h = refl
  choose_scope-lowest (role ∷ roles) h = rw (min_role-lowest role roles h.0 h.1)

  -- The block chosen for a minimum rank, when the roles at or above it are the listed ones.
  abbrev Chosen : ℕ → List String → Type 0
  Chosen min_rank roles = choose_scope blocks (candidates min_rank) ≡ nearest roles blocks

  pub choose_read : Chosen 0 ("analyst" ∷ "planner" ∷ "manager" ∷ [])
  unfolding rank_of
  choose_read =
      let h = candidates-AllRoles (λ role. leb 0 (rank_of role)) (keys blocks) known in
      choose_scope-lowest (candidates 0) h
      ∙ ground (
        arith,
        is_empty_of_roles (candidates 0) h,
        mem-candidates 0 "analyst",
        mem-candidates 0 "planner",
        mem-candidates 0 "manager",
        lookup-has_key "analyst" blocks,
        lookup-has_key "planner" blocks,
        lookup-has_key "manager" blocks,
      )

  pub choose_write : Chosen 1 ("planner" ∷ "manager" ∷ [])
  unfolding rank_of
  choose_write =
      let h = candidates-AllRoles (λ role. leb 1 (rank_of role)) (keys blocks) known in
      choose_scope-lowest (candidates 1) h
      ∙ ground (
        arith,
        is_empty_of_roles (candidates 1) h,
        mem-candidates 1 "analyst",
        mem-candidates 1 "planner",
        mem-candidates 1 "manager",
        lookup-has_key "planner" blocks,
        lookup-has_key "manager" blocks,
      )

  pub choose_plan_manager : Chosen 2 ("manager" ∷ [])
  unfolding rank_of
  choose_plan_manager =
      let h = candidates-AllRoles (λ role. leb 2 (rank_of role)) (keys blocks) known in
      choose_scope-lowest (candidates 2) h
      ∙ ground (
        arith,
        is_empty_of_roles (candidates 2) h,
        mem-candidates 2 "analyst",
        mem-candidates 2 "planner",
        mem-candidates 2 "manager",
        lookup-has_key "manager" blocks,
      )

  -- A rank above every role has no candidate.
  pub choose_above :
      (min_rank greatest : ℕ)
      → ((role : String) → has_key role blocks ≡ true → rank_of role ≤ greatest)
      → greatest < min_rank
      → choose_scope blocks (candidates min_rank) ≡ none
  choose_above min_rank greatest bound above =
      let h = candidates-AllRoles (λ role. leb min_rank (rank_of role)) (keys blocks) known in
      choose_scope-lowest (candidates min_rank) h
      ∙ ground (
        arith,
        is_empty_of_roles (candidates min_rank) h,
        mem-candidates min_rank "analyst",
        mem-candidates min_rank "planner",
        mem-candidates min_rank "manager",
        bound "analyst",
        bound "planner",
        bound "manager",
      )

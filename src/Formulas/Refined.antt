-- ===== src/Formulas/Refined.antt =====
-- Formulas as texts: evaluate_expression against what the parsed formula means.
use precis_finance_mcp.Common.{◌≡◌, ◌⊎◌, refl, arith, Bool, true, ◌||◌, Bool-cases, inl, inr}
use precis_finance_mcp.Formulas.{
  UnaryOp, BinaryOp, Expr, Exprs, constant, other_constant, name, unary_op, bin_op, call, if_exp,
  attribute, other_node, end, entry, has_attribute, any_attribute,
}

either_of_or : {a b : Bool} → (a || b) ≡ true → (a ≡ true) ⊎ (b ≡ true)
either_of_or {a} {b} h = elim (Bool-cases a) [
  | inl set ↦ inl set
  | inr unset ↦ inr (ground (arith, h, unset))
]

module _ {F : Type 0} where
  mutual
    -- An attribute is accessed somewhere in the expression, evaluated or not.
    pub data Accesses : Expr F → Type 0 where
      here : {e : Expr F} → Accesses (attribute e)
      in_operand : {op : UnaryOp} {e : Expr F} → Accesses e → Accesses (unary_op op e)
      in_left : {op : BinaryOp} {l r : Expr F} → Accesses l → Accesses (bin_op op l r)
      in_right : {op : BinaryOp} {l r : Expr F} → Accesses r → Accesses (bin_op op l r)
      in_func :
          {func : Expr F} {args keywords : Exprs F}
          → Accesses func
          → Accesses (call func args keywords)
      in_args :
          {func : Expr F} {args keywords : Exprs F}
          → Accessed args
          → Accesses (call func args keywords)
      in_keywords :
          {func : Expr F} {args keywords : Exprs F}
          → Accessed keywords
          → Accesses (call func args keywords)
      in_test : {test body orelse : Expr F} → Accesses test → Accesses (if_exp test body orelse)
      in_body : {test body orelse : Expr F} → Accesses body → Accesses (if_exp test body orelse)
      in_orelse : {test body orelse : Expr F} → Accesses orelse → Accesses (if_exp test body orelse)
      in_children : {children : Exprs F} → Accessed children → Accesses (other_node children)

    pub data Accessed : Exprs F → Type 0 where
      first : {e : Expr F} {es : Exprs F} → Accesses e → Accessed (entry e es)
      later : {e : Expr F} {es : Exprs F} → Accessed es → Accessed (entry e es)

  mutual
    unfolding has_attribute

    Accesses-has_attribute : (e : Expr F) → has_attribute e ≡ true → Accesses e
    Accesses-has_attribute (constant x) h = cc
    Accesses-has_attribute other_constant h = cc
    Accesses-has_attribute (name id) h = cc
    Accesses-has_attribute (unary_op op e) h = in_operand (Accesses-has_attribute e h)
    Accesses-has_attribute (bin_op op l r) h = elim (either_of_or h) [
      | inl a ↦ in_left (Accesses-has_attribute l a)
      | inr b ↦ in_right (Accesses-has_attribute r b)
    ]
    Accesses-has_attribute (call func args keywords) h = elim (either_of_or h) [
      | inl a ↦ in_func (Accesses-has_attribute func a)
      | inr b ↦ elim (either_of_or b) [
        | inl c ↦ in_args (Accessed-any_attribute args c)
        | inr d ↦ in_keywords (Accessed-any_attribute keywords d)
      ]
    ]
    Accesses-has_attribute (if_exp test body orelse) h = elim (either_of_or h) [
      | inl a ↦ in_test (Accesses-has_attribute test a)
      | inr b ↦ elim (either_of_or b) [
        | inl c ↦ in_body (Accesses-has_attribute body c)
        | inr d ↦ in_orelse (Accesses-has_attribute orelse d)
      ]
    ]
    Accesses-has_attribute (attribute e) h = here
    Accesses-has_attribute (other_node children) h = in_children (Accessed-any_attribute children h)

    Accessed-any_attribute : (es : Exprs F) → any_attribute es ≡ true → Accessed es
    Accessed-any_attribute end h = cc
    Accessed-any_attribute (entry e es) h = elim (either_of_or h) [
      | inl a ↦ first (Accesses-has_attribute e a)
      | inr b ↦ later (Accessed-any_attribute es b)
    ]

  mutual
    unfolding has_attribute

    has_attribute_of_Accesses : {e : Expr F} → Accesses e → has_attribute e ≡ true
    has_attribute_of_Accesses here = refl
    has_attribute_of_Accesses (in_operand d) = has_attribute_of_Accesses d
    has_attribute_of_Accesses (in_left d) = ground (arith, has_attribute_of_Accesses d)
    has_attribute_of_Accesses (in_right d) = ground (arith, has_attribute_of_Accesses d)
    has_attribute_of_Accesses (in_func d) = ground (arith, has_attribute_of_Accesses d)
    has_attribute_of_Accesses (in_args d) = ground (arith, any_attribute_of_Accessed d)
    has_attribute_of_Accesses (in_keywords d) = ground (arith, any_attribute_of_Accessed d)
    has_attribute_of_Accesses (in_test d) = ground (arith, has_attribute_of_Accesses d)
    has_attribute_of_Accesses (in_body d) = ground (arith, has_attribute_of_Accesses d)
    has_attribute_of_Accesses (in_orelse d) = ground (arith, has_attribute_of_Accesses d)
    has_attribute_of_Accesses (in_children d) = any_attribute_of_Accessed d

    any_attribute_of_Accessed : {es : Exprs F} → Accessed es → any_attribute es ≡ true
    any_attribute_of_Accessed (first d) = ground (arith, has_attribute_of_Accesses d)
    any_attribute_of_Accessed (later d) = ground (arith, any_attribute_of_Accessed d)

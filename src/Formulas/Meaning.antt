-- ===== src/Formulas/Meaning.antt =====
-- What an expression means: a relation of expressions and values, one rule for each way to a value,
-- and its agreement with eval_node.
use precis_finance_mcp.Common.{
  String, ◌≡◌, refl, true, false, Option, none, some, eq_iff, if◌then◌else◌, lookup, ok, ◌>>=◌,
  >>=-eq-ok, Bool-cases, Option-cases, inl, inr, subst, sym, ◌∙◌, ap, ok-injective,
}
use precis_finance_mcp.Formulas.{
  Floats, usub, uadd, other_unary, BinaryOp, add, sub, mult, div, other_binary, Expr, constant,
  other_constant, name, unary_op, bin_op, call, if_exp, attribute, other_node, end, entry, Row,
  apply, binary_value, negated, absolute, holds, is_abs, eval_node,
}

module _ {F : Type 0} (floats : Floats F) (row : Row F) where
  -- `Means e v`: the expression has the value, which may be missing.
  pub data Means : Expr F → Option F → Type 0 where
    number : {x : F} → Means (constant x) (some x)
    known : {id : String} {v : Option F} → lookup id row ≡ some v → Means (name id) v
    plus : {e : Expr F} {v : Option F} → Means e v → Means (unary_op uadd e) v
    minus : {e : Expr F} {x : F} → Means e (some x) → Means (unary_op usub e) (some (floats.neg x))
    minus_missing : {e : Expr F} → Means e none → Means (unary_op usub e) none
    left_missing :
        {op : BinaryOp} {l r : Expr F} {v : Option F}
        → Means l none
        → Means r v
        → Means (bin_op op l r) none
    right_missing :
        {op : BinaryOp} {l r : Expr F} {x : F}
        → Means l (some x)
        → Means r none
        → Means (bin_op op l r) none
    sum :
        {l r : Expr F} {x y : F}
        → Means l (some x)
        → Means r (some y)
        → Means (bin_op add l r) (some (floats.add x y))
    difference :
        {l r : Expr F} {x y : F}
        → Means l (some x)
        → Means r (some y)
        → Means (bin_op sub l r) (some (floats.sub x y))
    multiple :
        {l r : Expr F} {x y : F}
        → Means l (some x)
        → Means r (some y)
        → Means (bin_op mult l r) (some (floats.mult x y))
    quotient :
        {l r : Expr F} {x y : F}
        → Means l (some x)
        → Means r (some y)
        → floats.is_zero y ≡ false
        → Means (bin_op div l r) (some (floats.div x y))
    by_zero :
        {l r : Expr F} {x y : F}
        → Means l (some x)
        → Means r (some y)
        → floats.is_zero y ≡ true
        → Means (bin_op div l r) none
    magnitude :
        {e : Expr F} {x : F}
        → Means e (some x)
        → Means (call (name "abs") (entry e end) end) (some (floats.abs x))
    magnitude_missing :
        {e : Expr F} → Means e none → Means (call (name "abs") (entry e end) end) none
    taken :
        {test body orelse : Expr F} {x : F} {v : Option F}
        → Means test (some x)
        → floats.is_zero x ≡ false
        → Means body v
        → Means (if_exp test body orelse) v
    not_taken :
        {test body orelse : Expr F} {x : F} {v : Option F}
        → Means test (some x)
        → floats.is_zero x ≡ true
        → Means orelse v
        → Means (if_exp test body orelse) v
    test_missing :
        {test body orelse : Expr F} {v : Option F}
        → Means test none
        → Means orelse v
        → Means (if_exp test body orelse) v

  pub eval_node_of_Means : {e : Expr F} {v : Option F} → Means e v → eval_node floats e row ≡ ok v
  unfolding eval_node
  eval_node_of_Means number = refl
  eval_node_of_Means (known h) = rw h refl
  eval_node_of_Means (plus d) = eval_node_of_Means d
  eval_node_of_Means (minus d) = rw (eval_node_of_Means d) refl
  eval_node_of_Means (minus_missing d) = rw (eval_node_of_Means d) refl
  eval_node_of_Means (left_missing l r) = rw (eval_node_of_Means l, eval_node_of_Means r) refl
  eval_node_of_Means (right_missing l r) = rw (eval_node_of_Means l, eval_node_of_Means r) refl
  eval_node_of_Means (sum l r) = rw (eval_node_of_Means l, eval_node_of_Means r) refl
  eval_node_of_Means (difference l r) = rw (eval_node_of_Means l, eval_node_of_Means r) refl
  eval_node_of_Means (multiple l r) = rw (eval_node_of_Means l, eval_node_of_Means r) refl
  eval_node_of_Means (quotient l r h) =
      rw (eval_node_of_Means l, eval_node_of_Means r, ◌>>=◌, h) refl
  eval_node_of_Means (by_zero l r h) =
      rw (eval_node_of_Means l, eval_node_of_Means r, ◌>>=◌, h) refl
  eval_node_of_Means (magnitude d) = rw (eval_node_of_Means d) refl
  eval_node_of_Means (magnitude_missing d) = rw (eval_node_of_Means d) refl
  eval_node_of_Means (taken t h d) = rw (eval_node_of_Means t, ◌>>=◌, h) (eval_node_of_Means d)
  eval_node_of_Means (not_taken t h d) = rw (eval_node_of_Means t, ◌>>=◌, h) (eval_node_of_Means d)
  eval_node_of_Means (test_missing t d) = rw (eval_node_of_Means t) (eval_node_of_Means d)

  apply-Means :
      (op : BinaryOp) {l r : Expr F} {x y : F} {v : Option F}
      → Means l (some x)
      → Means r (some y)
      → apply floats op x y ≡ ok v
      → Means (bin_op op l r) v
  apply-Means add l r h = subst (Means _) (ok-injective h) (sum l r)
  apply-Means sub l r h = subst (Means _) (ok-injective h) (difference l r)
  apply-Means mult l r h = subst (Means _) (ok-injective h) (multiple l r)
  apply-Means div {y} l r h = elim (Bool-cases (floats.is_zero y)) [
    | inl zero ↦ subst (Means _) (ok-injective (rw zero at h)) (by_zero l r zero)
    | inr other ↦ subst (Means _) (ok-injective (rw other at h)) (quotient l r other)
  ]
  apply-Means other_binary l r h = cc

  binary_value-Means :
      (op : BinaryOp) {l r : Expr F} (x y : Option F) {v : Option F}
      → Means l x
      → Means r y
      → binary_value floats op x y ≡ ok v
      → Means (bin_op op l r) v
  binary_value-Means op (some x) (some y) l r h = apply-Means op l r h
  binary_value-Means op none y l r h = subst (Means _) (ok-injective h) (left_missing l r)
  binary_value-Means op (some x) none l r h = subst (Means _) (ok-injective h) (right_missing l r)

  negated-Means :
      {e : Expr F} (x : Option F) → Means e x → Means (unary_op usub e) (negated floats x)
  negated-Means none d = minus_missing d
  negated-Means (some x) d = minus d

  absolute-Means :
      {e : Expr F} (x : Option F)
      → Means e x
      → Means (call (name "abs") (entry e end) end) (absolute floats x)
  absolute-Means none d = magnitude_missing d
  absolute-Means (some x) d = magnitude d

  -- Only a name can be that of the one function there is.
  named_abs : (func : Expr F) → is_abs floats func ≡ true → name "abs" ≡ func
  named_abs (name f) h = ap name (sym ((eq_iff f "abs").0 h))
  named_abs (constant x) h = cc
  named_abs other_constant h = cc
  named_abs (unary_op op e) h = cc
  named_abs (bin_op op l r) h = cc
  named_abs (call f args keywords) h = cc
  named_abs (if_exp test body orelse) h = cc
  named_abs (attribute e) h = cc
  named_abs (other_node children) h = cc

  Means_of_branch :
      {test body orelse : Expr F} {v : Option F} (t : Option F)
      → Means test t
      → (eval_node floats body row ≡ ok v → Means body v)
      → (eval_node floats orelse row ≡ ok v → Means orelse v)
      → (if holds floats t then eval_node floats body row else eval_node floats orelse row) ≡ ok v
      → Means (if_exp test body orelse) v
  Means_of_branch none t if_body if_orelse h = test_missing t (if_orelse h)
  Means_of_branch (some x) t if_body if_orelse h = elim (Bool-cases (floats.is_zero x)) [
    | inl zero ↦ not_taken t zero (if_orelse (rw zero at h))
    | inr other ↦ taken t other (if_body (rw other at h))
  ]

  pub Means_of_eval_node : (e : Expr F) {v : Option F} → eval_node floats e row ≡ ok v → Means e v
  unfolding eval_node
  Means_of_eval_node (constant x) h = subst (Means _) (ok-injective h) number
  Means_of_eval_node other_constant h = cc
  Means_of_eval_node (name id) h = elim (Option-cases (lookup id row)) [
    | inl unknown ↦ cc (rw unknown at h)
    | inr (value, found) ↦ known (found ∙ ap some (ok-injective (rw found at h)))
  ]
  Means_of_eval_node (unary_op usub e) h =
      let (x, own, answer) = >>=-eq-ok (eval_node floats e row) _ h in
      subst (Means _) (ok-injective answer) (negated-Means x (Means_of_eval_node e own))
  Means_of_eval_node (unary_op uadd e) h = plus (Means_of_eval_node e h)
  Means_of_eval_node (unary_op other_unary e) h = cc
  Means_of_eval_node (bin_op op l r) h =
      let (x, left, rest) = >>=-eq-ok (eval_node floats l row) _ h in
      let (y, right, answer) = >>=-eq-ok (eval_node floats r row) _ rest in
      binary_value-Means op x y (Means_of_eval_node l left) (Means_of_eval_node r right) answer
  Means_of_eval_node (call func (entry e end) end) {v} h = elim (Bool-cases (is_abs floats func)) [
    | inr other ↦ cc (rw other at h)
    | inl is_named ↦
        let (x, own, answer) = >>=-eq-ok (eval_node floats e row) _ (rw is_named at h) in
        subst (λ (f : Expr F). Means (call f (entry e end) end) v) (named_abs func is_named)
          (subst (Means _) (ok-injective answer) (absolute-Means x (Means_of_eval_node e own)))
  ]
  Means_of_eval_node (call func end keywords) h = elim (Bool-cases (is_abs floats func)) [
    | inr other ↦ cc (rw other at h)
    | inl is_named ↦ cc (rw is_named at h)
  ]
  Means_of_eval_node (call func (entry e end) (entry k keywords)) h =
      elim (Bool-cases (is_abs floats func)) [
        | inr other ↦ cc (rw other at h)
        | inl is_named ↦ cc (rw is_named at h)
      ]
  Means_of_eval_node (call func (entry e (entry more args)) keywords) h =
      elim (Bool-cases (is_abs floats func)) [
        | inr other ↦ cc (rw other at h)
        | inl is_named ↦ cc (rw is_named at h)
      ]
  Means_of_eval_node (if_exp test body orelse) h =
      let (t, own, answer) = >>=-eq-ok (eval_node floats test row) _ h in
      Means_of_branch t (Means_of_eval_node test own) (Means_of_eval_node body)
        (Means_of_eval_node orelse) answer
  Means_of_eval_node (attribute e) h = cc
  Means_of_eval_node (other_node children) h = cc

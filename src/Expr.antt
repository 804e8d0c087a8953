-- ===== src/Expr.antt =====
-- Expressions: building the list form of a Boolean, set or category expression from parse nodes
-- (src/cil_build_ast.c), resolving its names, and evaluating it for a tunableif
-- (src/cil_resolve_ast.c).
pub mod Conditions
pub mod Evaluate
pub mod Constraint
pub mod Examples
use cil.Base.{
  ℕ, zero, suc, ◌≡◌, refl, List, [], ◌∷◌, Option, none, some, Bool, true, false, ◌&&◌, ◌||◌, not,
  ◌==◌, if◌then◌else◌, Status, sepol_ok, is_ok,
}
use cil.Base.Int.{ℤ, pos, ◌+ℤ◌, ◌-ℤ◌, lt_ℤ}
use cil.Flavor.{
  Flavor, cil_none, cil_bool, cil_all, cil_and, cil_or, cil_xor, cil_not, cil_eq, cil_neq,
  cil_range,
}
use cil.Text.{
  Text, text_eq, cil_key_and, cil_key_or, cil_key_not, cil_key_eq, cil_key_neq, cil_key_xor,
  cil_key_all, cil_key_range,
}
use cil.Tree.{Node, Nodes, node, nil, cons}
use cil.Verify.Expressions.{verify_expr_syntax}

-- The items of a struct cil_list that holds an expression over data `D`. An operator or an operand
-- is its flavor. A CIL_STRING item can hold NULL.
mutual
  pub data Item (D : Type 0) : Type 0 where
    op : Flavor → Item D
    operand : Flavor → Item D
    string : Option Text → Item D
    datum : D → Item D
    list : Flavor → Items D → Item D

  pub data Items (D : Type 0) : Type 0 where
    end : Items D
    item : Item D → Items D → Items D

infixl 5 ◌>>=◌
abbrev pub ◌>>=◌ {ℓ κ} : {A : Type ℓ} {B : Type κ} → Option A → (A → Option B) → Option B
none >>= f = none
some a >>= f = f a

unfoldable pub get_expr_operator_flavor : Option Text → Flavor
get_expr_operator_flavor none = cil_none
get_expr_operator_flavor (some t) =
    if text_eq t cil_key_and
    then cil_and
    else if text_eq t cil_key_or
    then cil_or
    else if text_eq t cil_key_not
    then cil_not
    else if text_eq t cil_key_eq
    then cil_eq
    else if text_eq t cil_key_neq
    then cil_neq
    else if text_eq t cil_key_xor
    then cil_xor
    else if text_eq t cil_key_all
    then cil_all
    else if text_eq t cil_key_range
    then cil_range
    else cil_none

-- What a step adds to the list, and the new `*depth`; `none` is SEPOL_ERR.
abbrev pub Fill : Type 0 → Type 0
Fill D = ℤ → Option (Items D × ℤ)

-- COND_EXPR_MAXDEPTH is libsepol's: it is the parameter `max_depth`.
module _ {D : Type 0} (max_depth : ℕ) (flavor : Flavor) where
  -- The expression of the siblings `nodes`, the first of which has the data `t`. `all` and `rest`
  -- are the loop from that node on and from the one behind it.
  unfoldable pub fill_expr_helper : Nodes → Option Text → Fill D → Fill D → Fill D
  fill_expr_helper nodes t all rest depth =
      let operator = get_expr_operator_flavor t in
      let deeper = if operator == cil_none || operator == cil_all then depth +ℤ pos 1 else depth in
      if flavor == cil_bool && lt_ℤ (pos max_depth) depth
      then none
      else (if is_ok (verify_expr_syntax nodes operator flavor)
          then (if operator == cil_none
              then (all deeper >>= λ (is, d). some (is, d -ℤ pos 1))
              else (rest deeper >>= λ (is, d). some (item (op operator) is, d -ℤ pos 1)))
          else none)

  unfoldable mutual
    pub fill_expr : Node → ℤ → Option (Item D × ℤ)
    fill_expr (node l t nil) depth =
        if get_expr_operator_flavor t == cil_none then some (string t, depth) else none
    fill_expr (node l t (cons (node k u ds) cs)) depth =
        fill_expr_helper (cons (node k u ds) cs) u (fill_all (cons (node k u ds) cs)) (fill_all cs)
          depth
        >>= λ (is, d). some (list flavor is, d)

    -- The loop over the operands.
    pub fill_all : Nodes → Fill D
    fill_all nil depth = some (end, depth)
    fill_all (cons n ns) depth =
        fill_expr n depth >>= λ (i, d). fill_all ns d >>= λ (is, e). some (item i is, e)

  unfoldable pub gen_expr : Node → Option (Items D)
  gen_expr (node l t nil) = fill_expr (node l t nil) (pos 0) >>= λ (i, _). some (item i end)
  gen_expr (node l t (cons (node k u ds) cs)) =
      fill_expr_helper (cons (node k u ds) cs) u (fill_all (cons (node k u ds) cs)) (fill_all cs)
        (pos 0)
      >>= λ (is, _). some is

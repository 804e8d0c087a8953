-- ===== src/Expr/Constraint.antt =====
-- Building the list form of a constraint expression, of src/cil_build_ast.c. CEXPR_MAXDEPTH is
-- libsepol's and a parameter.
pub mod Depth
use cil.Base.{
  ℕ, zero, suc, ◌≡◌, refl, List, [], ◌∷◌, Option, none, some, Bool, true, false, ◌&&◌, ◌||◌, not,
  ◌==◌, if◌then◌else◌, Status, is_ok,
}
use cil.Base.Int.{ℤ, pos, ◌+ℤ◌, ◌-ℤ◌, lt_ℤ}
use cil.Flavor.{
  Flavor, cil_none, cil_string, cil_list, cil_and, cil_or, cil_not, cil_eq, cil_neq, cil_cons_dom,
  cil_cons_domby, cil_cons_incomp, cil_cons_t1, cil_cons_t2, cil_cons_t3, cil_cons_r1, cil_cons_r2,
  cil_cons_r3, cil_cons_u1, cil_cons_u2, cil_cons_u3, cil_cons_l1, cil_cons_l2, cil_cons_h1,
  cil_cons_h2, cil_user, cil_role, cil_type, cil_level,
}
use cil.Text.{
  Text, text_eq, cil_key_and, cil_key_or, cil_key_not, cil_key_eq, cil_key_neq, cil_key_cons_dom,
  cil_key_cons_domby, cil_key_cons_incomp, cil_key_cons_t1, cil_key_cons_t2, cil_key_cons_t3,
  cil_key_cons_r1, cil_key_cons_r2, cil_key_cons_r3, cil_key_cons_u1, cil_key_cons_u2,
  cil_key_cons_u3, cil_key_cons_l1, cil_key_cons_l2, cil_key_cons_h1, cil_key_cons_h2,
}
use cil.Tree.{Node, Nodes, node, nil, cons}
use cil.Verify.Expressions.{verify_constraint_leaf_expr_syntax, verify_constraint_expr_syntax}

-- The first entry of a table of keywords with this text.
pub find_key : List (Text × Flavor) → Flavor → Text → Flavor
find_key [] other t = other
find_key ((k, f) ∷ ks) other t = if text_eq t k then f else find_key ks other t

abbrev pub operator_keys : List (Text × Flavor)
operator_keys =
    (cil_key_and, cil_and)
    ∷ (cil_key_or, cil_or)
    ∷ (cil_key_not, cil_not)
    ∷ (cil_key_eq, cil_eq)
    ∷ (cil_key_neq, cil_neq)
    ∷ (cil_key_cons_dom, cil_cons_dom)
    ∷ (cil_key_cons_domby, cil_cons_domby)
    ∷ (cil_key_cons_incomp, cil_cons_incomp)
    ∷ []

pub get_constraint_operator_flavor : Text → Flavor
unfolding find_key
get_constraint_operator_flavor t = find_key operator_keys cil_none t

abbrev pub operand_keys : List (Text × Flavor)
operand_keys =
    (cil_key_cons_t1, cil_cons_t1)
    ∷ (cil_key_cons_t2, cil_cons_t2)
    ∷ (cil_key_cons_t3, cil_cons_t3)
    ∷ (cil_key_cons_r1, cil_cons_r1)
    ∷ (cil_key_cons_r2, cil_cons_r2)
    ∷ (cil_key_cons_r3, cil_cons_r3)
    ∷ (cil_key_cons_u1, cil_cons_u1)
    ∷ (cil_key_cons_u2, cil_cons_u2)
    ∷ (cil_key_cons_u3, cil_cons_u3)
    ∷ (cil_key_cons_l1, cil_cons_l1)
    ∷ (cil_key_cons_l2, cil_cons_l2)
    ∷ (cil_key_cons_h1, cil_cons_h1)
    ∷ (cil_key_cons_h2, cil_cons_h2)
    ∷ []

pub get_constraint_operand_flavor : Option Text → Flavor
unfolding find_key
get_constraint_operand_flavor none = cil_list
get_constraint_operand_flavor (some t) = find_key operand_keys cil_string t

-- The flavor of the leaf's list, by its left operand.
pub leaf_expr_flavor : Flavor → Option Flavor
leaf_expr_flavor l =
    if l == cil_cons_u1 || (l == cil_cons_u2 || l == cil_cons_u3)
    then some cil_user
    else if l == cil_cons_r1 || (l == cil_cons_r2 || l == cil_cons_r3)
    then some cil_role
    else if l == cil_cons_t1 || (l == cil_cons_t2 || l == cil_cons_t3)
    then some cil_type
    else if l == cil_cons_l1 || (l == cil_cons_l2 || (l == cil_cons_h1 || l == cil_cons_h2))
    then some cil_level
    else none

-- The right side of a leaf as the list holds it. For a list of strings the item's data is
-- `&sub_list`, the address of a local variable of the function, and not the list.
pub data Right : Type 0 where
  right_string : Option Text → Right
  right_operand : Flavor → Right
  local_address : Right

pub data Constraint : Type 0 where
  leaf : Flavor → (op left : Flavor) → Right → Constraint
  unary : Flavor → Constraint → Constraint
  binary : Flavor → Constraint → Constraint → Constraint

-- SEPOL_OK with the expression and the new `*depth`, SEPOL_ERR, or a read through NULL.
pub data Fill : Type 0 where
  filled : Constraint → ℤ → Fill
  refused : Fill
  fault : Fill

abbrev pub then_fill : Fill → (Constraint → ℤ → Fill) → Fill
then_fill (filled c d) k = k c d
then_fill refused k = refused
then_fill fault k = fault

abbrev pub right_item : Flavor → Option Text → Right
right_item r u =
    if r == cil_string
    then right_string u
    else (if r == cil_list then local_address else right_operand r)

-- From the operator's flavor and the data of the two nodes behind it.
pub fill_constraint_leaf_expr : Flavor → Flavor → Option Text → Option Text → Option Constraint
fill_constraint_leaf_expr expr_flavor op t u =
    let l = get_constraint_operand_flavor t in
    let r = get_constraint_operand_flavor u in
    elim (leaf_expr_flavor l) [
      | none ↦ none
      | some f ↦
          if is_ok (verify_constraint_leaf_expr_syntax l r op expr_flavor)
          then some (leaf f op l (right_item r u))
          else none
    ]

abbrev pub is_leaf_operator : Flavor → Bool
is_leaf_operator op =
    op == cil_eq
    || (op == cil_neq || (op == cil_cons_dom || (op == cil_cons_domby || op == cil_cons_incomp)))

abbrev pub leaf_fill : Option Constraint → ℤ → Fill
leaf_fill none d = refused
leaf_fill (some c) d = filled c d

module _ (max_depth : ℕ) (flavor : Flavor) where
  -- The guards before the switch.
  pub constraint_guard : Nodes → Text → ℤ → Bool
  constraint_guard nodes t depth =
      not (lt_ℤ (pos max_depth) depth)
      && is_ok (verify_constraint_expr_syntax nodes (get_constraint_operator_flavor t))

  -- `current` is the first of the siblings. The last cases are a NULL `current`, a first node that
  -- is no string, and reads of nodes that the syntax check has made sure of.
  pub fill_constraint_expr : Nodes → ℤ → Fill
  fill_constraint_expr (cons (node l (some t) nil) (cons (node k u cs) (cons (node k' u' cs') r)))
        depth =
      let operator = get_constraint_operator_flavor t in
      let nodes = cons (node l (some t) nil) (cons (node k u cs) (cons (node k' u' cs') r)) in
      let first = fill_constraint_expr cs depth in
      let second = fill_constraint_expr cs' in
      if constraint_guard nodes t depth
      then (if is_leaf_operator operator
          then leaf_fill (fill_constraint_leaf_expr flavor operator u u')
              ((depth +ℤ pos 1) -ℤ pos 1)
          else (if operator == cil_not
              then (then_fill first λ c d. filled (unary operator c) (d -ℤ pos 1))
              else (then_fill first λ c d.
                  then_fill (second d) λ c' d'. filled (binary operator c c') (d' -ℤ pos 1))))
      else refused
  fill_constraint_expr (cons (node l (some t) nil) (cons (node k u cs) nil)) depth =
      let operator = get_constraint_operator_flavor t in
      let nodes = cons (node l (some t) nil) (cons (node k u cs) nil) in
      let first = fill_constraint_expr cs depth in
      if constraint_guard nodes t depth
      then (if operator == cil_not
          then (then_fill first λ c d. filled (unary operator c) (d -ℤ pos 1))
          else fault)
      else refused
  fill_constraint_expr (cons (node l (some t) nil) nil) depth =
      if constraint_guard (cons (node l (some t) nil) nil) t depth then fault else refused
  fill_constraint_expr (cons (node l (some t) (cons c cs)) ns) depth = refused
  fill_constraint_expr (cons (node l none cs) ns) depth = refused
  fill_constraint_expr nil depth = fault

  pub gen_constraint_expr : Node → Fill
  gen_constraint_expr (node l t nil) = refused
  gen_constraint_expr (node l t (cons c cs)) = fill_constraint_expr (cons c cs) (pos 0)

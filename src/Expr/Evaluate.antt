-- ===== src/Expr/Evaluate.antt =====
-- Resolving the names of an expression and evaluating a tunableif's condition, of
-- src/cil_resolve_ast.c. Looking a name up (cil_resolve_name) is the argument `resolve_name`; the
-- mark that cil_type_used leaves on a type attribute is not modelled. A tunable's value is 0 or 1.
pub mod Meaning
use cil.Base.{
  ℕ, ◌≡◌, refl, List, Option, none, some, Bool, true, false, ◌&&◌, ◌||◌, not, ◌==◌, if◌then◌else◌,
  Status, sepol_ok, is_ok,
}
use mathlib.Core.Bool.{xor}
use cil.Flavor.{
  Flavor, cil_and, cil_or, cil_xor, cil_not, cil_eq, cil_neq, cil_bool, cil_tunable, cil_type,
  cil_role, cil_user, cil_cat,
}
use cil.Flavor.Index.{
  cil_sym_bools, cil_sym_tunables, cil_sym_types, cil_sym_roles, cil_sym_users, cil_sym_cats,
  cil_sym_unknown,
}
use cil.Text.{Text}
use cil.Expr.{Item, Items, op, operand, string, datum, list, end, item, ◌>>=◌}

-- The table for the names of a list of the given flavor.
unfoldable pub sym_index_of : Flavor → ℕ
sym_index_of f =
    if f == cil_bool
    then cil_sym_bools
    else if f == cil_tunable
    then cil_sym_tunables
    else if f == cil_type
    then cil_sym_types
    else if f == cil_role
    then cil_sym_roles
    else if f == cil_user
    then cil_sym_users
    else if f == cil_cat
    then cil_sym_cats
    else cil_sym_unknown

module _ {D : Type 0} (resolve_name : ℕ → Option Text → Status × D) where
  mutual
    -- The status, and the new item, which the loop appends where the status is SEPOL_OK. The first
    -- argument is the table of the list that the item stands in.
    pub resolve_item : ℕ → Item ⊥ → Status × Item D
    resolve_item s (op o) = (sepol_ok, op o)
    resolve_item s (operand o) = (sepol_ok, operand o)
    resolve_item s (string t) = let r = resolve_name s t in (r.0, datum r.1)
    resolve_item s (datum d) = absurd d
    resolve_item s (list f is) = let r = resolve_expr f is in (r.0, list f r.1)

    -- The status and the new list, of the items before the first that fails. The flavor is that of
    -- the list.
    pub resolve_expr : Flavor → Items ⊥ → Status × Items D
    resolve_expr f end = (sepol_ok, end)
    resolve_expr f (item i is) =
        let r = resolve_item (sym_index_of f) i in
        let rest = resolve_expr f is in if is_ok r.0 then (rest.0, item r.1 rest.1) else (r.0, end)

-- The value of an operator at its two operands.
pub evaluate_op : Flavor → Bool → Bool → Bool
evaluate_op o v1 v2 =
    if o == cil_and
    then v1 && v2
    else if o == cil_or
    then v1 || v2
    else if o == cil_xor
    then xor v1 v2
    else if o == cil_eq
    then not (xor v1 v2)
    else if o == cil_neq
    then xor v1 v2
    else false

-- `none` is a read through NULL: an operator with nothing behind it, but `not`.
module _ {D : Type 0} (value : D → Bool) where
  -- The operator `o` and its operands; the second is needed only if `o` is not `not`.
  abbrev pub apply_op : Flavor → Option Bool → Option Bool → Option Bool
  apply_op o first second = first >>= λ v1.
      if o == cil_not then some (not v1) else (second >>= λ v2. some (evaluate_op o v1 v2))

  mutual
    pub evaluate_item : Item D → Option Bool
    evaluate_item (op o) = some false
    evaluate_item (operand o) = some false
    evaluate_item (string t) = some false
    evaluate_item (datum d) = some (value d)
    evaluate_item (list f is) = evaluate_expr is

    pub evaluate_expr : Items D → Option Bool
    evaluate_expr end = some false
    evaluate_expr (item (op o) end) = apply_op o (some false) none
    evaluate_expr (item (op o) (item a end)) = apply_op o (evaluate_item a) (some false)
    evaluate_expr (item (op o) (item a (item b r))) = apply_op o (evaluate_item a) (evaluate_item b)
    evaluate_expr (item i is) =
        let rest = evaluate_any is in evaluate_item i >>= λ v. if v then some true else rest

    -- The loop of the other case: the first operand that holds.
    pub evaluate_any : Items D → Option Bool
    evaluate_any end = some false
    evaluate_any (item i is) =
        let rest = evaluate_any is in evaluate_item i >>= λ v. if v then some true else rest

  -- What cil_resolve_tunif does between the resolution of its condition and the choice of a branch.
  pub evaluate_resolved : Status × Items D → Option Bool
  evaluate_resolved (rc, is) = if is_ok rc then evaluate_expr is else none

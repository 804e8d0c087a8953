-- ===== src/Copy.antt =====
-- Copying the statements of a block or a macro, of src/cil_copy_ast.c: the fields that building the
-- AST sets. A list gets new items, and a field of a structure that is not copied is NULL.
pub mod Labels
pub mod Statements
pub mod Faithful
pub mod Declared
pub mod Examples
use cil.Base.{ℕ, List, [], ◌∷◌, Option, none, some, Bool, true, false}
use cil.Build.Fill.{
  Expression, Ref, named, anonymous, LevelStr, LevelRangeStr, ContextStr, ClassPerms, classperms,
  classperms_set,
}
use cil.Expr.{Item, Items, op, operand, string, datum, list, end, item}
use cil.Flavor.{Flavor}
use cil.Text.{Text}

-- `cil_copy_list` of the names of an order or a default.
unfoldable pub copy_strings : List Text → List Text
copy_strings [] = []
copy_strings (t ∷ ts) = t ∷ copy_strings ts

unfoldable mutual
  pub copy_list : Expression → Expression
  copy_list end = end
  copy_list (item x is) = item (copy_list_item x) (copy_list is)

  copy_list_item : Item ℕ → Item ℕ
  copy_list_item (string t) = string t
  copy_list_item (list f is) = list f (copy_list is)
  copy_list_item (op f) = op f
  copy_list_item (operand f) = operand f
  copy_list_item (datum d) = datum d

unfoldable mutual
  pub copy_expr : Expression → Expression
  copy_expr end = end
  copy_expr (item x is) = item (copy_expr_item x) (copy_expr is)

  copy_expr_item : Item ℕ → Item ℕ
  copy_expr_item (list f is) = list f (copy_expr is)
  copy_expr_item (string t) = string t
  copy_expr_item (datum d) = datum d
  copy_expr_item (op f) = op f
  copy_expr_item (operand f) = operand f

unfoldable pub copy_classperms : Text → Expression → ClassPerms
unfolding copy_list
copy_classperms class_str perm_strs = classperms class_str (copy_list perm_strs)

unfoldable pub copy_classperms_list : List ClassPerms → List ClassPerms
unfolding copy_classperms
copy_classperms_list [] = []
copy_classperms_list (classperms c ps ∷ cps) = copy_classperms c ps ∷ copy_classperms_list cps
copy_classperms_list (classperms_set s ∷ cps) = classperms_set s ∷ copy_classperms_list cps

unfoldable pub copy_cats : Expression → Expression
unfolding copy_expr
copy_cats str_expr = copy_expr str_expr

unfoldable pub copy_level_cats : Option Expression → Option Expression
unfolding copy_cats
copy_level_cats none = none
copy_level_cats (some e) = some (copy_cats e)

unfoldable pub copy_fill_level : LevelStr → LevelStr
unfolding copy_level_cats
copy_fill_level orig = record { sens_str = orig.sens_str; cats = copy_level_cats orig.cats }

-- A name, or what the structure holds in its place.
abbrev pub copy_ref : {A : Type 0} → (A → A) → Ref A → Ref A
copy_ref copy (named t) = named t
copy_ref copy (anonymous a) = anonymous (copy a)

unfoldable pub copy_fill_levelrange : LevelRangeStr → LevelRangeStr
unfolding copy_fill_level
copy_fill_levelrange orig = record {
  low = copy_ref copy_fill_level orig.low;
  high = copy_ref copy_fill_level orig.high;
}

unfoldable pub copy_fill_context : ContextStr → ContextStr
unfolding copy_fill_levelrange
copy_fill_context orig = record {
  user_str = orig.user_str;
  role_str = orig.role_str;
  type_str = orig.type_str;
  range = copy_ref copy_fill_levelrange orig.range;
}

-- ===== src/Build/Fill.antt =====
-- The parts that statements share: lists of names, levels, ranges, contexts and permissions, of
-- src/cil_build_ast.c, with the fields that are set before names are resolved. `none` is SEPOL_ERR.
-- Once its syntax has been checked, the string of a node is not NULL.
use cil.Base.{ℕ, List, [], ◌∷◌, Option, none, some, if◌then◌else◌, is_ok}
use cil.Expr.{Items, gen_expr, ◌>>=◌}
use cil.Flavor.{cil_cat, cil_perm}
use cil.Text.{Text}
use cil.Tree.{Nodes, node, nil, cons}
use cil.Verify.{
  Syntax, verify_syntax, string_syntax, list_syntax, n_lists_syntax, n_strings_syntax, end_syntax,
  either, operand_syntax,
}

-- An expression; a datum is its address.
abbrev pub Expression : Type 0
Expression = Items ℕ

-- What a statement gives by a name, or in full: of the two fields in C, the other is NULL.
pub data Ref (A : Type 0) : Type 0 where
  named : Text → Ref A
  anonymous : A → Ref A

-- Of `struct cil_level`.
pub record LevelStr : Type 0 where
  pub sens_str : Text
  pub cats : Option Expression

-- Of `struct cil_levelrange`.
pub record LevelRangeStr : Type 0 where
  pub low : Ref LevelStr
  pub high : Ref LevelStr

-- Of `struct cil_context`.
pub record ContextStr : Type 0 where
  pub user_str : Text
  pub role_str : Text
  pub type_str : Text
  pub range : Ref LevelRangeStr

-- `struct cil_classperms` and `struct cil_classperms_set`
pub data ClassPerms : Type 0 where
  classperms : Text → Expression → ClassPerms
  classperms_set : Text → ClassPerms

abbrev pub next : Nodes → Nodes
next nil = nil
next (cons n ns) = ns

-- `data` of the node that the pointer stands for.
abbrev pub data_of : Nodes → Option Text
data_of nil = none
data_of (cons (node l t cs) ns) = t

abbrev pub cl_head : Nodes → Nodes
cl_head nil = nil
cl_head (cons (node l t cs) ns) = cs

-- What follows the check of the syntax.
abbrev pub checked {ℓ} : {A : Type ℓ} → Nodes → List Syntax → Option A → Option A
checked parse_current syntax o = if is_ok (verify_syntax parse_current syntax) then o else none

-- A node that is a name, or a list to be read by `fill`.
unfoldable pub fill_ref : {A : Type 0} → (Nodes → Option A) → Nodes → Option (Ref A)
fill_ref fill nil = none
fill_ref fill (cons (node l none nil) ns) = none
fill_ref fill (cons (node l (some t) nil) ns) = some (named t)
fill_ref fill (cons (node l t (cons c cs)) ns) = fill (cons c cs) >>= λ a. some (anonymous a)

unfoldable pub strings : Nodes → Option (List Text)
strings nil = some []
strings (cons (node l t cs) ns) = t >>= λ s. strings ns >>= λ ss. some (s ∷ ss)

unfoldable pub fill_list : Nodes → Option (List Text)
unfolding strings verify_syntax
fill_list current = checked current (n_strings_syntax ∷ end_syntax ∷ []) (strings current)

module _ (max_depth : ℕ) where
  unfoldable pub fill_cats : Nodes → Option Expression
  unfolding gen_expr
  fill_cats nil = none
  fill_cats (cons n ns) = gen_expr max_depth cil_cat n

  abbrev fill_cats_after : Nodes → Option (Option Expression)
  fill_cats_after nil = some none
  fill_cats_after (cons n ns) = fill_cats (cons n ns) >>= λ e. some (some e)

  unfoldable pub fill_level : Nodes → Option LevelStr
  unfolding fill_cats verify_syntax
  fill_level curr =
      checked curr (string_syntax ∷ either operand_syntax end_syntax ∷ end_syntax ∷ []) (do
        sens_str ← data_of curr
        cats ← fill_cats_after (next curr)
        some (record { sens_str = sens_str; cats = cats }))

  unfoldable pub fill_levelrange : Nodes → Option LevelRangeStr
  unfolding fill_level fill_ref verify_syntax
  fill_levelrange low = checked low (operand_syntax ∷ operand_syntax ∷ end_syntax ∷ []) (do
    l ← fill_ref fill_level low
    h ← fill_ref fill_level (next low)
    some (record { low = l; high = h }))

  unfoldable pub fill_context : Nodes → Option ContextStr
  unfolding fill_levelrange fill_ref verify_syntax
  fill_context user_node =
      checked user_node
        (string_syntax ∷ string_syntax ∷ string_syntax ∷ operand_syntax ∷ end_syntax ∷ [])
        (do
          user_str ← data_of user_node
          role_str ← data_of (next user_node)
          type_str ← data_of (next (next user_node))
          range ← fill_ref fill_levelrange (next (next (next user_node)))
          some (record {
            user_str = user_str;
            role_str = role_str;
            type_str = type_str;
            range = range;
          }))

  unfoldable pub fill_perms : Nodes → Option Expression
  unfolding gen_expr verify_syntax
  fill_perms nil = none
  fill_perms (cons n ns) =
      checked (cl_head (cons n ns)) (either n_strings_syntax n_lists_syntax ∷ end_syntax ∷ [])
        (gen_expr max_depth cil_perm n)

  unfoldable pub fill_classperms : Nodes → Option ClassPerms
  unfolding fill_perms verify_syntax
  fill_classperms parse_current =
      checked parse_current (string_syntax ∷ list_syntax ∷ end_syntax ∷ []) (do
        class_str ← data_of parse_current
        perm_strs ← fill_perms (next parse_current)
        some (classperms class_str perm_strs))

  -- By the first child: none, one without children, one with children.
  abbrev classperms_by : Nodes → Nodes → Option (List ClassPerms)
  classperms_by parse_current nil = data_of parse_current >>= λ s. some (classperms_set s ∷ [])
  classperms_by parse_current (cons (node l t nil) cs) =
      fill_classperms (cons (node l t nil) cs) >>= λ cp. some (cp ∷ [])
  classperms_by parse_current (cons (node l t (cons d ds)) cs) = none

  unfoldable pub fill_classperms_list : Nodes → Option (List ClassPerms)
  unfolding fill_classperms verify_syntax
  fill_classperms_list nil = none
  fill_classperms_list (cons n ns) =
      checked (cons n ns) (operand_syntax ∷ []) (classperms_by (cons n ns) (cl_head (cons n ns)))

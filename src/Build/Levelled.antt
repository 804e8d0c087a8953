-- ===== src/Build/Levelled.antt =====
-- The statements with a level, a range, a context, an expression or permissions, of
-- src/cil_build_ast.c. `none` is SEPOL_ERR.
use cil.Base.{ℕ, [], ◌∷◌, Option, none, some}
use cil.Build.Fill.{
  Expression, data_of, next, checked, fill_ref, fill_cats, fill_level, fill_levelrange,
  fill_context, fill_classperms_list,
}
use cil.Build.Rules.{Rule}
use cil.Build.Statement.{
  cil_userlevel_data, cil_userrange_data, cil_selinuxuser_data, cil_rangetransition_data,
  cil_sidcontext_data, cil_senscat_data, cil_typeattributeset_data, cil_roleattributeset_data,
  cil_avrule_data, cil_classpermissionset_data, cil_classmapping_data,
}
use cil.Expr.{gen_expr, ◌>>=◌}
use cil.Flavor.{
  Flavor, cil_type, cil_role, cil_userlevel, cil_userrange, cil_selinuxuser, cil_selinuxuserdefault,
  cil_rangetransition, cil_sidcontext, cil_senscat, cil_typeattributeset, cil_roleattributeset,
  cil_avrule, cil_classpermissionset, cil_classmapping,
}
use cil.Text.{codes}
use cil.Tree.{Nodes, nil, cons}
use cil.Verify.{verify_syntax, string_syntax, end_syntax, operand_syntax}

module _ (max_depth : ℕ) where
  unfoldable pub gen_userlevel : Nodes → Rule
  unfolding fill_ref fill_level verify_syntax
  gen_userlevel pc =
      checked pc (string_syntax ∷ string_syntax ∷ operand_syntax ∷ end_syntax ∷ []) (do
        user_str ← data_of (next pc)
        r ← fill_ref (fill_level max_depth) (next (next pc))
        some (cil_userlevel, cil_userlevel_data user_str r))

  unfoldable pub gen_userrange : Nodes → Rule
  unfolding fill_ref fill_levelrange verify_syntax
  gen_userrange pc =
      checked pc (string_syntax ∷ string_syntax ∷ operand_syntax ∷ end_syntax ∷ []) (do
        user_str ← data_of (next pc)
        r ← fill_ref (fill_levelrange max_depth) (next (next pc))
        some (cil_userrange, cil_userrange_data user_str r))

  unfoldable pub gen_selinuxuser : Nodes → Rule
  unfolding fill_ref fill_levelrange verify_syntax
  gen_selinuxuser pc =
      checked pc (string_syntax ∷ string_syntax ∷ string_syntax ∷ operand_syntax ∷ end_syntax ∷ [])
        (do
          name_str ← data_of (next pc)
          user_str ← data_of (next (next pc))
          r ← fill_ref (fill_levelrange max_depth) (next (next (next pc)))
          some (cil_selinuxuser, cil_selinuxuser_data name_str user_str r))

  unfoldable pub gen_selinuxuserdefault : Nodes → Rule
  unfolding fill_ref fill_levelrange verify_syntax
  gen_selinuxuserdefault pc =
      checked pc (string_syntax ∷ string_syntax ∷ operand_syntax ∷ end_syntax ∷ []) (do
        user_str ← data_of (next pc)
        r ← fill_ref (fill_levelrange max_depth) (next (next pc))
        some (cil_selinuxuserdefault, cil_selinuxuser_data (codes "__default__") user_str r))

  unfoldable pub gen_rangetransition : Nodes → Rule
  unfolding fill_ref fill_levelrange verify_syntax
  gen_rangetransition pc =
      checked pc
        (string_syntax ∷ string_syntax ∷ string_syntax ∷ string_syntax ∷ operand_syntax ∷ end_syntax
          ∷ [])
        (do
          src_str ← data_of (next pc)
          exec_str ← data_of (next (next pc))
          obj_str ← data_of (next (next (next pc)))
          r ← fill_ref (fill_levelrange max_depth) (next (next (next (next pc))))
          some (cil_rangetransition, cil_rangetransition_data src_str exec_str obj_str r))

  unfoldable pub gen_sidcontext : Nodes → Rule
  unfolding fill_ref fill_context verify_syntax
  gen_sidcontext pc =
      checked pc (string_syntax ∷ string_syntax ∷ operand_syntax ∷ end_syntax ∷ []) (do
        sid_str ← data_of (next pc)
        r ← fill_ref (fill_context max_depth) (next (next pc))
        some (cil_sidcontext, cil_sidcontext_data (some sid_str) r))

  unfoldable pub gen_senscat : Nodes → Rule
  unfolding fill_cats verify_syntax
  gen_senscat pc = checked pc (string_syntax ∷ string_syntax ∷ operand_syntax ∷ end_syntax ∷ []) (do
    sens_str ← data_of (next pc)
    cats ← fill_cats max_depth (next (next pc))
    some (cil_senscat, cil_senscat_data sens_str cats))

  -- `cil_gen_expr` of the node that the pointer stands for.
  abbrev expr_of : Flavor → Nodes → Option Expression
  expr_of flavor nil = none
  expr_of flavor (cons n ns) = gen_expr max_depth flavor n

  unfoldable pub gen_typeattributeset : Nodes → Rule
  unfolding gen_expr verify_syntax
  gen_typeattributeset pc =
      checked pc (string_syntax ∷ string_syntax ∷ operand_syntax ∷ end_syntax ∷ []) (do
        attr_str ← data_of (next pc)
        e ← expr_of cil_type (next (next pc))
        some (cil_typeattributeset, cil_typeattributeset_data attr_str e))

  unfoldable pub gen_roleattributeset : Nodes → Rule
  unfolding gen_expr verify_syntax
  gen_roleattributeset pc =
      checked pc (string_syntax ∷ string_syntax ∷ operand_syntax ∷ end_syntax ∷ []) (do
        attr_str ← data_of (next pc)
        e ← expr_of cil_role (next (next pc))
        some (cil_roleattributeset, cil_roleattributeset_data attr_str e))

  unfoldable pub gen_avrule : ℕ → Nodes → Rule
  unfolding fill_classperms_list verify_syntax
  gen_avrule rule_kind pc =
      checked pc (string_syntax ∷ string_syntax ∷ string_syntax ∷ operand_syntax ∷ end_syntax ∷ [])
        (do
          src_str ← data_of (next pc)
          tgt_str ← data_of (next (next pc))
          cps ← fill_classperms_list max_depth (next (next (next pc)))
          some (cil_avrule, cil_avrule_data rule_kind src_str tgt_str cps))

  unfoldable pub gen_classpermissionset : Nodes → Rule
  unfolding fill_classperms_list verify_syntax
  gen_classpermissionset pc =
      checked pc (string_syntax ∷ string_syntax ∷ operand_syntax ∷ end_syntax ∷ []) (do
        set_str ← data_of (next pc)
        cps ← fill_classperms_list max_depth (next (next pc))
        some (cil_classpermissionset, cil_classpermissionset_data set_str cps))

  unfoldable pub gen_classmapping : Nodes → Rule
  unfolding fill_classperms_list verify_syntax
  gen_classmapping pc =
      checked pc (string_syntax ∷ string_syntax ∷ string_syntax ∷ operand_syntax ∷ end_syntax ∷ [])
        (do
          map_class_str ← data_of (next pc)
          map_perm_str ← data_of (next (next pc))
          cps ← fill_classperms_list max_depth (next (next (next pc)))
          some (cil_classmapping, cil_classmapping_data map_class_str map_perm_str cps))

-- ===== src/Copy/Statements.antt =====
-- The copy of each statement, and the choice of the function by the statement, of
-- src/cil_copy_ast.c.
use cil.Base.{ℕ, List, Option, none, some, Bool}
use cil.Build.Fill.{Expression, Ref, LevelStr, LevelRangeStr, ContextStr, ClassPerms}
use cil.Build.Statement.{
  Statement, DefaultObject, DefaultRange, HandleUnknown, cil_blockinherit_data,
  cil_blockabstract_data, cil_typepermissive_data, cil_classcommon_data, cil_userprefix_data,
  cil_userrole_data, cil_roletype_data, cil_roleallow_data, cil_aliasactual_data, cil_bounds_data,
  cil_roletransition_data, cil_type_rule_data, cil_nametypetransition_data, cil_condblock_data,
  cil_classorder_data, cil_sidorder_data, cil_catorder_data, cil_sensorder_data, cil_userlevel_data,
  cil_userrange_data, cil_rangetransition_data, cil_sidcontext_data, cil_senscat_data,
  cil_typeattributeset_data, cil_roleattributeset_data, cil_avrule_data, cil_classmapping_data,
  cil_default_data, cil_defaultrange_data, cil_handleunknown_data, cil_mls_data, cil_filecon_data,
  cil_portcon_data, cil_genfscon_data, cil_netifcon_data, cil_pirqcon_data, cil_iomemcon_data,
  cil_ioportcon_data, cil_pcidevicecon_data, cil_fsuse_data,
}
use cil.Copy.{
  copy_strings, copy_expr, copy_classperms_list, copy_cats, copy_fill_level, copy_ref,
  copy_fill_levelrange, copy_fill_context,
}
use cil.Copy.Labels.{
  copy_filecon, copy_portcon, copy_genfscon, copy_netifcon, copy_pirqcon, copy_iomemcon,
  copy_ioportcon, copy_pcidevicecon, copy_fsuse,
}
use cil.Flavor.{Flavor}
use cil.Text.{Text}

unfoldable pub copy_class_strs : Option (List Text) → Option (List Text)
unfolding copy_strings
copy_class_strs none = none
copy_class_strs (some ts) = some (copy_strings ts)

unfoldable pub copy_blockabstract : Text → Statement
copy_blockabstract block_str = cil_blockabstract_data block_str

unfoldable pub copy_blockinherit : Text → Statement
copy_blockinherit block_str = cil_blockinherit_data block_str

unfoldable pub copy_classcommon : Text → Text → Statement
copy_classcommon class_str common_str = cil_classcommon_data class_str common_str

unfoldable pub copy_userrole : Text → Text → Statement
copy_userrole user_str role_str = cil_userrole_data user_str role_str

unfoldable pub copy_userprefix : Text → Text → Statement
copy_userprefix user_str prefix_str = cil_userprefix_data user_str prefix_str

unfoldable pub copy_roletype : Text → Text → Statement
copy_roletype role_str type_str = cil_roletype_data role_str type_str

unfoldable pub copy_roleallow : Text → Text → Statement
copy_roleallow src_str tgt_str = cil_roleallow_data src_str tgt_str

unfoldable pub copy_typepermissive : Text → Statement
copy_typepermissive type_str = cil_typepermissive_data type_str

unfoldable pub copy_aliasactual : Text → Text → Statement
copy_aliasactual alias_str actual_str = cil_aliasactual_data alias_str actual_str

unfoldable pub copy_bounds : Text → Text → Statement
copy_bounds parent_str child_str = cil_bounds_data parent_str child_str

unfoldable pub copy_roletransition : Text → Text → Text → Text → Statement
copy_roletransition src_str tgt_str obj_str result_str =
    cil_roletransition_data src_str tgt_str obj_str result_str

unfoldable pub copy_type_rule : ℕ → Text → Text → Text → Text → Statement
copy_type_rule rule_kind src_str tgt_str obj_str result_str =
    cil_type_rule_data rule_kind src_str tgt_str obj_str result_str

unfoldable pub copy_nametypetransition : Text → Text → Text → Text → Text → Statement
copy_nametypetransition src_str tgt_str obj_str name_str result_str =
    cil_nametypetransition_data src_str tgt_str obj_str name_str result_str

unfoldable pub copy_condblock : Flavor → Statement
copy_condblock cond_flavor = cil_condblock_data cond_flavor

unfoldable pub copy_classorder : List Text → Statement
unfolding copy_strings
copy_classorder class_list_str = cil_classorder_data (copy_strings class_list_str)

unfoldable pub copy_sidorder : List Text → Statement
unfolding copy_strings
copy_sidorder sid_list_str = cil_sidorder_data (copy_strings sid_list_str)

unfoldable pub copy_catorder : List Text → Statement
unfolding copy_strings
copy_catorder cat_list_str = cil_catorder_data (copy_strings cat_list_str)

unfoldable pub copy_sensitivityorder : List Text → Statement
unfolding copy_strings
copy_sensitivityorder sens_list_str = cil_sensorder_data (copy_strings sens_list_str)

unfoldable pub copy_userlevel : Text → Ref LevelStr → Statement
unfolding copy_fill_level
copy_userlevel user_str r = cil_userlevel_data user_str (copy_ref copy_fill_level r)

unfoldable pub copy_userrange : Text → Ref LevelRangeStr → Statement
unfolding copy_fill_levelrange
copy_userrange user_str r = cil_userrange_data user_str (copy_ref copy_fill_levelrange r)

unfoldable pub copy_rangetransition : Text → Text → Text → Ref LevelRangeStr → Statement
unfolding copy_fill_levelrange
copy_rangetransition src_str exec_str obj_str r =
    cil_rangetransition_data src_str exec_str obj_str (copy_ref copy_fill_levelrange r)

-- The name of the sid is not copied.
unfoldable pub copy_sidcontext : Option Text → Ref ContextStr → Statement
unfolding copy_fill_context
copy_sidcontext sid_str r = cil_sidcontext_data none (copy_ref copy_fill_context r)

unfoldable pub copy_senscat : Text → Expression → Statement
unfolding copy_cats
copy_senscat sens_str cats = cil_senscat_data sens_str (copy_cats cats)

unfoldable pub copy_typeattributeset : Text → Expression → Statement
unfolding copy_expr
copy_typeattributeset attr_str str_expr = cil_typeattributeset_data attr_str (copy_expr str_expr)

unfoldable pub copy_roleattributeset : Text → Expression → Statement
unfolding copy_expr
copy_roleattributeset attr_str str_expr = cil_roleattributeset_data attr_str (copy_expr str_expr)

unfoldable pub copy_avrule : ℕ → Text → Text → List ClassPerms → Statement
unfolding copy_classperms_list
copy_avrule rule_kind src_str tgt_str cps =
    cil_avrule_data rule_kind src_str tgt_str (copy_classperms_list cps)

unfoldable pub copy_classmapping : Text → Text → List ClassPerms → Statement
unfolding copy_classperms_list
copy_classmapping map_class_str map_perm_str cps =
    cil_classmapping_data map_class_str map_perm_str (copy_classperms_list cps)

unfoldable pub copy_default : Flavor → Option (List Text) → DefaultObject → Statement
unfolding copy_class_strs
copy_default default_flavor class_strs object =
    cil_default_data default_flavor (copy_class_strs class_strs) object

unfoldable pub copy_defaultrange : Option (List Text) → DefaultRange → Statement
unfolding copy_class_strs
copy_defaultrange class_strs object_range =
    cil_defaultrange_data (copy_class_strs class_strs) object_range

unfoldable pub copy_handleunknown : HandleUnknown → Statement
copy_handleunknown handle = cil_handleunknown_data handle

unfoldable pub copy_mls : Bool → Statement
copy_mls value = cil_mls_data value

-- The data of the copy. `none` where the function has no structure to write to
-- (cil_copy_classpermissionset), and for the statements of which there is no such copy: those that
-- declare a name, an in, and a selinuxuser.
unfoldable pub copy_statement : Statement → Option Statement
unfolding copy_blockabstract copy_blockinherit copy_classcommon copy_userrole copy_userprefix
    copy_roletype copy_roleallow copy_typepermissive copy_aliasactual copy_bounds
    copy_roletransition copy_type_rule copy_nametypetransition copy_condblock copy_classorder
    copy_sidorder copy_catorder copy_sensitivityorder copy_userlevel copy_userrange
    copy_rangetransition copy_sidcontext copy_senscat copy_typeattributeset copy_roleattributeset
    copy_avrule copy_classmapping copy_default copy_defaultrange copy_handleunknown copy_mls
    copy_filecon copy_portcon copy_genfscon copy_netifcon copy_pirqcon copy_iomemcon copy_ioportcon
    copy_pcidevicecon copy_fsuse
copy_statement (cil_blockabstract_data a) = some (copy_blockabstract a)
copy_statement (cil_blockinherit_data a) = some (copy_blockinherit a)
copy_statement (cil_classcommon_data a b) = some (copy_classcommon a b)
copy_statement (cil_userrole_data a b) = some (copy_userrole a b)
copy_statement (cil_userprefix_data a b) = some (copy_userprefix a b)
copy_statement (cil_roletype_data a b) = some (copy_roletype a b)
copy_statement (cil_roleallow_data a b) = some (copy_roleallow a b)
copy_statement (cil_typepermissive_data a) = some (copy_typepermissive a)
copy_statement (cil_aliasactual_data a b) = some (copy_aliasactual a b)
copy_statement (cil_bounds_data a b) = some (copy_bounds a b)
copy_statement (cil_roletransition_data a b c d) = some (copy_roletransition a b c d)
copy_statement (cil_type_rule_data a b c d e) = some (copy_type_rule a b c d e)
copy_statement (cil_nametypetransition_data a b c d e) = some (copy_nametypetransition a b c d e)
copy_statement (cil_condblock_data a) = some (copy_condblock a)
copy_statement (cil_classorder_data a) = some (copy_classorder a)
copy_statement (cil_sidorder_data a) = some (copy_sidorder a)
copy_statement (cil_catorder_data a) = some (copy_catorder a)
copy_statement (cil_sensorder_data a) = some (copy_sensitivityorder a)
copy_statement (cil_userlevel_data a b) = some (copy_userlevel a b)
copy_statement (cil_userrange_data a b) = some (copy_userrange a b)
copy_statement (cil_rangetransition_data a b c d) = some (copy_rangetransition a b c d)
copy_statement (cil_sidcontext_data a b) = some (copy_sidcontext a b)
copy_statement (cil_senscat_data a b) = some (copy_senscat a b)
copy_statement (cil_typeattributeset_data a b) = some (copy_typeattributeset a b)
copy_statement (cil_roleattributeset_data a b) = some (copy_roleattributeset a b)
copy_statement (cil_avrule_data a b c d) = some (copy_avrule a b c d)
copy_statement (cil_classmapping_data a b c) = some (copy_classmapping a b c)
copy_statement (cil_default_data a b c) = some (copy_default a b c)
copy_statement (cil_defaultrange_data a b) = some (copy_defaultrange a b)
copy_statement (cil_handleunknown_data a) = some (copy_handleunknown a)
copy_statement (cil_mls_data a) = some (copy_mls a)
copy_statement (cil_filecon_data a b c) = some (copy_filecon a b c)
copy_statement (cil_portcon_data a b c d) = some (copy_portcon a b c d)
copy_statement (cil_genfscon_data a b c) = some (copy_genfscon a b c)
copy_statement (cil_netifcon_data a b c) = some (copy_netifcon a b c)
copy_statement (cil_pirqcon_data a b) = some (copy_pirqcon a b)
copy_statement (cil_iomemcon_data a b c) = some (copy_iomemcon a b c)
copy_statement (cil_ioportcon_data a b c) = some (copy_ioportcon a b c)
copy_statement (cil_pcidevicecon_data a b) = some (copy_pcidevicecon a b)
copy_statement (cil_fsuse_data a b c) = some (copy_fsuse a b c)
copy_statement _ = none

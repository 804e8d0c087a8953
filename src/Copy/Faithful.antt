-- ===== src/Copy/Faithful.antt =====
-- A copy holds what the original holds.
use cil.Base.{ℕ, ◌≡◌, refl, ap, List, [], ◌∷◌, Option, none, some}
use cil.Build.Fill.{
  Expression, Ref, named, anonymous, LevelStr, LevelRangeStr, ContextStr, ClassPerms, classperms,
  classperms_set,
}
use cil.Build.Statement.{
  Statement, cil_block_data, cil_user_data, cil_role_data, cil_roleattribute_data, cil_type_data,
  cil_typeattribute_data, cil_sid_data, cil_sens_data, cil_cat_data, cil_alias_data,
  cil_optional_data, cil_policycap_data, cil_classpermission_data, cil_bool_data, cil_tunable_data,
  cil_catset_data, cil_level_data, cil_levelrange_data, cil_context_data, cil_blockinherit_data,
  cil_blockabstract_data, cil_in_data, cil_typepermissive_data, cil_classcommon_data,
  cil_userprefix_data, cil_userrole_data, cil_roletype_data, cil_roleallow_data,
  cil_aliasactual_data, cil_bounds_data, cil_roletransition_data, cil_type_rule_data,
  cil_nametypetransition_data, cil_condblock_data, cil_classorder_data, cil_sidorder_data,
  cil_catorder_data, cil_sensorder_data, cil_userlevel_data, cil_userrange_data,
  cil_selinuxuser_data, cil_rangetransition_data, cil_sidcontext_data, cil_senscat_data,
  cil_typeattributeset_data, cil_roleattributeset_data, cil_avrule_data,
  cil_classpermissionset_data, cil_classmapping_data, cil_default_data, cil_defaultrange_data,
  cil_handleunknown_data, cil_mls_data, cil_filecon_data, cil_portcon_data, cil_genfscon_data,
  cil_netifcon_data, cil_pirqcon_data, cil_iomemcon_data, cil_ioportcon_data, cil_pcidevicecon_data,
  cil_fsuse_data,
}
use cil.Copy.{
  copy_strings, copy_list, copy_list_item, copy_expr, copy_expr_item, copy_classperms_list,
  copy_cats, copy_fill_level, copy_level_cats, copy_ref, copy_fill_levelrange, copy_fill_context,
}
use cil.Copy.Labels.{copy_filecon_context}
use cil.Copy.Statements.{copy_class_strs, copy_statement}
use cil.Expr.{Item, op, operand, string, datum, list, end, item}
use cil.Text.{Text}

copy_strings-same : (ts : List Text) → copy_strings ts ≡ ts
unfolding copy_strings
copy_strings-same [] = refl
copy_strings-same (t ∷ ts) = rw (copy_strings-same ts) refl

mutual
  unfolding copy_list

  copy_list-same : (is : Expression) → copy_list is ≡ is
  copy_list-same end = refl
  copy_list-same (item x is) = rw (copy_list_item-same x, copy_list-same is) refl

  copy_list_item-same : (x : Item ℕ) → copy_list_item x ≡ x
  copy_list_item-same (list f is) = rw (copy_list-same is) refl
  copy_list_item-same (string t) = refl
  copy_list_item-same (op f) = refl
  copy_list_item-same (operand f) = refl
  copy_list_item-same (datum d) = refl

mutual
  unfolding copy_expr

  copy_expr-same : (is : Expression) → copy_expr is ≡ is
  copy_expr-same end = refl
  copy_expr-same (item x is) = rw (copy_expr_item-same x, copy_expr-same is) refl

  copy_expr_item-same : (x : Item ℕ) → copy_expr_item x ≡ x
  copy_expr_item-same (list f is) = rw (copy_expr-same is) refl
  copy_expr_item-same (string t) = refl
  copy_expr_item-same (op f) = refl
  copy_expr_item-same (operand f) = refl
  copy_expr_item-same (datum d) = refl

copy_classperms_list-same : (cps : List ClassPerms) → copy_classperms_list cps ≡ cps
unfolding copy_classperms_list
copy_classperms_list-same [] = refl
copy_classperms_list-same (classperms c ps ∷ cps) =
    rw (copy_list-same ps, copy_classperms_list-same cps) refl
copy_classperms_list-same (classperms_set s ∷ cps) = rw (copy_classperms_list-same cps) refl

copy_level_cats-same : (o : Option Expression) → copy_level_cats o ≡ o
unfolding copy_level_cats copy_cats
copy_level_cats-same none = refl
copy_level_cats-same (some e) = rw (copy_expr-same e) refl

copy_fill_level-same : (x : LevelStr) → copy_fill_level x ≡ x
unfolding copy_fill_level
copy_fill_level-same x = rw (copy_level_cats-same x.cats) refl

copy_ref-same : {A : Type 0} (f : A → A) (r : Ref A) → ((a : A) → f a ≡ a) → copy_ref f r ≡ r
copy_ref-same f (named t) same = refl
copy_ref-same f (anonymous a) same = ap anonymous (same a)

copy_fill_levelrange-same : (x : LevelRangeStr) → copy_fill_levelrange x ≡ x
unfolding copy_fill_levelrange
copy_fill_levelrange-same x =
    rw
      (
        copy_ref-same copy_fill_level x.low copy_fill_level-same,
        copy_ref-same copy_fill_level x.high copy_fill_level-same,
      )
      refl

copy_fill_context-same : (x : ContextStr) → copy_fill_context x ≡ x
unfolding copy_fill_context
copy_fill_context-same x =
    rw (copy_ref-same copy_fill_levelrange x.range copy_fill_levelrange-same) refl

copy_filecon_context-same : (o : Option (Ref ContextStr)) → copy_filecon_context o ≡ o
copy_filecon_context-same none = refl
copy_filecon_context-same (some r) =
    ap some (copy_ref-same copy_fill_context r copy_fill_context-same)

copy_cats-same : (e : Expression) → copy_cats e ≡ e
unfolding copy_cats
copy_cats-same e = copy_expr-same e

copy_class_strs-same : (o : Option (List Text)) → copy_class_strs o ≡ o
unfolding copy_class_strs
copy_class_strs-same none = refl
copy_class_strs-same (some ts) = rw (copy_strings-same ts) refl

-- The statements of which there is a copy: all but those that declare a name, an in, a selinuxuser
-- and a classpermissionset.
abbrev pub IsCopied : Statement → Type 0
IsCopied (cil_block_data a b) = ⊥
IsCopied (cil_user_data a) = ⊥
IsCopied (cil_role_data a) = ⊥
IsCopied (cil_roleattribute_data a) = ⊥
IsCopied (cil_type_data a) = ⊥
IsCopied (cil_typeattribute_data a) = ⊥
IsCopied (cil_sid_data a) = ⊥
IsCopied (cil_sens_data a) = ⊥
IsCopied (cil_cat_data a) = ⊥
IsCopied (cil_alias_data a) = ⊥
IsCopied (cil_optional_data a) = ⊥
IsCopied (cil_policycap_data a) = ⊥
IsCopied (cil_classpermission_data a) = ⊥
IsCopied (cil_bool_data a b) = ⊥
IsCopied (cil_tunable_data a b) = ⊥
IsCopied (cil_catset_data a b) = ⊥
IsCopied (cil_level_data a b) = ⊥
IsCopied (cil_levelrange_data a b) = ⊥
IsCopied (cil_context_data a b) = ⊥
IsCopied (cil_in_data a) = ⊥
IsCopied (cil_selinuxuser_data a b c) = ⊥
IsCopied (cil_classpermissionset_data a b) = ⊥
IsCopied _ = Unit

-- A statement as it is, but for the name of the sid of a sidcontext.
abbrev pub without_sid : Statement → Statement
without_sid (cil_sidcontext_data a b) = cil_sidcontext_data none b
without_sid x = x

-- The copy of a statement of which there is one holds what the original holds, lists, expressions,
-- levels, ranges, contexts and permissions included; only the copy of a sidcontext has no sid.
pub copy_statement-same : (x : Statement) → IsCopied x → copy_statement x ≡ some (without_sid x)
unfolding copy_statement
copy_statement-same (cil_blockabstract_data a) h = refl
copy_statement-same (cil_blockinherit_data a) h = refl
copy_statement-same (cil_classcommon_data a b) h = refl
copy_statement-same (cil_userrole_data a b) h = refl
copy_statement-same (cil_userprefix_data a b) h = refl
copy_statement-same (cil_roletype_data a b) h = refl
copy_statement-same (cil_roleallow_data a b) h = refl
copy_statement-same (cil_typepermissive_data a) h = refl
copy_statement-same (cil_aliasactual_data a b) h = refl
copy_statement-same (cil_bounds_data a b) h = refl
copy_statement-same (cil_roletransition_data a b c d) h = refl
copy_statement-same (cil_type_rule_data a b c d e) h = refl
copy_statement-same (cil_nametypetransition_data a b c d e) h = refl
copy_statement-same (cil_condblock_data a) h = refl
copy_statement-same (cil_classorder_data a) h = rw (copy_strings-same a) refl
copy_statement-same (cil_sidorder_data a) h = rw (copy_strings-same a) refl
copy_statement-same (cil_catorder_data a) h = rw (copy_strings-same a) refl
copy_statement-same (cil_sensorder_data a) h = rw (copy_strings-same a) refl
copy_statement-same (cil_userlevel_data a b) h =
    rw (copy_ref-same copy_fill_level b copy_fill_level-same) refl
copy_statement-same (cil_userrange_data a b) h =
    rw (copy_ref-same copy_fill_levelrange b copy_fill_levelrange-same) refl
copy_statement-same (cil_rangetransition_data a b c d) h =
    rw (copy_ref-same copy_fill_levelrange d copy_fill_levelrange-same) refl
copy_statement-same (cil_sidcontext_data a b) h =
    rw (copy_ref-same copy_fill_context b copy_fill_context-same) refl
copy_statement-same (cil_senscat_data a b) h = rw (copy_cats-same b) refl
copy_statement-same (cil_typeattributeset_data a b) h = rw (copy_expr-same b) refl
copy_statement-same (cil_roleattributeset_data a b) h = rw (copy_expr-same b) refl
copy_statement-same (cil_avrule_data a b c d) h = rw (copy_classperms_list-same d) refl
copy_statement-same (cil_classmapping_data a b c) h = rw (copy_classperms_list-same c) refl
copy_statement-same (cil_default_data a b c) h = rw (copy_class_strs-same b) refl
copy_statement-same (cil_defaultrange_data a b) h = rw (copy_class_strs-same a) refl
copy_statement-same (cil_handleunknown_data a) h = refl
copy_statement-same (cil_mls_data a) h = refl
copy_statement-same (cil_filecon_data a b c) h = rw (copy_filecon_context-same c) refl
copy_statement-same (cil_portcon_data a b c d) h =
    rw (copy_ref-same copy_fill_context d copy_fill_context-same) refl
copy_statement-same (cil_genfscon_data a b c) h =
    rw (copy_ref-same copy_fill_context c copy_fill_context-same) refl
copy_statement-same (cil_netifcon_data a b c) h =
    rw
      (
        copy_ref-same copy_fill_context b copy_fill_context-same,
        copy_ref-same copy_fill_context c copy_fill_context-same,
      )
      refl
copy_statement-same (cil_pirqcon_data a b) h =
    rw (copy_ref-same copy_fill_context b copy_fill_context-same) refl
copy_statement-same (cil_iomemcon_data a b c) h =
    rw (copy_ref-same copy_fill_context c copy_fill_context-same) refl
copy_statement-same (cil_ioportcon_data a b c) h =
    rw (copy_ref-same copy_fill_context c copy_fill_context-same) refl
copy_statement-same (cil_pcidevicecon_data a b) h =
    rw (copy_ref-same copy_fill_context b copy_fill_context-same) refl
copy_statement-same (cil_fsuse_data a b c) h =
    rw (copy_ref-same copy_fill_context c copy_fill_context-same) refl
copy_statement-same (cil_block_data a b) h = absurd h
copy_statement-same (cil_user_data a) h = absurd h
copy_statement-same (cil_role_data a) h = absurd h
copy_statement-same (cil_roleattribute_data a) h = absurd h
copy_statement-same (cil_type_data a) h = absurd h
copy_statement-same (cil_typeattribute_data a) h = absurd h
copy_statement-same (cil_sid_data a) h = absurd h
copy_statement-same (cil_sens_data a) h = absurd h
copy_statement-same (cil_cat_data a) h = absurd h
copy_statement-same (cil_alias_data a) h = absurd h
copy_statement-same (cil_optional_data a) h = absurd h
copy_statement-same (cil_policycap_data a) h = absurd h
copy_statement-same (cil_classpermission_data a) h = absurd h
copy_statement-same (cil_bool_data a b) h = absurd h
copy_statement-same (cil_tunable_data a b) h = absurd h
copy_statement-same (cil_catset_data a b) h = absurd h
copy_statement-same (cil_level_data a b) h = absurd h
copy_statement-same (cil_levelrange_data a b) h = absurd h
copy_statement-same (cil_context_data a b) h = absurd h
copy_statement-same (cil_in_data a) h = absurd h
copy_statement-same (cil_selinuxuser_data a b c) h = absurd h
copy_statement-same (cil_classpermissionset_data a b) h = absurd h

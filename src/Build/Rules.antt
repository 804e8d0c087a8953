-- ===== src/Build/Rules.antt =====
-- The statements that declare no name, of src/cil_build_ast.c. `none` is SEPOL_ERR, with the node of
-- the AST as it was; otherwise the node gets the flavor and the data.
use cil.Base.{ℕ, List, [], ◌∷◌, Option, none, some, ◌&&◌, ◌||◌, not, ◌==◌, if◌then◌else◌}
use cil.Build.Fill.{next, data_of, cl_head, checked, fill_list}
use cil.Build.Statement.{
  Statement, cil_blockinherit_data, cil_blockabstract_data, cil_in_data, cil_typepermissive_data,
  cil_classcommon_data, cil_userprefix_data, cil_userrole_data, cil_roletype_data,
  cil_roleallow_data, cil_aliasactual_data, cil_bounds_data, cil_roletransition_data,
  cil_type_rule_data, cil_nametypetransition_data, cil_condblock_data, cil_classorder_data,
  cil_sidorder_data, cil_catorder_data, cil_sensorder_data,
}
use cil.Expr.{◌>>=◌}
use cil.Flavor.{
  Flavor, cil_type, cil_role, cil_user, cil_none, cil_blockabstract, cil_blockinherit, cil_in,
  cil_condblock, cil_booleanif, cil_tunableif, cil_classorder, cil_classcommon, cil_userprefix,
  cil_userrole, cil_userbounds, cil_roletype, cil_rolebounds, cil_typealias, cil_typebounds,
  cil_typepermissive, cil_roletransition, cil_roleallow, cil_type_rule, cil_nametypetransition,
  cil_catorder, cil_sensitivityorder, cil_sidorder,
}
use cil.Text.{Text, text_eq, cil_key_self, cil_key_star}
use cil.Tree.{Nodes, nil, cons}
use cil.Verify.{verify_syntax, string_syntax, list_syntax, n_lists_syntax, end_syntax, either}

abbrev pub Rule : Type 0
Rule = Option (Flavor × Statement)

abbrev pub one_name : Flavor → (Text → Statement) → Nodes → Rule
one_name f c pc =
    checked pc (string_syntax ∷ string_syntax ∷ end_syntax ∷ [])
      (data_of (next pc) >>= λ s. some (f, c s))

abbrev pub two_names : Flavor → (Text → Text → Statement) → Nodes → Rule
two_names f c pc =
    checked pc (string_syntax ∷ string_syntax ∷ string_syntax ∷ end_syntax ∷ [])
      (data_of (next pc) >>= λ s. data_of (next (next pc)) >>= λ t. some (f, c s t))

unfoldable pub gen_blockinherit : Nodes → Rule
unfolding verify_syntax
gen_blockinherit = one_name cil_blockinherit cil_blockinherit_data

unfoldable pub gen_blockabstract : Nodes → Rule
unfolding verify_syntax
gen_blockabstract = one_name cil_blockabstract cil_blockabstract_data

unfoldable pub gen_in : Nodes → Rule
unfolding verify_syntax
gen_in pc =
    checked pc (string_syntax ∷ string_syntax ∷ n_lists_syntax ∷ end_syntax ∷ [])
      (data_of (next pc) >>= λ s. some (cil_in, cil_in_data s))

unfoldable pub gen_typepermissive : Nodes → Rule
unfolding verify_syntax
gen_typepermissive = one_name cil_typepermissive cil_typepermissive_data

unfoldable pub gen_classcommon : Nodes → Rule
unfolding verify_syntax
gen_classcommon = two_names cil_classcommon cil_classcommon_data

unfoldable pub gen_userprefix : Nodes → Rule
unfolding verify_syntax
gen_userprefix = two_names cil_userprefix cil_userprefix_data

unfoldable pub gen_userrole : Nodes → Rule
unfolding verify_syntax
gen_userrole = two_names cil_userrole cil_userrole_data

unfoldable pub gen_roletype : Nodes → Rule
unfolding verify_syntax
gen_roletype = two_names cil_roletype cil_roletype_data

unfoldable pub gen_roleallow : Nodes → Rule
unfolding verify_syntax
gen_roleallow = two_names cil_roleallow cil_roleallow_data

-- Of the flavors, the code has a case for three; it is called with no other.
abbrev bounds_flavor : Flavor → Flavor
bounds_flavor f =
    if f == cil_user
    then cil_userbounds
    else if f == cil_role
    then cil_rolebounds
    else if f == cil_type
    then cil_typebounds
    else cil_none

unfoldable pub gen_bounds : Flavor → Nodes → Rule
unfolding verify_syntax
gen_bounds flavor = two_names (bounds_flavor flavor) cil_bounds_data

-- The keyword `self` is refused as the actual name, and as the alias for the flavor CIL_TYPEALIAS.
unfoldable pub gen_aliasactual : Flavor → Nodes → Rule
unfolding verify_syntax
gen_aliasactual flavor pc =
    checked pc (string_syntax ∷ string_syntax ∷ string_syntax ∷ end_syntax ∷ []) (do
      alias_str ← data_of (next pc)
      actual_str ← data_of (next (next pc))
      (if (flavor == cil_typealias && text_eq alias_str cil_key_self)
            || text_eq actual_str cil_key_self
          then none
          else some (flavor, cil_aliasactual_data alias_str actual_str)))

abbrev pub four_names : Flavor → (Text → Text → Text → Text → Statement) → Nodes → Rule
four_names f c pc =
    checked pc
      (string_syntax ∷ string_syntax ∷ string_syntax ∷ string_syntax ∷ string_syntax ∷ end_syntax
        ∷ [])
      (do
        src_str ← data_of (next pc)
        tgt_str ← data_of (next (next pc))
        obj_str ← data_of (next (next (next pc)))
        result_str ← data_of (next (next (next (next pc))))
        some (f, c src_str tgt_str obj_str result_str))

unfoldable pub gen_roletransition : Nodes → Rule
unfolding verify_syntax
gen_roletransition = four_names cil_roletransition cil_roletransition_data

unfoldable pub gen_type_rule : ℕ → Nodes → Rule
unfolding verify_syntax
gen_type_rule rule_kind = four_names cil_type_rule (cil_type_rule_data rule_kind)

abbrev pub cil_type_transition : ℕ
cil_type_transition = 16

-- `typetransition` with the fourth string, and a fifth where there is one. A fourth that is `*` says
-- that there is no name.
abbrev typetransition_with : Text → Text → Text → Text → Nodes → Rule
typetransition_with s1 s2 s3 s4 nil =
    some (cil_type_rule, cil_type_rule_data cil_type_transition s1 s2 s3 s4)
typetransition_with s1 s2 s3 s4 (cons n ns) = data_of (cons n ns) >>= λ s5.
    if text_eq s4 cil_key_star
    then some (cil_type_rule, cil_type_rule_data cil_type_transition s1 s2 s3 s5)
    else some (cil_nametypetransition, cil_nametypetransition_data s1 s2 s3 s4 s5)

unfoldable pub gen_typetransition : Nodes → Rule
unfolding verify_syntax
gen_typetransition pc =
    checked pc
      (string_syntax
        ∷ string_syntax
        ∷ string_syntax
        ∷ string_syntax
        ∷ string_syntax
        ∷ either string_syntax end_syntax
        ∷ end_syntax
        ∷ [])
      (do
        s1 ← data_of (next pc)
        s2 ← data_of (next (next pc))
        s3 ← data_of (next (next (next pc)))
        s4 ← data_of (next (next (next (next pc))))
        typetransition_with s1 s2 s3 s4 (next (next (next (next (next pc))))))

unfoldable pub gen_condblock : Flavor → Flavor → Nodes → Rule
unfolding verify_syntax
gen_condblock flavor parent_flavor pc =
    checked pc (string_syntax ∷ n_lists_syntax ∷ end_syntax ∷ []) (
      if not (parent_flavor == cil_booleanif) && not (parent_flavor == cil_tunableif)
      then none
      else some (cil_condblock, cil_condblock_data flavor))

abbrev pub ordering : Flavor → (List Text → Statement) → Nodes → Rule
ordering f c pc =
    checked pc (string_syntax ∷ list_syntax ∷ end_syntax ∷ [])
      (fill_list (cl_head (next pc)) >>= λ l. some (f, c l))

unfoldable pub gen_classorder : Nodes → Rule
unfolding fill_list verify_syntax
gen_classorder = ordering cil_classorder cil_classorder_data

unfoldable pub gen_sidorder : Nodes → Rule
unfolding fill_list verify_syntax
gen_sidorder = ordering cil_sidorder cil_sidorder_data

unfoldable pub gen_catorder : Nodes → Rule
unfolding fill_list verify_syntax
gen_catorder = ordering cil_catorder cil_catorder_data

unfoldable pub gen_sensitivityorder : Nodes → Rule
unfolding fill_list verify_syntax
gen_sensitivityorder = ordering cil_sensitivityorder cil_sensorder_data

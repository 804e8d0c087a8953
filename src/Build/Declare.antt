-- ===== src/Build/Declare.antt =====
-- The statements that declare a name, of src/cil_build_ast.c. A builder gets the statement, the node
-- it is for by its parent, the tables of symbols, and the address of the new datum. Where it fails it
-- has destroyed the datum and cleared the node.
use cil.Base.{
  ℕ, List, [], ◌∷◌, Option, none, some, Bool, ◌&&◌, ◌==◌, if◌then◌else◌, Status, sepol_ok,
  sepol_err, is_ok,
}
use cil.Build.{Parent, Tables, Inserted, gen_node, remove_datum}
use cil.Build.Fill.{next, data_of, cl_head, fill_cats, fill_level, fill_levelrange, fill_context}
use cil.Build.Settings.{truth}
use cil.Build.Statement.{
  Statement, cil_block_data, cil_user_data, cil_role_data, cil_roleattribute_data, cil_type_data,
  cil_typeattribute_data, cil_sid_data, cil_sens_data, cil_cat_data, cil_alias_data,
  cil_optional_data, cil_policycap_data, cil_classpermission_data, cil_bool_data, cil_tunable_data,
  cil_catset_data, cil_level_data, cil_levelrange_data, cil_context_data,
}
use cil.Expr.{◌>>=◌}
use cil.Flavor.{
  Flavor, cil_none, cil_block, cil_optional, cil_user, cil_role, cil_roleattribute, cil_type,
  cil_typeattribute, cil_typealias, cil_bool, cil_tunable, cil_sens, cil_cat, cil_catset, cil_level,
  cil_levelrange, cil_context, cil_sid, cil_policycap, cil_classpermission,
}
use cil.Flavor.Index.{
  flavor_to_symtab_index, cil_sym_blocks, cil_sym_users, cil_sym_roles, cil_sym_types,
  cil_sym_bools, cil_sym_tunables, cil_sym_sens, cil_sym_cats, cil_sym_sids, cil_sym_classpermsets,
  cil_sym_contexts, cil_sym_levels, cil_sym_levelranges, cil_sym_policycaps, cil_sym_unknown,
}
use cil.Hashtab.{Hashtab}
use cil.Text.{Text, text_eq, cil_key_self}
use cil.Tree.{Nodes}
use cil.Verify.{
  Syntax, verify_syntax, string_syntax, list_syntax, n_lists_syntax, end_syntax, either,
}

-- The status, the tables, and the flavor and data of the node.
pub record Built (T : Type 0) : Type 0 where
  pub status : Status
  pub symtabs : Tables T
  pub node_flavor : Flavor
  pub node_data : Option Statement

abbrev pub failed : {T : Type 0} → Status → Tables T → Built T
failed rc tables = record {
  status = rc;
  symtabs = tables;
  node_flavor = cil_none;
  node_data = none;
}

-- `(keyword name)`, and with a list, with lists and with a value behind the name.
abbrev pub name_syntax : List Syntax
name_syntax = string_syntax ∷ string_syntax ∷ end_syntax ∷ []

abbrev pub name_list_syntax : List Syntax
name_list_syntax = string_syntax ∷ string_syntax ∷ list_syntax ∷ end_syntax ∷ []

abbrev pub scope_syntax : List Syntax
scope_syntax = string_syntax ∷ string_syntax ∷ either n_lists_syntax end_syntax ∷ end_syntax ∷ []

abbrev pub value_syntax : List Syntax
value_syntax = string_syntax ∷ string_syntax ∷ string_syntax ∷ end_syntax ∷ []

-- What follows the check of the syntax, with the name that is declared.
abbrev pub with_key : {T : Type 0} → Tables T → Nodes → List Syntax → (Text → Built T) → Built T
with_key tables pc syntax k =
    if is_ok (verify_syntax pc syntax)
    then elim (data_of (next pc)) [ none ↦ failed sepol_err tables | some key ↦ k key ]
    else failed sepol_err tables

-- The node as cil_gen_node has left it, with the rest of its data filled in: `none` where that
-- fails. The datum is destroyed on an error.
unfoldable pub finish_node :
    {T : Type 0} → Hashtab T → Inserted T → Text → Flavor → Option Statement → Built T
unfolding remove_datum
finish_node h r key nflavor none =
    failed (if is_ok r.rc then sepol_err else r.rc) (remove_datum h r.tables r.home key)
finish_node h r key nflavor (some x) =
    if is_ok r.rc
    then record { status = sepol_ok; symtabs = r.tables; node_flavor = nflavor; node_data = some x }
    else failed r.rc (remove_datum h r.tables r.home key)

module _ {T : Type 0} (h : Hashtab T) where
  unfoldable pub declare : Parent → Tables T → ℕ → Text → ℕ → Flavor → Option Statement → Built T
  unfolding gen_node finish_node
  declare parent tables d key sflavor nflavor o =
      finish_node h (gen_node h parent tables d key sflavor nflavor) key nflavor o

  unfoldable pub gen_block : Nodes → Parent → Tables T → ℕ → Bool → Built T
  unfolding declare verify_syntax
  gen_block pc parent tables d is_abstract = with_key tables pc scope_syntax λ key.
      declare parent tables d key cil_sym_blocks cil_block (some (cil_block_data d is_abstract))

  unfoldable pub gen_optional : Nodes → Parent → Tables T → ℕ → Built T
  unfolding declare verify_syntax
  gen_optional pc parent tables d =
      with_key tables pc scope_syntax
        λ key. declare parent tables d key cil_sym_blocks cil_optional (some (cil_optional_data d))

  unfoldable pub gen_user : Nodes → Parent → Tables T → ℕ → Built T
  unfolding declare verify_syntax
  gen_user pc parent tables d =
      with_key tables pc name_syntax
        λ key. declare parent tables d key cil_sym_users cil_user (some (cil_user_data d))

  unfoldable pub gen_role : Nodes → Parent → Tables T → ℕ → Built T
  unfolding declare verify_syntax
  gen_role pc parent tables d =
      with_key tables pc name_syntax
        λ key. declare parent tables d key cil_sym_roles cil_role (some (cil_role_data d))

  unfoldable pub gen_sid : Nodes → Parent → Tables T → ℕ → Built T
  unfolding declare verify_syntax
  gen_sid pc parent tables d =
      with_key tables pc name_syntax
        λ key. declare parent tables d key cil_sym_sids cil_sid (some (cil_sid_data d))

  unfoldable pub gen_sensitivity : Nodes → Parent → Tables T → ℕ → Built T
  unfolding declare verify_syntax
  gen_sensitivity pc parent tables d =
      with_key tables pc name_syntax
        λ key. declare parent tables d key cil_sym_sens cil_sens (some (cil_sens_data d))

  unfoldable pub gen_category : Nodes → Parent → Tables T → ℕ → Built T
  unfolding declare verify_syntax
  gen_category pc parent tables d =
      with_key tables pc name_syntax
        λ key. declare parent tables d key cil_sym_cats cil_cat (some (cil_cat_data d))

  unfoldable pub gen_policycap : Nodes → Parent → Tables T → ℕ → Built T
  unfolding declare verify_syntax
  gen_policycap pc parent tables d = with_key tables pc name_syntax λ key.
      declare parent tables d key cil_sym_policycaps cil_policycap (some (cil_policycap_data d))

  unfoldable pub gen_classpermission : Nodes → Parent → Tables T → ℕ → Built T
  unfolding declare verify_syntax
  gen_classpermission pc parent tables d = with_key tables pc name_syntax λ key.
      declare parent tables d key cil_sym_classpermsets cil_classpermission
        (some (cil_classpermission_data d))

  unfoldable pub gen_type : Nodes → Parent → Tables T → ℕ → Built T
  unfolding declare verify_syntax
  gen_type pc parent tables d = with_key tables pc name_syntax λ key.
      if text_eq key cil_key_self
      then failed sepol_err tables
      else declare parent tables d key cil_sym_types cil_type (some (cil_type_data d))

  unfoldable pub gen_typeattribute : Nodes → Parent → Tables T → ℕ → Built T
  unfolding declare verify_syntax
  gen_typeattribute pc parent tables d = with_key tables pc name_syntax λ key.
      if text_eq key cil_key_self
      then failed sepol_err tables
      else declare parent tables d key cil_sym_types cil_typeattribute
          (some (cil_typeattribute_data d))

  unfoldable pub gen_roleattribute : Nodes → Parent → Tables T → ℕ → Built T
  unfolding declare verify_syntax
  gen_roleattribute pc parent tables d = with_key tables pc name_syntax λ key.
      if text_eq key cil_key_self
      then failed sepol_err tables
      else declare parent tables d key cil_sym_roles cil_roleattribute
          (some (cil_roleattribute_data d))

  -- The symbol table is that of the flavor, which is one of the three of an alias.
  unfoldable pub gen_alias : Flavor → Nodes → Parent → Tables T → ℕ → Built T
  unfolding declare verify_syntax flavor_to_symtab_index
  gen_alias flavor pc parent tables d = with_key tables pc name_syntax λ key.
      let r = flavor_to_symtab_index flavor cil_sym_unknown in
      if flavor == cil_typealias && text_eq key cil_key_self
      then failed sepol_err tables
      else if is_ok r.0
      then declare parent tables d key r.1 flavor (some (cil_alias_data d))
      else failed r.0 tables

  -- A value other than `true` and `false` is refused before the name is declared.
  abbrev pub declare_truth :
      Parent → Tables T → ℕ → Text → ℕ → Flavor → (Bool → Statement) → Option Bool → Built T
  declare_truth parent tables d key sflavor nflavor c none = failed sepol_err tables
  declare_truth parent tables d key sflavor nflavor c (some v) =
      declare parent tables d key sflavor nflavor (some (c v))

  unfoldable pub gen_bool : Nodes → Parent → Tables T → ℕ → Built T
  unfolding declare verify_syntax
  gen_bool pc parent tables d = with_key tables pc value_syntax λ key.
      declare_truth parent tables d key cil_sym_bools cil_bool (cil_bool_data d)
        (data_of (next (next pc)) >>= truth)

  unfoldable pub gen_tunable : Nodes → Parent → Tables T → ℕ → Built T
  unfolding declare verify_syntax
  gen_tunable pc parent tables d = with_key tables pc value_syntax λ key.
      declare_truth parent tables d key cil_sym_tunables cil_tunable (cil_tunable_data d)
        (data_of (next (next pc)) >>= truth)

  -- From here on, what follows the name is filled in once the name is declared.
  unfoldable pub gen_catset : ℕ → Nodes → Parent → Tables T → ℕ → Built T
  unfolding declare verify_syntax fill_cats
  gen_catset max_depth pc parent tables d = with_key tables pc name_list_syntax λ key.
      declare parent tables d key cil_sym_cats cil_catset
        (fill_cats max_depth (next (next pc)) >>= λ e. some (cil_catset_data d e))

  unfoldable pub gen_level : ℕ → Nodes → Parent → Tables T → ℕ → Built T
  unfolding declare verify_syntax fill_level
  gen_level max_depth pc parent tables d = with_key tables pc name_list_syntax λ key.
      declare parent tables d key cil_sym_levels cil_level
        (fill_level max_depth (cl_head (next (next pc))) >>= λ x. some (cil_level_data d x))

  unfoldable pub gen_levelrange : ℕ → Nodes → Parent → Tables T → ℕ → Built T
  unfolding declare verify_syntax fill_levelrange
  gen_levelrange max_depth pc parent tables d = with_key tables pc name_list_syntax λ key.
      declare parent tables d key cil_sym_levelranges cil_levelrange (
        fill_levelrange max_depth (cl_head (next (next pc))) >>= λ x.
        some (cil_levelrange_data d x))

  unfoldable pub gen_context : ℕ → Nodes → Parent → Tables T → ℕ → Built T
  unfolding declare verify_syntax fill_context
  gen_context max_depth pc parent tables d = with_key tables pc name_list_syntax λ key.
      declare parent tables d key cil_sym_contexts cil_context
        (fill_context max_depth (cl_head (next (next pc))) >>= λ x. some (cil_context_data d x))

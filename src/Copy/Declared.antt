-- ===== src/Copy/Declared.antt =====
-- The copy of a statement that declares a name, and its entry in the tables of symbols, of
-- src/cil_copy_ast.c: a datum that the table has under the name is taken for the copy, or makes it
-- fail.
pub mod Entries
use cil.Base.{
  ℕ, List, [], ◌∷◌, Option, none, some, Bool, true, false, ◌&&◌, ◌||◌, not, ◌==◌, if◌then◌else◌,
  Status, sepol_ok, sepol_err, is_ok,
}
use cil.Build.{Param, Parent, top_level, ast_node, Tables, write, get_symtab, shadows, remove_datum}
use cil.Build.Fill.{Expression, LevelStr, LevelRangeStr, ContextStr}
use cil.Build.Statement.{
  Statement, cil_block_data, cil_alias_data, cil_bool_data, cil_tunable_data, cil_catset_data,
  cil_level_data, cil_levelrange_data, cil_context_data, cil_user_data, cil_role_data,
  cil_roleattribute_data, cil_type_data, cil_typeattribute_data, cil_sid_data, cil_sens_data,
  cil_cat_data, cil_optional_data, cil_policycap_data,
}
use cil.Copy.{copy_cats, copy_fill_level, copy_fill_levelrange, copy_fill_context}
use cil.Flavor.{Flavor, cil_block, cil_macro, cil_root}
use cil.Flavor.Index.{flavor_to_symtab_index, cil_sym_unknown}
use cil.Hashtab.{Hashtab}
use cil.Resolve.{SymtabPtr}
use cil.Text.{Text}

-- What a copy function leaves in `*copy`: the datum that it has found, or a new one with its data;
-- or SEPOL_ERR.
pub data Copied : Type 0 where
  reused : ℕ → Copied
  created : Statement → Copied
  refused : Copied

abbrev pub or_reuse : Option ℕ → Statement → Copied
or_reuse none x = created x
or_reuse (some e) x = reused e

abbrev pub or_refuse : Option ℕ → Statement → Copied
or_refuse none x = created x
or_refuse (some e) x = refused

-- By what the search for the name has found, and the address of a new datum. A new block is not
-- abstract.
unfoldable pub copy_block : Option ℕ → ℕ → Copied
copy_block found d = or_reuse found (cil_block_data d false)

unfoldable pub copy_user : Option ℕ → ℕ → Copied
copy_user found d = or_reuse found (cil_user_data d)

unfoldable pub copy_role : Option ℕ → ℕ → Copied
copy_role found d = or_reuse found (cil_role_data d)

unfoldable pub copy_roleattribute : Option ℕ → ℕ → Copied
copy_roleattribute found d = or_reuse found (cil_roleattribute_data d)

unfoldable pub copy_type : Option ℕ → ℕ → Copied
copy_type found d = or_reuse found (cil_type_data d)

unfoldable pub copy_typeattribute : Option ℕ → ℕ → Copied
copy_typeattribute found d = or_reuse found (cil_typeattribute_data d)

unfoldable pub copy_sid : Option ℕ → ℕ → Copied
copy_sid found d = or_reuse found (cil_sid_data d)

unfoldable pub copy_sens : Option ℕ → ℕ → Copied
copy_sens found d = or_reuse found (cil_sens_data d)

unfoldable pub copy_cat : Option ℕ → ℕ → Copied
copy_cat found d = or_reuse found (cil_cat_data d)

unfoldable pub copy_optional : Option ℕ → ℕ → Copied
copy_optional found d = or_reuse found (cil_optional_data d)

unfoldable pub copy_policycap : Option ℕ → ℕ → Copied
copy_policycap found d = or_reuse found (cil_policycap_data d)

unfoldable pub copy_alias : Option ℕ → ℕ → Copied
copy_alias found d = or_refuse found (cil_alias_data d)

unfoldable pub copy_bool : Option ℕ → ℕ → Bool → Copied
copy_bool found d value = or_refuse found (cil_bool_data d value)

unfoldable pub copy_tunable : Option ℕ → ℕ → Bool → Copied
copy_tunable found d value = or_refuse found (cil_tunable_data d value)

unfoldable pub copy_catset : Option ℕ → ℕ → Expression → Copied
unfolding copy_cats
copy_catset found d cats = or_refuse found (cil_catset_data d (copy_cats cats))

unfoldable pub copy_level : Option ℕ → ℕ → LevelStr → Copied
unfolding copy_fill_level
copy_level found d orig = or_refuse found (cil_level_data d (copy_fill_level orig))

unfoldable pub copy_levelrange : Option ℕ → ℕ → LevelRangeStr → Copied
unfolding copy_fill_levelrange
copy_levelrange found d orig = or_refuse found (cil_levelrange_data d (copy_fill_levelrange orig))

unfoldable pub copy_context : Option ℕ → ℕ → ContextStr → Copied
unfolding copy_fill_context
copy_context found d orig = or_refuse found (cil_context_data d (copy_fill_context orig))

-- The choice of the function. The statements that declare no name, and the classpermission, which
-- has no structure to write to, have none here.
unfoldable pub copy_declaration : Option ℕ → ℕ → Statement → Copied
unfolding copy_block copy_user copy_role copy_roleattribute copy_type copy_typeattribute copy_sid
    copy_sens copy_cat copy_optional copy_policycap copy_alias copy_bool copy_tunable copy_catset
    copy_level copy_levelrange copy_context
copy_declaration found d (cil_block_data a b) = copy_block found d
copy_declaration found d (cil_user_data a) = copy_user found d
copy_declaration found d (cil_role_data a) = copy_role found d
copy_declaration found d (cil_roleattribute_data a) = copy_roleattribute found d
copy_declaration found d (cil_type_data a) = copy_type found d
copy_declaration found d (cil_typeattribute_data a) = copy_typeattribute found d
copy_declaration found d (cil_sid_data a) = copy_sid found d
copy_declaration found d (cil_sens_data a) = copy_sens found d
copy_declaration found d (cil_cat_data a) = copy_cat found d
copy_declaration found d (cil_optional_data a) = copy_optional found d
copy_declaration found d (cil_policycap_data a) = copy_policycap found d
copy_declaration found d (cil_alias_data a) = copy_alias found d
copy_declaration found d (cil_bool_data a b) = copy_bool found d b
copy_declaration found d (cil_tunable_data a b) = copy_tunable found d b
copy_declaration found d (cil_catset_data a b) = copy_catset found d b
copy_declaration found d (cil_level_data a b) = copy_level found d b
copy_declaration found d (cil_levelrange_data a b) = copy_levelrange found d b
copy_declaration found d (cil_context_data a b) = copy_context found d b
copy_declaration found d _ = refused

-- The parameters of the macro around a node, up to the next block.
unfoldable pub params_around : Parent → List Param
params_around top_level = []
params_around (ast_node f a ps above) =
    let rest = params_around above in
    if f == cil_macro then ps else if f == cil_block || f == cil_root then [] else rest

-- The status, the tables, and the datum of the new node.
pub record CopiedNode (T : Type 0) : Type 0 where
  pub status : Status
  pub symtabs : Tables T
  pub copy : Option ℕ

module _ {T : Type 0} (h : Hashtab T) where
  abbrev pub gave_up : Tables T → CopiedNode T
  gave_up tables = record { status = sepol_err; symtabs = tables; copy = none }

  -- The insertion, the status of which is dropped, and the check of the parameters. On an error the
  -- node goes, and with it a datum that has no other node: a new one.
  unfoldable pub insert_copy :
      Parent → Tables T → SymtabPtr → Flavor → Text → ℕ → Copied → CopiedNode T
  unfolding write shadows params_around remove_datum
  insert_copy parent tables p flavor key d refused = gave_up tables
  insert_copy parent tables p flavor key d (reused e) =
      let after = write tables p (h.insert (tables p) key e).1 in
      if not (flavor == cil_block) && shadows (params_around parent) flavor key
      then gave_up after
      else record { status = sepol_ok; symtabs = after; copy = some e }
  insert_copy parent tables p flavor key d (created x) =
      let after = write tables p (h.insert (tables p) key d).1 in
      if not (flavor == cil_block) && shadows (params_around parent) flavor key
      then gave_up (remove_datum h after (some p) key)
      else record { status = sepol_ok; symtabs = after; copy = some d }

  -- The part of __cil_copy_node_helper for a declaration, with its flavor, name and data.
  unfoldable pub copy_node : Parent → Tables T → Flavor → Text → Statement → ℕ → CopiedNode T
  unfolding get_symtab insert_copy copy_declaration flavor_to_symtab_index
  copy_node parent tables flavor key x d =
      let r = flavor_to_symtab_index flavor cil_sym_unknown in
      if is_ok r.0
      then elim (get_symtab parent r.1) [
        | none ↦ gave_up tables
        | some p ↦
            insert_copy parent tables p flavor key d
              (copy_declaration (h.search (tables p) key) d x)
      ]
      else gave_up tables

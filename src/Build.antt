-- ===== src/Build.antt =====
-- Building the AST, of src/cil_build_ast.c: the declaration of names (cil_gen_node, with
-- cil_get_symtab of src/cil.c and cil_symtab_insert of src/cil_symtab.c), and the statements. The
-- tables of symbols are those of libsepol, with the operations `h`. A node of the AST is given by
-- what is read of it and of its ancestors.
pub mod Fill
pub mod Statement
pub mod Rules
pub mod Settings
pub mod Levelled
pub mod Integers
pub mod Labels
pub mod Declare
pub mod Dispatch
pub mod Atomic
pub mod Examples
use cil.Base.{
  ℕ, List, [], ◌∷◌, Option, none, some, Bool, true, false, ◌&&◌, ◌||◌, not, ltb, leb, ◌==◌,
  if◌then◌else◌, Status, sepol_ok, sepol_err, sepol_enoent, sepol_eexist, is_ok,
}
use cil.Flavor.{
  Flavor, cil_none, cil_root, cil_block, cil_macro, cil_in, cil_condblock, cil_booleanif,
  cil_tunableif, cil_class, cil_map_class, cil_common,
}
use cil.Flavor.Index.{cil_sym_num, cil_sym_perms, cil_min_declarative}
use cil.Hashtab.{Hashtab}
use cil.Resolve.{SymtabPtr, symtab_in}
use cil.Text.{Text, text_eq}
use cil.Tree.{Node, Nodes, node, nil, cons}
use cil.Verify.Names.{verify_name}

-- `struct cil_param`
pub record Param : Type 0 where
  pub str : Text
  pub param_flavor : Flavor

-- A node's flavor, the array of tables of its data, the parameters of a macro, and its parent. For
-- a class, the array is the one that holds the table of its permissions.
pub data Parent : Type 0 where
  top_level : Parent
  ast_node : Flavor → ℕ → List Param → Parent → Parent

abbrev pub has_symtab : Flavor → Bool
has_symtab f = f == cil_root || (f == cil_block || (f == cil_macro || f == cil_in))

-- The loop of cil_get_symtab. From a condblock in neither a booleanif nor a tunableif, which
-- cil_gen_condblock does not build, the loop would not go on.
unfoldable pub symtab_from : ℕ → Parent → Option SymtabPtr
symtab_from i top_level = none
symtab_from i (ast_node f a ps top_level) = if has_symtab f then some (symtab_in a i) else none
symtab_from i (ast_node f a ps (ast_node g b qs above)) =
    let around = symtab_from i above in
    let up = symtab_from i (ast_node g b qs above) in
    if has_symtab f
    then some (symtab_in a i)
    else if f == cil_condblock
    then (if g == cil_tunableif
        then some (symtab_in a i)
        else if g == cil_booleanif
        then around
        else none)
    else up

abbrev pub flavor_of : Parent → Flavor
flavor_of top_level = cil_none
flavor_of (ast_node f a ps above) = f

abbrev perms_of : Parent → Option SymtabPtr
perms_of top_level = none
perms_of (ast_node f a ps above) =
    if f == cil_class || (f == cil_map_class || f == cil_common)
    then some (symtab_in a cil_sym_perms)
    else none

-- `none` is SEPOL_ERR.
unfoldable pub get_symtab : Parent → ℕ → Option SymtabPtr
unfolding symtab_from
get_symtab parent i =
    if i == cil_sym_perms
    then perms_of parent
    else if leb cil_sym_num i
    then none
    else symtab_from i parent

-- Whether a macro around the node has a parameter of that name and flavor.
unfoldable pub shadows : List Param → Flavor → Text → Bool
shadows [] flavor key = false
shadows (p ∷ ps) flavor key =
    let rest = shadows ps flavor key in
    if p.param_flavor == flavor && text_eq p.str key then true else rest

unfoldable pub shadows_param : Parent → Flavor → Text → Bool
unfolding shadows
shadows_param top_level flavor key = false
shadows_param (ast_node f a ps above) flavor key = f == cil_macro && shadows ps flavor key

-- The tables, by their pointers.
abbrev pub Tables : Type 0 → Type 0
Tables T = SymtabPtr → T

unfoldable pub write : {T : Type 0} → Tables T → SymtabPtr → T → Tables T
write tables p t q = if q.array == p.array && q.index == p.index then t else tables q

-- What cil_gen_node returns: the status, the tables, and `datum->symtab`.
pub record Inserted (T : Type 0) : Type 0 where
  pub rc : Status
  pub tables : Tables T
  pub home : Option SymtabPtr

module _ {T : Type 0} (h : Hashtab T) where
  -- `cil_symtab_insert` and what follows it, in the table `p`. A status other than SEPOL_OK and
  -- SEPOL_EEXIST ends the program in `cil_symtab_error`; here it is the result.
  unfoldable pub insert_datum : Parent → Tables T → SymtabPtr → Text → ℕ → Flavor → Inserted T
  unfolding write shadows_param
  insert_datum parent tables p key datum nflavor =
      let r = h.insert (tables p) key datum in
      let home = if is_ok r.0 then some p else none in
      let after = write tables p r.1 in
      if not (is_ok r.0)
      then record { rc = r.0; tables = after; home = home }
      else if leb cil_min_declarative nflavor && shadows_param parent nflavor key
      then record { rc = sepol_err; tables = after; home = home }
      else record { rc = sepol_ok; tables = after; home = home }

  unfoldable pub gen_node : Parent → Tables T → ℕ → Text → ℕ → Flavor → Inserted T
  unfolding get_symtab insert_datum verify_name
  gen_node parent tables datum key sflavor nflavor =
      if is_ok (verify_name key)
      then elim (get_symtab parent sflavor) [
        | none ↦ record { rc = sepol_err; tables = tables; home = none }
        | some p ↦ insert_datum parent tables p key datum nflavor
      ]
      else record { rc = sepol_err; tables = tables; home = none }

  -- `cil_symtab_remove_datum`, as the destruction of a datum calls it.
  unfoldable pub remove_datum : Tables T → Option SymtabPtr → Text → Tables T
  unfolding write
  remove_datum tables none name = tables
  remove_datum tables (some p) name = write tables p (h.remove (tables p) name)

-- ===== src/Classes.antt =====
-- Classes, map classes and commons with their permissions, which have numbers: their building
-- (src/cil_build_ast.c), the resolution of a classcommon (src/cil_resolve_ast.c), and their reset
-- (src/cil_reset_ast.c).
pub mod Common
pub mod Numbers
pub mod Again
pub mod Examples
use cil.Base.{
  ℕ, ◌+◌, ◌-◌, ◌%◌, List, [], ◌∷◌, Option, none, some, Bool, true, false, not, ◌==◌, if◌then◌else◌,
  Status, sepol_ok, sepol_err, is_ok,
}
use cil.Build.{Parent, ast_node, Tables, gen_node, remove_datum}
use cil.Build.Fill.{next, data_of, cl_head}
use cil.Flavor.{Flavor, cil_class, cil_map_class, cil_common, cil_perm, cil_map_perm}
use cil.Flavor.Index.{cil_sym_classes, cil_sym_commons, cil_sym_perms}
use cil.Hashtab.{Hashtab}
use cil.Text.{Text}
use cil.Tree.{Nodes, node, nil, cons}
use cil.Verify.{Syntax, verify_syntax, no_syntax, string_syntax, list_syntax, end_syntax, either}

-- `struct cil_perm`
pub record Perm : Type 0 where
  pub name : Text
  pub value : ℕ

-- `struct cil_class`, with the permissions of its table in the order of their declaration; `common`
-- is an address.
pub record Class : Type 0 where
  pub perms : List Perm
  pub num_perms : ℕ
  pub common : Option ℕ
  pub ordered : Bool

-- An unsigned int.
abbrev pub wrap : ℕ → ℕ
wrap n = n % 4294967296

-- The status, the tables, the permissions, and `*num_perms`.
pub record PermsBuilt (T : Type 0) : Type 0 where
  pub status : Status
  pub symtabs : Tables T
  pub perms : List Perm
  pub num_perms : ℕ

pub record ClassBuilt (T : Type 0) : Type 0 where
  pub status : Status
  pub symtabs : Tables T
  pub class : Option Class

abbrev pub no_class : {T : Type 0} → Status → Tables T → ClassBuilt T
no_class rc tables = record { status = rc; symtabs = tables; class = none }

module _ {T : Type 0} (h : Hashtab T) where
  -- The new data have the addresses from `d` on. A permission without a name, which the code would
  -- look into, is an error here.
  unfoldable pub gen_perm_nodes : Flavor → Parent → Nodes → Tables T → ℕ → ℕ → PermsBuilt T
  unfolding gen_node remove_datum
  gen_perm_nodes flavor parent nil tables d num_perms = record {
    status = sepol_ok;
    symtabs = tables;
    perms = [];
    num_perms = num_perms;
  }
  gen_perm_nodes flavor parent (cons (node l t (cons c cs)) ns) tables d num_perms = record {
    status = sepol_err;
    symtabs = tables;
    perms = [];
    num_perms = num_perms;
  }
  gen_perm_nodes flavor parent (cons (node l none nil) ns) tables d num_perms = record {
    status = sepol_err;
    symtabs = tables;
    perms = [];
    num_perms = num_perms;
  }
  gen_perm_nodes flavor parent (cons (node l (some key) nil) ns) tables d num_perms =
      let r = gen_node h parent tables d key cil_sym_perms flavor in
      let rest = gen_perm_nodes flavor parent ns r.tables (d + 1) (wrap (num_perms + 1)) in
      if is_ok r.rc
      then record {
        status = rest.status;
        symtabs = rest.symtabs;
        perms = record { name = key; value = num_perms } ∷ rest.perms;
        num_perms = rest.num_perms;
      }
      else record {
        status = r.rc;
        symtabs = remove_datum h r.tables r.home key;
        perms = [];
        num_perms = num_perms;
      }

  -- From the name on: the datum, then its permissions. On an error the datum is destroyed, and its
  -- table of permissions with it.
  unfoldable pub declare_class :
      ℕ → Flavor → Flavor → Text → Nodes → Parent → Tables T → ℕ → ClassBuilt T
  unfolding gen_perm_nodes
  declare_class sflavor nflavor perm_flavor key perms parent tables d =
      let r = gen_node h parent tables d key sflavor nflavor in
      let ps = gen_perm_nodes perm_flavor (ast_node nflavor d [] parent) perms r.tables (d + 1) 0 in
      if not (is_ok r.rc)
      then no_class r.rc (remove_datum h r.tables r.home key)
      else if not (is_ok ps.status)
      then no_class ps.status (remove_datum h ps.symtabs r.home key)
      else record {
        status = sepol_ok;
        symtabs = ps.symtabs;
        class =
            some (record {
              perms = ps.perms;
              num_perms = ps.num_perms;
              common = none;
              ordered = false;
            });
      }

  -- After the check of the syntax.
  abbrev pub named_class : Nodes → List Syntax → Tables T → (Text → ClassBuilt T) → ClassBuilt T
  named_class pc syntax tables k =
      if is_ok (verify_syntax pc syntax)
      then elim (data_of (next pc)) [ none ↦ no_class sepol_err tables | some key ↦ k key ]
      else no_class sepol_err tables

  abbrev pub class_syntax : List Syntax
  class_syntax =
      string_syntax
      ∷ string_syntax
      ∷ either list_syntax (record no_syntax { empty_list = true })
      ∷ end_syntax
      ∷ []

  abbrev pub perms_syntax : List Syntax
  perms_syntax = string_syntax ∷ string_syntax ∷ list_syntax ∷ end_syntax ∷ []

  unfoldable pub gen_class : Nodes → Parent → Tables T → ℕ → ClassBuilt T
  unfolding declare_class verify_syntax
  gen_class pc parent tables d = named_class pc class_syntax tables λ key.
      declare_class cil_sym_classes cil_class cil_perm key (cl_head (next (next pc))) parent tables
        d

  unfoldable pub gen_map_class : Nodes → Parent → Tables T → ℕ → ClassBuilt T
  unfolding declare_class verify_syntax
  gen_map_class pc parent tables d = named_class pc perms_syntax tables λ key.
      declare_class cil_sym_classes cil_map_class cil_map_perm key (cl_head (next (next pc))) parent
        tables d

  unfoldable pub gen_common : Nodes → Parent → Tables T → ℕ → ClassBuilt T
  unfolding declare_class verify_syntax
  gen_common pc parent tables d = named_class pc perms_syntax tables λ key.
      declare_class cil_sym_commons cil_common cil_perm key (cl_head (next (next pc))) parent tables
        d

-- ===== src/Flavor/Index.antt =====
-- `enum cil_sym_index` (src/cil_internal.h), a table for each kind of declaration, and the table of
-- a flavor (cil_flavor_to_symtab_index of src/cil.c).
use cil.Base.{ℕ, ◌||◌, ltb, ◌==◌, if◌then◌else◌, Status, sepol_ok, sepol_err}
use cil.Flavor.{
  Flavor, cil_block, cil_macro, cil_optional, cil_bool, cil_tunable, cil_perm, cil_map_perm,
  cil_common, cil_class, cil_map_class, cil_classpermission, cil_user, cil_role, cil_roleattribute,
  cil_type, cil_typealias, cil_typeattribute, cil_sens, cil_sensalias, cil_cat, cil_catset,
  cil_catalias, cil_level, cil_levelrange, cil_sid, cil_name, cil_context, cil_ipaddr,
  cil_policycap,
}

abbrev pub cil_sym_blocks : ℕ
cil_sym_blocks = 0

abbrev pub cil_sym_users : ℕ
cil_sym_users = 1

abbrev pub cil_sym_roles : ℕ
cil_sym_roles = 2

abbrev pub cil_sym_types : ℕ
cil_sym_types = 3

abbrev pub cil_sym_commons : ℕ
cil_sym_commons = 4

abbrev pub cil_sym_classes : ℕ
cil_sym_classes = 5

abbrev pub cil_sym_classpermsets : ℕ
cil_sym_classpermsets = 6

abbrev pub cil_sym_bools : ℕ
cil_sym_bools = 7

abbrev pub cil_sym_tunables : ℕ
cil_sym_tunables = 8

abbrev pub cil_sym_sens : ℕ
cil_sym_sens = 9

abbrev pub cil_sym_cats : ℕ
cil_sym_cats = 10

abbrev pub cil_sym_sids : ℕ
cil_sym_sids = 11

abbrev pub cil_sym_contexts : ℕ
cil_sym_contexts = 12

abbrev pub cil_sym_levels : ℕ
cil_sym_levels = 13

abbrev pub cil_sym_levelranges : ℕ
cil_sym_levelranges = 14

abbrev pub cil_sym_policycaps : ℕ
cil_sym_policycaps = 15

abbrev pub cil_sym_ipaddrs : ℕ
cil_sym_ipaddrs = 16

abbrev pub cil_sym_names : ℕ
cil_sym_names = 17

abbrev pub cil_sym_num : ℕ
cil_sym_num = 18

abbrev pub cil_sym_unknown : ℕ
cil_sym_unknown = 19

abbrev pub cil_sym_perms : ℕ
cil_sym_perms = 20

abbrev pub cil_min_declarative : ℕ
cil_min_declarative = 2000

-- The switch, CIL_SYM_UNKNOWN for a flavor with no case.
unfoldable pub symtab_index_of : Flavor → ℕ
symtab_index_of f =
    if f == cil_block || f == cil_macro || f == cil_optional
    then cil_sym_blocks
    else if f == cil_bool
    then cil_sym_bools
    else if f == cil_tunable
    then cil_sym_tunables
    else if f == cil_perm || f == cil_map_perm
    then cil_sym_perms
    else if f == cil_common
    then cil_sym_commons
    else if f == cil_class || f == cil_map_class
    then cil_sym_classes
    else if f == cil_classpermission
    then cil_sym_classpermsets
    else if f == cil_user
    then cil_sym_users
    else if f == cil_role || f == cil_roleattribute
    then cil_sym_roles
    else if f == cil_type || f == cil_typealias || f == cil_typeattribute
    then cil_sym_types
    else if f == cil_sens || f == cil_sensalias
    then cil_sym_sens
    else if f == cil_cat || f == cil_catset || f == cil_catalias
    then cil_sym_cats
    else if f == cil_level
    then cil_sym_levels
    else if f == cil_levelrange
    then cil_sym_levelranges
    else if f == cil_sid
    then cil_sym_sids
    else if f == cil_name
    then cil_sym_names
    else if f == cil_context
    then cil_sym_contexts
    else if f == cil_ipaddr
    then cil_sym_ipaddrs
    else if f == cil_policycap
    then cil_sym_policycaps
    else cil_sym_unknown

-- The status, and `*sym_index`. A CIL_CLASSPERMISSIONSET does not reach its case: it stands below
-- the declarative flavors.
unfoldable pub flavor_to_symtab_index : Flavor → ℕ → Status × ℕ
unfolding symtab_index_of
flavor_to_symtab_index flavor sym_index =
    let i = symtab_index_of flavor in
    if ltb flavor cil_min_declarative
    then (sepol_err, sym_index)
    else if i == cil_sym_unknown
    then (sepol_err, i)
    else (sepol_ok, i)

-- ===== src/Classes/Common.antt =====
-- A class gets the permissions of a common, and loses them at a reset, of src/cil_resolve_ast.c and
-- src/cil_reset_ast.c. The classes and commons are given by their addresses.
use cil.Base.{
  ℕ, ◌+◌, ◌-◌, List, [], ◌∷◌, Option, none, some, Bool, true, false, ◌==◌, if◌then◌else◌,
}
use cil.Classes.{Perm, Class, wrap}

abbrev pub Classes : Type 0
Classes = ℕ → Class

unfoldable pub set_class : Classes → ℕ → Class → Classes
set_class classes a c b = if b == a then c else classes b

-- `hashtab_map` of a function of the value over a table of permissions.
unfoldable pub map_values : (ℕ → ℕ) → List Perm → List Perm
map_values f [] = []
map_values f (p ∷ ps) = record p { value = f p.value } ∷ map_values f ps

-- `perm->value += k` and `perm->value -= k`
abbrev pub update_value : ℕ → ℕ → ℕ
update_value k v = wrap (v + k)

abbrev pub reset_value : ℕ → ℕ → ℕ
reset_value k v = wrap (v + (4294967296 - wrap k))

abbrev pub has_common : Option ℕ → Bool
has_common none = false
has_common (some a) = true

-- Once both names have been found; `none` is SEPOL_ERR.
unfoldable pub resolve_classcommon : Classes → ℕ → ℕ → Option Classes
unfolding set_class map_values
resolve_classcommon classes class common =
    let c = classes class in
    let k = (classes common).num_perms in
    if has_common c.common
    then none
    else some (
        set_class classes class (record c {
          common = some common;
          perms = map_values (update_value k) c.perms;
          num_perms = wrap (c.num_perms + k);
        }))

-- By `class->common`. The permissions of the common are changed, not those of the class.
unfoldable pub reset_common : Classes → ℕ → Option ℕ → Classes
unfolding set_class map_values
reset_common classes class none = classes
reset_common classes class (some common) =
    let m = classes common in
    let changed =
      set_class classes common
        (record m { perms = map_values (reset_value m.num_perms) m.perms }) in
    let d = changed class in
    set_class changed class
      (record d { num_perms = wrap (d.num_perms + (4294967296 - wrap m.num_perms)); common = none })

unfoldable pub reset_class : Classes → ℕ → Classes
unfolding reset_common set_class
reset_class classes class =
    let after = reset_common classes class (classes class).common in
    set_class after class (record (after class) { ordered = false })

-- ===== src/Resolve.antt =====
-- The lookup of names, of src/cil_resolve_ast.c. A datum is its address, and a store holds what the
-- lookup reads of the data: the search in the tables of symbols (libsepol's hashtab_search), and for each datum the flavor of its node, the
-- array of tables of a block or a macro, the table that holds it, and an alias's actual datum. A
-- pointer to a table is an array of tables and an index into it. A node is given with the nodes to
-- which the lookup goes on from it, which in a finished AST lead to the root.
pub mod Scopes
pub mod Tokens
pub mod Dotted
pub mod Examples
use cil.Base.{
  ℕ, ◌+◌, List, [], ◌∷◌, ◌++◌, Option, none, some, Bool, true, false, not, ◌&&◌, ◌||◌, ◌==◌,
  if◌then◌else◌, Status, sepol_ok, sepol_err, sepol_enoent, is_ok,
}
use cil.Flavor.{Flavor, cil_in, cil_block, cil_macro, cil_typealias, cil_sensalias, cil_catalias}
use cil.Text.{Text, text_eq}
use cil.Flavor.Index.{flavor_to_symtab_index, cil_sym_blocks, cil_sym_unknown}

pub record SymtabPtr : Type 0 where
  pub array : ℕ
  pub index : ℕ

-- `&symtab[i]` of a pointer into an array.
abbrev pub at : SymtabPtr → ℕ → SymtabPtr
at p i = record p { index = p.index + i }

pub record Store : Type 0 where
  pub root : ℕ
  pub search : SymtabPtr → Text → Option ℕ
  pub flavor_of : ℕ → Flavor
  pub array_of : ℕ → ℕ
  pub symtab_of : ℕ → SymtabPtr
  pub actual_of : ℕ → Option ℕ

-- The table `i` of a block or a macro, and of the root.
abbrev pub symtab_in : ℕ → ℕ → SymtabPtr
symtab_in a i = record { array = a; index = i }

-- Of `struct cil_args`.
pub record Arg : Type 0 where
  pub arg : Option ℕ
  pub param_str : Text
  pub arg_flavor : Flavor

-- A node: no node, the root, a block, a blockinherit with the node of its block, a macro, a call
-- with the parent of the node of its macro, or another; behind it its parent.
pub data Scope : Type 0 where
  no_node root_node : Scope
  block_node : ℕ → Scope → Scope
  blockinherit_node : Scope → Scope → Scope
  macro_node : ℕ → Scope → Scope
  call_node : Option (List Arg) → Scope → Scope → Scope
  other_node : Scope → Scope

-- What a lookup returns and what it leaves in `*datum`.
abbrev pub Found : Type 0
Found = Status × Option ℕ

abbrev pub returned : Option ℕ → Found
returned none = (sepol_enoent, none)
returned (some d) = (sepol_ok, some d)

unfoldable pub get_datum : Store → SymtabPtr → Text → Found
get_datum st p key = returned (st.search p key)

-- The loop over the arguments, with `param_index` as the arguments before have left it; an
-- argument whose flavor has no table leaves it as it is.
unfoldable pub find_arg : ℕ → List Arg → Text → ℕ → Option ℕ → Found
unfolding flavor_to_symtab_index
find_arg param_index [] name sym_index datum = (sepol_err, datum)
find_arg param_index (a ∷ args) name sym_index datum =
    let i = (flavor_to_symtab_index a.arg_flavor param_index).1 in
    let rest = find_arg i args name sym_index datum in
    if i == sym_index && text_eq name a.param_str then (sepol_ok, a.arg) else rest

unfoldable pub resolve_name_call_args : Option (List Arg) → Text → ℕ → Option ℕ → Found
unfolding find_arg
resolve_name_call_args none name sym_index datum = (sepol_err, datum)
resolve_name_call_args (some args) name sym_index datum =
    find_arg cil_sym_unknown args name sym_index datum

unfoldable pub resolve_name_with_root : Store → Text → ℕ → Found
unfolding get_datum
resolve_name_with_root st name sym_index = get_datum st (symtab_in st.root sym_index) name

-- The loop from a node on, after what it has found so far.
unfoldable pub search_from : Store → Scope → Text → ℕ → Found → Found
unfolding get_datum resolve_name_call_args
search_from st no_node name i f = f
search_from st root_node name i f = f
search_from st (block_node a parent) name i f =
    let r = get_datum st (symtab_in a i) name in
    let rest = search_from st parent name i r in if is_ok r.0 then r else rest
search_from st (blockinherit_node block parent) name i f =
    let r = search_from st parent name i (sepol_err, f.1) in
    let again = search_from st block name i (sepol_err, r.1) in if is_ok r.0 then r else again
search_from st (macro_node a parent) name i f =
    let r = get_datum st (symtab_in a i) name in
    let rest = search_from st parent name i r in if is_ok r.0 then r else rest
search_from st (call_node args above_macro parent) name i f =
    let r = resolve_name_call_args args name i f.1 in
    let s = search_from st above_macro name i (sepol_err, r.1) in
    let rest = search_from st parent name i s in
    if is_ok r.0 then r else if is_ok s.0 then s else rest
search_from st (other_node parent) name i f = search_from st parent name i f

unfoldable pub resolve_name_with_parents : Store → Scope → Text → ℕ → Option ℕ → Found
unfolding search_from
resolve_name_with_parents st node name i datum = search_from st node name i (sepol_err, datum)

unfoldable pub resolve_name_helper : Store → Scope → Text → ℕ → Option ℕ → Found
unfolding resolve_name_with_parents resolve_name_with_root
resolve_name_helper st node name i datum =
    let r = resolve_name_with_parents st node name i datum in
    if is_ok r.0 then r else resolve_name_with_root st name i

abbrev pub dot : ℕ
dot = b'.'

-- `strchr(name, '.') != NULL`
unfoldable pub has_dot : Text → Bool
has_dot [] = false
has_dot (c ∷ cs) = let rest = has_dot cs in if c == dot then true else rest

abbrev pub emit : Text → List Text → List Text
emit [] ts = ts
emit (c ∷ cs) ts = (c ∷ cs) ∷ ts

-- What `strtok_r` with "." yields one after the other, with the token begun so far.
unfoldable pub tokens : Text → Text → List Text
tokens w [] = emit w []
tokens w (c ∷ cs) =
    let next = tokens [] cs in
    let more = tokens (w ++ c ∷ []) cs in if c == dot then emit w next else more

-- The loop over the parts of the name, and the lookup of the last.
unfoldable pub resolve_parts : Store → Bool → ℕ → SymtabPtr → Text → List Text → Found
unfolding get_datum
resolve_parts st from_in i p current [] = get_datum st (at p i) current
resolve_parts st from_in i p current (next ∷ ts) = elim (st.search p current) [
  | none ↦ (sepol_enoent, none)
  | some d ↦
      if st.flavor_of d == cil_block
      then resolve_parts st from_in i (symtab_in (st.array_of d) cil_sym_blocks) next ts
      else if not from_in
      then (sepol_err, some d)
      else if st.flavor_of d == cil_macro
      then resolve_parts st from_in i (symtab_in (st.array_of d) i) next ts
      else resolve_parts st from_in i (st.symtab_of d) next ts
]

abbrev pub starts_with_dot : Text → Bool
starts_with_dot [] = false
starts_with_dot (c ∷ cs) = c == dot

-- The lookup of the parts from the table of the block that the first part has been resolved to. A
-- null datum with SEPOL_OK, which the C code reads, is an error here.
unfoldable pub resolve_parts_in : Store → Bool → ℕ → Found → Text → List Text → Found
unfolding resolve_parts
resolve_parts_in st from_in i (rc, none) current ts = (if is_ok rc then sepol_err else rc, none)
resolve_parts_in st from_in i (rc, some d) current ts =
    if is_ok rc then resolve_parts st from_in i (st.symtab_of d) current ts else (rc, none)

-- A name with a dot. The parameters of a call are compared with its first part by their text, where
-- the C code compares pointers, and the part is no pooled string; no parameter is a block, the only
-- kind that is looked up here. A name of dots only has no token; the C code then looks up a null pointer.
unfoldable pub resolve_dotted : Store → Bool → Scope → Text → List Text → ℕ → Found
unfolding resolve_parts resolve_parts_in resolve_name_helper
resolve_dotted st from_in parent name [] i = (sepol_err, none)
resolve_dotted st from_in parent name (current ∷ ts) i =
    if starts_with_dot name
    then resolve_parts st from_in i (symtab_in st.root cil_sym_blocks) current ts
    else resolve_parts_in st from_in i (resolve_name_helper st parent current cil_sym_blocks none)
        current ts

abbrev pub is_alias : Flavor → Bool
is_alias f = f == cil_typealias || f == cil_sensalias || f == cil_catalias

-- An alias stands for its actual datum, once that is known.
unfoldable pub actual_datum : Store → ℕ → ℕ
actual_datum st d = elim (st.actual_of d) [
  | none ↦ d
  | some a ↦ if is_alias (st.flavor_of d) then a else d
]

-- What follows the label `exit`.
unfoldable pub finish : Store → Found → Found
unfolding actual_datum
finish st (rc, none) = (rc, none)
finish st (rc, some d) = if is_ok rc then (rc, some (actual_datum st d)) else (rc, none)

-- From a node of the given flavor and parent.
pub resolve_name : Store → Flavor → Scope → Text → ℕ → Found
unfolding has_dot tokens resolve_dotted resolve_name_helper finish
resolve_name st flavor parent name i = finish st (
    if has_dot name
    then resolve_dotted st (flavor == cil_in) parent name (tokens [] name) i
    else resolve_name_helper st parent name i none)

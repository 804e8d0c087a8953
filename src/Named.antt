-- ===== src/Named.antt =====
-- The resolution of statements that are made of names, of src/cil_resolve_ast.c. `resolve` is
-- cil_resolve_name for a name and an index of symbol tables, with the address of the datum, and
-- `flavor` is the flavor of the node of a datum.
pub mod Examples
use cil.Base.{
  ℕ, List, [], ◌∷◌, ◌++◌, Option, none, some, Bool, true, false, ◌&&◌, ◌||◌, not, ◌==◌,
  if◌then◌else◌, Status, sepol_ok, sepol_err, is_ok,
}
use cil.Flavor.{Flavor, cil_type, cil_typeattribute, cil_typealias, cil_role, cil_user}
use cil.Flavor.Index.{
  cil_sym_types, cil_sym_classes, cil_sym_roles, cil_sym_users, cil_sym_unknown,
  flavor_to_symtab_index,
}
use cil.Text.{Text}

-- A name that a statement wants: where to look, whether an attribute that it stands for is marked as
-- used (cil_type_used), and the flavors that are allowed.
pub record Wanted : Type 0 where
  pub name : Text
  pub index : ℕ
  pub marks : Bool
  pub allowed : Flavor → Bool

abbrev pub any_flavor : Flavor → Bool
any_flavor f = true

abbrev pub plain : ℕ → Text → Wanted
plain index name = record { name = name; index = index; marks = false; allowed = any_flavor }

abbrev pub used_type : Text → Wanted
used_type name = record { name = name; index = cil_sym_types; marks = true; allowed = any_flavor }

-- The status, the fields of the statement that have been set, in their order, and the attributes that
-- are marked.
pub record Named : Type 0 where
  pub status : Status
  pub fields : List ℕ
  pub used : List ℕ

module _ (resolve : Text → ℕ → Status × ℕ) (flavor : ℕ → Flavor) where
  unfoldable pub resolve_names : List Wanted → List ℕ → Named
  resolve_names [] used = record { status = sepol_ok; fields = []; used = used }
  resolve_names (w ∷ ws) used =
      let r = resolve w.name w.index in
      let rest =
        resolve_names ws
          (if w.marks && flavor r.1 == cil_typeattribute then r.1 ∷ used else used) in
      if not (is_ok r.0)
      then record { status = r.0; fields = []; used = used }
      else if not (w.allowed (flavor r.1))
      then record { status = sepol_err; fields = []; used = used }
      else record { status = rest.status; fields = r.1 ∷ rest.fields; used = rest.used }

  unfoldable pub resolve_type_rule : Text → Text → Text → Text → List ℕ → Named
  unfolding resolve_names
  resolve_type_rule src_str tgt_str obj_str result_str = resolve_names (
      used_type src_str
      ∷ used_type tgt_str
      ∷ plain cil_sym_classes obj_str
      ∷ record (plain cil_sym_types result_str) { allowed = λ f. f == cil_type }
      ∷ [])

  unfoldable pub resolve_typepermissive : Text → List ℕ → Named
  unfolding resolve_names
  resolve_typepermissive type_str = resolve_names (
      record (plain cil_sym_types type_str) { allowed = λ f. f == cil_type || f == cil_typealias }
      ∷ [])

  unfoldable pub resolve_roletype : Text → Text → List ℕ → Named
  unfolding resolve_names
  resolve_roletype role_str type_str =
      resolve_names (plain cil_sym_roles role_str ∷ used_type type_str ∷ [])

  unfoldable pub resolve_roleallow : Text → Text → List ℕ → Named
  unfolding resolve_names
  resolve_roleallow src_str tgt_str =
      resolve_names (plain cil_sym_roles src_str ∷ plain cil_sym_roles tgt_str ∷ [])

  unfoldable pub resolve_userprefix : Text → List ℕ → Named
  unfolding resolve_names
  resolve_userprefix user_str = resolve_names (plain cil_sym_users user_str ∷ [])

  unfoldable pub resolve_roletransition : Text → Text → Text → Text → List ℕ → Named
  unfolding resolve_names
  resolve_roletransition src_str tgt_str obj_str result_str = resolve_names (
      plain cil_sym_roles src_str
      ∷ used_type tgt_str
      ∷ plain cil_sym_classes obj_str
      ∷ record (plain cil_sym_roles result_str) { allowed = λ f. f == cil_role }
      ∷ [])

  -- The roles of the users, by their addresses: the role goes to the end of the user's.
  abbrev pub add_role : (ℕ → List ℕ) → Named → ℕ → List ℕ
  add_role roles n u = elim n.fields [
    | user ∷ (role ∷ rest) ↦ if is_ok n.status && u == user then roles u ++ (role ∷ []) else roles u
    | _ ↦ roles u
  ]

  unfoldable pub resolve_userrole : Text → Text → (ℕ → List ℕ) → List ℕ → Named × (ℕ → List ℕ)
  unfolding resolve_names
  resolve_userrole user_str role_str roles used =
      let n =
        resolve_names (plain cil_sym_users user_str ∷ plain cil_sym_roles role_str ∷ []) used in
      (n, add_role roles n)

  abbrev pub is_bound : Option ℕ → Bool
  is_bound none = false
  is_bound (some a) = true

  -- The fields `bounds` by the addresses of the children. For roles and users the flavors are not
  -- looked at.
  unfoldable pub bind : Flavor → ℕ → ℕ → (ℕ → Option ℕ) → Status × (ℕ → Option ℕ)
  bind kind parent child bounds =
      let set = λ (c : ℕ). if c == child then some parent else bounds c in
      if kind == cil_user || kind == cil_role
      then (if is_bound (bounds child) then (sepol_err, bounds) else (sepol_ok, set))
      else if kind == cil_type
      then (if is_bound (bounds child)
          then (sepol_err, bounds)
          else if flavor parent == cil_typeattribute || flavor child == cil_typeattribute
          then (sepol_err, bounds)
          else (sepol_ok, set))
      else (sepol_ok, bounds)

  unfoldable pub resolve_bounds : Flavor → Text → Text → (ℕ → Option ℕ) → Status × (ℕ → Option ℕ)
  unfolding bind flavor_to_symtab_index
  resolve_bounds kind parent_str child_str bounds =
      let i = flavor_to_symtab_index kind cil_sym_unknown in
      let parent = resolve parent_str i.1 in
      let child = resolve child_str i.1 in
      if not (is_ok i.0)
      then (i.0, bounds)
      else if not (is_ok parent.0)
      then (parent.0, bounds)
      else if not (is_ok child.0)
      then (child.0, bounds)
      else bind kind parent.1 child.1 bounds

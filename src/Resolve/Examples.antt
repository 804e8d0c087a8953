-- ===== src/Resolve/Examples.antt =====
-- Names looked up in
--   (block a (block b (type t))) (typealias s) (typealiasactual s a.b.t) (type t)
-- whose data have the addresses 1 (a), 2 (b), 3 (a.b.t), 4 (s) and 5 (t).
use cil.Base.{ℕ, List, [], ◌∷◌, none, some, ◌≡◌, refl, ◌==◌, if◌then◌else◌, sepol_ok}
use cil.Flavor.{cil_block, cil_type, cil_typealias, cil_typepermissive}
use cil.Flavor.Index.{cil_sym_types}
use cil.Text.{Text, codes}
use cil.Hashtab.Assoc.{search_entries}
use cil.Resolve.{
  symtab_in, Store, Scope, root_node, block_node, call_node, blockinherit_node, has_dot,
  resolve_name, actual_datum,
}
use cil.Resolve.Scopes.{Outcome, order, first_hit, resolve_name-places}
use cil.Resolve.Tokens.{dotted_name}
use cil.Resolve.Dotted.{declared_at, resolve_name-absolute, resolve_name-relative}

abbrev entries : ℕ → ℕ → List (Text × ℕ)
entries a i =
    if a == 0
    then (if i == 0
        then (codes "a", 1) ∷ []
        else if i == cil_sym_types
        then (codes "s", 4) ∷ (codes "t", 5) ∷ []
        else [])
    else if a == 1
    then (if i == 0 then (codes "b", 2) ∷ [] else [])
    else if i == cil_sym_types
    then (codes "t", 3) ∷ []
    else []

abbrev policy : Store
policy = record {
  root = 0;
  search = λ p. search_entries (entries p.array p.index);
  flavor_of = λ d.
      if d == 1
      then cil_block
      else if d == 2
      then cil_block
      else if d == 4
      then cil_typealias
      else cil_type;
  array_of = λ d. d;
  symtab_of = λ d. if d == 2 then symtab_in 1 0 else symtab_in 0 0;
  actual_of = λ d. if d == 4 then some 3 else none;
}

-- A statement in the block b of a.
abbrev in_b : Scope
in_b = block_node 2 (block_node 1 root_node)

abbrev call_in_b : Scope
call_in_b =
    call_node (some (record { arg = some 5; param_str = codes "x"; arg_flavor = cil_type } ∷ []))
      root_node in_b

shadowed :
    resolve_name policy cil_typepermissive in_b (codes "t") cil_sym_types ≡ (sepol_ok, some 3)
unfolding resolve_name search_entries
shadowed = refl

alias : resolve_name policy cil_typepermissive in_b (codes "s") cil_sym_types ≡ (sepol_ok, some 3)
unfolding resolve_name search_entries
alias = refl

parameter :
    resolve_name policy cil_typepermissive call_in_b (codes "x") cil_sym_types ≡ (sepol_ok, some 5)
unfolding resolve_name search_entries
parameter = refl

inherited :
    resolve_name policy cil_typepermissive
      (blockinherit_node in_b root_node)
      (codes "t")
      cil_sym_types
    ≡ (sepol_ok, some 3)
unfolding resolve_name search_entries
inherited = refl

resolve_name-places_example :
    resolve_name policy cil_typepermissive call_in_b (codes "s") cil_sym_types ≡ (sepol_ok, some 3)
unfolding first_hit order has_dot actual_datum search_entries
resolve_name-places_example =
    resolve_name-places policy cil_typepermissive call_in_b (codes "s") cil_sym_types refl

resolve_name-absolute_example :
    resolve_name policy cil_typepermissive in_b (codes ".a.b.t") cil_sym_types ≡ (sepol_ok, some 3)
unfolding declared_at dotted_name has_dot actual_datum search_entries
resolve_name-absolute_example =
    resolve_name-absolute policy cil_typepermissive in_b (codes "a") (codes "b" ∷ codes "t" ∷ [])
      cil_sym_types refl refl (refl, (refl, tt))

-- There is a t in the root, but none in a.
resolve_name-relative_example :
    Outcome policy none (resolve_name policy cil_typepermissive in_b (codes "b.b.t") cil_sym_types)
unfolding declared_at dotted_name first_hit order has_dot actual_datum search_entries
resolve_name-relative_example =
    resolve_name-relative policy cil_typepermissive in_b (codes "b") (codes "b") (codes "t" ∷ [])
      cil_sym_types 2 1 refl refl refl (refl, tt) refl refl

-- ===== src/Walk.antt =====
-- Walking the AST, of src/cil_tree.c, and a check that walks it, of src/cil_verify.c. A node of the
-- AST has some content and its children, in order. A callback may be NULL; it gets the node, and
-- `extra_args` is a state that it returns changed.
pub mod Visits
pub mod Ordered
pub mod Examples
use cil.Base.{
  ℕ, ◌+◌, ◌/◌, ◌%◌, List, [], ◌∷◌, Option, none, some, Bool, true, false, not, ◌&&◌, ◌||◌, ◌==◌,
  if◌then◌else◌, Status, sepol_ok, sepol_err, is_ok,
}
use cil.Flavor.{Flavor, cil_sid, cil_class, cil_cat, cil_sens}

mutual
  pub data Ast (A : Type 0) : Type 0 where
    ast : A → Asts A → Ast A

  pub data Asts (A : Type 0) : Type 0 where
    no_ast : Asts A
    one_ast : Ast A → Asts A → Asts A

-- What `process_node` returns and sets: the status, `*finished`, and the state.
pub record Processed (S : Type 0) : Type 0 where
  pub status : Status
  pub finished : ℕ
  pub state : S

-- CIL_TREE_SKIP_NEXT is bit 0 of `finished`, CIL_TREE_SKIP_HEAD bit 1.
abbrev pub skips_next : ℕ → Bool
skips_next finished = finished % 2 == 1

abbrev pub skips_head : ℕ → Bool
skips_head finished = finished / 2 % 2 == 1

abbrev pub last_of : {A : Type 0} → Ast A → Asts A → Ast A
last_of a no_ast = a
last_of a (one_ast b bs) = last_of b bs

-- `next` unless the status says otherwise.
abbrev pub and_then : {S : Type 0} → Status × S → (S → Status × S) → Status × S
and_then r next = if is_ok r.0 then next r.1 else r

module _ {A S : Type 0} (process_node : Option (Ast A → S → Processed S))
    (first_child last_child : Option (Ast A → S → Status × S)) where
  abbrev pub run_process : Ast A → S → Processed S
  run_process a s = elim process_node [
    | none ↦ record { status = sepol_ok; finished = 0; state = s }
    | some f ↦ f a s
  ]

  abbrev pub run_child : Option (Ast A → S → Status × S) → Ast A → S → Status × S
  run_child none a s = (sepol_ok, s)
  run_child (some f) a s = f a s

  mutual
    pub walk_core : Asts A → S → Status × S
    walk_core no_ast s = (sepol_ok, s)
    walk_core (one_ast a as1) s =
        let p = run_process a s in
        let below = walk a in
        let rest = walk_core as1 in
        if not (is_ok p.status)
        then (p.status, p.state)
        else if skips_next p.finished
        then (sepol_ok, p.state)
        else if skips_head p.finished
        then rest p.state
        else and_then (below p.state) rest

    pub walk : Ast A → S → Status × S
    walk (ast a no_ast) s = (sepol_ok, s)
    walk (ast a (one_ast b bs)) s =
        let core = walk_core (one_ast b bs) in
        and_then (run_child first_child b s)
          (λ t. and_then (core t) (λ u. run_child last_child (last_of b bs) u))

-- A declaration's node: its flavor, and the field `ordered` where it has one.
pub record Declared : Type 0 where
  pub flavor : Flavor
  pub ordered : Bool

abbrev pub has_order : Flavor → Bool
has_order f = f == cil_sid || f == cil_class || f == cil_cat || f == cil_sens

pub verify_ordered_node_helper : Flavor → Ast Declared → Unit {0} → Processed (Unit {0})
verify_ordered_node_helper flavor (ast d children) args = record {
  status =
      if d.flavor == flavor
      then (if has_order d.flavor && not d.ordered then sepol_err else sepol_ok)
      else sepol_ok;
  finished = 0;
  state = args;
}

pub verify_ordered : Ast Declared → Flavor → Status
unfolding walk verify_ordered_node_helper
verify_ordered current flavor =
    (walk (some (verify_ordered_node_helper flavor)) none none current tt).0

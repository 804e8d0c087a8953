-- ===== src/Passes/Loop.antt =====
-- The loop over the passes, of src/cil_resolve_ast.c, with fuel, and the number of passes that it may
-- take.
use cil.Base.{
  ℕ, zero, suc, ◌+◌, ◌*◌, [], Option, none, some, false, ◌&&◌, not, ltb, leb, ◌==◌, if◌then◌else◌,
  Status, is_ok,
}
use cil.Flavor.{cil_optional}
use cil.Passes.{
  NodeData, ResolveArgs, Tree, Trees, walk_children, cil_pass_num, cil_pass_call1, cil_pass_tif,
}
use cil.Walk.{ast, no_ast, one_ast}

-- The loop of cil_resolve_ast, from a pass on; `none` where the fuel is used up. An optional that has
-- been disabled after CIL_PASS_CALL1 makes the loop go back to the pass behind that. `reset_ast` is
-- cil_reset_ast, `verify_initsids` the check of the initial sids at the end.
module _ {D : Type 0} (resolve : ℕ → NodeData → ResolveArgs D → Status × D)
    (after_pass : ℕ → Tree → ResolveArgs D → Status × D) (reset_ast : Tree → D → Status × D)
    (verify_initsids : D → Status) where
  unfoldable pub resolve_ast_from : ℕ → ℕ → Tree → ResolveArgs D → Option Status
  unfolding walk_children
  resolve_ast_from zero pass tree args = none
  resolve_ast_from (suc fuel) pass tree args =
      let w = walk_children resolve pass tree args in
      let p = after_pass pass w.nodes w.args in
      let r = reset_ast w.nodes p.1 in
      let again =
        resolve_ast_from fuel (cil_pass_call1 + 1) w.nodes
          (record w.args { db = r.1; changed = false; callstack = []; optstack = [] }) in
      let next =
        resolve_ast_from fuel (pass + 1) w.nodes
          (record w.args { db = p.1; changed = false; callstack = []; optstack = [] }) in
      if leb cil_pass_num pass
      then some (verify_initsids args.db)
      else if not (is_ok w.status)
      then some w.status
      else if not (is_ok p.0)
      then some p.0
      else if w.args.changed && ltb cil_pass_call1 pass
      then (if is_ok r.0 then again else some r.0)
      else next

abbrev pub initial_args : {D : Type 0} → D → ResolveArgs D
initial_args db = record {
  db = db;
  changed = false;
  callstack = [];
  optstack = [];
  boolif = false;
  macro = false;
  disabled = [];
}

-- The optionals with children.
unfoldable mutual
  pub optionals : Tree → ℕ
  optionals (ast i no_ast) = 0
  optionals (ast i (one_ast n ns)) =
      (if i.flavor == cil_optional then 1 else 0) + (optionals n + optionals_among ns)

  pub optionals_among : Trees → ℕ
  optionals_among no_ast = 0
  optionals_among (one_ast n ns) = optionals n + optionals_among ns

module _ {D : Type 0} (resolve : ℕ → NodeData → ResolveArgs D → Status × D)
    (after_pass : ℕ → Tree → ResolveArgs D → Status × D) (reset_ast : Tree → D → Status × D)
    (verify_initsids : D → Status) where
  -- The fuel is enough for seven passes for each optional, and all passes once.
  unfoldable pub resolve_ast : D → Tree → Option Status
  unfolding resolve_ast_from optionals
  resolve_ast db tree =
      resolve_ast_from resolve after_pass reset_ast verify_initsids (optionals tree * 7 + 15)
        cil_pass_tif tree (initial_args db)

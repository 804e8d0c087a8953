-- ===== src/Passes.antt =====
-- The passes that resolve the AST, of src/cil_resolve_ast.c: the helpers that cil_tree_walk calls, and
-- the loop of cil_resolve_ast, which goes back when an optional has been disabled. What the passes do
-- to one statement (__cil_resolve_ast_node) is the parameter `resolve`, and what follows a pass
-- (cil_resolve_in_list, the merging and the check of the ordering statements) the parameter
-- `after_pass`. A node is given with the children that it has after the expansions of the early passes.
pub mod Loop
pub mod Optionals
pub mod Stacks
pub mod Found
pub mod Missing
pub mod Ends
pub mod Examples
use cil.Base.{
  ℕ, zero, suc, ◌+◌, ◌*◌, List, [], ◌∷◌, Option, none, some, Bool, true, false, ◌&&◌, ◌||◌, not,
  ltb, leb, ◌==◌, if◌then◌else◌, Status, sepol_ok, sepol_err, sepol_enoent, is_ok,
}
use cil.Flavor.{
  Flavor, cil_block, cil_macro, cil_optional, cil_call, cil_tunable, cil_booleanif, cil_condblock,
  cil_avrule, cil_type_rule, cil_tunableif, cil_nametypetransition,
}
use cil.Walk.{Ast, Asts, ast, no_ast, one_ast}

-- `enum cil_pass`
abbrev pub cil_pass_tif : ℕ
cil_pass_tif = 1

abbrev pub cil_pass_blkabs : ℕ
cil_pass_blkabs = 5

abbrev pub cil_pass_macro : ℕ
cil_pass_macro = 6

abbrev pub cil_pass_call1 : ℕ
cil_pass_call1 = 7

abbrev pub cil_pass_num : ℕ
cil_pass_num = 15

-- A node: its flavor, and of its data the address (for a call, that of its macro) and whether it is
-- an abstract block.
pub record NodeData : Type 0 where
  pub flavor : Flavor
  pub addr : ℕ
  pub is_abstract : Bool

abbrev pub Tree : Type 0
Tree = Ast NodeData

abbrev pub Trees : Type 0
Trees = Asts NodeData

-- `struct cil_args_resolve`, with what the database and the data of the nodes hold (of some type D),
-- and the optionals whose field `enabled` is CIL_FALSE. A stack has its
-- top first.
pub record ResolveArgs (D : Type 0) : Type 0 where
  pub db : D
  pub changed : Bool
  pub callstack : List ℕ
  pub optstack : List ℕ
  pub boolif : Bool
  pub macro : Bool
  pub disabled : List ℕ

abbrev pub is_among : ℕ → List ℕ → Bool
is_among a [] = false
is_among a (b ∷ bs) = a == b || is_among a bs

abbrev pub is_enoent : Status → Bool
is_enoent sepol_enoent = true
is_enoent _ = false

abbrev pub in_optional : List ℕ → Bool
in_optional [] = false
in_optional (o ∷ os) = true

abbrev pub allowed_in_booleanif : Flavor → Bool
allowed_in_booleanif f =
    f == cil_condblock
    || (f == cil_avrule
        || (f == cil_type_rule
            || (f == cil_call || (f == cil_tunableif || f == cil_nametypetransition))))

-- What a helper returns, whether it sets CIL_TREE_SKIP_HEAD, and the arguments.
pub record Helped (D : Type 0) : Type 0 where
  pub status : Status
  pub skip_head : Bool
  pub args : ResolveArgs D

-- After the resolution of the statement: one that has not been found disables the optional that it
-- stands in.
unfoldable pub disable_optional : {D : Type 0} → Status → ResolveArgs D → List ℕ → Helped D
disable_optional rc args [] = record { status = rc; skip_head = false; args = args }
disable_optional rc args (o ∷ os) =
    if is_enoent rc
    then record {
      status = sepol_ok;
      skip_head = false;
      args = record args { disabled = o ∷ args.disabled };
    }
    else record { status = rc; skip_head = false; args = args }

abbrev pub pop : List ℕ → List ℕ
pop [] = []
pop (a ∷ as1) = as1

-- `__cil_resolve_ast_first_child_helper`, by the parent of the child. A call is compared with those
-- below the top of the stack, not with the top.
unfoldable pub first_child_helper : {D : Type 0} → NodeData → ResolveArgs D → Status × ResolveArgs D
first_child_helper parent args =
    if parent.flavor == cil_call
    then (if is_among parent.addr (pop args.callstack)
        then (sepol_err, args)
        else (sepol_ok, record args { callstack = parent.addr ∷ args.callstack }))
    else if parent.flavor == cil_optional
    then (sepol_ok, record args { optstack = parent.addr ∷ args.optstack })
    else if parent.flavor == cil_booleanif
    then (sepol_ok, record args { boolif = true })
    else if parent.flavor == cil_macro
    then (sepol_ok, record args { macro = true })
    else (sepol_ok, args)

-- Whether `__cil_resolve_ast_last_child_helper` destroys the children.
abbrev pub destroys : {D : Type 0} → NodeData → ResolveArgs D → Bool
destroys parent args = parent.flavor == cil_optional && is_among parent.addr args.disabled

unfoldable pub last_child_helper : {D : Type 0} → NodeData → ResolveArgs D → ResolveArgs D
last_child_helper parent args =
    if parent.flavor == cil_call
    then record args { callstack = pop args.callstack }
    else if parent.flavor == cil_macro
    then record args { macro = false }
    else if parent.flavor == cil_optional
    then record args {
      changed = destroys parent args || args.changed;
      optstack = pop args.optstack;
    }
    else if parent.flavor == cil_booleanif
    then record args { boolif = false }
    else args

abbrev pub node_data : Tree → NodeData
node_data (ast i ns) = i

-- What a walk returns, the arguments, and the nodes.
pub record Walked (D X : Type 0) : Type 0 where
  pub status : Status
  pub args : ResolveArgs D
  pub nodes : X

-- A statement that is not allowed where it stands, one whose children the pass leaves out, and one
-- that is resolved.
pub data Verdict : Type 0 where
  refused skipped resolved : Verdict

unfoldable pub verdict : {D : Type 0} → ℕ → NodeData → ResolveArgs D → Verdict
verdict pass node args =
    if in_optional args.optstack && (node.flavor == cil_tunable || node.flavor == cil_macro)
    then refused
    else if args.boolif && not (allowed_in_booleanif node.flavor)
    then refused
    else if node.flavor == cil_macro && (not (pass == cil_pass_tif) && not (pass == cil_pass_macro))
    then skipped
    else if node.flavor == cil_block && (node.is_abstract && ltb cil_pass_blkabs pass)
    then skipped
    else resolved

-- With what the resolution of the statement gives.
unfoldable pub after_verdict : {D : Type 0} → Verdict → Status × D → ResolveArgs D → Helped D
unfolding disable_optional
after_verdict refused resolution args = record {
  status = sepol_err;
  skip_head = false;
  args = args;
}
after_verdict skipped resolution args = record { status = sepol_ok; skip_head = true; args = args }
after_verdict resolved resolution args =
    disable_optional resolution.0 (record args { db = resolution.1 }) args.optstack

-- What cil_tree_walk does once the walk of the children is over.
unfoldable pub after_children : {D : Type 0} → NodeData → Walked D Trees → Walked D Tree
unfolding last_child_helper
after_children i w =
    if not (is_ok w.status)
    then record { status = w.status; args = w.args; nodes = ast i w.nodes }
    else record {
      status = sepol_ok;
      args = last_child_helper i w.args;
      nodes = ast i (if destroys i w.args then no_ast else w.nodes);
    }

module _ {D : Type 0} (resolve : ℕ → NodeData → ResolveArgs D → Status × D) (pass : ℕ) where
  unfoldable pub node_helper : NodeData → ResolveArgs D → Helped D
  unfolding verdict after_verdict
  node_helper node args = after_verdict (verdict pass node args) (resolve pass node args) args

  -- `cil_tree_walk_core` and `cil_tree_walk` with the helpers.
  unfoldable mutual
    unfolding node_helper first_child_helper after_children

    pub walk_siblings : Trees → ResolveArgs D → Walked D Trees
    walk_siblings no_ast args = record { status = sepol_ok; args = args; nodes = no_ast }
    walk_siblings (one_ast n ns) args =
        let p = node_helper (node_data n) args in
        let below = walk_children n p.args in
        let after = walk_siblings ns below.args in
        let skipped = walk_siblings ns p.args in
        if not (is_ok p.status)
        then record { status = p.status; args = p.args; nodes = one_ast n ns }
        else if p.skip_head
        then record {
          status = skipped.status;
          args = skipped.args;
          nodes = one_ast n skipped.nodes;
        }
        else if is_ok below.status
        then record {
          status = after.status;
          args = after.args;
          nodes = one_ast below.nodes after.nodes;
        }
        else record { status = below.status; args = below.args; nodes = one_ast below.nodes ns }

    pub walk_children : Tree → ResolveArgs D → Walked D Tree
    walk_children (ast i no_ast) args = record {
      status = sepol_ok;
      args = args;
      nodes = ast i no_ast;
    }
    walk_children (ast i (one_ast n ns)) args =
        let first = first_child_helper i args in
        let over = after_children i (walk_siblings (one_ast n ns) first.1) in
        if not (is_ok first.0)
        then record { status = first.0; args = first.1; nodes = ast i (one_ast n ns) }
        else over

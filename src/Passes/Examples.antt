-- ===== src/Passes/Examples.antt =====
-- A policy with an optional, whose second rule names what is not declared, and a call of a macro. The
-- database is the number of rules that have been resolved.
use cil.Base.{
  ◌≡◌, refl, ◌+◌, false, some, [], ◌∷◌, ℕ, true, false, Status, sepol_ok, sepol_err, sepol_enoent,
  ◌==◌, ◌&&◌, if◌then◌else◌, is_ok,
}
use cil.Flavor.{cil_root, cil_optional, cil_avrule, cil_call}
use cil.Passes.{NodeData, ResolveArgs, Tree, walk_children, first_child_helper}
use cil.Passes.Ends.{resolve_ast-ends}
use cil.Passes.Loop.{resolve_ast, initial_args}
use cil.Passes.Stacks.{SameStacks, walk_children-SameStacks}
use cil.Walk.{ast, no_ast, one_ast}

-- CIL_PASS_MISC3 is 14; it does not find rule 9.
abbrev not_found_9 : ℕ → NodeData → ResolveArgs ℕ → Status × ℕ
not_found_9 pass node args =
    if pass == 14 && node.flavor == cil_avrule
    then (if node.addr == 9 then (sepol_enoent, args.db) else (sepol_ok, args.db + 1))
    else (sepol_ok, args.db)

abbrev leaf : ℕ → ℕ → Tree
leaf f a = ast (record { flavor = f; addr = a; is_abstract = false }) no_ast

abbrev optional_5 : Tree
optional_5 =
    ast (record { flavor = cil_optional; addr = 5; is_abstract = false })
      (one_ast (leaf cil_avrule 8) (one_ast (leaf cil_avrule 9) no_ast))

abbrev call_3 : NodeData
call_3 = record { flavor = cil_call; addr = 3; is_abstract = false }

abbrev root : NodeData
root = record { flavor = cil_root; addr = 0; is_abstract = false }

abbrev policy : Tree
policy =
    ast root (one_ast optional_5 (one_ast (ast call_3 (one_ast (leaf cil_avrule 8) no_ast)) no_ast))

abbrev ok_pass : ℕ → Tree → ResolveArgs ℕ → Status × ℕ
ok_pass pass tree args = (sepol_ok, args.db)

abbrev ok_reset : Tree → ℕ → Status × ℕ
ok_reset tree db = (sepol_ok, 0)

abbrev one_rule : ℕ → Status
one_rule db = if db == 1 then sepol_ok else sepol_err

resolve_ast-ends_example :
    (rc : Status) × (resolve_ast not_found_9 ok_pass ok_reset one_rule 0 policy ≡ some rc)
resolve_ast-ends_example = resolve_ast-ends not_found_9 ok_pass ok_reset one_rule 0 policy

-- The reset undoes the first rule of the optional; the second time only the rule of the call is there.
resolved_policy : resolve_ast not_found_9 ok_pass ok_reset one_rule 0 policy ≡ some sepol_ok
unfolding resolve_ast
resolved_policy = refl

pass_14_changed : (walk_children not_found_9 14 policy (initial_args 0)).args.changed ≡ true
unfolding walk_children
pass_14_changed = refl

pass_14_is_ok : is_ok (walk_children not_found_9 14 policy (initial_args 0)).status ≡ true
unfolding walk_children
pass_14_is_ok = refl

-- Where it stands in no optional, the pass fails.
failed_pass :
    (walk_children not_found_9 14
      (ast root (one_ast (leaf cil_avrule 9) no_ast))
      (initial_args 0)).status
    ≡ sepol_enoent
unfolding walk_children
failed_pass = refl

walk_children-SameStacks_example :
    SameStacks (initial_args 0) (walk_children not_found_9 14 policy (initial_args 0)).args
walk_children-SameStacks_example =
    walk_children-SameStacks not_found_9 14 policy (initial_args 0) pass_14_is_ok

-- A call of macro 3 within macro 3 is not refused while the first is on the top of the stack.
called_again :
    (first_child_helper {D = ℕ} call_3 (record (initial_args 0) { callstack = 3 ∷ [] })).0
    ≡ sepol_ok
unfolding first_child_helper
called_again = refl

called_a_third_time :
    (first_child_helper {D = ℕ} call_3 (record (initial_args 0) { callstack = 3 ∷ 3 ∷ [] })).0
    ≡ sepol_err
unfolding first_child_helper
called_a_third_time = refl

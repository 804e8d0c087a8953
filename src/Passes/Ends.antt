-- ===== src/Passes/Ends.antt =====
-- The loop over the passes comes to its end.
use cil.Base.{
  ℕ, zero, suc, ◌+◌, ◌*◌, ◌≤◌, ◌<◌, ◌≡◌, refl, inl, inr, [], some, Bool, true, false, ◌&&◌, ltb,
  leb, Status, is_ok, Bool-cases, arith, and-eq-true,
}
use cil.Passes.{
  NodeData, ResolveArgs, Tree, walk_children, cil_pass_num, cil_pass_call1, cil_pass_tif,
}
use cil.Passes.Loop.{optionals, resolve_ast_from, initial_args, resolve_ast}
use cil.Passes.Optionals.{Shrinks, walk_children-Shrinks}

below_num : (pass : ℕ) → leb cil_pass_num pass ≡ false → pass < 15
below_num pass h = ground arith

onward_fuel :
    (o o' fuel pass : ℕ) → o' ≤ o → o * 7 + 16 ≤ suc fuel + pass → o' * 7 + 16 ≤ fuel + (pass + 1)
onward_fuel o o' fuel pass less enough = omega arith

back_fuel :
    (o o' fuel pass : ℕ)
    → o' < o
    → pass < 15
    → o * 7 + 16 ≤ suc fuel + pass
    → o' * 7 + 16 ≤ fuel + (cil_pass_call1 + 1)
back_fuel o o' fuel pass less small enough = omega arith

fewer_after : {n n' : ℕ} {c c' : Bool} → Shrinks n n' c c' → c ≡ false → c' ≡ true → n' < n
fewer_after s unchanged h = elim (s.fewer h) [ inl q ↦ absurd (cc) | inr less ↦ less ]

module _ {D : Type 0} (resolve : ℕ → NodeData → ResolveArgs D → Status × D)
    (after_pass : ℕ → Tree → ResolveArgs D → Status × D) (reset_ast : Tree → D → Status × D)
    (verify_initsids : D → Status) where
  -- Seven passes for each optional with children, and those that are left.
  ends_from :
      (fuel pass : ℕ) (tree : Tree) (args : ResolveArgs D)
      → args.changed ≡ false
      → optionals tree * 7 + 16 ≤ fuel + pass
      → pass ≤ 15
      → (rc : Status) × (resolve_ast_from resolve after_pass reset_ast verify_initsids fuel pass
            tree args
          ≡ some rc)
  unfolding resolve_ast_from
  ends_from zero pass tree args unchanged enough small = absurd (omega (arith, enough, small))
  ends_from (suc fuel) pass tree args unchanged enough small =
      let w = walk_children resolve pass tree args in
      let s = walk_children-Shrinks resolve pass tree args in
      let p = after_pass pass w.nodes w.args in
      let r = reset_ast w.nodes p.1 in
      elim (Bool-cases (leb cil_pass_num pass)) [
        | inl over ↦ rw over (verify_initsids args.db, refl)
        | inr more ↦ elim (Bool-cases (is_ok w.status)) [
          | inr bad ↦ rw (more, bad) (w.status, refl)
          | inl good ↦ elim (Bool-cases (is_ok p.0)) [
            | inr bad ↦ rw (more, good, bad) (p.0, refl)
            | inl fine ↦ elim (Bool-cases (w.args.changed && ltb cil_pass_call1 pass)) [
              | inr onward ↦
                  rw (more, good, fine, onward)
                    (ends_from fuel (pass + 1) w.nodes
                      (record w.args { db = p.1; changed = false; callstack = []; optstack = [] })
                      refl
                      (onward_fuel (optionals tree) (optionals w.nodes) fuel pass s.no_more enough)
                      (omega (arith, below_num pass more)))
              | inl back ↦
                  let both = and-eq-true w.args.changed (ltb cil_pass_call1 pass) back in
                  elim (Bool-cases (is_ok r.0)) [
                    | inr bad ↦ rw (more, good, fine, back, bad) (r.0, refl)
                    | inl again ↦
                        rw (more, good, fine, back, again)
                          (ends_from fuel (cil_pass_call1 + 1) w.nodes
                            (record w.args {
                              db = r.1;
                              changed = false;
                              callstack = [];
                              optstack = [];
                            })
                            refl
                            (back_fuel (optionals tree) (optionals w.nodes) fuel pass
                              (fewer_after s unchanged both.0) (below_num pass more) enough)
                            (omega arith))
                  ]
            ]
          ]
        ]
      ]

  -- Whatever the resolution of the statements, the work behind a pass and the reset return, and
  -- however often disabled optionals make the loop go back, the loop over the passes ends with a
  -- status: seven passes for each optional with children, and fifteen, are enough.
  pub resolve_ast-ends :
      (db : D) (tree : Tree)
      → (rc : Status) × (resolve_ast resolve after_pass reset_ast verify_initsids db tree ≡ some rc)
  unfolding resolve_ast
  resolve_ast-ends db tree =
      ends_from (optionals tree * 7 + 15) cil_pass_tif tree (initial_args db) refl (omega arith)
        (omega arith)
